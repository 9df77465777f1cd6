-- ===== src/Float.antt =====
-- The `f64` of the source: its operations as an interface, and the IEEE 754 facts that proofs use.
-- A definition takes any type with these operations. `Float.Order` derives what comparisons give, and
-- `Float.Fixed` is a type that has all the laws, on which the tests run.
pub mod Order
pub mod Fixed
pub mod FixedLaws
use swing_x.Prelude.{ℕ, ◌≤◌, ◌≡◌, ◌⊎◌, Bool, true, not, ◌&&◌, if◌then◌else◌}

-- `decimal m k` is the literal m * 10^-k, `round` rounds half away from zero, `round_usize x` is `x.round() as usize`, and
-- `ceil_usize x` is `x.ceil() as usize`, which are 0 below zero and at NaN.
pub record Float (F : Type 0) : Type 0 where
  pub of_ℕ : ℕ → F
  pub decimal : ℕ → ℕ → F
  pub infinity : F
  pub max_value : F
  pub nan : F
  pub lt : F → F → Bool
  pub le : F → F → Bool
  pub add : F → F → F
  pub sub : F → F → F
  pub mul : F → F → F
  pub div : F → F → F
  pub neg : F → F
  pub abs : F → F
  pub sqrt : F → F
  pub is_finite : F → Bool
  pub round : F → F
  pub round_usize : F → ℕ
  pub ceil_usize : F → ℕ

infix 4 ◌≼◌ ◌≺◌
abbrev pub ◌≼◌ : {F : Type 0} ⦃f : Float F⦄ → F → F → Type 0
◌≼◌ ⦃f⦄ x y = f.le x y ≡ true

abbrev pub ◌≺◌ : {F : Type 0} ⦃f : Float F⦄ → F → F → Type 0
◌≺◌ ⦃f⦄ x y = f.lt x y ≡ true

module _ {F : Type 0} ⦃f : Float F⦄ where
  open f use {lt, le}

  abbrev pub is_nan : F → Bool
  is_nan x = not (le x x)

  -- `f64::max` and `f64::min` return the other argument where one is NaN.
  abbrev pub fmax : F → F → F
  fmax x y = if is_nan x then y else if lt x y then y else x

  abbrev pub fmin : F → F → F
  fmin x y = if is_nan x then y else if lt y x then y else x

  -- `f64::clamp`.
  abbrev pub clamp : F → F → F → F
  clamp x lo hi = let y = if lt x lo then lo else x in if lt hi y then hi else y

-- NaN is the value that is not `<=` itself. Rounding is monotone, so adding a number that is not
-- negative never goes below a finite one, and multiplying by one or by minus one is exact.
pub record IsFloat (F : Type 0) ⦃f : Float F⦄ : Type 0 where
  pub number_of_le : (x y : F) → x ≼ y → (x ≼ x) × (y ≼ y)
  pub le_trans : (x y z : F) → x ≼ y → y ≼ z → x ≼ z
  pub le_total : (x y : F) → x ≼ x → y ≼ y → (x ≼ y) ⊎ (y ≼ x)
  pub lt-eq : (x y : F) → f.lt x y ≡ (f.le x y && not (f.le y x))
  pub of_ℕ_mono : (m n : ℕ) → m ≤ n → f.of_ℕ m ≼ f.of_ℕ n
  pub abs_nonneg : (x : F) → x ≼ x → f.of_ℕ 0 ≼ f.abs x
  pub le-add_nonneg : (x d : F) → f.is_finite x ≡ true → f.of_ℕ 0 ≼ d → x ≼ f.add x d
  pub sub_nonneg-le : (x d : F) → f.is_finite x ≡ true → f.of_ℕ 0 ≼ d → f.sub x d ≼ x
  pub one_mul : (x : F) → f.mul (f.of_ℕ 1) x ≡ x
  pub neg_one_mul : (x : F) → f.mul (f.neg (f.of_ℕ 1)) x ≡ f.neg x
  pub add-neg : (x y : F) → f.add x (f.neg y) ≡ f.sub x y
  pub sub-neg : (x y : F) → f.sub x (f.neg y) ≡ f.add x y

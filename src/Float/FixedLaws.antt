-- ===== src/Float/FixedLaws.antt =====
-- The decimals of `Float.Fixed` meet the laws of `f64` that the proofs use.
use swing_x.Prelude.{◌≡◌, refl, ◌⊎◌, true, ℕ, ◌≤◌, arith}
use swing_x.Float.{IsFloat, ◌≼◌}
use swing_x.Float.Fixed.{Fixed, fixed_float}

number_of_le : (x y : Fixed) → x ≼ y → (x ≼ x) × (y ≼ y)
number_of_le x y h = ground arith

le_trans : (x y z : Fixed) → x ≼ y → y ≼ z → x ≼ z
le_trans x y z h k = ground arith

le_total : (x y : Fixed) → x ≼ x → y ≼ y → (x ≼ y) ⊎ (y ≼ x)
le_total x y h k = ground arith

of_ℕ_mono : (m n : ℕ) → m ≤ n → fixed_float.of_ℕ m ≼ fixed_float.of_ℕ n
of_ℕ_mono m n h = ground arith

abs_nonneg : (x : Fixed) → x ≼ x → fixed_float.of_ℕ 0 ≼ fixed_float.abs x
abs_nonneg x h = ground arith

le-add_nonneg :
    (x d : Fixed)
    → fixed_float.is_finite x ≡ true
    → fixed_float.of_ℕ 0 ≼ d
    → x ≼ fixed_float.add x d
le-add_nonneg x d h k = ground arith

sub_nonneg-le :
    (x d : Fixed)
    → fixed_float.is_finite x ≡ true
    → fixed_float.of_ℕ 0 ≼ d
    → fixed_float.sub x d ≼ x
sub_nonneg-le x d h k = ground arith

one_mul : (x : Fixed) → fixed_float.mul (fixed_float.of_ℕ 1) x ≡ x
one_mul x = ground arith

neg_one_mul :
    (x : Fixed) → fixed_float.mul (fixed_float.neg (fixed_float.of_ℕ 1)) x ≡ fixed_float.neg x
neg_one_mul x = ground arith

neg-neg : (x : Fixed) → fixed_float.neg (fixed_float.neg x) ≡ x
neg-neg x = ground arith

sub-neg : (x y : Fixed) → fixed_float.sub x (fixed_float.neg y) ≡ fixed_float.add x y
sub-neg x y = rw neg-neg

pub Fixed-IsFloat : IsFloat Fixed
Fixed-IsFloat = record {
  number_of_le = number_of_le;
  le_trans = le_trans;
  le_total = le_total;
  lt-eq = λ x y. refl;
  of_ℕ_mono = of_ℕ_mono;
  abs_nonneg = abs_nonneg;
  le-add_nonneg = le-add_nonneg;
  sub_nonneg-le = sub_nonneg-le;
  one_mul = one_mul;
  neg_one_mul = neg_one_mul;
  add-neg = λ x y. refl;
  sub-neg = sub-neg;
}

-- ===== src/Prelude/Lists.antt =====
-- Lists measured and indexed by native numbers, under the library's names, and predicates on lists.
use Prim.Native.Nat.{ℕ, zero, suc, ◌+◌, ◌<◌, min}
use mathlib.Core.Path.{◌≡◌, refl, ap}
use mathlib.Core.Bool.{Bool, true, false, ◌&&◌, ◌||◌}
use mathlib.Core.List.{List, [], ◌∷◌, ◌++◌}
use mathlib.Core.Option.{Option, none, some, some-injective}
use native.Mathlib.Omega.{arith}
use mathlib.Core.Logic.{◌⊎◌, inl, inr}
use swing_x.Prelude.Tests.{if◌then◌else◌, Bool-cases}

module _ {ℓ} {A : Type ℓ} where
  abbrev pub length : List A → ℕ
  length [] = 0
  length (x ∷ xs) = suc (length xs)

  abbrev pub get_elem? : List A → ℕ → Option A
  get_elem? [] i = none
  get_elem? (x ∷ xs) zero = some x
  get_elem? (x ∷ xs) (suc i) = get_elem? xs i

  abbrev pub set : List A → ℕ → A → List A
  set [] i v = []
  set (x ∷ xs) zero v = v ∷ xs
  set (x ∷ xs) (suc i) v = x ∷ set xs i v

  abbrev pub erase_idx : List A → ℕ → List A
  erase_idx [] i = []
  erase_idx (x ∷ xs) zero = xs
  erase_idx (x ∷ xs) (suc i) = x ∷ erase_idx xs i

  abbrev pub take : ℕ → List A → List A
  take zero xs = []
  take (suc n) [] = []
  take (suc n) (x ∷ xs) = x ∷ take n xs

  abbrev pub drop : ℕ → List A → List A
  drop zero xs = xs
  drop (suc n) [] = []
  drop (suc n) (x ∷ xs) = drop n xs

  abbrev pub is_empty : List A → Bool
  is_empty [] = true
  is_empty (x ∷ xs) = false

  abbrev pub all : (A → Bool) → List A → Bool
  all p [] = true
  all p (x ∷ xs) = p x && all p xs

  abbrev pub any : (A → Bool) → List A → Bool
  any p [] = false
  any p (x ∷ xs) = p x || any p xs

  abbrev pub find : (A → Bool) → List A → Option A
  find p [] = none
  find p (x ∷ xs) = if p x then some x else find p xs

  -- `Iterator::filter` with a Boolean test.
  abbrev pub keep_if : (A → Bool) → List A → List A
  keep_if p [] = []
  keep_if p (x ∷ xs) = let rest = keep_if p xs in if p x then x ∷ rest else rest

  pub append_assoc : (xs ys zs : List A) → (xs ++ ys) ++ zs ≡ xs ++ (ys ++ zs)
  append_assoc [] ys zs = refl
  append_assoc (x ∷ xs) ys zs = ap (◌∷◌ x) (append_assoc xs ys zs)

  pub append_nil : (xs : List A) → xs ≡ xs ++ []
  append_nil [] = refl
  append_nil (x ∷ xs) = ap (◌∷◌ x) (append_nil xs)

  pub length-append : (xs ys : List A) → length (xs ++ ys) ≡ length xs + length ys
  length-append [] ys = omega arith
  length-append (x ∷ xs) ys = omega (arith, length-append xs ys)

  pub length-take : (n : ℕ) (xs : List A) → length (take n xs) ≡ min n (length xs)
  length-take zero xs = omega arith
  length-take (suc n) [] = omega arith
  length-take (suc n) (x ∷ xs) = omega (arith, length-take n xs)

  pub length-set : (xs : List A) (i : ℕ) (v : A) → length (set xs i v) ≡ length xs
  length-set [] i v = refl
  length-set (x ∷ xs) zero v = refl
  length-set (x ∷ xs) (suc i) v = ap suc (length-set xs i v)

  pub length-erase_idx :
      (xs : List A) (i : ℕ) → i < length xs → length (erase_idx xs i) + 1 ≡ length xs
  length-erase_idx [] i h = absurd (omega arith)
  length-erase_idx (x ∷ xs) zero h = omega arith
  length-erase_idx (x ∷ xs) (suc i) h = omega (arith, length-erase_idx xs i (omega arith))

  pub get_elem?-lt : (xs : List A) (i : ℕ) → i < length xs → (x : A) × (get_elem? xs i ≡ some x)
  get_elem?-lt [] i h = absurd (omega arith)
  get_elem?-lt (x ∷ xs) zero h = (x, refl)
  get_elem?-lt (x ∷ xs) (suc i) h = get_elem?-lt xs i (omega arith)

module _ {ℓ κ} {A : Type ℓ} where
  abbrev pub All : (A → Type κ) → List A → Type κ
  All P [] = Unit
  All P (x ∷ xs) = P x × All P xs

  pub All-append : (P : A → Type κ) (xs ys : List A) → All P xs → All P ys → All P (xs ++ ys)
  All-append P [] ys hx hy = hy
  All-append P (x ∷ xs) ys (h, hx) hy = (h, All-append P xs ys hx hy)

  pub All-take : (P : A → Type κ) (n : ℕ) (xs : List A) → All P xs → All P (take n xs)
  All-take P zero xs h = tt
  All-take P (suc n) [] h = tt
  All-take P (suc n) (x ∷ xs) (h, hs) = (h, All-take P n xs hs)

  pub All-set : (P : A → Type κ) (xs : List A) (i : ℕ) (v : A) → All P xs → P v → All P (set xs i v)
  All-set P [] i v h hv = tt
  All-set P (x ∷ xs) zero v (h, hs) hv = (hv, hs)
  All-set P (x ∷ xs) (suc i) v (h, hs) hv = (h, All-set P xs i v hs hv)

  pub All-erase_idx : (P : A → Type κ) (xs : List A) (i : ℕ) → All P xs → All P (erase_idx xs i)
  All-erase_idx P [] i h = tt
  All-erase_idx P (x ∷ xs) zero (h, hs) = hs
  All-erase_idx P (x ∷ xs) (suc i) (h, hs) = (h, All-erase_idx P xs i hs)

  pub All-get_elem? :
      (P : A → Type κ) (xs : List A) (i : ℕ) {x : A} → All P xs → get_elem? xs i ≡ some x → P x
  All-get_elem? P [] i h e = cc
  All-get_elem? P (y ∷ ys) zero (h, hs) e = rw (← some-injective _ _ e) h
  All-get_elem? P (y ∷ ys) (suc i) (h, hs) e = All-get_elem? P ys i hs e

  pub All-map : (P Q : A → Type κ) (xs : List A) → ((x : A) → P x → Q x) → All P xs → All Q xs
  All-map P Q [] f h = tt
  All-map P Q (x ∷ xs) f (h, hs) = (f x h, All-map P Q xs f hs)

module _ {A : Type 0} where
  -- The value stands in the list: where, not only that.
  abbrev pub OneOf : A → List A → Type 0
  OneOf x [] = ⊥
  OneOf x (y ∷ ys) = (y ≡ x) ⊎ OneOf x ys

  pub append-OneOf : (xs ys : List A) (x : A) → OneOf x xs ⊎ OneOf x ys → OneOf x (xs ++ ys)
  append-OneOf [] ys x (inl o) = absurd o
  append-OneOf [] ys x (inr o) = o
  append-OneOf (y ∷ xs) ys x (inl (inl e)) = inl e
  append-OneOf (y ∷ xs) ys x (inl (inr o)) = inr (append-OneOf xs ys x (inl o))
  append-OneOf (y ∷ xs) ys x (inr o) = inr (append-OneOf xs ys x (inr o))

  pub OneOf-get_elem? : (xs : List A) (i : ℕ) {x : A} → get_elem? xs i ≡ some x → OneOf x xs
  OneOf-get_elem? [] i e = cc
  OneOf-get_elem? (y ∷ ys) zero e = inl (some-injective _ _ e)
  OneOf-get_elem? (y ∷ ys) (suc i) e = inr (OneOf-get_elem? ys i e)

  pub OneOf-find :
      (p : A → Bool) (xs : List A) {x : A} → find p xs ≡ some x → OneOf x xs × (p x ≡ true)
  OneOf-find p [] e = cc
  OneOf-find p (y ∷ ys) e = elim (Bool-cases (p y)) [
    | inl t ↦ let same = some-injective _ _ (rw t at e) in (inl same, rw (← same) t)
    | inr t ↦ let (one, h) = OneOf-find p ys (rw t at e) in (inr one, h)
  ]

  pub OneOf-keep_if :
      (p : A → Bool) (xs : List A) (x : A) → OneOf x (keep_if p xs) → OneOf x xs × (p x ≡ true)
  OneOf-keep_if p [] x h = absurd h
  OneOf-keep_if p (y ∷ ys) x h = elim (Bool-cases (p y)) [
    | inl t ↦ elim (rw t at h) [
      | inl e ↦ (inl e, rw (← e) t)
      | inr h' ↦ let (one, k) = OneOf-keep_if p ys x h' in (inr one, k)
    ]
    | inr t ↦ let (one, k) = OneOf-keep_if p ys x (rw t at h) in (inr one, k)
  ]

  pub All-OneOf {κ} : (P : A → Type κ) (xs : List A) (x : A) → All P xs → OneOf x xs → P x
  All-OneOf P [] x h o = absurd o
  All-OneOf P (y ∷ ys) x (h, hs) (inl e) = rw (← e) h
  All-OneOf P (y ∷ ys) x (h, hs) (inr o) = All-OneOf P ys x hs o

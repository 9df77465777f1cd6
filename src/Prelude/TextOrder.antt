-- ===== src/Prelude/TextOrder.antt =====
-- The order of texts, by the numbers of their characters, is a strict total order.
use Prim.Native.Char.{code}
use Prim.Native.Nat.{Ordering, compare as compare_numbers}
use Prim.Native.Nat.compare as numbers
use Prim.Native.String.{String, compare, then}
use Prim.Native.String.compare as texts
use mathlib.Core.Path.{◌≡◌, refl, sym, ap, ◌∙◌}
use mathlib.Core.Logic.{◌⊎◌, inl, inr}
use mathlib.Core.Bool.{Bool, true, false}
use Prim.Native.Nat.{ℕ, zero, suc, ◌<◌}
use native.Mathlib.Omega.{arith, compare-lt, compare-eq, compare-gt}
use text.Mathlib.TextEquality.{path_by_compare, codes_equal}

abbrev pub is_lt : Ordering → Bool
is_lt Ordering.lt = true
is_lt _ = false

-- Whether a text comes before another one.
abbrev pub before : String → String → Bool
before s t = is_lt (compare s t)

abbrev flip : Ordering → Ordering
flip Ordering.lt = Ordering.gt
flip Ordering.eq = Ordering.eq
flip Ordering.gt = Ordering.lt

flip-numbers : (m n : ℕ) → compare_numbers n m ≡ flip (compare_numbers m n)
flip-numbers zero zero = refl
flip-numbers zero (suc n) = numbers.suc-zero n ∙ sym (ap flip (numbers.zero-suc n))
flip-numbers (suc m) zero = numbers.zero-suc m ∙ sym (ap flip (numbers.suc-zero m))
flip-numbers (suc m) (suc n) =
    numbers.suc-suc n m ∙ (flip-numbers m n ∙ sym (ap flip (numbers.suc-suc m n)))

flip-then : (o p : Ordering) → then (flip o) (flip p) ≡ flip (then o p)
flip-then Ordering.lt p = refl
flip-then Ordering.eq p = refl
flip-then Ordering.gt p = refl

flip-compare : (s t : String) → compare t s ≡ flip (compare s t)
flip-compare String.[] String.[] = refl
flip-compare String.[] (String.◌∷◌ d t) = texts.cons-nil d t ∙ sym (ap flip (texts.nil-cons d t))
flip-compare (String.◌∷◌ c s) String.[] = texts.nil-cons c s ∙ sym (ap flip (texts.cons-nil c s))
flip-compare (String.◌∷◌ c s) (String.◌∷◌ d t) =
    texts.cons-cons d c t s
    ∙ ((λ i. then (flip-numbers (code c) (code d) i) (flip-compare s t i))
        ∙ (flip-then (compare_numbers (code c) (code d)) (compare s t)
            ∙ sym (ap flip (texts.cons-cons c d s t))))

is_lt-true : (o : Ordering) → is_lt o ≡ true → o ≡ Ordering.lt
is_lt-true Ordering.lt h = refl
is_lt-true Ordering.eq h = cc
is_lt-true Ordering.gt h = cc

pub before_strict : (s t : String) → before s t ≡ true → before t s ≡ false
before_strict s t h = ap is_lt (flip-compare s t ∙ ap flip (is_lt-true (compare s t) h))

by_order :
    (s t : String) (o : Ordering)
    → compare s t ≡ o
    → (before s t ≡ true) ⊎ ((s ≡ t) ⊎ (before t s ≡ true))
by_order s t Ordering.lt e = inl (ap is_lt e)
by_order s t Ordering.eq e = inr (inl (path_by_compare s t e))
by_order s t Ordering.gt e = inr (inr (ap is_lt (flip-compare s t ∙ ap flip e)))

pub before_total : (s t : String) → (before s t ≡ true) ⊎ ((s ≡ t) ⊎ (before t s ≡ true))
before_total s t = by_order s t (compare s t) refl

-- The first characters decide, or they are the same and the rest does.
then_lt :
    (o p : Ordering)
    → then o p ≡ Ordering.lt
    → (o ≡ Ordering.lt) ⊎ ((o ≡ Ordering.eq) × (p ≡ Ordering.lt))
then_lt Ordering.lt p h = inl refl
then_lt Ordering.eq p h = inr (refl, h)
then_lt Ordering.gt p h = cc

compare_by_lt : (l n : ℕ) (o : Ordering) → compare_numbers l n ≡ o → l < n → o ≡ Ordering.lt
compare_by_lt l n Ordering.lt e h = refl
compare_by_lt l n Ordering.eq e h = absurd (omega (arith, h, compare-eq l n e))
compare_by_lt l n Ordering.gt e h = absurd (omega (arith, h, compare-gt l n e))

numbers_trans :
    (l m n : ℕ)
    → compare_numbers l m ≡ Ordering.lt
    → compare_numbers m n ≡ Ordering.lt
    → compare_numbers l n ≡ Ordering.lt
numbers_trans l m n h k =
    compare_by_lt l n (compare_numbers l n) refl (omega (arith, compare-lt l m h, compare-lt m n k))

compare_trans :
    (s t u : String)
    → compare s t ≡ Ordering.lt
    → compare t u ≡ Ordering.lt
    → compare s u ≡ Ordering.lt
compare_trans String.[] String.[] u h k = cc
compare_trans (String.◌∷◌ c s) String.[] u h k = absurd (cc (sym (texts.cons-nil c s) ∙ h))
compare_trans s (String.◌∷◌ d t) String.[] h k = absurd (cc (sym (texts.cons-nil d t) ∙ k))
compare_trans String.[] (String.◌∷◌ d t) (String.◌∷◌ e u) h k = texts.nil-cons e u
compare_trans (String.◌∷◌ c s) (String.◌∷◌ d t) (String.◌∷◌ e u) h k =
    let step = λ (o : compare_numbers (code c) (code e) ≡ Ordering.lt).
      texts.cons-cons c e s u ∙ ap (λ x. then x (compare s u)) o in
    elim (then_lt (compare_numbers (code c) (code d)) (compare s t)
      (sym (texts.cons-cons c d s t) ∙ h)) [
        | inl first ↦
            elim (then_lt (compare_numbers (code d) (code e)) (compare t u)
              (sym (texts.cons-cons d e t u) ∙ k)) [
                | inl second ↦ step (numbers_trans (code c) (code d) (code e) first second)
                | inr (same, rest) ↦ step (rw (codes_equal d e same) at first)
              ]
        | inr (same, rest) ↦
            elim (then_lt (compare_numbers (code d) (code e)) (compare t u)
              (sym (texts.cons-cons d e t u) ∙ k)) [
                | inl second ↦ step (rw (← codes_equal c d same) at second)
                | inr (same', rest') ↦ texts.cons-cons c e s u ∙ (λ i.
                    then
                      ((ap (λ x. compare_numbers (code x) (code e)) (codes_equal c d same) ∙ same')
                        i)
                      (compare_trans s t u rest rest' i))
              ]
      ]

pub before_trans : (s t u : String) → before s t ≡ true → before t u ≡ true → before s u ≡ true
before_trans s t u h k =
    ap is_lt (compare_trans s t u (is_lt-true (compare s t) h) (is_lt-true (compare t u) k))

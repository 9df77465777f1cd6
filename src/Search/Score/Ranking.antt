-- ===== src/Search/Score/Ranking.antt =====
-- The order of the leaderboard.
use Prim.Native.Nat.{Ordering}
use swing_x.Prelude.{
  ◌≡◌, refl, ap, ◌∙◌, Bool, true, false, not, ◌&&◌, Option, none, some, if◌then◌else◌,
}
use swing_x.Float.{Float, IsFloat}
use swing_x.Search.Score.{
  OosScore, reverse, partial_cmp, then_cmp, cmp_bool, cmp_key, or_equal, cmp_best_first,
}

abbrev turn : Option Ordering → Option Ordering
turn none = none
turn (some o) = some (reverse o)

then_cmp-turn : (o p : Option Ordering) → then_cmp (turn o) (turn p) ≡ turn (then_cmp o p)
then_cmp-turn none p = refl
then_cmp-turn (some Ordering.lt) p = refl
then_cmp-turn (some Ordering.eq) p = refl
then_cmp-turn (some Ordering.gt) p = refl

cmp_bool-turn : (a b : Bool) → cmp_bool b a ≡ turn (cmp_bool a b)
cmp_bool-turn true true = refl
cmp_bool-turn true false = refl
cmp_bool-turn false true = refl
cmp_bool-turn false false = refl

or_equal-turn : (o : Option Ordering) → or_equal (turn o) ≡ reverse (or_equal o)
or_equal-turn none = refl
or_equal-turn (some o) = refl

then_cmp-turned :
    (o p : Option Ordering) {o' p' : Option Ordering}
    → o' ≡ turn o
    → p' ≡ turn p
    → then_cmp o' p' ≡ turn (then_cmp o p)
then_cmp-turned o p e e' = rw (e, e') (then_cmp-turn o p)

-- The comparison that two tests of `<=` decide.
abbrev from_tests : Bool → Bool → Option Ordering
from_tests le ge =
    if le && not ge
    then some Ordering.lt
    else if ge && not le
    then some Ordering.gt
    else if le
    then some Ordering.eq
    else none

from_tests-turn : (le ge : Bool) → from_tests ge le ≡ turn (from_tests le ge)
from_tests-turn true true = refl
from_tests-turn true false = refl
from_tests-turn false true = refl
from_tests-turn false false = refl

module _ {F : Type 0} ⦃f : Float F⦄ (laws : IsFloat F) where
  open laws use {lt-eq}

  partial_cmp-tests : (a b : F) → partial_cmp a b ≡ from_tests (f.le a b) (f.le b a)
  unfolding partial_cmp
  partial_cmp-tests a b = rw (lt-eq a b, lt-eq b a)

  partial_cmp-turn : (a b : F) → partial_cmp b a ≡ turn (partial_cmp a b)
  partial_cmp-turn a b =
      rw (partial_cmp-tests a b, partial_cmp-tests b a) (from_tests-turn (f.le a b) (f.le b a))

  cmp_key-turn : (a b : OosScore F) → cmp_key b a ≡ turn (cmp_key a b)
  cmp_key-turn a b = then_cmp-turned _ _ (cmp_bool-turn a.passed_gate b.passed_gate) (
      then_cmp-turned _ _ (partial_cmp-turn a.oos_expectancy_cost_aware b.oos_expectancy_cost_aware)
        (then_cmp-turned _ _ (partial_cmp-turn a.dsr b.dsr)
          (partial_cmp-turn (f.neg a.pbo) (f.neg b.pbo))))

  -- The order of the leaderboard is the same read from either side, and of two scores the one that
  -- passed the gate stands before the one that did not.
  pub cmp_best_first-reverse :
      (a b : OosScore F)
      → (cmp_best_first a b ≡ reverse (cmp_best_first b a))
        × (cmp_best_first (record a { passed_gate = true }) (record b { passed_gate = false })
            ≡ Ordering.lt)
  unfolding cmp_best_first
  cmp_best_first-reverse a b = (ap or_equal (cmp_key-turn a b) ∙ or_equal-turn (cmp_key a b), refl)

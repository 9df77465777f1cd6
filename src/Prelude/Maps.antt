-- ===== src/Prelude/Maps.antt =====
-- `BTreeMap<String, V>` as an association list, and `BTreeSet<&str>` as a list of texts.
use mathlib.Core.Path.{◌≡◌, refl}
use mathlib.Core.Bool.{Bool, true, false, ◌||◌}
use mathlib.Core.Option.{Option, none, some}
use mathlib.Core.List.{List, [], ◌∷◌, ◌++◌}
use Prim.Native.Nat.{ℕ, zero, suc}
use Prim.Native.String.{String}
use native.Mathlib.Omega.{arith}
use text.Mathlib.Text.{◌==◌ as str_eq}
use text.Mathlib.TextEquality.{eq_iff}
use text.Mathlib.TextPositions.{eq_refl}
use swing_x.Prelude.Tests.{if◌then◌else◌}
use swing_x.Prelude.Lists.{set, erase_idx}

module _ {ℓ} {V : Type ℓ} where
  abbrev pub lookup : String → List (String × V) → Option V
  lookup k [] = none
  lookup k ((j, v) ∷ m) = if str_eq j k then some v else lookup k m

  -- `BTreeMap::insert`
  unfoldable pub map_insert : String → V → List (String × V) → List (String × V)
  map_insert k v [] = (k, v) ∷ []
  map_insert k v ((j, w) ∷ m) =
      let rest = map_insert k v m in if str_eq j k then (k, v) ∷ m else (j, w) ∷ rest

abbrev pub contains : List String → String → Bool
contains [] k = false
contains (j ∷ js) k = str_eq j k || contains js k

-- No text occurs twice.
abbrev pub Distinct : List String → Type 0
Distinct [] = Unit
Distinct (k ∷ ks) = (contains ks k ≡ false) × Distinct ks

pub str_eq_refl : (k : String) → str_eq k k ≡ true
str_eq_refl k = eq_refl k

pub contains-append :
    (xs ys : List String) (k : String) → contains (xs ++ ys) k ≡ (contains xs k || contains ys k)
contains-append [] ys k = refl
contains-append (x ∷ xs) ys k = ground (arith, contains-append xs ys k)

-- A text that is not in the list can be added at the end.
pub Distinct-snoc :
    (ks : List String) (k : String) → Distinct ks → contains ks k ≡ false → Distinct (ks ++ k ∷ [])
Distinct-snoc [] k d h = (refl, tt)
Distinct-snoc (j ∷ js) k (h, d) e = (
  rw (contains-append js (k ∷ []) j) (ground (arith, eq_iff k j, eq_iff j k)),
  Distinct-snoc js k d (ground arith),
)

pub contains-erase_idx :
    (ks : List String) (i : ℕ) (k : String)
    → contains ks k ≡ false
    → contains (erase_idx ks i) k ≡ false
contains-erase_idx [] i k h = h
contains-erase_idx (j ∷ js) zero k h = ground arith
contains-erase_idx (j ∷ js) (suc i) k h = ground (arith, contains-erase_idx js i k)

pub Distinct-erase_idx : (ks : List String) (i : ℕ) → Distinct ks → Distinct (erase_idx ks i)
Distinct-erase_idx [] i d = tt
Distinct-erase_idx (j ∷ js) zero (h, d) = d
Distinct-erase_idx (j ∷ js) (suc i) (h, d) =
    (contains-erase_idx js i j h, Distinct-erase_idx js i d)

pub contains-set :
    (ks : List String) (i : ℕ) (v k : String)
    → contains ks k ≡ false
    → str_eq v k ≡ false
    → contains (set ks i v) k ≡ false
contains-set [] i v k h e = h
contains-set (j ∷ js) zero v k h e = ground arith
contains-set (j ∷ js) (suc i) v k h e = ground (arith, contains-set js i v k)

-- Replacing one entry by a text that none of the others is.
pub Distinct-set :
    (ks : List String) (i : ℕ) (v : String)
    → Distinct ks
    → contains (erase_idx ks i) v ≡ false
    → Distinct (set ks i v)
Distinct-set [] i v d h = tt
Distinct-set (j ∷ js) zero v (hj, d) h = (h, d)
Distinct-set (j ∷ js) (suc i) v (hj, d) h = (
  contains-set js i v j hj (ground (arith, eq_iff j v, eq_iff v j)),
  Distinct-set js i v d (ground arith),
)

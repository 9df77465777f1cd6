-- ===== src/Search/Rng/Bounds.antt =====
-- The ranges of the generator's draws.
use swing_x.Prelude.{
  ℕ, ◌<◌, ◌≡◌, some, List, [], ◌∷◌, arith, length, get_elem?-lt, OneOf, OneOf-get_elem?,
}
use swing_x.Search.Rng.{Rng, below, choice}

pub below-lt : (n : ℕ) (rng : Rng) → 0 < n → (below n rng).0 < n
unfolding below
below-lt n rng h = ground arith

-- `choice` is `None` on the empty slice only, and otherwise gives one of the elements.
pub choice-OneOf :
    {A : Type 0} (xs : List A) (rng : Rng) {x : A} → (choice xs rng).0 ≡ some x → OneOf x xs
unfolding choice
choice-OneOf [] rng e = cc
choice-OneOf (y ∷ ys) rng e = OneOf-get_elem? (y ∷ ys) _ e

pub choice_total {ℓ} :
    {A : Type ℓ} (xs : List A) (rng : Rng) → 0 < length xs → (x : A) × ((choice xs rng).0 ≡ some x)
unfolding choice
choice_total [] rng h = absurd (omega arith)
choice_total (y ∷ ys) rng h = get_elem?-lt (y ∷ ys) _ (below-lt (length (y ∷ ys)) rng h)

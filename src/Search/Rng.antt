-- ===== src/Search/Rng.antt =====
-- crates/se-search/src/rng.rs: SplitMix64. A generator is its state, a number below 2^64, and an
-- operation returns its value with the next state.
pub mod Bounds
use Prim.Native.Nat.{bit_xor}
use swing_x.Prelude.{
  ℕ, suc, ◌+◌, ◌*◌, ◌/◌, ◌%◌, ◌^◌, Bool, true, false, Option, none, some, List, [], ◌∷◌, ◌==◌,
  if◌then◌else◌, length, get_elem?, is_empty,
}
use swing_x.Float.{Float}

abbrev pub Rng : Type 0
Rng = ℕ

abbrev pub Draws {ℓ} : Type ℓ → Type ℓ
Draws A = Rng → A × Rng

infixl 5 ◌>>=◌
abbrev pub ◌>>=◌ {ℓ κ} : {A : Type ℓ} {B : Type κ} → Draws A → (A → Draws B) → Draws B
◌>>=◌ m k rng = let (a, rng') = m rng in k a rng'

abbrev pub pure {ℓ} : {A : Type ℓ} → A → Draws A
pure a rng = (a, rng)

abbrev pub u64 : ℕ
u64 = 2 ^ 64

abbrev gamma : ℕ
gamma = 0x9E37_79B9_7F4A_7C15

-- `z ^ (z >> k)`
xor_shift : ℕ → ℕ → ℕ
xor_shift k z = bit_xor z (z / 2 ^ k)

unfoldable pub seeded : ℕ → ℕ → Rng
seeded base_seed generation =
    ((base_seed * gamma % u64 + generation * 0xD1B5_4A32_D192_ED03 % u64) % u64 + gamma) % u64

unfoldable pub new : ℕ → Rng
new seed = (seed + gamma) % u64

unfoldable pub next_u64 : Draws ℕ
unfolding xor_shift
next_u64 rng =
    let state = (rng + gamma) % u64 in
    let z1 = xor_shift 30 state * 0xBF58_476D_1CE4_E5B9 % u64 in
    let z2 = xor_shift 27 z1 * 0x94D0_49BB_1331_11EB % u64 in (xor_shift 31 z2, state)

unfoldable pub below : ℕ → Draws ℕ
below n rng = if n == 0 then (0, rng) else let (z, rng') = next_u64 rng in (z % n, rng')

unfoldable pub choice {ℓ} : {A : Type ℓ} → List A → Draws (Option A)
choice [] rng = (none, rng)
choice (x ∷ xs) rng = let (i, rng') = below (length (x ∷ xs)) rng in (get_elem? (x ∷ xs) i, rng')

module _ {F : Type 0} ⦃f : Float F⦄ where
  unfoldable pub uniform : Draws F
  uniform rng =
      let (z, rng') = next_u64 rng in (f.div (f.of_ℕ (z / 2 ^ 11)) (f.of_ℕ (2 ^ 53)), rng')

  unfoldable pub chance : F → Draws Bool
  chance p rng = let (u, rng') = uniform rng in (f.lt u p, rng')

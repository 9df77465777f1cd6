-- ===== src/Prelude/Results.antt =====
-- `Result` and `?`.
use mathlib.Core.Path.{◌≡◌, refl}
use mathlib.Core.Bool.{Bool, true, false}
use mathlib.Core.Option.{Option, none, some}

pub data Result {ℓ} (E : Type 0) (A : Type ℓ) : Type ℓ where
  ok : A → Result E A
  err : E → Result E A

infixl 5 ◌>>=◌ ◌>>◌
abbrev pub ◌>>=◌ {ℓ κ} :
    {E : Type 0} {A : Type ℓ} {B : Type κ} → Result E A → (A → Result E B) → Result E B
err why >>= next = err why
ok x >>= next = next x

abbrev pub ◌>>◌ {ℓ} : {E : Type 0} {B : Type ℓ} → Result E (Unit {0}) → Result E B → Result E B
first >> rest = first >>= λ _. rest

module _ {E : Type 0} where
  -- An `ok_or`, and the early return where a test fails.
  abbrev pub or_fail {ℓ} : {A : Type ℓ} → Option A → E → Result E A
  or_fail (some x) why = ok x
  or_fail none why = err why

  abbrev pub guard : Bool → E → Result E (Unit {0})
  guard holds why = elim holds [ true ↦ ok tt | false ↦ err why ]

  pub ok-injective {ℓ} : {A : Type ℓ} {x y : A} → ◌≡◌ {A = Result E A} (ok x) (ok y) → x ≡ y
  ok-injective h = cc

  -- Inversion of a successful lookup, test and bind.
  pub or_fail-eq-ok {ℓ} :
      {A : Type ℓ} (o : Option A) (why : E) {x : A} → or_fail o why ≡ ok x → o ≡ some x
  or_fail-eq-ok (some x) why h = cc
  or_fail-eq-ok none why h = cc

  pub guard-eq-ok {ℓ} :
      {B : Type ℓ} (holds : Bool) (why : E) (rest : Result E B) {y : B}
      → (guard holds why >> rest) ≡ ok y
      → (holds ≡ true) × (rest ≡ ok y)
  guard-eq-ok true why rest h = (refl, h)
  guard-eq-ok false why rest h = cc

  pub >>=-eq-ok {ℓ κ} :
      {A : Type ℓ} {B : Type κ} (first : Result E A) (next : A → Result E B) {y : B}
      → (first >>= next) ≡ ok y
      → (x : A) × (first ≡ ok x) × (next x ≡ ok y)
  >>=-eq-ok (err why) next h = cc
  >>=-eq-ok (ok x) next h = (x, refl, h)

-- A first step that succeeds goes on with its value.
pub >>=-of_ok {ℓ κ} :
    {E : Type 0} {A : Type ℓ} {B : Type κ} {m : Result E A} {a : A} (f : A → Result E B)
    → m ≡ ok a
    → (m >>= f) ≡ f a
>>=-of_ok f e = rw e

pub guard-of_true {ℓ} :
    {E : Type 0} {B : Type ℓ} {t : Bool} (e : E) (k : Result E B) → t ≡ true → (guard t e >> k) ≡ k
guard-of_true e k h = rw h

pub or_fail-of_some {ℓ} :
    {E : Type 0} {A : Type ℓ} {o : Option A} {a : A} (e : E) → o ≡ some a → or_fail o e ≡ ok a
or_fail-of_some e h = rw h

-- ===== src/Base/Results.antt =====
-- Failing computations. `Effect.gen`, `yield*` and `Effect.fail` are a `do` block over `Result`.
use mathlib.Core.Path.{◌≡◌, refl}
use mathlib.Core.Logic.{◌⊎◌, inl, inr}
use mathlib.Core.Bool.{Bool, true, false}

pub data Result {ℓ κ} (E : Type ℓ) (A : Type κ) : Type (ℓ ⊔ κ) where
  ok : A → Result E A
  err : E → Result E A

infixl 5 ◌>>=◌ ◌>>◌
abbrev pub ◌>>=◌ {ℓ κ ι} :
    {E : Type ℓ} {A : Type κ} {B : Type ι} → Result E A → (A → Result E B) → Result E B
err failure >>= next = err failure
ok a >>= next = next a

abbrev pub ◌>>◌ {ℓ κ} : {E : Type ℓ} {B : Type κ} → Result E (Unit {0}) → Result E B → Result E B
m >> k = m >>= λ _. k

-- `if (test) return yield* failure(e)`
abbrev pub fail_if {ℓ} : {E : Type ℓ} → Bool → E → Result E (Unit {0})
fail_if true e = err e
fail_if false e = ok tt

-- A sequence that succeeds has a first step that succeeds, and a second one with what it gave.
pub >>=-eq-ok {ℓ κ ι} :
    {E : Type ℓ} {A : Type κ} {B : Type ι} (first : Result E A) (next : A → Result E B) {last : B}
    → (first >>= next) ≡ ok last
    → (a : A) × (first ≡ ok a) × (next a ≡ ok last)
>>=-eq-ok (err failure) next h = cc
>>=-eq-ok (ok a) next h = (a, refl, h)

-- The same, for a proof of something else from the two steps.
pub >>=-elim {ℓ κ ι ν} :
    {E : Type ℓ} {A : Type κ} {B : Type ι} {C : Type ν} (first : Result E A) {next : A → Result E B}
    {last : B}
    → (first >>= next) ≡ ok last
    → ((a : A) → first ≡ ok a → next a ≡ ok last → C)
    → C
>>=-elim (err failure) h use_steps = cc
>>=-elim (ok a) h use_steps = use_steps a refl h

-- A guard that lets pass, for a proof from its test and what follows.
pub fail_if-elim {ℓ ι ν} :
    {E : Type ℓ} {B : Type ι} {C : Type ν} (test : Bool) (e : E) {next : Result E B} {last : B}
    → (fail_if test e >> next) ≡ ok last
    → (test ≡ false → next ≡ ok last → C)
    → C
fail_if-elim true e h use_steps = cc
fail_if-elim false e h use_steps = use_steps refl h

pub fail_if-eq-ok {ℓ} : {E : Type ℓ} (test : Bool) (e : E) → fail_if test e ≡ ok tt → test ≡ false
fail_if-eq-ok true e h = cc
fail_if-eq-ok false e h = refl

pub Result-cases {ℓ κ} :
    {E : Type ℓ} {A : Type κ} (r : Result E A) → ((a : A) × (r ≡ ok a)) ⊎ ((e : E) × (r ≡ err e))
Result-cases (ok a) = inl (a, refl)
Result-cases (err e) = inr (e, refl)

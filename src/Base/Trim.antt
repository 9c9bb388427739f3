-- ===== src/Base/Trim.antt =====
-- Texts that `trim` leaves alone, and reading digits off the front of a text.
use mathlib.Core.List.{reverse-append, reverse-reverse}
use dotconfig.Base.Strings.{
  Text, trim, trim_start, is_space, is_digit, span_digits, decimal, decimal_on,
}
use dotconfig.Base.Lists.{every}
use dotconfig.Base.Tests.{Bool-cases, ltb}
use Prim.Native.Nat.{ℕ, ◌+◌, ◌/◌}
use mathlib.Core.Path.{◌≡◌, refl}
use mathlib.Core.Logic.{inl, inr}
use mathlib.Core.Bool.{true, false}
use mathlib.Core.List.{[], ◌∷◌, ◌++◌, reverse}
use native.Mathlib.Omega.{arith}

-- The text begins, and begins with no white space.
abbrev pub HasHead : Text → Type 0
HasHead [] = ⊥
HasHead (c ∷ s) = is_space c ≡ false

abbrev pub IsTrimmed : Text → Type 0
IsTrimmed s = HasHead s × HasHead (reverse s)

trim_start_of_HasHead : (s : Text) → HasHead s → trim_start s ≡ s
unfolding trim_start
trim_start_of_HasHead [] h = refl
trim_start_of_HasHead (c ∷ s) h = rw h

pub HasHead-append : (s t : Text) → HasHead s → HasHead (s ++ t)
HasHead-append [] t h = absurd h
HasHead-append (c ∷ s) t h = h

pub trim_start_of_IsTrimmed : (s : Text) → IsTrimmed s → trim_start s ≡ s
trim_start_of_IsTrimmed s h = trim_start_of_HasHead s h.0

pub trim_of_IsTrimmed : (s : Text) → IsTrimmed s → trim s ≡ s
unfolding trim
trim_of_IsTrimmed s h =
    rw (trim_start_of_HasHead s h.0, trim_start_of_HasHead (reverse s) h.1) (reverse-reverse s)

pub IsTrimmed-append : (s t : Text) → HasHead s → IsTrimmed t → IsTrimmed (s ++ t)
IsTrimmed-append s t h k =
    (HasHead-append s t h, rw (reverse-append s t) (HasHead-append (reverse t) (reverse s) k.1))

pub span_digits-append :
    (ds : Text) (c : ℕ) (rest : Text)
    → every is_digit ds ≡ true
    → is_digit c ≡ false
    → span_digits (ds ++ c ∷ rest) ≡ (ds, c ∷ rest)
unfolding span_digits
span_digits-append [] c rest h k = rw k
span_digits-append (d ∷ ds) c rest h k = ground (arith, span_digits-append ds c rest)

-- A number has a first digit.
pub decimal-cons : (n : ℕ) → (d : ℕ) × (ds : Text) × (decimal n ≡ d ∷ ds)
unfolding decimal decimal_on
decimal-cons n = elim (Bool-cases (ltb n 10)) [
  | inl small ↦ (b'0' + n, [], rw small)
  | inr large ↦ rw large (snoc_cons (decimal_on n (n / 10)) _)
]
  where
    snoc_cons : (s : Text) (c : ℕ) → (d : ℕ) × (ds : Text) × (s ++ c ∷ [] ≡ d ∷ ds)
    snoc_cons [] c = (c, [], refl)
    snoc_cons (x ∷ s) c = (x, s ++ c ∷ [], refl)

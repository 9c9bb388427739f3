-- ===== src/Base/Strings.antt =====
-- JavaScript strings: lists of UTF-16 code units, so that `length`, `slice` and `trim` are exact.
-- A literal is written `codes "text"`; the literals of the modelled code are ASCII.
use Prim.Native.Char.{code}
use Prim.Native.Nat.{ℕ, zero, suc, ◌/◌, ◌%◌, ◌<◌, ◌+◌, ◌-◌, ◌*◌}
use Prim.Native.String.{String}
use mathlib.Core.Path.{◌≡◌, refl}
use mathlib.Core.Logic.{◌≢◌, inl, inr, ◌↔◌}
use mathlib.Core.Bool.{Bool, true, false, not, ◌&&◌, ◌||◌}
use mathlib.Core.List.{List, [], ◌∷◌, ◌++◌, reverse}
use native.Mathlib.Omega.{arith}
use dotconfig.Base.Lists.{every, every-snoc}
use dotconfig.Base.Tests.{ltb, Bool-cases, leb, ◌==◌, if◌then◌else◌}

abbrev pub Text : Type 0
Text = List ℕ

abbrev pub codes : String → Text
codes String.[] = []
codes (String.◌∷◌ c s) = code c ∷ codes s

-- `a === b`
unfoldable pub text_eq : Text → Text → Bool
text_eq [] [] = true
text_eq (c ∷ s) (d ∷ t) = c == d && text_eq s t
text_eq _ _ = false

pub text_eq_iff : (s t : Text) → (text_eq s t ≡ true) ↔ (s ≡ t)
unfolding text_eq
text_eq_iff [] [] = ground arith
text_eq_iff [] (d ∷ t) = ground arith
text_eq_iff (c ∷ s) [] = ground arith
text_eq_iff (c ∷ s) (d ∷ t) = ground (arith, text_eq_iff s t)

pub ne-of_text_eq : (s t : Text) → text_eq s t ≡ false → s ≢ t
ne-of_text_eq s t h q = let e = (text_eq_iff s t).1 q in cc

pub text_eq_of_ne : (s t : Text) → s ≢ t → text_eq s t ≡ false
text_eq_of_ne s t h = elim (Bool-cases (text_eq s t)) [
  | inl e ↦ absurd (h ((text_eq_iff s t).0 e))
  | inr e ↦ e
]

pub text_eq_refl : (s : Text) → text_eq s s ≡ true
text_eq_refl s = (text_eq_iff s s).1 refl

-- The code units that `trim` and `\s` take for white space: white space and line terminators of
-- ECMAScript.
unfoldable pub is_space : ℕ → Bool
is_space c =
    (leb 9 c && leb c 13)
    || c == 32
    || c == 160
    || c == 5760
    || (leb 8192 c && leb c 8202)
    || c == 8232
    || c == 8233
    || c == 8239
    || c == 8287
    || c == 12288
    || c == 65279

unfoldable pub trim_start : Text → Text
trim_start [] = []
trim_start (c ∷ s) = if is_space c then trim_start s else c ∷ s

-- `s.trim()`
unfoldable pub trim : Text → Text
unfolding trim_start is_space
trim s = reverse (trim_start (reverse (trim_start s)))

-- `text.replace(/[…]+/g, " ")`: each run of units that pass becomes one blank. The flag says that a run
-- is being read.
unfoldable pub replace_runs : (ℕ → Bool) → Bool → Text → Text
replace_runs p in_run [] = []
replace_runs p in_run (c ∷ s) =
    let rest = replace_runs p (p c) s in
    if not (p c) then c ∷ rest else if in_run then rest else b' ' ∷ rest

-- `s.toLowerCase()` on one code unit, for ASCII.
abbrev pub lower : ℕ → ℕ
lower c = if leb b'A' c && leb c b'Z' then c + 32 else c

-- Whether the text starts with the (lower case, ASCII) pattern, up to case.
unfoldable pub starts_with_ci : Text → Text → Bool
starts_with_ci [] s = true
starts_with_ci (p ∷ ps) [] = false
starts_with_ci (p ∷ ps) (c ∷ s) = lower c == p && starts_with_ci ps s

-- `/pattern/i.test(text)` for a pattern of lower case letters and blanks.
unfoldable pub contains_ci : Text → Text → Bool
unfolding starts_with_ci
contains_ci p [] = starts_with_ci p []
contains_ci p (c ∷ s) = starts_with_ci p (c ∷ s) || contains_ci p s

-- `\d`
abbrev pub is_digit : ℕ → Bool
is_digit c = leb b'0' c && leb c b'9'

-- The longest prefix of digits, and the rest.
unfoldable pub span_digits : Text → Text × Text
span_digits [] = ([], [])
span_digits (c ∷ s) =
    let (ds, rest) = span_digits s in if is_digit c then (c ∷ ds, rest) else ([], c ∷ s)

-- `Number(digits)`, from an accumulator.
unfoldable pub number_from : ℕ → Text → ℕ
number_from acc [] = acc
number_from acc (c ∷ s) = number_from (acc * 10 + (c - b'0')) s

-- The decimal digits of a number, as `${n}` prints it. A number has no more digits than its successor.
unfoldable pub decimal_on : ℕ → ℕ → Text
decimal_on zero n = []
decimal_on (suc fuel) n =
    let rest = decimal_on fuel (n / 10) ++ (b'0' + n % 10) ∷ [] in
    if ltb n 10 then (b'0' + n) ∷ [] else rest

unfoldable pub decimal : ℕ → Text
unfolding decimal_on
decimal n = decimal_on (suc n) n

number_from-snoc :
    (acc c : ℕ) (s : Text) → number_from acc (s ++ c ∷ []) ≡ number_from acc s * 10 + (c - b'0')
unfolding number_from
number_from-snoc acc c [] = refl
number_from-snoc acc c (d ∷ s) = number_from-snoc (acc * 10 + (d - b'0')) c s

number_from-decimal_on : (fuel n : ℕ) → n < fuel → number_from 0 (decimal_on fuel n) ≡ n
unfolding decimal_on
number_from-decimal_on zero n h = elim h [ ]
number_from-decimal_on (suc f) n h = elim (Bool-cases (ltb n 10)) [
  | inl small ↦ rw small (unfold number_from in omega arith)
  | inr large ↦ rw large (
      omega (
        arith,
        number_from-snoc 0 (b'0' + n % 10) (decimal_on f (n / 10)),
        number_from-decimal_on f (n / 10) (ground arith),
      ))
]

-- Reading the digits of a number gives the number back.
pub number_from-decimal : (n : ℕ) → number_from 0 (decimal n) ≡ n
unfolding decimal
number_from-decimal n = number_from-decimal_on (suc n) n (omega arith)

decimal_on-digits : (fuel n : ℕ) → every is_digit (decimal_on fuel n) ≡ true
unfolding decimal_on
decimal_on-digits zero n = refl
decimal_on-digits (suc f) n = elim (Bool-cases (ltb n 10)) [
  | inl small ↦ rw small (ground arith)
  | inr large ↦ rw large (
      every-snoc is_digit (b'0' + n % 10) (decimal_on f (n / 10)) (decimal_on-digits f (n / 10))
        (ground arith))
]

-- Every unit of the decimal form is a digit.
pub decimal-digits : (n : ℕ) → every is_digit (decimal n) ≡ true
unfolding decimal
decimal-digits n = decimal_on-digits (suc n) n

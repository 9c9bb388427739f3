-- ===== src/Rpc/Frames/Header.antt =====
-- The header that #send writes is one that #drainFrames reads.
use native.Mathlib.Nat.{pow-succ'}
use dotconfig.Base.{
  ℕ, zero, suc, ◌+◌, ◌*◌, ◌/◌, ◌%◌, ◌^◌, ◌≤◌, ◌<◌, ◌≡◌, refl, ap, inl, inr, Bool, true, false, some,
  [], ◌∷◌, ◌++◌, arith, length, length-append, every, ltb, ◌==◌, Bool-cases, Text, codes,
  starts_with, starts_with_ci, trim_start, is_space, is_digit, span_digits, decimal, decimal_on,
  decimal-digits, decimal-cons, max_safe_integer,
}
use dotconfig.Rpc.{Bytes}
use dotconfig.Rpc.Frames.{
  terminator, header_end, ascii, blank_to_line_end, length_here, length_digits,
}

-- What stands before the terminator of the header of a body.
unfoldable pub header : ℕ → Bytes
header size = codes "Content-Length: " ++ decimal size

-- The bytes have no carriage return.
abbrev pub has_no_return : Bytes → Bool
has_no_return = every (λ byte. ltb 13 byte)

-- A number below a power of ten has no more digits than the exponent says.
length-decimal_on : (k fuel n : ℕ) → n < 10 ^ suc k → length (decimal_on fuel n) ≤ suc k
unfolding decimal_on
length-decimal_on k zero n h = omega arith
length-decimal_on zero (suc fuel) n h =
    let small : ltb n 10 ≡ true = ground arith in rw small (omega arith)
length-decimal_on (suc k) (suc fuel) n h = elim (Bool-cases (ltb n 10)) [
  | inl small ↦ rw small (omega arith)
  | inr large ↦
      let b : n < 10 * 10 ^ suc k = rw (pow-succ' 10 (suc k)) at h in
      let rest = length-decimal_on k fuel (n / 10) (omega arith) in
      rw large
        (omega (arith, rest, length-append (decimal_on fuel (n / 10)) ((b'0' + n % 10) ∷ [])))
]

pub length-header : (size : ℕ) → size ≤ max_safe_integer → length (header size) ≤ 32
unfolding decimal header
length-header size h = omega (
  arith,
  length-decimal_on 15 (suc size) size (omega arith),
  length-append (codes "Content-Length: ") (decimal size),
)

every-append :
    (p : ℕ → Bool) (xs ys : Bytes)
    → every p xs ≡ true
    → every p ys ≡ true
    → every p (xs ++ ys) ≡ true
every-append p [] ys h k = k
every-append p (x ∷ xs) ys h k = ground (arith, every-append p xs ys)

every_mono :
    (p q : ℕ → Bool) (xs : Bytes)
    → ((x : ℕ) → p x ≡ true → q x ≡ true)
    → every p xs ≡ true
    → every q xs ≡ true
every_mono p q [] f h = refl
every_mono p q (x ∷ xs) f h = ground (arith, f x, every_mono p q xs f)

pub header-has_no_return : (size : ℕ) → has_no_return (header size) ≡ true
unfolding header
header-has_no_return size =
    every-append (λ byte. ltb 13 byte) (codes "Content-Length: ") (decimal size) refl
      (every_mono is_digit (λ byte. ltb 13 byte) (decimal size) (λ x h. ground arith)
        (decimal-digits size))

pub header_end-append :
    (bytes rest : Bytes)
    → has_no_return bytes ≡ true
    → header_end (bytes ++ (terminator ++ rest)) ≡ some (length bytes)
unfolding header_end starts_with
header_end-append [] rest h = refl
header_end-append (byte ∷ bytes) rest h =
    let miss : (13 == byte) ≡ false = ground arith in
    rw (miss, header_end-append bytes rest (ground arith)) refl

ascii-digits : (digits : Text) → every is_digit digits ≡ true → ascii digits ≡ digits
ascii-digits [] h = refl
ascii-digits (d ∷ ds) h =
    let e : d % 128 ≡ d = ground arith in rw (e, ascii-digits ds (ground arith)) refl

span_digits-digits :
    (digits : Text) → every is_digit digits ≡ true → span_digits digits ≡ (digits, [])
unfolding span_digits
span_digits-digits [] h = refl
span_digits-digits (d ∷ ds) h =
    let e : is_digit d ≡ true = ground arith in rw (e, span_digits-digits ds (ground arith)) refl

map-append_text : (xs ys : Bytes) → ascii (xs ++ ys) ≡ ascii xs ++ ascii ys
map-append_text [] ys = refl
map-append_text (x ∷ xs) ys = ap (λ t. (x % 128) ∷ t) (map-append_text xs ys)

is_space-of_digit : (d : ℕ) → is_digit d ≡ true → is_space d ≡ false
unfolding is_space
is_space-of_digit d h = ground arith

pub length_digits-header :
    (size : ℕ) → length_digits true (ascii (header size)) ≡ some (decimal size)
unfolding header length_digits length_here starts_with_ci trim_start
length_digits-header size =
    let (d, ds, e) = decimal-cons size in
    let digits : every is_digit (d ∷ ds) ≡ true = rw e at (decimal-digits size) in
    let not_space : is_space d ≡ false = is_space-of_digit d (ground arith) in
    rw
      (
        ascii-digits (decimal size) (decimal-digits size),
        e,
        trim_start,
        not_space,
        span_digits-digits (d ∷ ds) digits,
        blank_to_line_end,
      )
      refl

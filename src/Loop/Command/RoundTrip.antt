-- ===== src/Loop/Command/RoundTrip.antt =====
-- A `set` command that is written out as text, with or without a jitter, is parsed back.
use dotconfig.Base.{
  ℕ, ◌*◌, ◌≤◌, ◌<◌, ◌≡◌, refl, ap, ◌∙◌, true, false, Option, none, some, [], ◌∷◌, ◌++◌, arith, Text,
  text_eq, is_digit, is_space, length, decimal, decimal-digits, decimal-cons, number_from,
  number_from-decimal, span_digits-append, IsTrimmed, HasHead, trim_of_IsTrimmed,
  trim_start_of_IsTrimmed, IsTrimmed-append, ok,
}
use dotconfig.Loop.{set, is_valid_interval, max_instruction_length}
use dotconfig.Loop.Command.{
  interval_multiplier, check_interval, parse_interval_result, Token, token_of, read_token,
  read_jitter, read_instruction, match_command, CommandMatch, jitter_result, jitter_too_large,
  set_command, from_match, parse_input, parse_loop_command_result,
}

-- `+-5m`, a number and its unit, before the rest.
abbrev pub written_jitter : Option (ℕ × ℕ) → Text → Text
written_jitter none rest = rest
written_jitter (some (amount, unit)) rest = b'+' ∷ b'-' ∷ (decimal amount ++ unit ∷ rest)

-- `15m instruction`, or `15m+-5m instruction`
abbrev pub written : ℕ → ℕ → Option (ℕ × ℕ) → Text → Text
written amount unit jitter text = decimal amount ++ unit ∷ written_jitter jitter (b' ' ∷ text)

-- The number of units is that many milliseconds, which a loop may have as its interval.
pub record IsDuration (amount unit interval : ℕ) : Type 0 where
  pub multiplier : ℕ
  pub of_unit : interval_multiplier unit ≡ some multiplier
  pub product : amount * multiplier ≡ interval
  pub valid : is_valid_interval interval ≡ true

-- The jitter is that many milliseconds, fewer than the interval has.
abbrev pub IsJitter : ℕ → Option (ℕ × ℕ) → Option ℕ → Type 0
IsJitter interval none none = Unit
IsJitter interval (some (amount, unit)) (some jitter) =
    IsDuration amount unit jitter × (jitter < interval)
IsJitter interval _ _ = ⊥

digit_no_space : (d : ℕ) → is_digit d ≡ true → is_space d ≡ false
unfolding is_space
digit_no_space d h = ground arith

no_word_cons :
    (d : ℕ) (s : Text)
    → is_digit d ≡ true
    → parse_input (d ∷ s) ≡ from_match (d ∷ s) (match_command (d ∷ s))
unfolding parse_input text_eq
no_word_cons d s h = ground (arith, h)

no_word :
    (t : Text) (d : ℕ) (s : Text)
    → t ≡ d ∷ s
    → is_digit d ≡ true
    → parse_input t ≡ from_match t (match_command t)
no_word t d s e h = rw e (no_word_cons d s h)

HasHead-length : (t : Text) → HasHead t → 1 ≤ length t
HasHead-length [] h = absurd h
HasHead-length (c ∷ s) h = omega arith

module _ (amount unit interval : ℕ) (duration : IsDuration amount unit interval) where
  unit_read :
      (d : ℕ) (ds rest : Text)
      → number_from 0 (d ∷ ds) ≡ amount
      → token_of (d ∷ ds, unit ∷ rest) ≡ some (record { amount = amount; unit = unit; rest = rest })
  unfolding token_of
  unit_read d ds rest e = let u = duration.of_unit in ground (arith, u)

  unit_no_digit : is_digit unit ≡ false
  unit_no_digit = let u = duration.of_unit in ground (arith, u)

  unit_no_space : is_space unit ≡ false
  unfolding is_space
  unit_no_space = let u = duration.of_unit in ground (arith, u)

  -- The first digit of the number.
  first_digit : (d : ℕ) × (ds : Text) × (decimal amount ≡ d ∷ ds) × (is_digit d ≡ true)
  first_digit =
      let (d, ds, e) = decimal-cons amount in
      let digit = rw e at (decimal-digits amount) in (d, ds, e, ground (arith, digit))

  token_read :
      (rest : Text)
      → read_token (decimal amount ++ unit ∷ rest)
        ≡ some (record { amount = amount; unit = unit; rest = rest })
  unfolding read_token
  token_read rest =
      let (d, ds, e) = decimal-cons amount in
      rw (span_digits-append (decimal amount) unit rest (decimal-digits amount) unit_no_digit)
        (rw e (unit_read d ds rest (rw e at (number_from-decimal amount))))

  interval_read : parse_interval_result amount unit ≡ ok interval
  unfolding parse_interval_result
  interval_read =
      let valid = duration.valid in
      rw (duration.of_unit, parse_interval_result, duration.product)
        (unfold check_interval in ground (arith, valid))

  decimal-HasHead : HasHead (decimal amount)
  decimal-HasHead = let (d, ds, e, digit) = first_digit in rw e (digit_no_space d digit)

  decimal-IsTrimmed :
      (rest : Text) → IsTrimmed (unit ∷ rest) → IsTrimmed (decimal amount ++ unit ∷ rest)
  decimal-IsTrimmed rest h = IsTrimmed-append (decimal amount) (unit ∷ rest) decimal-HasHead h

  unit-IsTrimmed : (text : Text) → IsTrimmed text → IsTrimmed (unit ∷ b' ' ∷ text)
  unit-IsTrimmed text h = IsTrimmed-append (unit ∷ b' ' ∷ []) text unit_no_space h

instruction_read : (t : Text) → read_jitter (b' ' ∷ t) ≡ none
unfolding read_jitter
instruction_read [] = refl
instruction_read (c ∷ s) = refl

-- The token of a jitter before the instruction.
abbrev jitter_token : Option (ℕ × ℕ) → Text → Option Token
jitter_token none text = none
jitter_token (some (amount, unit)) text =
    some (record { amount = amount; unit = unit; rest = b' ' ∷ text })

abbrev match_of : ℕ → ℕ → Option (ℕ × ℕ) → Text → CommandMatch
match_of amount unit jitter text = record {
  interval = record { amount = amount; unit = unit; rest = written_jitter jitter (b' ' ∷ text) };
  jitter = jitter_token jitter text;
  instruction = text;
}

match_read :
    (amount unit interval : ℕ) (jitter : Option (ℕ × ℕ)) (jitter_ms : Option ℕ) (text : Text)
    → IsDuration amount unit interval
    → IsJitter interval jitter jitter_ms
    → IsTrimmed text
    → match_command (written amount unit jitter text) ≡ some (match_of amount unit jitter text)
unfolding match_command
match_read amount unit interval none none text d j t =
    let start = trim_start_of_IsTrimmed text t in
    rw (token_read amount unit interval d (b' ' ∷ text), match_command, instruction_read text)
      (unfold read_instruction is_space in rw start)
match_read amount unit interval none (some j) text d h t = absurd h
match_read amount unit interval (some (a, u)) none text d h t = absurd h
match_read amount unit interval (some (a, u)) (some j) text d h t =
    let start = trim_start_of_IsTrimmed text t in
    let e : read_jitter (written_jitter (some (a, u)) (b' ' ∷ text))
        ≡ jitter_token (some (a, u)) text =
      unfold read_jitter in token_read a u j h.0 (b' ' ∷ text) in
    rw
      (
        token_read amount unit interval d (written_jitter (some (a, u)) (b' ' ∷ text)),
        match_command,
        e,
      )
      (unfold read_instruction is_space in rw start)

jitter_read :
    (interval : ℕ) (jitter : Option (ℕ × ℕ)) (jitter_ms : Option ℕ) (text : Text)
    → IsJitter interval jitter jitter_ms
    → (jitter_result (jitter_token jitter text) ≡ ok jitter_ms)
      × (jitter_too_large jitter_ms interval ≡ false)
jitter_read interval none none text h = (refl, refl)
jitter_read interval none (some j) text h = absurd h
jitter_read interval (some (a, u)) none text h = absurd h
jitter_read interval (some (a, u)) (some j) text h =
    let less = h.1 in (rw (interval_read a u j h.0) refl, ground arith)

set_read :
    (interval : ℕ) (jitter_ms : Option ℕ) (text : Text)
    → jitter_too_large jitter_ms interval ≡ false
    → IsTrimmed text
    → length text ≤ max_instruction_length
    → set_command interval jitter_ms text ≡ ok (set text interval jitter_ms)
unfolding set_command
set_read interval jitter_ms text small t bounded =
    rw (small, trim_of_IsTrimmed text t) (ground (arith, HasHead-length text t.0))

written-IsTrimmed :
    (amount unit interval : ℕ) (jitter : Option (ℕ × ℕ)) (jitter_ms : Option ℕ) (text : Text)
    → IsDuration amount unit interval
    → IsJitter interval jitter jitter_ms
    → IsTrimmed text
    → IsTrimmed (written amount unit jitter text)
written-IsTrimmed amount unit interval none none text d j t =
    decimal-IsTrimmed amount unit interval d (b' ' ∷ text)
      (unit-IsTrimmed amount unit interval d text t)
written-IsTrimmed amount unit interval none (some j) text d h t = absurd h
written-IsTrimmed amount unit interval (some (a, u)) none text d h t = absurd h
written-IsTrimmed amount unit interval (some (a, u)) (some j) text d h t =
    decimal-IsTrimmed amount unit interval d (written_jitter (some (a, u)) (b' ' ∷ text)) (
      IsTrimmed-append (unit ∷ b'+' ∷ b'-' ∷ []) (decimal a ++ u ∷ b' ' ∷ text)
        (unit_no_space amount unit interval d)
        (decimal-IsTrimmed a u j h.0 (b' ' ∷ text) (unit-IsTrimmed a u j h.0 text t)))

-- The text of a set command, its interval a number and a unit, its jitter none or a number and a unit,
-- and its instruction trimmed and of at most 4000 units, is parsed to the command with the milliseconds
-- of the interval and of the jitter, when each of the two is a valid interval and the jitter is the
-- smaller one.
pub parse-written :
    (amount unit interval : ℕ) (jitter : Option (ℕ × ℕ)) (jitter_ms : Option ℕ) (text : Text)
    → IsDuration amount unit interval
    → IsJitter interval jitter jitter_ms
    → IsTrimmed text
    → length text ≤ max_instruction_length
    → parse_loop_command_result (written amount unit jitter text) ≡ ok (set text interval jitter_ms)
unfolding dotconfig.Loop.Command.parse_loop_command_result
parse-written amount unit interval jitter jitter_ms text d j t bounded =
    let (first, ds, e, digit) = first_digit amount unit interval d in
    let rest = unit ∷ written_jitter jitter (b' ' ∷ text) in
    let shape : written amount unit jitter text ≡ first ∷ (ds ++ rest) = rw e refl in
    let (read, small) = jitter_read interval jitter jitter_ms text j in
    ap parse_input (
      trim_of_IsTrimmed (written amount unit jitter text)
        (written-IsTrimmed amount unit interval jitter jitter_ms text d j t))
    ∙ no_word (written amount unit jitter text) first (ds ++ rest) shape digit
    ∙ ap (from_match (written amount unit jitter text))
        (match_read amount unit interval jitter jitter_ms text d j t)
    ∙ rw (interval_read amount unit interval d, read)
        (set_read interval jitter_ms text small t bounded)

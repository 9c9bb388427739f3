-- ===== src/Questions/Repeat.antt =====
-- `repeatedQuestion` of questions/state.ts. The ratios of small integers that it compares with 0.72
-- and 0.5 are compared as fractions: no two such quotients round to one double.
use Prim.Native.Nat.{max}
use dotconfig.Base.{
  replace_runs, ℕ, ◌*◌, Bool, true, false, not, ◌&&◌, ◌||◌, Option, none, some, List, [], ◌∷◌, ◌++◌,
  map, Text, codes, text_eq, text_eq_iff, arith, ◌≡◌, ◌≢◌, ◌⊎◌, refl, ℤ, find-eq-some, find-ne-none,
  Memᴰ-append_right, trim, is_space, is_digit, any, every, keep, find, length, lower, leb, ltb,
  ◌==◌, min, if◌then◌else◌,
}
use mathlib.Core.List.{Memᴰ}
use dotconfig.Questions.{
  Draft, ask, replace, apply_question_action, asked, withdraw_one, Status, pending, resolved,
  Question, QuestionState,
}

-- `[a-z0-9]`
abbrev pub is_word_unit : ℕ → Bool
is_word_unit c = (leb b'a' c && leb c b'z') || (leb b'0' c && leb c b'9')

-- `toLowerCase` on one code unit, as far as `[^a-z0-9]` can see it: U+0130 and U+212A are the units
-- outside ASCII whose lower case has an ASCII letter.
abbrev pub lower_unit : ℕ → Text
lower_unit c =
    if c == 0x130 then b'i' ∷ 0x307 ∷ [] else if c == 0x212a then b'k' ∷ [] else lower c ∷ []

unfoldable pub to_lower : Text → Text
to_lower [] = []
to_lower (c ∷ s) = lower_unit c ++ to_lower s

unfoldable pub normalized_question : Text → Text
unfolding to_lower replace_runs trim is_space
normalized_question s =
    replace_runs is_space false (trim (replace_runs (λ c. not (is_word_unit c)) false (to_lower s)))

-- `text.split(" ")`; `cur` is the part that is being read.
unfoldable pub split_blanks : Text → Text → List Text
split_blanks cur [] = cur ∷ []
split_blanks cur (c ∷ s) =
    let rest = split_blanks (if c == b' ' then [] else cur ++ c ∷ []) s in
    if c == b' ' then cur ∷ rest else rest

abbrev pub question_stop_words : List Text
question_stop_words =
    codes "a"
    ∷ codes "an"
    ∷ codes "and"
    ∷ codes "are"
    ∷ codes "be"
    ∷ codes "do"
    ∷ codes "does"
    ∷ codes "for"
    ∷ codes "i"
    ∷ codes "in"
    ∷ codes "is"
    ∷ codes "it"
    ∷ codes "of"
    ∷ codes "on"
    ∷ codes "or"
    ∷ codes "should"
    ∷ codes "the"
    ∷ codes "this"
    ∷ codes "to"
    ∷ codes "use"
    ∷ codes "we"
    ∷ codes "what"
    ∷ codes "which"
    ∷ codes "with"
    ∷ codes "you"
    ∷ []

abbrev pub includes : List Text → Text → Bool
includes ts t = any (λ u. text_eq u t) ts

-- The values of `new Set(texts)`, of which only the number and the membership are read.
abbrev pub distinct : List Text → List Text
distinct [] = []
distinct (t ∷ ts) = let rest = distinct ts in if includes ts t then rest else t ∷ rest

-- A token that counts: longer than one unit, no number, no stop word.
unfoldable pub is_significant : Text → Bool
is_significant t =
    ltb 1 (length t) && not (every is_digit t) && not (includes question_stop_words t)

unfoldable pub significant_question_tokens : Text → List Text
unfolding split_blanks is_significant text_eq
significant_question_tokens s =
    distinct (keep is_significant (split_blanks [] (normalized_question s)))

abbrev pub is_withdrawn : Status → Bool
is_withdrawn pending = false
is_withdrawn (resolved answer withdrawn) = withdrawn

-- The two ratios: intersection / min ≥ 0.72 and intersection / max ≥ 0.5.
unfoldable pub tokens_overlap : List Text → List Text → Bool
tokens_overlap candidate existing =
    if ltb (length candidate) 5 || ltb (length existing) 5
    then false
    else let intersection = length (keep (includes existing) candidate) in
      leb 5 intersection
      && leb (18 * min (length candidate) (length existing)) (25 * intersection)
      && leb (max (length candidate) (length existing)) (2 * intersection)

unfoldable pub repeats : Text → Question → Bool
repeats candidate q =
    if is_withdrawn q.status
    then false
    else if text_eq (normalized_question q.question) (normalized_question candidate)
    then true
    else tokens_overlap (significant_question_tokens candidate)
        (significant_question_tokens q.question)

unfoldable pub repeated_question : QuestionState → Text → Option Question
repeated_question s candidate = find (repeats candidate) s.questions

-- A repeated question stands in the list, is not withdrawn, and has the candidate's normal form or
-- shares enough significant words with it.
pub repeated_question-eq-some :
    (s : QuestionState) (candidate : Text) (q : Question)
    → repeated_question s candidate ≡ some q
    → Memᴰ q s.questions
      × (is_withdrawn q.status ≡ false)
      × ((normalized_question q.question ≡ normalized_question candidate)
          ⊎ (tokens_overlap
                (significant_question_tokens candidate)
                (significant_question_tokens q.question)
              ≡ true))
unfolding repeated_question repeats
repeated_question-eq-some s candidate q h =
    let (m, p) = find-eq-some (repeats candidate) s.questions h in
    (
      m,
      ground arith,
      ground (arith, text_eq_iff (normalized_question q.question) (normalized_question candidate)),
    )

-- Unless it was withdrawn, a question with the candidate's normal form is never missed.
pub repeated_question-ne-none :
    (s : QuestionState) (candidate : Text) (q : Question)
    → Memᴰ q s.questions
    → is_withdrawn q.status ≡ false
    → normalized_question q.question ≡ normalized_question candidate
    → repeated_question s candidate ≢ none
unfolding repeated_question repeats
repeated_question-ne-none s candidate q m w e =
    find-ne-none (repeats candidate) s.questions m
      (ground (arith, text_eq_iff (normalized_question q.question) (normalized_question candidate)))

-- A question that was just asked, or that replaced another, is found when it is asked again.
pub repeated_question-ask :
    (s : QuestionState) (d : Draft) (i : ℤ) (reason : Text)
    → (repeated_question (apply_question_action s (ask d)) (trim d.question) ≢ none)
      × (repeated_question (apply_question_action s (replace i reason d)) (trim d.question) ≢ none)
unfolding apply_question_action asked
repeated_question-ask s d i reason = (
  repeated_question-ne-none _ _ (asked s.next_id d) (Memᴰ-append_right s.questions (Memᴰ.head refl))
      refl refl,
  repeated_question-ne-none _ _ (asked s.next_id d)
      (Memᴰ-append_right (map (withdraw_one i reason) s.questions) (Memᴰ.head refl)) refl refl,
)

-- ===== src/Questions/Decode.antt =====
-- `decodeQuestionState` and `repairMisroutedPromptAnswers` of questions/state.ts.
use dotconfig.Base.{
  Bool, true, false, ◌&&◌, Option, none, some, List, [], ◌∷◌, map, Text, codes, length, ◌==◌,
  contains_ci, if◌then◌else◌, Value, undefined, str, Fields, lookup_field, as_record, as_array,
  as_text, ℤ, as_safe_integer, is_text, is_true,
}
use dotconfig.Questions.{
  QuestionOption, Status, pending, resolved, Question, QuestionState, truthy, as_pending,
}

infixl 5 ◌>>=◌
abbrev pub ◌>>=◌ {ℓ κ} : {A : Type ℓ} {B : Type κ} → Option A → (A → Option B) → Option B
none >>= f = none
some a >>= f = f a

-- `x === undefined || typeof x === "string"`, with the text.
abbrev pub optional_text : Value → Option (Option Text)
optional_text undefined = some none
optional_text (str s) = some (some s)
optional_text _ = none

-- The label and the description; what else an option has is not kept in the model.
unfoldable pub decode_option : Value → Option QuestionOption
decode_option v = do
  fields ← as_record v
  label ← as_text (lookup_field (codes "label") fields)
  description ← optional_text (lookup_field (codes "description") fields)
  some (record { label = label; description = description })

unfoldable pub decode_options : List Value → Option (List QuestionOption)
unfolding decode_option
decode_options [] = some []
decode_options (v ∷ vs) = do o ← decode_option v; os ← decode_options vs; some (o ∷ os)

-- `x === undefined || Array.isArray(x) && x.every(…)`, with the options.
abbrev pub optional_options : Value → Option (Option (List QuestionOption))
optional_options undefined = some none
optional_options v = do vs ← as_array v; os ← decode_options vs; some (some os)

abbrev pub decode_withdrawn : Value → Option Bool
decode_withdrawn undefined = some false
decode_withdrawn v = if is_true v then some true else none

-- The last two branches of the decoder, by the candidate's `status`.
unfoldable pub decode_status : Fields → Bool → Option Status
decode_status fields withdrawn =
    let status = lookup_field (codes "status") fields in
    if is_text status (codes "pending")
    then some pending
    else if is_text status (codes "resolved")
    then (do
      answer ← as_text (lookup_field (codes "answer") fields)
      some (resolved answer withdrawn))
    else none

-- The question of the candidate's parts, none of which may be missing.
unfoldable pub assemble :
    Option ℤ
    → Option Text
    → Option (Option Text)
    → Option (Option Text)
    → Option (Option (List QuestionOption))
    → Option Status
    → Option Question
assemble an_id a_question a_header a_guess an_options a_status = do
  i ← an_id
  question ← a_question
  header ← a_header
  guess ← a_guess
  options ← an_options
  status ← a_status
  some (record {
    id = i;
    question = question;
    header = truthy header;
    guess = truthy guess;
    options = options;
    status = status;
  })

unfoldable pub decode_question : Value → Option Question
decode_question v = do
  fields ← as_record v
  assemble (as_safe_integer (lookup_field (codes "id") fields))
      (as_text (lookup_field (codes "question") fields))
      (optional_text (lookup_field (codes "header") fields))
      (optional_text (lookup_field (codes "guess") fields))
      (optional_options (lookup_field (codes "options") fields))
      (do
        withdrawn ← decode_withdrawn (lookup_field (codes "withdrawn") fields)
        decode_status fields withdrawn)

-- `flatMap` over the candidates: one that does not decode is left out.
unfoldable pub decode_questions : List Value → List Question
decode_questions [] = []
decode_questions (v ∷ vs) =
    let rest = decode_questions vs in elim (decode_question v) [ none ↦ rest | some q ↦ q ∷ rest ]

unfoldable pub decode_question_state : Value → Option QuestionState
decode_question_state v = do
  fields ← as_record v
  candidates ← as_array (lookup_field (codes "questions") fields)
  next ← as_safe_integer (lookup_field (codes "nextId") fields)
  let questions = decode_questions candidates in
      if length questions == length candidates
      then some (record { questions = questions; next_id = next })
      else none

abbrev pub is_misrouted : Status → Bool
is_misrouted pending = false
is_misrouted (resolved answer withdrawn) =
    contains_ci (codes "screencaptureui") answer
    && contains_ci (codes "trying to do a normal prompt") answer

unfoldable pub repair_one : Question → Question
repair_one q = if is_misrouted q.status then as_pending q else q

unfoldable pub repair_misrouted_prompt_answers : QuestionState → QuestionState
repair_misrouted_prompt_answers s = record s { questions = map repair_one s.questions }

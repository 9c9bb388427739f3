-- ===== src/Questions/RoundTrip.antt =====
-- The state is stored as a JSON value; `decodeQuestionState` restores what was stored.
use dotconfig.Base.{
  suc, ◌≤◌, ◌<◌, ◌≡◌, refl, ap, true, false, Option, none, some, List, [], ◌∷◌, arith, Text, codes,
  ℤ, pos, negsuc, All, length, ==_iff, max_safe_integer, Value, str, bool, obj, arr, num, int,
  Items, nil, cons, items, Fields, end, field, undefined, lookup_field, as_safe_integer, as_text,
}
use dotconfig.Questions.{QuestionOption, Status, pending, resolved, Question, QuestionState}
use dotconfig.Questions.Answers.{IsNormal}
use dotconfig.Questions.Decode.{
  decode_option, decode_options, decode_status, decode_question, assemble, decode_questions,
  decode_question_state, optional_text, optional_options, decode_withdrawn, ◌>>=◌,
}

-- A field that is left out when there is no value.
abbrev text_field : Text → Option Text → Fields → Fields
text_field k none fs = fs
text_field k (some s) fs = field k (str s) fs

abbrev encode_option : QuestionOption → Value
encode_option o =
    obj (field (codes "label") (str o.label) (text_field (codes "description") o.description end))

abbrev encode_options : List QuestionOption → Items
encode_options [] = nil
encode_options (o ∷ os) = cons (encode_option o) (encode_options os)

abbrev options_field : Option (List QuestionOption) → Fields → Fields
options_field none fs = fs
options_field (some os) fs = field (codes "options") (arr (encode_options os)) fs

abbrev status_fields : Status → Fields
status_fields pending = field (codes "status") (str (codes "pending")) end
status_fields (resolved answer false) =
    field (codes "status") (str (codes "resolved")) (field (codes "answer") (str answer) end)
status_fields (resolved answer true) =
    field (codes "status") (str (codes "resolved"))
      (field (codes "answer") (str answer) (field (codes "withdrawn") (bool true) end))

abbrev pub encode_question : Question → Value
encode_question q = obj (
    field (codes "id") (num (int q.id)) (
      field (codes "question") (str q.question) (
        text_field (codes "header") q.header
          (text_field (codes "guess") q.guess (options_field q.options (status_fields q.status))))))

abbrev pub encode_questions : List Question → Items
encode_questions [] = nil
encode_questions (q ∷ qs) = cons (encode_question q) (encode_questions qs)

-- The JSON value of a state.
abbrev pub encode_question_state : QuestionState → Value
encode_question_state s = obj (
    field (codes "questions") (arr (encode_questions s.questions))
      (field (codes "nextId") (num (int s.next_id)) end))

abbrev pub IsSafeInteger : ℤ → Type 0
IsSafeInteger (pos n) = n ≤ max_safe_integer
IsSafeInteger (negsuc n) = n < max_safe_integer

as_safe_integer_of : (i : ℤ) → IsSafeInteger i → as_safe_integer (num (int i)) ≡ some i
as_safe_integer_of (pos n) h = ground arith
as_safe_integer_of (negsuc n) h = ground arith

decode-encode_option : (o : QuestionOption) → decode_option (encode_option o) ≡ some o
unfolding decode_option lookup_field
decode-encode_option o = ground arith

decode-encode_options :
    (os : List QuestionOption) → decode_options (items (encode_options os)) ≡ some os
unfolding decode_options
decode-encode_options [] = refl
decode-encode_options (o ∷ os) = rw (decode-encode_option o, decode-encode_options os)

abbrev text_value : Option Text → Value
text_value none = undefined
text_value (some s) = str s

abbrev options_value : Option (List QuestionOption) → Value
options_value none = undefined
options_value (some os) = arr (encode_options os)

abbrev fields_of : Question → Fields
fields_of q = field (codes "id") (num (int q.id)) (
    field (codes "question") (str q.question) (
      text_field (codes "header") q.header
        (text_field (codes "guess") q.guess (options_field q.options (status_fields q.status)))))

lookup-header : (q : Question) → lookup_field (codes "header") (fields_of q) ≡ text_value q.header
unfolding lookup_field
lookup-header q = ground arith

lookup-guess : (q : Question) → lookup_field (codes "guess") (fields_of q) ≡ text_value q.guess
unfolding lookup_field
lookup-guess q = ground arith

lookup-options :
    (q : Question) → lookup_field (codes "options") (fields_of q) ≡ options_value q.options
unfolding lookup_field
lookup-options q = ground arith

decode_status-fields_of :
    (q : Question)
    → (do
      w ← decode_withdrawn (lookup_field (codes "withdrawn") (fields_of q))
      decode_status (fields_of q) w)
      ≡ some q.status
unfolding lookup_field decode_status
decode_status-fields_of q = ground arith

optional_text-text_value : (o : Option Text) → optional_text (text_value o) ≡ some o
optional_text-text_value none = refl
optional_text-text_value (some s) = refl

optional_options-options_value :
    (o : Option (List QuestionOption)) → optional_options (options_value o) ≡ some o
optional_options-options_value none = refl
optional_options-options_value (some os) = rw (decode-encode_options os)

lookup-id :
    (q : Question)
    → (lookup_field (codes "id") (fields_of q) ≡ num (int q.id))
      × (lookup_field (codes "question") (fields_of q) ≡ str q.question)
unfolding lookup_field
lookup-id q = (refl, refl)

assemble_lem :
    (q : Question)
    → IsNormal q
    → assemble
        (some q.id)
        (some q.question)
        (some q.header)
        (some q.guess)
        (some q.options)
        (some q.status)
      ≡ some q
unfolding assemble
assemble_lem q n = ground (arith, n.header, n.guess)

module _ (q : Question) where
  part-id :
      IsSafeInteger q.id → as_safe_integer (lookup_field (codes "id") (fields_of q)) ≡ some q.id
  part-id h = rw (lookup-id q).0 (as_safe_integer_of q.id h)

  part-question : as_text (lookup_field (codes "question") (fields_of q)) ≡ some q.question
  part-question = rw (lookup-id q).1

  part-header : optional_text (lookup_field (codes "header") (fields_of q)) ≡ some q.header
  part-header = rw (lookup-header q) (optional_text-text_value q.header)

  part-guess : optional_text (lookup_field (codes "guess") (fields_of q)) ≡ some q.guess
  part-guess = rw (lookup-guess q) (optional_text-text_value q.guess)

  part-options : optional_options (lookup_field (codes "options") (fields_of q)) ≡ some q.options
  part-options = rw (lookup-options q) (optional_options-options_value q.options)

decode-encode_question :
    (q : Question) → IsNormal q → IsSafeInteger q.id → decode_question (encode_question q) ≡ some q
unfolding decode_question
decode-encode_question q n h =
    rw
      (
        part-id q h,
        part-question q,
        part-header q,
        part-guess q,
        part-options q,
        decode_status-fields_of q,
      )
      (assemble_lem q n)

decode-encode_questions :
    (qs : List Question)
    → All (λ (q : Question). IsNormal q × IsSafeInteger q.id) qs
    → decode_questions (items (encode_questions qs)) ≡ qs
unfolding decode_questions
decode-encode_questions [] h = refl
decode-encode_questions (q ∷ qs) (h, hs) =
    ground (arith, decode-encode_question q h.0 h.1, decode-encode_questions qs hs)

length-encode_questions : (qs : List Question) → length (items (encode_questions qs)) ≡ length qs
length-encode_questions [] = refl
length-encode_questions (q ∷ qs) = ap suc (length-encode_questions qs)

-- A state whose ids are safe integers and whose questions have no empty header or guess is restored
-- from its JSON value as it was.
pub decode-encode_question_state :
    (s : QuestionState)
    → All (λ (q : Question). IsNormal q × IsSafeInteger q.id) s.questions
    → IsSafeInteger s.next_id
    → decode_question_state (encode_question_state s) ≡ some s
unfolding decode_question_state lookup_field
decode-encode_question_state s h k = rw (
  as_safe_integer_of s.next_id k,
  decode-encode_questions s.questions h,
  length-encode_questions s.questions,
  (==_iff (length s.questions) (length s.questions)).1 refl,
)

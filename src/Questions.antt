-- ===== src/Questions.antt =====
-- ai/pi/extensions/questions/state.ts: the questions put to the user, and the actions on them.
-- A question's `status` with the fields that only one status has is one field. Ids are safe integers;
-- the model of `+ 1` is the one of doubles up to 2^53, where 2^53 + 1 is rounded to 2^53.
pub mod Decode
pub mod Repeat
pub mod Ids
pub mod Answers
pub mod RoundTrip
mod Tests
use dotconfig.Base.{
  suc, Bool, true, false, not, ◌&&◌, Option, none, some, List, [], ◌∷◌, ◌++◌, map, Text, trim, ℤ,
  pos, eq_ℤ, ltb_ℤ, ◌+ℤ◌, keep, if◌then◌else◌, max_safe_integer,
}

pub record QuestionOption : Type 0 where
  pub label : Text
  pub description : Option Text

pub data Status : Type 0 where
  pending : Status
  resolved : (answer : Text) (withdrawn : Bool) → Status

pub record Question : Type 0 where
  pub id : ℤ
  pub question : Text
  pub header : Option Text
  pub guess : Option Text
  pub options : Option (List QuestionOption)
  pub status : Status

pub record QuestionState : Type 0 where
  pub questions : List Question
  pub next_id : ℤ

-- The fields that `ask` and `replace` share.
pub record Draft : Type 0 where
  pub question : Text
  pub header : Option Text
  pub guess : Option Text
  pub options : Option (List QuestionOption)

pub data QuestionAction : Type 0 where
  list : QuestionAction
  ask : Draft → QuestionAction
  resolve : (id : ℤ) (answer : Text) → QuestionAction
  withdraw : (id : ℤ) (reason : Text) → QuestionAction
  replace : (id : ℤ) (reason : Text) → Draft → QuestionAction
  reopen : (id : ℤ) → QuestionAction
  clear_resolved : QuestionAction

abbrev pub empty_question_state : QuestionState
empty_question_state = record { questions = []; next_id = pos 1 }

-- `x ? { field: x } : {}` on an optional text: the empty text is dropped.
abbrev pub truthy : Option Text → Option Text
truthy none = none
truthy (some []) = none
truthy (some (c ∷ s)) = some (c ∷ s)

-- `x?.trim()`
abbrev pub trimmed : Option Text → Option Text
trimmed none = none
trimmed (some s) = some (trim s)

-- `options && options.length > 0 ? { options } : {}`
abbrev pub non_empty_options : Option (List QuestionOption) → Option (List QuestionOption)
non_empty_options none = none
non_empty_options (some []) = none
non_empty_options (some (o ∷ os)) = some (o ∷ os)

-- `id + 1` on doubles of absolute value at most 2^53.
unfoldable pub next_number : ℤ → ℤ
next_number i = if ltb_ℤ i (pos (suc max_safe_integer)) then i +ℤ pos 1 else i

-- `question.status === "pending"`
abbrev pub is_pending_status : Status → Bool
is_pending_status pending = true
is_pending_status (resolved answer withdrawn) = false

abbrev pub is_pending : Question → Bool
is_pending q = is_pending_status q.status

unfoldable pub asked : ℤ → Draft → Question
asked i d = record {
  id = i;
  question = trim d.question;
  header = truthy (trimmed d.header);
  guess = truthy (trimmed d.guess);
  options = non_empty_options d.options;
  status = pending;
}

unfoldable pub resolve_one : ℤ → Text → Question → Question
resolve_one i answer q =
    if eq_ℤ q.id i && is_pending q then record q { status = resolved (trim answer) false } else q

unfoldable pub withdraw_one : ℤ → Text → Question → Question
withdraw_one i reason q =
    if eq_ℤ q.id i then record q { status = resolved (trim reason) true } else q

-- The pending question that a resolved one becomes again.
unfoldable pub as_pending : Question → Question
as_pending q = record {
  id = q.id;
  question = q.question;
  header = truthy q.header;
  guess = truthy q.guess;
  options = q.options;
  status = pending;
}

unfoldable pub reopen_one : ℤ → Question → Question
reopen_one i q = if eq_ℤ q.id i && not (is_pending q) then as_pending q else q

unfoldable pub apply_question_action : QuestionState → QuestionAction → QuestionState
apply_question_action s list = s
apply_question_action s (ask d) = record {
  questions = s.questions ++ asked s.next_id d ∷ [];
  next_id = next_number s.next_id;
}
apply_question_action s (resolve i answer) = record s {
  questions = map (resolve_one i answer) s.questions;
}
apply_question_action s (withdraw i reason) = record s {
  questions = map (withdraw_one i reason) s.questions;
}
apply_question_action s (replace i reason d) = record {
  questions = map (withdraw_one i reason) s.questions ++ asked s.next_id d ∷ [];
  next_id = next_number s.next_id;
}
apply_question_action s (reopen i) = record s { questions = map (reopen_one i) s.questions }
apply_question_action s clear_resolved = record s { questions = keep is_pending s.questions }

unfoldable pub pending_questions : QuestionState → List Question
pending_questions s = keep is_pending s.questions

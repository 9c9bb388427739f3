-- ===== src/Questions/Tests.antt =====
-- Runs of questions/state.ts, and the theorems at concrete states.
use dotconfig.Base.{
  ◌≡◌, refl, true, false, none, some, [], ◌∷◌, arith, Text, codes, ℤ, pos, trim, is_space, text_eq,
  lookup_field, contains_ci, obj, end,
}
use dotconfig.Questions.{
  Question, QuestionState, Draft, Status, pending, resolved, ask, resolve, replace, reopen,
  empty_question_state, apply_question_action, asked, next_number, resolve_one, reopen_one,
  withdraw_one, as_pending, pending_questions,
}
use dotconfig.Questions.Decode.{
  decode_question_state, decode_questions, decode_question, assemble, decode_status, decode_options,
  decode_option, repair_misrouted_prompt_answers, repair_one,
}
use dotconfig.Questions.Repeat.{
  repeated_question, repeats, normalized_question, significant_question_tokens, tokens_overlap,
}
use dotconfig.Questions.Ids.{IsWellFormed, apply_question_action-IsWellFormed}
use dotconfig.Questions.Answers.{pending_after, pending_questions-apply}
use dotconfig.Questions.RoundTrip.{encode_question_state, decode-encode_question_state}

questions : Unit {0}
unfolding apply_question_action asked next_number resolve_one reopen_one withdraw_one as_pending
    pending_questions decode_question_state decode_questions decode_question assemble decode_status
    decode_options decode_option repair_misrouted_prompt_answers repair_one contains_ci
    repeated_question repeats normalized_question significant_question_tokens tokens_overlap trim
    is_space text_eq lookup_field
questions = tt

abbrev draft : Text → Draft
draft t = record { question = t; header = some (codes "  "); guess = none; options = some [] }

abbrev plain : ℤ → Text → Status → Question
plain i t st = record {
  id = i;
  question = t;
  header = none;
  guess = none;
  options = none;
  status = st;
}

abbrev two : QuestionState
two = record {
  questions =
      plain (pos 1) (codes "Ship it?") pending
      ∷ plain (pos 2) (codes "Who?") (resolved (codes "me") false)
      ∷ [];
  next_id = pos 3;
}

apply_tests :
    (apply_question_action empty_question_state (ask (draft (codes " Ship it? ")))
      ≡ record { questions = plain (pos 1) (codes "Ship it?") pending ∷ []; next_id = pos 2 })
    × (pending_questions (apply_question_action two (reopen (pos 2)))
        ≡ plain (pos 1) (codes "Ship it?") pending ∷ plain (pos 2) (codes "Who?") pending ∷ [])
    × (decode_question_state (obj end) ≡ none)
    × (repair_misrouted_prompt_answers (record two {
      questions =
          plain
            (pos 1)
            (codes "Ok?")
            (resolved (codes "ScreenCaptureUI: trying to do a Normal prompt") false)
          ∷ [];
    })
        ≡ record two { questions = plain (pos 1) (codes "Ok?") pending ∷ [] })
unfolding questions
apply_tests = (refl, refl, refl, refl)

abbrev long : Text
long = codes "Deploy ledger service before Friday freeze window?"

abbrev long_again : Text
long_again = codes "ledger service: deploy before the Friday freeze-window"

repeat_tests :
    (normalized_question (codes "  Ship, IT?! ") ≡ codes "ship it")
    × (repeated_question (record two { questions = plain (pos 1) long pending ∷ [] }) long_again
        ≡ some (plain (pos 1) long pending))
    × (repeated_question
          (record two { questions = plain (pos 1) long (resolved (codes "no") true) ∷ [] })
          long
        ≡ none)
unfolding questions
repeat_tests = (refl, refl, refl)

two-IsWellFormed : IsWellFormed two
two-IsWellFormed = record { below = omega arith; distinct = ground arith }

apply_question_action-IsWellFormed_example :
    IsWellFormed (apply_question_action two (replace (pos 1) (codes "old") (draft (codes "When?"))))
apply_question_action-IsWellFormed_example =
    apply_question_action-IsWellFormed two (replace (pos 1) (codes "old") (draft (codes "When?")))
      (omega arith) two-IsWellFormed

pending_questions-apply_example :
    pending_questions (apply_question_action two (resolve (pos 1) (codes "yes")))
    ≡ pending_after two (resolve (pos 1) (codes "yes")) (pending_questions two)
pending_questions-apply_example =
    pending_questions-apply two (resolve (pos 1) (codes "yes")) (λ h. h)

abbrev open_one : QuestionState
open_one = record { questions = plain (pos 1) (codes "Ship it?") pending ∷ []; next_id = pos 2 }

decode-encode_question_state_example : decode_question_state (encode_question_state two) ≡ some two
decode-encode_question_state_example =
    decode-encode_question_state two
      (
        (record { header = refl; guess = refl }, omega arith),
        ((record { header = refl; guess = refl }, omega arith), tt),
      )
      (omega arith)

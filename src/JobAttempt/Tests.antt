-- ===== src/JobAttempt/Tests.antt =====
-- Runs of job-attempt.ts on concrete attempts, and the theorems at them.
use mathlib.Core.List.{Memᴰ}
use dotconfig.Base.{
  ◌≡◌, refl, ◌↔◌, Result, Bool, true, none, some, List, [], ◌∷◌, Text, codes, ok, err, text_eq,
}
use dotconfig.JobAttempt.{
  Identity, Body, AttemptEvent, Status, StopReason, AttemptSnapshot, absent, recorded,
  receipt_conflict, Error, Decision, EventReceipt, malformed, out_of_order, invalid_transition,
  duplicate, appended, unknown,
}
use dotconfig.JobAttempt.Schema.{
  valid_snapshot, valid_identity, valid_id, valid_event, valid_body, valid_output, valid_receipt,
  same_event, same_body,
}
use dotconfig.JobAttempt.Decide.{
  next_status, next_snapshot, decide_attempt_event, settle, check_ownership, append_event,
  permits_transition, receipt_conflicts,
}
use dotconfig.JobAttempt.Transition.{Step, phase, phase_at, permits_transition_iff}
use dotconfig.JobAttempt.Outcome.{IsValid, IsAppend, decide-appended_iff}
use dotconfig.JobAttempt.Store.{Store, submit_all, decide_in}
use dotconfig.JobAttempt.Store
use dotconfig.JobAttempt.Store.Replay.{submit_again}
use dotconfig.JobAttempt.Store.Numbering.{IsNumbered, submit_all-IsNumbered}

-- Stands for the pattern of `Schema.UUID`.
abbrev any_uuid : Text → Bool
any_uuid s = true

abbrev me : Identity
me = record { job_id = codes "a1"; attempt_id = codes "b2"; fence = codes "c3" }

abbrev fresh : AttemptSnapshot
fresh = record { identity = me; status = Status.pending; sequence = 0; terminal_event_id = none }

abbrev event : Text → dotconfig.Base.ℕ → Body → AttemptEvent
event i n b = record { identity = me; event_id = i; sequence = n; occurred_at = 5; body = b }

abbrev submitted : AttemptEvent
submitted = event (codes "e1") 1 Body.pending

abbrev cancelled : AttemptEvent
cancelled = event (codes "e2") 2 (Body.cancelled StopReason.user unknown)

run : Unit {0}
unfolding decide_attempt_event settle check_ownership append_event permits_transition next_snapshot
    receipt_conflicts same_event same_body valid_snapshot valid_identity valid_id valid_event
    valid_body valid_output valid_receipt submit_all Store.submit Store.receipt_of text_eq
run = tt

abbrev decide : AttemptSnapshot → EventReceipt → AttemptEvent → Result Error Decision
decide s r e = decide_attempt_event any_uuid s me r e

decide_tests :
    (decide fresh (recorded submitted) submitted ≡ err receipt_conflict)
    × (decide fresh absent cancelled ≡ err out_of_order)
    × (decide fresh absent (event (codes "e3") 1 Body.running) ≡ err invalid_transition)
    × (decide fresh absent (event (codes "E3") 1 Body.pending) ≡ err malformed)
    × (decide fresh absent submitted
        ≡ ok (appended (record fresh { sequence = 1; terminal_event_id = none }) submitted))
unfolding run
decide_tests = (refl, refl, refl, refl, refl)

fresh-IsValid : IsValid any_uuid fresh me submitted
unfolding run
fresh-IsValid = record { snapshot = refl; owner_id = refl; event = refl }

decide-appended_iff_example :
    (decide fresh absent submitted ≡ ok (appended (next_snapshot fresh me submitted) submitted)) ↔ (
      IsAppend any_uuid fresh me submitted (next_snapshot fresh me submitted)
      × (submitted ≡ submitted))
decide-appended_iff_example =
    decide-appended_iff any_uuid fresh me submitted submitted (next_snapshot fresh me submitted)

abbrev gone : AttemptSnapshot
gone = record {
  identity = me;
  status = Status.cancelled;
  sequence = 2;
  terminal_event_id = some (codes "e2");
}

abbrev inbox : List AttemptEvent
inbox = submitted ∷ cancelled ∷ submitted ∷ event (codes "e5") 3 Body.running ∷ []

abbrev start : Store
start = record { snapshot = fresh; events = [] }

submit_all_test :
    submit_all any_uuid me start inbox
    ≡ record { snapshot = gone; events = cancelled ∷ submitted ∷ [] }
unfolding run
submit_all_test = refl

submit_again_example :
    let t = submit_all any_uuid me start inbox in
    (decide_in any_uuid me t submitted ≡ ok duplicate) × (Store.submit any_uuid me t submitted ≡ t)
submit_again_example =
    submit_again any_uuid me fresh inbox submitted (rw submit_all_test (Memᴰ.tail (Memᴰ.head refl)))

submit_all-IsNumbered_example : IsNumbered 0 (submit_all any_uuid me start inbox)
submit_all-IsNumbered_example = submit_all-IsNumbered any_uuid me fresh inbox

permits_transition_iff_example :
    (permits_transition gone cancelled ≡ true)
    ↔ Step (phase gone) cancelled.body (phase_at 3 (next_status gone.status cancelled.body))
permits_transition_iff_example = permits_transition_iff gone cancelled

-- ===== src/JobAttempt/Store.antt =====
-- The persistence owner that job-attempt.ts asks for: it reads the snapshot and the receipt of the
-- event's id, takes the decision and records an appended event, in one transaction.
pub mod Replay
pub mod Numbering
use dotconfig.Base.{
  ◌≡◌, refl, ◌≢◌, Bool, List, [], ◌∷◌, arith, Text, text_eq, if◌then◌else◌, Result, ok, err,
}
use dotconfig.JobAttempt.{
  Identity, AttemptEvent, AttemptSnapshot, EventReceipt, absent, recorded, Error, Decision,
  duplicate, appended,
}
use dotconfig.JobAttempt.Decide.{next_snapshot, settle, decide_attempt_event}
use dotconfig.JobAttempt.Outcome.{IsAppend, decide-appended_iff}

pub record Store : Type 0 where
  pub snapshot : AttemptSnapshot
  pub events : List AttemptEvent

unfoldable pub receipt_of : Text → List AttemptEvent → EventReceipt
receipt_of i [] = absent
receipt_of i (e ∷ es) = if text_eq e.event_id i then recorded e else receipt_of i es

module _ (is_uuid : Text → Bool) (owner : Identity) where
  abbrev record_decision : Store → Result Error Decision → Store
  record_decision t (ok (appended next e)) = record { snapshot = next; events = e ∷ t.events }
  record_decision t _ = t

  abbrev pub decide_in : Store → AttemptEvent → Result Error Decision
  decide_in t e = decide_attempt_event is_uuid t.snapshot owner (receipt_of e.event_id t.events) e

  unfoldable pub submit : Store → AttemptEvent → Store
  submit t e = record_decision t (decide_in t e)

  unfoldable pub submit_all : Store → List AttemptEvent → Store
  submit_all t [] = t
  submit_all t (e ∷ es) = submit_all (submit t e) es

  recorded-ne-appended :
      (s next : AttemptSnapshot) (f e e' : AttemptEvent)
      → decide_attempt_event is_uuid s owner (recorded f) e ≢ ok (appended next e')
  unfolding decide_attempt_event settle
  recorded-ne-appended s next f e e' h = ground arith

  abbrev pub grown : Store → AttemptEvent → Store
  grown t e = record { snapshot = next_snapshot t.snapshot owner e; events = e ∷ t.events }

  record_decision_cases {ℓ} :
      (P : Store → Type ℓ) (t : Store) (r : Result Error Decision)
      → P t
      → ((next : AttemptSnapshot) (e : AttemptEvent)
          → r ≡ ok (appended next e)
          → P (record { snapshot = next; events = e ∷ t.events }))
      → P (record_decision t r)
  record_decision_cases P t (ok (appended next e)) v grow = grow next e refl
  record_decision_cases P t (ok duplicate) v grow = v
  record_decision_cases P t (err x) v grow = v

  -- A submission leaves the store alone, or appends the next step of the attempt.
  pub submit_cases {ℓ} :
      (P : Store → Type ℓ) (t : Store) (e : AttemptEvent)
      → P t
      → (receipt_of e.event_id t.events ≡ absent
          → IsAppend is_uuid t.snapshot owner e (next_snapshot t.snapshot owner e)
          → P (grown t e))
      → P (submit t e)
  unfolding submit
  submit_cases P t e v grow = go (receipt_of e.event_id t.events) refl
    where
      go :
          (r : EventReceipt)
          → receipt_of e.event_id t.events ≡ r
          → P (record_decision t (decide_attempt_event is_uuid t.snapshot owner r e))
      go absent q = record_decision_cases P t _ v λ next f h.
          let (a, same) = (decide-appended_iff is_uuid t.snapshot owner e f next).0 h in
          let n = a.successor in rw (same, n) (grow q (rw n at a))
      go (recorded f) q =
          record_decision_cases P t _ v
            λ next e' h. absurd (recorded-ne-appended t.snapshot next f e e' h)

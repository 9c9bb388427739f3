-- ===== src/JobAttempt/Store/Replay.antt =====
-- Exactly-once delivery: a recorded event is answered `duplicate` for ever after.
use mathlib.Core.List.{Memᴰ}
use dotconfig.Base.{
  ◌+◌, ◌≤◌, ◌≡◌, refl, ap, ◌≢◌, Bool, true, false, List, [], ◌∷◌, arith, Text, text_eq_iff,
  text_eq_refl, ok, All, All-of_mem, All-mono,
}
use dotconfig.JobAttempt.{Identity, AttemptEvent, AttemptSnapshot, absent, recorded, duplicate}
use dotconfig.JobAttempt.Schema.{valid_event, valid_receipt, same_event_iff}
use dotconfig.JobAttempt.Decide.{
  permits_transition, next_snapshot, receipt_conflicts, settle, decide_attempt_event,
}
use dotconfig.JobAttempt.Outcome.{
  IsOwned, IsOwned-check_ownership, IsValid, IsAppend, Step-next, next_snapshot-valid_snapshot,
}
use dotconfig.JobAttempt.Store.{
  Store, receipt_of, decide_in, submit, submit_all, grown, submit_cases,
}

module _ (is_uuid : Text → Bool) (owner : Identity) where
  -- A recorded event that the snapshot `s` has taken in.
  pub record IsSettled (s : AttemptSnapshot) (e : AttemptEvent) : Type 0 where
    pub valid : IsValid is_uuid s owner e
    pub owned : IsOwned s owner e
    pub taken : e.sequence ≤ s.sequence
    pub agrees : receipt_conflicts s e ≡ false

  pub record Inv (t : Store) : Type 0 where
    pub settled : All (IsSettled t.snapshot) t.events
    pub unique : All (λ e. receipt_of e.event_id t.events ≡ recorded e) t.events

  settled-decide :
      (s : AttemptSnapshot) (e : AttemptEvent)
      → IsSettled s e
      → decide_attempt_event is_uuid s owner (recorded e) e ≡ ok duplicate
  unfolding decide_attempt_event settle valid_receipt
  settled-decide s e h =
      ground (arith, same_event_iff e e, IsOwned-check_ownership s owner e h.owned, h.valid)

  next_agrees :
      (s : AttemptSnapshot) (e : AttemptEvent)
      → permits_transition s e ≡ true
      → receipt_conflicts (next_snapshot s owner e) e ≡ false
  unfolding receipt_conflicts next_snapshot permits_transition
  next_agrees s e p = ground (arith, text_eq_refl e.event_id)

  earlier_agrees :
      (s : AttemptSnapshot) (f e : AttemptEvent)
      → IsSettled s f
      → e.sequence ≡ s.sequence + 1
      → permits_transition s e ≡ true
      → receipt_conflicts (next_snapshot s owner e) f ≡ false
  unfolding receipt_conflicts next_snapshot permits_transition valid_event
  earlier_agrees s f e h n p = ground (arith, h.valid.event)

  next-IsSettled :
      (s : AttemptSnapshot) (e : AttemptEvent)
      → IsAppend is_uuid s owner e (next_snapshot s owner e)
      → IsSettled (next_snapshot s owner e) e
        × ((f : AttemptEvent) → IsSettled s f → IsSettled (next_snapshot s owner e) f)
  unfolding next_snapshot
  next-IsSettled s e a =
      let p : permits_transition s e ≡ true = (Step-next is_uuid s owner e a.successive).1 a.step in
      let good = next_snapshot-valid_snapshot is_uuid s owner e a.valid a.successive a.below p in
      (
        record {
          valid = record { snapshot = good; owner_id = a.valid.owner_id; event = a.valid.event };
          owned = record { snapshot = refl; event = a.owned.event; output = a.owned.output };
          taken = omega arith;
          agrees = next_agrees s e p;
        },
        λ f h. record {
          valid = record { snapshot = good; owner_id = a.valid.owner_id; event = h.valid.event };
          owned = record { snapshot = refl; event = h.owned.event; output = h.owned.output };
          taken = omega (arith, h.taken, a.successive);
          agrees = earlier_agrees s f e h a.successive p;
        },
      )

  receipt_of-absent_ne :
      (i : Text) (es : List AttemptEvent)
      → receipt_of i es ≡ absent
      → (f : AttemptEvent) → receipt_of f.event_id es ≡ recorded f
      → f.event_id ≢ i
  receipt_of-absent_ne i es h f r q = cc (ap (λ j. receipt_of j es) q)

  unique_cons :
      (e : AttemptEvent) (es : List AttemptEvent)
      → receipt_of e.event_id es ≡ absent
      → All (λ f. receipt_of f.event_id es ≡ recorded f) es
      → All (λ f. receipt_of f.event_id (e ∷ es) ≡ recorded f) (e ∷ es)
  unfolding receipt_of
  unique_cons e es h u = (
    rw (text_eq_refl e.event_id),
    All-mono
        (λ f r.
          ground
            (arith, text_eq_iff e.event_id f.event_id, receipt_of-absent_ne e.event_id es h f r))
        es u,
  )

  grow-Inv :
      (t : Store) (e : AttemptEvent)
      → Inv t
      → receipt_of e.event_id t.events ≡ absent
      → IsAppend is_uuid t.snapshot owner e (next_snapshot t.snapshot owner e)
      → Inv (grown is_uuid owner t e)
  grow-Inv t e v r a =
      let (new, old) = next-IsSettled t.snapshot e a in
      record {
        settled = (new, All-mono old t.events v.settled);
        unique = unique_cons e t.events r v.unique;
      }

  submit_all-Inv :
      (t : Store) (es : List AttemptEvent) → Inv t → Inv (submit_all is_uuid owner t es)
  unfolding submit_all
  submit_all-Inv t [] v = v
  submit_all-Inv t (e ∷ es) v =
      submit_all-Inv (submit is_uuid owner t e) es
        (submit_cases is_uuid owner Inv t e v (grow-Inv t e v))

  -- Exactly once: whatever events were submitted to a store with no event yet, each event that was
  -- recorded is answered `duplicate` when it is submitted again, and the store does not change.
  pub submit_again :
      (s : AttemptSnapshot) (es : List AttemptEvent) (e : AttemptEvent)
      → Memᴰ e (submit_all is_uuid owner (record { snapshot = s; events = [] }) es).events
      → let t = submit_all is_uuid owner (record { snapshot = s; events = [] }) es in
        (decide_in is_uuid owner t e ≡ ok duplicate) × (submit is_uuid owner t e ≡ t)
  unfolding submit
  submit_again s es e m =
      let start : Store = record { snapshot = s; events = [] } in
      let t = submit_all is_uuid owner start es in
      let v = submit_all-Inv start es (record { settled = tt; unique = tt }) in
      let found =
        All-of_mem (λ f. receipt_of f.event_id t.events ≡ recorded f) t.events m v.unique in
      let d =
        settled-decide t.snapshot e (All-of_mem (IsSettled t.snapshot) t.events m v.settled) in
      (rw found d, rw (found, d))

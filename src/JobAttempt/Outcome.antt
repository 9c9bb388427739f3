-- ===== src/JobAttempt/Outcome.antt =====
-- What `decideAttemptEvent` answers: the successor snapshot is valid, and an event is appended
-- exactly when it is the owner's own next step.
use dotconfig.Base.{
  suc, Bool, ◌+◌, ◌≡◌, refl, ◌≢◌, ◌↔◌, true, false, arith, Text, text_eq_iff, ok, err,
  max_safe_integer,
}
use dotconfig.JobAttempt.{
  Identity, Body, AttemptEvent, AttemptSnapshot, EventReceipt, absent, malformed, Decision,
  appended,
}
use dotconfig.JobAttempt.Schema.{valid_identity, valid_event, valid_snapshot, valid_receipt}
use dotconfig.JobAttempt.Decide.{
  is_foreign, permits_transition, is_terminal_status, next_snapshot, check_ownership, append_event,
  settle, decide_attempt_event,
}
use dotconfig.JobAttempt.Transition.{Step, phase, permits_transition_iff}

-- The outputs that an event names are the attempt's own.
abbrev pub IsOwn : Body → Text → Type 0
IsOwn (Body.output o) attempt = o.attempt_id ≡ attempt
IsOwn (Body.succeeded o u) attempt = o.attempt_id ≡ attempt
IsOwn _ attempt = Unit

pub record IsOwned (s : AttemptSnapshot) (owner : Identity) (e : AttemptEvent) : Type 0 where
  pub snapshot : s.identity ≡ owner
  pub event : e.identity ≡ owner
  pub output : IsOwn e.body owner.attempt_id

is_foreign-IsOwn : (b : Body) (attempt : Text) → is_foreign b attempt ≡ false → IsOwn b attempt
is_foreign-IsOwn (Body.output o) a h = ground (arith, text_eq_iff o.attempt_id a)
is_foreign-IsOwn (Body.succeeded o u) a h = ground (arith, text_eq_iff o.attempt_id a)
is_foreign-IsOwn _ a h = tt

IsOwn-is_foreign : (b : Body) (attempt : Text) → IsOwn b attempt → is_foreign b attempt ≡ false
IsOwn-is_foreign (Body.output o) a h = ground (arith, text_eq_iff o.attempt_id a)
IsOwn-is_foreign (Body.succeeded o u) a h = ground (arith, text_eq_iff o.attempt_id a)
IsOwn-is_foreign _ a h = refl

pub check_ownership-IsOwned :
    (s : AttemptSnapshot) (owner : Identity) (e : AttemptEvent)
    → check_ownership s owner e ≡ ok tt
    → IsOwned s owner e
unfolding check_ownership
check_ownership-IsOwned s owner e h = ground (
  arith,
  text_eq_iff s.identity.job_id owner.job_id,
  text_eq_iff s.identity.attempt_id owner.attempt_id,
  text_eq_iff s.identity.fence owner.fence,
  text_eq_iff e.identity.job_id owner.job_id,
  text_eq_iff e.identity.attempt_id owner.attempt_id,
  text_eq_iff e.identity.fence owner.fence,
  is_foreign-IsOwn e.body e.identity.attempt_id,
)

pub IsOwned-check_ownership :
    (s : AttemptSnapshot) (owner : Identity) (e : AttemptEvent)
    → IsOwned s owner e
    → check_ownership s owner e ≡ ok tt
unfolding check_ownership
IsOwned-check_ownership s owner e h = ground (
  arith,
  text_eq_iff s.identity.job_id owner.job_id,
  text_eq_iff s.identity.attempt_id owner.attempt_id,
  text_eq_iff s.identity.fence owner.fence,
  text_eq_iff e.identity.job_id owner.job_id,
  text_eq_iff e.identity.attempt_id owner.attempt_id,
  text_eq_iff e.identity.fence owner.fence,
  IsOwn-is_foreign e.body owner.attempt_id,
)

module _ (is_uuid : Text → Bool) where
  pub record IsValid (s : AttemptSnapshot) (owner : Identity) (e : AttemptEvent) : Type 0 where
    pub snapshot : valid_snapshot is_uuid s ≡ true
    pub owner_id : valid_identity is_uuid owner ≡ true
    pub event : valid_event is_uuid e ≡ true

  pub next_snapshot-valid_snapshot :
      (s : AttemptSnapshot) (owner : Identity) (e : AttemptEvent)
      → IsValid s owner e
      → e.sequence ≡ s.sequence + 1
      → s.sequence ≢ max_safe_integer
      → permits_transition s e ≡ true
      → valid_snapshot is_uuid (next_snapshot s owner e) ≡ true
  unfolding next_snapshot valid_snapshot valid_event permits_transition
  next_snapshot-valid_snapshot s owner e v n m p = ground arith

  -- The next step of the owner's attempt: `next` is the successor of `s` by the event `e`.
  pub record IsAppend (s : AttemptSnapshot) (owner : Identity) (e : AttemptEvent)
      (next : AttemptSnapshot) : Type 0 where
    pub valid : IsValid s owner e
    pub owned : IsOwned s owner e
    pub successive : e.sequence ≡ s.sequence + 1
    pub below : s.sequence ≢ max_safe_integer
    pub step : Step (phase s) e.body (phase next)
    pub successor : next ≡ next_snapshot s owner e

  pub Step-next :
      (s : AttemptSnapshot) (owner : Identity) (e : AttemptEvent)
      → e.sequence ≡ s.sequence + 1
      → (permits_transition s e ≡ true) ↔ Step (phase s) e.body (phase (next_snapshot s owner e))
  unfolding next_snapshot permits_transition
  Step-next s owner e n =
      let m : e.sequence ≡ suc s.sequence = omega arith in rw m (permits_transition_iff s e)

  append-facts :
      (s : AttemptSnapshot) (owner : Identity) (e e' : AttemptEvent) (next : AttemptSnapshot)
      → append_event is_uuid s owner e ≡ ok (appended next e')
      → (e.sequence ≡ s.sequence + 1)
        × (s.sequence ≢ max_safe_integer)
        × (permits_transition s e ≡ true)
        × (next ≡ next_snapshot s owner e)
        × (e' ≡ e)
  unfolding append_event
  append-facts s owner e e' next h = ground arith

  decide-facts :
      (s : AttemptSnapshot) (owner : Identity) (e : AttemptEvent) (d : Decision)
      → decide_attempt_event is_uuid s owner absent e ≡ ok d
      → IsValid s owner e × IsOwned s owner e × (append_event is_uuid s owner e ≡ ok d)
  unfolding decide_attempt_event settle
  decide-facts s owner e d h = ground (arith, check_ownership-IsOwned s owner e)

  appended-IsAppend :
      (s : AttemptSnapshot) (owner : Identity) (e e' : AttemptEvent) (next : AttemptSnapshot)
      → decide_attempt_event is_uuid s owner absent e ≡ ok (appended next e')
      → IsAppend s owner e next × (e' ≡ e)
  appended-IsAppend s owner e e' next h =
      let (valid, owned, done) = decide-facts s owner e (appended next e') h in
      let (n, m, p, q, same) = append-facts s owner e e' next done in
      (
        record {
          valid = valid;
          owned = owned;
          successive = n;
          below = m;
          step = rw q ((Step-next s owner e n).0 p);
          successor = q;
        },
        same,
      )

  IsAppend-append_event :
      (s : AttemptSnapshot) (owner : Identity) (e : AttemptEvent) (next : AttemptSnapshot)
      → IsAppend s owner e next
      → append_event is_uuid s owner e ≡ ok (appended next e)
  unfolding append_event
  IsAppend-append_event s owner e next a =
      let n = a.successive in
      let allowed : permits_transition s e ≡ true =
        (Step-next s owner e n).1 (rw a.successor at a.step) in
      ground (arith, next_snapshot-valid_snapshot s owner e a.valid n a.below allowed)

  IsAppend-decide :
      (s : AttemptSnapshot) (owner : Identity) (e : AttemptEvent) (next : AttemptSnapshot)
      → IsAppend s owner e next
      → decide_attempt_event is_uuid s owner absent e ≡ ok (appended next e)
  unfolding decide_attempt_event settle valid_receipt
  IsAppend-decide s owner e next a =
      ground
        (arith, IsOwned-check_ownership s owner e a.owned, IsAppend-append_event s owner e next a)

  -- Without a prior receipt an event is appended exactly when snapshot, owner and event are valid,
  -- all three have one identity, the event's outputs are the attempt's own, its sequence is the next
  -- one and safe, and the phases step by it; the result is then the successor with that event.
  pub decide-appended_iff :
      (s : AttemptSnapshot) (owner : Identity) (e e' : AttemptEvent) (next : AttemptSnapshot)
      → (decide_attempt_event is_uuid s owner absent e ≡ ok (appended next e'))
        ↔ (IsAppend s owner e next × (e' ≡ e))
  decide-appended_iff s owner e e' next =
      (appended-IsAppend s owner e e' next, λ a. rw a.1 (IsAppend-decide s owner e next a.0))

  -- On valid arguments the decision never ends in the error `malformed`: the successor that is decoded
  -- last always passes its schema.
  pub decide-ne-malformed :
      (s : AttemptSnapshot) (owner : Identity) (receipt : EventReceipt) (e : AttemptEvent)
      → IsValid s owner e
      → valid_receipt is_uuid receipt ≡ true
      → decide_attempt_event is_uuid s owner receipt e ≢ err malformed
  unfolding decide_attempt_event settle check_ownership append_event
  decide-ne-malformed s owner receipt e v r =
      ground (arith, next_snapshot-valid_snapshot s owner e v)

  -- Once an attempt has succeeded, failed, been cancelled or interrupted, no event is appended to it,
  -- whatever the owner, the receipt and the event are.
  pub decide-of_is_terminal_status :
      (s next : AttemptSnapshot) (owner : Identity) (receipt : EventReceipt) (e e' : AttemptEvent)
      → is_terminal_status s.status ≡ true
      → decide_attempt_event is_uuid s owner receipt e ≢ ok (appended next e')
  unfolding decide_attempt_event settle append_event permits_transition valid_snapshot
  decide-of_is_terminal_status s next owner receipt e e' h = ground arith

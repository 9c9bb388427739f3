-- ===== src/JobAttempt/Transition.antt =====
-- The life of an attempt as a relation between phases, and `permitsTransition` as its decision.
use dotconfig.Base.{ℕ, zero, suc, ◌≡◌, refl, ◌↔◌, true, arith}
use dotconfig.JobAttempt.{
  OutputReference, Usage, StopReason, FailureReason, InterruptionReason, Body, AttemptEvent, Status,
  AttemptSnapshot,
}
use dotconfig.JobAttempt.Decide.{permits, permits_transition, next_status}

-- Not yet submitted, waiting for a worker, working, told to stop, ended.
pub data Phase : Type 0 where
  unborn waiting working halting ended : Phase

abbrev status_phase : Status → Phase
status_phase Status.pending = waiting
status_phase Status.running = working
status_phase Status.stopping = halting
status_phase _ = ended

abbrev pub phase_at : ℕ → Status → Phase
phase_at zero st = unborn
phase_at (suc n) st = status_phase st

abbrev pub phase : AttemptSnapshot → Phase
phase s = phase_at s.sequence s.status

pub data IsLive : Phase → Type 0 where
  live_waiting : IsLive waiting
  live_working : IsLive working
  live_halting : IsLive halting

-- The events of each phase: work starts once, output and success need work, a stop is asked for
-- once, and any live attempt can fail, be cancelled or be interrupted.
pub data Step : Phase → Body → Phase → Type 0 where
  submit : Step unborn Body.pending waiting
  start : Step waiting Body.running working
  write : {o : OutputReference} → Step working (Body.output o) working
  drain : {o : OutputReference} → Step halting (Body.output o) halting
  abandon : {r : StopReason} → Step waiting (Body.stopping r) halting
  stop : {r : StopReason} → Step working (Body.stopping r) halting
  succeed : {o : OutputReference} {u : Usage} → Step working (Body.succeeded o u) ended
  fail : {p : Phase} {r : FailureReason} {u : Usage} → IsLive p → Step p (Body.failed r u) ended
  cancel : {p : Phase} {r : StopReason} {u : Usage} → IsLive p → Step p (Body.cancelled r u) ended
  interrupt :
      {p : Phase} {r : InterruptionReason} {u : Usage}
      → IsLive p
      → Step p (Body.interrupted r u) ended

ruleset rules = (submit, start, write, drain, abandon, stop, succeed, fail, cancel, interrupt)

ruleset alive = (live_waiting, live_working, live_halting)

permits-Step :
    (n : ℕ) (st : Status) (b : Body)
    → permits n st b ≡ true
    → Step (phase_at n st) b (phase_at (suc n) (next_status st b))
permits-Step zero st Body.pending h = submit
permits-Step zero st _ h = cc
permits-Step (suc n) Status.pending Body.running h = start
permits-Step (suc n) Status.pending (Body.stopping r) h = abandon
permits-Step (suc n) Status.running (Body.stopping r) h = stop
permits-Step (suc n) Status.running (Body.output o) h = write
permits-Step (suc n) Status.running (Body.succeeded o u) h = succeed
permits-Step (suc n) Status.stopping (Body.output o) h = drain
permits-Step (suc n) st b h = grind (arith, rules, alive)

Step-permits :
    (n : ℕ) (st : Status) {p q : Phase} {b : Body}
    → Step p b q
    → p ≡ phase_at n st
    → permits n st b ≡ true
Step-permits zero st submit h = refl
Step-permits zero st (fail live_waiting) h = cc
Step-permits zero st (fail live_working) h = cc
Step-permits zero st (fail live_halting) h = cc
Step-permits zero st (cancel live_waiting) h = cc
Step-permits zero st (cancel live_working) h = cc
Step-permits zero st (cancel live_halting) h = cc
Step-permits zero st (interrupt live_waiting) h = cc
Step-permits zero st (interrupt live_working) h = cc
Step-permits zero st (interrupt live_halting) h = cc
Step-permits zero st _ h = cc
Step-permits (suc n) st (fail live_waiting) h = ground arith
Step-permits (suc n) st (fail live_working) h = ground arith
Step-permits (suc n) st (fail live_halting) h = ground arith
Step-permits (suc n) st (cancel live_waiting) h = ground arith
Step-permits (suc n) st (cancel live_working) h = ground arith
Step-permits (suc n) st (cancel live_halting) h = ground arith
Step-permits (suc n) st (interrupt live_waiting) h = ground arith
Step-permits (suc n) st (interrupt live_working) h = ground arith
Step-permits (suc n) st (interrupt live_halting) h = ground arith
Step-permits (suc n) st _ h = ground arith

-- A transition is permitted exactly when it is a step of the machine of attempts, from the phase that
-- the snapshot is in to the one that its next sequence and status are in.
pub permits_transition_iff :
    (s : AttemptSnapshot) (e : AttemptEvent)
    → (permits_transition s e ≡ true)
      ↔ Step (phase s) e.body (phase_at (suc s.sequence) (next_status s.status e.body))
unfolding permits_transition
permits_transition_iff s e =
    (permits-Step s.sequence s.status e.body, λ t. Step-permits s.sequence s.status t refl)

-- ===== src/Batcher.antt =====
-- ai/pi/extensions/write-result-inspector/batcher.ts: mutations collected into one inspection.
-- The two asynchronous parts are steps of their own: a timer that the scheduler has armed fires, and an
-- inspection that was started ends, with a result or an error. A promise is a ticket; what it is
-- resolved or rejected with is logged in `answers`. A timer is named by the ticket that armed it.
pub mod Tickets
pub mod Leaders
pub mod Terminal
mod Tests
use dotconfig.Base.{
  ℕ, suc, Bool, true, false, not, Option, none, some, List, [], ◌∷◌, ◌++◌, map, ◌==◌, get_elem?,
  remove_at, keep, any, Number, as_counter, num, Result, ok, err, if◌then◌else◌,
}

pub record Waiter : Type 0 where
  pub leader : Bool
  pub ticket : ℕ

pub record PendingBatch (D : Type 0) : Type 0 where
  pub deltas : List D
  pub waiters : List Waiter
  pub timer : ℕ

pub data Answer (R E : Type 0) : Type 0 where
  resolved : (leader : Bool) (result : R) → Answer R E
  rejected : (error : E) → Answer R E

pub record Batcher (D R E : Type 0) : Type 0 where
  pub pending : Option (PendingBatch D)
  pub terminal : Option R
  pub next_ticket : ℕ
  pub armed : List ℕ
  pub inspecting : List (PendingBatch D)
  pub answers : List (ℕ × Answer R E)

pub data MutationBatcherError : Type 0 where
  invalid_window : MutationBatcherError

abbrev pub empty_batcher : {D R E : Type 0} → Batcher D R E
empty_batcher = record {
  pending = none;
  terminal = none;
  next_ticket = 0;
  armed = [];
  inspecting = [];
  answers = [];
}

abbrev with_window : {D R E : Type 0} → Option ℕ → Result MutationBatcherError (Batcher D R E)
with_window none = err invalid_window
with_window (some window) = ok empty_batcher

unfoldable pub create : {D R E : Type 0} → Number → Result MutationBatcherError (Batcher D R E)
create window_ms = with_window (as_counter (num window_ms))

-- The cancel function that the scheduler returned for a timer.
abbrev pub cancel_timer : ℕ → List ℕ → List ℕ
cancel_timer t armed = keep (λ u. not (u == t)) armed

-- Each waiter with what it is told.
abbrev pub answer_all : {R E : Type 0} → (Waiter → Answer R E) → List Waiter → List (ℕ × Answer R E)
answer_all answer ws = map (λ w. (w.ticket, answer w)) ws

abbrev pub deliver : {R E : Type 0} → R → Waiter → Answer R E
deliver result w = resolved w.leader result

module _ {D : Type 0} where
  abbrev pub joined : D → ℕ → Option (PendingBatch D) → PendingBatch D
  joined delta t none = record {
    deltas = delta ∷ [];
    waiters = record { leader = true; ticket = t } ∷ [];
    timer = t;
  }
  joined delta t (some p) = record {
    deltas = p.deltas ++ delta ∷ [];
    waiters = p.waiters ++ record { leader = false; ticket = t } ∷ [];
    timer = t;
  }

  abbrev pub disarm : Option (PendingBatch D) → List ℕ → List ℕ
  disarm none armed = armed
  disarm (some p) armed = cancel_timer p.timer armed

abbrev pub outcome : {R E : Type 0} → Result E R → Waiter → Answer R E
outcome (ok result) w = deliver result w
outcome (err error) w = rejected error

abbrev pub answered_now : {D R E : Type 0} → R → Option (PendingBatch D) → List (ℕ × Answer R E)
answered_now result none = []
answered_now result (some p) = answer_all (deliver result) p.waiters

module _ {D R E : Type 0} where
  abbrev pub enqueue_into : Option R → D → Batcher D R E → Batcher D R E
  enqueue_into (some result) delta b = record b {
    next_ticket = suc b.next_ticket;
    answers = (b.next_ticket, resolved true result) ∷ b.answers;
  }
  enqueue_into none delta b = record b {
    pending = some (joined delta b.next_ticket b.pending);
    next_ticket = suc b.next_ticket;
    armed = b.next_ticket ∷ disarm b.pending b.armed;
  }

  -- `enqueue`; the promise that it returns is the ticket `next_ticket`.
  unfoldable pub enqueue : D → Batcher D R E → Batcher D R E
  enqueue delta b = enqueue_into b.terminal delta b

  unfoldable pub cancel : R → Batcher D R E → Batcher D R E
  cancel result b = record b {
    terminal = some result;
    pending = none;
    armed = disarm b.pending b.armed;
    answers = answered_now result b.pending ++ b.answers;
  }

  abbrev pub flush_batch : Option (PendingBatch D) → Batcher D R E → Batcher D R E
  flush_batch none b = b
  flush_batch (some p) b = record b {
    pending = none;
    armed = cancel_timer p.timer b.armed;
    inspecting = b.inspecting ++ p ∷ [];
  }

  -- `flush`, up to the inspection that it waits for.
  unfoldable pub flush : Batcher D R E → Batcher D R E
  flush b = flush_batch b.pending b

  -- An armed timer fires: its callback is `flush`.
  unfoldable pub fire : ℕ → Batcher D R E → Batcher D R E
  unfolding flush
  fire t b =
      if any (λ u. u == t) b.armed then flush (record b { armed = cancel_timer t b.armed }) else b

  -- `flush`, from the end of the inspection on.
  abbrev pub finish_batch : ℕ → Result E R → Option (PendingBatch D) → Batcher D R E → Batcher D R E
  finish_batch i r none b = b
  finish_batch i r (some p) b = record b {
    inspecting = remove_at i b.inspecting;
    answers = answer_all (outcome r) p.waiters ++ b.answers;
  }

  unfoldable pub finish : ℕ → Result E R → Batcher D R E → Batcher D R E
  finish i r b = finish_batch i r (get_elem? b.inspecting i) b

pub data Event (D R E : Type 0) : Type 0 where
  enqueued : D → Event D R E
  fired : ℕ → Event D R E
  inspected : ℕ → Result E R → Event D R E
  cancelled : R → Event D R E

unfoldable pub step : {D R E : Type 0} → Event D R E → Batcher D R E → Batcher D R E
unfolding enqueue cancel fire finish
step (enqueued delta) b = enqueue delta b
step (fired t) b = fire t b
step (inspected i r) b = finish i r b
step (cancelled result) b = cancel result b

unfoldable pub run : {D R E : Type 0} → List (Event D R E) → Batcher D R E → Batcher D R E
unfolding step
run [] b = b
run (e ∷ es) b = run es (step e b)

-- ===== src/Batcher/Tickets.antt =====
-- Each promise that batcher.ts hands out is settled at most once, and none is lost.
use dotconfig.Base.{
  ℕ, zero, suc, ◌+◌, ◌≡◌, refl, inl, inr, Bool, true, false, Option, none, some, List, [], ◌∷◌,
  ◌++◌, ◌==◌, ltb, get_elem?, remove_at, Result, arith, Bool-cases, any,
}
use dotconfig.Batcher.{
  Waiter, PendingBatch, Answer, Batcher, Event, enqueued, fired, inspected, cancelled, step, run,
  enqueue, cancel, flush, fire, finish, answer_all, joined, answered_now, outcome, cancel_timer,
  empty_batcher, enqueue_into, flush_batch, finish_batch,
}

abbrev pub one_if : Bool → ℕ
one_if true = 1
one_if false = 0

-- How many of the waiters hold the ticket.
unfoldable pub waiting : ℕ → List Waiter → ℕ
waiting t [] = 0
waiting t (w ∷ ws) = one_if (w.ticket == t) + waiting t ws

-- How many answers there are for the ticket.
unfoldable pub answered : {R E : Type 0} → ℕ → List (ℕ × Answer R E) → ℕ
answered t [] = 0
answered t ((u, answer) ∷ rest) = one_if (u == t) + answered t rest

waiting-append : (t : ℕ) (xs ys : List Waiter) → waiting t (xs ++ ys) ≡ waiting t xs + waiting t ys
unfolding waiting
waiting-append t [] ys = omega arith
waiting-append t (x ∷ xs) ys = omega (arith, waiting-append t xs ys)

next_lem : (t n : ℕ) → one_if (ltb t (suc n)) ≡ one_if (ltb t n) + one_if (n == t)
next_lem t n = ground arith

module _ {R E : Type 0} where
  answered-append :
      (t : ℕ) (xs ys : List (ℕ × Answer R E))
      → answered t (xs ++ ys) ≡ answered t xs + answered t ys
  unfolding answered
  answered-append t [] ys = omega arith
  answered-append t (x ∷ xs) ys = omega (arith, answered-append t xs ys)

  answered-answer_all :
      (t : ℕ) (f : Waiter → Answer R E) (ws : List Waiter)
      → answered t (answer_all f ws) ≡ waiting t ws
  unfolding answered waiting
  answered-answer_all t f [] = refl
  answered-answer_all t f (w ∷ ws) = omega (arith, answered-answer_all t f ws)

module _ {D : Type 0} where
  unfoldable pub waiting_in : ℕ → List (PendingBatch D) → ℕ
  waiting_in t [] = 0
  waiting_in t (p ∷ ps) = waiting t p.waiters + waiting_in t ps

  abbrev pub waiting_pending : ℕ → Option (PendingBatch D) → ℕ
  waiting_pending t none = 0
  waiting_pending t (some p) = waiting t p.waiters

  waiting_in-append :
      (t : ℕ) (xs ys : List (PendingBatch D))
      → waiting_in t (xs ++ ys) ≡ waiting_in t xs + waiting_in t ys
  unfolding waiting_in
  waiting_in-append t [] ys = omega arith
  waiting_in-append t (x ∷ xs) ys = omega (arith, waiting_in-append t xs ys)

  waiting_in-remove_at :
      (t i : ℕ) (xs : List (PendingBatch D)) (p : PendingBatch D)
      → get_elem? xs i ≡ some p
      → waiting_in t xs ≡ waiting t p.waiters + waiting_in t (remove_at i xs)
  unfolding waiting_in
  waiting_in-remove_at t i [] p h = cc
  waiting_in-remove_at t zero (x ∷ xs) p h = let e : x ≡ p = cc in rw e (omega arith)
  waiting_in-remove_at t (suc i) (x ∷ xs) p h = omega (arith, waiting_in-remove_at t i xs p h)

  waiting-joined :
      (t u : ℕ) (delta : D) (p : Option (PendingBatch D))
      → waiting t (PendingBatch.waiters (joined delta u p)) ≡ waiting_pending t p + one_if (u == t)
  unfolding waiting
  waiting-joined t u delta none = omega arith
  waiting-joined t u delta (some p) =
      omega (arith, waiting-append t p.waiters (record { leader = false; ticket = u } ∷ []))

module _ {D R E : Type 0} where
  -- The ticket was handed out and is held by exactly one waiter or has exactly one answer; or it was
  -- not handed out, and nothing is known of it.
  abbrev pub IsAccounted : ℕ → Batcher D R E → Type 0
  IsAccounted t b =
      waiting_pending t b.pending + waiting_in t b.inspecting + answered t b.answers
      ≡ one_if (ltb t b.next_ticket)

  enqueue_into-IsAccounted :
      (t : ℕ) (o : Option R) (delta : D) (b : Batcher D R E)
      → IsAccounted t b
      → IsAccounted t (enqueue_into o delta b)
  unfolding answered
  enqueue_into-IsAccounted t none delta b h =
      omega (arith, waiting-joined t b.next_ticket delta b.pending, next_lem t b.next_ticket)
  enqueue_into-IsAccounted t (some result) delta b h = omega (arith, next_lem t b.next_ticket)

  enqueue-IsAccounted :
      (t : ℕ) (delta : D) (b : Batcher D R E) → IsAccounted t b → IsAccounted t (enqueue delta b)
  unfolding enqueue
  enqueue-IsAccounted t delta b h = enqueue_into-IsAccounted t b.terminal delta b h

  cancel-IsAccounted :
      (t : ℕ) (result : R) (b : Batcher D R E) → IsAccounted t b → IsAccounted t (cancel result b)
  unfolding cancel
  cancel-IsAccounted t result b h =
      omega (arith, answered-append t (answered_now result b.pending) b.answers, told_now b.pending)
    where
      told_now :
          (p : Option (PendingBatch D))
          → answered {E = E} t (answered_now result p) ≡ waiting_pending t p
      told_now none = unfold answered in refl
      told_now (some p) = answered-answer_all t _ p.waiters

  flush_batch-IsAccounted :
      (t : ℕ) (o : Option (PendingBatch D)) (b : Batcher D R E)
      → b.pending ≡ o
      → IsAccounted t b
      → IsAccounted t (flush_batch o b)
  unfolding waiting_in
  flush_batch-IsAccounted t none b e h = h
  flush_batch-IsAccounted t (some p) b e h =
      omega (arith, rw e at h, waiting_in-append t b.inspecting (p ∷ []))

  fire-IsAccounted : (t u : ℕ) (b : Batcher D R E) → IsAccounted t b → IsAccounted t (fire u b)
  unfolding fire flush
  fire-IsAccounted t u b h = elim (Bool-cases (any (λ v. v == u) b.armed)) [
    | inl e ↦
        rw (e, flush)
          (flush_batch-IsAccounted t b.pending (record b { armed = cancel_timer u b.armed }) refl h)
    | inr e ↦ rw e h
  ]

  finish_batch-IsAccounted :
      (t i : ℕ) (r : Result E R) (o : Option (PendingBatch D)) (b : Batcher D R E)
      → get_elem? b.inspecting i ≡ o
      → IsAccounted t b
      → IsAccounted t (finish_batch i r o b)
  finish_batch-IsAccounted t i r none b e h = h
  finish_batch-IsAccounted t i r (some p) b e h = omega (
    arith,
    waiting_in-remove_at t i b.inspecting p e,
    answered-append t (answer_all (outcome r) p.waiters) b.answers,
    answered-answer_all t (outcome r) p.waiters,
  )

  step-IsAccounted :
      (t : ℕ) (e : Event D R E) (b : Batcher D R E) → IsAccounted t b → IsAccounted t (step e b)
  unfolding step finish
  step-IsAccounted t (enqueued delta) b h = enqueue-IsAccounted t delta b h
  step-IsAccounted t (fired u) b h = fire-IsAccounted t u b h
  step-IsAccounted t (inspected i r) b h =
      finish_batch-IsAccounted t i r (get_elem? b.inspecting i) b refl h
  step-IsAccounted t (cancelled result) b h = cancel-IsAccounted t result b h

  run-IsAccounted_from :
      (t : ℕ) (es : List (Event D R E)) (b : Batcher D R E)
      → IsAccounted t b
      → IsAccounted t (run es b)
  unfolding run
  run-IsAccounted_from t [] b h = h
  run-IsAccounted_from t (e ∷ es) b h =
      run-IsAccounted_from t es (step e b) (step-IsAccounted t e b h)

-- In every order of enqueuing, firing timers, inspections that end or fail, and cancellations, each
-- ticket that was handed out is held by exactly one waiter of the pending batch or of a batch under
-- inspection, or has exactly one answer; and a ticket that was not handed out has neither.
pub run-IsAccounted :
    {D R E : Type 0} (events : List (Event D R E)) (t : ℕ)
    → IsAccounted t (run events empty_batcher)
unfolding waiting_in answered
run-IsAccounted events t = run-IsAccounted_from t events empty_batcher (ground arith)

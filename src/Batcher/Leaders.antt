-- ===== src/Batcher/Leaders.antt =====
-- A batch of batcher.ts: who leads it, and the timer that will flush it.
use dotconfig.Base.{
  ℕ, zero, suc, ◌≡◌, refl, ap, subst, ◌∙◌, inl, inr, true, false, Option, none, some, List, [], ◌∷◌,
  ◌++◌, ◌==◌, get_elem?, remove_at, Result, arith, Bool-cases, any, All, All-append, length,
  length-append,
}
use dotconfig.Batcher.{
  Waiter, PendingBatch, Batcher, Event, enqueued, fired, inspected, cancelled, step, run, enqueue,
  cancel, flush, fire, finish, joined, cancel_timer, empty_batcher, enqueue_into, flush_batch,
  finish_batch, disarm,
}

-- `leader` is true of the first waiter and of no other.
abbrev pub IsLed : List Waiter → Type 0
IsLed [] = ⊥
IsLed (w ∷ ws) = (w.leader ≡ true) × All (λ (v : Waiter). v.leader ≡ false) ws

IsLed-snoc :
    (ws : List Waiter) (t : ℕ) → IsLed ws → IsLed (ws ++ record { leader = false; ticket = t } ∷ [])
IsLed-snoc [] t h = absurd h
IsLed-snoc (w ∷ ws) t h = (h.0, All-append _ ws _ h.1 (refl, tt))

cancel_timer_self : (t : ℕ) → cancel_timer t (t ∷ []) ≡ []
cancel_timer_self t = ground arith

module _ {D : Type 0} where
  -- One leader, and a waiter for each mutation.
  abbrev pub IsBatch : PendingBatch D → Type 0
  IsBatch p = IsLed p.waiters × (length p.waiters ≡ length p.deltas)

  abbrev pub IsPendingBatch : Option (PendingBatch D) → Type 0
  IsPendingBatch none = Unit
  IsPendingBatch (some p) = IsBatch p

  -- The timer of the pending batch.
  abbrev pub timers : Option (PendingBatch D) → List ℕ
  timers none = []
  timers (some p) = p.timer ∷ []

  joined-IsBatch :
      (delta : D) (t : ℕ) (o : Option (PendingBatch D))
      → IsPendingBatch o
      → IsBatch (joined delta t o)
  joined-IsBatch delta t none h = ((refl, tt), refl)
  joined-IsBatch delta t (some p) h = (
    IsLed-snoc p.waiters t h.0,
    ground (
      arith,
      length-append p.waiters (record { leader = false; ticket = t } ∷ []),
      length-append p.deltas (delta ∷ []),
    ),
  )

  joined-timer :
      (delta : D) (t : ℕ) (o : Option (PendingBatch D)) → PendingBatch.timer (joined delta t o) ≡ t
  joined-timer delta t none = refl
  joined-timer delta t (some p) = refl

  All-remove_at :
      (P : PendingBatch D → Type 0) (i : ℕ) (ps : List (PendingBatch D))
      → All P ps
      → All P (remove_at i ps)
  All-remove_at P i [] h = tt
  All-remove_at P zero (p ∷ ps) h = h.1
  All-remove_at P (suc i) (p ∷ ps) h = (h.0, All-remove_at P i ps h.1)

  disarm-timers : (o : Option (PendingBatch D)) → disarm o (timers o) ≡ []
  disarm-timers none = refl
  disarm-timers (some p) = cancel_timer_self p.timer

-- Every batch has its leader, and the timers that are armed are those of the pending batch.
pub record IsSound {D R E : Type 0} (b : Batcher D R E) : Type 0 where
  pub pending : IsPendingBatch (Batcher.pending b)
  pub inspecting : All IsBatch (Batcher.inspecting b)
  pub armed : Batcher.armed b ≡ timers (Batcher.pending b)

module _ {D R E : Type 0} where
  enqueue_into-IsSound :
      (o : Option R) (delta : D) (b : Batcher D R E) → IsSound b → IsSound (enqueue_into o delta b)
  enqueue_into-IsSound none delta b v = record {
    pending = joined-IsBatch delta b.next_ticket b.pending v.pending;
    inspecting = v.inspecting;
    armed = rw (v.armed, disarm-timers b.pending, joined-timer delta b.next_ticket b.pending) refl;
  }
  enqueue_into-IsSound (some r) delta b v = record {
    pending = v.pending;
    inspecting = v.inspecting;
    armed = v.armed;
  }

  pub cancel-IsSound : (result : R) (b : Batcher D R E) → IsSound b → IsSound (cancel result b)
  unfolding cancel
  cancel-IsSound result b v = record {
    pending = tt;
    inspecting = v.inspecting;
    armed = rw v.armed (disarm-timers b.pending);
  }

  fire_batch-IsSound :
      (u : ℕ) (o : Option (PendingBatch D)) (b : Batcher D R E)
      → b.pending ≡ o
      → any (λ v. v == u) b.armed ≡ true
      → IsSound b
      → IsSound (flush_batch o (record b { armed = cancel_timer u b.armed }))
  fire_batch-IsSound u none b e hit v =
      let k : b.armed ≡ [] = v.armed ∙ ap timers e in let q : false ≡ true = rw k at hit in cc
  fire_batch-IsSound u (some p) b e hit v =
      let k : b.armed ≡ p.timer ∷ [] = v.armed ∙ ap timers e in
      let same : u ≡ p.timer = ground (arith, rw k at hit) in
      record {
        pending = tt;
        inspecting =
            All-append IsBatch b.inspecting (p ∷ []) v.inspecting
              (subst IsPendingBatch e v.pending, tt);
        armed = rw (k, same, cancel_timer_self p.timer) refl;
      }

  fire-IsSound : (u : ℕ) (b : Batcher D R E) → IsSound b → IsSound (fire u b)
  unfolding fire flush
  fire-IsSound u b v = elim (Bool-cases (any (λ w. w == u) b.armed)) [
    | inl e ↦ rw (e, flush) (fire_batch-IsSound u b.pending b refl e v)
    | inr e ↦ rw e v
  ]

  finish_batch-IsSound :
      (i : ℕ) (r : Result E R) (o : Option (PendingBatch D)) (b : Batcher D R E)
      → IsSound b
      → IsSound (finish_batch i r o b)
  finish_batch-IsSound i r none b v = v
  finish_batch-IsSound i r (some p) b v = record {
    pending = v.pending;
    inspecting = All-remove_at IsBatch i b.inspecting v.inspecting;
    armed = v.armed;
  }

  step-IsSound : (e : Event D R E) (b : Batcher D R E) → IsSound b → IsSound (step e b)
  unfolding step enqueue finish
  step-IsSound (enqueued delta) b v = enqueue_into-IsSound b.terminal delta b v
  step-IsSound (fired u) b v = fire-IsSound u b v
  step-IsSound (inspected i r) b v = finish_batch-IsSound i r (get_elem? b.inspecting i) b v
  step-IsSound (cancelled result) b v = cancel-IsSound result b v

  run-IsSound_from : (es : List (Event D R E)) (b : Batcher D R E) → IsSound b → IsSound (run es b)
  unfolding run
  run-IsSound_from [] b v = v
  run-IsSound_from (e ∷ es) b v = run-IsSound_from es (step e b) (step-IsSound e b v)

-- Whatever happens, the pending batch and each batch under inspection have exactly one leader, the
-- first waiter, and a waiter for each mutation; one timer is armed while a batch is pending, and none
-- while there is no batch.
pub run-IsSound :
    {D R E : Type 0} (events : List (Event D R E)) → IsSound (run events empty_batcher)
run-IsSound events =
    run-IsSound_from events empty_batcher (record { pending = tt; inspecting = tt; armed = refl })

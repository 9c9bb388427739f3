-- ===== src/Batcher/Terminal.antt =====
-- `cancel` of batcher.ts ends the batching for good.
use dotconfig.Base.{
  ℕ, zero, suc, ◌≡◌, refl, sym, ap, ◌∙◌, true, false, Option, none, some, List, [], ◌∷◌, ◌==◌,
  get_elem?, remove_at, Result, any, All,
}
use dotconfig.Batcher.{
  PendingBatch, Batcher, Event, enqueued, fired, inspected, cancelled, step, run, resolved, enqueue,
  cancel, fire, finish, empty_batcher, finish_batch,
}
use dotconfig.Batcher.Leaders.{cancel-IsSound, run-IsSound}

-- The inspections that are left of those in progress when events come in: each end of one takes it out,
-- whatever it gave, and nothing adds one.
unfoldable pub left_over :
    {D R E : Type 0} → List (Event D R E) → List (PendingBatch D) → List (PendingBatch D)
left_over [] batches = batches
left_over (inspected i r ∷ es) batches = left_over es (remove_at i batches)
left_over (_ ∷ es) batches = left_over es batches

-- Batching ended with the result, and these inspections are still to come back.
pub record IsClosed {D R E : Type 0} (result : R) (batches : List (PendingBatch D))
    (b : Batcher D R E) : Type 0 where
  pub terminal : Batcher.terminal b ≡ some result
  pub pending : Batcher.pending b ≡ none
  pub armed : Batcher.armed b ≡ []
  pub inspecting : Batcher.inspecting b ≡ batches

remove_at-none {ℓ} :
    {A : Type ℓ} (i : ℕ) (xs : List A) → get_elem? xs i ≡ none → remove_at i xs ≡ xs
remove_at-none i [] h = refl
remove_at-none zero (x ∷ xs) h = cc
remove_at-none (suc i) (x ∷ xs) h = ap (λ ys. x ∷ ys) (remove_at-none i xs h)

module _ {D R E : Type 0} where
  abbrev pub IsNoCancel : Event D R E → Type 0
  IsNoCancel (cancelled result) = ⊥
  IsNoCancel _ = Unit

  finish_batch-IsClosed :
      (result : R) (i : ℕ) (r : Result E R) (o : Option (PendingBatch D)) (b : Batcher D R E)
      {batches : List (PendingBatch D)}
      → get_elem? b.inspecting i ≡ o
      → IsClosed result batches b
      → IsClosed result (remove_at i batches) (finish_batch i r o b)
  finish_batch-IsClosed result i r none b e v = record {
    terminal = v.terminal;
    pending = v.pending;
    armed = v.armed;
    inspecting = sym (remove_at-none i b.inspecting e) ∙ ap (remove_at i) v.inspecting;
  }
  finish_batch-IsClosed result i r (some p) b e v = record {
    terminal = v.terminal;
    pending = v.pending;
    armed = v.armed;
    inspecting = ap (remove_at i) v.inspecting;
  }

  run-IsClosed :
      (result : R) (batches : List (PendingBatch D)) (es : List (Event D R E)) (b : Batcher D R E)
      → All IsNoCancel es
      → IsClosed result batches b
      → IsClosed result (left_over es batches) (run es b)
  unfolding run step enqueue finish fire left_over
  run-IsClosed result batches [] b c v = v
  run-IsClosed result batches (enqueued delta ∷ es) b c v =
      run-IsClosed result batches es (enqueue delta b) c.1 (
        rw v.terminal (record {
          terminal = refl;
          pending = v.pending;
          armed = v.armed;
          inspecting = v.inspecting;
        }))
  run-IsClosed result batches (fired u ∷ es) b c v =
      let idle : any (λ w. w == u) b.armed ≡ false = rw v.armed refl in
      run-IsClosed result batches es (fire u b) c.1 (rw idle v)
  run-IsClosed result batches (inspected i r ∷ es) b c v =
      run-IsClosed result (remove_at i batches) es (finish i r b) c.1
        (finish_batch-IsClosed result i r (get_elem? b.inspecting i) b refl v)
  run-IsClosed result batches (cancelled s ∷ es) b c v = absurd c.0

-- After a cancellation with a result, and until a second one, there is no pending batch and no armed
-- timer, and the inspections in progress are those that were in progress at the cancellation less each
-- one that ended since, whatever it gave, so that none is started; a mutation that is enqueued is
-- answered at once with that result, as a leader's.
pub cancel-closes :
    {D R E : Type 0} (before after : List (Event D R E)) (result : R) (delta : D)
    → All IsNoCancel after
    → IsClosed result
        (left_over after (Batcher.inspecting (run before empty_batcher)))
        (run after (cancel result (run before empty_batcher)))
      × (Batcher.answers (enqueue delta (run after (cancel result (run before empty_batcher))))
          ≡ (
            Batcher.next_ticket (run after (cancel result (run before empty_batcher))),
            resolved true result,
          )
            ∷ Batcher.answers (run after (cancel result (run before empty_batcher))))
unfolding enqueue
cancel-closes before after result delta c =
    let b = run before empty_batcher in
    let v = cancel-IsSound result b (run-IsSound before) in
    let w = run-IsClosed result b.inspecting after (cancel result b) c (
      unfold cancel in
      record { terminal = refl; pending = refl; armed = v.armed; inspecting = refl }) in
    (w, rw w.terminal refl)

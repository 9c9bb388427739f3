-- ===== src/Batcher/Tests.antt =====
-- Runs of batcher.ts, and the theorems at a concrete sequence of events.
use dotconfig.Base.{
  ℕ, ◌≡◌, refl, true, List, [], ◌∷◌, length, int, fractional, pos, negsuc, ok, err,
}
use dotconfig.Batcher.{
  Batcher, Event, enqueued, fired, inspected, step, run, resolved, rejected, enqueue, cancel, flush,
  fire, finish, empty_batcher, create, invalid_window,
}
use dotconfig.Batcher.Tickets.{IsAccounted, run-IsAccounted}
use dotconfig.Batcher.Leaders.{IsSound, run-IsSound}
use dotconfig.Batcher.Terminal.{left_over, IsClosed, cancel-closes}

runs : Unit {0}
unfolding run step enqueue cancel flush fire finish create
runs = tt

-- Two mutations in one batch, a third one in the next batch; the first inspection fails.
abbrev two_batches : List (Event ℕ ℕ ℕ)
two_batches =
    enqueued 10
    ∷ enqueued 11
    ∷ fired 0
    ∷ fired 1
    ∷ enqueued 12
    ∷ fired 2
    ∷ inspected 1 (ok 50)
    ∷ inspected 0 (err 99)
    ∷ []

answers_test :
    Batcher.answers (run two_batches empty_batcher)
    ≡ (0, rejected 99) ∷ (1, rejected 99) ∷ (2, resolved true 50) ∷ []
unfolding runs
answers_test = refl

create_tests :
    (create {D = ℕ} {R = ℕ} {E = ℕ} (int (pos 0)) ≡ ok empty_batcher)
    × (create {D = ℕ} {R = ℕ} {E = ℕ} (int (negsuc 0)) ≡ err invalid_window)
    × (create {D = ℕ} {R = ℕ} {E = ℕ} fractional ≡ err invalid_window)
unfolding runs
create_tests = (refl, refl, refl)

run-IsAccounted_example : IsAccounted 2 (run two_batches empty_batcher)
run-IsAccounted_example = run-IsAccounted two_batches 2

run-IsSound_example : IsSound (run two_batches empty_batcher)
run-IsSound_example = run-IsSound two_batches

-- One inspection in progress and one mutation waiting.
abbrev waiting_one : List (Event ℕ ℕ ℕ)
waiting_one = enqueued 10 ∷ fired 0 ∷ enqueued 11 ∷ []

-- The cancelled timer fires, and the inspection fails.
abbrev failing : List (Event ℕ ℕ ℕ)
failing = fired 1 ∷ inspected 0 (err 99) ∷ enqueued 12 ∷ []

abbrev cancelled_with_7 : Batcher ℕ ℕ ℕ
cancelled_with_7 = run failing (cancel 7 (run waiting_one empty_batcher))

cancel_test :
    (length (Batcher.inspecting (run waiting_one empty_batcher)) ≡ 1)
    × (Batcher.inspecting cancelled_with_7 ≡ [])
    × (Batcher.answers cancelled_with_7
        ≡ (2, resolved true 7) ∷ (0, rejected 99) ∷ (1, resolved true 7) ∷ [])
unfolding runs
cancel_test = (refl, refl, refl)

cancel-closes_example :
    IsClosed 7
      (left_over failing (Batcher.inspecting (run waiting_one empty_batcher)))
      cancelled_with_7
    × (Batcher.answers (enqueue 13 cancelled_with_7)
        ≡ (Batcher.next_ticket cancelled_with_7, resolved true 7)
          ∷ Batcher.answers cancelled_with_7)
cancel-closes_example = cancel-closes waiting_one failing 7 13 (tt, (tt, (tt, tt)))

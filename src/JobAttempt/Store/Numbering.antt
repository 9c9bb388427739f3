-- ===== src/JobAttempt/Store/Numbering.antt =====
-- The recorded events are numbered without a gap, newest first.
use dotconfig.Base.{
  ℕ, zero, suc, ◌+◌, ◌-◌, ◌≡◌, refl, Bool, List, [], ◌∷◌, map, arith, Text, length,
}
use dotconfig.JobAttempt.{Identity, AttemptEvent, AttemptSnapshot}
use dotconfig.JobAttempt.Decide.{next_snapshot}
use dotconfig.JobAttempt.Outcome.{IsAppend}
use dotconfig.JobAttempt.Store.{Store, submit, submit_all, grown, submit_cases}

-- n, n - 1, …: k numbers.
abbrev pub countdown : ℕ → ℕ → List ℕ
countdown n zero = []
countdown n (suc k) = n ∷ countdown (n - 1) k

pub record IsNumbered (base : ℕ) (t : Store) : Type 0 where
  pub counted : t.snapshot.sequence ≡ base + length t.events
  pub consecutive :
      map (λ (e : AttemptEvent). e.sequence) t.events
      ≡ countdown t.snapshot.sequence (length t.events)

module _ (is_uuid : Text → Bool) (owner : Identity) (base : ℕ) where
  grow-IsNumbered :
      (t : Store) (e : AttemptEvent)
      → IsNumbered base t
      → IsAppend is_uuid t.snapshot owner e (next_snapshot t.snapshot owner e)
      → IsNumbered base (grown is_uuid owner t e)
  unfolding next_snapshot
  grow-IsNumbered t e v a =
      let before : e.sequence - 1 ≡ t.snapshot.sequence = omega (arith, a.successive) in
      record {
        counted = omega (arith, a.successive, v.counted);
        consecutive = rw (before, v.consecutive);
      }

  run-IsNumbered :
      (t : Store) (es : List AttemptEvent)
      → IsNumbered base t
      → IsNumbered base (submit_all is_uuid owner t es)
  unfolding submit_all
  run-IsNumbered t [] v = v
  run-IsNumbered t (e ∷ es) v =
      run-IsNumbered (submit is_uuid owner t e) es
        (submit_cases is_uuid owner (IsNumbered base) t e v (λ r. grow-IsNumbered t e v))

-- From a store with no event, the snapshot's sequence grows by one for each recorded event, and the
-- sequences of the recorded events are the numbers from it downwards, without a gap or a repetition.
pub submit_all-IsNumbered :
    (is_uuid : Text → Bool) (owner : Identity) (s : AttemptSnapshot) (es : List AttemptEvent)
    → IsNumbered s.sequence (submit_all is_uuid owner (record { snapshot = s; events = [] }) es)
submit_all-IsNumbered is_uuid owner s es =
    run-IsNumbered is_uuid owner s.sequence _ es
      (record { counted = omega arith; consecutive = refl })

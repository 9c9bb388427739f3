-- ===== src/Compaction/Progress.antt =====
-- What `beforeCompactionTransition` of safe-compaction/state.ts promises: which states it keeps to,
-- and that no request for a compaction is put off for ever.
use dotconfig.Base.{
  ℕ, ◌≤◌, ◌≡◌, ◌⊎◌, inl, inr, refl, true, false, Text, length, max_safe_integer, arith,
}
use dotconfig.Compaction.{
  CompactionReason, manual, threshold, overflow, SafeCompactionState, idle, preparing, ready,
  forced, BeforeCompactionTransition, threshold_blocked_safe_compaction_state,
  before_compaction_transition, requested_transition, forced_by_overflow,
}

-- `Exclude<CompactionReason, "overflow">`
abbrev pub IsRequested : CompactionReason → Type 0
IsRequested overflow = ⊥
IsRequested manual = Unit
IsRequested threshold = Unit

abbrev pub IsTimestamp : ℕ → Type 0
IsTimestamp t = t ≤ max_safe_integer

abbrev pub IsBoundedNotes : Text → Type 0
IsBoundedNotes notes = length notes ≤ 4_000

-- The states that the type of `SafeCompactionState` and the bounds of its decoder allow.
abbrev pub IsWellFormed : SafeCompactionState → Type 0
IsWellFormed (idle blocked) = Unit
IsWellFormed (preparing reason requested) = IsRequested reason × IsTimestamp requested
IsWellFormed (ready reason requested at notes) =
    IsRequested reason × IsTimestamp requested × IsTimestamp at × IsBoundedNotes notes
IsWellFormed (forced reason requested notes quiet) = IsTimestamp requested × IsBoundedNotes notes

-- A well-formed state stays well-formed, for every reason and at every time that is a timestamp.
pub before_compaction_transition-IsWellFormed :
    (s : SafeCompactionState) (reason : CompactionReason) (now : ℕ)
    → IsWellFormed s
    → IsTimestamp now
    → IsWellFormed (BeforeCompactionTransition.state (before_compaction_transition s reason now))
unfolding before_compaction_transition forced_by_overflow requested_transition
before_compaction_transition-IsWellFormed (idle blocked) overflow now h k = (k, omega arith)
before_compaction_transition-IsWellFormed (preparing r t) overflow now h k = (h.1, omega arith)
before_compaction_transition-IsWellFormed (ready r t at notes) overflow now h k = h
before_compaction_transition-IsWellFormed (forced r t notes quiet) overflow now h k = h
before_compaction_transition-IsWellFormed (idle blocked) manual now h k = (tt, k)
before_compaction_transition-IsWellFormed (preparing r t) manual now h k = (h.1, omega arith)
before_compaction_transition-IsWellFormed (ready r t at notes) manual now h k = h
before_compaction_transition-IsWellFormed (forced r t notes quiet) manual now h k = h
before_compaction_transition-IsWellFormed (idle true) threshold now h k = tt
before_compaction_transition-IsWellFormed (idle false) threshold now h k = (tt, k)
before_compaction_transition-IsWellFormed (preparing r t) threshold now h k = (h.1, omega arith)
before_compaction_transition-IsWellFormed (ready r t at notes) threshold now h k = h
before_compaction_transition-IsWellFormed (forced r t notes quiet) threshold now h k = h

-- Why a compaction was put off: the agent is asked to prepare, and then any further request goes
-- through; or the threshold is blocked until there is input, and nothing changes.
abbrev pub PutOff : SafeCompactionState → CompactionReason → BeforeCompactionTransition → Type 0
PutOff s reason first =
    ((BeforeCompactionTransition.notify_preparation first ≡ true)
      × ((again : CompactionReason) (later : ℕ)
          → BeforeCompactionTransition.cancel
              (before_compaction_transition (BeforeCompactionTransition.state first) again later)
            ≡ false))
    ⊎ ((BeforeCompactionTransition.notify_preparation first ≡ false)
        × (BeforeCompactionTransition.state first ≡ s)
        × (s ≡ threshold_blocked_safe_compaction_state)
        × (reason ≡ threshold))

preparing_goes_through :
    (reason : CompactionReason) (requested : ℕ) (again : CompactionReason) (later : ℕ)
    → BeforeCompactionTransition.cancel
        (before_compaction_transition (preparing reason requested) again later)
      ≡ false
unfolding before_compaction_transition requested_transition
preparing_goes_through reason requested overflow later = refl
preparing_goes_through reason requested manual later = refl
preparing_goes_through reason requested threshold later = refl

-- A compaction is put off only when the agent is asked to prepare it, and then the next request of
-- any kind goes through; or when the threshold is blocked until there is input, and then the reason is
-- the threshold and the state stays.
pub before_compaction_transition-cancel :
    (s : SafeCompactionState) (reason : CompactionReason) (now : ℕ)
    → BeforeCompactionTransition.cancel (before_compaction_transition s reason now) ≡ true
    → PutOff s reason (before_compaction_transition s reason now)
unfolding before_compaction_transition requested_transition
before_compaction_transition-cancel s overflow now h = cc
before_compaction_transition-cancel (idle blocked) manual now h =
    inl (refl, preparing_goes_through manual now)
before_compaction_transition-cancel (preparing r t) manual now h = cc
before_compaction_transition-cancel (ready r t at notes) manual now h = cc
before_compaction_transition-cancel (forced r t notes quiet) manual now h = cc
before_compaction_transition-cancel (idle true) threshold now h = inr (refl, refl, refl, refl)
before_compaction_transition-cancel (idle false) threshold now h =
    inl (refl, preparing_goes_through threshold now)
before_compaction_transition-cancel (preparing r t) threshold now h = cc
before_compaction_transition-cancel (ready r t at notes) threshold now h = cc
before_compaction_transition-cancel (forced r t notes quiet) threshold now h = cc

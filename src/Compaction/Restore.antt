-- ===== src/Compaction/Restore.antt =====
-- `restoreSafeCompactionState` and `decodeSafeCompactionState` of safe-compaction/state.ts: what is
-- recorded is what is read back, and a compaction ends the checkpoint that it was made for.
use mathlib.Core.List.{append_assoc, reverse, reverse-append}
use dotconfig.Base.{
  ℕ, ◌≤◌, ◌≡◌, inl, inr, ◌⊎◌, refl, Bool, true, false, ◌||◌, some, List, [], ◌∷◌, ◌++◌, Text, codes,
  text_eq, Value, str, num, int, bool, undefined, obj, pos, field, end, lookup_field, All,
  All-reverse, any, any-reverse, take, length, arith, max_safe_integer, leb,
}
use dotconfig.Compaction.{
  CompactionReason, manual, threshold, overflow, SafeCompactionState, idle, preparing, ready,
  forced,
}
use dotconfig.Compaction.Decode.{
  Entry, compaction, recorded, other, read_entry, after_compaction, restore_from,
  restore_safe_compaction_state, decode_safe_compaction_state, decode_phase,
}
use dotconfig.Compaction.Progress.{IsTimestamp, IsWellFormed}

abbrev reason_text : CompactionReason → Text
reason_text manual = codes "manual"
reason_text threshold = codes "threshold"
reason_text overflow = codes "overflow"

-- The value of a flag that is `true` or left out.
abbrev flag : Bool → Value
flag true = bool true
flag false = undefined

-- The JavaScript object that a state is.
unfoldable pub encode_state : SafeCompactionState → Value
encode_state (idle blocked) = obj (
    field (codes "phase") (str (codes "idle"))
      (field (codes "thresholdBlockedUntilInput") (flag blocked) end))
encode_state (preparing reason requested) = obj (
    field (codes "phase") (str (codes "preparing")) (
      field (codes "reason") (str (reason_text reason))
        (field (codes "requestedAt") (num (int (pos requested))) end)))
encode_state (ready reason requested at notes) = obj (
    field (codes "phase") (str (codes "ready")) (
      field (codes "reason") (str (reason_text reason)) (
        field (codes "requestedAt") (num (int (pos requested))) (
          field (codes "readyAt") (num (int (pos at)))
            (field (codes "resumeNotes") (str notes) end)))))
encode_state (forced reason requested notes quiet) = obj (
    field (codes "phase") (str (codes "forced")) (
      field (codes "reason") (str (reason_text reason)) (
        field (codes "requestedAt") (num (int (pos requested))) (
          field (codes "resumeNotes") (str notes)
            (field (codes "suppressAutomaticResume") (flag quiet) end)))))

take_of_length_le : (n : ℕ) (s : Text) → length s ≤ n → take n s ≡ s
take_of_length_le Prim.Native.Nat.zero [] h = refl
take_of_length_le Prim.Native.Nat.zero (c ∷ s) h = let e : ⊥ = omega arith in absurd e
take_of_length_le (Prim.Native.Nat.suc n) [] h = refl
take_of_length_le (Prim.Native.Nat.suc n) (c ∷ s) h = rw (take_of_length_le n s (omega arith)) refl

leb_of_le : (t : ℕ) → IsTimestamp t → leb t max_safe_integer ≡ true
leb_of_le t h = ground arith

-- A well-formed state that is recorded is read back as it was.
pub decode-encode_state :
    (s : SafeCompactionState)
    → IsWellFormed s
    → decode_safe_compaction_state (encode_state s) ≡ some s
unfolding decode_safe_compaction_state encode_state decode_phase lookup_field text_eq
decode-encode_state (idle true) h = refl
decode-encode_state (idle false) h = refl
decode-encode_state (preparing overflow requested) h = absurd h.0
decode-encode_state (preparing manual requested) h = rw (leb_of_le requested h.1) refl
decode-encode_state (preparing threshold requested) h = rw (leb_of_le requested h.1) refl
decode-encode_state (ready overflow requested at notes) h = absurd h.0
decode-encode_state (ready manual requested at notes) h =
    rw (leb_of_le requested h.1, leb_of_le at h.2, take_of_length_le 4_000 notes h.3) refl
decode-encode_state (ready threshold requested at notes) h =
    rw (leb_of_le requested h.1, leb_of_le at h.2, take_of_length_le 4_000 notes h.3) refl
decode-encode_state (forced reason requested notes quiet) h = forced_case reason quiet
  where
    forced_case :
        (r : CompactionReason) (q : Bool)
        → decode_safe_compaction_state (encode_state (forced r requested notes q))
          ≡ some (forced r requested notes q)
    forced_case manual true = rw (leb_of_le requested h.0, take_of_length_le 4_000 notes h.1) refl
    forced_case manual false = rw (leb_of_le requested h.0, take_of_length_le 4_000 notes h.1) refl
    forced_case threshold true =
        rw (leb_of_le requested h.0, take_of_length_le 4_000 notes h.1) refl
    forced_case threshold false =
        rw (leb_of_le requested h.0, take_of_length_le 4_000 notes h.1) refl
    forced_case overflow true = rw (leb_of_le requested h.0, take_of_length_le 4_000 notes h.1) refl
    forced_case overflow false =
        rw (leb_of_le requested h.0, take_of_length_le 4_000 notes h.1) refl

-- The entry is no recorded state.
abbrev pub IsUnrecorded : Value → Type 0
IsUnrecorded v = (s : SafeCompactionState) → read_entry v ≡ recorded s → ⊥

unfoldable pub is_compaction : Value → Bool
is_compaction v = elim (read_entry v) [ compaction ↦ true | _ ↦ false ]

unfoldable pub resumed : Bool → SafeCompactionState → SafeCompactionState
resumed true s = after_compaction s
resumed false s = s

Entry-cases :
    (e : Entry) → (e ≡ compaction) ⊎ ((s : SafeCompactionState) × (e ≡ recorded s)) ⊎ (e ≡ other)
Entry-cases compaction = inl refl
Entry-cases (recorded s) = inr (inl (s, refl))
Entry-cases other = inr (inr refl)

or_true : (b : Bool) → (b || true) ≡ true
or_true true = refl
or_true false = refl

restore_from-skip :
    (seen : Bool) (later rest : List Value)
    → All IsUnrecorded later
    → restore_from seen (later ++ rest) ≡ restore_from (seen || any is_compaction later) rest
unfolding restore_from is_compaction
restore_from-skip true [] rest h = refl
restore_from-skip false [] rest h = refl
restore_from-skip seen (v ∷ vs) rest h = elim (Entry-cases (read_entry v)) [
  | inl e ↦ rw (e, restore_from, is_compaction, or_true seen) (restore_from-skip true vs rest h.1)
  | inr (inl (s, e)) ↦ absurd (h.0 s e)
  | inr (inr e) ↦ rw (e, restore_from, is_compaction) (restore_from-skip seen vs rest h.1)
]

restore_from-here :
    (seen : Bool) (entry : Value) (rest : List Value) (s : SafeCompactionState)
    → read_entry entry ≡ recorded s
    → restore_from seen (entry ∷ rest) ≡ resumed seen s
unfolding restore_from resumed
restore_from-here true entry rest s e = rw (e, restore_from) refl
restore_from-here false entry rest s e = rw (e, restore_from) refl

-- The latest recorded state decides what is restored, whatever came before it: it is restored as it
-- is, or, when a compaction came after it, as what that compaction leaves of it.
pub restore_safe_compaction_state-latest :
    (earlier : List Value) (entry : Value) (later : List Value) (s : SafeCompactionState)
    → read_entry entry ≡ recorded s
    → All IsUnrecorded later
    → restore_safe_compaction_state (earlier ++ entry ∷ later) ≡ resumed (any is_compaction later) s
unfolding restore_safe_compaction_state
restore_safe_compaction_state-latest earlier entry later s e h =
    rw
      (
        reverse-append earlier (entry ∷ later),
        reverse-append (entry ∷ []) later,
        append_assoc (reverse later) (entry ∷ []) (reverse earlier),
        restore_from-skip false (reverse later) (entry ∷ reverse earlier)
            (All-reverse IsUnrecorded later h),
        any-reverse is_compaction later,
      )
      (restore_from-here (any is_compaction later) entry (reverse earlier) s e)

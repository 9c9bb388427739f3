-- ===== src/Compaction/Recovery.antt =====
-- `overflowRecoveryFirstKeptEntryId` and `latestBoundedUserRequest` of safe-compaction/state.ts.
use mathlib.Core.List.{reverse}
use dotconfig.Base.{
  replace_runs, ℕ, ◌≤◌, ◌≡◌, Bool, true, false, ◌&&◌, ◌||◌, Option, none, some, List, [], ◌∷◌, ◌++◌,
  Text, codes, take, trim, is_space, leb, ◌==◌, Value, Fields, lookup_field, as_record, as_text,
  as_array, is_text, if◌then◌else◌, length, length-take_le, arith, Option-cases, inl, inr,
}

-- `isRecord(message)` with role `assistant` and stop reason `error`.
abbrev pub is_failed_message : Option Fields → Bool
is_failed_message none = false
is_failed_message (some m) =
    is_text (lookup_field (codes "role") m) (codes "assistant")
    && is_text (lookup_field (codes "stopReason") m) (codes "error")

pub data Entry : Type 0 where
  compaction : Entry
  failed : Text → Entry
  other : Entry

abbrev pub failed_or_other : Option Text → Bool → Entry
failed_or_other (some i) true = failed i
failed_or_other _ _ = other

unfoldable pub read_entry : Value → Entry
read_entry v = elim (as_record v) [
  | none ↦ other
  | some fields ↦
      if is_text (lookup_field (codes "type") fields) (codes "compaction")
      then compaction
      else if is_text (lookup_field (codes "type") fields) (codes "message")
      then failed_or_other (as_text (lookup_field (codes "id") fields))
          (is_failed_message (as_record (lookup_field (codes "message") fields)))
      else other
]

-- The loop, over the entries from the last one on.
unfoldable pub first_kept_from : Text → List Value → Text
unfolding read_entry
first_kept_from default [] = default
first_kept_from default (v ∷ vs) = elim (read_entry v) [
  | compaction ↦ default
  | failed i ↦ i
  | other ↦ first_kept_from default vs
]

unfoldable pub overflow_recovery_first_kept_entry_id : List Value → Text → Text
unfolding first_kept_from
overflow_recovery_first_kept_entry_id entries default = first_kept_from default (reverse entries)

-- `[\u0000-\u001f\u007f]`
abbrev pub is_control : ℕ → Bool
is_control c = leb c 31 || c == 127

abbrev pub part_text : Option Text → Text
part_text none = []
part_text (some s) = s

-- The parts of type `text`, each with its text or the empty one.
unfoldable pub text_parts : List Value → List Text
text_parts [] = []
text_parts (v ∷ vs) =
    let rest = text_parts vs in
    elim (as_record v) [
      | none ↦ rest
      | some fields ↦
          if is_text (lookup_field (codes "type") fields) (codes "text")
          then part_text (as_text (lookup_field (codes "text") fields)) ∷ rest
          else rest
    ]

unfoldable pub join_lines : List Text → Text
join_lines [] = []
join_lines (t ∷ []) = t
join_lines (t ∷ u ∷ ts) = t ++ 10 ∷ join_lines (u ∷ ts)

abbrev pub raw_parts : Option (List Value) → Text
raw_parts none = []
raw_parts (some vs) = join_lines (text_parts vs)

abbrev pub raw_content : Value → Option Text → Text
raw_content v (some s) = s
raw_content v none = raw_parts (as_array v)

abbrev pub max_latest_user_request : ℕ
max_latest_user_request = 8_000

unfoldable pub bounded_request : Text → Text
unfolding replace_runs trim is_space
bounded_request raw =
    take max_latest_user_request
      (trim (replace_runs is_space false (replace_runs is_control false raw)))

-- `bounded || undefined`
abbrev pub or_undefined : Text → Option Text
or_undefined [] = none
or_undefined (c ∷ s) = some (c ∷ s)

-- The content of a user's message, if the entry is one.
abbrev pub user_content : Option Fields → Option Value
user_content none = none
user_content (some message) =
    if is_text (lookup_field (codes "role") message) (codes "user")
    then some (lookup_field (codes "content") message)
    else none

abbrev pub entry_content : Option Fields → Option Value
entry_content none = none
entry_content (some fields) =
    if is_text (lookup_field (codes "type") fields) (codes "message")
    then user_content (as_record (lookup_field (codes "message") fields))
    else none

unfoldable pub latest_from : List Value → Option Text
unfolding text_parts join_lines
latest_from [] = none
latest_from (v ∷ vs) = elim (entry_content (as_record v)) [
  | none ↦ latest_from vs
  | some content ↦ or_undefined (bounded_request (raw_content content (as_text content)))
]

unfoldable pub latest_bounded_user_request : List Value → Option Text
unfolding latest_from
latest_bounded_user_request entries = latest_from (reverse entries)

or_undefined-eq-some : (s : Text) {r : Text} → or_undefined s ≡ some r → (s ≡ r) × (1 ≤ length r)
or_undefined-eq-some [] h = cc
or_undefined-eq-some (c ∷ s) {r} h = let e : c ∷ s ≡ r = cc in (e, rw (← e) (omega arith))

bounded_request-length_le : (raw : Text) → length (bounded_request raw) ≤ max_latest_user_request
unfolding bounded_request
bounded_request-length_le raw =
    length-take_le max_latest_user_request
      (trim (replace_runs is_space false (replace_runs is_control false raw)))

latest_from_bounded :
    (entries : List Value) (request : Text)
    → latest_from entries ≡ some request
    → (1 ≤ length request) × (length request ≤ max_latest_user_request)
unfolding latest_from
latest_from_bounded [] request h = cc
latest_from_bounded (v ∷ vs) request h = elim (Option-cases (entry_content (as_record v))) [
  | inl e ↦ latest_from_bounded vs request (rw (e, latest_from) at h)
  | inr (content, e) ↦
      let raw = raw_content content (as_text content) in
      let (q, low) = or_undefined-eq-some (bounded_request raw) (rw (e, latest_from) at h) in
      (low, rw (← q) (bounded_request-length_le raw))
]

-- The latest user request that goes into a fallback checkpoint is not empty and has at most 8000
-- units, whatever the entries are.
pub latest_bounded_user_request_bounded :
    (entries : List Value) (request : Text)
    → latest_bounded_user_request entries ≡ some request
    → (1 ≤ length request) × (length request ≤ max_latest_user_request)
unfolding latest_bounded_user_request
latest_bounded_user_request_bounded entries request h =
    latest_from_bounded (reverse entries) request h

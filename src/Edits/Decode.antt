-- ===== src/Edits/Decode.antt =====
-- decodePosition, decodeRange, decodeTextEdit and decodeWorkspaceTextEdits. The fields of a record stand
-- in the order of `Object.entries`; the `Map` is a list of its entries in the order of insertion.
pub mod Bounds
use dotconfig.Base.{
  get_key, set_key, ℕ, ◌+◌, Bool, true, false, ◌&&◌, Option, none, some, is_some, List, [], ◌∷◌,
  ◌++◌, length, Text, codes, ltb, ◌==◌, Value, Fields, undefined, null, num, int, pos, str, field,
  end, lookup_field, as_record, as_array, as_text, as_counter, is_undefined, Result, ok, err, ◌>>=◌,
  ◌>>◌, fail_if, if◌then◌else◌,
}
use dotconfig.Edits.{
  WorkspaceEditErrorCode, malformed_workspace_edit, unsupported_resource_operation,
  unsupported_document_version, unsupported_document_ordering, unsupported_snippet, too_many_files,
  too_many_edits, Position, Range, DecodedTextEdit,
}

abbrev pub max_files : ℕ
max_files = 32

abbrev pub max_edits : ℕ
max_edits = 1000

-- A value of the wrong kind is malformed.
abbrev pub some_or_malformed : {A : Type 0} → Option A → Result WorkspaceEditErrorCode A
some_or_malformed none = err malformed_workspace_edit
some_or_malformed (some a) = ok a

unfoldable pub decode_position : Value → Result WorkspaceEditErrorCode Position
decode_position value = do
  fields ← some_or_malformed (as_record value)
  line ← some_or_malformed (as_counter (lookup_field (codes "line") fields))
  character ← some_or_malformed (as_counter (lookup_field (codes "character") fields))
  ok (record { line = line; character = character })

unfoldable pub decode_range : Value → Result WorkspaceEditErrorCode Range
unfolding decode_position
decode_range value = do
  fields ← some_or_malformed (as_record value)
  first ← decode_position (lookup_field (codes "start") fields)
  last ← decode_position (lookup_field (codes "end") fields)
  ok (record { start = first; end = last })

-- `value.insertTextFormat === 2`
abbrev pub is_snippet : Value → Bool
is_snippet (num (int (pos n))) = n == 2
is_snippet _ = false

unfoldable pub decode_text_edit : Value → ℕ → Result WorkspaceEditErrorCode DecodedTextEdit
unfolding decode_range
decode_text_edit value index = do
  fields ← some_or_malformed (as_record value)
  new_text ← some_or_malformed (as_text (lookup_field (codes "newText") fields))
  fail_if (is_snippet (lookup_field (codes "insertTextFormat") fields)) unsupported_snippet
  range ← decode_range (lookup_field (codes "range") fields)
  ok (record { range = range; new_text = new_text; index = index })

-- The edits by URI.
abbrev pub Grouped : Type 0
Grouped = List (Text × List DecodedTextEdit)

-- The loop of `add`: the target after it and `editIndex`.
unfoldable pub push_edits :
    List Value → ℕ → List DecodedTextEdit → Result WorkspaceEditErrorCode (List DecodedTextEdit × ℕ)
unfolding decode_text_edit
push_edits [] index target = ok (target, index)
push_edits (candidate ∷ candidates) index target = do
  decoded ← decode_text_edit candidate index
  fail_if (ltb max_edits (index + 1)) too_many_edits
  push_edits candidates (index + 1) (target ++ decoded ∷ [])

-- `grouped` and `editIndex`
pub record Decoding : Type 0 where
  pub grouped : Grouped
  pub edit_index : ℕ

abbrev pub group_or_nil : Option (List DecodedTextEdit) → List DecodedTextEdit
group_or_nil none = []
group_or_nil (some edits) = edits

unfoldable pub add : Value → Value → Bool → Decoding → Result WorkspaceEditErrorCode Decoding
unfolding push_edits get_key set_key
add uri edits reject_existing state = do
  key ← some_or_malformed (as_text uri)
  candidates ← some_or_malformed (as_array edits)
  fail_if (reject_existing && is_some (get_key key state.grouped)) unsupported_document_ordering
  pushed ← push_edits candidates state.edit_index (group_or_nil (get_key key state.grouped))
  ok (record { grouped = set_key key pushed.0 state.grouped; edit_index = pushed.1 })

-- `for (const [uri, edits] of Object.entries(value.changes)) yield* add(uri, edits)`
unfoldable pub add_changes : Fields → Decoding → Result WorkspaceEditErrorCode Decoding
unfolding add
add_changes end state = ok state
add_changes (field uri edits rest) state = do
  next ← add (str uri) edits false state
  add_changes rest next

-- `value !== undefined && value !== null`
abbrev pub is_present : Value → Bool
is_present undefined = false
is_present null = false
is_present _ = true

unfoldable pub add_document_change : Value → Decoding → Result WorkspaceEditErrorCode Decoding
unfolding add
add_document_change change state = do
  fields ← some_or_malformed (as_record change)
  fail_if (is_some (as_text (lookup_field (codes "kind") fields))) unsupported_resource_operation
  document ← some_or_malformed (as_record (lookup_field (codes "textDocument") fields))
  fail_if (is_present (lookup_field (codes "version") document)) unsupported_document_version
  add (lookup_field (codes "uri") document) (lookup_field (codes "edits") fields) true state

unfoldable pub add_document_changes : List Value → Decoding → Result WorkspaceEditErrorCode Decoding
unfolding add_document_change
add_document_changes [] state = ok state
add_document_changes (change ∷ changes) state = do
  next ← add_document_change change state
  add_document_changes changes next

-- `if (value.changes !== undefined) { … }`
unfoldable pub decode_changes : Value → Decoding → Result WorkspaceEditErrorCode Decoding
unfolding add_changes
decode_changes changes state =
    if is_undefined changes
    then ok state
    else (some_or_malformed (as_record changes) >>= λ entries. add_changes entries state)

-- `if (value.documentChanges !== undefined) { … }`
unfoldable pub decode_document_changes : Value → Decoding → Result WorkspaceEditErrorCode Decoding
unfolding add_document_changes
decode_document_changes changes state =
    if is_undefined changes
    then ok state
    else (some_or_malformed (as_array changes) >>= λ entries. add_document_changes entries state)

unfoldable pub decode_workspace_text_edits : Value → Result WorkspaceEditErrorCode Grouped
unfolding decode_changes decode_document_changes
decode_workspace_text_edits value = do
  fields ← some_or_malformed (as_record value)
  changed ←
      decode_changes (lookup_field (codes "changes") fields)
        (record { grouped = []; edit_index = 0 })
  state ← decode_document_changes (lookup_field (codes "documentChanges") fields) changed
  fail_if (length state.grouped == 0) malformed_workspace_edit
  fail_if (ltb max_files (length state.grouped)) too_many_files
  ok state.grouped

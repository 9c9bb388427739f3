-- ===== src/Edits/Prepare.antt =====
-- prepareWorkspaceEdit, filePathFromUri and isContainedBy: the preview of a workspace edit. The file
-- system, the hash and the path and URL functions of the runtime are parameters. An error is its code.
pub mod Sorting
pub mod Previews
use dotconfig.Base.{
  ℕ, ◌+◌, ◌*◌, Bool, false, not, ◌&&◌, Option, none, some, List, [], ◌∷◌, ◌++◌, map, length, Text,
  codes, text_eq, starts_with, ltb, leb, ◌==◌, Value, Result, ok, err, ◌>>=◌, ◌>>◌, fail_if,
  if◌then◌else◌,
}
use dotconfig.Edits.{
  WorkspaceEditErrorCode, malformed_workspace_edit, outside_workspace, replacement_too_large,
  source_too_large, result_too_large, preview_too_large, DecodedTextEdit,
}
use dotconfig.Edits.Decode.{Grouped, decode_workspace_text_edits}
use dotconfig.Edits.Normalize.{normalize_edits, apply_offset_edits}

abbrev pub max_replacement_bytes : ℕ
max_replacement_bytes = 1024 * 1024

abbrev pub max_source_bytes : ℕ
max_source_bytes = 4 * 1024 * 1024

abbrev pub max_result_bytes : ℕ
max_result_bytes = 8 * 1024 * 1024

abbrev pub max_preview_bytes : ℕ
max_preview_bytes = 16 * 1024 * 1024

abbrev pub preview_prefix : Text
preview_prefix = codes "lsp-preview-v1:"

pub record FileIdentity : Type 0 where
  pub device : ℕ
  pub inode : ℕ
  pub mode : ℕ

pub record PreparedFileEdit : Type 0 where
  pub path : Text
  pub relative_path : Text
  pub original_text : Text
  pub next_text : Text
  pub original_digest : Text
  pub next_digest : Text
  pub device : ℕ
  pub inode : ℕ
  pub mode : ℕ
  pub edit_count : ℕ

pub record PreparedWorkspaceEdit : Type 0 where
  pub preview_id : Text
  pub cwd : Text
  pub files : List PreparedFileEdit
  pub edit_count : ℕ

-- A file in the text that the preview's id is the digest of.
pub record PreviewEntry : Type 0 where
  pub path : Text
  pub before : Text
  pub after : Text
  pub edits : ℕ

pub record Applied : Type 0 where
  pub preview_id : Text
  pub files : List Text

-- The functions of the runtime: `new URL(uri).protocol` and `fileURLToPath(new URL(uri))` (`none` where
-- they throw), `node:path`, SHA-256, `left.localeCompare(right) <= 0` and `JSON.stringify`.
pub record Runtime : Type 0 where
  pub url_protocol : Text → Option Text
  pub file_url_to_path : Text → Option Text
  pub resolve : Text → Text
  pub relative : Text → Text → Text
  pub is_absolute : Text → Bool
  pub sha256 : Text → Text
  pub locale_leq : Text → Text → Bool
  pub stringify : List PreviewEntry → Text

-- `WorkspaceEditIo` over the state of the file system, and the signal of the caller.
pub record WorkspaceEditIo : Type 1 where
  pub State : Type 0
  pub read_text : State → Text → FileIdentity → ℕ → Result WorkspaceEditErrorCode Text
  pub write_text :
      State → Text → Text → Option FileIdentity → State × Result WorkspaceEditErrorCode (Unit {0})
  pub with_mutation_queue :
      Text
      → (State → State × Result WorkspaceEditErrorCode Applied)
      → State
      → State × Result WorkspaceEditErrorCode Applied
  pub real_path : State → Text → Result WorkspaceEditErrorCode Text
  pub file_identity : State → Text → Result WorkspaceEditErrorCode FileIdentity
  pub aborted : State → Bool

abbrev pub unit_bytes : ℕ → ℕ
unit_bytes unit = if ltb unit 0x80 then 1 else if ltb unit 0x800 then 2 else 3

-- `Buffer.byteLength(text, "utf8")`: a pair of surrogates takes four bytes, a surrogate that has no
-- partner is written as U+FFFD in three. The flag says that the unit before was a high surrogate.
unfoldable pub utf8_length_after : Bool → Text → ℕ
utf8_length_after high [] = 0
utf8_length_after high (unit ∷ text) =
    (if high && leb 0xdc00 unit && ltb unit 0xe000 then 1 else unit_bytes unit)
    + utf8_length_after (leb 0xd800 unit && ltb unit 0xdc00) text

unfoldable pub utf8_length : Text → ℕ
unfolding utf8_length_after
utf8_length text = utf8_length_after false text

-- The error of a step that gives nothing.
abbrev pub some_or_error :
    {A : Type 0} → WorkspaceEditErrorCode → Option A → Result WorkspaceEditErrorCode A
some_or_error code none = err code
some_or_error code (some a) = ok a

-- The loop that adds the bytes of the new texts to `replacementBytes`.
unfoldable pub add_replacements : ℕ → List DecodedTextEdit → Result WorkspaceEditErrorCode ℕ
unfolding utf8_length
add_replacements bytes [] = ok bytes
add_replacements bytes (edit ∷ edits) = do
  let sum = bytes + utf8_length edit.new_text
  fail_if (ltb max_replacement_bytes sum) replacement_too_large
  add_replacements sum edits

-- `replacementBytes`, `previewBytes` and `files`
pub record Preparing : Type 0 where
  pub replacement_bytes : ℕ
  pub preview_bytes : ℕ
  pub files : List PreparedFileEdit

unfoldable pub sum_edits : List PreparedFileEdit → ℕ
sum_edits [] = 0
sum_edits (file ∷ files) = file.edit_count + sum_edits files

module _ (R : Runtime) where
  unfoldable pub is_contained_by : Text → Text → Bool
  unfolding starts_with
  is_contained_by root candidate =
      let child = R.relative root candidate in
      not (length child == 0) && not (starts_with (codes "..") child) && not (R.is_absolute child)

  unfoldable pub file_path_from_uri : Text → Result WorkspaceEditErrorCode Text
  unfolding text_eq
  file_path_from_uri uri = do
    protocol ← some_or_error malformed_workspace_edit (R.url_protocol uri)
    fail_if (not (text_eq protocol (codes "file:"))) outside_workspace
    some_or_error malformed_workspace_edit (R.file_url_to_path uri)

  -- `files.sort((left, right) => left.path.localeCompare(right.path))`, a stable sort.
  unfoldable pub insert_file : PreparedFileEdit → List PreparedFileEdit → List PreparedFileEdit
  insert_file file [] = file ∷ []
  insert_file file (other ∷ others) =
      if R.locale_leq file.path other.path
      then file ∷ other ∷ others
      else other ∷ insert_file file others

  unfoldable pub sort_files : List PreparedFileEdit → List PreparedFileEdit
  unfolding insert_file
  sort_files [] = []
  sort_files (file ∷ files) = insert_file file (sort_files files)

  -- `edits.length`, once the edits are applied.
  abbrev pub prepared_file : Text → Text → FileIdentity → Text → Text → ℕ → PreparedFileEdit
  prepared_file root path identity original next edit_count = record {
    path = path;
    relative_path = R.relative root path;
    original_text = original;
    next_text = next;
    original_digest = R.sha256 original;
    next_digest = R.sha256 next;
    device = identity.device;
    inode = identity.inode;
    mode = identity.mode;
    edit_count = edit_count;
  }

  unfoldable pub preview_of : List PreparedFileEdit → Text
  preview_of files =
      preview_prefix
      ++ R.sha256 (
          R.stringify (
            map
              (λ file. record {
                path = file.relative_path;
                before = file.original_digest;
                after = file.next_digest;
                edits = file.edit_count;
              })
              files))

  module _ (io : WorkspaceEditIo) (s : io.State) where
    -- The body of the loop over `grouped`.
    unfoldable pub prepare_file :
        Text → Text × List DecodedTextEdit → Preparing → Result WorkspaceEditErrorCode Preparing
    unfolding file_path_from_uri is_contained_by add_replacements normalize_edits apply_offset_edits
    prepare_file root entry state = do
      requested ← file_path_from_uri entry.0
      path ← io.real_path s requested
      fail_if (not (is_contained_by root path)) outside_workspace
      identity ← io.file_identity s path
      original ← io.read_text s path identity max_source_bytes
      fail_if (ltb max_source_bytes (utf8_length original)) source_too_large
      replacement_bytes ← add_replacements state.replacement_bytes entry.1
      edits ← normalize_edits original entry.1
      let next = apply_offset_edits original edits
      fail_if (ltb max_result_bytes (utf8_length next)) result_too_large
      let preview_bytes = state.preview_bytes + (utf8_length original + utf8_length next)
      fail_if (ltb max_preview_bytes preview_bytes) preview_too_large
      ok (record {
        replacement_bytes = replacement_bytes;
        preview_bytes = preview_bytes;
        files = state.files ++ prepared_file root path identity original next (length edits) ∷ [];
      })

    unfoldable pub prepare_files :
        Text → Grouped → Preparing → Result WorkspaceEditErrorCode Preparing
    unfolding prepare_file
    prepare_files root [] state = ok state
    prepare_files root (entry ∷ grouped) state = do
      next ← prepare_file root entry state
      prepare_files root grouped next

    unfoldable pub prepare_workspace_edit :
        Text → Value → Result WorkspaceEditErrorCode PreparedWorkspaceEdit
    unfolding prepare_files decode_workspace_text_edits sort_files preview_of sum_edits
    prepare_workspace_edit cwd edit = do
      root ← io.real_path s (R.resolve cwd)
      grouped ← decode_workspace_text_edits edit
      state ←
          prepare_files root grouped
            (record { replacement_bytes = 0; preview_bytes = 0; files = [] })
      let files = sort_files state.files
      ok (record {
        preview_id = preview_of files;
        cwd = root;
        files = files;
        edit_count = sum_edits files;
      })

-- ===== src/Edits/Tests.antt =====
-- Runs of workspace-edit.ts on small files, and its theorems at concrete edits.
use mathlib.Core.List.{reverse, Memᴰ}
use dotconfig.Base.{
  text_ltb, get_key, set_key, sort_texts, insert_text, ◌≤◌, ◌+◌, ◌≡◌, ◌≢◌, ℕ, Bool-cases, inl, inr,
  refl, false, not, Option, some, is_some, List, [], ◌∷◌, ◌++◌, map, length, drop, All, Text, codes,
  text_eq, text_eq_refl, text_eq_of_ne, starts_with, lookup_field, Value, str, obj, arr, num, int,
  pos, nil, cons, field, end, Result, ok, err, ◌&&◌, if◌then◌else◌,
}
use dotconfig.Edits.{
  WorkspaceEditErrorCode, write_failed, overlapping_edits, invalid_range, DecodedTextEdit,
  OffsetEdit,
}
use dotconfig.Edits.Decode.{
  max_files, max_edits, Grouped, decode_workspace_text_edits, decode_changes,
  decode_document_changes, add_changes, add_document_changes, add_document_change, add, push_edits,
  decode_text_edit, decode_range, decode_position,
}
use dotconfig.Edits.Decode.Bounds.{total, Distinct, decode_workspace_text_edits-bounds}
use dotconfig.Edits.Offsets.{
  line_starts, later_starts, position_offset, offset_on_line, logical_end, physical_end,
  position_at,
}
use dotconfig.Edits.Offsets.Positions.{position_offset-position_at}
use dotconfig.Edits.Normalize.{
  normalize_edits, offsets_of, with_offsets, sort_edits, insert_edit, unique_edits, unique_after,
  overlap, apply_offset_edits,
}
use dotconfig.Edits.Normalize.Assemble.{Disjoint, assemble}
use dotconfig.Edits.Normalize.Normal.{Located, normalize_edits-assemble}
use dotconfig.Edits.Normalize.Kept.{normalize_edits-kept}
use dotconfig.Edits.Prepare.{
  FileIdentity, PreparedFileEdit, PreparedWorkspaceEdit, Applied, Runtime, WorkspaceEditIo,
  prepare_workspace_edit, prepare_files, prepare_file, file_path_from_uri, is_contained_by,
  add_replacements, utf8_length, utf8_length_after, sort_files, insert_file, preview_of, sum_edits,
}
use dotconfig.Edits.Prepare.Previews.{IsPreviewOf, prepare_workspace_edit-IsPreview}
use dotconfig.Edits.Write.{
  apply_prepared_workspace_edit, with_all_mutation_queues, apply_locked, check_files, check_file,
  write_files, write_file, verify_write, roll_back, conclude,
}
use dotconfig.Edits.Write.Keeps.{IsLawful}
use dotconfig.Edits.Write.Restored.{apply_prepared_workspace_edit-restores}
use dotconfig.Edits.Write.Complete.{IsWritten, apply_prepared_workspace_edit-IsWritten}

edits : Unit {0}
unfolding lookup_field text_eq starts_with text_ltb decode_workspace_text_edits decode_changes
    decode_document_changes add_changes add_document_changes add_document_change add push_edits
    decode_text_edit decode_range decode_position get_key set_key line_starts later_starts
    position_offset offset_on_line logical_end physical_end normalize_edits offsets_of with_offsets
    sort_edits insert_edit unique_edits unique_after overlap apply_offset_edits
    prepare_workspace_edit prepare_files prepare_file file_path_from_uri is_contained_by
    add_replacements utf8_length utf8_length_after sort_files insert_file preview_of sum_edits
    apply_prepared_workspace_edit with_all_mutation_queues sort_texts insert_text apply_locked
    check_files check_file write_files write_file verify_write roll_back conclude
edits = tt

-- "ab", a return, a newline and "cd".
abbrev two_lines : Text
two_lines = 97 ∷ 98 ∷ 13 ∷ 10 ∷ 99 ∷ 100 ∷ []

abbrev position : ℕ → ℕ → Value
position line character = obj (
    field (codes "line") (num (int (pos line)))
      (field (codes "character") (num (int (pos character))) end))

abbrev edit_value : Value → Value → Text → Value
edit_value first last text = obj (
    field (codes "range") (obj (field (codes "start") first (field (codes "end") last end)))
      (field (codes "newText") (str text) end))

abbrev decoded_edit : ℕ → ℕ → ℕ → ℕ → Text → ℕ → DecodedTextEdit
decoded_edit line first last_line last text index = record {
  range = record {
    start = record { line = line; character = first };
    end = record { line = last_line; character = last };
  };
  new_text = text;
  index = index;
}

-- The first edit is given twice, and the edits stand in the order of the text.
abbrev requested : List DecodedTextEdit
requested =
    decoded_edit 0 1 0 2 (codes "xyz") 0
    ∷ decoded_edit 0 1 0 2 (codes "xyz") 1
    ∷ decoded_edit 1 1 1 1 (codes "-") 2
    ∷ []

abbrev normal : List OffsetEdit
normal =
    record { edit = decoded_edit 1 1 1 1 (codes "-") 2; start_offset = 5; end_offset = 5 }
    ∷ record { edit = decoded_edit 0 1 0 2 (codes "xyz") 1; start_offset = 1; end_offset = 2 }
    ∷ []

normal_tests :
    (normalize_edits two_lines requested ≡ ok normal)
    × (apply_offset_edits two_lines normal ≡ codes "axyz" ++ 13 ∷ 10 ∷ codes "c-d")
    × (normalize_edits two_lines (decoded_edit 0 0 0 3 [] 0 ∷ []) ≡ err invalid_range)
    × (normalize_edits two_lines (decoded_edit 0 0 1 1 [] 0 ∷ decoded_edit 1 0 1 2 [] 1 ∷ [])
        ≡ err overlapping_edits)
    × (utf8_length (0x41 ∷ 0xe9 ∷ 0xd83d ∷ 0xde00 ∷ 0xdc00 ∷ []) ≡ 10)
unfolding edits
normal_tests = (refl, refl, refl, refl, refl)

position_offset_test :
    position_offset two_lines (line_starts two_lines) (record { line = 1; character = 2 }) ≡ ok 6
unfolding edits
position_offset_test = refl

position_offset-position_at_example :
    (6 ≤ length two_lines) × (position_at two_lines 6 ≡ record { line = 1; character = 2 })
position_offset-position_at_example =
    position_offset-position_at two_lines (record { line = 1; character = 2 }) position_offset_test

normalize_edits-assemble_example :
    Disjoint (length two_lines) normal
    × (apply_offset_edits two_lines normal ≡ assemble 0 two_lines (reverse normal))
normalize_edits-assemble_example = normalize_edits-assemble two_lines requested normal_tests.0

normalize_edits-kept_example :
    ((edit : DecodedTextEdit)
      → Memᴰ edit requested
      → (e : OffsetEdit) × Memᴰ e normal
        × (e.edit.new_text ≡ edit.new_text)
        × (position_offset two_lines (line_starts two_lines) edit.range.start ≡ ok e.start_offset)
        × (position_offset two_lines (line_starts two_lines) edit.range.end ≡ ok e.end_offset))
    × All (λ e. Memᴰ e.edit requested × Located two_lines e.edit e) normal
normalize_edits-kept_example = normalize_edits-kept two_lines requested normal_tests.0

-- Edits of two files.
abbrev workspace_edit : Value
workspace_edit = obj (
    field (codes "changes")
      (obj (
        field (codes "file:///w/b")
          (arr (cons (edit_value (position 0 0) (position 0 0) (codes "B")) nil))
          (field (codes "file:///w/a")
            (arr (cons (edit_value (position 0 1) (position 0 2) (codes "xyz")) nil)) end)))
      end)

abbrev grouped : Grouped
grouped =
    (codes "file:///w/b", decoded_edit 0 0 0 0 (codes "B") 0 ∷ [])
    ∷ (codes "file:///w/a", decoded_edit 0 1 0 2 (codes "xyz") 1 ∷ [])
    ∷ []

grouped_test : decode_workspace_text_edits workspace_edit ≡ ok grouped
unfolding edits
grouped_test = refl

decode_workspace_text_edits-bounds_example :
    (1 ≤ length grouped)
    × (length grouped ≤ max_files)
    × (total grouped ≤ max_edits)
    × Distinct grouped
decode_workspace_text_edits-bounds_example =
    decode_workspace_text_edits-bounds workspace_edit grouped_test

-- A runtime whose digest of a text is the text.
abbrev runtime : Runtime
runtime = record {
  url_protocol = λ uri. some (codes "file:");
  file_url_to_path = λ uri. some (drop 7 uri);
  resolve = λ path. path;
  relative = λ root path. drop (length root + 1) path;
  is_absolute = λ path. starts_with (codes "/") path;
  sha256 = λ text. text;
  locale_leq = λ left right. not (text_ltb right left);
  stringify = λ entries. [];
}

-- Files in memory: a write of "/w/b" fails after it has emptied the file, unless it restores the file.
abbrev write_memory :
    (Text → Text)
    → Text
    → Text
    → Option FileIdentity
    → (Text → Text) × Result WorkspaceEditErrorCode (Unit {0})
write_memory s path text expected =
    if text_eq path (codes "/w/b") && is_some expected
    then (λ q. if text_eq q path then [] else s q, err write_failed)
    else (λ q. if text_eq q path then text else s q, ok tt)

abbrev memory : WorkspaceEditIo
memory = record {
  State = Text → Text;
  read_text = λ s path identity limit. ok (s path);
  write_text = write_memory;
  with_mutation_queue = λ path work s. work s;
  real_path = λ s path. ok path;
  file_identity = λ s path. ok (record { device = 1; inode = 2; mode = 420 });
  aborted = λ s. false;
}

write_memory-content :
    (s : Text → Text) (path text : Text) (expected : Option FileIdentity)
    → (write_memory s path text expected).1 ≡ ok tt
    → (write_memory s path text expected).0 path ≡ text
write_memory-content s path text expected h =
    elim (Bool-cases (text_eq path (codes "/w/b") && is_some expected)) [
      | inl fails ↦ let z : err write_failed ≡ ok tt = rw fails at h in cc
      | inr works ↦ rw (works, text_eq_refl path) refl
    ]

write_memory-other :
    (s : Text → Text) (path text : Text) (expected : Option FileIdentity) (other : Text)
    → other ≢ path
    → (write_memory s path text expected).0 other ≡ s other
write_memory-other s path text expected other d =
    let e = text_eq_of_ne other path d in
    elim (Bool-cases (text_eq path (codes "/w/b") && is_some expected)) [
      | inl fails ↦ rw (fails, e) refl
      | inr works ↦ rw (works, e) refl
    ]

memory-IsLawful : IsLawful memory (λ s. s)
memory-IsLawful = record {
  read-content = λ s path identity limit e. cc;
  write-content = write_memory-content;
  write-other = write_memory-other;
  queue = λ path work s. refl;
}

abbrev disk : Text → Text
disk path = two_lines

abbrev prepared_a : PreparedFileEdit
prepared_a = record {
  path = codes "/w/a";
  relative_path = codes "a";
  original_text = two_lines;
  next_text = codes "axyz" ++ 13 ∷ 10 ∷ codes "cd";
  original_digest = two_lines;
  next_digest = codes "axyz" ++ 13 ∷ 10 ∷ codes "cd";
  device = 1;
  inode = 2;
  mode = 420;
  edit_count = 1;
}

abbrev prepared_b : PreparedFileEdit
prepared_b = record {
  path = codes "/w/b";
  relative_path = codes "b";
  original_text = two_lines;
  next_text = codes "B" ++ two_lines;
  original_digest = two_lines;
  next_digest = codes "B" ++ two_lines;
  device = 1;
  inode = 2;
  mode = 420;
  edit_count = 1;
}

abbrev preview : List PreparedFileEdit → ℕ → PreparedWorkspaceEdit
preview files edit_count = record {
  preview_id = codes "lsp-preview-v1:";
  cwd = codes "/w";
  files = files;
  edit_count = edit_count;
}

preview_test :
    prepare_workspace_edit runtime memory disk (codes "/w") workspace_edit
    ≡ ok (preview (prepared_a ∷ prepared_b ∷ []) 2)
unfolding edits
preview_test = refl

prepare_workspace_edit-IsPreview_example :
    IsPreviewOf runtime memory disk
      (codes "/w")
      workspace_edit
      (preview (prepared_a ∷ prepared_b ∷ []) 2)
prepare_workspace_edit-IsPreview_example =
    prepare_workspace_edit-IsPreview runtime memory disk (codes "/w") workspace_edit preview_test

-- The write of the second file fails, and both files are restored.
abbrev two_files : PreparedWorkspaceEdit
two_files = preview (prepared_a ∷ prepared_b ∷ []) 2

failing_test :
    (apply_prepared_workspace_edit runtime memory two_files (codes "lsp-preview-v1:") disk).1
    ≡ err write_failed
unfolding edits
failing_test = refl

apply_prepared_workspace_edit-restores_example :
    (apply_prepared_workspace_edit runtime memory two_files (codes "lsp-preview-v1:") disk).0
      (codes "/w/b")
    ≡ disk (codes "/w/b")
apply_prepared_workspace_edit-restores_example =
    apply_prepared_workspace_edit-restores runtime memory (λ s. s) memory-IsLawful two_files
      (codes "lsp-preview-v1:") disk
      (
        record { digest = refl; no_collision = λ e. e },
        (record { digest = refl; no_collision = λ e. e }, tt),
      )
      failing_test (λ e. cc) (codes "/w/b")

abbrev one_file : PreparedWorkspaceEdit
one_file = preview (prepared_a ∷ []) 1

abbrev applied : Applied
applied = record { preview_id = codes "lsp-preview-v1:"; files = codes "a" ∷ [] }

applied_test :
    (apply_prepared_workspace_edit runtime memory one_file (codes "lsp-preview-v1:") disk).1
    ≡ ok applied
unfolding edits
applied_test = refl

apply_prepared_workspace_edit-IsWritten_example :
    IsWritten memory
      (λ s. s)
      disk
      (prepared_a ∷ [])
      (apply_prepared_workspace_edit runtime memory one_file (codes "lsp-preview-v1:") disk).0
    × (codes "a" ∷ [] ≡ map (λ (file : PreparedFileEdit). file.relative_path) (prepared_a ∷ []))
apply_prepared_workspace_edit-IsWritten_example =
    apply_prepared_workspace_edit-IsWritten runtime memory (λ s. s) memory-IsLawful one_file
      (codes "lsp-preview-v1:") disk {applied = applied} ((λ m. elim m [ ]), tt) applied_test

-- ===== src/Edits/Write.antt =====
-- applyPreparedWorkspaceEdit and withAllMutationQueues: a preview is written file by file, and the files
-- written before a failure are restored. Nothing else changes the files during one call.
pub mod Keeps
pub mod Restored
pub mod Complete
use dotconfig.Base.{
  sort_texts, not, ◌||◌, Option, none, some, List, [], ◌∷◌, map, Text, text_eq, ◌==◌, ℕ, suc,
  Result, ok, err, ◌>>=◌, ◌>>◌, fail_if, if◌then◌else◌,
}
use dotconfig.Edits.{
  WorkspaceEditErrorCode, preview_mismatch, stale_preview, write_failed, rollback_failed,
}
use dotconfig.Edits.Prepare.{
  max_source_bytes, max_result_bytes, FileIdentity, PreparedFileEdit, PreparedWorkspaceEdit,
  Applied, Runtime, WorkspaceEditIo, is_contained_by,
}

abbrev pub previewed_identity : PreparedFileEdit → FileIdentity
previewed_identity file = record { device = file.device; inode = file.inode; mode = file.mode }

module _ (R : Runtime) (io : WorkspaceEditIo) where
  abbrev pub Outcome : Type 0
  Outcome = io.State × Result WorkspaceEditErrorCode Applied

  -- The queues are entered in the order of the list, each one inside those before it.
  unfoldable pub with_all_mutation_queues : List Text → (io.State → Outcome) → io.State → Outcome
  with_all_mutation_queues [] work s = work s
  with_all_mutation_queues (path ∷ paths) work s =
      io.with_mutation_queue path (with_all_mutation_queues paths work) s

  abbrev pub ensure_apply_active : io.State → Result WorkspaceEditErrorCode (Unit {0})
  ensure_apply_active s = fail_if (io.aborted s) write_failed

  -- The file is the one of the preview, with the text of the preview.
  unfoldable pub check_file :
      io.State → Text → PreparedFileEdit → Result WorkspaceEditErrorCode (Unit {0})
  unfolding text_eq is_contained_by
  check_file s cwd file = do
    current_path ← io.real_path s file.path
    fail_if (not (text_eq current_path file.path) || not (is_contained_by R cwd current_path))
        stale_preview
    identity ← io.file_identity s file.path
    fail_if (not (identity.device == file.device) || not (identity.inode == file.inode))
        stale_preview
    current ← io.read_text s file.path identity max_source_bytes
    fail_if (not (text_eq (R.sha256 current) file.original_digest)) stale_preview

  unfoldable pub check_files :
      io.State → Text → List PreparedFileEdit → Result WorkspaceEditErrorCode (Unit {0})
  unfolding check_file
  check_files s cwd [] = ok tt
  check_files s cwd (file ∷ files) = check_file s cwd file >> check_files s cwd files

  -- The file reads as the text that was written.
  unfoldable pub verify_write :
      io.State → PreparedFileEdit → Result WorkspaceEditErrorCode (Unit {0})
  unfolding text_eq
  verify_write s file = do
    written_path ← io.real_path s file.path
    written_identity ← io.file_identity s file.path
    content ← io.read_text s file.path written_identity max_result_bytes
    fail_if
        (not (text_eq written_path file.path) || not (text_eq (R.sha256 content) file.next_digest))
        write_failed

  -- What follows the write, when it succeeds.
  abbrev pub verified :
      io.State
      → PreparedFileEdit
      → Result WorkspaceEditErrorCode (Unit {0})
      → Result WorkspaceEditErrorCode (Unit {0})
  verified s file written = written >> verify_write s file

  unfoldable pub write_file :
      io.State → PreparedFileEdit → io.State × Result WorkspaceEditErrorCode (Unit {0})
  unfolding verify_write
  write_file s file =
      let w = io.write_text s file.path file.next_text (some (previewed_identity file)) in
      (w.0, verified w.0 file w.1)

  -- The loop over the files: the state, `attempted.toReversed()` and `writeFailure`.
  abbrev pub Written : Type 0
  Written = io.State × List PreparedFileEdit × Option WorkspaceEditErrorCode

  abbrev pub after_write :
      (io.State → Written)
      → List PreparedFileEdit
      → io.State
      → Result WorkspaceEditErrorCode (Unit {0})
      → Written
  after_write next attempted s (err code) = (s, attempted, some code)
  after_write next attempted s (ok u) = next s

  unfoldable pub write_files : List PreparedFileEdit → List PreparedFileEdit → io.State → Written
  unfolding write_file
  write_files [] attempted s = (s, attempted, none)
  write_files (file ∷ files) attempted s =
      if io.aborted s
      then (s, attempted, some write_failed)
      else after_write (write_files files (file ∷ attempted)) (file ∷ attempted)
          (write_file s file).0 (write_file s file).1

  -- A file that could not be restored is counted.
  abbrev pub after_restore :
      (io.State → io.State × ℕ) → io.State → Result WorkspaceEditErrorCode (Unit {0}) → io.State × ℕ
  after_restore next s (ok u) = next s
  after_restore next s (err code) = ((next s).0, suc (next s).1)

  -- The loop over `attempted.toReversed()`, with the number of `rollbackFailures`.
  unfoldable pub roll_back : List PreparedFileEdit → io.State → io.State × ℕ
  roll_back [] s = (s, 0)
  roll_back (file ∷ files) s =
      let w = io.write_text s file.path file.original_text none in
      after_restore (roll_back files) w.0 w.1

  unfoldable pub conclude :
      PreparedWorkspaceEdit
      → io.State
      → List PreparedFileEdit
      → Option WorkspaceEditErrorCode
      → Outcome
  unfolding roll_back
  conclude prepared s attempted none = (
    s,
    ok (record {
      preview_id = prepared.preview_id;
      files = map (λ file. file.relative_path) prepared.files;
    }),
  )
  conclude prepared s attempted (some failure) =
      let (t, failures) = roll_back attempted s in
      (t, err (if failures == 0 then write_failed else rollback_failed))

  abbrev pub after_checks :
      PreparedWorkspaceEdit → io.State → Result WorkspaceEditErrorCode (Unit {0}) → Outcome
  after_checks prepared s (err code) = (s, err code)
  after_checks prepared s (ok u) =
      let written = write_files prepared.files [] s in
      conclude prepared written.0 written.1 written.2

  -- The work inside the queues.
  unfoldable pub apply_locked : PreparedWorkspaceEdit → io.State → Outcome
  unfolding check_files write_files conclude
  apply_locked prepared s =
      after_checks prepared s (ensure_apply_active s >> check_files s prepared.cwd prepared.files)

  unfoldable pub apply_prepared_workspace_edit : PreparedWorkspaceEdit → Text → io.State → Outcome
  unfolding with_all_mutation_queues sort_texts apply_locked text_eq
  apply_prepared_workspace_edit prepared preview_id s =
      if io.aborted s
      then (s, err write_failed)
      else if not (text_eq preview_id prepared.preview_id)
      then (s, err preview_mismatch)
      else with_all_mutation_queues (sort_texts (map (λ file. file.path) prepared.files))
          (apply_locked prepared) s

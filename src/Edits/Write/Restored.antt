-- ===== src/Edits/Write/Restored.antt =====
-- A workspace edit whose application fails is taken back.
use dotconfig.Base.{
  sort_texts, ◌≡◌, ◌≢◌, refl, ◌∙◌, inl, inr, not, ◌||◌, List, [], ◌∷◌, map, arith, All, Text,
  text_eq, text_eq_iff, Result-cases, ◌==◌, Bool-cases, ok, err, fail_if, fail_if-eq-ok, >>=-eq-ok,
  ◌>>◌,
}
use dotconfig.Edits.{WorkspaceEditErrorCode, stale_preview, rollback_failed}
use dotconfig.Edits.Prepare.{
  max_source_bytes, PreparedFileEdit, PreparedWorkspaceEdit, Runtime, WorkspaceEditIo,
  is_contained_by,
}
use dotconfig.Edits.Write.{
  ensure_apply_active, check_file, check_files, after_checks, apply_locked,
  apply_prepared_workspace_edit,
}
use dotconfig.Edits.Write.Keeps.{
  IsLawful, write_files-Keeps, conclude-restores, with_all_mutation_queues-eq,
}

-- The digest of the preview is the one of its original text, and tells that text from the content that
-- the file has.
pub record IsFaithful (R : Runtime) (found : Text) (file : PreparedFileEdit) : Type 0 where
  pub digest : file.original_digest ≡ R.sha256 file.original_text
  pub no_collision : R.sha256 found ≡ R.sha256 file.original_text → found ≡ file.original_text

module _ (R : Runtime) (io : WorkspaceEditIo) (content : io.State → Text → Text)
    (L : IsLawful io content) where
  check_file-IsFresh :
      (s : io.State) (cwd : Text) (file : PreparedFileEdit)
      → check_file R io s cwd file ≡ ok tt
      → R.sha256 (content s file.path) ≡ file.original_digest
  unfolding check_file
  check_file-IsFresh s cwd file h =
      let (path, p, h1) = >>=-eq-ok (io.real_path s file.path) _ h in
      let (u, q, h2) =
        >>=-eq-ok
          (fail_if (not (text_eq path file.path) || not (is_contained_by R cwd path)) stale_preview)
          _ h1 in
      let (identity, r, h3) = >>=-eq-ok (io.file_identity s file.path) _ h2 in
      let (v, t, h4) =
        >>=-eq-ok
          (fail_if (not (identity.device == file.device) || not (identity.inode == file.inode))
            stale_preview)
          _ h3 in
      let (current, g, h5) = >>=-eq-ok (io.read_text s file.path identity max_source_bytes) _ h4 in
      let same =
        fail_if-eq-ok (not (text_eq (R.sha256 current) file.original_digest)) stale_preview h5 in
      rw (L.read-content s file.path identity max_source_bytes g)
        ((text_eq_iff (R.sha256 current) file.original_digest).0 (ground arith))

  check_files-IsFresh :
      (s : io.State) (cwd : Text) (files : List PreparedFileEdit)
      → All (λ file. IsFaithful R (content s file.path) file) files
      → check_files R io s cwd files ≡ ok tt
      → All (λ file. content s file.path ≡ file.original_text) files
  unfolding check_files
  check_files-IsFresh s cwd [] f h = tt
  check_files-IsFresh s cwd (file ∷ files) f h =
      let (u, p, h1) = >>=-eq-ok (check_file R io s cwd file) _ h in
      let same = check_file-IsFresh s cwd file p in
      (f.0.no_collision (same ∙ f.0.digest), check_files-IsFresh s cwd files f.1 h1)

  apply_locked-restores :
      (prepared : PreparedWorkspaceEdit) (s : io.State) {code : WorkspaceEditErrorCode}
      → All (λ file. IsFaithful R (content s file.path) file) prepared.files
      → (apply_locked R io prepared s).1 ≡ err code
      → code ≢ rollback_failed
      → (path : Text) → content (apply_locked R io prepared s).0 path ≡ content s path
  unfolding apply_locked
  apply_locked-restores prepared s f h other path =
      elim (Result-cases
        (ensure_apply_active R io s >> check_files R io s prepared.cwd prepared.files)) [
          | inl (u, passed) ↦
              let (v, p, h1) = >>=-eq-ok (ensure_apply_active R io s) _ passed in
              let fresh = check_files-IsFresh s prepared.cwd prepared.files f h1 in
              let (k, old) =
                write_files-Keeps R io content L s prepared.files [] s fresh tt (λ q. inl refl) in
              rw passed (
                conclude-restores R io content L s prepared _ _ _ old k
                  (rw (passed, after_checks) at h) other path)
          | inr (c, stopped) ↦ rw stopped refl
        ]

-- A call that fails, with any code but `rollback_failed`, leaves the content of every file as it was.
-- The preview's digests are those of its original texts and collide with no content that the files
-- have; a read gives the content, a write that succeeds sets it and touches no other file, and a
-- queue runs the work that it is given.
pub apply_prepared_workspace_edit-restores :
    (R : Runtime) (io : WorkspaceEditIo) (content : io.State → Text → Text)
    → IsLawful io content
    → (prepared : PreparedWorkspaceEdit) (preview_id : Text) (s : io.State)
      {code : WorkspaceEditErrorCode}
    → All (λ file. IsFaithful R (content s file.path) file) prepared.files
    → (apply_prepared_workspace_edit R io prepared preview_id s).1 ≡ err code
    → code ≢ rollback_failed
    → (path : Text)
    → content (apply_prepared_workspace_edit R io prepared preview_id s).0 path ≡ content s path
unfolding apply_prepared_workspace_edit
apply_prepared_workspace_edit-restores R io content L prepared preview_id s f h other path =
    elim (Bool-cases (io.aborted s)) [
      | inl stop ↦ rw stop refl
      | inr active ↦ elim (Bool-cases (text_eq preview_id prepared.preview_id)) [
        | inl same ↦
            let e =
              with_all_mutation_queues-eq R io content L s
                (sort_texts (map (λ file. file.path) prepared.files)) (apply_locked R io prepared)
                s in
            rw (active, same, e)
              (apply_locked-restores R io content L prepared s f (rw (active, same, not, e) at h)
                other path)
        | inr differs ↦ rw (active, differs) refl
      ]
    ]

-- ===== src/Edits/Write/Complete.antt =====
-- A workspace edit whose application succeeds is written as a whole.
use mathlib.Core.List.{Memᴰ}
use dotconfig.Base.{
  sort_texts, ◌≡◌, refl, sym, subst, ap, ◌∙◌, inl, inr, not, Option, none, some, List, [], ◌∷◌, map,
  All, Text, text_eq, Result-cases, Bool-cases, Result, ok, err, ◌>>◌,
}
use dotconfig.Edits.{WorkspaceEditErrorCode, write_failed}
use dotconfig.Edits.Prepare.{
  PreparedFileEdit, PreparedWorkspaceEdit, Applied, Runtime, WorkspaceEditIo,
}
use dotconfig.Edits.Write.{
  ensure_apply_active, check_files, previewed_identity, verified, write_file, after_write,
  write_files, conclude, after_checks, apply_locked, apply_prepared_workspace_edit,
}
use dotconfig.Edits.Write.Keeps.{IsLawful, with_all_mutation_queues-eq}

abbrev pub paths_of : List PreparedFileEdit → List Text
paths_of files = map (λ file. file.path) files

-- No two files have the same path.
abbrev pub DistinctPaths : List PreparedFileEdit → Type 0
DistinctPaths [] = Unit
DistinctPaths (file ∷ files) = (¬ Memᴰ file.path (paths_of files)) × DistinctPaths files

-- The files have their next texts, and the others what they had.
abbrev pub IsWritten :
    (io : WorkspaceEditIo)
    → (io.State → Text → Text)
    → io.State
    → List PreparedFileEdit
    → io.State
    → Type 0
IsWritten io content s files t =
    All (λ file. content t file.path ≡ file.next_text) files
    × ((path : Text) → ¬ Memᴰ path (paths_of files) → content t path ≡ content s path)

module _ (R : Runtime) (io : WorkspaceEditIo) (content : io.State → Text → Text)
    (L : IsLawful io content) where
  verified-ok :
      (s : io.State) (file : PreparedFileEdit) (r : Result WorkspaceEditErrorCode (Unit {0}))
      {u : Unit {0}}
      → verified R io s file r ≡ ok u
      → r ≡ ok tt
  verified-ok s file (ok v) h = refl
  verified-ok s file (err code) h = cc

  write_files-IsWritten :
      (files attempted : List PreparedFileEdit) (s : io.State)
      → DistinctPaths files
      → (write_files R io files attempted s).2 ≡ none
      → IsWritten io content s files (write_files R io files attempted s).0
  unfolding write_files write_file
  write_files-IsWritten [] attempted s d h = (tt, λ path m. refl)
  write_files-IsWritten (file ∷ files) attempted s d h = elim (Bool-cases (io.aborted s)) [
    | inl stop ↦ let z : some write_failed ≡ none = rw (stop) at h in cc
    | inr active ↦
        let expected = some (previewed_identity file) in
        let w = io.write_text s file.path file.next_text expected in
        elim (Result-cases (verified R io w.0 file w.1)) [
          | inl (u, done) ↦
              let e : write_files R io (file ∷ files) attempted s
                  ≡ write_files R io files (file ∷ attempted) w.0 =
                rw (active, done) refl in
              let (rest, others) =
                write_files-IsWritten files (file ∷ attempted) w.0 d.1
                  (ap (λ t. t.2) (sym e) ∙ h) in
              let own =
                L.write-content s file.path file.next_text expected
                  (verified-ok w.0 file w.1 done) in
              subst (λ t. IsWritten io content s (file ∷ files) t.0) (sym e)
                (
                  (others file.path d.0 ∙ own, rest),
                  λ path m.
                      others path (λ n. m (Memᴰ.tail n))
                      ∙ L.write-other s file.path file.next_text expected path
                          (λ q. m (Memᴰ.head q)),
                )
          | inr (code, failed) ↦
              let z : some code ≡ none = rw (active, failed, after_write) at h in cc
        ]
  ]

  conclude-ok :
      (prepared : PreparedWorkspaceEdit) (s : io.State) (attempted : List PreparedFileEdit)
      (failure : Option WorkspaceEditErrorCode) {applied : Applied}
      → (conclude R io prepared s attempted failure).1 ≡ ok applied
      → (failure ≡ none)
        × ((conclude R io prepared s attempted failure).0 ≡ s)
        × (applied.files ≡ map (λ file. file.relative_path) prepared.files)
  unfolding conclude
  conclude-ok prepared s attempted none {applied = applied} h =
      let e : record {
        preview_id = prepared.preview_id;
        files = map (λ file. file.relative_path) prepared.files;
      }
          ≡ applied =
        cc in
      (refl, refl, ap (λ a. a.files) (sym e))
  conclude-ok prepared s attempted (some failure) h = cc

  apply_locked-IsWritten :
      (prepared : PreparedWorkspaceEdit) (s : io.State) {applied : Applied}
      → DistinctPaths prepared.files
      → (apply_locked R io prepared s).1 ≡ ok applied
      → IsWritten io content s prepared.files (apply_locked R io prepared s).0
        × (applied.files ≡ map (λ file. file.relative_path) prepared.files)
  unfolding apply_locked
  apply_locked-IsWritten prepared s d h =
      elim (Result-cases
        (ensure_apply_active R io s >> check_files R io s prepared.cwd prepared.files)) [
          | inl (u, passed) ↦
              let w = write_files R io prepared.files [] s in
              let (e, same, names) =
                conclude-ok prepared w.0 w.1 w.2 (rw (passed, after_checks) at h) in
              rw (passed, same) (write_files-IsWritten prepared.files [] s d e, names)
          | inr (c, stopped) ↦ let z = rw (stopped, after_checks) at h in cc
        ]

-- A call that succeeds leaves the next text of the preview in every file of the preview and the content
-- of every other file as it was, and reports the relative paths of those files. No two files of the
-- preview have the same path; a read gives the content, a write that succeeds sets it and touches no
-- other file, and a queue runs the work that it is given.
pub apply_prepared_workspace_edit-IsWritten :
    (R : Runtime) (io : WorkspaceEditIo) (content : io.State → Text → Text)
    → (L : IsLawful io content)
    → (prepared : PreparedWorkspaceEdit) (preview_id : Text) (s : io.State) {applied : Applied}
    → DistinctPaths prepared.files
    → (apply_prepared_workspace_edit R io prepared preview_id s).1 ≡ ok applied
    → IsWritten io content s prepared.files
        (apply_prepared_workspace_edit R io prepared preview_id s).0
      × (applied.files ≡ map (λ file. file.relative_path) prepared.files)
unfolding apply_prepared_workspace_edit
apply_prepared_workspace_edit-IsWritten R io content L prepared preview_id s d h =
    elim (Bool-cases (io.aborted s)) [
      | inl stop ↦ let z = rw stop at h in cc
      | inr active ↦ elim (Bool-cases (text_eq preview_id prepared.preview_id)) [
        | inl same ↦
            let e =
              with_all_mutation_queues-eq R io content L s
                (sort_texts (map (λ file. file.path) prepared.files)) (apply_locked R io prepared)
                s in
            rw (active, same, e)
              (apply_locked-IsWritten R io content L prepared s d (rw (active, same, not, e) at h))
        | inr differs ↦ let z = rw (active, differs, not) at h in cc
      ]
    ]

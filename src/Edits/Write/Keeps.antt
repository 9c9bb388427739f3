-- ===== src/Edits/Write/Keeps.antt =====
-- Which files a failing call may have changed, write by write.
use mathlib.Core.List.{Memᴰ}
use dotconfig.Base.{
  ℕ, ◌≡◌, ◌≢◌, refl, sym, ◌∙◌, ◌⊎◌, inl, inr, Option, none, some, List, [], ◌∷◌, map, arith, All,
  Text, text_eq, text_eq_iff, ne-of_text_eq, Result-cases, ◌==◌, Bool-cases, Result, ok, err,
}
use dotconfig.Edits.{WorkspaceEditErrorCode, rollback_failed}
use dotconfig.Edits.Prepare.{
  FileIdentity, PreparedFileEdit, PreparedWorkspaceEdit, Applied, Runtime, WorkspaceEditIo,
}
use dotconfig.Edits.Write.{
  with_all_mutation_queues, previewed_identity, verified, write_file, write_files, after_restore,
  roll_back, conclude,
}

-- What the code relies on: a read gives the content, a write that succeeds sets it, no write changes
-- another file, and the queue of a file runs the work that it is given.
pub record IsLawful (io : WorkspaceEditIo) (content : io.State → Text → Text) : Type 0 where
  pub read-content :
      (s : io.State) (path : Text) (identity : FileIdentity) (limit : ℕ) {text : Text}
      → io.read_text s path identity limit ≡ ok text
      → content s path ≡ text
  pub write-content :
      (s : io.State) (path text : Text) (expected : Option FileIdentity)
      → (io.write_text s path text expected).1 ≡ ok tt
      → content (io.write_text s path text expected).0 path ≡ text
  pub write-other :
      (s : io.State) (path text : Text) (expected : Option FileIdentity) (other : Text)
      → other ≢ path
      → content (io.write_text s path text expected).0 other ≡ content s other
  pub queue :
      (path : Text) (work : io.State → io.State × Result WorkspaceEditErrorCode Applied)
      (s : io.State)
      → io.with_mutation_queue path work s ≡ work s

module _ (R : Runtime) (io : WorkspaceEditIo) (content : io.State → Text → Text)
    (L : IsLawful io content) (base : io.State) where
  -- Outside the listed files nothing has changed.
  abbrev pub Keeps : io.State → List PreparedFileEdit → Type 0
  Keeps s files =
      (path : Text)
      → (content s path ≡ content base path) ⊎ Memᴰ path (map (λ file. file.path) files)

  abbrev pub IsFresh : PreparedFileEdit → Type 0
  IsFresh file = content base file.path ≡ file.original_text

  Keeps-write :
      (s : io.State) (file : PreparedFileEdit) (files : List PreparedFileEdit) (text : Text)
      (expected : Option FileIdentity)
      → Keeps s files
      → Keeps (io.write_text s file.path text expected).0 (file ∷ files)
  Keeps-write s file files text expected k path = elim (Bool-cases (text_eq path file.path)) [
    | inl same ↦ inr (Memᴰ.head ((text_eq_iff path file.path).0 same))
    | inr other ↦ elim (k path) [
      | inl e ↦
          inl
            (L.write-other s file.path text expected path (ne-of_text_eq path file.path other) ∙ e)
      | inr m ↦ inr (Memᴰ.tail m)
    ]
  ]

  Keeps-restore :
      (s : io.State) (file : PreparedFileEdit) (files : List PreparedFileEdit)
      → IsFresh file
      → (io.write_text s file.path file.original_text none).1 ≡ ok tt
      → Keeps s (file ∷ files)
      → Keeps (io.write_text s file.path file.original_text none).0 files
  Keeps-restore s file files fresh done k path = elim (Bool-cases (text_eq path file.path)) [
    | inl same ↦
        let e = (text_eq_iff path file.path).0 same in
        inl (rw e (L.write-content s file.path file.original_text none done ∙ sym fresh))
    | inr other ↦ elim (k path) [
      | inl e ↦ inl (
          L.write-other s file.path file.original_text none path
            (ne-of_text_eq path file.path other)
          ∙ e)
      | inr (Memᴰ.head q) ↦ absurd (ne-of_text_eq path file.path other q)
      | inr (Memᴰ.tail m) ↦ inr m
    ]
  ]

  -- Restoring every file of the list leaves nothing changed.
  roll_back-restores :
      (files : List PreparedFileEdit) (s : io.State)
      → All IsFresh files
      → Keeps s files
      → (roll_back R io files s).1 ≡ 0
      → (path : Text) → content (roll_back R io files s).0 path ≡ content base path
  unfolding roll_back
  roll_back-restores [] s fresh k h path = elim (k path) [ inl e ↦ e | inr m ↦ elim m [ ] ]
  roll_back-restores (file ∷ files) s fresh k h path =
      elim (Result-cases (io.write_text s file.path file.original_text none).1) [
        | inl (u, done) ↦ rw done (
            roll_back-restores files _ fresh.1 (Keeps-restore s file files fresh.0 done k)
              (rw (done, after_restore) at h) path)
        | inr (code, failed) ↦ let z = rw (failed, after_restore) at h in absurd (omega arith)
      ]

  pub write_files-Keeps :
      (files attempted : List PreparedFileEdit) (s : io.State)
      → All IsFresh files
      → All IsFresh attempted
      → Keeps s attempted
      → let w = write_files R io files attempted s in Keeps w.0 w.1 × All IsFresh w.1
  unfolding write_files write_file
  write_files-Keeps [] attempted s fresh old k = (k, old)
  write_files-Keeps (file ∷ files) attempted s fresh old k = elim (Bool-cases (io.aborted s)) [
    | inl stop ↦ rw stop (k, old)
    | inr active ↦
        let w = io.write_text s file.path file.next_text (some (previewed_identity file)) in
        let kept = Keeps-write s file attempted file.next_text (some (previewed_identity file)) k in
        elim (Result-cases (verified R io w.0 file w.1)) [
          | inl (u, done) ↦
              rw (active, done)
                (write_files-Keeps files (file ∷ attempted) w.0 fresh.1 (fresh.0, old) kept)
          | inr (code, failed) ↦ rw (active, failed) (kept, (fresh.0, old))
        ]
  ]

  -- A conclusion that reports anything but a failed restoration leaves nothing changed.
  pub conclude-restores :
      (prepared : PreparedWorkspaceEdit) (s : io.State) (attempted : List PreparedFileEdit)
      (failure : Option WorkspaceEditErrorCode) {code : WorkspaceEditErrorCode}
      → All IsFresh attempted
      → Keeps s attempted
      → (conclude R io prepared s attempted failure).1 ≡ err code
      → code ≢ rollback_failed
      → (path : Text)
      → content (conclude R io prepared s attempted failure).0 path ≡ content base path
  unfolding conclude
  conclude-restores prepared s attempted none fresh k h other path = cc
  conclude-restores prepared s attempted (some failure) {code = code} fresh k h other path =
      elim (Bool-cases ((roll_back R io attempted s).1 == 0)) [
        | inl all ↦ roll_back-restores attempted s fresh k (ground arith) path
        | inr failed ↦
            let e : err rollback_failed ≡ err code = rw failed at h in absurd (other (ground arith))
      ]

  pub with_all_mutation_queues-eq :
      (paths : List Text) (work : io.State → io.State × Result WorkspaceEditErrorCode Applied)
      (s : io.State)
      → with_all_mutation_queues R io paths work s ≡ work s
  unfolding with_all_mutation_queues
  with_all_mutation_queues-eq [] work s = refl
  with_all_mutation_queues-eq (path ∷ paths) work s =
      L.queue path (with_all_mutation_queues R io paths work) s
      ∙ with_all_mutation_queues-eq paths work s

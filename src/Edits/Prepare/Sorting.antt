-- ===== src/Edits/Prepare/Sorting.antt =====
-- The files of a preview in the order of their paths: the same files.
use mathlib.Core.List.{Permᴰ}
use mathlib.Core.List.Permᴰ
use dotconfig.Base.{
  ℕ, ◌+◌, ◌≡◌, refl, ◌∙◌, inl, inr, List, [], ◌∷◌, ◌++◌, arith, length, Bool-cases,
}
use dotconfig.Edits.Prepare.{PreparedFileEdit, Runtime, utf8_length, insert_file, sort_files}

abbrev pub bytes_of : List PreparedFileEdit → ℕ
bytes_of [] = 0
bytes_of (file ∷ files) =
    (utf8_length file.original_text + utf8_length file.next_text) + bytes_of files

pub bytes_of-append :
    (files more : List PreparedFileEdit) → bytes_of (files ++ more) ≡ bytes_of files + bytes_of more
bytes_of-append [] more = omega arith
bytes_of-append (file ∷ files) more = omega (arith, bytes_of-append files more)

module _ (R : Runtime) where
  insert_file-Perm :
      (file : PreparedFileEdit) (files : List PreparedFileEdit)
      → Permᴰ (file ∷ files) (insert_file R file files)
  unfolding insert_file
  insert_file-Perm file [] = Permᴰ.refl (file ∷ [])
  insert_file-Perm file (other ∷ files) = elim (Bool-cases (R.locale_leq file.path other.path)) [
    | inl before ↦ rw before (Permᴰ.refl (file ∷ other ∷ files))
    | inr after ↦
        rw after
          (Permᴰ.trans (Permᴰ.swap refl refl) (Permᴰ.cons refl (insert_file-Perm file files)))
  ]

  pub sort_files-Perm : (files : List PreparedFileEdit) → Permᴰ files (sort_files R files)
  unfolding sort_files
  sort_files-Perm [] = Permᴰ.nil
  sort_files-Perm (file ∷ files) =
      Permᴰ.trans (Permᴰ.cons refl (sort_files-Perm files))
        (insert_file-Perm file (sort_files R files))

pub bytes_of-Perm :
    {files others : List PreparedFileEdit} → Permᴰ files others → bytes_of files ≡ bytes_of others
bytes_of-Perm Permᴰ.nil = refl
bytes_of-Perm (Permᴰ.cons e p) = rw e (omega (arith, bytes_of-Perm p))
bytes_of-Perm (Permᴰ.swap e q) = rw (e, q) (omega arith)
bytes_of-Perm (Permᴰ.trans p q) = bytes_of-Perm p ∙ bytes_of-Perm q

pub length-Perm :
    {files others : List PreparedFileEdit} → Permᴰ files others → length files ≡ length others
length-Perm Permᴰ.nil = refl
length-Perm (Permᴰ.cons e p) = omega (arith, length-Perm p)
length-Perm (Permᴰ.swap e q) = refl
length-Perm (Permᴰ.trans p q) = length-Perm p ∙ length-Perm q

-- ===== src/Edits/Prepare/Previews.antt =====
-- What a preview holds: a file for each file that the request names, within the limits, with the text
-- that the requested edits give.
use mathlib.Core.List.{reverse, append_assoc, append-nil, Permᴰ}
use dotconfig.Base.{
  ◌+◌, ◌≤◌, ◌≡◌, refl, sym, ap, ◌∙◌, subst, true, not, List, [], ◌∷◌, ◌++◌, arith, length, Text,
  ltb, Value, ok, >>=-elim, fail_if-elim,
}
use dotconfig.Edits.{DecodedTextEdit, OffsetEdit}
use dotconfig.Edits.Decode.{max_files, Grouped, decode_workspace_text_edits}
use dotconfig.Edits.Decode.Bounds.{decode_workspace_text_edits-bounds}
use dotconfig.Edits.Normalize.{normalize_edits, apply_offset_edits}
use dotconfig.Edits.Normalize.Assemble.{assemble}
use dotconfig.Edits.Normalize.Normal.{normalize_edits-assemble}
use dotconfig.Edits.Prepare.Sorting.{
  bytes_of, bytes_of-append, sort_files-Perm, bytes_of-Perm, length-Perm,
}
use dotconfig.Edits.Prepare.{
  max_source_bytes, max_result_bytes, max_preview_bytes, FileIdentity, PreparedFileEdit,
  PreparedWorkspaceEdit, Runtime, WorkspaceEditIo, utf8_length, add_replacements, Preparing,
  sum_edits, is_contained_by, prepared_file, file_path_from_uri, sort_files, preview_of,
  prepare_file, prepare_files, prepare_workspace_edit,
}

module _ (R : Runtime) (io : WorkspaceEditIo) (s : io.State) (root : Text) where
  -- The file that a URI names, inside the workspace, with the text that is read from it and the text that
  -- one pass over it assembles from all the edits that the request has for that URI.
  pub record IsPreview (entry : Text × List DecodedTextEdit) (file : PreparedFileEdit)
      : Type 0 where
    pub requested : Text
    pub named : file_path_from_uri R entry.0 ≡ ok requested
    pub canonical : io.real_path s requested ≡ ok file.path
    pub contained : is_contained_by R root file.path ≡ true
    pub relative : file.relative_path ≡ R.relative root file.path
    pub identity : FileIdentity
    pub identified : io.file_identity s file.path ≡ ok identity
    pub same_identity :
        (file.device ≡ identity.device)
        × (file.inode ≡ identity.inode)
        × (file.mode ≡ identity.mode)
    pub read : io.read_text s file.path identity max_source_bytes ≡ ok file.original_text
    pub small : utf8_length file.original_text ≤ max_source_bytes
    pub small_result : utf8_length file.next_text ≤ max_result_bytes
    pub digest : file.original_digest ≡ R.sha256 file.original_text
    pub next_digest : file.next_digest ≡ R.sha256 file.next_text
    pub normalized : List OffsetEdit
    pub accepted : normalize_edits file.original_text entry.1 ≡ ok normalized
    pub assembled : file.next_text ≡ assemble 0 file.original_text (reverse normalized)
    pub counted : file.edit_count ≡ length normalized

  -- One file for each URI, in the order of the request.
  abbrev pub ArePreviews : Grouped → List PreparedFileEdit → Type 0
  ArePreviews [] [] = Unit
  ArePreviews (entry ∷ grouped) (file ∷ files) = IsPreview entry file × ArePreviews grouped files
  ArePreviews _ _ = ⊥

  length-ArePreviews :
      (grouped : Grouped) (files : List PreparedFileEdit)
      → ArePreviews grouped files
      → length files ≡ length grouped
  length-ArePreviews [] [] p = refl
  length-ArePreviews [] (file ∷ files) p = absurd p
  length-ArePreviews (entry ∷ grouped) [] p = absurd p
  length-ArePreviews (entry ∷ grouped) (file ∷ files) p =
      omega (arith, length-ArePreviews grouped files p.1)

  -- The bytes that are counted are those of the files.
  record IsWithin (state : Preparing) : Type 0 where
    measured : bytes_of state.files ≡ state.preview_bytes
    bounded : state.preview_bytes ≤ max_preview_bytes

  -- The state with one file more, the preview of the entry.
  record IsAdded (entry : Text × List DecodedTextEdit) (state next : Preparing) : Type 0 where
    file : PreparedFileEdit
    is_preview : IsPreview entry file
    files : next.files ≡ state.files ++ file ∷ []
    within : IsWithin next

  prepare_file-IsAdded :
      (entry : Text × List DecodedTextEdit) (state : Preparing) {next : Preparing}
      → prepare_file R io s root entry state ≡ ok next
      → IsWithin state
      → IsAdded entry state next
  unfolding prepare_file
  prepare_file-IsAdded entry state {next = next} h c =
      >>=-elim (file_path_from_uri R entry.0) h λ requested named h.
        >>=-elim (io.real_path s requested) h λ path canonical h.
          fail_if-elim (not (is_contained_by R root path)) _ h λ inside h.
            >>=-elim (io.file_identity s path) h λ identity identified h.
              >>=-elim (io.read_text s path identity max_source_bytes) h λ original read h.
                fail_if-elim (ltb max_source_bytes (utf8_length original)) _ h λ small h.
                  >>=-elim (add_replacements state.replacement_bytes entry.1) h λ bytes _ h.
                    >>=-elim (normalize_edits original entry.1) h λ es accepted h.
                      let after = apply_offset_edits original es in
                      fail_if-elim (ltb max_result_bytes (utf8_length after)) _ h λ small_result h.
                        let sum =
                          state.preview_bytes + (utf8_length original + utf8_length after) in
                        fail_if-elim (ltb max_preview_bytes sum) _ h λ few h.
                          let file =
                            prepared_file R root path identity original after (length es) in
                          let added : IsAdded entry state (record {
                            replacement_bytes = bytes;
                            preview_bytes = sum;
                            files = state.files ++ file ∷ [];
                          }) =
                            record {
                              file = file;
                              is_preview = record {
                                requested = requested;
                                named = named;
                                canonical = canonical;
                                contained = ground arith;
                                relative = refl;
                                identity = identity;
                                identified = identified;
                                same_identity = (refl, refl, refl);
                                read = read;
                                small = ground arith;
                                small_result = ground arith;
                                digest = refl;
                                next_digest = refl;
                                normalized = es;
                                accepted = accepted;
                                assembled = (normalize_edits-assemble original entry.1 accepted).1;
                                counted = refl;
                              };
                              files = refl;
                              within = record {
                                measured =
                                    omega
                                      (arith, bytes_of-append state.files (file ∷ []), c.measured);
                                bounded = ground arith;
                              };
                            } in
                          let e : record {
                            replacement_bytes = bytes;
                            preview_bytes = sum;
                            files = state.files ++ file ∷ [];
                          }
                              ≡ next =
                            cc in
                          subst (IsAdded entry state) e added

  -- The files that the loop adds are the previews of its entries.
  record AreAdded (grouped : Grouped) (state last : Preparing) : Type 0 where
    more : List PreparedFileEdit
    are_previews : ArePreviews grouped more
    files : last.files ≡ state.files ++ more
    within : IsWithin last

  prepare_files-AreAdded :
      (grouped : Grouped) (state : Preparing) {last : Preparing}
      → prepare_files R io s root grouped state ≡ ok last
      → IsWithin state
      → AreAdded grouped state last
  unfolding prepare_files
  prepare_files-AreAdded [] state {last = last} h c =
      let e : state ≡ last = cc in
      subst (AreAdded [] state) e
        (record { more = []; are_previews = tt; files = sym (append-nil state.files); within = c })
  prepare_files-AreAdded (entry ∷ grouped) state h c =
      >>=-elim (prepare_file R io s root entry state) h λ next p h.
        let a = prepare_file-IsAdded entry state p c in
        let b = prepare_files-AreAdded grouped next h a.within in
        record {
          more = a.file ∷ b.more;
          are_previews = (a.is_preview, b.are_previews);
          files =
              b.files
              ∙ ap (λ files. files ++ b.more) a.files
              ∙ append_assoc state.files (a.file ∷ []) b.more;
          within = b.within;
        }

-- The preview of a request: the canonical workspace, and a permutation of the previews of the decoded
-- entries, one for each, within the limits.
pub record IsPreviewOf (R : Runtime) (io : WorkspaceEditIo) (s : io.State) (cwd : Text)
    (edit : Value) (prepared : PreparedWorkspaceEdit) : Type 0 where
  pub root : io.real_path s (R.resolve cwd) ≡ ok prepared.cwd
  pub grouped : Grouped
  pub decoded : decode_workspace_text_edits edit ≡ ok grouped
  pub files : List PreparedFileEdit
  pub are_previews : ArePreviews R io s prepared.cwd grouped files
  pub permuted : Permᴰ files prepared.files
  pub few : length prepared.files ≤ max_files
  pub small : bytes_of prepared.files ≤ max_preview_bytes

-- A preview that `prepareWorkspaceEdit` returns for a request has exactly one file for each URI of the
-- decoded request, in some order, at most `MAX_FILES` of them with at most `MAX_PREVIEW_BYTES` bytes of
-- texts. The file of a URI is the one the URI names, by its canonical path, which lies in the workspace;
-- it carries the identity and the text that were read there, of no more than `MAX_SOURCE_BYTES` bytes,
-- and as its next text, of no more than `MAX_RESULT_BYTES`, what one pass over the original text
-- assembles from the normalization of all the edits that the request has for that URI, which it counts;
-- it also carries the digests of the two texts.
pub prepare_workspace_edit-IsPreview :
    (R : Runtime) (io : WorkspaceEditIo) (s : io.State) (cwd : Text) (edit : Value)
    {prepared : PreparedWorkspaceEdit}
    → prepare_workspace_edit R io s cwd edit ≡ ok prepared
    → IsPreviewOf R io s cwd edit prepared
unfolding prepare_workspace_edit
prepare_workspace_edit-IsPreview R io s cwd edit {prepared = prepared} h =
    >>=-elim (io.real_path s (R.resolve cwd)) h λ root resolved h.
      >>=-elim (decode_workspace_text_edits edit) h λ grouped decoded h.
        >>=-elim (prepare_files R io s root grouped _) h λ state p h.
          let a =
            prepare_files-AreAdded R io s root grouped _ p
              (record { measured = refl; bounded = omega arith }) in
          let files = sort_files R state.files in
          let perm : Permᴰ a.more files =
            subst (λ l. Permᴰ l files) a.files (sort_files-Perm R state.files) in
          let limits = decode_workspace_text_edits-bounds edit decoded in
          let n = length-ArePreviews R io s root grouped a.more a.are_previews in
          let l = length-Perm perm in
          let b = bytes_of-Perm (sort_files-Perm R state.files) in
          let w = a.within in
          let m = w.measured in
          let k = w.bounded in
          let e : record {
            preview_id = preview_of R files;
            cwd = root;
            files = files;
            edit_count = sum_edits files;
          }
              ≡ prepared =
            cc in
          subst (IsPreviewOf R io s cwd edit) e (record {
            root = resolved;
            grouped = grouped;
            decoded = decoded;
            files = a.more;
            are_previews = a.are_previews;
            permuted = perm;
            few = omega (arith, limits.1);
            small = omega arith;
          })

-- ===== src/Edits/Normalize.antt =====
-- normalizeEdits and applyOffsetEdits.
pub mod Assemble
pub mod Normal
pub mod Kept
use dotconfig.Base.{
  ℕ, Bool, false, not, ◌&&◌, ◌||◌, List, [], ◌∷◌, ◌++◌, take, drop, Text, text_eq, ltb, leb, ◌==◌,
  Result, ok, ◌>>=◌, ◌>>◌, fail_if, if◌then◌else◌,
}
use dotconfig.Edits.{
  WorkspaceEditErrorCode, invalid_range, overlapping_edits, DecodedTextEdit, OffsetEdit,
}
use dotconfig.Edits.Offsets.{line_starts, position_offset}

unfoldable pub with_offsets :
    Text → List ℕ → DecodedTextEdit → Result WorkspaceEditErrorCode OffsetEdit
unfolding position_offset
with_offsets text starts edit = do
  start_offset ← position_offset text starts edit.range.start
  end_offset ← position_offset text starts edit.range.end
  fail_if (ltb end_offset start_offset) invalid_range
  ok (record { edit = edit; start_offset = start_offset; end_offset = end_offset })

-- The loop that fills `normalized`.
unfoldable pub offsets_of :
    Text → List ℕ → List DecodedTextEdit → Result WorkspaceEditErrorCode (List OffsetEdit)
unfolding with_offsets
offsets_of text starts [] = ok []
offsets_of text starts (edit ∷ edits) = do
  first ← with_offsets text starts edit
  rest ← offsets_of text starts edits
  ok (first ∷ rest)

-- The comparison of `toSorted` does not put `right` before `left`: the later range first.
abbrev pub goes_before : OffsetEdit → OffsetEdit → Bool
goes_before left right =
    ltb right.start_offset left.start_offset
    || (left.start_offset == right.start_offset
        && (ltb right.end_offset left.end_offset
            || (left.end_offset == right.end_offset && leb right.edit.index left.edit.index)))

-- `toSorted` is stable: an edit goes before those that it does not follow.
unfoldable pub insert_edit : OffsetEdit → List OffsetEdit → List OffsetEdit
insert_edit edit [] = edit ∷ []
insert_edit edit (other ∷ others) =
    if goes_before edit other then edit ∷ other ∷ others else other ∷ insert_edit edit others

unfoldable pub sort_edits : List OffsetEdit → List OffsetEdit
unfolding insert_edit
sort_edits [] = []
sort_edits (edit ∷ edits) = insert_edit edit (sort_edits edits)

-- The edit repeats the one before it: the same replacement of a range that is not empty.
abbrev pub repeats : OffsetEdit → OffsetEdit → Bool
repeats previous edit =
    not (edit.start_offset == edit.end_offset)
    && edit.start_offset == previous.start_offset
    && edit.end_offset == previous.end_offset
    && text_eq edit.edit.new_text previous.edit.new_text

-- The loop that fills `unique`, from its last element.
unfoldable pub unique_after : OffsetEdit → List OffsetEdit → List OffsetEdit
unique_after previous [] = []
unique_after previous (edit ∷ edits) =
    if repeats previous edit then unique_after previous edits else edit ∷ unique_after edit edits

unfoldable pub unique_edits : List OffsetEdit → List OffsetEdit
unfolding unique_after
unique_edits [] = []
unique_edits (edit ∷ edits) = edit ∷ unique_after edit edits

-- Some edit of the list ends after the start of the one before it.
unfoldable pub overlap : List OffsetEdit → Bool
overlap [] = false
overlap (later ∷ []) = false
overlap (later ∷ earlier ∷ edits) =
    ltb later.start_offset earlier.end_offset || overlap (earlier ∷ edits)

unfoldable pub normalize_edits :
    Text → List DecodedTextEdit → Result WorkspaceEditErrorCode (List OffsetEdit)
unfolding offsets_of sort_edits unique_edits overlap
normalize_edits text edits = do
  normalized ← offsets_of text (line_starts text) edits
  let unique = unique_edits (sort_edits normalized)
  fail_if (overlap unique) overlapping_edits
  ok unique

unfoldable pub apply_offset_edits : Text → List OffsetEdit → Text
apply_offset_edits current [] = current
apply_offset_edits current (edit ∷ edits) =
    apply_offset_edits
      (take edit.start_offset current ++ edit.edit.new_text ++ drop edit.end_offset current) edits

-- ===== src/Edits/Normalize/Normal.antt =====
-- What normalizeEdits accepts: ranges inside the text that do not meet, so that applyOffsetEdits replaces
-- them all at once.
use mathlib.Core.List.{reverse}
use dotconfig.Base.{
  ℕ, ◌≤◌, ◌≡◌, refl, subst, inl, inr, false, List, [], ◌∷◌, arith, length, All, Text, ltb,
  Bool-cases, ok, fail_if, fail_if-eq-ok, >>=-eq-ok,
}
use dotconfig.Edits.{overlapping_edits, invalid_range, DecodedTextEdit, OffsetEdit}
use dotconfig.Edits.Offsets.{line_starts, position_offset}
use dotconfig.Edits.Offsets.Positions.{position_offset-position_at}
use dotconfig.Edits.Normalize.{
  with_offsets, offsets_of, goes_before, insert_edit, sort_edits, repeats, unique_after,
  unique_edits, overlap, normalize_edits, apply_offset_edits,
}
use dotconfig.Edits.Normalize.Assemble.{Disjoint, assemble, apply_offset_edits-eq-assemble}

abbrev pub InText : Text → OffsetEdit → Type 0
InText text e = (e.start_offset ≤ e.end_offset) × (e.end_offset ≤ length text)

-- What `normalizeEdits` pushes for an edit: its offsets, which belong to its range.
pub record Located (text : Text) (edit : DecodedTextEdit) (e : OffsetEdit) : Type 0 where
  pub same : e.edit ≡ edit
  pub first : position_offset text (line_starts text) edit.range.start ≡ ok e.start_offset
  pub last : position_offset text (line_starts text) edit.range.end ≡ ok e.end_offset
  pub in_order : e.start_offset ≤ e.end_offset

pub with_offsets-Located :
    (text : Text) (edit : DecodedTextEdit) (e : OffsetEdit)
    → with_offsets text (line_starts text) edit ≡ ok e
    → Located text edit e
unfolding with_offsets
with_offsets-Located text edit e h =
    let (start, p, h1) = >>=-eq-ok (position_offset text (line_starts text) edit.range.start) _ h in
    let (stop, q, h2) = >>=-eq-ok (position_offset text (line_starts text) edit.range.end) _ h1 in
    let (u, r, h3) = >>=-eq-ok (fail_if (ltb stop start) invalid_range) _ h2 in
    let eq : record { edit = edit; start_offset = start; end_offset = stop } ≡ e = cc in
    let ordered = fail_if-eq-ok (ltb stop start) invalid_range r in
    subst (λ x. Located text edit x) eq
      (record { same = refl; first = p; last = q; in_order = ground arith })

Located-InText :
    (text : Text) (edit : DecodedTextEdit) (e : OffsetEdit) → Located text edit e → InText text e
Located-InText text edit e l =
    (l.in_order, (position_offset-position_at text edit.range.end l.last).0)

offsets_of-InText :
    (text : Text) (edits : List DecodedTextEdit) {es : List OffsetEdit}
    → offsets_of text (line_starts text) edits ≡ ok es
    → All (InText text) es
unfolding offsets_of
offsets_of-InText text [] {es = es} h = let eq : [] ≡ es = cc in rw (← eq) tt
offsets_of-InText text (edit ∷ edits) {es = es} h =
    let (e, p, h1) = >>=-eq-ok (with_offsets text (line_starts text) edit) _ h in
    let (rest, q, h2) = >>=-eq-ok (offsets_of text (line_starts text) edits) _ h1 in
    let eq : e ∷ rest ≡ es = cc in
    rw (← eq) (
      Located-InText text edit e (with_offsets-Located text edit e p),
      offsets_of-InText text edits q,
    )

module _ (P : OffsetEdit → Type 0) where
  All-insert_edit :
      (e : OffsetEdit) (es : List OffsetEdit) → P e → All P es → All P (insert_edit e es)
  unfolding insert_edit
  All-insert_edit e [] p ps = (p, tt)
  All-insert_edit e (x ∷ es) p ps = elim (Bool-cases (goes_before e x)) [
    | inl before ↦ rw before (p, ps)
    | inr after ↦ rw after (ps.0, All-insert_edit e es p ps.1)
  ]

  pub All-sort_edits : (es : List OffsetEdit) → All P es → All P (sort_edits es)
  unfolding sort_edits
  All-sort_edits [] ps = tt
  All-sort_edits (e ∷ es) ps = All-insert_edit e (sort_edits es) ps.0 (All-sort_edits es ps.1)

  All-unique_after :
      (previous : OffsetEdit) (es : List OffsetEdit) → All P es → All P (unique_after previous es)
  unfolding unique_after
  All-unique_after previous [] ps = tt
  All-unique_after previous (e ∷ es) ps = elim (Bool-cases (repeats previous e)) [
    | inl again ↦ rw again (All-unique_after previous es ps.1)
    | inr new ↦ rw new (ps.0, All-unique_after e es ps.1)
  ]

  pub All-unique_edits : (es : List OffsetEdit) → All P es → All P (unique_edits es)
  unfolding unique_edits
  All-unique_edits [] ps = tt
  All-unique_edits (e ∷ es) ps = (ps.0, All-unique_after e es ps.1)

Disjoint-of_overlap :
    (text : Text) (bound : ℕ) (e : OffsetEdit) (es : List OffsetEdit)
    → e.end_offset ≤ bound
    → All (InText text) (e ∷ es)
    → overlap (e ∷ es) ≡ false
    → Disjoint bound (e ∷ es)
unfolding overlap
Disjoint-of_overlap text bound e [] h ps o = (ps.0.0, h, tt)
Disjoint-of_overlap text bound e (f ∷ es) h ps o =
    let apart : ltb e.start_offset f.end_offset ≡ false = ground arith in
    let rest : overlap (f ∷ es) ≡ false = ground arith in
    (ps.0.0, h, Disjoint-of_overlap text e.start_offset f es (ground arith) ps.1 rest)

Disjoint-length :
    (text : Text) (es : List OffsetEdit)
    → All (InText text) es
    → overlap es ≡ false
    → Disjoint (length text) es
Disjoint-length text [] ps o = tt
Disjoint-length text (e ∷ es) ps o = Disjoint-of_overlap text (length text) e es ps.0.1 ps o

-- Edits that `normalizeEdits` accepts have ranges inside the text, none of which meets another one, and
-- applying them in its order gives the text in which every range is replaced by its new text, as one
-- pass over the original text assembles it.
pub normalize_edits-assemble :
    (text : Text) (edits : List DecodedTextEdit) {es : List OffsetEdit}
    → normalize_edits text edits ≡ ok es
    → Disjoint (length text) es × (apply_offset_edits text es ≡ assemble 0 text (reverse es))
unfolding normalize_edits
normalize_edits-assemble text edits {es = es} h =
    let (found, p, h1) = >>=-eq-ok (offsets_of text (line_starts text) edits) _ h in
    let unique = unique_edits (sort_edits found) in
    let (u, q, h2) = >>=-eq-ok (fail_if (overlap unique) overlapping_edits) _ h1 in
    let eq : unique ≡ es = cc in
    let inside =
      All-unique_edits (InText text) (sort_edits found)
        (All-sort_edits (InText text) found (offsets_of-InText text edits p)) in
    let d : Disjoint (length text) es =
      rw eq at
        (Disjoint-length text unique inside (fail_if-eq-ok (overlap unique) overlapping_edits q)) in
    (d, apply_offset_edits-eq-assemble text es d)

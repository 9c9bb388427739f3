-- ===== src/Edits/Normalize/Kept.antt =====
-- normalizeEdits drops repetitions only, and invents nothing.
use mathlib.Core.List.{Memᴰ}
use dotconfig.Base.{
  ◌≡◌, refl, sym, inl, inr, true, List, [], ◌∷◌, arith, All, All-mono, Text, text_eq_iff,
  Bool-cases, ok, fail_if, >>=-eq-ok,
}
use dotconfig.Edits.{overlapping_edits, DecodedTextEdit, OffsetEdit}
use dotconfig.Edits.Offsets.{line_starts, position_offset}
use dotconfig.Edits.Normalize.{
  with_offsets, offsets_of, goes_before, insert_edit, sort_edits, repeats, unique_after,
  unique_edits, overlap, normalize_edits,
}
use dotconfig.Edits.Normalize.Normal.{
  Located, with_offsets-Located, All-sort_edits, All-unique_edits,
}

-- The two replace the same range by the same text.
record Same (e f : OffsetEdit) : Type 0 where
  start_offset : e.start_offset ≡ f.start_offset
  end_offset : e.end_offset ≡ f.end_offset
  new_text : e.edit.new_text ≡ f.edit.new_text

abbrev Has : OffsetEdit → List OffsetEdit → Type 0
Has e es = (f : OffsetEdit) × Memᴰ f es × Same f e

Same-refl : (e : OffsetEdit) → Same e e
Same-refl e = record { start_offset = refl; end_offset = refl; new_text = refl }

Memᴰ-insert_edit_self : (e : OffsetEdit) (es : List OffsetEdit) → Memᴰ e (insert_edit e es)
unfolding insert_edit
Memᴰ-insert_edit_self e [] = Memᴰ.head refl
Memᴰ-insert_edit_self e (x ∷ es) = elim (Bool-cases (goes_before e x)) [
  | inl before ↦ rw before (Memᴰ.head refl)
  | inr after ↦ rw after (Memᴰ.tail (Memᴰ-insert_edit_self e es))
]

Memᴰ-insert_edit : (e f : OffsetEdit) (es : List OffsetEdit) → Memᴰ f es → Memᴰ f (insert_edit e es)
unfolding insert_edit
Memᴰ-insert_edit e f [] m = elim m [ ]
Memᴰ-insert_edit e f (x ∷ es) (Memᴰ.head q) = elim (Bool-cases (goes_before e x)) [
  | inl before ↦ rw before (Memᴰ.tail (Memᴰ.head q))
  | inr after ↦ rw after (Memᴰ.head q)
]
Memᴰ-insert_edit e f (x ∷ es) (Memᴰ.tail m) = elim (Bool-cases (goes_before e x)) [
  | inl before ↦ rw before (Memᴰ.tail (Memᴰ.tail m))
  | inr after ↦ rw after (Memᴰ.tail (Memᴰ-insert_edit e f es m))
]

Memᴰ-sort_edits : (e : OffsetEdit) (es : List OffsetEdit) → Memᴰ e es → Memᴰ e (sort_edits es)
unfolding sort_edits
Memᴰ-sort_edits e [] m = elim m [ ]
Memᴰ-sort_edits e (x ∷ es) (Memᴰ.head q) = rw q (Memᴰ-insert_edit_self x (sort_edits es))
Memᴰ-sort_edits e (x ∷ es) (Memᴰ.tail m) =
    Memᴰ-insert_edit x e (sort_edits es) (Memᴰ-sort_edits e es m)

Same-repeats : (previous e : OffsetEdit) → repeats previous e ≡ true → Same previous e
Same-repeats previous e h =
    let t = (text_eq_iff e.edit.new_text previous.edit.new_text).0 (ground arith) in
    record { start_offset = ground arith; end_offset = ground arith; new_text = sym t }

-- Behind an element that stands in the list, what `unique` leaves out it has already.
Has-unique_after :
    (previous e : OffsetEdit) (es : List OffsetEdit)
    → Memᴰ e es
    → Has e (previous ∷ unique_after previous es)
unfolding unique_after
Has-unique_after previous e [] m = elim m [ ]
Has-unique_after previous e (x ∷ es) m = elim (Bool-cases (repeats previous x)) [
  | inl again ↦ rw again (skipped m again (λ n. Has-unique_after previous e es n))
  | inr new ↦ rw new (kept m (λ n. Has-unique_after x e es n))
]
  where
    skipped :
        Memᴰ e (x ∷ es)
        → repeats previous x ≡ true
        → (Memᴰ e es → Has e (previous ∷ unique_after previous es))
        → Has e (previous ∷ unique_after previous es)
    skipped (Memᴰ.head q) again rest =
        (previous, Memᴰ.head refl, rw q (Same-repeats previous x again))
    skipped (Memᴰ.tail n) again rest = rest n

    kept :
        Memᴰ e (x ∷ es)
        → (Memᴰ e es → Has e (x ∷ unique_after x es))
        → Has e (previous ∷ x ∷ unique_after x es)
    kept (Memᴰ.head q) rest = (x, Memᴰ.tail (Memᴰ.head refl), rw q (Same-refl x))
    kept (Memᴰ.tail n) rest = let (f, m, s) = rest n in (f, Memᴰ.tail m, s)

Has-unique_edits : (e : OffsetEdit) (es : List OffsetEdit) → Memᴰ e es → Has e (unique_edits es)
unfolding unique_edits
Has-unique_edits e [] m = elim m [ ]
Has-unique_edits e (x ∷ es) (Memᴰ.head q) = (x, Memᴰ.head refl, rw q (Same-refl x))
Has-unique_edits e (x ∷ es) (Memᴰ.tail m) = Has-unique_after x e es m

offsets_of-Located :
    (text : Text) (edits : List DecodedTextEdit) {es : List OffsetEdit}
    → offsets_of text (line_starts text) edits ≡ ok es
    → All (λ e. Memᴰ e.edit edits × Located text e.edit e) es
      × ((edit : DecodedTextEdit)
          → Memᴰ edit edits
          → (e : OffsetEdit) × Memᴰ e es × Located text edit e)
unfolding offsets_of
offsets_of-Located text [] {es = es} h =
    let eq : [] ≡ es = cc in rw (← eq) (tt, λ edit m. elim m [ ])
offsets_of-Located text (edit ∷ edits) {es = es} h =
    let (e, p, h1) = >>=-eq-ok (with_offsets text (line_starts text) edit) _ h in
    let (rest, q, h2) = >>=-eq-ok (offsets_of text (line_starts text) edits) _ h1 in
    let eq : e ∷ rest ≡ es = cc in
    let l = with_offsets-Located text edit e p in
    let (old, has) = offsets_of-Located text edits q in
    rw (← eq) (
      ((Memᴰ.head l.same, rw l.same l), All-mono (λ x k. (Memᴰ.tail k.0, k.1)) rest old),
      λ edit' m. found e rest l has m,
    )
  where
    found :
        (e : OffsetEdit) (rest : List OffsetEdit) {edit' : DecodedTextEdit}
        → Located text edit e
        → ((d : DecodedTextEdit) → Memᴰ d edits → (x : OffsetEdit) × Memᴰ x rest × Located text d x)
        → Memᴰ edit' (edit ∷ edits)
        → (x : OffsetEdit) × Memᴰ x (e ∷ rest) × Located text edit' x
    found e rest l has (Memᴰ.head q) = (e, Memᴰ.head refl, rw q l)
    found e rest l has (Memᴰ.tail m) = let (x, n, k) = has _ m in (x, Memᴰ.tail n, k)

-- When `normalizeEdits` accepts the edits of a file, for every edit of the request an edit that it keeps
-- replaces the range of that edit by its text, and every edit that it keeps is one of the request, at
-- the offsets of its range.
pub normalize_edits-kept :
    (text : Text) (edits : List DecodedTextEdit) {es : List OffsetEdit}
    → normalize_edits text edits ≡ ok es
    → ((edit : DecodedTextEdit)
        → Memᴰ edit edits
        → (e : OffsetEdit) × Memᴰ e es
          × (e.edit.new_text ≡ edit.new_text)
          × (position_offset text (line_starts text) edit.range.start ≡ ok e.start_offset)
          × (position_offset text (line_starts text) edit.range.end ≡ ok e.end_offset))
      × All (λ e. Memᴰ e.edit edits × Located text e.edit e) es
unfolding normalize_edits
normalize_edits-kept text edits {es = es} h =
    let (found, p, h1) = >>=-eq-ok (offsets_of text (line_starts text) edits) _ h in
    let unique = unique_edits (sort_edits found) in
    let (u, q, h2) = >>=-eq-ok (fail_if (overlap unique) overlapping_edits) _ h1 in
    let eq : unique ≡ es = cc in
    let (old, has) = offsets_of-Located text edits p in
    let P = λ (e : OffsetEdit). Memᴰ e.edit edits × Located text e.edit e in
    rw (← eq) (
      λ edit m.
          let (x, n, l) = has edit m in
          let (f, k, s) = Has-unique_edits x (sort_edits found) (Memᴰ-sort_edits x found n) in
          (f, k, rw (← l.same) s.new_text, rw s.start_offset l.first, rw s.end_offset l.last),
      All-unique_edits P (sort_edits found) (All-sort_edits P found old),
    )

-- ===== src/Edits/Normalize/Assemble.antt =====
-- Edits applied from the last one to the first one replace every range of the original text at once.
use mathlib.Core.List.{reverse, reverse-append, append_assoc}
use native.Mathlib.Nat.{sub-zero}
use dotconfig.Base.{
  ℕ, ◌+◌, ◌-◌, ◌≤◌, ◌≡◌, refl, List, [], ◌∷◌, ◌++◌, arith, length, length-append, take, drop, Text,
  length-take, take-append, drop-append, take-take, drop-take, drop-drop,
}
use dotconfig.Edits.{OffsetEdit}
use dotconfig.Edits.Normalize.{apply_offset_edits}

-- The ranges lie before a bound, each one before the start of the one in front of it in the list.
abbrev pub Disjoint : ℕ → List OffsetEdit → Type 0
Disjoint bound [] = Unit
Disjoint bound (e ∷ es) =
    (e.start_offset ≤ e.end_offset) × (e.end_offset ≤ bound) × Disjoint e.start_offset es

-- The same, in the order of the text, between two offsets.
abbrev Ascending : ℕ → List OffsetEdit → ℕ → Type 0
Ascending cursor [] bound = cursor ≤ bound
Ascending cursor (e ∷ es) bound =
    (cursor ≤ e.start_offset) × (e.start_offset ≤ e.end_offset) × Ascending e.end_offset es bound

-- One pass over the text from a cursor on: what stands before a range is copied, the range is replaced.
abbrev pub assemble : ℕ → Text → List OffsetEdit → Text
assemble cursor rest [] = rest
assemble cursor rest (e ∷ es) =
    take (e.start_offset - cursor) rest
    ++ e.edit.new_text
    ++ assemble e.end_offset (drop (e.end_offset - cursor) rest) es

Disjoint-mono : (a b : ℕ) (es : List OffsetEdit) → a ≤ b → Disjoint a es → Disjoint b es
Disjoint-mono a b [] h d = tt
Disjoint-mono a b (e ∷ es) h d = (d.0, omega arith, d.2)

Ascending-snoc :
    (cursor bound : ℕ) (es : List OffsetEdit) (e : OffsetEdit)
    → Ascending cursor es e.start_offset
    → e.start_offset ≤ e.end_offset
    → e.end_offset ≤ bound
    → Ascending cursor (es ++ e ∷ []) bound
Ascending-snoc cursor bound [] e a h k = (a, h, k)
Ascending-snoc cursor bound (x ∷ es) e a h k =
    (a.0, a.1, Ascending-snoc x.end_offset bound es e a.2 h k)

Ascending-reverse :
    (bound : ℕ) (es : List OffsetEdit) → Disjoint bound es → Ascending 0 (reverse es) bound
Ascending-reverse bound [] d = omega arith
Ascending-reverse bound (e ∷ es) d =
    rw (reverse-append (e ∷ []) es)
      (Ascending-snoc 0 bound (reverse es) e (Ascending-reverse e.start_offset es d.2) d.0 d.1)

-- Edits of the front of a text leave its end as it is.
apply-append :
    (es : List OffsetEdit) (a b : Text)
    → Disjoint (length a) es
    → apply_offset_edits (a ++ b) es ≡ apply_offset_edits a es ++ b
unfolding apply_offset_edits
apply-append [] a b d = refl
apply-append (e ∷ es) a b d =
    let s = e.start_offset in
    let front = take s a ++ e.edit.new_text ++ drop e.end_offset a in
    let long : Disjoint (length front) es =
      Disjoint-mono s (length front) es
        (omega (
          arith,
          length-append (take s a ++ e.edit.new_text) (drop e.end_offset a),
          length-append (take s a) e.edit.new_text,
          length-take s a (omega arith),
        ))
        d.2 in
    let step = apply-append es front b long in
    let joined : take s (a ++ b) ++ e.edit.new_text ++ drop e.end_offset (a ++ b) ≡ front ++ b =
      rw (take-append s a b (omega arith), drop-append e.end_offset a b d.1) (simp append_assoc) in
    rw joined step

Ascending-le : (a b : ℕ) (es : List OffsetEdit) → Ascending a es b → a ≤ b
Ascending-le a b [] h = h
Ascending-le a b (e ∷ es) h = omega (arith, Ascending-le e.end_offset b es h.2)

assemble-snoc :
    (cursor : ℕ) (rest : Text) (es : List OffsetEdit) (e : OffsetEdit)
    → Ascending cursor es e.start_offset
    → e.start_offset ≤ e.end_offset
    → assemble cursor rest (es ++ e ∷ [])
      ≡ assemble cursor (take (e.start_offset - cursor) rest) es
        ++ e.edit.new_text
        ++ drop (e.end_offset - cursor) rest
assemble-snoc cursor rest [] e a h = refl
assemble-snoc cursor rest (x ∷ es) e a h =
    let bounds = Ascending-le x.end_offset e.start_offset es a.2 in
    let n = e.start_offset - cursor in
    let inner = assemble-snoc x.end_offset (drop (x.end_offset - cursor) rest) es e a.2 h in
    let left : (n - (x.end_offset - cursor)) ≡ e.start_offset - x.end_offset = omega arith in
    let far : (x.end_offset - cursor) + (e.end_offset - x.end_offset) ≡ e.end_offset - cursor =
      omega arith in
    rw
      (
        inner,
        drop-drop (x.end_offset - cursor) (e.end_offset - x.end_offset) rest,
        far,
        take-take (x.start_offset - cursor) n rest (omega arith),
        drop-take (x.end_offset - cursor) n rest (omega arith),
        left,
      )
      (simp append_assoc)

-- Edits applied in reverse give what one pass over the original text gives.
pub apply_offset_edits-eq-assemble :
    (text : Text) (es : List OffsetEdit)
    → Disjoint (length text) es
    → apply_offset_edits text es ≡ assemble 0 text (reverse es)
unfolding apply_offset_edits
apply_offset_edits-eq-assemble text [] d = refl
apply_offset_edits-eq-assemble text (e ∷ es) d =
    let s = e.start_offset in
    let front = take s text in
    let long : length front ≡ s = length-take s text (omega arith) in
    let before : Disjoint (length front) es = rw long d.2 in
    rw
      (
        append_assoc front e.edit.new_text (drop e.end_offset text),
        apply-append es front (e.edit.new_text ++ drop e.end_offset text) before,
        apply_offset_edits-eq-assemble front es before,
        reverse-append (e ∷ []) es,
        assemble-snoc 0 text (reverse es) e (Ascending-reverse s es d.2) d.0,
        sub-zero e.start_offset,
        sub-zero e.end_offset,
        append_assoc,
      )
      refl

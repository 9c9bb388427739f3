-- ===== src/Edits/Offsets/Positions.antt =====
-- The offset that `positionOffset` computes from the starts of the lines is the place of the position.
use native.Mathlib.Nat.{zero-add}
use dotconfig.Base.{
  ℕ, zero, suc, ◌+◌, ◌-◌, ◌≤◌, ◌≡◌, refl, ap, inl, inr, true, false, some, [], ◌∷◌, arith, length,
  length-drop, drop, take, get_elem?, find_index, or_else, All, Text, ltb, ◌==◌, Bool-cases,
  Option-cases, ok,
}
use dotconfig.Edits.{Position}
use dotconfig.Edits.Offsets.{
  is_newline, later_starts, line_starts, physical_end, logical_end, position_offset, offset_on_line,
  after_unit, position_at,
}

-- The text has a number of units in front that are no newline.
abbrev Clear : ℕ → Text → Type 0
Clear n text = (n ≤ length text) × All (λ unit. is_newline unit ≡ false) (take n text)

Clear-find_index :
    (text : Text) (n : ℕ) → n ≤ or_else (find_index is_newline text) (length text) → Clear n text
Clear-find_index text zero h = (omega arith, tt)
Clear-find_index [] (suc n) h = absurd (omega arith)
Clear-find_index (unit ∷ text) (suc n) h = elim (Bool-cases (is_newline unit)) [
  | inl newline ↦ let k : suc n ≤ 0 = rw (newline, find_index) at h in absurd (omega arith)
  | inr other ↦ elim (Option-cases (find_index is_newline text)) [
    | inl e ↦
        let k : suc n ≤ suc (length text) = rw (other, find_index, e) at h in
        let (long, clear) = Clear-find_index text n (rw e (omega arith)) in
        (omega arith, (other, clear))
    | inr (d, e) ↦
        let k : suc n ≤ suc d = rw (other, find_index, e) at h in
        let (long, clear) = Clear-find_index text n (rw e (omega arith)) in
        (omega arith, (other, clear))
  ]
]

position_at_first_line :
    (text : Text) (n : ℕ) → Clear n text → position_at text n ≡ record { line = 0; character = n }
position_at_first_line text zero c = refl
position_at_first_line [] (suc n) c = absurd (omega arith)
position_at_first_line (unit ∷ text) (suc n) c =
    rw (position_at_first_line text n (omega arith, c.1.1), c.1.0, after_unit)
      (ap (λ k. record { line = 0; character = k }) (omega arith))

-- The offset is the start of the line, which a newline ends, and the columns count from it.
abbrev StartsLine : Text → ℕ → ℕ → Type 0
StartsLine text line start =
    (start ≤ length text)
    × ((ahead : ℕ)
        → Clear ahead (drop start text)
        → position_at text (start + ahead) ≡ record { line = line; character = ahead })

StartsLine-newline :
    (unit : ℕ) (text : Text) (line start : ℕ)
    → is_newline unit ≡ true
    → StartsLine text line start
    → StartsLine (unit ∷ text) (suc line) (suc start)
StartsLine-newline unit text line start newline (long, p) = (
  omega arith,
  λ ahead c.
      let e : suc start + ahead ≡ suc (start + ahead) = omega arith in
      rw (e, p ahead c, newline, after_unit)
        (ap (λ k. record { line = k; character = ahead }) (omega arith)),
)

StartsLine-other :
    (unit : ℕ) (text : Text) (line start : ℕ)
    → is_newline unit ≡ false
    → StartsLine text (suc line) start
    → StartsLine (unit ∷ text) (suc line) (suc start)
StartsLine-other unit text line start other (long, p) = (
  omega arith,
  λ ahead c.
      let e : suc start + ahead ≡ suc (start + ahead) = omega arith in
      let z : (suc line == 0) ≡ false = ground arith in
      rw (e, p ahead c, other, after_unit, z) refl,
)

StartsLine-zero : (text : Text) → StartsLine text 0 0
StartsLine-zero text = (omega arith, λ ahead c. rw zero-add (position_at_first_line text ahead c))

later_starts-StartsLine :
    (text : Text) (index n : ℕ) {start : ℕ}
    → get_elem? (later_starts index text) n ≡ some start
    → (m : ℕ) × (start ≡ index + m) × StartsLine text (suc n) m
unfolding later_starts
later_starts-StartsLine [] index n h = cc
later_starts-StartsLine (unit ∷ text) index zero {start = start} h =
    elim (Bool-cases (is_newline unit)) [
      | inl newline ↦
          let e : some (index + 1) ≡ some start = rw (newline, later_starts) at h in
          (1, ground arith, StartsLine-newline unit text 0 0 newline (StartsLine-zero text))
      | inr other ↦
          let (m, e, p) =
            later_starts-StartsLine text (index + 1) zero {start = start}
              (rw (other, later_starts) at h) in
          (suc m, omega arith, StartsLine-other unit text zero m other p)
    ]
later_starts-StartsLine (unit ∷ text) index (suc n) {start = start} h =
    elim (Bool-cases (is_newline unit)) [
      | inl newline ↦
          let (m, e, p) =
            later_starts-StartsLine text (index + 1) n {start = start}
              (rw (newline, later_starts) at h) in
          (suc m, omega arith, StartsLine-newline unit text (suc n) m newline p)
      | inr other ↦
          let (m, e, p) =
            later_starts-StartsLine text (index + 1) (suc n) {start = start}
              (rw (other, later_starts) at h) in
          (suc m, omega arith, StartsLine-other unit text (suc n) m other p)
    ]

line_starts-StartsLine :
    (text : Text) (line : ℕ) {start : ℕ}
    → get_elem? (line_starts text) line ≡ some start
    → StartsLine text line start
unfolding line_starts
line_starts-StartsLine text zero h = ground (arith, StartsLine-zero text)
line_starts-StartsLine text (suc line) {start = start} h =
    let (m, e, p) = later_starts-StartsLine text 0 line h in
    let same : m ≡ start = omega arith in rw same at p

logical_end-le-physical_end :
    (text : Text) (start : ℕ) → logical_end text start ≤ physical_end text start
unfolding logical_end
logical_end-le-physical_end text start = ground arith

-- A column up to the end of the line is clear of newlines.
Clear-logical_end :
    (text : Text) (start n : ℕ)
    → start ≤ length text
    → n ≤ logical_end text start - start
    → Clear n (drop start text)
unfolding physical_end
Clear-logical_end text start n long h =
    Clear-find_index (drop start text) n
      (elim (Option-cases (find_index is_newline (drop start text))) [
        | inl e ↦
            let k : logical_end text start ≤ length text =
              rw (physical_end, e) at (logical_end-le-physical_end text start) in
            rw e (omega (arith, length-drop start text))
        | inr (d, e) ↦
            let k : logical_end text start ≤ start + d =
              rw (physical_end, e) at (logical_end-le-physical_end text start) in
            rw e (omega arith)
      ])

-- An offset that `positionOffset` computes from the starts of the lines of a text lies in the text, and
-- a walk from its front to the offset counts as many newlines as the position has lines, and as many
-- units after the last one as it has characters.
pub position_offset-position_at :
    (text : Text) (position : Position) {offset : ℕ}
    → position_offset text (line_starts text) position ≡ ok offset
    → (offset ≤ length text) × (position_at text offset ≡ position)
unfolding position_offset offset_on_line
position_offset-position_at text position {offset = offset} h =
    elim (Option-cases (get_elem? (line_starts text) position.line)) [
      | inl e ↦ let z = rw (e, offset_on_line) at h in cc
      | inr (start, e) ↦
          let (long, p) = line_starts-StartsLine text position.line e in
          elim (Bool-cases (ltb (logical_end text start - start) position.character)) [
            | inl past ↦ let z = rw (e, offset_on_line, past) at h in cc
            | inr inside ↦
                let c = Clear-logical_end text start position.character long (ground arith) in
                let z : ok (start + position.character) ≡ ok offset =
                  rw (e, offset_on_line, inside) at h in
                let same : start + position.character ≡ offset = cc in
                rw (← same) (omega (arith, c.0, length-drop start text), p position.character c)
          ]
    ]

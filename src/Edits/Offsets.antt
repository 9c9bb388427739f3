-- ===== src/Edits/Offsets.antt =====
-- lineStarts and positionOffset: a position of the protocol, a line and a UTF-16 column, as an offset.
pub mod Positions
use mathlib.Core.Option
use dotconfig.Base.{
  ℕ, zero, suc, ◌+◌, ◌-◌, Bool, false, ◌&&◌, Option, none, some, or_else, List, [], ◌∷◌, length,
  drop, get_elem?, find_index, Text, ltb, ◌==◌, Result, ok, err, if◌then◌else◌,
}
use dotconfig.Edits.{WorkspaceEditErrorCode, invalid_range, Position}

-- `text[index] === "\n"`
abbrev pub is_newline : ℕ → Bool
is_newline unit = unit == 10

-- The starts of the lines after the first one, in a text that starts at an index.
unfoldable pub later_starts : ℕ → Text → List ℕ
later_starts index [] = []
later_starts index (unit ∷ text) =
    if is_newline unit
    then (index + 1) ∷ later_starts (index + 1) text
    else later_starts (index + 1) text

unfoldable pub line_starts : Text → List ℕ
unfolding later_starts
line_starts text = 0 ∷ later_starts 0 text

-- `lineEnd === -1 ? text.length : lineEnd` for `lineEnd = text.indexOf("\n", start)`
unfoldable pub physical_end : Text → ℕ → ℕ
physical_end text start =
    or_else (Option.map (λ ahead. start + ahead) (find_index is_newline (drop start text)))
      (length text)

-- `text[index] === "\r"`
abbrev pub is_return_at : Text → ℕ → Bool
is_return_at text index = elim (get_elem? text index) [ none ↦ false | some unit ↦ unit == 13 ]

unfoldable pub logical_end : Text → ℕ → ℕ
unfolding physical_end
logical_end text start =
    let last = physical_end text start in
    if ltb start last && is_return_at text (last - 1) then last - 1 else last

-- The offset on the line that starts at `start`.
unfoldable pub offset_on_line : Text → ℕ → Option ℕ → Result WorkspaceEditErrorCode ℕ
unfolding logical_end
offset_on_line text character none = err invalid_range
offset_on_line text character (some start) =
    if ltb (logical_end text start - start) character
    then err invalid_range
    else ok (start + character)

unfoldable pub position_offset : Text → List ℕ → Position → Result WorkspaceEditErrorCode ℕ
unfolding offset_on_line
position_offset text starts position =
    offset_on_line text position.character (get_elem? starts position.line)

-- The line and the column of an offset, counted from the front of the text.
abbrev pub after_unit : ℕ → Position → Position
after_unit unit position =
    if is_newline unit
    then record position { line = position.line + 1 }
    else if position.line == 0
    then record position { character = position.character + 1 }
    else position

abbrev pub position_at : Text → ℕ → Position
position_at text zero = record { line = 0; character = 0 }
position_at [] (suc offset) = record { line = 0; character = 0 }
position_at (unit ∷ text) (suc offset) = after_unit unit (position_at text offset)

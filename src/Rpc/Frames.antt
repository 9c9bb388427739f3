-- ===== src/Rpc/Frames.antt =====
-- #drainFrames: the messages of a stream of bytes, each behind a header with the length of its body.
pub mod Header
pub mod Quiet
pub mod Whole
pub mod Stream
use mathlib.Core.Option
use dotconfig.Base.{
  ℕ, zero, suc, ◌+◌, ◌%◌, Bool, true, false, not, ◌||◌, Option, none, some, [], ◌∷◌, ◌++◌, map,
  length, take, drop, ltb, leb, ◌==◌, Text, codes, starts_with, starts_with_ci, trim_start,
  is_space, span_digits, number_from, max_safe_integer, Value, if◌then◌else◌,
}
use dotconfig.Rpc.{
  Bytes, max_header_bytes, invalid_frame, message_too_large, invalid_message, Connection, Peer,
  fail_all,
}
use dotconfig.Rpc.Messages.{dispatch}

-- "\r\n\r\n"
abbrev pub terminator : Bytes
terminator = 13 ∷ 10 ∷ 13 ∷ 10 ∷ []

-- `buffer.indexOf("\r\n\r\n")`, with `none` for -1.
unfoldable pub header_end : Bytes → Option ℕ
unfolding starts_with
header_end [] = none
header_end (byte ∷ bytes) =
    if starts_with terminator (byte ∷ bytes) then some 0 else Option.map suc (header_end bytes)

-- `bytes.toString("ascii")` drops the high bit.
abbrev pub ascii : Bytes → Text
ascii = map (λ byte. byte % 128)

abbrev pub is_line_end : ℕ → Bool
is_line_end unit = unit == 10 || unit == 13

-- `\s*$` with the flag `m`, where digits stand before.
unfoldable pub blank_to_line_end : Text → Bool
unfolding is_space
blank_to_line_end [] = true
blank_to_line_end (unit ∷ text) =
    let rest = blank_to_line_end text in
    if is_line_end unit then true else if is_space unit then rest else false

abbrev pub digits_at : Text → Text → Option Text
digits_at [] rest = none
digits_at (digit ∷ digits) rest = if blank_to_line_end rest then some (digit ∷ digits) else none

-- `/^Content-Length:\s*(\d+)\s*$/imu` at the start of a line.
unfoldable pub length_here : Text → Option Text
unfolding starts_with_ci trim_start span_digits blank_to_line_end
length_here line =
    let spanned = span_digits (trim_start (drop 15 line)) in
    if starts_with_ci (codes "content-length:") line then digits_at spanned.0 spanned.1 else none

abbrev pub first_some : {A : Type 0} → Option A → Option A → Option A
first_some none other = other
first_some (some a) other = some a

-- The first match in a text; the flag says that a line starts.
unfoldable pub length_digits : Bool → Text → Option Text
unfolding length_here
length_digits starts [] = none
length_digits starts (unit ∷ text) =
    let rest = length_digits (is_line_end unit) text in
    if starts then first_some (length_here (unit ∷ text)) rest else rest

module _ (P : Peer) where
  -- `JSON.parse` and `#dispatch`, for a connection whose buffer is behind the body.
  abbrev pub with_message : (Connection → Connection) → Option Value → Connection → Connection
  with_message next none c = fail_all invalid_message c
  with_message next (some message) c = next (dispatch P message c)

  -- The body, once its length is known; `start` is `bodyStart`.
  unfoldable pub with_length : (Connection → Connection) → ℕ → ℕ → Connection → Connection
  unfolding fail_all dispatch
  with_length next start size c =
      if not (leb size max_safe_integer)
      then fail_all invalid_frame c
      else if ltb P.max_message_bytes size
      then fail_all message_too_large c
      else if ltb (length c.buffer) (start + size)
      then c
      else with_message next (P.parse (take size (drop start c.buffer)))
          (record c { buffer = drop (start + size) c.buffer })

  abbrev pub with_digits : (Connection → Connection) → ℕ → Option Text → Connection → Connection
  with_digits next start none c = fail_all invalid_frame c
  with_digits next start (some digits) c = with_length next start (number_from 0 digits) c

  abbrev pub with_header : (Connection → Connection) → Option ℕ → Connection → Connection
  with_header next none c =
      if ltb max_header_bytes (length c.buffer) then fail_all invalid_frame c else c
  with_header next (some size) c =
      if ltb max_header_bytes size
      then fail_all invalid_frame c
      else with_digits next (size + 4) (length_digits true (ascii (take size c.buffer))) c

  -- The loop. Every round but the last takes a header off the buffer.
  unfoldable pub drain_frames : ℕ → Connection → Connection
  unfolding fail_all header_end length_digits number_from with_length
  drain_frames zero c = c
  drain_frames (suc fuel) c =
      if c.is_closed then c else with_header (drain_frames fuel) (header_end c.buffer) c

  unfoldable pub handle_data : Bytes → Connection → Connection
  unfolding drain_frames
  handle_data chunk c =
      if c.is_closed
      then c
      else let buffer = c.buffer ++ chunk in
        drain_frames (suc (length buffer)) (record c { buffer = buffer })

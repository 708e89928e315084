-- ===== src/Framing.antt =====
-- Newline framing of the RPC streams: class LineDecoder of packages/protocol/src/framing.ts. Texts
-- are lists of UTF-16 code units. What is left in the buffer when `push` throws is left out.
pub mod Chunks
mod Tests
use foundry_agent_workspace.Base.{
  ℕ, ◌+◌, Bool, true, false, ◌&&◌, List, [], ◌∷◌, ◌++◌, ◌==◌, ltb, leb, if◌then◌else◌, Result, ok,
  err, ◌>>=◌, ◌>>◌, require, Text,
}

pub data FramingError : Type 0 where
  message_too_long : FramingError

abbrev pub newline : ℕ
newline = 10

abbrev pub is_high : ℕ → Bool
is_high c = leb 55296 c && leb c 56319

abbrev pub is_low : ℕ → Bool
is_low c = leb 56320 c && leb c 57343

-- The bytes of one unit in UTF-8; a lone surrogate is encoded as U+FFFD.
abbrev pub unit_bytes : ℕ → ℕ
unit_bytes c = if ltb c 128 then 1 else if ltb c 2048 then 2 else 3

-- `encode(text).byteLength`; `after_high` tells whether the unit before is an unpaired high
-- surrogate, whose pair has 4 bytes.
unfoldable pub bytes_from : Bool → Text → ℕ
bytes_from after_high [] = 0
bytes_from after_high (c ∷ t) =
    let pair = after_high && is_low c in
    (if pair then 1 else unit_bytes c) + bytes_from (if pair then false else is_high c) t

abbrev pub byte_length : Text → ℕ
byte_length t = bytes_from false t

abbrev pub cons_line : Text → List Text × Text → List Text × Text
cons_line line (lines, rest) = (line ∷ lines, rest)

-- A whole line, tested before the loop goes on with what follows it.
abbrev pub end_line :
    ℕ → Text → Result FramingError (List Text × Text) → Result FramingError (List Text × Text)
end_line limit line following = do
  require (leb (byte_length line) limit) message_too_long
  found ← following
  ok (cons_line line found)

-- The loop of `push`: `line` is what stands before the place reached, back to the last newline.
unfoldable pub take_lines : ℕ → Text → Text → Result FramingError (List Text × Text)
take_lines limit line [] = do require (leb (byte_length line) limit) message_too_long; ok ([], line)
take_lines limit line (c ∷ t) =
    let same_line = take_lines limit (line ++ c ∷ []) t in
    let next_line = take_lines limit [] t in
    if c == newline then end_line limit line next_line else same_line

-- The lines, and the buffer that is left.
unfoldable pub push : ℕ → Text → Text → Result FramingError (List Text × Text)
push limit buffer chunk = take_lines limit [] (buffer ++ chunk)

abbrev pub append_lines : List Text → List Text × Text → List Text × Text
append_lines lines (more, rest) = (lines ++ more, rest)

-- One chunk after the other.
unfoldable pub push_all : ℕ → Text → List Text → Result FramingError (List Text × Text)
push_all limit buffer [] = ok ([], buffer)
push_all limit buffer (chunk ∷ chunks) = do
  found ← push limit buffer chunk
  later ← push_all limit found.1 chunks
  ok (append_lines found.0 later)

-- ===== src/Client/Lines.antt =====
-- readLine of managesieveclient/client.go over bufio's ReadLine.
pub mod Stream
pub mod Limit
use go_managesieve.Common.{
  ℕ, zero, suc, Bool, true, false, ◌&&◌, [], ◌∷◌, ◌++◌, Bytes, ltb, ◌==◌, if◌then◌else◌, length,
}
use go_managesieve.Server.Reader.{
  ReadError, line_too_long, Reader, flat, SliceStatus, found, buffer_full, failed, read_slice,
  LineResult, got, refused, out_of_fuel,
}

-- What one ReadLine returns: a line, a part of a line that fills the buffer, or an error.
pub data Chunk : Type 0 where
  line : Bytes → Chunk
  part : Bytes → Chunk
  error : ReadError → Chunk

-- The line without its '\n' and a '\r' in front of it.
unfoldable pub strip_line : Bytes → Bytes
strip_line [] = []
strip_line (c ∷ []) = if c == b'\n' then [] else c ∷ []
strip_line (c ∷ d ∷ []) =
    if c == b'\r' && d == b'\n' then [] else if d == b'\n' then c ∷ [] else c ∷ d ∷ []
strip_line (c ∷ d ∷ e ∷ s) = c ∷ strip_line (d ∷ e ∷ s)

-- A '\r' at the end of a full buffer is put back, so that the '\n' behind it is seen with it.
unfoldable pub hold_cr : Bytes → Bytes × Bool
hold_cr [] = ([], false)
hold_cr (c ∷ []) = if c == b'\r' then ([], true) else (c ∷ [], false)
hold_cr (c ∷ d ∷ s) = let (kept, held) = hold_cr (d ∷ s) in (c ∷ kept, held)

abbrev pub put_back : Reader → Reader
put_back rd = record rd { buffered = b'\r' ∷ rd.buffered }

unfoldable pub full_chunk : Bytes × Bool → Reader → Chunk × Reader
full_chunk (kept, true) rd = (part kept, put_back rd)
full_chunk (kept, false) rd = (part kept, rd)

-- A last line without a '\n' is returned without the error behind it.
unfoldable pub chunk_of : SliceStatus → Bytes → Reader → Chunk × Reader
unfolding full_chunk
chunk_of found chunk rd = (line (strip_line chunk), rd)
chunk_of buffer_full chunk rd = full_chunk (hold_cr chunk) rd
chunk_of (failed e) [] rd = (error e, rd)
chunk_of (failed e) (c ∷ s) rd = (line (strip_line (c ∷ s)), rd)

unfoldable pub read_chunk : Reader → Chunk × Reader
unfolding chunk_of strip_line hold_cr
read_chunk rd = let slice = read_slice rd in chunk_of slice.status slice.chunk slice.reader

-- One round of the loop behind its ReadLine; `so_far` is the line that was read so far.
unfoldable pub chunk_step :
    ℕ → Bytes → (Bytes → Reader → LineResult × Reader) → Chunk × Reader → LineResult × Reader
chunk_step max_line so_far more (error e, rd) = (refused e, rd)
chunk_step max_line so_far more (line s, rd) =
    (if ltb max_line (length (so_far ++ s)) then refused line_too_long else got (so_far ++ s), rd)
chunk_step max_line so_far more (part s, rd) =
    let rest = more (so_far ++ s) rd in
    if ltb max_line (length (so_far ++ s)) then (refused line_too_long, rd) else rest

unfoldable pub line_from : ℕ → ℕ → Bytes → Reader → LineResult × Reader
unfolding chunk_step
line_from zero max_line so_far rd = (out_of_fuel, rd)
line_from (suc fuel) max_line so_far rd =
    chunk_step max_line so_far (line_from fuel max_line) (read_chunk rd)

-- A round that goes on takes at least a byte, so the bytes to come are fuel enough.
unfoldable pub read_response_line : ℕ → Reader → LineResult × Reader
unfolding line_from read_chunk
read_response_line max_line rd = line_from (suc (length (flat rd))) max_line [] rd

-- ===== src/Server/Reader.antt =====
-- readBoundedLine of managesieveserver/parser.go over a model of bufio.Reader: the buffered bytes,
-- the segments that later reads of the connection deliver, and the error behind them.
pub mod Slices
pub mod Lines
pub mod Full
pub mod Shrinking
use go_managesieve.Common.{
  ℕ, zero, suc, ◌+◌, ◌-◌, Bool, true, false, not, ◌&&◌, ◌||◌, List, [], ◌∷◌, ◌++◌, Option, none,
  some, Bytes, ltb, leb, ◌==◌, if◌then◌else◌, length, take, drop,
}

-- The errors of reads, errLineTooLong and errMissingCRLF among them.
pub data ReadError : Type 0 where
  eof unexpected_eof timeout broken line_too_long missing_crlf : ReadError

pub record Reader : Type 0 where
  pub buffered : Bytes
  pub incoming : List Bytes
  pub ending : ReadError

-- The default size of bufio.NewReader's buffer.
abbrev pub buffer_size : ℕ
buffer_size = 4096

abbrev pub concat : List Bytes → Bytes
concat [] = []
concat (seg ∷ segs) = seg ++ concat segs

-- All the bytes that are still to be read, however they are cut into segments.
abbrev pub flat : Reader → Bytes
flat rd = rd.buffered ++ concat rd.incoming

abbrev pub push_line : ℕ → Option (Bytes × Bytes) → Option (Bytes × Bytes)
push_line c none = none
push_line c (some (line, rest)) = some (c ∷ line, rest)

-- The text up to the first '\n', it included, and the text behind it.
unfoldable pub cut_line : Bytes → Option (Bytes × Bytes)
cut_line [] = none
cut_line (c ∷ s) =
    let further = push_line c (cut_line s) in if c == b'\n' then some (c ∷ [], s) else further

-- The error of ReadSlice: nil, ErrBufferFull, or the connection's.
pub data SliceStatus : Type 0 where
  found : SliceStatus
  buffer_full : SliceStatus
  failed : ReadError → SliceStatus

pub record Slice : Type 0 where
  pub chunk : Bytes
  pub status : SliceStatus
  pub reader : Reader

unfoldable pub or_found : List Bytes → ReadError → Option (Bytes × Bytes) → Slice → Slice
or_found segs e none other = other
or_found segs e (some (line, rest)) other = record {
  chunk = line;
  status = found;
  reader = record { buffered = rest; incoming = segs; ending = e };
}

abbrev pub whole_buffer : Bytes → List Bytes → ReadError → SliceStatus → Slice
whole_buffer buf segs e status = record {
  chunk = buf;
  status = status;
  reader = record { buffered = []; incoming = segs; ending = e };
}

-- bufio's ReadSlice('\n'): search the buffer, report it full, or fill it by one read and search again.
-- A segment that does not fit is split, and fills the buffer up.
unfoldable pub read_slice_from : Bytes → List Bytes → ReadError → Slice
unfolding cut_line
read_slice_from buf [] e =
    or_found [] e (cut_line buf)
      (whole_buffer buf [] e (if leb buffer_size (length buf) then buffer_full else failed e))
read_slice_from buf (seg ∷ segs) e =
    let more = read_slice_from (buf ++ seg) segs e in
    let room = buffer_size - length buf in
    let filled = buf ++ take room seg in
    let left = drop room seg ∷ segs in
    or_found (seg ∷ segs) e (cut_line buf) (
      if leb buffer_size (length buf)
      then whole_buffer buf (seg ∷ segs) e buffer_full
      else if leb (length seg) room
      then more
      else or_found left e (cut_line filled) (whole_buffer filled left e buffer_full))

unfoldable pub read_slice : Reader → Slice
unfolding read_slice_from or_found
read_slice rd = read_slice_from rd.buffered rd.incoming rd.ending

-- The string or the error of readBoundedLine.
pub data LineResult : Type 0 where
  got : Bytes → LineResult
  refused : ReadError → LineResult
  out_of_fuel : LineResult

-- `len(line) >= 2 && line[len(line)-2] == '\r'`, on a line that ends in '\n'.
unfoldable pub ends_crlf : Bytes → Bool
ends_crlf [] = false
ends_crlf (c ∷ []) = false
ends_crlf (c ∷ d ∷ []) = c == b'\r'
ends_crlf (c ∷ d ∷ e ∷ s) = ends_crlf (d ∷ e ∷ s)

-- The inner loop, which drains an overlong line up to its end.
pub drain_step : (Reader → Reader) → SliceStatus → Reader → Reader
drain_step more found rd = rd
drain_step more buffer_full rd = more rd
drain_step more (failed e) rd = rd

unfoldable pub drain : ℕ → Reader → Reader
unfolding drain_step
drain zero rd = rd
drain (suc fuel) rd = let slice = read_slice rd in drain_step (drain fuel) slice.status slice.reader

-- The return at the end of the input.
pub at_end : Bytes → ReadError → LineResult
at_end [] e = refused e
at_end (c ∷ s) eof = refused missing_crlf
at_end (c ∷ s) e = refused e

abbrev pub framed : Bytes → LineResult
framed line = if ends_crlf line then got line else refused missing_crlf

-- One round of the outer loop behind its ReadSlice; `line` has the chunk, and `drained` and `more`
-- are what the loops go on with at ErrBufferFull. The flag is `len(line) > maxBytes`.
pub line_step :
    Bool
    → Bytes
    → SliceStatus
    → Reader
    → (Reader → Reader)
    → (Reader → LineResult × Reader)
    → LineResult × Reader
unfolding at_end
line_step true line found rd drained more = (refused line_too_long, rd)
line_step true line buffer_full rd drained more = (refused line_too_long, drained rd)
line_step true line (failed e) rd drained more = (refused line_too_long, rd)
line_step false line found rd drained more = (framed line, rd)
line_step false line buffer_full rd drained more = more rd
line_step false line (failed e) rd drained more = (at_end line e, rd)

unfoldable pub bounded_from : ℕ → ℕ → Bytes → Reader → LineResult × Reader
unfolding line_step
bounded_from zero max_bytes line rd = (out_of_fuel, rd)
bounded_from (suc fuel) max_bytes line rd =
    let slice = read_slice rd in
    let line' = line ++ slice.chunk in
    line_step (ltb max_bytes (length line')) line' slice.status slice.reader (drain fuel)
      (bounded_from fuel max_bytes line')

-- A round that goes on has taken a full buffer, so the bytes to come are fuel enough.
unfoldable pub read_bounded_line : ℕ → Reader → LineResult × Reader
unfolding bounded_from line_step drain read_slice ends_crlf
read_bounded_line max_bytes rd = bounded_from (suc (length (flat rd))) max_bytes [] rd

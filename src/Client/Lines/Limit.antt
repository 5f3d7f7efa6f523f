-- ===== src/Client/Lines/Limit.antt =====
-- readLine of managesieveclient/client.go ends on every stream, within the limit.
use go_managesieve.Common.{
  ℕ, zero, suc, ◌+◌, ◌≤◌, ◌<◌, ap, subst, ◌∙◌, Bool, true, false, [], ◌∷◌, ◌++◌, arith, Bytes, ltb,
  length, length-append, Bool-cases, inl, inr,
}
use go_managesieve.Server.Reader.{
  ReadError, Reader, flat, SliceStatus, found, buffer_full, failed, read_slice, LineResult, got,
  refused, out_of_fuel,
}
use go_managesieve.Server.Reader.Slices.{Outcome, read_slice-Takes}
use go_managesieve.Client.Lines.{
  line, part, strip_line, hold_cr, put_back, full_chunk, chunk_of, read_chunk, chunk_step,
  line_from, read_response_line,
}
use go_managesieve.Client.Lines.Stream.{Held, hold_cr-Held}

-- A line within the limit, or an error.
abbrev pub WithinLimit : ℕ → LineResult → Type 0
WithinLimit max_line (got l) = length l ≤ max_line
WithinLimit max_line (refused e) = Unit
WithinLimit max_line out_of_fuel = ⊥

chunk_step-line :
    (max_line : ℕ) (so_far s : Bytes) (more : Bytes → Reader → LineResult × Reader) (rd : Reader)
    → WithinLimit max_line (chunk_step max_line so_far more (line s, rd)).0
unfolding chunk_step
chunk_step-line max_line so_far s more rd =
    elim (Bool-cases (ltb max_line (length (so_far ++ s)))) [
      | inl p ↦ rw p tt
      | inr p ↦ rw p (ground arith)
    ]

chunk_step-part :
    (max_line : ℕ) (so_far s : Bytes) (more : Bytes → Reader → LineResult × Reader) (rd : Reader)
    → WithinLimit max_line (more (so_far ++ s) rd).0
    → WithinLimit max_line (chunk_step max_line so_far more (part s, rd)).0
unfolding chunk_step
chunk_step-part max_line so_far s more rd h =
    elim (Bool-cases (ltb max_line (length (so_far ++ s)))) [ inl p ↦ rw p tt | inr p ↦ rw p h ]

module _ (max_line : ℕ) (more : Bytes → Reader → LineResult × Reader) where
  abbrev Later : ℕ → Type 0
  Later n =
      (so_far : Bytes) (rd : Reader)
      → length (flat rd) < n
      → WithinLimit max_line (more so_far rd).0

  full_chunk-WithinLimit :
      (r : Bytes × Bool) (so_far chunk : Bytes) (rd : Reader)
      → Held chunk r
      → 2 ≤ length chunk
      → Later (length chunk + length (flat rd))
      → WithinLimit max_line (chunk_step max_line so_far more (full_chunk r rd)).0
  unfolding full_chunk
  full_chunk-WithinLimit (kept, true) so_far chunk rd held long later =
      chunk_step-part max_line so_far kept more (put_back rd)
        (later (so_far ++ kept) (put_back rd) (omega arith))
  full_chunk-WithinLimit (kept, false) so_far chunk rd held long later =
      chunk_step-part max_line so_far kept more rd (later (so_far ++ kept) rd (omega arith))

  chunk_of-WithinLimit :
      (st : SliceStatus) (so_far s chunk : Bytes) (rd : Reader) (e : ReadError)
      → Outcome s e chunk (flat rd) st
      → Later (length s)
      → WithinLimit max_line (chunk_step max_line so_far more (chunk_of st chunk rd)).0
  unfolding chunk_of
  chunk_of-WithinLimit found so_far s chunk rd e o later =
      chunk_step-line max_line so_far (strip_line chunk) more rd
  chunk_of-WithinLimit (failed e') so_far s [] rd e o later = unfold chunk_step in tt
  chunk_of-WithinLimit (failed e') so_far s (c ∷ chunk) rd e o later =
      chunk_step-line max_line so_far (strip_line (c ∷ chunk)) more rd
  chunk_of-WithinLimit buffer_full so_far s chunk rd e (o, n, long) later =
      full_chunk-WithinLimit (hold_cr chunk) so_far chunk rd (hold_cr-Held chunk)
        (omega (arith, long)) (subst Later (ap length o ∙ length-append chunk (flat rd)) later)

line_from-WithinLimit :
    (fuel max_line : ℕ) (so_far : Bytes) (rd : Reader)
    → length (flat rd) < fuel
    → WithinLimit max_line (line_from fuel max_line so_far rd).0
unfolding line_from read_chunk
line_from-WithinLimit zero max_line so_far rd h = absurd (omega arith)
line_from-WithinLimit (suc fuel) max_line so_far rd h =
    let slice = read_slice rd in
    chunk_of-WithinLimit max_line (line_from fuel max_line) slice.status so_far (flat rd)
      slice.chunk slice.reader rd.ending (read_slice-Takes rd).cut
      (λ so_far' rd' less. line_from-WithinLimit fuel max_line so_far' rd' (omega arith))

-- readLine ends on every stream, with a line of at most MaxLineLength bytes or with an error.
pub read_response_line-WithinLimit :
    (max_line : ℕ) (rd : Reader) → WithinLimit max_line (read_response_line max_line rd).0
unfolding read_response_line
read_response_line-WithinLimit max_line rd =
    line_from-WithinLimit (suc (length (flat rd))) max_line [] rd (omega arith)

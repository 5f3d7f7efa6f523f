-- ===== src/Server/Reader/Lines.antt =====
-- readBoundedLine against a reading of the unsegmented stream.
use go_managesieve.Common.{
  ℕ, zero, suc, ◌<◌, ◌≡◌, refl, sym, ◌∙◌, ap, ap, true, [], ◌++◌, append_assoc, Option, none, some,
  arith, Bytes, ltb, if◌then◌else◌, length, length-append, Bool-cases, inl, inr,
}
use go_managesieve.Server.Reader.{
  ReadError, line_too_long, Reader, flat, cut_line, SliceStatus, found, buffer_full, failed,
  read_slice, LineResult, refused, framed, at_end, drain, drain_step, line_step, bounded_from,
  read_bounded_line,
}
use go_managesieve.Server.Reader.Slices.{
  Outcome, behind, extended, cut_line-append, read_slice-Takes,
}

-- The specification: find the first line of the stream, then check its length and its framing.
abbrev pub flat_result : ℕ → ReadError → Bytes → Option (Bytes × Bytes) → LineResult × Bytes
flat_result max_bytes e s (some (line, rest)) =
    (if ltb max_bytes (length line) then refused line_too_long else framed line, rest)
flat_result max_bytes e s none =
    (if ltb max_bytes (length s) then refused line_too_long else at_end s e, [])

unfoldable pub flat_line : ℕ → ReadError → Bytes → LineResult × Bytes
flat_line max_bytes e s = flat_result max_bytes e s (cut_line s)

-- A result with a reader, seen without the segments.
abbrev pub seen : LineResult × Reader → LineResult × Bytes
seen (result, rd) = (result, flat rd)

abbrev rest_of : Option (Bytes × Bytes) → Bytes
rest_of none = []
rest_of (some (l, r)) = r

rest_of-behind : (a : Bytes) (y : Option (Bytes × Bytes)) → rest_of (behind a y) ≡ rest_of y
rest_of-behind a none = refl
rest_of-behind a (some (l, r)) = refl

pub cut_line-behind : (a t : Bytes) → cut_line a ≡ none → cut_line (a ++ t) ≡ behind a (cut_line t)
cut_line-behind a t n = cut_line-append a t ∙ ap (extended a t) n

drain_step-flat :
    (more : Reader → Reader) (st : SliceStatus) (rd : Reader) (s : Bytes) (e : ReadError)
    (chunk : Bytes)
    → Outcome s e chunk (flat rd) st
    → (0 < length chunk → s ≡ chunk ++ flat rd → flat (more rd) ≡ rest_of (cut_line (flat rd)))
    → flat (drain_step more st rd) ≡ rest_of (cut_line s)
unfolding drain_step
drain_step-flat more found rd s e chunk o k = sym (ap rest_of o)
drain_step-flat more buffer_full rd s e chunk (o, n, pos) k =
    k (omega (arith, pos)) o
    ∙ sym (
        ap (λ t. rest_of (cut_line t)) o
        ∙ ap rest_of (cut_line-behind chunk (flat rd) n)
        ∙ rest_of-behind chunk (cut_line (flat rd)))
drain_step-flat more (failed e') rd s e chunk (o, r, n, _) k =
    r ∙ sym (ap (λ t. rest_of (cut_line t)) o ∙ ap rest_of n)

drain-suc :
    (fuel : ℕ) (rd : Reader)
    → drain (suc fuel) rd ≡ drain_step (drain fuel) (read_slice rd).status (read_slice rd).reader
unfolding drain
drain-suc fuel rd = refl

-- The drained reader stands behind the end of the line.
drain-flat :
    (fuel : ℕ) (rd : Reader)
    → length (flat rd) < fuel
    → flat (drain fuel rd) ≡ rest_of (cut_line (flat rd))
drain-flat zero rd h = absurd (omega arith)
drain-flat (suc fuel) rd h =
    let slice = read_slice rd in
    ap flat (drain-suc fuel rd)
    ∙ drain_step-flat (drain fuel) slice.status slice.reader (flat rd) rd.ending slice.chunk
        (read_slice-Takes rd).cut
        (λ pos o.
          drain-flat fuel slice.reader
            (omega (arith, ap length o, length-append {0} slice.chunk (flat slice.reader))))

over-behind :
    (max_bytes : ℕ) (e : ReadError) (a t : Bytes) (y : Option (Bytes × Bytes))
    → ltb max_bytes (length a) ≡ true
    → flat_result max_bytes e (a ++ t) (behind a y) ≡ (refused line_too_long, rest_of y)
over-behind max_bytes e a t none h = ground (arith, length-append a t)
over-behind max_bytes e a t (some (l, r)) h = ground (arith, length-append a l)

module _ (max_bytes : ℕ) (e : ReadError) (pre : Bytes) (clean : cut_line pre ≡ none) where
  cut_line-pre : (s : Bytes) → cut_line (pre ++ s) ≡ behind pre (cut_line s)
  cut_line-pre s = cut_line-behind pre s clean

  clean-append : (chunk : Bytes) → cut_line chunk ≡ none → cut_line (pre ++ chunk) ≡ none
  clean-append chunk n = cut_line-pre chunk ∙ ap (behind pre) n

  line_step-flat :
      (st : SliceStatus) (rd : Reader) (s chunk : Bytes) (drained : Reader → Reader)
      (more : Reader → LineResult × Reader)
      → Outcome s e chunk (flat rd) st
      → (0 < length chunk → s ≡ chunk ++ flat rd → flat (drained rd) ≡ rest_of (cut_line (flat rd)))
      → (0 < length chunk
          → s ≡ chunk ++ flat rd
          → cut_line (pre ++ chunk) ≡ none
          → seen (more rd) ≡ flat_line max_bytes e ((pre ++ chunk) ++ flat rd))
      → seen (line_step (ltb max_bytes (length (pre ++ chunk))) (pre ++ chunk) st rd drained more)
        ≡ flat_line max_bytes e (pre ++ s)
  unfolding line_step flat_line
  line_step-flat found rd s chunk drained more o kd km =
      let cut : cut_line (pre ++ s) ≡ some (pre ++ chunk, flat rd) =
        cut_line-pre s ∙ ap (behind pre) o in
      rw cut
        (elim (Bool-cases (ltb max_bytes (length (pre ++ chunk)))) [ inl t ↦ rw t | inr t ↦ rw t ])
  line_step-flat buffer_full rd s chunk drained more (o, n, pos) kd km =
      let stream : (pre ++ chunk) ++ flat rd ≡ pre ++ s =
        append_assoc pre chunk (flat rd) ∙ ap (λ t. pre ++ t) (sym o) in
      let clean' = clean-append chunk n in
      elim (Bool-cases (ltb max_bytes (length (pre ++ chunk)))) [
        | inl t ↦ rw t (
            ap (λ x. (refused line_too_long, x)) (kd (omega (arith, pos)) o)
            ∙ sym (over-behind max_bytes e (pre ++ chunk) (flat rd) (cut_line (flat rd)) t)
            ∙ ap (flat_result max_bytes e ((pre ++ chunk) ++ flat rd))
                (sym (cut_line-behind (pre ++ chunk) (flat rd) clean'))
            ∙ ap (flat_line max_bytes e) stream)
        | inr t ↦ rw t (km (omega (arith, pos)) o clean' ∙ ap (flat_line max_bytes e) stream)
      ]
  line_step-flat (failed e') rd s chunk drained more (o, r, n, ee) kd km =
      rw (o, clean-append chunk n)
        (elim (Bool-cases (ltb max_bytes (length (pre ++ chunk)))) [
          | inl t ↦ rw t (ap (λ x. (refused line_too_long, x)) r)
          | inr t ↦ rw t (
              ap (λ x. (at_end (pre ++ chunk) x, flat rd)) ee
              ∙ ap (λ x. (at_end (pre ++ chunk) e, x)) r)
        ])

bounded_from-suc :
    (fuel max_bytes : ℕ) (line : Bytes) (rd : Reader)
    → let slice = read_slice rd in
      let line' = line ++ slice.chunk in
      bounded_from (suc fuel) max_bytes line rd
      ≡ line_step
          (ltb max_bytes (length line'))
          line'
          slice.status
          slice.reader
          (drain fuel)
          (bounded_from fuel max_bytes line')
unfolding bounded_from
bounded_from-suc fuel max_bytes line rd = refl

bounded_from-flat_line :
    (fuel max_bytes : ℕ) (line : Bytes) (rd : Reader)
    → length (flat rd) < fuel
    → cut_line line ≡ none
    → seen (bounded_from fuel max_bytes line rd) ≡ flat_line max_bytes rd.ending (line ++ flat rd)
bounded_from-flat_line zero max_bytes line rd h n = absurd (omega arith)
bounded_from-flat_line (suc fuel) max_bytes line rd h n =
    let slice = read_slice rd in
    let takes = read_slice-Takes rd in
    ap seen (bounded_from-suc fuel max_bytes line rd)
    ∙ line_step-flat max_bytes rd.ending line n slice.status slice.reader (flat rd) slice.chunk
        (drain fuel) (bounded_from fuel max_bytes (line ++ slice.chunk)) takes.cut
        (λ pos o.
          drain-flat fuel slice.reader
            (omega (arith, ap length o, length-append {0} slice.chunk (flat slice.reader))))
        (λ pos o n'.
          bounded_from-flat_line fuel max_bytes (line ++ slice.chunk) slice.reader
            (omega (arith, ap length o, length-append {0} slice.chunk (flat slice.reader))) n'
          ∙ ap (λ e. flat_line max_bytes e ((line ++ slice.chunk) ++ flat slice.reader))
              takes.keeps)

read_bounded_line_lem :
    (max_bytes : ℕ) (rd : Reader)
    → read_bounded_line max_bytes rd ≡ bounded_from (suc (length (flat rd))) max_bytes [] rd
unfolding read_bounded_line
read_bounded_line_lem max_bytes rd = refl

pub cut_line-nil : cut_line [] ≡ none
unfolding cut_line
cut_line-nil = refl

-- The line or the error that readBoundedLine returns, and the stream that it leaves, are those of the
-- specification on the unsegmented stream: the loops end, and no segment boundary shows.
pub read_bounded_line-flat_line :
    (max_bytes : ℕ) (rd : Reader)
    → seen (read_bounded_line max_bytes rd) ≡ flat_line max_bytes rd.ending (flat rd)
read_bounded_line-flat_line max_bytes rd =
    ap seen (read_bounded_line_lem max_bytes rd)
    ∙ bounded_from-flat_line (suc (length (flat rd))) max_bytes [] rd (omega arith) cut_line-nil

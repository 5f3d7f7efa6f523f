-- ===== src/Client/Lines/Stream.antt =====
-- readLine of managesieveclient/client.go on the unsegmented stream.
use go_managesieve.Common.{
  ℕ, zero, suc, ◌+◌, ◌≤◌, ◌<◌, ◌≡◌, refl, sym, ◌∙◌, ap, subst, Bool, true, false, [], ◌∷◌, ◌++◌,
  append_assoc, Option, none, some, arith, Bytes, ltb, ◌==◌, if◌then◌else◌, length, length-append,
  Bool-cases, inl, inr,
}
use go_managesieve.Server.Reader.{
  ReadError, line_too_long, Reader, flat, cut_line, push_line, SliceStatus, found, buffer_full,
  failed, read_slice, LineResult, got, refused,
}
use go_managesieve.Server.Reader.Slices.{Outcome, behind, read_slice-Takes}
use go_managesieve.Server.Reader.Lines.{seen, cut_line-behind}
use go_managesieve.Client.Lines.{
  line, part, strip_line, hold_cr, put_back, full_chunk, chunk_of, read_chunk, chunk_step,
  line_from, read_response_line,
}

-- What a held-back '\r' means for the line.
abbrev pub Held : Bytes → Bytes × Bool → Type 0
Held s (kept, true) = s ≡ kept ++ b'\r' ∷ []
Held s (kept, false) =
    (s ≡ kept) × ((c : ℕ) (y : Bytes) → strip_line (s ++ c ∷ y) ≡ s ++ strip_line (c ∷ y))

Held-cons :
    (c d : ℕ) (s : Bytes) (r : Bytes × Bool) → Held (d ∷ s) r → Held (c ∷ d ∷ s) (c ∷ r.0, r.1)
unfolding strip_line
Held-cons c d s (kept, true) h = ap (◌∷◌ c) h
Held-cons c d [] (kept, false) (h, k) = (ap (◌∷◌ c) h, λ e y. ap (◌∷◌ c) (k e y))
Held-cons c d (e ∷ s) (kept, false) (h, k) = (ap (◌∷◌ c) h, λ e y. ap (◌∷◌ c) (k e y))

strip_line-one :
    (c d : ℕ) (y : Bytes) → (c == b'\r') ≡ false → strip_line (c ∷ d ∷ y) ≡ c ∷ strip_line (d ∷ y)
unfolding strip_line
strip_line-one c d [] h = ground arith
strip_line-one c d (e ∷ y) h = refl

pub hold_cr-Held : (s : Bytes) → Held s (hold_cr s)
unfolding hold_cr
hold_cr-Held [] = (refl, λ c y. refl)
hold_cr-Held (c ∷ []) = elim (Bool-cases (c == b'\r')) [
  | inl p ↦ rw p (ground arith)
  | inr p ↦ rw p (refl, λ d y. strip_line-one c d y p)
]
hold_cr-Held (c ∷ d ∷ s) = Held-cons c d s (hold_cr (d ∷ s)) (hold_cr-Held (d ∷ s))

-- What stands in front of two bytes at least is kept.
pub strip_line-append :
    (x : Bytes) (c d : ℕ) (y : Bytes) → strip_line (x ++ c ∷ d ∷ y) ≡ x ++ strip_line (c ∷ d ∷ y)
unfolding strip_line
strip_line-append [] c d y = refl
strip_line-append (a ∷ []) c d y = refl
strip_line-append (a ∷ b ∷ []) c d y = refl
strip_line-append (a ∷ b ∷ e ∷ x) c d y = ap (◌∷◌ a) (strip_line-append (b ∷ e ∷ x) c d y)

behind-some :
    (a : Bytes) (y : Option (Bytes × Bytes)) (raw rest : Bytes)
    → behind a y ≡ some (raw, rest)
    → (raw' : Bytes) × (y ≡ some (raw', rest)) × (raw ≡ a ++ raw')
behind-some a none raw rest h = absurd (ground arith)
behind-some a (some (l, r)) raw rest h = (l, cc, cc)

-- A line that is cut off has a byte at least.
abbrev Begins : Option (Bytes × Bytes) → Type 0
Begins none = Unit
Begins (some (l, r)) = (c : ℕ) × (l' : Bytes) × (l ≡ c ∷ l')

push_line-Begins : (c : ℕ) (y : Option (Bytes × Bytes)) → Begins (push_line c y)
push_line-Begins c none = tt
push_line-Begins c (some (l, r)) = (c, l, refl)

cut_line-Begins : (s : Bytes) → Begins (cut_line s)
unfolding cut_line
cut_line-Begins [] = tt
cut_line-Begins (c ∷ s) = elim (Bool-cases (c == b'\n')) [
  | inl e ↦ rw e (c, [], refl)
  | inr e ↦ rw e (push_line-Begins c (cut_line s))
]

cut_line-some :
    (s : Bytes) {l r : Bytes} → cut_line s ≡ some (l, r) → (c : ℕ) × (l' : Bytes) × (l ≡ c ∷ l')
cut_line-some s h = subst Begins h (cut_line-Begins s)

-- The specification: the line without its end, unless it is too long.
abbrev pub Reads : ℕ → Bytes → Bytes → LineResult × Bytes → Type 0
Reads max_line l rest r =
    if ltb max_line (length l) then r.0 ≡ refused line_too_long else r ≡ (got l, rest)

Reads-too_long :
    (max_line : ℕ) (l rest left : Bytes)
    → ltb max_line (length l) ≡ true
    → Reads max_line l rest (refused line_too_long, left)
Reads-too_long max_line l rest left p = rw p refl

chunk_step-part :
    (max_line : ℕ) (so_far s l rest : Bytes) (more : Bytes → Reader → LineResult × Reader)
    (rd : Reader)
    → length (so_far ++ s) ≤ length l
    → Reads max_line l rest (seen (more (so_far ++ s) rd))
    → Reads max_line l rest (seen (chunk_step max_line so_far more (part s, rd)))
unfolding chunk_step
chunk_step-part max_line so_far s l rest more rd le h =
    elim (Bool-cases (ltb max_line (length (so_far ++ s)))) [
      | inl p ↦ rw p (Reads-too_long max_line l rest (flat rd) (ground arith))
      | inr p ↦ rw p h
    ]

chunk_step-line :
    (max_line : ℕ) (so_far s : Bytes) (more : Bytes → Reader → LineResult × Reader) (rd : Reader)
    → Reads max_line (so_far ++ s) (flat rd) (seen (chunk_step max_line so_far more (line s, rd)))
unfolding chunk_step
chunk_step-line max_line so_far s more rd =
    elim (Bool-cases (ltb max_line (length (so_far ++ s)))) [
      | inl p ↦ rw p refl
      | inr p ↦ rw p refl
    ]

cut_line-return :
    (s : Bytes) {l r : Bytes}
    → cut_line s ≡ some (l, r)
    → cut_line (b'\r' ∷ s) ≡ some (b'\r' ∷ l, r)
unfolding cut_line
cut_line-return s h = rw h refl

module _ (max_line : ℕ) (rest : Bytes) (more : Bytes → Reader → LineResult × Reader) where
  -- What the later rounds do with a stream of less than `n` bytes.
  abbrev Later : ℕ → Type 0
  Later n =
      (so_far raw : Bytes) (rd : Reader)
      → length (flat rd) < n
      → cut_line (flat rd) ≡ some (raw, rest)
      → Reads max_line (so_far ++ strip_line raw) rest (seen (more so_far rd))

  full-Reads :
      (r : Bytes × Bool) (so_far chunk raw' : Bytes) (rd : Reader)
      → Held chunk r
      → 2 ≤ length chunk
      → cut_line (flat rd) ≡ some (raw', rest)
      → Later (length chunk + length (flat rd))
      → Reads max_line
          (so_far ++ strip_line (chunk ++ raw'))
          rest
          (seen (chunk_step max_line so_far more (full_chunk r rd)))
  unfolding full_chunk
  full-Reads (kept, true) so_far chunk raw' rd held long cut later =
      let (c, l, e) = cut_line-some (flat rd) cut in
      let whole : so_far ++ strip_line (chunk ++ raw')
          ≡ (so_far ++ kept) ++ strip_line (b'\r' ∷ raw') =
        rw (held, append_assoc kept (b'\r' ∷ []) raw', e, strip_line-append kept b'\r' c l)
          (sym (append_assoc so_far kept _)) in
      subst
        (λ t.
          Reads max_line t rest (seen (chunk_step max_line so_far more (part kept, put_back rd))))
        (sym whole)
        (chunk_step-part max_line so_far kept _ rest more (put_back rd)
          (omega (arith, length-append {0} (so_far ++ kept) (strip_line (b'\r' ∷ raw'))))
          (later (so_far ++ kept) (b'\r' ∷ raw') (put_back rd) (omega arith)
            (cut_line-return (flat rd) cut)))
  full-Reads (kept, false) so_far chunk raw' rd (same, keeps) long cut later =
      let (c, l, e) = cut_line-some (flat rd) cut in
      let whole : so_far ++ strip_line (chunk ++ raw') ≡ (so_far ++ kept) ++ strip_line raw' =
        rw (e, keeps c l, same) (sym (append_assoc so_far kept _)) in
      subst (λ t. Reads max_line t rest (seen (chunk_step max_line so_far more (part kept, rd))))
        (sym whole)
        (chunk_step-part max_line so_far kept _ rest more rd
          (omega (arith, length-append {0} (so_far ++ kept) (strip_line raw')))
          (later (so_far ++ kept) raw' rd (omega arith) cut))

  round-Reads :
      (st : SliceStatus) (so_far s chunk raw : Bytes) (rd : Reader) (e : ReadError)
      → Outcome s e chunk (flat rd) st
      → cut_line s ≡ some (raw, rest)
      → Later (length s)
      → Reads max_line
          (so_far ++ strip_line raw)
          rest
          (seen (chunk_step max_line so_far more (chunk_of st chunk rd)))
  unfolding chunk_of
  round-Reads found so_far s chunk raw rd e o cut later =
      let same : raw ≡ chunk = cc in
      let left : rest ≡ flat rd = cc in
      rw (same, left) (chunk_step-line max_line so_far (strip_line chunk) more rd)
  round-Reads (failed e') so_far s chunk raw rd e (o, r, n, ee) cut later =
      absurd (let clash : some (raw, rest) ≡ none = sym cut ∙ ap cut_line o ∙ n in ground arith)
  round-Reads buffer_full so_far s chunk raw rd e (o, n, long) cut later =
      let (raw', cut', whole) =
        behind-some chunk (cut_line (flat rd)) raw rest
          (sym (cut_line-behind chunk (flat rd) n) ∙ ap cut_line (sym o) ∙ cut) in
      rw whole (
        full-Reads (hold_cr chunk) so_far chunk raw' rd (hold_cr-Held chunk) (omega (arith, long))
          cut' (subst Later (ap length o ∙ length-append chunk (flat rd)) later))

line_from-Reads :
    (fuel max_line : ℕ) (so_far : Bytes) (rd : Reader) (raw rest : Bytes)
    → length (flat rd) < fuel
    → cut_line (flat rd) ≡ some (raw, rest)
    → Reads max_line (so_far ++ strip_line raw) rest (seen (line_from fuel max_line so_far rd))
unfolding line_from read_chunk
line_from-Reads zero max_line so_far rd raw rest h cut = absurd (omega arith)
line_from-Reads (suc fuel) max_line so_far rd raw rest h cut =
    let slice = read_slice rd in
    round-Reads max_line rest (line_from fuel max_line) slice.status so_far (flat rd) slice.chunk
      raw slice.reader rd.ending (read_slice-Takes rd).cut cut
      (λ so_far' raw' rd' less cut'.
        line_from-Reads fuel max_line so_far' rd' raw' rest (omega arith) cut')

-- The line that is read is the stream's first line without its end, however the stream is segmented
-- and the buffer filled, and the stream goes on behind it; a line over the limit is refused.
pub read_response_line-Reads :
    (max_line : ℕ) (rd : Reader) (raw rest : Bytes)
    → cut_line (flat rd) ≡ some (raw, rest)
    → Reads max_line (strip_line raw) rest (seen (read_response_line max_line rd))
unfolding read_response_line
read_response_line-Reads max_line rd raw rest cut =
    line_from-Reads (suc (length (flat rd))) max_line [] rd raw rest (omega arith) cut

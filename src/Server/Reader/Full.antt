-- ===== src/Server/Reader/Full.antt =====
-- io.ReadFull over the buffered reader: it takes what it needs of the stream, and fails if the
-- stream is shorter.
use go_managesieve.Common.{
  ℕ, zero, suc, ◌+◌, ◌-◌, ◌≤◌, ◌<◌, ◌≡◌, refl, sym, ◌∙◌, ap, false, List, [], ◌∷◌, ◌++◌,
  append_assoc, append-nil, arith, Bytes, leb, ◌==◌, if◌then◌else◌, length, length-append,
  Bool-cases, inl, inr, take, drop, take-append-drop, take-append_le, drop-append_le,
  take-append_ge, drop-append_ge, leb→le, le→leb, length-take,
}
use go_managesieve.Server.Reader.{
  ReadError, eof, unexpected_eof, Reader, buffer_size, concat, flat, LineResult, got, refused,
}
use go_managesieve.Server.Reader.Lines.{seen}

-- The error of a read that came short, by what had been read.
abbrev short : Bytes → ReadError → ReadError
short [] e = e
short (c ∷ s) eof = unexpected_eof
short (c ∷ s) e = e

-- A segment that is read up leaves nothing behind.
abbrev keep_rest : Bytes → List Bytes → List Bytes
keep_rest [] segs = segs
keep_rest (c ∷ s) segs = (c ∷ s) ∷ segs

-- The loop with an empty buffer: a request of at least a buffer's size reads straight into its
-- target, a smaller one fills the buffer first.
unfoldable pub full_from : ℕ → Bytes → List Bytes → ReadError → LineResult × Reader
full_from need done [] e = (
  if need == 0 then got done else refused (short done e),
  record { buffered = []; incoming = []; ending = e },
)
full_from need done (seg ∷ segs) e =
    let more = full_from (need - length seg) (done ++ seg) segs e in
    if need == 0
    then (got done, record { buffered = []; incoming = seg ∷ segs; ending = e })
    else if leb (length seg) need
    then more
    else if leb buffer_size need
    then (
      got (done ++ take need seg),
      record { buffered = []; incoming = drop need seg ∷ segs; ending = e },
    )
    else (
      got (done ++ take need seg),
      record {
        buffered = drop need (take buffer_size seg);
        incoming = keep_rest (drop buffer_size seg) segs;
        ending = e;
      },
    )

unfoldable pub read_full : ℕ → Reader → LineResult × Reader
unfolding full_from
read_full need rd =
    if leb need (length rd.buffered)
    then (got (take need rd.buffered), record rd { buffered = drop need rd.buffered })
    else full_from (need - length rd.buffered) rd.buffered rd.incoming rd.ending

-- The specification on the unsegmented stream.
unfoldable pub flat_full : ℕ → ReadError → Bytes → LineResult × Bytes
flat_full need e s =
    if leb need (length s) then (got (take need s), drop need s) else (refused (short s e), [])

concat-keep_rest : (s : Bytes) (segs : List Bytes) → concat (keep_rest s segs) ≡ s ++ concat segs
concat-keep_rest [] segs = refl
concat-keep_rest (c ∷ s) segs = refl

flat_full-le :
    (need : ℕ) (e : ReadError) (s : Bytes)
    → need ≤ length s
    → flat_full need e s ≡ (got (take need s), drop need s)
unfolding flat_full
flat_full-le need e s h = rw (le→leb _ _ h)

flat_full-short :
    (need : ℕ) (e : ReadError) (s : Bytes)
    → length s < need
    → flat_full need e s ≡ (refused (short s e), [])
unfolding flat_full
flat_full-short need e s h = elim (Bool-cases (leb need (length s))) [
  | inl p ↦ absurd (omega (arith, leb→le _ _ p))
  | inr p ↦ rw p
]

flat_full-enough :
    (need : ℕ) (e : ReadError) (done s : Bytes)
    → need ≤ length s
    → flat_full (length done + need) e (done ++ s) ≡ (got (done ++ take need s), drop need s)
flat_full-enough need e done s h =
    let k : length done + need - length done ≡ need = omega arith in
    flat_full-le (length done + need) e (done ++ s) (omega (arith, length-append {0} done s))
    ∙ rw (
      take-append_ge (length done + need) done s (omega arith),
      drop-append_ge (length done + need) done s (omega arith),
      k,
    )

-- The end of a round that has all it needs from the segment.
last_round :
    (need : ℕ) (done seg rest left : Bytes) (e : ReadError)
    → need ≤ length seg
    → left ≡ drop need seg ++ rest
    → ◌≡◌ {A = LineResult × Bytes}
        (got (done ++ take need seg), left)
        (flat_full (length done + need) e (done ++ (seg ++ rest)))
last_round need done seg rest left e h k =
    ap (λ x. (got (done ++ take need seg), x)) k
    ∙ sym (
        flat_full-enough need e done (seg ++ rest) (omega (arith, length-append {0} seg rest))
        ∙ rw (take-append_le need seg rest h, drop-append_le need seg rest h))

filled_rest :
    (need : ℕ) (seg : Bytes) (segs : List Bytes)
    → need ≤ length seg
    → need ≤ buffer_size
    → drop need (take buffer_size seg) ++ concat (keep_rest (drop buffer_size seg) segs)
      ≡ drop need seg ++ concat segs
filled_rest need seg segs h k =
    ap (λ x. drop need (take buffer_size seg) ++ x) (concat-keep_rest (drop buffer_size seg) segs)
    ∙ sym (append_assoc (drop need (take buffer_size seg)) (drop buffer_size seg) (concat segs))
    ∙ ap (λ x. x ++ concat segs)
        (sym (
            drop-append_le need (take buffer_size seg) (drop buffer_size seg)
              (omega (arith, length-take {0} buffer_size seg)))
          ∙ ap (drop need) (take-append-drop buffer_size seg))

suc-ne-zero : (n : ℕ) → (suc n == 0) ≡ false
suc-ne-zero n = ground arith

full_from-flat :
    (need : ℕ) (done : Bytes) (segs : List Bytes) (e : ReadError)
    → seen (full_from need done segs e) ≡ flat_full (length done + need) e (done ++ concat segs)
unfolding full_from
full_from-flat zero done [] e =
    sym (flat_full-enough zero e done [] (omega arith) ∙ ap (λ x. (got x, [])) (append-nil done))
full_from-flat (suc n) done [] e = rw (suc-ne-zero n) (
    sym (
      ap (flat_full (length done + suc n) e) (append-nil done)
      ∙ flat_full-short (length done + suc n) e done (omega arith)))
full_from-flat zero done (seg ∷ segs) e = sym (
    flat_full-enough zero e done (seg ++ concat segs) (omega arith)
    ∙ ap (λ x. (got x, seg ++ concat segs)) (append-nil done))
full_from-flat (suc n) done (seg ∷ segs) e =
    rw (suc-ne-zero n) (elim (Bool-cases (leb (length seg) (suc n))) [
      | inl p ↦
          let k : length (done ++ seg) + (suc n - length seg) ≡ length done + suc n =
            omega (arith, length-append {0} done seg, leb→le _ _ p) in
          rw p (
            full_from-flat (suc n - length seg) (done ++ seg) segs e
            ∙ ap (λ m. flat_full m e ((done ++ seg) ++ concat segs)) k
            ∙ ap (flat_full (length done + suc n) e) (append_assoc done seg (concat segs)))
      | inr p ↦ rw p (elim (Bool-cases (leb buffer_size (suc n))) [
        | inl q ↦ rw q (last_round (suc n) done seg (concat segs) _ e (ground arith) refl)
        | inr q ↦ rw q (
            last_round (suc n) done seg (concat segs) _ e (ground arith)
              (filled_rest (suc n) seg segs (ground arith) (ground arith)))
      ])
    ])

-- The bytes or the error of ReadFull, and the stream that it leaves, are those of the specification on
-- the unsegmented stream.
pub read_full-flat_full :
    (need : ℕ) (rd : Reader) → seen (read_full need rd) ≡ flat_full need rd.ending (flat rd)
unfolding read_full
read_full-flat_full need rd = elim (Bool-cases (leb need (length rd.buffered))) [
  | inl p ↦
      let k : length {A = ℕ} [] + need ≡ need = omega arith in
      rw p (
        last_round need [] rd.buffered (concat rd.incoming) _ rd.ending (leb→le _ _ p) refl
        ∙ ap (λ m. flat_full m rd.ending (flat rd)) k)
  | inr p ↦
      let k : length rd.buffered + (need - length rd.buffered) ≡ need = ground arith in
      rw p (
        full_from-flat (need - length rd.buffered) rd.buffered rd.incoming rd.ending
        ∙ ap (λ m. flat_full m rd.ending (flat rd)) k)
]

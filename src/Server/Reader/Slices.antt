-- ===== src/Server/Reader/Slices.antt =====
-- ReadSlice on the unsegmented stream.
use go_managesieve.Common.{
  ℕ, ◌-◌, ◌≤◌, ◌≡◌, refl, sym, ◌∙◌, ap, subst, leb→le, false, List, [], ◌∷◌, ◌++◌, append_assoc,
  append-nil, Option, none, some, arith, Bytes, leb, ◌==◌, length, length-append, take, drop,
  take-append-drop, length-take, Bool-cases, Option-cases, inl, inr,
}
use go_managesieve.Server.Reader.{
  ReadError, Reader, buffer_size, concat, flat, push_line, cut_line, SliceStatus, found,
  buffer_full, failed, Slice, or_found, whole_buffer, read_slice_from, read_slice,
}

-- What a cut makes of a text in front of which another, without a '\n', is put.
abbrev pub behind : Bytes → Option (Bytes × Bytes) → Option (Bytes × Bytes)
behind a none = none
behind a (some (l, r)) = some (a ++ l, r)

-- The cut of `a ++ b` from the cut of `a`.
abbrev pub extended : Bytes → Bytes → Option (Bytes × Bytes) → Option (Bytes × Bytes)
extended a b none = behind a (cut_line b)
extended a b (some (l, r)) = some (l, r ++ b)

push_line-behind :
    (c : ℕ) (a : Bytes) (y : Option (Bytes × Bytes)) → push_line c (behind a y) ≡ behind (c ∷ a) y
push_line-behind c a none = refl
push_line-behind c a (some (l, r)) = refl

push_line-extended :
    (c : ℕ) (a b : Bytes) (x : Option (Bytes × Bytes))
    → push_line c (extended a b x) ≡ extended (c ∷ a) b (push_line c x)
push_line-extended c a b none = push_line-behind c a (cut_line b)
push_line-extended c a b (some (l, r)) = refl

behind-nil : (y : Option (Bytes × Bytes)) → y ≡ behind [] y
behind-nil none = refl
behind-nil (some (l, r)) = refl

pub cut_line-append : (a b : Bytes) → cut_line (a ++ b) ≡ extended a b (cut_line a)
unfolding cut_line
cut_line-append [] b = behind-nil (cut_line b)
cut_line-append (c ∷ a) b = elim (Bool-cases (c == b'\n')) [
  | inl e ↦ rw e
  | inr e ↦ rw e (ap (push_line c) (cut_line-append a b) ∙ push_line-extended c a b (cut_line a))
]

-- A cut loses nothing.
abbrev Rejoined : Bytes → Option (Bytes × Bytes) → Type 0
Rejoined s none = Unit
Rejoined s (some (l, r)) = l ++ r ≡ s

push_line-Rejoined :
    (c : ℕ) (s : Bytes) (x : Option (Bytes × Bytes))
    → Rejoined s x
    → Rejoined (c ∷ s) (push_line c x)
push_line-Rejoined c s none h = tt
push_line-Rejoined c s (some (l, r)) h = ap (◌∷◌ c) h

pub cut_line-Rejoined : (s : Bytes) → Rejoined s (cut_line s)
unfolding cut_line
cut_line-Rejoined [] = tt
cut_line-Rejoined (c ∷ s) = elim (Bool-cases (c == b'\n')) [
  | inl e ↦ rw e
  | inr e ↦ rw e (push_line-Rejoined c s _ (cut_line-Rejoined s))
]

-- A line is found; a full buffer without one is taken; or the stream ends without one.
abbrev pub Outcome : Bytes → ReadError → Bytes → Bytes → SliceStatus → Type 0
Outcome s e chunk rest found = cut_line s ≡ some (chunk, rest)
Outcome s e chunk rest buffer_full =
    (s ≡ chunk ++ rest) × (cut_line chunk ≡ none) × (buffer_size ≤ length chunk)
Outcome s e chunk rest (failed e') = (s ≡ chunk) × (rest ≡ []) × (cut_line chunk ≡ none) × (e' ≡ e)

-- What one ReadSlice does to the stream `s` that is still to be read.
pub record Takes (s : Bytes) (e : ReadError) (slice : Slice) : Type 0 where
  pub keeps : slice.reader.ending ≡ e
  pub cut : Outcome s e slice.chunk (flat slice.reader) slice.status

-- The buffer holds a line, or the rest of the round is looked at.
or_found-Takes :
    (buf : Bytes) (segs : List Bytes) (e : ReadError) (other : Slice)
    → (cut_line buf ≡ none → Takes (buf ++ concat segs) e other)
    → Takes (buf ++ concat segs) e (or_found segs e (cut_line buf) other)
or_found-Takes buf segs e other h = elim (Option-cases (cut_line buf)) [
  | inl n ↦ rw n (unfold or_found in h n)
  | inr (p, n) ↦ rw n (
      unfold or_found in
      record {
        keeps = refl;
        cut = cut_line-append buf (concat segs) ∙ ap (extended buf (concat segs)) n;
      })
]

full-Takes :
    (buf : Bytes) (segs : List Bytes) (e : ReadError)
    → cut_line buf ≡ none
    → buffer_size ≤ length buf
    → Takes (buf ++ concat segs) e (whole_buffer buf segs e buffer_full)
full-Takes buf segs e n h = record { keeps = refl; cut = (refl, n, h) }

failed-Takes :
    (buf : Bytes) (e : ReadError)
    → cut_line buf ≡ none
    → Takes (buf ++ []) e (whole_buffer buf [] e (failed e))
failed-Takes buf e n = record { keeps = refl; cut = (append-nil buf, refl, n, refl) }

split_stream :
    (k : ℕ) (buf seg rest : Bytes)
    → buf ++ (seg ++ rest) ≡ (buf ++ take k seg) ++ (drop k seg ++ rest)
split_stream k buf seg rest =
    ap (λ x. buf ++ (x ++ rest)) (sym (take-append-drop k seg))
    ∙ ap (λ x. buf ++ x) (append_assoc (take k seg) (drop k seg) rest)
    ∙ sym (append_assoc buf (take k seg) (drop k seg ++ rest))

length-filled :
    (buf seg : Bytes)
    → leb buffer_size (length buf) ≡ false
    → leb (length seg) (buffer_size - length buf) ≡ false
    → buffer_size ≤ length (buf ++ take (buffer_size - length buf) seg)
length-filled buf seg p q = ground (
  arith,
  length-append buf (take (buffer_size - length buf) seg),
  length-take (buffer_size - length buf) seg,
)

-- A segment that does not fit fills the buffer up.
split-Takes :
    (buf seg : Bytes) (segs : List Bytes) (e : ReadError)
    → leb buffer_size (length buf) ≡ false
    → leb (length seg) (buffer_size - length buf) ≡ false
    → let room = buffer_size - length buf in
      let filled = buf ++ take room seg in
      let left = drop room seg ∷ segs in
      Takes
        (buf ++ (seg ++ concat segs))
        e
        (or_found left e (cut_line filled) (whole_buffer filled left e buffer_full))
split-Takes buf seg segs e p q =
    let room = buffer_size - length buf in
    let filled = buf ++ take room seg in
    let left = drop room seg ∷ segs in
    subst
      (λ t. Takes t e (or_found left e (cut_line filled) (whole_buffer filled left e buffer_full)))
      (sym (split_stream room buf seg (concat segs)))
      (or_found-Takes filled left e _ λ m. full-Takes filled left e m (length-filled buf seg p q))

read_slice_from-Takes :
    (buf : Bytes) (segs : List Bytes) (e : ReadError)
    → Takes (buf ++ concat segs) e (read_slice_from buf segs e)
unfolding read_slice_from
read_slice_from-Takes buf [] e = or_found-Takes buf [] e _ λ n.
    elim (Bool-cases (leb buffer_size (length buf))) [
      | inl p ↦ rw p (full-Takes buf [] e n (leb→le _ _ p))
      | inr p ↦ rw p (failed-Takes buf e n)
    ]
read_slice_from-Takes buf (seg ∷ segs) e = or_found-Takes buf (seg ∷ segs) e _ λ n.
    elim (Bool-cases (leb buffer_size (length buf))) [
      | inl p ↦ rw p (full-Takes buf (seg ∷ segs) e n (leb→le _ _ p))
      | inr p ↦ rw p (elim (Bool-cases (leb (length seg) (buffer_size - length buf))) [
        | inl q ↦ rw q (
            subst (λ t. Takes t e (read_slice_from (buf ++ seg) segs e))
              (append_assoc buf seg (concat segs)) (read_slice_from-Takes (buf ++ seg) segs e))
        | inr q ↦ rw q (split-Takes buf seg segs e p q)
      ])
    ]

-- ReadSlice takes from the unsegmented stream, wherever its segments end.
pub read_slice-Takes : (rd : Reader) → Takes (flat rd) rd.ending (read_slice rd)
unfolding read_slice
read_slice-Takes rd = read_slice_from-Takes rd.buffered rd.incoming rd.ending

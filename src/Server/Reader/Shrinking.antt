-- ===== src/Server/Reader/Shrinking.antt =====
-- Reads take from what is left to read, and add nothing to it.
use go_managesieve.Common.{
  ℕ, zero, suc, ◌≤◌, ◌<◌, sym, subst, arith, Bool, true, false, [], ◌∷◌, Option, none, some, Bytes,
  ltb, leb, ◌==◌, if◌then◌else◌, length, drop, Bool-cases, inl, inr,
}
use go_managesieve.Server.Reader.{
  ReadError, Reader, flat, LineResult, got, refused, out_of_fuel, cut_line, at_end, push_line,
  read_bounded_line,
}
use go_managesieve.Server.Reader.Lines.{flat_line, flat_result, seen, read_bounded_line-flat_line}
use go_managesieve.Server.Reader.Full.{flat_full, read_full, read_full-flat_full}

-- A read of a line took something, unless it failed; it never gives anything back.
abbrev pub Took : ℕ → LineResult × Bytes → Type 0
Took n (got line, rest) = length rest < n
Took n (refused e, rest) = length rest ≤ n
Took n (out_of_fuel, rest) = length rest ≤ n

abbrev pub Shorter : ℕ → Option (Bytes × Bytes) → Type 0
Shorter n none = Unit {0}
Shorter n (some (line, rest)) = length rest < n

push_line-Shorter :
    (n c : ℕ) (o : Option (Bytes × Bytes)) → Shorter n o → Shorter (suc n) (push_line c o)
push_line-Shorter n c none h = _
push_line-Shorter n c (some (line, rest)) h = omega (arith, h)

if-Shorter :
    (n : ℕ) (b : Bool) (x y : Option (Bytes × Bytes))
    → Shorter n x
    → Shorter n y
    → Shorter n (if b then x else y)
if-Shorter n true x y p q = p
if-Shorter n false x y p q = q

cut_line-Shorter : (s : Bytes) → Shorter (length s) (cut_line s)
unfolding cut_line
cut_line-Shorter [] = _
cut_line-Shorter (c ∷ s) =
    if-Shorter (suc (length s)) (c == b'\n') _ _ (omega arith)
      (push_line-Shorter (length s) c (cut_line s) (cut_line-Shorter s))

pub Took-le : (n : ℕ) (r : LineResult × Bytes) → Took n r → length r.1 ≤ n
Took-le n (got line, rest) h = omega (arith, h)
Took-le n (refused e, rest) h = h
Took-le n (out_of_fuel, rest) h = h

any-Took : (n : ℕ) (r : LineResult) (rest : Bytes) → length rest < n → Took n (r, rest)
any-Took n (got line) rest h = h
any-Took n (refused e) rest h = omega (arith, h)
any-Took n out_of_fuel rest h = omega (arith, h)

flat_result-Took :
    (max : ℕ) (e : ReadError) (s : Bytes) (o : Option (Bytes × Bytes))
    → Shorter (length s) o
    → Took (length s) (flat_result max e s o)
unfolding at_end
flat_result-Took max e s (some (line, rest)) h = any-Took (length s) _ rest h
flat_result-Took max e [] none h = elim (Bool-cases (ltb max 0)) [
  | inl p ↦ rw p (omega arith)
  | inr p ↦ rw p (omega arith)
]
flat_result-Took max e (c ∷ s) none h = any-Took (suc (length s)) _ [] (omega arith)

-- A line that is read takes at least a byte from what is left, and a read that fails adds nothing.
pub read_bounded_line-Took :
    (max : ℕ) (rd : Reader) → Took (length (flat rd)) (seen (read_bounded_line max rd))
read_bounded_line-Took max rd =
    subst (Took (length (flat rd))) (sym (read_bounded_line-flat_line max rd)) (
      unfold flat_line in
      flat_result-Took max rd.ending (flat rd) (cut_line (flat rd)) (cut_line-Shorter (flat rd)))

length-drop : (n : ℕ) (s : Bytes) → length (drop n s) ≤ length s
length-drop zero s = omega arith
length-drop (suc n) [] = omega arith
length-drop (suc n) (c ∷ s) = omega (arith, length-drop n s)

flat_full-le_length :
    (need : ℕ) (e : ReadError) (s : Bytes) → length (flat_full need e s).1 ≤ length s
unfolding flat_full
flat_full-le_length need e s = elim (Bool-cases (leb need (length s))) [
  | inl p ↦ rw p (length-drop need s)
  | inr p ↦ rw p (omega arith)
]

pub read_full-le_length :
    (need : ℕ) (rd : Reader) → length (flat (read_full need rd).1) ≤ length (flat rd)
read_full-le_length need rd =
    subst (λ (r : LineResult × Bytes). length r.1 ≤ length (flat rd))
      (sym (read_full-flat_full need rd)) (flat_full-le_length need rd.ending (flat rd))

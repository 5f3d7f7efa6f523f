-- ===== src/Server/Parser/Numbers.antt =====
-- parseInt64 and literalLength against unbounded decimal reading.
use go_managesieve.Common.{
  ◌≡⟨◌⟩◌, ◌∎, ℕ, zero, suc, ◌+◌, ◌-◌, ◌*◌, ◌/◌, ◌%◌, ◌≤◌, ◌<◌, ◌≡◌, ◌≢◌, refl, sym, ◌∙◌, ap, Bool,
  true, false, ◌||◌, List, [], ◌∷◌, ◌++◌, append_assoc, append-nil, Option, some, none, arith,
  Bytes, codes, leb, ltb, if◌then◌else◌, All, All-map, Bool-cases, inl, inr,
}
use go_managesieve.Text.Utf8.{Decoded, runes, runes_after, decode_rune}
use go_managesieve.Text.Decimal.{decimal, decimal_from, IsDigit, decimal-IsDigit, decimal-last}
use go_managesieve.Text.Search.{has_prefix, has_suffix, trim_prefix, trim_suffix}
use go_managesieve.Text.Search.Affixes.{
  has_suffix-append, trim_suffix-append, trim_suffix-fixed, has_suffix-Lacks,
  has_suffix-Lacks_before,
}
use go_managesieve.Server.Parser.{
  Number, number, not_a_number, too_large, max_int64, number_from, parse_int64, literal,
  literal_length,
}

-- The value of a list of digits, with no bound; `none` where a rune is no digit.
pub value_from : ℕ → List Decoded → Option ℕ
value_from n [] = some n
value_from n (ch ∷ rest) =
    let further = value_from (n * 10 + (ch.rune - b'0')) rest in
    if ltb ch.rune b'0' || ltb b'9' ch.rune then none else further

pub decimal_value : Bytes → Option ℕ
decimal_value [] = none
decimal_value (c ∷ s) = value_from 0 (runes (c ∷ s))

abbrev pub accepted : Number → Option ℕ
accepted (number n) = some n
accepted not_a_number = none
accepted too_large = none

abbrev pub in_int64 : Option ℕ → Option ℕ
in_int64 none = none
in_int64 (some n) = if leb n max_int64 then some n else none

-- Beyond the bound there is no way back.
value_from-large : (n : ℕ) (ds : List Decoded) → max_int64 < n → in_int64 (value_from n ds) ≡ none
unfolding value_from
value_from-large n [] h = ground arith
value_from-large n (ch ∷ ds) h = ground (arith, value_from-large (n * 10 + (ch.rune - b'0')) ds)

number_from-value_from :
    (n : ℕ) (ds : List Decoded)
    → n ≤ max_int64
    → accepted (number_from n ds) ≡ in_int64 (value_from n ds)
unfolding number_from value_from
number_from-value_from n [] h = ground arith
number_from-value_from n (ch ∷ ds) h =
    let m = n * 10 + (ch.rune - b'0') in
    ground (arith, value_from-large m ds, number_from-value_from m ds)

-- parseInt64 accepts exactly the decimal numbers of the int64 range, with their value: the 64-bit
-- computation never wraps.
pub parse_int64-decimal_value : (s : Bytes) → accepted (parse_int64 s) ≡ in_int64 (decimal_value s)
unfolding parse_int64 decimal_value
parse_int64-decimal_value [] = refl
parse_int64-decimal_value (c ∷ s) = number_from-value_from 0 (runes (c ∷ s)) (omega arith)

small : (n : ℕ) → ltb n 10 ≡ true → 0 ≡ n / 10
small n e = ground arith

runes-digit :
    (c : ℕ) (s : Bytes) → IsDigit c → runes (c ∷ s) ≡ record { rune = c; width = 1 } ∷ runes s
unfolding runes runes_after decode_rune
runes-digit c s h = ground arith

number_from-last :
    (n : ℕ) (rest : Bytes)
    → n ≤ max_int64
    → number_from (n / 10) (runes ((b'0' + n % 10) ∷ rest)) ≡ number_from n (runes rest)
number_from-last n rest h =
    rw (runes-digit (b'0' + n % 10) rest (omega arith)) (unfold number_from in ground arith)

number_from-decimal_from :
    (fuel n : ℕ) (rest : Bytes)
    → n < fuel
    → n ≤ max_int64
    → number_from 0 (runes (decimal_from fuel n ++ rest)) ≡ number_from n (runes rest)
unfolding decimal_from
number_from-decimal_from zero n rest p h = absurd (omega arith)
number_from-decimal_from (suc fuel) n rest p h = elim (Bool-cases (ltb n 10)) [
  | inl e ↦ rw e (
      ap (λ k. number_from k (runes ((b'0' + n % 10) ∷ rest))) (small n e)
      ∙ number_from-last n rest h)
  | inr e ↦ rw e (
      rw append_assoc (
        number_from-decimal_from fuel (n / 10) ((b'0' + n % 10) ∷ rest) (ground arith) (omega arith)
        ∙ number_from-last n rest h))
]

number_from-decimal :
    (n : ℕ) (rest : Bytes)
    → n ≤ max_int64
    → number_from 0 (runes (decimal n ++ rest)) ≡ number_from n (runes rest)
unfolding decimal
number_from-decimal n rest h = number_from-decimal_from (suc n) n rest (omega arith) h

number_from-runes_nil : (n : ℕ) → number_from n (runes []) ≡ number n
unfolding number_from runes runes_after
number_from-runes_nil n = refl

parse_int64-nonempty :
    (front : Bytes) (c : ℕ)
    → parse_int64 (front ++ c ∷ []) ≡ number_from 0 (runes (front ++ c ∷ []))
unfolding parse_int64
parse_int64-nonempty [] c = refl
parse_int64-nonempty (x ∷ front) c = refl

-- What %d prints is read back.
pub parse_int64-decimal : (n : ℕ) → n ≤ max_int64 → parse_int64 (decimal n) ≡ number n
parse_int64-decimal n h =
    let (front, c, e) = decimal-last n in
    parse_int64 (decimal n)
    ≡⟨ ap parse_int64 e ⟩ parse_int64 (front ++ c ∷ [])
    ≡⟨ parse_int64-nonempty front c ⟩ number_from 0 (runes (front ++ c ∷ []))
    ≡⟨ ap (λ x. number_from 0 (runes x)) (sym e ∙ sym (append-nil (decimal n))) ⟩
      number_from 0 (runes (decimal n ++ []))
    ≡⟨ number_from-decimal n [] h ⟩ number_from n (runes [])
    ≡⟨ number_from-runes_nil n ⟩ number n ∎

-- A literal marker as it is written: `{N}` or `{N+}`.
abbrev pub marker : ℕ → Bool → Bytes
marker n non_sync = b'{' ∷ (decimal n ++ (if non_sync then codes "+}" else codes "}"))

literal_length-parts :
    (arg : Bytes) (non_sync : Bool) (inner mid : Bytes) {n : ℕ}
    → trim_prefix (codes "{") arg ≡ inner
    → has_suffix (codes "}") arg ≡ true
    → has_suffix (codes "+}") arg ≡ non_sync
    → trim_suffix (codes "}") inner ≡ mid
    → has_prefix (codes "{") arg ≡ true
    → parse_int64 (trim_suffix (codes "+") mid) ≡ number n
    → literal_length arg ≡ literal n non_sync
unfolding literal_length
literal_length-parts arg non_sync inner mid tp hs ns ts hp pn = rw (hp, hs, tp, ts, pn, ns)

decimal-no_plus : (n : ℕ) → All (λ c. c ≢ b'+') (decimal n)
decimal-no_plus n =
    All-map IsDigit (λ c. c ≢ b'+') (λ c d. omega arith) (decimal n) (decimal-IsDigit n)

-- A marker is read back with its length and its kind, where the length is within int64.
pub literal_length-marker :
    (n : ℕ) (non_sync : Bool)
    → n ≤ max_int64
    → literal_length (marker n non_sync) ≡ literal n non_sync
literal_length-marker n true h =
    literal_length-parts (marker n true) true (decimal n ++ codes "+}") (decimal n ++ codes "+")
      (unfold trim_prefix has_prefix in refl)
      (ap (has_suffix (codes "}")) (sym (append_assoc (b'{' ∷ decimal n) (codes "+") (codes "}")))
        ∙ has_suffix-append (b'{' ∷ (decimal n ++ codes "+")) (codes "}"))
      (has_suffix-append (b'{' ∷ decimal n) (codes "+}"))
      (ap (trim_suffix (codes "}")) (sym (append_assoc (decimal n) (codes "+") (codes "}")))
        ∙ trim_suffix-append (decimal n ++ codes "+") (codes "}"))
      (unfold has_prefix in refl)
      (ap parse_int64 (trim_suffix-append (decimal n) (codes "+")) ∙ parse_int64-decimal n h)
literal_length-marker n false h =
    literal_length-parts (marker n false) false (decimal n ++ codes "}") (decimal n)
      (unfold trim_prefix has_prefix in refl) (has_suffix-append (b'{' ∷ decimal n) (codes "}"))
      (has_suffix-Lacks_before b'+' b'}' (b'{' ∷ decimal n) (omega arith, decimal-no_plus n))
      (trim_suffix-append (decimal n) (codes "}")) (unfold has_prefix in refl)
      (ap parse_int64 (
          trim_suffix-fixed (codes "+") (decimal n)
            (has_suffix-Lacks b'+' (decimal n) (decimal-no_plus n)))
        ∙ parse_int64-decimal n h)

-- ===== src/Text/Utf8/Encoding.antt =====
-- Decoding, encoding and mapping: what a valid string keeps and what a mapped string may hold.
use go_managesieve.Common.{
  ℕ, zero, suc, ◌+◌, ◌-◌, ◌≡◌, refl, Bool, true, inl, inr, List, [], ◌∷◌, ◌++◌, arith, Bytes, both,
  ◌&&◌, Bool-cases, within, ◌*◌, ltb, drop, All, All-append,
}
use go_managesieve.Text.Utf8.{
  Decoded, is_cont, second_of_three, second_of_four, is_valid_rune, decode_rune, decode_two,
  decode_three, decode_four, runes_after, runes, all_runes, encode_rune, encode_mapped, map_runes,
}

encode_two :
    (a b : ℕ)
    → within 0xC2 0xDF a ≡ true
    → is_cont b ≡ true
    → encode_rune ((a - 0xC0) * 64 + (b - 0x80)) ≡ a ∷ b ∷ []
unfolding encode_rune
encode_two a b p q = ground arith

encode_three :
    (a b c : ℕ)
    → within 0xE0 0xEF a ≡ true
    → second_of_three a b ≡ true
    → is_cont c ≡ true
    → encode_rune (((a - 0xE0) * 64 + (b - 0x80)) * 64 + (c - 0x80)) ≡ a ∷ b ∷ c ∷ []
unfolding encode_rune
encode_three a b c p q r = ground arith

encode_four :
    (a b c d : ℕ)
    → within 0xF0 0xF4 a ≡ true
    → second_of_four a b ≡ true
    → is_cont c ≡ true
    → is_cont d ≡ true
    → encode_rune ((((a - 0xF0) * 64 + (b - 0x80)) * 64 + (c - 0x80)) * 64 + (d - 0x80))
      ≡ a ∷ b ∷ c ∷ d ∷ []
unfolding encode_rune
encode_four a b c d p q r t = ground arith

-- The bytes that a decoding took and left, put together again.
abbrev Rejoins : ℕ → Bytes → Decoded → Type 0
Rejoins a s d = is_valid_rune d ≡ true → encode_rune d.rune ++ drop (d.width - 1) s ≡ a ∷ s

decode_two-Rejoins : (a : ℕ) (s : Bytes) → within 0xC2 0xDF a ≡ true → Rejoins a s (decode_two a s)
unfolding decode_two
decode_two-Rejoins a [] p v = ground arith
decode_two-Rejoins a (b ∷ s) p v = ground (arith, encode_two a b)

decode_three-Rejoins :
    (a : ℕ) (s : Bytes) → within 0xE0 0xEF a ≡ true → Rejoins a s (decode_three a s)
unfolding decode_three
decode_three-Rejoins a [] p v = ground arith
decode_three-Rejoins a (b ∷ []) p v = ground arith
decode_three-Rejoins a (b ∷ c ∷ s) p v = elim (Bool-cases (second_of_three a b && is_cont c)) [
  | inl e ↦ let (e0, e1) = both _ _ e in rw e (rw (encode_three a b c p e0 e1))
  | inr e ↦ absurd (ground (arith, e))
]

decode_four-Rejoins :
    (a : ℕ) (s : Bytes) → within 0xF0 0xF4 a ≡ true → Rejoins a s (decode_four a s)
unfolding decode_four
decode_four-Rejoins a [] p v = ground arith
decode_four-Rejoins a (b ∷ []) p v = ground arith
decode_four-Rejoins a (b ∷ c ∷ []) p v = ground arith
decode_four-Rejoins a (b ∷ c ∷ d ∷ s) p v =
    elim (Bool-cases (second_of_four a b && (is_cont c && is_cont d))) [
      | inl e ↦
          let (e0, e1) = both _ _ e in
          let (e2, e3) = both _ _ e1 in rw e (rw (encode_four a b c d p e0 e2 e3))
      | inr e ↦ absurd (ground (arith, e))
    ]

decode_ascii-Rejoins :
    (a : ℕ) (s : Bytes) → ltb a 0x80 ≡ true → Rejoins a s (record { rune = a; width = 1 })
unfolding encode_rune
decode_ascii-Rejoins a s p v = ground arith

-- A valid decoding is undone by the encoding: it gives back the bytes that were taken.
pub decode_rune-Rejoins : (a : ℕ) (s : Bytes) → Rejoins a s (decode_rune a s)
unfolding decode_rune
decode_rune-Rejoins a s = elim (Bool-cases (ltb a 0x80)) [
  | inl p ↦ rw p (decode_ascii-Rejoins a s p)
  | inr p ↦ rw p (elim (Bool-cases (within 0xC2 0xDF a)) [
    | inl q ↦ rw q (decode_two-Rejoins a s q)
    | inr q ↦ rw q (elim (Bool-cases (within 0xE0 0xEF a)) [
      | inl r ↦ rw r (decode_three-Rejoins a s r)
      | inr r ↦ rw r (elim (Bool-cases (within 0xF0 0xF4 a)) [
        | inl t ↦ rw t (decode_four-Rejoins a s t)
        | inr t ↦ rw t (λ v. cc)
      ])
    ])
  ])
]

-- Skipping is dropping.
runes_after-drop : (k : ℕ) (s : Bytes) → runes_after k s ≡ runes_after zero (drop k s)
unfolding runes_after
runes_after-drop zero s = refl
runes_after-drop (suc k) [] = refl
runes_after-drop (suc k) (a ∷ s) = runes_after-drop k s

module _ (f : ℕ → ℕ) (p : Decoded → Bool)
    (keeps : (d : Decoded) → p d ≡ true → (is_valid_rune d ≡ true) × (f d.rune ≡ d.rune)) where
  encode_mapped-drop :
      (k : ℕ) (s : Bytes)
      → all_runes p (runes_after k s) ≡ true
      → encode_mapped f (runes_after k s) ≡ drop k s
  unfolding runes_after encode_mapped all_runes
  encode_mapped-drop zero [] h = refl
  encode_mapped-drop (suc k) [] h = refl
  encode_mapped-drop zero (a ∷ s) h =
      let d = decode_rune a s in
      let (here, there) = both (p d) _ h in
      let (valid, fixed) = keeps d here in
      rw (fixed, encode_mapped-drop (d.width - 1) s there) (decode_rune-Rejoins a s valid)
  encode_mapped-drop (suc k) (a ∷ s) h = encode_mapped-drop k s h

  -- A mapping that changes no rune of a valid string leaves the string alone.
  pub map_runes-fixed : (s : Bytes) → all_runes p (runes s) ≡ true → map_runes f s ≡ s
  unfolding map_runes runes
  map_runes-fixed s h = encode_mapped-drop zero s h

module _ {ℓ} (P : ℕ → Type ℓ) (f : ℕ → ℕ) (fits : (r : ℕ) → All P (encode_rune (f r))) where
  All-encode_mapped : (ds : List Decoded) → All P (encode_mapped f ds)
  unfolding encode_mapped
  All-encode_mapped [] = tt
  All-encode_mapped (d ∷ ds) = All-append P _ _ (fits d.rune) (All-encode_mapped ds)

  -- The bytes of a mapped string are those of its mapped runes.
  pub All-map_runes : (s : Bytes) → All P (map_runes f s)
  unfolding map_runes
  All-map_runes s = All-encode_mapped (runes s)

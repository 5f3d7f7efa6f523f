-- ===== src/Text/Base64/RoundTrip.antt =====
-- encoding/base64: decoding undoes encoding.
use go_managesieve.Common.{
  ℕ, ◌+◌, ◌*◌, ◌/◌, ◌%◌, ◌<◌, ◌≡◌, ◌≢◌, refl, ◌∙◌, ap, [], ◌∷◌, some, arith, Bytes, All,
}
use go_managesieve.Text.Base64.{
  sextet, letter, without_newlines, one_byte, two_bytes, three_bytes, decode_groups, decode_base64,
  encode_base64,
}

abbrev pub IsByte : ℕ → Type 0
IsByte c = c < 256

-- A letter of the alphabet.
abbrev IsLetter : ℕ → Type 0
IsLetter c = (c ≢ b'=') × (c ≢ b'\r') × (c ≢ b'\n')

letter-IsLetter : (v : ℕ) → v < 64 → IsLetter (letter v)
unfolding letter
letter-IsLetter v h = ground arith

sextet-letter : (v : ℕ) → v < 64 → sextet (letter v) ≡ some v
unfolding sextet letter
sextet-letter v h = ground arith

without_newlines-cons :
    (c : ℕ) (s : Bytes) → c ≢ b'\r' → c ≢ b'\n' → without_newlines (c ∷ s) ≡ c ∷ without_newlines s
unfolding without_newlines
without_newlines-cons c s p q = ground arith

without_newlines-letter :
    (v : ℕ) (s : Bytes)
    → v < 64
    → without_newlines s ≡ s
    → without_newlines (letter v ∷ s) ≡ letter v ∷ s
without_newlines-letter v s h fixed =
    let (_, p, q) = letter-IsLetter v h in
    without_newlines-cons (letter v) s p q ∙ ap (◌∷◌ (letter v)) fixed

without_newlines-pad : without_newlines (b'=' ∷ []) ≡ b'=' ∷ []
unfolding without_newlines
without_newlines-pad = refl

without_newlines-two_pads : without_newlines (b'=' ∷ b'=' ∷ []) ≡ b'=' ∷ b'=' ∷ []
unfolding without_newlines
without_newlines-two_pads = refl

without_newlines-encode_base64 :
    (s : Bytes) → All IsByte s → without_newlines (encode_base64 s) ≡ encode_base64 s
unfolding encode_base64
without_newlines-encode_base64 [] h = unfold without_newlines in refl
without_newlines-encode_base64 (x ∷ []) (hx, _) =
    without_newlines-letter (x / 4) _ (omega arith)
      (without_newlines-letter (x % 4 * 16) _ (omega arith) without_newlines-two_pads)
without_newlines-encode_base64 (x ∷ y ∷ []) (hx, (hy, _)) =
    without_newlines-letter (x / 4) _ (omega arith) (
      without_newlines-letter (x % 4 * 16 + y / 16) _ (omega arith)
        (without_newlines-letter (y % 16 * 4) _ (omega arith) without_newlines-pad))
without_newlines-encode_base64 (x ∷ y ∷ z ∷ s) (hx, (hy, (hz, hs))) =
    without_newlines-letter (x / 4) _ (omega arith) (
      without_newlines-letter (x % 4 * 16 + y / 16) _ (omega arith) (
        without_newlines-letter (y % 16 * 4 + z / 64) _ (omega arith)
          (without_newlines-letter (z % 64) _ (omega arith) (without_newlines-encode_base64 s hs))))

decode_groups-letters :
    (a b c d : ℕ) (t : Bytes)
    → d ≢ b'='
    → decode_groups (a ∷ b ∷ c ∷ d ∷ t)
      ≡ three_bytes (sextet a) (sextet b) (sextet c) (sextet d) (decode_groups t)
unfolding decode_groups
decode_groups-letters a b c d [] h = ground arith
decode_groups-letters a b c d (e ∷ t) h = refl

-- The bytes that a padded or a whole group stands for.
one_byte-sextets : (x : ℕ) → x < 256 → one_byte (some (x / 4)) (some (x % 4 * 16)) ≡ some (x ∷ [])
unfolding one_byte
one_byte-sextets x h = ap (λ v. some (v ∷ [])) (omega arith)

two_bytes-sextets :
    (x y : ℕ)
    → x < 256
    → y < 256
    → two_bytes (some (x / 4)) (some (x % 4 * 16 + y / 16)) (some (y % 16 * 4)) ≡ some (x ∷ y ∷ [])
unfolding two_bytes
two_bytes-sextets x y h k =
    let first : x / 4 * 4 + (x % 4 * 16 + y / 16) / 16 ≡ x = omega arith in
    let second : (x % 4 * 16 + y / 16) % 16 * 16 + y % 16 * 4 / 4 ≡ y = omega arith in
    rw (first, second)

three_bytes-sextets :
    (x y z : ℕ) (s : Bytes)
    → x < 256
    → y < 256
    → z < 256
    → three_bytes
        (some (x / 4))
        (some (x % 4 * 16 + y / 16))
        (some (y % 16 * 4 + z / 64))
        (some (z % 64))
        (some s)
      ≡ some (x ∷ y ∷ z ∷ s)
unfolding three_bytes
three_bytes-sextets x y z s h k l =
    let first : x / 4 * 4 + (x % 4 * 16 + y / 16) / 16 ≡ x = omega arith in
    let second : (x % 4 * 16 + y / 16) % 16 * 16 + (y % 16 * 4 + z / 64) / 4 ≡ y = omega arith in
    let third : (y % 16 * 4 + z / 64) % 4 * 64 + z % 64 ≡ z = omega arith in
    rw (first, second, third)

decode_groups-two_pads :
    (a b : ℕ) → decode_groups (a ∷ b ∷ b'=' ∷ b'=' ∷ []) ≡ one_byte (sextet a) (sextet b)
unfolding decode_groups
decode_groups-two_pads a b = refl

decode_groups-pad :
    (a b c : ℕ)
    → c ≢ b'='
    → decode_groups (a ∷ b ∷ c ∷ b'=' ∷ []) ≡ two_bytes (sextet a) (sextet b) (sextet c)
unfolding decode_groups
decode_groups-pad a b c h = ground arith

decode_groups-encode_base64 : (s : Bytes) → All IsByte s → decode_groups (encode_base64 s) ≡ some s
unfolding encode_base64
decode_groups-encode_base64 [] h = unfold decode_groups in refl
decode_groups-encode_base64 (x ∷ []) (hx, _) =
    decode_groups-two_pads _ _
    ∙ rw (sextet-letter (x / 4) (omega arith), sextet-letter (x % 4 * 16) (omega arith))
        (one_byte-sextets x hx)
decode_groups-encode_base64 (x ∷ y ∷ []) (hx, (hy, _)) =
    decode_groups-pad _ _ _ (letter-IsLetter (y % 16 * 4) (omega arith)).0
    ∙ rw
        (
          sextet-letter (x / 4) (omega arith),
          sextet-letter (x % 4 * 16 + y / 16) (omega arith),
          sextet-letter (y % 16 * 4) (omega arith),
        )
        (two_bytes-sextets x y hx hy)
decode_groups-encode_base64 (x ∷ y ∷ z ∷ s) (hx, (hy, (hz, hs))) =
    decode_groups-letters _ _ _ _ (encode_base64 s) (letter-IsLetter (z % 64) (omega arith)).0
    ∙ rw
        (
          sextet-letter (x / 4) (omega arith),
          sextet-letter (x % 4 * 16 + y / 16) (omega arith),
          sextet-letter (y % 16 * 4 + z / 64) (omega arith),
          sextet-letter (z % 64) (omega arith),
          decode_groups-encode_base64 s hs,
        )
        (three_bytes-sextets x y z s hx hy hz)

-- Whatever bytes a text holds, its encoding is decoded to it.
pub decode_base64-encode_base64 :
    (s : Bytes) → All IsByte s → decode_base64 (encode_base64 s) ≡ some s
unfolding decode_base64
decode_base64-encode_base64 s h =
    rw (without_newlines-encode_base64 s h) (decode_groups-encode_base64 s h)

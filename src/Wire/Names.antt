-- ===== src/Wire/Names.antt =====
-- Script names that pass validation.
use go_managesieve.Common.{
  ◌≡◌, refl, Bool, true, not, ◌&&◌, List, [], ◌∷◌, none, arith, Bytes, both, ◌≢◌,
}
use go_managesieve.Text.Utf8.{Decoded, is_valid_rune, runes, all_runes, valid_string}
use go_managesieve.Text.Utf8.Encoding.{map_runes-fixed}
use go_managesieve.Wire.{is_control, sanitize_rune, sanitize_text, validate_script_name}

all_runes-and :
    (p q : Decoded → Bool) (ds : List Decoded)
    → all_runes p ds ≡ true
    → all_runes q ds ≡ true
    → all_runes (λ d. p d && q d) ds ≡ true
unfolding all_runes
all_runes-and p q [] h k = refl
all_runes-and p q (d ∷ ds) h k =
    let (h0, h1) = both (p d) _ h in
    let (k0, k1) = both (q d) _ k in rw (h0, k0) (all_runes-and p q ds h1 k1)

abbrev is_kept : Decoded → Bool
is_kept d = is_valid_rune d && not (is_control d.rune)

is_kept_keeps :
    (d : Decoded) → is_kept d ≡ true → (is_valid_rune d ≡ true) × (sanitize_rune d.rune ≡ d.rune)
is_kept_keeps d h = let (v, c) = both (is_valid_rune d) _ h in (v, ground arith)

-- A name that passes is not empty, is valid UTF-8, and holds no control character.
pub validate_script_name-eq-none :
    (s : Bytes)
    → validate_script_name s ≡ none
    → (s ≢ [])
      × (valid_string s ≡ true)
      × (all_runes (λ d. not (is_control d.rune)) (runes s) ≡ true)
unfolding validate_script_name
validate_script_name-eq-none [] h = ground arith
validate_script_name-eq-none (c ∷ s) h = (ground arith, ground arith, ground arith)

-- A script name that passes validation is the same after sanitizing.
pub sanitize_text-validated : (s : Bytes) → validate_script_name s ≡ none → sanitize_text s ≡ s
sanitize_text-validated s h =
    let (_, valid, clean) = validate_script_name-eq-none s h in
    unfold sanitize_text in
    map_runes-fixed sanitize_rune is_kept is_kept_keeps s (
      all_runes-and is_valid_rune (λ d. not (is_control d.rune)) (runes s)
        (unfold valid_string in valid) clean)

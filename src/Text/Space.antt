-- ===== src/Text/Space.antt =====
-- strings.TrimSpace: the white space of unicode.IsSpace, by its UTF-8 encodings, off both ends.
pub mod Bounds
use go_managesieve.Common.{
  ℕ, zero, suc, ◌-◌, ◌≤◌, ◌<◌, ◌≡◌, refl, ◌∙◌, Bool, true, ◌&&◌, ◌||◌, [], ◌∷◌, ◌++◌, reverse,
  reverse-append, reverse-reverse, arith, Bytes, ◌==◌, within, if◌then◌else◌, ap, ◌≡⟨◌⟩◌, ◌∎, sym,
}

abbrev is_ascii_space : ℕ → Bool
is_ascii_space a = within 9 13 a || a == 32

-- U+0085 and U+00A0
abbrev is_space_two : ℕ → ℕ → Bool
is_space_two a b = a == 0xC2 && (b == 0x85 || b == 0xA0)

-- U+1680, U+2000 to U+200A, U+2028, U+2029, U+202F, U+205F and U+3000
abbrev is_space_three : ℕ → ℕ → ℕ → Bool
is_space_three a b c =
    (a == 0xE1 && (b == 0x9A && c == 0x80))
    || (a == 0xE2 && (b == 0x80 && (within 0x80 0x8A c || (within 0xA8 0xA9 c || c == 0xAF))))
    || (a == 0xE2 && (b == 0x81 && c == 0x9F))
    || (a == 0xE3 && (b == 0x80 && c == 0x80))

-- The bytes of the white space that `a ∷ s` starts with, 0 if it starts with none.
pub space_width : ℕ → Bytes → ℕ
space_width a [] = if is_ascii_space a then 1 else 0
space_width a (b ∷ []) = if is_ascii_space a then 1 else if is_space_two a b then 2 else 0
space_width a (b ∷ c ∷ s) =
    if is_ascii_space a
    then 1
    else if is_space_two a b
    then 2
    else if is_space_three a b c
    then 3
    else 0

-- The same at the end of a text that is read backwards.
pub space_width_back : ℕ → Bytes → ℕ
space_width_back c [] = if is_ascii_space c then 1 else 0
space_width_back c (b ∷ []) = if is_ascii_space c then 1 else if is_space_two b c then 2 else 0
space_width_back c (b ∷ a ∷ s) =
    if is_ascii_space c
    then 1
    else if is_space_two b c
    then 2
    else if is_space_three a b c
    then 3
    else 0

pub trim_front : ℕ → Bytes → Bytes
trim_front k [] = []
trim_front zero (a ∷ s) =
    let w = space_width a s in let rest = trim_front (w - 1) s in if w == 0 then a ∷ s else rest
trim_front (suc k) (a ∷ s) = trim_front k s

pub trim_back : ℕ → Bytes → Bytes
trim_back k [] = []
trim_back zero (c ∷ s) =
    let w = space_width_back c s in let rest = trim_back (w - 1) s in if w == 0 then c ∷ s else rest
trim_back (suc k) (c ∷ s) = trim_back k s

unfoldable pub trim_left : Bytes → Bytes
unfolding trim_front space_width
trim_left = trim_front zero

unfoldable pub trim_right : Bytes → Bytes
unfolding trim_back space_width_back
trim_right s = reverse (trim_back zero (reverse s))

unfoldable pub trim_space : Bytes → Bytes
unfolding trim_left trim_right
trim_space s = trim_right (trim_left s)

-- A visible ASCII character.
abbrev pub is_visible : ℕ → Bool
is_visible = within 0x21 0x7E

space_width-is_visible : (a : ℕ) (s : Bytes) → is_visible a ≡ true → space_width a s ≡ 0
unfolding space_width
space_width-is_visible a [] h = ground arith
space_width-is_visible a (b ∷ []) h = ground arith
space_width-is_visible a (b ∷ c ∷ s) h = ground arith

space_width_back-is_visible : (c : ℕ) (s : Bytes) → is_visible c ≡ true → space_width_back c s ≡ 0
unfolding space_width_back
space_width_back-is_visible c [] h = ground arith
space_width_back-is_visible c (b ∷ []) h = ground arith
space_width_back-is_visible c (b ∷ a ∷ s) h = ground arith

pub trim_left-is_visible : (a : ℕ) (s : Bytes) → is_visible a ≡ true → trim_left (a ∷ s) ≡ a ∷ s
trim_left-is_visible a s h = unfold trim_left in rw (space_width-is_visible a s h)

pub trim_right_lem : (s : Bytes) → trim_right s ≡ reverse (trim_back zero (reverse s))
unfolding trim_right
trim_right_lem s = refl

pub trim_space_lem : (s : Bytes) → trim_space s ≡ trim_right (trim_left s)
unfolding trim_space
trim_space_lem s = refl

trim_back-is_visible : (c : ℕ) (s : Bytes) → is_visible c ≡ true → trim_back zero (c ∷ s) ≡ c ∷ s
trim_back-is_visible c s h = unfold trim_back in rw (space_width_back-is_visible c s h)

pub trim_right-is_visible :
    (s : Bytes) (b : ℕ) → is_visible b ≡ true → trim_right (s ++ b ∷ []) ≡ s ++ b ∷ []
trim_right-is_visible s b h =
    trim_right (s ++ b ∷ [])
    ≡⟨ trim_right_lem _ ⟩ reverse (trim_back zero (reverse (s ++ b ∷ [])))
    ≡⟨ rw (reverse-append s (b ∷ [])) (ap reverse (trim_back-is_visible b (reverse s) h)) ⟩
      reverse (b ∷ reverse s)
    ≡⟨ rw (← reverse-append s (b ∷ [])) (reverse-reverse _) ⟩ s ++ b ∷ [] ∎

-- A text with visible ASCII characters at both ends is not trimmed.
pub trim_space-is_visible :
    (a : ℕ) (s : Bytes) (b : ℕ)
    → is_visible a ≡ true
    → is_visible b ≡ true
    → trim_space (a ∷ (s ++ b ∷ [])) ≡ a ∷ (s ++ b ∷ [])
trim_space-is_visible a s b p q =
    trim_space (a ∷ (s ++ b ∷ []))
    ≡⟨ trim_space_lem _ ⟩ trim_right (trim_left (a ∷ (s ++ b ∷ [])))
    ≡⟨ ap trim_right (trim_left-is_visible a _ p) ⟩ trim_right (a ∷ (s ++ b ∷ []))
    ≡⟨ trim_right-is_visible (a ∷ s) b q ⟩ a ∷ (s ++ b ∷ []) ∎

-- White space in front is dropped.
pub trim_left-space :
    (a : ℕ) (s : Bytes) → is_ascii_space a ≡ true → trim_left (a ∷ s) ≡ trim_left s
unfolding trim_left
trim_left-space a [] h = ground arith
trim_left-space a (b ∷ []) h = ground arith
trim_left-space a (b ∷ c ∷ s) h = ground arith

trim_back-space :
    (c : ℕ) (s : Bytes) → is_ascii_space c ≡ true → trim_back zero (c ∷ s) ≡ trim_back zero s
unfolding trim_back space_width_back
trim_back-space c [] h = ground arith
trim_back-space c (b ∷ []) h = ground arith
trim_back-space c (b ∷ a ∷ s) h = ground arith

-- White space behind is dropped.
pub trim_right-space :
    (s : Bytes) (c : ℕ) → is_ascii_space c ≡ true → trim_right (s ++ c ∷ []) ≡ trim_right s
trim_right-space s c h =
    trim_right (s ++ c ∷ [])
    ≡⟨ trim_right_lem _ ⟩ reverse (trim_back zero (reverse (s ++ c ∷ [])))
    ≡⟨ rw (reverse-append s (c ∷ [])) (ap reverse (trim_back-space c (reverse s) h)) ⟩
      reverse (trim_back zero (reverse s))
    ≡⟨ sym (trim_right_lem s) ⟩ trim_right s ∎

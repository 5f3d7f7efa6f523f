-- ===== src/Text/Space/Bounds.antt =====
-- What trimming leaves: a part of the text, with no space in front.
use go_managesieve.Common.{
  ℕ, zero, suc, ◌-◌, ◌≤◌, ◌≡◌, ◌≢◌, refl, sym, ◌∙◌, ap, true, [], ◌∷◌, ◌++◌, reverse,
  reverse-append, reverse-reverse, arith, Bytes, ◌==◌, length, length-append, Bool-cases, inl, inr,
}
use go_managesieve.Text.Space.{
  space_width, space_width_back, trim_front, trim_back, trim_left, trim_right, trim_space,
  trim_right_lem, trim_space_lem,
}

trim_front-length : (k : ℕ) (s : Bytes) → length (trim_front k s) ≤ length s
unfolding trim_front
trim_front-length zero [] = omega arith
trim_front-length (suc k) [] = omega arith
trim_front-length zero (a ∷ s) = elim (Bool-cases (space_width a s == 0)) [
  | inl e ↦ rw e (omega arith)
  | inr e ↦ rw e (omega (arith, trim_front-length (space_width a s - 1) s))
]
trim_front-length (suc k) (a ∷ s) = omega (arith, trim_front-length k s)

-- A width of 0 excludes the space.
space_width-zero : (a : ℕ) (s : Bytes) → (space_width a s == 0) ≡ true → a ≢ b' '
unfolding space_width
space_width-zero a [] h = ground arith
space_width-zero a (b ∷ []) h = ground arith
space_width-zero a (b ∷ c ∷ s) h = ground arith

trim_front-head : (k : ℕ) (s : Bytes) {c : ℕ} {t : Bytes} → trim_front k s ≡ c ∷ t → c ≢ b' '
unfolding trim_front
trim_front-head zero [] h = cc
trim_front-head (suc k) [] h = cc
trim_front-head zero (a ∷ s) h = elim (Bool-cases (space_width a s == 0)) [
  | inl e ↦ ground (arith, space_width-zero a s e)
  | inr e ↦ trim_front-head (space_width a s - 1) s (rw e at h)
]
trim_front-head (suc k) (a ∷ s) h = trim_front-head k s h

trim_back-split : (k : ℕ) (s : Bytes) → (p : Bytes) × (s ≡ p ++ trim_back k s)
unfolding trim_back
trim_back-split zero [] = ([], refl)
trim_back-split (suc k) [] = ([], refl)
trim_back-split zero (c ∷ s) = elim (Bool-cases (space_width_back c s == 0)) [
  | inl e ↦ ([], rw e)
  | inr e ↦
      let (p, h) = trim_back-split (space_width_back c s - 1) s in (c ∷ p, rw e (ap (◌∷◌ c) h))
]
trim_back-split (suc k) (c ∷ s) = let (p, h) = trim_back-split k s in (c ∷ p, ap (◌∷◌ c) h)

-- Trimming on the right leaves a prefix.
pub trim_right-split : (s : Bytes) → (q : Bytes) × (s ≡ trim_right s ++ q)
trim_right-split s =
    let (p, h) = trim_back-split zero (reverse s) in
    (
      reverse p,
      sym (reverse-reverse s)
          ∙ ap reverse h
          ∙ reverse-append p (trim_back zero (reverse s))
          ∙ ap (λ t. t ++ reverse p) (sym (trim_right_lem s)),
    )

trim_right-length : (s : Bytes) → length (trim_right s) ≤ length s
trim_right-length s =
    let (q, h) = trim_right-split s in
    omega (arith, ap length h, length-append {0} (trim_right s) q)

trim_left-length : (s : Bytes) → length (trim_left s) ≤ length s
unfolding trim_left
trim_left-length s = trim_front-length zero s

pub trim_space-length : (s : Bytes) → length (trim_space s) ≤ length s
trim_space-length s =
    rw trim_space_lem (omega (arith, trim_right-length (trim_left s), trim_left-length s))

trim_left-head : (s : Bytes) {c : ℕ} {t : Bytes} → trim_left s ≡ c ∷ t → c ≢ b' '
unfolding trim_left
trim_left-head s h = trim_front-head zero s h

-- No space is left in front.
pub trim_space-head : (s : Bytes) {c : ℕ} {t : Bytes} → trim_space s ≡ c ∷ t → c ≢ b' '
trim_space-head s {c} {t} h =
    let (q, e) = trim_right-split (trim_left s) in
    trim_left-head s {t = t ++ q} (e ∙ ap (λ x. x ++ q) (sym (trim_space_lem s) ∙ h))

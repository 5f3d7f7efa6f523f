-- ===== src/Text/Search/Affixes.antt =====
-- Prefixes and suffixes of texts put together from known parts.
use go_managesieve.Common.{
  ℕ, ◌≡◌, refl, ◌∙◌, ◌≢◌, true, false, [], ◌∷◌, ◌++◌, reverse, reverse_aux, reverse-append,
  reverse-reverse, arith, Bytes, length, drop, All, ◌+◌,
}
use go_managesieve.Text.Search.{has_prefix, has_suffix, trim_suffix}

has_prefix-append : (p s : Bytes) → has_prefix p (p ++ s) ≡ true
unfolding has_prefix
has_prefix-append [] s = refl
has_prefix-append (x ∷ p) s = ground (arith, has_prefix-append p s)

has_suffix_lem : (p s : Bytes) → has_suffix p s ≡ has_prefix (reverse p) (reverse s)
unfolding has_suffix
has_suffix_lem p s = refl

pub has_suffix-append : (x p : Bytes) → has_suffix p (x ++ p) ≡ true
has_suffix-append x p =
    has_suffix_lem p (x ++ p) ∙ rw (reverse-append x p) (has_prefix-append (reverse p) (reverse x))

drop-append : (p s : Bytes) → drop (length p) (p ++ s) ≡ s
drop-append [] s = refl
drop-append (x ∷ p) s = drop-append p s

length-reverse_aux : (p s : Bytes) → length (reverse_aux p s) ≡ length p + length s
length-reverse_aux [] s = omega arith
length-reverse_aux (x ∷ p) s = omega (arith, length-reverse_aux p (x ∷ s))

length-reverse : (p : Bytes) → length p ≡ length (reverse p)
length-reverse p = omega (arith, length-reverse_aux p [])

pub trim_suffix-append : (x p : Bytes) → trim_suffix p (x ++ p) ≡ x
unfolding trim_suffix
trim_suffix-append x p =
    rw
      (
        has_suffix-append x p,
        reverse-append x p,
        length-reverse p,
        drop-append (reverse p) (reverse x),
      )
      (reverse-reverse x)

pub trim_suffix-fixed : (p s : Bytes) → has_suffix p s ≡ false → trim_suffix p s ≡ s
unfolding trim_suffix
trim_suffix-fixed p s h = rw h

module _ {ℓ} (P : ℕ → Type ℓ) where
  All-reverse_aux : (xs ys : Bytes) → All P xs → All P ys → All P (reverse_aux xs ys)
  All-reverse_aux [] ys h k = k
  All-reverse_aux (x ∷ xs) ys h k = All-reverse_aux xs (x ∷ ys) h.1 (h.0, k)

  pub All-reverse : (xs : Bytes) → All P xs → All P (reverse xs)
  All-reverse xs h = All-reverse_aux xs [] h tt

has_prefix-behind :
    (l : ℕ) (p s : Bytes) → has_prefix p s ≡ false → has_prefix (l ∷ p) (l ∷ s) ≡ false
unfolding has_prefix
has_prefix-behind l p s h = ground arith

has_prefix-Lacks : (b : ℕ) (s : Bytes) → All (λ c. c ≢ b) s → has_prefix (b ∷ []) s ≡ false
unfolding has_prefix
has_prefix-Lacks b [] h = refl
has_prefix-Lacks b (c ∷ s) h = ground arith

-- A text without the byte does not end in it.
pub has_suffix-Lacks : (b : ℕ) (s : Bytes) → All (λ c. c ≢ b) s → has_suffix (b ∷ []) s ≡ false
has_suffix-Lacks b s h =
    has_suffix_lem (b ∷ []) s ∙ has_prefix-Lacks b (reverse s) (All-reverse (λ c. c ≢ b) s h)

-- Nor does it end in the byte and another behind it.
pub has_suffix-Lacks_before :
    (b l : ℕ) (s : Bytes) → All (λ c. c ≢ b) s → has_suffix (b ∷ l ∷ []) (s ++ l ∷ []) ≡ false
has_suffix-Lacks_before b l s h =
    has_suffix_lem (b ∷ l ∷ []) (s ++ l ∷ [])
    ∙ rw (reverse-append s (l ∷ []))
        (has_prefix-behind l _ _ (has_prefix-Lacks b (reverse s) (All-reverse (λ c. c ≢ b) s h)))

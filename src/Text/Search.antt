-- ===== src/Text/Search.antt =====
-- Searching and cutting: strings.HasPrefix, HasSuffix, TrimPrefix, TrimSuffix, Index, SplitN,
-- Split, Join and ReplaceAll, as far as the program uses them.
pub mod Affixes
use go_managesieve.Common.{
  ℕ, ◌≡◌, refl, ◌≢◌, Bool, true, false, ◌&&◌, List, [], ◌∷◌, ◌++◌, append_assoc, append-nil,
  reverse, reverse-append, arith, Option, none, some, Bytes, ◌==◌, if◌then◌else◌, length, drop, All,
  All-append,
}

unfoldable pub has_prefix : Bytes → Bytes → Bool
has_prefix [] s = true
has_prefix (p ∷ ps) [] = false
has_prefix (p ∷ ps) (c ∷ s) = p == c && has_prefix ps s

unfoldable pub has_suffix : Bytes → Bytes → Bool
unfolding has_prefix
has_suffix p s = has_prefix (reverse p) (reverse s)

unfoldable pub trim_prefix : Bytes → Bytes → Bytes
unfolding has_prefix
trim_prefix p s = if has_prefix p s then drop (length p) s else s

unfoldable pub trim_suffix : Bytes → Bytes → Bytes
trim_suffix p s = if has_suffix p s then reverse (drop (length p) (reverse s)) else s

-- `s[:i]` and `s[i:]` at the first `c`, the whole text and nothing if there is none.
unfoldable pub cut_at : ℕ → Bytes → Bytes × Bytes
cut_at c [] = ([], [])
cut_at c (x ∷ s) =
    let (before, rest) = cut_at c s in if x == c then ([], x ∷ s) else (x ∷ before, rest)

-- strings.SplitN with the limit 2: what stands before the first `c`, and what stands behind it.
unfoldable pub split_once : ℕ → Bytes → Bytes × Option Bytes
split_once c [] = ([], none)
split_once c (x ∷ s) =
    let (before, rest) = split_once c s in if x == c then ([], some s) else (x ∷ before, rest)

prepend : ℕ → List Bytes → List Bytes
prepend x [] = (x ∷ []) ∷ []
prepend x (p ∷ ps) = (x ∷ p) ∷ ps

-- strings.Split at a byte: always at least one part.
unfoldable pub split : ℕ → Bytes → List Bytes
unfolding prepend
split c [] = [] ∷ []
split c (x ∷ s) = let parts = split c s in if x == c then [] ∷ parts else prepend x parts

-- strings.Join
unfoldable pub join : Bytes → List Bytes → Bytes
join sep [] = []
join sep (p ∷ []) = p
join sep (p ∷ q ∷ ps) = p ++ (sep ++ join sep (q ∷ ps))

-- strings.ReplaceAll of one byte by a text.
unfoldable pub replace_all : ℕ → Bytes → Bytes → Bytes
replace_all c by [] = []
replace_all c by (x ∷ s) = (if x == c then by else x ∷ []) ++ replace_all c by s

-- A byte that does not occur.
abbrev pub Lacks : ℕ → Bytes → Type 0
Lacks b = All (λ c. c ≢ b)

pub split-cut : (c : ℕ) (p s : Bytes) → Lacks c p → split c (p ++ c ∷ s) ≡ p ∷ split c s
unfolding split
split-cut c [] s h = ground arith
split-cut c (x ∷ p) s h = ground (arith, split-cut c p s h.1)

pub split-Lacks : (c : ℕ) (p : Bytes) → Lacks c p → split c p ≡ p ∷ []
unfolding split
split-Lacks c [] h = refl
split-Lacks c (x ∷ p) h = ground (arith, split-Lacks c p h.1)

-- An atom ends at the first space.
pub cut_at-Lacks : (c : ℕ) (p s : Bytes) → Lacks c p → cut_at c (p ++ c ∷ s) ≡ (p, c ∷ s)
unfolding cut_at
cut_at-Lacks c [] s h = ground arith
cut_at-Lacks c (x ∷ p) s h = ground (arith, cut_at-Lacks c p s h.1)

pub cut_at-none : (c : ℕ) (p : Bytes) → Lacks c p → cut_at c p ≡ (p, [])
unfolding cut_at
cut_at-none c [] h = refl
cut_at-none c (x ∷ p) h = ground (arith, cut_at-none c p h.1)

pub split_once-Lacks : (c : ℕ) (p s : Bytes) → Lacks c p → split_once c (p ++ c ∷ s) ≡ (p, some s)
unfolding split_once
split_once-Lacks c [] s h = ground arith
split_once-Lacks c (x ∷ p) s h = ground (arith, split_once-Lacks c p s h.1)

pub split_once-none : (c : ℕ) (p : Bytes) → Lacks c p → split_once c p ≡ (p, none)
unfolding split_once
split_once-none c [] h = refl
split_once-none c (x ∷ p) h = ground (arith, split_once-none c p h.1)

-- The cut does not lose a byte.
pub cut_at_whole : (c : ℕ) (s : Bytes) → (cut_at c s).0 ++ (cut_at c s).1 ≡ s
unfolding cut_at
cut_at_whole c [] = refl
cut_at_whole c (x ∷ s) = ground (arith, cut_at_whole c s)

All-if {ℓ} :
    (P : ℕ → Type ℓ) (a b : Bytes) (t : Bool) → All P a → All P b → All P (if t then a else b)
All-if P a b true ha hb = ha
All-if P a b false ha hb = hb

-- `by` stands where `c` stood, so a byte that neither holds does not come in.
pub All-replace_all {ℓ} :
    (P : ℕ → Type ℓ) (c : ℕ) (by s : Bytes) → All P by → All P s → All P (replace_all c by s)
unfolding replace_all
All-replace_all P c by [] hb h = tt
All-replace_all P c by (x ∷ s) hb h =
    All-append P _ (replace_all c by s) (All-if P _ _ (x == c) hb (h.0, tt))
      (All-replace_all P c by s hb h.1)

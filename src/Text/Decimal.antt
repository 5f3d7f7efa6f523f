-- ===== src/Text/Decimal.antt =====
-- Decimal numerals: fmt's %d of a non-negative number.
use go_managesieve.Common.{
  ℕ, zero, suc, ◌+◌, ◌/◌, ◌%◌, ◌≤◌, ◌≡◌, [], ◌∷◌, ◌++◌, arith, Bytes, ltb, if◌then◌else◌,
  Bool-cases, inl, inr, All, All-append,
}

-- A number below 10 ^ fuel has at most `fuel` digits.
unfoldable pub decimal_from : ℕ → ℕ → Bytes
decimal_from zero n = []
decimal_from (suc fuel) n =
    let front = decimal_from fuel (n / 10) in
    let here = (b'0' + n % 10) ∷ [] in if ltb n 10 then here else front ++ here

unfoldable pub decimal : ℕ → Bytes
unfolding decimal_from
decimal n = decimal_from (suc n) n

abbrev pub IsDigit : ℕ → Type 0
IsDigit c = (b'0' ≤ c) × (c ≤ b'9')

decimal_from-IsDigit : (fuel n : ℕ) → All IsDigit (decimal_from fuel n)
unfolding decimal_from
decimal_from-IsDigit zero n = tt
decimal_from-IsDigit (suc fuel) n = elim (Bool-cases (ltb n 10)) [
  | inl p ↦ rw p (omega arith)
  | inr p ↦ rw p (All-append IsDigit _ _ (decimal_from-IsDigit fuel (n / 10)) (omega arith))
]

pub decimal-IsDigit : (n : ℕ) → All IsDigit (decimal n)
unfolding decimal
decimal-IsDigit n = decimal_from-IsDigit (suc n) n

-- A printed number ends in a digit.
pub decimal-last : (n : ℕ) → (front : Bytes) × (c : ℕ) × (decimal n ≡ front ++ c ∷ [])
unfolding decimal
decimal-last n = elim (Bool-cases (ltb n 10)) [
  | inl p ↦ ([], b'0' + n % 10, rw p)
  | inr p ↦ (decimal_from n (n / 10), b'0' + n % 10, rw p)
]

-- ===== src/Client/Blocks/Bounds.antt =====
-- What readCapabilityBlock of managesieveclient/client.go leaves behind, whatever the server sends.
use go_managesieve.Common.{
  ℕ, zero, suc, ◌+◌, ◌≤◌, ◌<◌, ◌≡◌, refl, ◌||◌, List, [], ◌∷◌, Option, none, some, arith, Bytes,
  codes, bytes_eq, length, Bool-cases, inl, inr,
}
use go_managesieve.Text.Utf8.{to_upper}
use go_managesieve.Client.Responses.{is_status, is_ok, parse_capability_line}
use go_managesieve.Client.State.{
  Context, ClientError, Client, LineReply, response, no_response, read_response, put_capability,
  add_capability, block_step, block_from, read_capability_block,
}

put_capability-length :
    (name value : Bytes) (caps : List (Bytes × Bytes))
    → length (put_capability name value caps) ≤ suc (length caps)
unfolding put_capability
put_capability-length name value [] = omega arith
put_capability-length name value ((n, v) ∷ caps) = elim (Bool-cases (bytes_eq n name)) [
  | inl p ↦ rw p (omega arith)
  | inr p ↦ rw p (omega (arith, put_capability-length name value caps))
]

add_capability-length :
    (upper_rune : ℕ → ℕ) (nv : Bytes × Bytes) (caps : List (Bytes × Bytes))
    → length (add_capability upper_rune nv caps) ≤ suc (length caps)
unfolding add_capability
add_capability-length upper_rune ([], value) caps = omega arith
add_capability-length upper_rune (c ∷ name, value) caps =
    put_capability-length (to_upper upper_rune (c ∷ name)) value caps

-- The map is replaced by one of less entries than the limit, or it stays as it was.
abbrev pub Settled : ℕ → Client → Option ClientError × Client → Type 0
Settled limit c (none, c') = length c'.caps < limit
Settled limit c (some e, c') = (c'.caps ≡ c.caps) × (c'.greeting ≡ c.greeting)

-- The error of a line and what is left of the client.
abbrev SameMap : Client → Client → Type 0
SameMap c c' = (c'.caps ≡ c.caps) × (c'.greeting ≡ c.greeting)

module _ (upper_rune : ℕ → ℕ) (limit : ℕ) (before : Client) where
  block_step-Settled :
      (ctx : Context) (more : List (Bytes × Bytes) → Client → Option ClientError × Client)
      (caps : List (Bytes × Bytes)) (r : LineReply) (c : Client)
      → SameMap before c
      → length caps < limit
      → ((l : Bytes)
          → Settled limit before
              (more (add_capability upper_rune (parse_capability_line l) caps) c))
      → Settled limit before (block_step upper_rune ctx more caps (r, c))
  unfolding block_step
  block_step-Settled ctx more caps (no_response e) c same le later = same
  block_step-Settled ctx more caps (response l) c same le later = elim (Bool-cases (is_ok l)) [
    | inl p ↦ rw p le
    | inr p ↦ rw p (elim (Bool-cases (is_status l (codes "NO") || is_status l (codes "BYE"))) [
      | inl q ↦ rw q same
      | inr q ↦ rw q (later l)
    ])
  ]

  block_from-Settled :
      (left : ℕ) (ctx : Context) (caps : List (Bytes × Bytes)) (c : Client)
      → SameMap before c
      → length caps + left ≤ limit
      → Settled limit before (block_from upper_rune left ctx caps c)
  unfolding block_from read_response
  block_from-Settled zero ctx caps c same h = same
  block_from-Settled (suc left) ctx caps c same h =
      block_step-Settled ctx (block_from upper_rune left ctx) caps (read_response ctx c).0
        (read_response ctx c).1 same (omega arith)
        (λ l.
          block_from-Settled left ctx _ (read_response ctx c).1 same
            (omega (arith, add_capability-length upper_rune (parse_capability_line l) caps)))

-- Whatever the server sends, readCapabilityBlock ends: with a map of fewer capabilities than
-- MaxCapabilityLines, or with an error that leaves the map and the greeting as they were.
pub read_capability_block-Settled :
    (upper_rune : ℕ → ℕ) (ctx : Context) (c : Client)
    → Settled c.max_caps c (read_capability_block upper_rune ctx c)
unfolding read_capability_block
read_capability_block-Settled upper_rune ctx c =
    block_from-Settled upper_rune c.max_caps c c.max_caps ctx [] c (refl, refl) (omega arith)

-- ===== src/Client/Blocks.antt =====
-- readCapabilityBlock of managesieveclient/client.go on a listing that a server sends.
pub mod Bounds
use go_managesieve.Common.{
  ℕ, zero, suc, ◌≤◌, ◌<◌, ◌≡◌, refl, sym, ◌∙◌, ap, subst, Bool, true, false, ◌||◌, List, [], ◌∷◌,
  ◌++◌, append-nil, Option, none, some, arith, Bytes, codes, ltb, ◌==◌, if◌then◌else◌, length, All,
}
use go_managesieve.Text.Search.{Lacks}
use go_managesieve.Server.Reader.{Reader, flat, cut_line, LineResult, got}
use go_managesieve.Server.Reader.Lines.{seen}
use go_managesieve.Client.Responses.{is_status, is_ok, parse_capability_line}
use go_managesieve.Client.Lines.{strip_line, read_response_line}
use go_managesieve.Client.Lines.Stream.{Reads, read_response_line-Reads, strip_line-append}
use go_managesieve.Client.State.{
  Context, arm_read_deadline, ClientError, Client, LineReply, response, response_of, read_response,
  add_capability, block_step, block_from, read_capability_block,
}

abbrev pub crlf : Bytes
crlf = codes "\r\n"

-- The lines of a listing, the line that ends it, and what the server sends behind it.
abbrev pub listing : List Bytes → Bytes → Bytes → Bytes
listing [] final rest = final ++ (crlf ++ rest)
listing (l ∷ lines) final rest = l ++ (crlf ++ listing lines final rest)

cut_line-crlf :
    (l rest : Bytes) → Lacks b'\n' l → cut_line (l ++ (crlf ++ rest)) ≡ some (l ++ crlf, rest)
unfolding cut_line
cut_line-crlf [] rest h = refl
cut_line-crlf (c ∷ l) rest h = ground (arith, cut_line-crlf l rest h.1)

strip_line-nil : strip_line crlf ≡ []
unfolding strip_line
strip_line-nil = refl

strip_line-crlf : (l : Bytes) → strip_line (l ++ crlf) ≡ l
strip_line-crlf l = strip_line-append l b'\r' b'\n' [] ∙ rw strip_line-nil (append-nil l)

Reads-short :
    (max_line : ℕ) (l rest : Bytes) (r : LineResult × Bytes)
    → length l ≤ max_line
    → Reads max_line l rest r
    → r ≡ (got l, rest)
Reads-short max_line l rest r le h =
    let short : ltb max_line (length l) ≡ false = ground arith in (rw short at h)

-- What reading a stream that begins with a line comes to.
pub read_response_line-Reads-crlf :
    (max_line : ℕ) (rd : Reader) (l rest : Bytes)
    → Lacks b'\n' l
    → flat rd ≡ l ++ (crlf ++ rest)
    → Reads max_line l rest (seen (read_response_line max_line rd))
read_response_line-Reads-crlf max_line rd l rest h e =
    subst (λ t. Reads max_line t rest (seen (read_response_line max_line rd))) (strip_line-crlf l)
      (read_response_line-Reads max_line rd (l ++ crlf) rest
        (ap cut_line e ∙ cut_line-crlf l rest h))

-- A line within the limit is read, and the stream goes on behind it.
pub read_response_line-crlf :
    (max_line : ℕ) (rd : Reader) (l rest : Bytes)
    → Lacks b'\n' l
    → length l ≤ max_line
    → flat rd ≡ l ++ (crlf ++ rest)
    → seen (read_response_line max_line rd) ≡ (got l, rest)
read_response_line-crlf max_line rd l rest h le e =
    Reads-short max_line l rest _ le (read_response_line-Reads-crlf max_line rd l rest h e)

-- A line of a listing: within the limit, and no status line.
abbrev pub IsListed : ℕ → Bytes → Type 0
IsListed max_line l =
    Lacks b'\n' l
    × (length l ≤ max_line)
    × (is_ok l ≡ false)
    × ((is_status l (codes "NO") || is_status l (codes "BYE")) ≡ false)

-- The line that ends a listing.
abbrev pub IsFinal : ℕ → Bytes → Type 0
IsFinal max_line l = Lacks b'\n' l × (length l ≤ max_line) × (is_ok l ≡ true)

module _ (upper_rune : ℕ → ℕ) where
  -- The capabilities that the lines of a listing put into the map.
  abbrev pub collected : List Bytes → List (Bytes × Bytes) → List (Bytes × Bytes)
  collected [] caps = caps
  collected (l ∷ lines) caps =
      collected lines (add_capability upper_rune (parse_capability_line l) caps)

  -- The block was read: no error, the map, the greeting, and the stream behind it.
  abbrev pub BlockRead : List (Bytes × Bytes) → Bytes → Bytes → Option ClientError × Client → Type 0
  BlockRead caps final rest (e, c) =
      (e ≡ none) × (c.caps ≡ caps) × (c.greeting ≡ final) × (flat c.reader ≡ rest)

  block_step-final :
      (ctx : Context) (more : List (Bytes × Bytes) → Client → Option ClientError × Client)
      (caps : List (Bytes × Bytes)) (final rest : Bytes) (r : LineReply) (c : Client)
      → r ≡ response final
      → flat c.reader ≡ rest
      → is_ok final ≡ true
      → BlockRead caps final rest (block_step upper_rune ctx more caps (r, c))
  unfolding block_step
  block_step-final ctx more caps final rest r c e f ok = rw (e, ok) (refl, refl, refl, f)

  block_step-listed :
      (ctx : Context) (more : List (Bytes × Bytes) → Client → Option ClientError × Client)
      (caps : List (Bytes × Bytes)) (l : Bytes) (r : LineReply) (c : Client)
      → r ≡ response l
      → is_ok l ≡ false
      → (is_status l (codes "NO") || is_status l (codes "BYE")) ≡ false
      → block_step upper_rune ctx more caps (r, c)
        ≡ more (add_capability upper_rune (parse_capability_line l) caps) c
  unfolding block_step
  block_step-listed ctx more caps l r c e p q = rw (e, p, q) refl

  block_from-listing :
      (left : ℕ) (ctx : Context) (caps : List (Bytes × Bytes)) (c : Client) (lines : List Bytes)
      (final rest : Bytes)
      → length lines < left
      → All (IsListed c.max_line) lines
      → IsFinal c.max_line final
      → flat c.reader ≡ listing lines final rest
      → BlockRead (collected lines caps) final rest (block_from upper_rune left ctx caps c)
  unfolding block_from read_response response_of
  block_from-listing zero ctx caps c lines final rest h hl hf e = absurd (omega arith)
  block_from-listing (suc left) ctx caps c [] final rest h hl (lacks, le, ok) e =
      let r = read_response_line c.max_line c.reader in
      let got_line = read_response_line-crlf c.max_line c.reader final rest lacks le e in
      block_step-final ctx (block_from upper_rune left ctx) caps final rest (response_of r.0)
        (record c { reader = r.1; deadlines = arm_read_deadline ctx c.deadlines })
        (ap (λ (x : LineResult × Bytes). response_of x.0) got_line)
        (ap (λ (x : LineResult × Bytes). x.1) got_line) ok
  block_from-listing (suc left) ctx caps c (l ∷ lines) final rest h ((lacks, le, p, q), hl) hf e =
      let r = read_response_line c.max_line c.reader in
      let c' = record c { reader = r.1; deadlines = arm_read_deadline ctx c.deadlines } in
      let got_line =
        read_response_line-crlf c.max_line c.reader l (listing lines final rest) lacks le e in
      subst (BlockRead (collected (l ∷ lines) caps) final rest)
        (sym (
          block_step-listed ctx (block_from upper_rune left ctx) caps l (response_of r.0) c'
            (ap (λ (x : LineResult × Bytes). response_of x.0) got_line) p q))
        (block_from-listing left ctx (add_capability upper_rune (parse_capability_line l) caps) c'
          lines final rest (omega arith) hl hf (ap (λ (x : LineResult × Bytes). x.1) got_line))

  -- A listing of fewer lines than MaxCapabilityLines, none of them a status line or over
  -- MaxLineLength, that an OK line ends is read to its end: the map holds what its lines say, the
  -- greeting is the OK line, and what the server sends behind it is left in the stream.
  pub read_capability_block-listing :
      (ctx : Context) (c : Client) (lines : List Bytes) (final rest : Bytes)
      → length lines < c.max_caps
      → All (IsListed c.max_line) lines
      → IsFinal c.max_line final
      → flat c.reader ≡ listing lines final rest
      → BlockRead (collected lines []) final rest (read_capability_block upper_rune ctx c)
  unfolding read_capability_block
  read_capability_block-listing ctx c lines final rest h hl hf e =
      block_from-listing c.max_caps ctx [] c lines final rest h hl hf e

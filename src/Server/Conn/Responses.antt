-- ===== src/Server/Conn/Responses.antt =====
-- The text of a session's error, whatever it holds, stays on the response line.
use go_managesieve.Common.{
  ℕ, ◌≡◌, ◌≢◌, List, refl, arith, ◌||◌, [], ◌∷◌, ◌++◌, Bytes, codes, ◌==◌, Bool-cases, inl, inr,
  All, All-append,
}
use go_managesieve.Server.Errors.{strip_crlf}
use go_managesieve.Server.Conn.State.{Event, Conn, wrote, emit, write, write_line, ok_line, no_line}

-- The bytes that the events of a connection put on the wire, newest event first.
abbrev pub sent_bytes : List Event → Bytes
sent_bytes [] = []
sent_bytes (wrote text ∷ trace) = sent_bytes trace ++ text
sent_bytes (_ ∷ trace) = sent_bytes trace

-- A byte that ends no line.
abbrev pub IsInline : ℕ → Type 0
IsInline c = (c ≢ b'\r') × (c ≢ b'\n')

pub strip_crlf-IsInline : (s : Bytes) → All IsInline (strip_crlf s)
unfolding strip_crlf
strip_crlf-IsInline [] = _
strip_crlf-IsInline (c ∷ s) = elim (Bool-cases (c == b'\r' || c == b'\n')) [
  | inl p ↦ rw p (strip_crlf-IsInline s)
  | inr p ↦ rw p (((ground (arith, p)), (ground (arith, p))), strip_crlf-IsInline s)
]

module _ {S : Type 0} where
  -- A connection has written one line more.
  pub WritesLine : Conn S → Conn S → Type 0
  WritesLine c d =
      (line : Bytes) × ((d.trace ≡ wrote (line ++ codes "\r\n") ∷ c.trace) × All IsInline line)

  -- A NO or an OK response is one line, whatever the text of the message holds: CR and LF, which would
  -- end it and begin another response, are left out.
  pub responses-WritesLine :
      (msg : Bytes) (c : Conn S) → WritesLine c (no_line msg c) × WritesLine c (ok_line msg c)
  unfolding WritesLine no_line ok_line write_line write emit
  responses-WritesLine [] c = (
    (codes "NO", (refl, ((omega arith, omega arith), ((omega arith, omega arith), _)))),
    (codes "OK", (refl, ((omega arith, omega arith), ((omega arith, omega arith), _)))),
  )
  responses-WritesLine (x ∷ msg) c = (
    (
      codes "NO " ++ strip_crlf (x ∷ msg),
      (
        refl,
        All-append IsInline (codes "NO ") _
            (
              (omega arith, omega arith),
              ((omega arith, omega arith), ((omega arith, omega arith), _)),
            )
            (strip_crlf-IsInline (x ∷ msg)),
      ),
    ),
    (
      codes "OK " ++ strip_crlf (x ∷ msg),
      (
        refl,
        All-append IsInline (codes "OK ") _
            (
              (omega arith, omega arith),
              ((omega arith, omega arith), ((omega arith, omega arith), _)),
            )
            (strip_crlf-IsInline (x ∷ msg)),
      ),
    ),
  )

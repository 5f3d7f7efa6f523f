-- ===== src/Wire/Extensions.antt =====
-- managesieve/extensions.go: the vocabulary of SIEVE extensions and its filter.
use go_managesieve.Common.{
  ◌≡◌, refl, Bool, false, ◌||◌, not, List, [], ◌∷◌, ◌++◌, append_assoc, append-nil, Bytes, codes,
  bytes_eq, if◌then◌else◌, Bool-cases, inl, inr,
}

abbrev pub default_enabled_extensions : List Bytes
default_enabled_extensions =
    codes "fileinto"
    ∷ codes "envelope"
    ∷ codes "encoded-character"
    ∷ codes "comparator-i;octet"
    ∷ codes "comparator-i;ascii-casemap"
    ∷ codes "comparator-i;ascii-numeric"
    ∷ codes "comparator-i;unicode-casemap"
    ∷ codes "imap4flags"
    ∷ codes "variables"
    ∷ codes "relational"
    ∷ codes "vacation"
    ∷ codes "copy"
    ∷ codes "regex"
    ∷ codes "date"
    ∷ codes "index"
    ∷ codes "mailbox"
    ∷ codes "subaddress"
    ∷ codes "body"
    ∷ codes "mime"
    ∷ codes "foreverypart"
    ∷ codes "extracttext"
    ∷ codes "reject"
    ∷ codes "ereject"
    ∷ []

abbrev pub supported_extensions : List Bytes
supported_extensions =
    codes "fileinto"
    ∷ codes "envelope"
    ∷ codes "encoded-character"
    ∷ codes "comparator-i;octet"
    ∷ codes "comparator-i;ascii-casemap"
    ∷ codes "comparator-i;ascii-numeric"
    ∷ codes "comparator-i;unicode-casemap"
    ∷ codes "imap4flags"
    ∷ codes "variables"
    ∷ codes "relational"
    ∷ codes "vacation"
    ∷ codes "copy"
    ∷ codes "regex"
    ∷ codes "date"
    ∷ codes "index"
    ∷ codes "mailbox"
    ∷ codes "subaddress"
    ∷ codes "body"
    ∷ codes "mime"
    ∷ codes "foreverypart"
    ∷ codes "extracttext"
    ∷ codes "reject"
    ∷ codes "ereject"
    ∷ codes "editheader"
    ∷ []

-- The map of the supported names, as the names put into it.
unfoldable pub contains : List Bytes → Bytes → Bool
contains [] name = false
contains (x ∷ xs) name = bytes_eq x name || contains xs name

filter_loop : List Bytes → List Bytes → List Bytes → List Bytes → List Bytes × List Bytes
filter_loop supported valid invalid [] = (valid, invalid)
filter_loop supported valid invalid (e ∷ es) =
    let known = contains supported e in
    filter_loop supported (if known then valid ++ e ∷ [] else valid)
      (if known then invalid else invalid ++ e ∷ []) es

unfoldable pub filter_extensions : List Bytes → List Bytes × List Bytes
unfolding filter_loop contains
filter_extensions [] = ([], [])
filter_extensions (e ∷ es) = filter_loop supported_extensions [] [] (e ∷ es)

-- The copy that is advertised.
unfoldable pub get_sieve_capabilities : List Bytes → List Bytes
get_sieve_capabilities supported = supported

-- The names of a list that a test accepts, in their order.
pub kept : (Bytes → Bool) → List Bytes → List Bytes
kept p [] = []
kept p (x ∷ xs) = if p x then x ∷ kept p xs else kept p xs

module _ (supported : List Bytes) where
  filter_loop-kept :
      (es valid invalid : List Bytes)
      → filter_loop supported valid invalid es ≡ (
        valid ++ kept (contains supported) es,
        invalid ++ kept (λ e. not (contains supported e)) es,
      )
  unfolding filter_loop kept
  filter_loop-kept [] valid invalid = simp append-nil
  filter_loop-kept (e ∷ es) valid invalid = elim (Bool-cases (contains supported e)) [
    | inl p ↦ rw p (simp (filter_loop-kept es, append_assoc))
    | inr p ↦ rw p (simp (filter_loop-kept es, append_assoc))
  ]

-- The accepted names are those of the supported list, the refused ones are the others, and both
-- stand in the order of the input.
pub filter_extensions-kept :
    (es : List Bytes)
    → filter_extensions es ≡ (
      kept (contains supported_extensions) es,
      kept (λ e. not (contains supported_extensions e)) es,
    )
filter_extensions-kept [] = unfold filter_extensions kept in refl
filter_extensions-kept (e ∷ es) =
    let loop = filter_loop-kept supported_extensions (e ∷ es) [] [] in
    unfold filter_extensions in loop

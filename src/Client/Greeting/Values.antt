-- ===== src/Client/Greeting/Values.antt =====
-- The map of capabilities that readCapabilityBlock of managesieveclient/client.go builds, read at a key.
use go_managesieve.Common.{
  ℕ, ◌≡◌, refl, sym, ◌∙◌, ap, List, [], ◌∷◌, Option, none, some, Bytes, bytes_eq, bytes_eq_iff,
  if◌then◌else◌, Bool-cases, inl, inr,
}
use go_managesieve.Text.Utf8.{to_upper}
use go_managesieve.Wire.{Capability}
use go_managesieve.Client.State.{put_capability, add_capability}
use go_managesieve.Client.Greeting.Reading.{known}
use go_managesieve.Store.Lookup.{bytes_eq_ne, same_name}

-- `caps[key]`
abbrev pub value_at : Bytes → List (Bytes × Bytes) → Option Bytes
value_at key [] = none
value_at key ((name, value) ∷ caps) = if bytes_eq name key then some value else value_at key caps

abbrev or_else : Option Bytes → Option Bytes → Option Bytes
or_else none o = o
or_else (some v) o = some v

or_else_assoc : (a b c : Option Bytes) → or_else (or_else a b) c ≡ or_else a (or_else b c)
or_else_assoc none b c = refl
or_else_assoc (some v) b c = refl

or_else-none : (a : Option Bytes) → or_else a none ≡ a
or_else-none none = refl
or_else-none (some v) = refl

value_at-put :
    (key name value : Bytes) (caps : List (Bytes × Bytes))
    → value_at key (put_capability name value caps)
      ≡ (if bytes_eq name key then some value else value_at key caps)
unfolding put_capability
value_at-put key name value [] = refl
value_at-put key name value ((n, v) ∷ caps) = elim (same_name n name) [
  | inl p ↦ rw ((bytes_eq_iff n name).1 p) (elim (Bool-cases (bytes_eq name key)) [
    | inl q ↦ rw (ap (λ t. bytes_eq t key) p ∙ q, q) refl
    | inr q ↦ rw (ap (λ t. bytes_eq t key) p ∙ q, q) refl
  ])
  | inr differs ↦ rw (bytes_eq_ne n name differs) (elim (same_name n key) [
    | inl p ↦ rw ((bytes_eq_iff n key).1 p, bytes_eq_ne name key (λ q. differs (p ∙ sym q))) refl
    | inr q ↦ rw (bytes_eq_ne n key q) (value_at-put key name value caps)
  ])
]

module _ (upper_rune : ℕ → ℕ) where
  -- The value that a capability gives to a key: its upper-cased name, which is not empty.
  abbrev gives : Bytes → Bytes → Bytes → Option Bytes
  gives key [] value = none
  gives key (x ∷ name) value =
      if bytes_eq (to_upper upper_rune (x ∷ name)) key then some value else none

  -- The value of a key among capabilities: that of the last one of the name, whatever its case.
  abbrev pub last_value : Bytes → List Capability → Option Bytes
  last_value key [] = none
  last_value key (capa ∷ capas) =
      or_else (last_value key capas)
        (gives key capa.name (if capa.has_value then capa.value else []))

  value_at-add :
      (key name value : Bytes) (caps : List (Bytes × Bytes))
      → value_at key (add_capability upper_rune (name, value) caps)
        ≡ or_else (gives key name value) (value_at key caps)
  unfolding add_capability
  value_at-add key [] value caps = refl
  value_at-add key (x ∷ name) value caps =
      value_at-put key (to_upper upper_rune (x ∷ name)) value caps
      ∙ elim (Bool-cases (bytes_eq (to_upper upper_rune (x ∷ name)) key)) [
        | inl p ↦ rw p refl
        | inr p ↦ rw p refl
      ]

  value_at-known_behind :
      (key : Bytes) (capas : List Capability) (caps : List (Bytes × Bytes))
      → value_at key (known upper_rune capas caps)
        ≡ or_else (last_value key capas) (value_at key caps)
  value_at-known_behind key [] caps = refl
  value_at-known_behind key (capa ∷ capas) caps =
      let value = if capa.has_value then capa.value else [] in
      value_at-known_behind key capas (add_capability upper_rune (capa.name, value) caps)
      ∙ ap (or_else (last_value key capas)) (value_at-add key capa.name value caps)
      ∙ sym (or_else_assoc (last_value key capas) (gives key capa.name value) (value_at key caps))

  pub value_at-known :
      (key : Bytes) (capas : List Capability)
      → value_at key (known upper_rune capas []) ≡ last_value key capas
  value_at-known key capas =
      value_at-known_behind key capas [] ∙ or_else-none (last_value key capas)

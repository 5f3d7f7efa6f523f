-- ===== src/Store/Lookup.antt =====
-- What a lookup finds behind each change of the scripts.
use go_managesieve.Common.{
  ◌≡◌, ◌≢◌, refl, sym, ◌∙◌, arith, false, List, [], ◌∷◌, ◌++◌, Option, none, some, Bytes, bytes_eq,
  bytes_eq_iff, false-ne-true, ◌⊎◌, Bool-cases, inl, inr,
}
use go_managesieve.Store.Scripts.{Script, find, change, remove, with_active, deactivate_all}

abbrev pub map_script : (Script → Script) → Option Script → Option Script
map_script f none = none
map_script f (some sc) = some (f sc)

pub some-ne-none : (sc : Script) → some sc ≢ none
some-ne-none sc = ground arith

pub bytes_eq_ne : (a b : Bytes) → (a ≢ b) → bytes_eq a b ≡ false
bytes_eq_ne a b h = elim (Bool-cases (bytes_eq a b)) [
  | inl p ↦ absurd (h ((bytes_eq_iff a b).0 p))
  | inr p ↦ p
]

pub bytes_eq_other : (a b : Bytes) → bytes_eq a b ≡ false → a ≢ b
bytes_eq_other a b h e = false-ne-true (sym h ∙ (bytes_eq_iff a b).1 e)

module _ (name : Bytes) (sc : Script) (scs : List Script) where
  pub find-head : sc.name ≡ name → find name (sc ∷ scs) ≡ some sc
  unfolding find
  find-head e = rw ((bytes_eq_iff sc.name name).1 e) refl

  pub find-tail : (sc.name ≢ name) → find name (sc ∷ scs) ≡ find name scs
  unfolding find
  find-tail ne = rw (bytes_eq_ne sc.name name ne) refl

  pub find-none_head : find name (sc ∷ scs) ≡ none → (sc.name ≢ name) × (find name scs ≡ none)
  find-none_head h = elim (Bool-cases (bytes_eq sc.name name)) [
    | inl p ↦ absurd (some-ne-none sc (sym (find-head ((bytes_eq_iff sc.name name).0 p)) ∙ h))
    | inr p ↦ (bytes_eq_other sc.name name p, sym (find-tail (bytes_eq_other sc.name name p)) ∙ h)
  ]

  module _ (f : Script → Script) where
    pub change-head : sc.name ≡ name → change name f (sc ∷ scs) ≡ f sc ∷ scs
    unfolding change
    change-head e = rw ((bytes_eq_iff sc.name name).1 e) refl

    pub change-tail : (sc.name ≢ name) → change name f (sc ∷ scs) ≡ sc ∷ change name f scs
    unfolding change
    change-tail ne = rw (bytes_eq_ne sc.name name ne) refl

  pub remove-head : sc.name ≡ name → remove name (sc ∷ scs) ≡ scs
  unfolding remove
  remove-head e = rw ((bytes_eq_iff sc.name name).1 e) refl

  pub remove-tail : (sc.name ≢ name) → remove name (sc ∷ scs) ≡ sc ∷ remove name scs
  unfolding remove
  remove-tail ne = rw (bytes_eq_ne sc.name name ne) refl

-- Whether two names are the same.
pub same_name : (a b : Bytes) → (a ≡ b) ⊎ (a ≢ b)
same_name a b = elim (Bool-cases (bytes_eq a b)) [
  | inl p ↦ inl ((bytes_eq_iff a b).0 p)
  | inr p ↦ inr (bytes_eq_other a b p)
]

find-nil : (name : Bytes) → find name [] ≡ none
unfolding find
find-nil name = refl

-- A change that keeps the name is seen under the name, and under no other.
module _ (name : Bytes) (f : Script → Script) (keeps : (sc : Script) → (f sc).name ≡ sc.name) where
  pub find-change :
      (scs : List Script) → find name (change name f scs) ≡ map_script f (find name scs)
  find-change [] = unfold find change in refl
  find-change (sc ∷ scs) = elim (same_name sc.name name) [
    | inl e ↦
        rw
          (
            change-head name sc scs f e,
            find-head name sc scs e,
            find-head name (f sc) scs (keeps sc ∙ e),
          )
          refl
    | inr ne ↦
        rw
          (
            change-tail name sc scs f ne,
            find-tail name sc scs ne,
            find-tail name sc (change name f scs) ne,
          )
          (find-change scs)
  ]

  pub find-change_other :
      (n : Bytes) (scs : List Script) → (n ≢ name) → find n (change name f scs) ≡ find n scs
  find-change_other n [] ne = unfold find change in refl
  find-change_other n (sc ∷ scs) ne = elim (same_name sc.name name) [
    | inl e ↦
        let other : sc.name ≢ n = λ p. ne (sym p ∙ e) in
        rw
          (
            change-head name sc scs f e,
            find-tail n sc scs other,
            find-tail n (f sc) scs (λ p. other (sym (keeps sc) ∙ p)),
          )
          refl
    | inr differs ↦ rw (change-tail name sc scs f differs) (elim (same_name sc.name n) [
      | inl p ↦ rw (find-head n sc scs p, find-head n sc (change name f scs) p) refl
      | inr q ↦
          rw (find-tail n sc scs q, find-tail n sc (change name f scs) q)
            (find-change_other n scs ne)
    ])
  ]

-- The same of removing a script, whose name has no second script.
module _ (name : Bytes) where
  pub find-remove_other :
      (n : Bytes) (scs : List Script) → (n ≢ name) → find n (remove name scs) ≡ find n scs
  find-remove_other n [] ne = unfold find remove in refl
  find-remove_other n (sc ∷ scs) ne = elim (same_name sc.name name) [
    | inl e ↦ rw (remove-head name sc scs e, find-tail n sc scs (λ p. ne (sym p ∙ e))) refl
    | inr differs ↦ rw (remove-tail name sc scs differs) (elim (same_name sc.name n) [
      | inl p ↦ rw (find-head n sc scs p, find-head n sc (remove name scs) p) refl
      | inr q ↦
          rw (find-tail n sc scs q, find-tail n sc (remove name scs) q) (find-remove_other n scs ne)
    ])
  ]

-- A new script at the end is found under its name, and under no other.
module _ (new : Script) where
  pub find-append :
      (scs : List Script) → find new.name scs ≡ none → find new.name (scs ++ new ∷ []) ≡ some new
  find-append [] h = find-head new.name new [] refl
  find-append (sc ∷ scs) h =
      let (ne, rest) = find-none_head new.name sc scs h in
      find-tail new.name sc (scs ++ new ∷ []) ne ∙ find-append scs rest

  pub find-append_other :
      (n : Bytes) (scs : List Script) → (n ≢ new.name) → find n (scs ++ new ∷ []) ≡ find n scs
  find-append_other n [] ne = find-tail n new [] (λ p. ne (sym p))
  find-append_other n (sc ∷ scs) ne = elim (same_name sc.name n) [
    | inl p ↦ rw (find-head n sc scs p, find-head n sc (scs ++ new ∷ []) p) refl
    | inr q ↦
        rw (find-tail n sc scs q, find-tail n sc (scs ++ new ∷ []) q) (find-append_other n scs ne)
  ]

pub find-deactivate_all :
    (n : Bytes) (scs : List Script)
    → find n (deactivate_all scs) ≡ map_script (with_active false) (find n scs)
unfolding deactivate_all
find-deactivate_all n [] = unfold find in refl
find-deactivate_all n (sc ∷ scs) = elim (same_name sc.name n) [
  | inl p ↦
      rw (find-head n sc scs p, find-head n (with_active false sc) (deactivate_all scs) p) refl
  | inr q ↦
      rw (find-tail n sc scs q, find-tail n (with_active false sc) (deactivate_all scs) q)
        (find-deactivate_all n scs)
]

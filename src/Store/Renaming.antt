-- ===== src/Store/Renaming.antt =====
-- What a lookup finds behind removing and renaming a script, among scripts of different names.
use go_managesieve.Common.{◌≡◌, ◌≢◌, refl, sym, ◌∙◌, subst, List, [], ◌∷◌, none, Bytes, inl, inr}
use go_managesieve.Store.Scripts.{Script, find, change, remove, with_name}
use go_managesieve.Store.Lookup.{
  map_script, same_name, find-head, find-tail, find-none_head, change-head, change-tail,
  remove-head, remove-tail,
}
use go_managesieve.Store.Shape.{Unique}

pub find-remove :
    (name : Bytes) (scs : List Script) → Unique scs → find name (remove name scs) ≡ none
find-remove name [] u = unfold find remove in refl
find-remove name (sc ∷ scs) (absent, u) = elim (same_name sc.name name) [
  | inl e ↦ rw (remove-head name sc scs e) (subst (λ m. find m scs ≡ none) e absent)
  | inr ne ↦
      rw (remove-tail name sc scs ne)
        (find-tail name sc (remove name scs) ne ∙ find-remove name scs u)
]

module _ (old new : Bytes) where
  pub find-renamed_new :
      (scs : List Script)
      → find new scs ≡ none
      → find new (change old (with_name new) scs) ≡ map_script (with_name new) (find old scs)
  find-renamed_new [] h = unfold find change in refl
  find-renamed_new (sc ∷ scs) h =
      let (differs, rest) = find-none_head new sc scs h in
      elim (same_name sc.name old) [
        | inl e ↦
            rw (change-head old sc scs (with_name new) e, find-head old sc scs e)
              (find-head new (with_name new sc) scs refl)
        | inr q ↦
            rw (change-tail old sc scs (with_name new) q, find-tail old sc scs q)
              (find-tail new sc (change old (with_name new) scs) differs
                ∙ find-renamed_new scs rest)
      ]

  pub find-renamed_old :
      (scs : List Script)
      → (new ≢ old)
      → Unique scs
      → find old (change old (with_name new) scs) ≡ none
  find-renamed_old [] ne u = unfold find change in refl
  find-renamed_old (sc ∷ scs) ne (absent, u) = elim (same_name sc.name old) [
    | inl e ↦
        rw (change-head old sc scs (with_name new) e)
          (find-tail old (with_name new sc) scs ne ∙ subst (λ m. find m scs ≡ none) e absent)
    | inr q ↦
        rw (change-tail old sc scs (with_name new) q)
          (find-tail old sc (change old (with_name new) scs) q ∙ find-renamed_old scs ne u)
  ]

  pub find-renamed_other :
      (n : Bytes) (scs : List Script)
      → (n ≢ new)
      → (n ≢ old)
      → find n (change old (with_name new) scs) ≡ find n scs
  find-renamed_other n [] p q = unfold find change in refl
  find-renamed_other n (sc ∷ scs) p q = elim (same_name sc.name old) [
    | inl e ↦
        rw (change-head old sc scs (with_name new) e, find-tail n sc scs (λ r. q (sym r ∙ e)))
          (find-tail n (with_name new sc) scs (λ r. p (sym r)))
    | inr differs ↦
        rw (change-tail old sc scs (with_name new) differs) (elim (same_name sc.name n) [
          | inl r ↦
              rw (find-head n sc scs r, find-head n sc (change old (with_name new) scs) r) refl
          | inr r ↦
              rw (find-tail n sc scs r, find-tail n sc (change old (with_name new) scs) r)
                (find-renamed_other n scs p q)
        ])
  ]

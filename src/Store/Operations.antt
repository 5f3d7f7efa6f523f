-- ===== src/Store/Operations.antt =====
-- What PutScript, SetActive, DeleteScript and RenameScript keep of the shape of an account.
use go_managesieve.Common.{
  ℕ, ◌+◌, ◌≤◌, ◌<◌, ◌≡◌, ◌≢◌, refl, sym, ◌∙◌, subst, arith, true, false, ◌&&◌, List, [], ◌∷◌, ◌++◌,
  Option, none, some, Bytes, Bool-cases, inl, inr, length, ltb, leb,
}
use go_managesieve.Store.Scripts.{
  Script, find, change, with_content, with_active, with_name, deactivate_all, store_content,
  put_found, activate, activate_found, delete, delete_found, rename, rename_found,
}
use go_managesieve.Store.Lookup.{
  same_name, find-tail, find-none_head, change-head, change-tail, find-append_other,
}
use go_managesieve.Store.Shape.{
  Unique, idle, OneActive, WithinQuota, WellFormed, change-Unique, change-OneActive, length-change,
  deactivate_all-Unique, idle-deactivate_all, idle-OneActive, length-deactivate_all,
  activate-OneActive, remove-Unique, remove-OneActive, length-remove,
}

module _ (new : Script) (inactive : new.active ≡ false) where
  append-Unique :
      (scs : List Script) → find new.name scs ≡ none → Unique scs → Unique (scs ++ new ∷ [])
  append-Unique [] h u = (unfold find in refl, _)
  append-Unique (sc ∷ scs) h (absent, u) =
      let (ne, rest) = find-none_head new.name sc scs h in
      (find-append_other new sc.name scs ne ∙ absent, append-Unique scs rest u)

  idle-append : (scs : List Script) → idle (scs ++ new ∷ []) ≡ idle scs
  idle-append [] = ground (arith, inactive)
  idle-append (sc ∷ scs) = ground (arith, idle-append scs)

  append-OneActive : (scs : List Script) → OneActive scs → OneActive (scs ++ new ∷ [])
  append-OneActive [] u = ((λ h. refl), _)
  append-OneActive (sc ∷ scs) (only, u) = ((λ h. idle-append scs ∙ only h), append-OneActive scs u)

  length-append : (scs : List Script) → length (scs ++ new ∷ []) ≡ length scs + 1
  length-append [] = refl
  length-append (sc ∷ scs) = ground (arith, length-append scs)

  append-WithinQuota :
      (max : ℕ) (scs : List Script)
      → (ltb 0 max && leb max (length scs)) ≡ false
      → WithinQuota max (scs ++ new ∷ [])
  append-WithinQuota max scs room positive = ground (arith, length-append scs, room, positive)

renamed-absent :
    (old new n : Bytes) (scs : List Script)
    → (new ≢ n)
    → find n scs ≡ none
    → find n (change old (with_name new) scs) ≡ none
renamed-absent old new n [] ne h = unfold find change in refl
renamed-absent old new n (sc ∷ scs) ne h =
    let (differs, rest) = find-none_head n sc scs h in
    elim (same_name sc.name old) [
      | inl e ↦
          rw (change-head old sc scs (with_name new) e)
            (find-tail n (with_name new sc) scs ne ∙ rest)
      | inr q ↦ rw (change-tail old sc scs (with_name new) q) (
          find-tail n sc (change old (with_name new) scs) differs
          ∙ renamed-absent old new n scs ne rest)
    ]

renamed-Unique :
    (old new : Bytes) (scs : List Script)
    → find new scs ≡ none
    → Unique scs
    → Unique (change old (with_name new) scs)
renamed-Unique old new [] h u = unfold change in _
renamed-Unique old new (sc ∷ scs) h (absent, u) =
    let (differs, rest) = find-none_head new sc scs h in
    elim (same_name sc.name old) [
      | inl e ↦ rw (change-head old sc scs (with_name new) e) (rest, u)
      | inr q ↦ rw (change-tail old sc scs (with_name new) q) (
        renamed-absent old new sc.name scs (λ p. differs (sym p)) absent,
        renamed-Unique old new scs rest u,
      )
    ]

module _ (upper_rune : ℕ → ℕ) (max : ℕ) (scs : List Script) (h : WellFormed max scs) where
  put_found-WellFormed :
      (found : Option Script) (name content warnings : Bytes)
      → find name scs ≡ found
      → WellFormed max (put_found upper_rune found max name content warnings scs).1
  unfolding put_found
  put_found-WellFormed (some sc) name content warnings e = record {
    unique = change-Unique name (with_content content) (λ s. refl) scs h.unique;
    one_active = change-OneActive name (with_content content) (λ s. refl) scs h.one_active;
    within_quota =
        subst (λ k. 0 < max → k ≤ max) (sym (length-change name (with_content content) scs))
          h.within_quota;
  }
  put_found-WellFormed none name content warnings e =
      elim (Bool-cases (ltb 0 max && leb max (length scs))) [
        | inl p ↦ rw p h
        | inr p ↦ rw p (record {
          unique = append-Unique _ refl scs e h.unique;
          one_active = append-OneActive _ refl scs h.one_active;
          within_quota = append-WithinQuota _ refl max scs p;
        })
      ]

  -- PutScript, whether it stores, replaces or refuses, keeps the names of an account different, one
  -- script active at most, and the number of scripts within the limit.
  pub store_content-WellFormed :
      (name content warnings : Bytes)
      → WellFormed max (store_content upper_rune max name content warnings scs).1
  unfolding store_content
  store_content-WellFormed name content warnings =
      put_found-WellFormed (find name scs) name content warnings refl

  pub deactivate_all-WellFormed : WellFormed max (deactivate_all scs)
  deactivate_all-WellFormed = record {
    unique = deactivate_all-Unique scs h.unique;
    one_active = idle-OneActive (deactivate_all scs) (idle-deactivate_all scs);
    within_quota = subst (λ k. 0 < max → k ≤ max) (sym (length-deactivate_all scs)) h.within_quota;
  }

  activate_found-WellFormed :
      (found : Option Script) (name : Bytes)
      → WellFormed max (activate_found upper_rune found name scs).1
  unfolding activate_found
  activate_found-WellFormed none name = h
  activate_found-WellFormed (some sc) name = record {
    unique =
        change-Unique name (with_active true) (λ s. refl) (deactivate_all scs)
          (deactivate_all-Unique scs h.unique);
    one_active = activate-OneActive name (deactivate_all scs) (idle-deactivate_all scs);
    within_quota =
        subst (λ k. 0 < max → k ≤ max)
          (sym (
            length-change name (with_active true) (deactivate_all scs) ∙ length-deactivate_all scs))
          h.within_quota;
  }

  pub activate-WellFormed : (name : Bytes) → WellFormed max (activate upper_rune name scs).1
  unfolding activate
  activate-WellFormed name = activate_found-WellFormed (find name scs) name

  delete_found-WellFormed :
      (found : Option Script) (name : Bytes)
      → WellFormed max (delete_found upper_rune found name scs).1
  unfolding delete_found
  delete_found-WellFormed none name = h
  delete_found-WellFormed (some sc) name = elim (Bool-cases sc.active) [
    | inl p ↦ rw p h
    | inr p ↦ rw p (record {
      unique = remove-Unique name scs h.unique;
      one_active = remove-OneActive name scs h.one_active;
      within_quota = λ positive. omega (arith, h.within_quota positive, length-remove name scs);
    })
  ]

  pub delete-WellFormed : (name : Bytes) → WellFormed max (delete upper_rune name scs).1
  unfolding delete
  delete-WellFormed name = delete_found-WellFormed (find name scs) name

  rename_found-WellFormed :
      (found taken : Option Script) (old new : Bytes)
      → find new scs ≡ taken
      → WellFormed max (rename_found upper_rune found taken old new scs).1
  unfolding rename_found
  rename_found-WellFormed none taken old new e = h
  rename_found-WellFormed (some sc) (some t) old new e = h
  rename_found-WellFormed (some sc) none old new e = record {
    unique = renamed-Unique old new scs e h.unique;
    one_active = change-OneActive old (with_name new) (λ s. refl) scs h.one_active;
    within_quota =
        subst (λ k. 0 < max → k ≤ max) (sym (length-change old (with_name new) scs)) h.within_quota;
  }

  pub rename-WellFormed : (old new : Bytes) → WellFormed max (rename upper_rune old new scs).1
  unfolding rename
  rename-WellFormed old new = rename_found-WellFormed (find old scs) (find new scs) old new refl

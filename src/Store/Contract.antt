-- ===== src/Store/Contract.antt =====
-- The contract of an account: a map from names to contents and activity, without order and without
-- lists, that the methods on scripts implement.
use go_managesieve.Common.{
  ℕ, ◌≡◌, refl, sym, ◌∙◌, ap, Bool, true, false, List, [], ◌∷◌, ◌++◌, Option, none, some, Bytes,
  bytes_eq, bytes_eq_iff, ltb, leb, length, ◌&&◌, if◌then◌else◌, Bool-cases, inl, inr,
}
use go_managesieve.Server.Session.{Reply, succeeds}
use go_managesieve.Store.Scripts.{
  Script, find, change, remove, with_content, with_active, with_name, deactivate_all, store_content,
  put_found, activate, activate_found, delete, delete_found, rename, rename_found,
}
use go_managesieve.Store.Lookup.{
  map_script, same_name, bytes_eq_ne, find-change, find-change_other, find-append,
  find-append_other, find-deactivate_all, find-remove_other,
}
use go_managesieve.Store.Shape.{Unique}
use go_managesieve.Store.Renaming.{
  find-remove, find-renamed_new, find-renamed_old, find-renamed_other,
}

-- The content of a script, and whether it is active.
pub record Entry : Type 0 where
  pub content : Bytes
  pub active : Bool

abbrev pub Entries : Type 0
Entries = Bytes → Option Entry

abbrev pub entry_of : Option Script → Option Entry
entry_of none = none
entry_of (some sc) = some (record { content = sc.content; active = sc.active })

abbrev pub entries : List Script → Entries
entries scs name = entry_of (find name scs)

abbrev pub present : Option Entry → Bool
present none = false
present (some e) = true

abbrev was_active : Option Entry → Bool
was_active none = false
was_active (some e) = e.active

abbrev marked : Bool → Option Entry → Option Entry
marked b none = none
marked b (some e) = some (record { content = e.content; active = b })

-- What each method promises where it succeeds.
abbrev pub put_entry : Bytes → Bytes → Entries → Entries
put_entry name content m n =
    if bytes_eq n name
    then some (record { content = content; active = was_active (m name) })
    else m n

abbrev pub activate_entry : Bytes → Entries → Entries
activate_entry name m n = marked (bytes_eq n name) (m n)

abbrev pub deactivate_entries : Entries → Entries
deactivate_entries m n = marked false (m n)

abbrev pub delete_entry : Bytes → Entries → Entries
delete_entry name m n = if bytes_eq n name then none else m n

abbrev pub rename_entry : Bytes → Bytes → Entries → Entries
rename_entry old new m n = if bytes_eq n new then m old else if bytes_eq n old then none else m n

-- What a method leaves: what it promises, or everything as it was.
abbrev pub Leaves :
    {A : Type 0} → Reply A × List Script → List Script → (Entries → Entries) → Type 0
Leaves (reply, after) scs promise =
    (n : Bytes)
    → entries after n ≡ (if succeeds reply then promise (entries scs) else entries scs) n

module _ (upper_rune : ℕ → ℕ) (scs : List Script) where
  changed-content :
      (name content : Bytes) (sc : Script)
      → find name scs ≡ some sc
      → (n : Bytes)
      → entries (change name (with_content content) scs) n ≡ put_entry name content (entries scs) n
  changed-content name content sc e n = elim (same_name n name) [
    | inl p ↦
        rw
          ((bytes_eq_iff n name).1 p, p, find-change name (with_content content) (λ s. refl) scs, e)
          refl
    | inr q ↦
        rw (bytes_eq_ne n name q, find-change_other name (with_content content) (λ s. refl) n scs q)
          refl
  ]

  appended :
      (name content : Bytes)
      → find name scs ≡ none
      → (n : Bytes)
      → entries (scs ++ record { name = name; content = content; active = false } ∷ []) n
        ≡ put_entry name content (entries scs) n
  appended name content e n =
      let new : Script = record { name = name; content = content; active = false } in
      elim (same_name n name) [
        | inl p ↦ rw ((bytes_eq_iff n name).1 p, p, find-append new scs e, e) refl
        | inr q ↦ rw (bytes_eq_ne n name q, find-append_other new n scs q) refl
      ]

  put_found-Leaves :
      (found : Option Script) (max : ℕ) (name content warnings : Bytes)
      → find name scs ≡ found
      → Leaves
          (put_found upper_rune found max name content warnings scs)
          scs
          (put_entry name content)
  unfolding put_found
  put_found-Leaves (some sc) max name content warnings e n = changed-content name content sc e n
  put_found-Leaves none max name content warnings e n =
      elim (Bool-cases (ltb 0 max && leb max (length scs))) [
        | inl p ↦ rw p refl
        | inr p ↦ rw p (appended name content e n)
      ]

  -- PutScript puts the content under the name, as active as the script of that name was, and leaves
  -- every other script; where it refuses, it leaves everything as it was.
  pub store_content-Leaves :
      (max : ℕ) (name content warnings : Bytes)
      → Leaves (store_content upper_rune max name content warnings scs) scs (put_entry name content)
  unfolding store_content
  store_content-Leaves max name content warnings =
      put_found-Leaves (find name scs) max name content warnings refl

  entry_of-with_active :
      (b : Bool) (o : Option Script)
      → entry_of (map_script (with_active b) o) ≡ marked b (entry_of o)
  entry_of-with_active b none = refl
  entry_of-with_active b (some sc) = refl

  -- Without their activity, the scripts are as they were.
  pub deactivate_all-deactivate_entries :
      (n : Bytes) → entries (deactivate_all scs) n ≡ deactivate_entries (entries scs) n
  deactivate_all-deactivate_entries n =
      ap entry_of (find-deactivate_all n scs) ∙ entry_of-with_active false (find n scs)

  marked_twice :
      (a b : Bool) (o : Option Script)
      → entry_of (map_script (with_active a) (map_script (with_active b) o)) ≡ marked a (entry_of o)
  marked_twice a b none = refl
  marked_twice a b (some sc) = refl

  activate_found-Leaves :
      (found : Option Script) (name : Bytes)
      → Leaves (activate_found upper_rune found name scs) scs (activate_entry name)
  unfolding activate_found
  activate_found-Leaves none name n = refl
  activate_found-Leaves (some sc) name n = elim (same_name n name) [
    | inl p ↦
        rw
          (
            (bytes_eq_iff n name).1 p,
            p,
            find-change name (with_active true) (λ s. refl) (deactivate_all scs),
            find-deactivate_all name scs,
          )
          (marked_twice true false (find name scs))
    | inr q ↦
        rw
          (
            bytes_eq_ne n name q,
            find-change_other name (with_active true) (λ s. refl) n (deactivate_all scs) q,
          )
          (deactivate_all-deactivate_entries n)
  ]

  activate_found-succeeds :
      (found : Option Script) (name : Bytes)
      → succeeds (activate_found upper_rune found name scs).0 ≡ present (entry_of found)
  unfolding activate_found
  activate_found-succeeds none name = refl
  activate_found-succeeds (some sc) name = refl

  -- The activation of SetActive, behind the validation of a script, succeeds if and only if there is a
  -- script of the name. It makes that script the active one and every other inactive, and changes no
  -- content; where it fails, it leaves everything as it was.
  pub activate-Leaves :
      (name : Bytes)
      → (succeeds (activate upper_rune name scs).0 ≡ present (entries scs name))
        × Leaves (activate upper_rune name scs) scs (activate_entry name)
  unfolding activate
  activate-Leaves name =
      (activate_found-succeeds (find name scs) name, activate_found-Leaves (find name scs) name)

  removed :
      (name : Bytes)
      → Unique scs
      → (n : Bytes) → entries (remove name scs) n ≡ delete_entry name (entries scs) n
  removed name u n = elim (same_name n name) [
    | inl p ↦ rw ((bytes_eq_iff n name).1 p, p, find-remove name scs u) refl
    | inr q ↦ rw (bytes_eq_ne n name q, find-remove_other name n scs q) refl
  ]

  delete_found-Leaves :
      (found : Option Script) (name : Bytes)
      → Unique scs
      → Leaves (delete_found upper_rune found name scs) scs (delete_entry name)
  unfolding delete_found
  delete_found-Leaves none name u n = refl
  delete_found-Leaves (some sc) name u n = elim (Bool-cases sc.active) [
    | inl p ↦ rw p refl
    | inr p ↦ rw p (removed name u n)
  ]

  -- Among scripts of different names, DeleteScript removes the script of the name and leaves every
  -- other; where it refuses, it leaves everything as it was.
  pub delete-Leaves :
      (name : Bytes) → Unique scs → Leaves (delete upper_rune name scs) scs (delete_entry name)
  unfolding delete
  delete-Leaves name u = delete_found-Leaves (find name scs) name u

  renamed :
      (old new : Bytes) (sc : Script)
      → find old scs ≡ some sc
      → find new scs ≡ none
      → Unique scs
      → (n : Bytes)
      → entries (change old (with_name new) scs) n ≡ rename_entry old new (entries scs) n
  renamed old new sc e h u n = elim (same_name n new) [
    | inl p ↦ rw ((bytes_eq_iff n new).1 p, p, find-renamed_new old new scs h, e) refl
    | inr q ↦ rw (bytes_eq_ne n new q) (elim (same_name n old) [
      | inl p ↦
          rw ((bytes_eq_iff n old).1 p, p, find-renamed_old old new scs (λ r. q (p ∙ sym r)) u) refl
      | inr r ↦ rw (bytes_eq_ne n old r, find-renamed_other old new n scs q r) refl
    ])
  ]

  rename_found-Leaves :
      (found taken : Option Script) (old new : Bytes)
      → find old scs ≡ found
      → find new scs ≡ taken
      → Unique scs
      → Leaves (rename_found upper_rune found taken old new scs) scs (rename_entry old new)
  unfolding rename_found
  rename_found-Leaves none taken old new e h u n = refl
  rename_found-Leaves (some sc) (some t) old new e h u n = refl
  rename_found-Leaves (some sc) none old new e h u n = renamed old new sc e h u n

  -- Among scripts of different names, RenameScript moves the script with its content and activity to
  -- the new name and leaves every other; where it refuses, it leaves everything as it was.
  pub rename-Leaves :
      (old new : Bytes)
      → Unique scs
      → Leaves (rename upper_rune old new scs) scs (rename_entry old new)
  unfolding rename
  rename-Leaves old new u = rename_found-Leaves (find old scs) (find new scs) old new refl refl u

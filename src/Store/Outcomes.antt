-- ===== src/Store/Outcomes.antt =====
-- When the methods on scripts succeed, in the words of the contract.
use go_managesieve.Common.{
  ℕ, ◌≡◌, refl, arith, Bool, false, not, ◌&&◌, ◌||◌, List, Option, none, some, Bytes, codes, ltb,
  leb, ◌==◌, length, if◌then◌else◌, Bool-cases, inl, inr,
}
use go_managesieve.Server.Session.{returns, fails, succeeds}
use go_managesieve.Store.Scripts.{
  Script, find, is_nil, coded_error, store_content, put_found, delete, delete_found, rename,
  rename_found, space,
}
use go_managesieve.Store.Contract.{Entry, entries, entry_of, present}

abbrev pub deletable : Option Entry → Bool
deletable none = false
deletable (some e) = not e.active

module _ (upper_rune : ℕ → ℕ) (scs : List Script) where
  put_found-succeeds :
      (found : Option Script) (max : ℕ) (name content warnings : Bytes)
      → succeeds (put_found upper_rune found max name content warnings scs).0
        ≡ (present (entry_of found) || (max == 0 || ltb (length scs) max))
  unfolding put_found
  put_found-succeeds (some sc) max name content warnings = refl
  put_found-succeeds none max name content warnings = ground arith

  -- PutScript behind the validation stores if the name is there already, or if there is no quota, or if
  -- the account is below it.
  pub store_content-succeeds :
      (max : ℕ) (name content warnings : Bytes)
      → succeeds (store_content upper_rune max name content warnings scs).0
        ≡ (present (entries scs name) || (max == 0 || ltb (length scs) max))
  unfolding store_content
  store_content-succeeds max name content warnings =
      put_found-succeeds (find name scs) max name content warnings

  quota-present :
      (found : Option Script) (max : ℕ)
      → succeeds {A = Unit {0}} (
          if ltb 0 max && (is_nil found && leb max (length scs))
          then fails (
              coded_error upper_rune
                (codes "QUOTA/MAXSCRIPTS")
                (codes "Maximum number of scripts reached"))
          else returns _)
        ≡ (present (entry_of found) || (max == 0 || ltb (length scs) max))
  quota-present none max = ground arith
  quota-present (some sc) max = ground arith

  -- So does HaveSpace.
  pub space-succeeds :
      (max : ℕ) (name : Bytes)
      → succeeds (space upper_rune max name scs)
        ≡ (present (entries scs name) || (max == 0 || ltb (length scs) max))
  unfolding space
  space-succeeds max name = quota-present (find name scs) max

  delete_found-deletable :
      (found : Option Script) (name : Bytes)
      → succeeds (delete_found upper_rune found name scs).0 ≡ deletable (entry_of found)
  unfolding delete_found
  delete_found-deletable none name = refl
  delete_found-deletable (some sc) name = elim (Bool-cases sc.active) [
    | inl p ↦ rw p refl
    | inr p ↦ rw p refl
  ]

  -- DeleteScript succeeds if and only if the script is there and is not the active one.
  pub delete-deletable :
      (name : Bytes) → succeeds (delete upper_rune name scs).0 ≡ deletable (entries scs name)
  unfolding delete
  delete-deletable name = delete_found-deletable (find name scs) name

  rename_found-succeeds :
      (found taken : Option Script) (old new : Bytes)
      → succeeds (rename_found upper_rune found taken old new scs).0
        ≡ (present (entry_of found) && not (present (entry_of taken)))
  unfolding rename_found
  rename_found-succeeds none taken old new = refl
  rename_found-succeeds (some sc) (some t) old new = refl
  rename_found-succeeds (some sc) none old new = refl

  -- RenameScript succeeds if and only if the old name is there and the new one is not.
  pub rename-succeeds :
      (old new : Bytes)
      → succeeds (rename upper_rune old new scs).0
        ≡ (present (entries scs old) && not (present (entries scs new)))
  unfolding rename
  rename-succeeds old new = rename_found-succeeds (find old scs) (find new scs) old new

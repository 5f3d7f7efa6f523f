-- ===== src/Store/Memory/Methods/Activating.antt =====
-- SetActive of managesievemem/store.go, with its snapshot, validation and activation.
use go_managesieve.Common.{
  ℕ, ◌≡◌, refl, ◌∙◌, ap, subst, Bool, true, false, List, [], ◌∷◌, Option, none, some, Bytes,
}
use go_managesieve.Server.Session.{Reply, returns, fails, succeeds}
use go_managesieve.Store.Scripts.{
  Script, find, deactivate_all, content_of, nonexistent, get_content, activate,
}
use go_managesieve.Store.Contract.{
  Entry, Entries, entry_of, entries, present, activate_entry, deactivate_entries, activate-Leaves,
  deactivate_all-deactivate_entries,
}
use go_managesieve.Store.Memory.{
  Account, MemSession, close_connection, on_account, ask_account, ask_account_found, validate,
  snapshot, commit, activate_validated, activate_snapshot, make_active,
}
use go_managesieve.Store.Memory.Isolation.{account}
use go_managesieve.Store.Memory.Methods.{
  Does, refused-Does, on_account-Does, on_account-missing, accepts, validate-accepts,
}

-- What SetActive promises: the empty name deactivates every script.
abbrev pub set_active_entry : Bytes → Entries → Entries
set_active_entry [] = deactivate_entries
set_active_entry (x ∷ name) = activate_entry (x ∷ name)

-- SetActive of the empty name, on the account.
abbrev deactivates : List Script → Reply (Unit {0}) × List Script
deactivates scs = (returns _, deactivate_all scs)

module _ (upper_rune : ℕ → ℕ) (sha256 : Bytes → Bytes)
    (validate_hook : Option (Bytes → Reply Bytes)) where
  abbrev accepts_entry : Option Entry → Bool
  accepts_entry none = false
  accepts_entry (some e) = accepts validate_hook e.content

  -- Whether a name can be made the active one: there is an account, and for a name that is not empty a
  -- script of which the host accepts the content.
  abbrev pub activatable : Bytes → Option Account → Bool
  activatable name none = false
  activatable [] (some acct) = true
  activatable (x ∷ name) (some acct) = accepts_entry (entries acct.scripts (x ∷ name))

  module _ (s : MemSession) where
    deactivated-Does :
        (found : Option Account)
        → account s.username s ≡ found
        → Does (on_account deactivates s) s deactivate_entries (activatable [] found)
    deactivated-Does none e = on_account-missing deactivates s deactivate_entries e
    deactivated-Does (some acct) e =
        on_account-Does deactivates s deactivate_entries acct e
          (deactivate_all-deactivate_entries upper_rune acct.scripts)

    module _ (name : Bytes) (acct : Account) (e : account s.username s ≡ some acct) where
      validated-Does :
          (r : Reply Bytes)
          → present (entries acct.scripts name) ≡ true
          → Does
              (activate_validated upper_rune sha256 validate_hook r name s)
              s
              (activate_entry name)
              (succeeds r)
      unfolding activate_validated commit
      validated-Does (fails f) there = refused-Does (Unit {0}) f s (activate_entry name)
      validated-Does (returns warnings) there =
          let (found, leaves) = activate-Leaves upper_rune acct.scripts name in
          subst (Does (on_account (activate upper_rune name) s) s (activate_entry name))
            (found ∙ there)
            (on_account-Does (activate upper_rune name) s (activate_entry name) acct e leaves)

      found-Does :
          (o : Option Script)
          → find name acct.scripts ≡ o
          → Does
              (activate_snapshot upper_rune sha256 validate_hook (content_of upper_rune o) name s)
              s
              (activate_entry name)
              (accepts_entry (entry_of o))
      unfolding activate_snapshot content_of
      found-Does none h = refused-Does (Unit {0}) (nonexistent upper_rune) s (activate_entry name)
      found-Does (some sc) h =
          let r = validate upper_rune sha256 validate_hook sc.content in
          subst
            (Does (activate_validated upper_rune sha256 validate_hook r name s) s
              (activate_entry name))
            (validate-accepts upper_rune sha256 validate_hook sc.content)
            (validated-Does r (ap (λ o. present (entry_of o)) h))

    snapshot-Does :
        (x : ℕ) (name : Bytes) (found : Option Account)
        → account s.username s ≡ found
        → Does
            (activate_snapshot upper_rune sha256 validate_hook
              (ask_account_found (get_content upper_rune (x ∷ name)) found)
              (x ∷ name)
              s)
            s
            (activate_entry (x ∷ name))
            (activatable (x ∷ name) found)
    unfolding ask_account_found get_content
    snapshot-Does x name none e =
        unfold activate_snapshot in
        refused-Does (Unit {0}) close_connection s (activate_entry (x ∷ name))
    snapshot-Does x name (some acct) e =
        found-Does (x ∷ name) acct e (find (x ∷ name) acct.scripts) refl

    -- SetActive succeeds if and only if the session's user has an account and the name is empty or that
    -- of a script of which the host's Validate accepts the content. Then the script of the name is
    -- active, every other one is inactive, and no content is changed; the empty name makes every
    -- script inactive. Where it fails, it leaves everything as it was.
    pub make_active-Does :
        (name : Bytes)
        → Does
            (make_active upper_rune sha256 validate_hook name s)
            s
            (set_active_entry name)
            (activatable name (account s.username s))
    unfolding make_active snapshot ask_account
    make_active-Does [] = deactivated-Does (account s.username s) refl
    make_active-Does (x ∷ name) = snapshot-Does x name (account s.username s) refl

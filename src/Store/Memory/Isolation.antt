-- ===== src/Store/Memory/Isolation.antt =====
-- Logging in, and that a session reaches the account of its own user alone.
use go_managesieve.Common.{
  ℕ, ◌≡◌, ◌≢◌, refl, sym, ◌∙◌, ap, Bool, false, List, [], ◌∷◌, Option, none, some, Bytes, codes,
  bytes_eq, bytes_eq_iff, Bool-cases, inl, inr,
}
use go_managesieve.Server.Session.{Reply, returns, fails, succeeds}
use go_managesieve.Store.Scripts.{Script}
use go_managesieve.Store.Lookup.{bytes_eq_ne, same_name}
use go_managesieve.Store.Memory.{
  Account, Accounts, Store, MemSession, lookup, assign, store_scripts, on_account, on_account_found,
  put_validated, put_with_warnings, commit, activate_validated, activate_snapshot, make_active,
  add_user, stored_password, is_missing, log_in_found, log_in,
}
use go_managesieve.Store.Memory.Accounts.{
  Call, puts, makes_active, commits, deletes, renames, perform,
}

module _ (user : Bytes) (name : Bytes) (acct : Account) (rest : Accounts) where
  lookup-head : name ≡ user → lookup user ((name, acct) ∷ rest) ≡ some acct
  unfolding lookup
  lookup-head e = rw ((bytes_eq_iff name user).1 e) refl

  lookup-tail : (name ≢ user) → lookup user ((name, acct) ∷ rest) ≡ lookup user rest
  unfolding lookup
  lookup-tail ne = rw (bytes_eq_ne name user ne) refl

  module _ (new : Account) where
    assign-head : name ≡ user → assign user new ((name, acct) ∷ rest) ≡ (name, new) ∷ rest
    unfolding assign
    assign-head e = rw ((bytes_eq_iff name user).1 e) refl

    assign-tail :
        (name ≢ user) → assign user new ((name, acct) ∷ rest) ≡ (name, acct) ∷ assign user new rest
    unfolding assign
    assign-tail ne = rw (bytes_eq_ne name user ne) refl

pub lookup-assign :
    (user : Bytes) (new : Account) (accts : Accounts)
    → lookup user (assign user new accts) ≡ some new
lookup-assign user new [] = unfold assign in lookup-head user user new [] refl
lookup-assign user new ((name, acct) ∷ rest) = elim (same_name name user) [
  | inl e ↦ rw (assign-head user name acct rest new e) (lookup-head user name new rest e)
  | inr ne ↦
      rw (assign-tail user name acct rest new ne)
        (lookup-tail user name acct (assign user new rest) ne ∙ lookup-assign user new rest)
]

lookup-assign_other :
    (other user : Bytes) (new : Account) (accts : Accounts)
    → (other ≢ user)
    → lookup other (assign user new accts) ≡ lookup other accts
lookup-assign_other other user new [] ne =
    unfold assign in lookup-tail other user new [] (λ p. ne (sym p))
lookup-assign_other other user new ((name, acct) ∷ rest) ne = elim (same_name name user) [
  | inl e ↦
      let differs : name ≢ other = λ p. ne (sym p ∙ e) in
      rw (assign-head user name acct rest new e, lookup-tail other name acct rest differs)
        (lookup-tail other name new rest differs)
  | inr q ↦ rw (assign-tail user name acct rest new q) (elim (same_name name other) [
    | inl p ↦
        rw
          (lookup-head other name acct rest p, lookup-head other name acct (assign user new rest) p)
          refl
    | inr r ↦
        rw
          (lookup-tail other name acct rest r, lookup-tail other name acct (assign user new rest) r)
          (lookup-assign_other other user new rest ne)
  ])
]

-- The account of a user, in the store of a session.
abbrev pub account : Bytes → MemSession → Option Account
account user s = lookup user s.store.accounts

module _ {A : Type 0} (f : List Script → Reply A × List Script) (other : Bytes) (s : MemSession)
    (ne : other ≢ s.username) where
  on_account_found-other :
      (found : Option Account) → account other (on_account_found f found s).1 ≡ account other s
  unfolding on_account_found store_scripts
  on_account_found-other none = refl
  on_account_found-other (some acct) = lookup-assign_other other s.username _ s.store.accounts ne

  on_account-other : account other (on_account f s).1 ≡ account other s
  unfolding on_account
  on_account-other = on_account_found-other (lookup s.username s.store.accounts)

module _ (upper_rune : ℕ → ℕ) (sha256 : Bytes → Bytes)
    (validate_hook : Option (Bytes → Reply Bytes)) where
  module _ (other : Bytes) (s : MemSession) (ne : other ≢ s.username) where
    put_validated-other :
        (r : Reply Bytes) (name content : Bytes)
        → account other (put_validated upper_rune sha256 validate_hook r name content s).1
          ≡ account other s
    unfolding put_validated
    put_validated-other (fails e) name content = refl
    put_validated-other (returns warnings) name content = on_account-other _ other s ne

    commit-other :
        (name : Bytes)
        → account other (commit upper_rune sha256 validate_hook name s).1 ≡ account other s
    unfolding commit
    commit-other name = on_account-other _ other s ne

    activate_validated-other :
        (r : Reply Bytes) (name : Bytes)
        → account other (activate_validated upper_rune sha256 validate_hook r name s).1
          ≡ account other s
    unfolding activate_validated
    activate_validated-other (fails e) name = refl
    activate_validated-other (returns warnings) name = commit-other name

    activate_snapshot-other :
        (r : Reply Bytes) (name : Bytes)
        → account other (activate_snapshot upper_rune sha256 validate_hook r name s).1
          ≡ account other s
    unfolding activate_snapshot
    activate_snapshot-other (fails e) name = refl
    activate_snapshot-other (returns content) name = activate_validated-other _ name

    make_active-other :
        (name : Bytes)
        → account other (make_active upper_rune sha256 validate_hook name s).1 ≡ account other s
    unfolding make_active
    make_active-other [] = on_account-other _ other s ne
    make_active-other (x ∷ name) = activate_snapshot-other _ (x ∷ name)

    -- No call of a session changes the account of another user than its own.
    pub perform-account :
        (call : Call)
        → account other (perform upper_rune sha256 validate_hook call s) ≡ account other s
    unfolding perform put_with_warnings
    perform-account (puts name content) = put_validated-other _ name content
    perform-account (makes_active name) = make_active-other name
    perform-account (commits name) = commit-other name
    perform-account (deletes name) = on_account-other _ other s ne
    perform-account (renames old new) = on_account-other _ other s ne

  abbrev pub knows : Option Account → Bytes → Bool
  knows none password = false
  knows (some acct) password = bytes_eq acct.password (sha256 password)

  log_in_found-knows :
      (found : Option Account) (user password : Bytes) (s : MemSession)
      → succeeds (log_in_found upper_rune sha256 validate_hook found user password s).0.reply
        ≡ knows found password
  unfolding log_in_found stored_password is_missing
  log_in_found-knows none user password s =
      elim (Bool-cases
        (bytes_eq (sha256 (codes "managesievemem-dummy-password")) (sha256 password))) [
          | inl p ↦ rw p refl
          | inr p ↦ rw p refl
        ]
  log_in_found-knows (some acct) user password s =
      elim (Bool-cases (bytes_eq acct.password (sha256 password))) [
        | inl p ↦ rw p refl
        | inr p ↦ rw p refl
      ]

  -- Login succeeds if and only if the user has an account and the password has the digest of its
  -- password; the digest of the dummy lets nobody in.
  pub log_in-knows :
      (user password : Bytes) (s : MemSession)
      → succeeds (log_in upper_rune sha256 validate_hook user password s).0.reply
        ≡ knows (account user s) password
  unfolding log_in
  log_in-knows user password s = log_in_found-knows (lookup user s.store.accounts) user password s

  -- Behind AddUser, the user's password is the one that was given: a login succeeds if and only if its
  -- password has the same digest, and the login of every other user is as it was before.
  pub log_in-add_user :
      (user given other password name : Bytes) (st : Store)
      → (other ≢ user)
      → (succeeds
            (log_in upper_rune sha256 validate_hook user password (record {
              store = add_user upper_rune sha256 validate_hook user given st;
              username = name;
            })).0.reply
          ≡ bytes_eq (sha256 given) (sha256 password))
        × (succeeds
              (log_in upper_rune sha256 validate_hook other password (record {
                store = add_user upper_rune sha256 validate_hook user given st;
                username = name;
              })).0.reply
            ≡ succeeds
                (log_in upper_rune sha256 validate_hook other password
                  (record { store = st; username = name })).0.reply)
  unfolding add_user
  log_in-add_user user given other password name st ne = (
    log_in-knows user password _ ∙ ap (λ o. knows o password) (lookup-assign user _ st.accounts),
    log_in-knows other password _
        ∙ ap (λ o. knows o password) (lookup-assign_other other user _ st.accounts ne)
        ∙ sym (log_in-knows other password _),
  )

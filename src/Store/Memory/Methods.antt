-- ===== src/Store/Memory/Methods.antt =====
-- What the methods of a session, whole, do to the scripts of its user (managesievemem/store.go).
pub mod Storing
pub mod Activating
use go_managesieve.Common.{
  ℕ, ◌≡◌, refl, sym, ◌∙◌, ap, subst, Bool, true, false, List, Option, none, some, Bytes,
  if◌then◌else◌,
}
use go_managesieve.Server.Errors.{Failure}
use go_managesieve.Server.Session.{Reply, returns, fails, succeeds}
use go_managesieve.Store.Scripts.{Script}
use go_managesieve.Store.Contract.{Entries, entries, Leaves}
use go_managesieve.Store.Memory.{
  Account, MemSession, lookup, with_scripts, store_scripts, close_connection, on_account,
  on_account_found, validate, validated, wrap_validation_error,
}
use go_managesieve.Store.Memory.Isolation.{account, lookup-assign}

-- The scripts of an account, as a map; a user without an account has none.
abbrev pub entries_in : Option Account → Entries
entries_in none n = none
entries_in (some acct) n = entries acct.scripts n

-- The scripts of the session's user.
abbrev pub own : MemSession → Entries
own s = entries_in (account s.username s)

-- What a method leaves of them: what it promises, or everything as it was.
abbrev pub LeavesOwn :
    {A : Type 0} → Reply A × MemSession → MemSession → (Entries → Entries) → Type 0
LeavesOwn (reply, after) s promise =
    (n : Bytes) → own after n ≡ (if succeeds reply then promise (own s) else own s) n

module _ {A : Type 0} (f : List Script → Reply A × List Script) (s : MemSession) where
  pub on_account-none : account s.username s ≡ none → on_account f s ≡ (fails close_connection, s)
  unfolding on_account on_account_found
  on_account-none e = rw e refl

  pub on_account-some :
      (acct : Account)
      → account s.username s ≡ some acct
      → on_account f s ≡ (
        (f acct.scripts).0,
        record s { store = store_scripts s.username acct (f acct.scripts).1 s.store },
      )
  unfolding on_account on_account_found
  on_account-some acct e = rw e refl

pub account-store_scripts :
    (s : MemSession) (acct : Account) (scs : List Script)
    → account s.username (record s { store = store_scripts s.username acct scs s.store })
      ≡ some (with_scripts scs acct)
unfolding store_scripts
account-store_scripts s acct scs = lookup-assign s.username (with_scripts scs acct) s.store.accounts

-- A method succeeds exactly if `ok`, and leaves what it promises.
abbrev pub Does :
    {A : Type 0} → Reply A × MemSession → MemSession → (Entries → Entries) → Bool → Type 0
Does r s promise ok = (succeeds r.0 ≡ ok) × LeavesOwn r s promise

pub refused-Does :
    (A : Type 0) (e : Failure) (s : MemSession) (promise : Entries → Entries)
    → Does {A = A} (fails e, s) s promise false
refused-Does A e s promise = (refl, λ n. refl)

module _ {A : Type 0} (f : List Script → Reply A × List Script) (s : MemSession)
    (promise : Entries → Entries) where
  on_account-LeavesOwn :
      (acct : Account)
      → account s.username s ≡ some acct
      → Leaves (f acct.scripts) acct.scripts promise
      → LeavesOwn (on_account f s) s promise
  on_account-LeavesOwn acct e h =
      let after = record s { store = store_scripts s.username acct (f acct.scripts).1 s.store } in
      subst (λ r. LeavesOwn r s promise) (sym (on_account-some f s acct e))
        (λ n.
          ap (λ o. entries_in o n) (account-store_scripts s acct (f acct.scripts).1)
          ∙ h n
          ∙ ap
              (λ o.
                (if succeeds (f acct.scripts).0 then promise (entries_in o) else entries_in o) n)
              (sym e))

  pub on_account-Does :
      (acct : Account)
      → account s.username s ≡ some acct
      → Leaves (f acct.scripts) acct.scripts promise
      → Does (on_account f s) s promise (succeeds (f acct.scripts).0)
  on_account-Does acct e h = (
    ap (λ (r : Reply A × MemSession). succeeds r.0) (on_account-some f s acct e),
    on_account-LeavesOwn acct e h,
  )

  pub on_account-missing : account s.username s ≡ none → Does (on_account f s) s promise false
  on_account-missing e =
      subst (λ r. Does r s promise false) (sym (on_account-none f s e))
        (refused-Does A close_connection s promise)

-- The host accepts a content.
abbrev pub accepts : Option (Bytes → Reply Bytes) → Bytes → Bool
accepts none content = true
accepts (some v) content = succeeds (v content)

module _ (upper_rune : ℕ → ℕ) (sha256 : Bytes → Bytes)
    (validate_hook : Option (Bytes → Reply Bytes)) where
  wrapped-succeeds :
      (r : Reply Bytes)
      → succeeds (wrap_validation_error upper_rune sha256 validate_hook r) ≡ succeeds r
  unfolding wrap_validation_error
  wrapped-succeeds (returns w) = refl
  wrapped-succeeds (fails e) = refl

  validated-accepts :
      (hook : Option (Bytes → Reply Bytes)) (content : Bytes)
      → succeeds (validated upper_rune sha256 validate_hook hook content) ≡ accepts hook content
  unfolding validated
  validated-accepts none content = refl
  validated-accepts (some v) content = wrapped-succeeds (v content)

  pub validate-accepts :
      (content : Bytes)
      → succeeds (validate upper_rune sha256 validate_hook content) ≡ accepts validate_hook content
  unfolding validate
  validate-accepts content = validated-accepts validate_hook content

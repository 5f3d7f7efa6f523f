-- ===== src/Store/Memory/Accounts.antt =====
-- The accounts of the store: every call of every session keeps each of them well formed, and leaves
-- the accounts of others alone.
use go_managesieve.Common.{
  ℕ, Bool, true, false, List, [], ◌∷◌, Option, none, some, Bytes, bytes_eq, if◌then◌else◌,
}
use go_managesieve.Server.Session.{Reply, returns, fails}
use go_managesieve.Store.Scripts.{Script, deactivate_all, store_content, activate, delete, rename}
use go_managesieve.Store.Shape.{WellFormed}
use go_managesieve.Store.Operations.{
  store_content-WellFormed, deactivate_all-WellFormed, activate-WellFormed, delete-WellFormed,
  rename-WellFormed,
}
use go_managesieve.Store.Memory.{
  Account, Accounts, Store, MemSession, lookup, assign, with_scripts, store_scripts, on_account,
  on_account_found, validate, put_validated, put_with_warnings, snapshot, commit,
  activate_validated, activate_snapshot, make_active,
}

abbrev pub AllWellFormed : ℕ → Accounts → Type 0
AllWellFormed max [] = Unit {0}
AllWellFormed max ((name, acct) ∷ rest) = WellFormed max acct.scripts × AllWellFormed max rest

abbrev pub MaybeWellFormed : ℕ → Option Account → Type 0
MaybeWellFormed max none = Unit {0}
MaybeWellFormed max (some acct) = WellFormed max acct.scripts

abbrev pub Healthy : Store → Type 0
Healthy st = AllWellFormed st.max_scripts st.accounts

maybe-if :
    (max : ℕ) (b : Bool) (x y : Option Account)
    → MaybeWellFormed max x
    → MaybeWellFormed max y
    → MaybeWellFormed max (if b then x else y)
maybe-if max true x y p q = p
maybe-if max false x y p q = q

all-if :
    (max : ℕ) (b : Bool) (x y : Accounts)
    → AllWellFormed max x
    → AllWellFormed max y
    → AllWellFormed max (if b then x else y)
all-if max true x y p q = p
all-if max false x y p q = q

lookup-WellFormed :
    (max : ℕ) (user : Bytes) (accts : Accounts)
    → AllWellFormed max accts
    → MaybeWellFormed max (lookup user accts)
unfolding lookup
lookup-WellFormed max user [] h = _
lookup-WellFormed max user ((name, acct) ∷ rest) (h, hs) =
    maybe-if max (bytes_eq name user) (some acct) (lookup user rest) h
      (lookup-WellFormed max user rest hs)

assign-WellFormed :
    (max : ℕ) (user : Bytes) (new : Account) (accts : Accounts)
    → WellFormed max new.scripts
    → AllWellFormed max accts
    → AllWellFormed max (assign user new accts)
unfolding assign
assign-WellFormed max user new [] w h = (w, _)
assign-WellFormed max user new ((name, acct) ∷ rest) w (h, hs) =
    all-if max (bytes_eq name user) ((name, new) ∷ rest) ((name, acct) ∷ assign user new rest)
      (w, hs) (h, assign-WellFormed max user new rest w hs)

-- What a method does to the scripts of an account, and keeps.
module _ {A : Type 0} (f : List Script → Reply A × List Script) (s : MemSession)
    (keeps : (scs : List Script)
      → WellFormed s.store.max_scripts scs
      → WellFormed s.store.max_scripts (f scs).1) where
  on_account_found-Healthy :
      (found : Option Account)
      → MaybeWellFormed s.store.max_scripts found
      → Healthy s.store
      → Healthy (on_account_found f found s).1.store
  unfolding on_account_found store_scripts
  on_account_found-Healthy none w h = h
  on_account_found-Healthy (some acct) w h =
      assign-WellFormed s.store.max_scripts s.username (with_scripts (f acct.scripts).1 acct)
        s.store.accounts (keeps acct.scripts w) h

  pub on_account-Healthy : Healthy s.store → Healthy (on_account f s).1.store
  unfolding on_account
  on_account-Healthy h =
      on_account_found-Healthy (lookup s.username s.store.accounts)
        (lookup-WellFormed s.store.max_scripts s.username s.store.accounts h) h

-- The calls of a session that change the store. Between the two phases of SetActive the calls of other
-- sessions may stand, so that the second is a call of its own.
pub data Call : Type 0 where
  puts : Bytes → Bytes → Call
  makes_active : Bytes → Call
  commits : Bytes → Call
  deletes : Bytes → Call
  renames : Bytes → Bytes → Call

module _ (upper_rune : ℕ → ℕ) (sha256 : Bytes → Bytes)
    (validate_hook : Option (Bytes → Reply Bytes)) where
  unfoldable pub perform : Call → MemSession → MemSession
  perform (puts name content) s =
      (put_with_warnings upper_rune sha256 validate_hook name content s).1
  perform (makes_active name) s = (make_active upper_rune sha256 validate_hook name s).1
  perform (commits name) s = (commit upper_rune sha256 validate_hook name s).1
  perform (deletes name) s = (on_account (delete upper_rune name) s).1
  perform (renames old new) s = (on_account (rename upper_rune old new) s).1

  -- The calls of several sessions over one store, in the order in which they take its lock, each with
  -- the user name of its session.
  unfoldable pub interleaved : List (Bytes × Call) → Store → Store
  interleaved [] st = st
  interleaved ((user, call) ∷ calls) st =
      interleaved calls (perform call (record { store = st; username = user })).store

  put_validated-Healthy :
      (r : Reply Bytes) (name content : Bytes) (s : MemSession)
      → Healthy s.store
      → Healthy (put_validated upper_rune sha256 validate_hook r name content s).1.store
  unfolding put_validated
  put_validated-Healthy (fails e) name content s h = h
  put_validated-Healthy (returns warnings) name content s h =
      on_account-Healthy (store_content upper_rune s.store.max_scripts name content warnings) s
        (λ scs w.
          store_content-WellFormed upper_rune s.store.max_scripts scs w name content warnings)
        h

  commit-Healthy :
      (name : Bytes) (s : MemSession)
      → Healthy s.store
      → Healthy (commit upper_rune sha256 validate_hook name s).1.store
  unfolding commit
  commit-Healthy name s h =
      on_account-Healthy (activate upper_rune name) s
        (λ scs w. activate-WellFormed upper_rune s.store.max_scripts scs w name) h

  activate_validated-Healthy :
      (r : Reply Bytes) (name : Bytes) (s : MemSession)
      → Healthy s.store
      → Healthy (activate_validated upper_rune sha256 validate_hook r name s).1.store
  unfolding activate_validated
  activate_validated-Healthy (fails e) name s h = h
  activate_validated-Healthy (returns warnings) name s h = commit-Healthy name s h

  activate_snapshot-Healthy :
      (r : Reply Bytes) (name : Bytes) (s : MemSession)
      → Healthy s.store
      → Healthy (activate_snapshot upper_rune sha256 validate_hook r name s).1.store
  unfolding activate_snapshot
  activate_snapshot-Healthy (fails e) name s h = h
  activate_snapshot-Healthy (returns content) name s h =
      activate_validated-Healthy (validate upper_rune sha256 validate_hook content) name s h

  make_active-Healthy :
      (name : Bytes) (s : MemSession)
      → Healthy s.store
      → Healthy (make_active upper_rune sha256 validate_hook name s).1.store
  unfolding make_active
  make_active-Healthy [] s h =
      on_account-Healthy (λ scs. (returns _, deactivate_all scs)) s
        (λ scs w. deactivate_all-WellFormed upper_rune s.store.max_scripts scs w) h
  make_active-Healthy (x ∷ name) s h =
      activate_snapshot-Healthy (snapshot upper_rune sha256 validate_hook (x ∷ name) s) (x ∷ name) s
        h

  -- A call, whether it succeeds or fails, keeps every account of the store well formed: different
  -- names, one active script at most, and no more scripts than the limit.
  pub perform-Healthy :
      (call : Call) (s : MemSession) → Healthy s.store → Healthy (perform call s).store
  unfolding perform put_with_warnings
  perform-Healthy (puts name content) s h =
      put_validated-Healthy (validate upper_rune sha256 validate_hook content) name content s h
  perform-Healthy (makes_active name) s h = make_active-Healthy name s h
  perform-Healthy (commits name) s h = commit-Healthy name s h
  perform-Healthy (deletes name) s h =
      on_account-Healthy (delete upper_rune name) s
        (λ scs w. delete-WellFormed upper_rune s.store.max_scripts scs w name) h
  perform-Healthy (renames old new) s h =
      on_account-Healthy (rename upper_rune old new) s
        (λ scs w. rename-WellFormed upper_rune s.store.max_scripts scs w old new) h

  -- Whatever calls the sessions of a store make, and in whatever order they take its lock, also where
  -- other calls stand between the two phases of a SetActive: the store stays well formed.
  pub interleaved-Healthy :
      (calls : List (Bytes × Call)) (st : Store) → Healthy st → Healthy (interleaved calls st)
  unfolding interleaved
  interleaved-Healthy [] st h = h
  interleaved-Healthy ((user, call) ∷ calls) st h =
      interleaved-Healthy calls _ (perform-Healthy call (record { store = st; username = user }) h)

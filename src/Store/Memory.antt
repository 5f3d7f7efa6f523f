-- ===== src/Store/Memory.antt =====
-- The store with its accounts, and the methods of its session. The SHA-256 function, the host's
-- Validate hook and unicode.ToUpper beyond ASCII are parameters.

pub mod Accounts
pub mod Isolation
pub mod Admission
pub mod Methods
use go_managesieve.Common.{
  ℕ, ◌≡◌, Bool, true, false, not, ◌&&◌, ◌||◌, List, [], ◌∷◌, ◌++◌, Option, none, some, Bytes, codes,
  bytes_eq, if◌then◌else◌,
}
use go_managesieve.Wire.{ScriptInfo, quote, sanitize_text}
use go_managesieve.Server.Errors.{Error, Failure, failure}
use go_managesieve.Server.Session.{Reply, returns, fails, AuthReply, Session}
use go_managesieve.Store.Scripts.{
  Script, find, change, deactivate_all, infos, content_of, nonexistent, get_content, store_content,
  activate, delete, rename, space,
}

pub record Account : Type 0 where
  -- the SHA-256 of the password
  pub password : Bytes
  pub scripts : List Script

-- The accounts by their user names.
abbrev pub Accounts : Type 0
Accounts = List (Bytes × Account)

pub record Store : Type 0 where
  pub max_scripts : ℕ
  pub accounts : Accounts

-- A connection's view of the store: its session's user name.
pub record MemSession : Type 0 where
  pub store : Store
  pub username : Bytes

unfoldable pub lookup : Bytes → Accounts → Option Account
lookup user [] = none
lookup user ((name, acct) ∷ rest) =
    let further = lookup user rest in if bytes_eq name user then some acct else further

-- The assignment of a key of the map.
unfoldable pub assign : Bytes → Account → Accounts → Accounts
assign user new [] = (user, new) ∷ []
assign user new ((name, acct) ∷ rest) =
    let further = assign user new rest in
    if bytes_eq name user then (name, new) ∷ rest else (name, acct) ∷ further

abbrev pub with_scripts : List Script → Account → Account
with_scripts scs acct = record acct { scripts = scs }

unfoldable pub store_scripts : Bytes → Account → List Script → Store → Store
store_scripts user acct scs st = record st {
  accounts = assign user (with_scripts scs acct) st.accounts;
}

-- The text of ErrCloseConnection.
abbrev pub close_connection : Failure
close_connection = record {
  text = codes "managesieveserver: close connection";
  as_error = none;
  is_close = true;
  is_silent = false;
}

module _ {A : Type 0} where
  unfoldable pub on_account_found :
      (List Script → Reply A × List Script) → Option Account → MemSession → Reply A × MemSession
  on_account_found f none s = (fails close_connection, s)
  on_account_found f (some acct) s =
      let (reply, scs) = f acct.scripts in
      (reply, record s { store = store_scripts s.username acct scs s.store })

  -- What a method does to the account of `authed`.
  unfoldable pub on_account :
      (List Script → Reply A × List Script) → MemSession → Reply A × MemSession
  on_account f s = on_account_found f (lookup s.username s.store.accounts) s

  unfoldable pub ask_account_found : (List Script → Reply A) → Option Account → Reply A
  ask_account_found f none = fails close_connection
  ask_account_found f (some acct) = f acct.scripts

  -- The same of a method that only reads.
  unfoldable pub ask_account : (List Script → Reply A) → MemSession → Reply A
  ask_account f s = ask_account_found f (lookup s.username s.store.accounts)

module _ (upper_rune : ℕ → ℕ) (sha256 : Bytes → Bytes)
    (validate_hook : Option (Bytes → Reply Bytes)) where
  abbrev pub auth_failed : Failure
  auth_failed =
      failure upper_rune
        (record { code = []; message = quote (codes "Authentication failed"); close = false })

  unfoldable pub add_user : Bytes → Bytes → Store → Store
  add_user username password st = record st {
    accounts = assign username (record { password = sha256 password; scripts = [] }) st.accounts;
  }

  unfoldable pub seed_found : Option Script → Bytes → Bytes → Bool → List Script → List Script
  seed_found (some sc) name content active scs =
      change name (λ found. record found { content = content; active = active }) scs
  seed_found none name content active scs =
      scs ++ record { name = name; content = content; active = active } ∷ []

  -- AddScript on the account.
  unfoldable pub seed : Bytes → Bytes → Bool → List Script → List Script
  seed name content active scs =
      let ready = if active then deactivate_all scs else scs in
      seed_found (find name ready) name content active ready

  unfoldable pub add_script_found :
      Option Account → Bytes → Bytes → Bytes → Bool → Store → Option Store
  add_script_found none username name content active st = none
  add_script_found (some acct) username name content active st =
      some (store_scripts username acct (seed name content active acct.scripts) st)

  -- none stands for the error of an unknown user.
  unfoldable pub add_script : Bytes → Bytes → Bytes → Bool → Store → Option Store
  add_script username name content active st =
      add_script_found (lookup username st.accounts) username name content active st

  unfoldable pub stored_password : Option Account → Bytes
  stored_password none = sha256 (codes "managesievemem-dummy-password")
  stored_password (some acct) = acct.password

  unfoldable pub is_missing : Option Account → Bool
  is_missing none = true
  is_missing (some acct) = false

  unfoldable pub log_in_found : Option Account → Bytes → Bytes → MemSession → AuthReply × MemSession
  log_in_found found username password s =
      if not (bytes_eq (stored_password found) (sha256 password)) || is_missing found
      then (record { hijack = false; reply = fails auth_failed }, s)
      else (record { hijack = false; reply = returns _ }, record s { username = username })

  unfoldable pub log_in : Bytes → Bytes → MemSession → AuthReply × MemSession
  log_in username password s = log_in_found (lookup username s.store.accounts) username password s

  unfoldable pub log_in_plain : Bytes → Bytes → Bytes → MemSession → AuthReply × MemSession
  log_in_plain [] username password s = log_in username password s
  log_in_plain (x ∷ identity) username password s =
      if not (bytes_eq (x ∷ identity) username)
      then (record { hijack = false; reply = fails auth_failed }, s)
      else log_in username password s

  unfoldable pub wrap_error : Option Error → Failure → Failure
  wrap_error (some merr) e = e
  wrap_error none e = failure upper_rune (record {
    code = [];
    message = quote (codes "Script validation failed: " ++ sanitize_text e.text);
    close = false;
  })

  unfoldable pub wrap_validation_error : Reply Bytes → Reply Bytes
  wrap_validation_error (returns warnings) = returns warnings
  wrap_validation_error (fails e) = fails (wrap_error e.as_error e)

  unfoldable pub validated : Option (Bytes → Reply Bytes) → Bytes → Reply Bytes
  validated none content = returns []
  validated (some v) content = wrap_validation_error (v content)

  unfoldable pub validate : Bytes → Reply Bytes
  validate content = validated validate_hook content

  unfoldable pub put_validated :
      Reply Bytes → Bytes → Bytes → MemSession → Reply (Bool × Bytes) × MemSession
  put_validated (fails e) name content s = (fails e, s)
  put_validated (returns warnings) name content s =
      on_account (store_content upper_rune s.store.max_scripts name content warnings) s

  unfoldable pub put_with_warnings : Bytes → Bytes → MemSession → Reply (Bool × Bytes) × MemSession
  put_with_warnings name content s = put_validated (validate content) name content s

  unfoldable pub only_updated : Reply (Bool × Bytes) → Reply Bool
  only_updated (returns (updated, warnings)) = returns updated
  only_updated (fails e) = fails e

  unfoldable pub put_only : Bytes → Bytes → MemSession → Reply Bool × MemSession
  put_only name content s =
      let (reply, s') = put_with_warnings name content s in (only_updated reply, s')

  -- The two phases of SetActive: the snapshot of the content, and the activation. The lock is not
  -- held between them.
  unfoldable pub snapshot : Bytes → MemSession → Reply Bytes
  snapshot name s = ask_account (get_content upper_rune name) s

  unfoldable pub commit : Bytes → MemSession → Reply (Unit {0}) × MemSession
  commit name s = on_account (activate upper_rune name) s

  unfoldable pub activate_validated :
      Reply Bytes → Bytes → MemSession → Reply (Unit {0}) × MemSession
  activate_validated (fails e) name s = (fails e, s)
  activate_validated (returns warnings) name s = commit name s

  unfoldable pub activate_snapshot :
      Reply Bytes → Bytes → MemSession → Reply (Unit {0}) × MemSession
  activate_snapshot (fails e) name s = (fails e, s)
  activate_snapshot (returns content) name s = activate_validated (validate content) name s

  unfoldable pub make_active : Bytes → MemSession → Reply (Unit {0}) × MemSession
  make_active [] s = on_account (λ scs. (returns _, deactivate_all scs)) s
  make_active (x ∷ name) s = activate_snapshot (snapshot (x ∷ name) s) (x ∷ name) s

  abbrev pub mem_methods : Session MemSession
  mem_methods = record {
    authenticate_plain = log_in_plain;
    login = some log_in;
    list_scripts = λ s. (ask_account (λ scs. returns (infos scs)) s, s);
    get_script = λ name s. (ask_account (get_content upper_rune name) s, s);
    put_script = put_only;
    put_script_warnings = some put_with_warnings;
    check_script = λ content s. (validate content, s);
    set_active = make_active;
    delete_script = λ name s. on_account (delete upper_rune name) s;
    rename_script = λ old new s. on_account (rename upper_rune old new) s;
    have_space = λ name size s. (ask_account (space upper_rune s.store.max_scripts name) s, s);
    unknown_command = none;
  }

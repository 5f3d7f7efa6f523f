-- ===== src/Examples/Store.antt =====
-- A store with two users.
use go_managesieve.Common.{
  ℕ, ◌≡◌, ◌≢◌, refl, arith, true, false, not, ◌&&◌, List, [], ◌∷◌, some, Bytes, codes, bytes_eq,
  bytes_eq_iff, if◌then◌else◌,
}
use go_managesieve.Server.Errors.{plain_failure}
use go_managesieve.Server.Session.{Reply, returns, fails, succeeds}
use go_managesieve.Store.Scripts.{
  Script, find, store_content, put_found, activate, delete, delete_found, rename,
}
use go_managesieve.Store.Shape.{Unique}
use go_managesieve.Store.Contract.{
  Leaves, entries, put_entry, activate_entry, delete_entry, rename_entry, store_content-Leaves,
  activate-Leaves, present, delete-Leaves, rename-Leaves,
}
use go_managesieve.Store.Outcomes.{deletable, delete-deletable, rename-succeeds}
use go_managesieve.Store.Memory.{
  Store, MemSession, add_user, log_in, put_with_warnings, make_active, mem_methods,
}
use go_managesieve.Store.Memory.Methods.{Does, accepts}
use go_managesieve.Store.Memory.Methods.Storing.{has_room, have_space-put, put-get_script}
use go_managesieve.Store.Memory.Methods.Activating.{set_active_entry, activatable, make_active-Does}
use go_managesieve.Store.Memory.Accounts.{
  Call, puts, makes_active, commits, deletes, renames, perform, interleaved, Healthy,
  interleaved-Healthy,
}
use go_managesieve.Store.Memory.Isolation.{
  account, perform-account, knows, log_in-knows, log_in-add_user,
}

abbrev pub upper : ℕ → ℕ
upper r = r

abbrev pub digest : Bytes → Bytes
digest s = 0 ∷ s

-- A hook that refuses the empty script.
abbrev pub check : Bytes → Reply Bytes
check [] = fails (plain_failure (codes "empty"))
check (x ∷ s) = returns []

abbrev first : Script
first = record { name = codes "first"; content = codes "keep;"; active = true }

abbrev second : Script
second = record { name = codes "second"; content = codes "stop;"; active = false }

abbrev scripts : List Script
scripts = first ∷ second ∷ []

abbrev store : Store
store = record {
  max_scripts = 2;
  accounts =
      (codes "u", record { password = digest (codes "p"); scripts = scripts })
      ∷ (codes "v", record { password = digest (codes "q"); scripts = [] })
      ∷ [];
}

abbrev pub session : MemSession
session = record { store = store; username = codes "u" }

scripts-Unique : Unique scripts
unfolding find
scripts-Unique = (refl, (refl, _))

store-Healthy : Healthy store
unfolding find
store-Healthy = (
  record {
    unique = scripts-Unique;
    one_active = ((λ h. refl), ((λ h. refl), _));
    within_quota = λ positive. omega arith;
  },
  (record { unique = _; one_active = _; within_quota = λ positive. omega arith }, _),
)

quota_refuses : succeeds (store_content upper 2 (codes "third") (codes "x") [] scripts).0 ≡ false
unfolding store_content put_found find
quota_refuses = refl

active_stays : (delete upper (codes "first") scripts).1 ≡ scripts
unfolding delete delete_found find
active_stays = refl

calls : List (Bytes × Call)
calls =
    (codes "v", puts (codes "second") (codes "keep;"))
    ∷ (codes "u", renames (codes "second") (codes "third"))
    ∷ (codes "u", commits (codes "second"))
    ∷ (codes "u", makes_active (codes "third"))
    ∷ (codes "u", deletes (codes "first"))
    ∷ []

v_differs : codes "v" ≢ codes "u"
v_differs = ground (arith, bytes_eq_iff (codes "v") (codes "u"))

interleaved-Healthy_example : Healthy (interleaved upper digest (some check) calls store)
interleaved-Healthy_example =
    interleaved-Healthy upper digest (some check) calls store store-Healthy

perform-account_example :
    account
      (codes "v")
      (perform upper digest (some check) (puts (codes "first") (codes "stop;")) session)
    ≡ account (codes "v") session
perform-account_example =
    perform-account upper digest (some check) (codes "v") session v_differs
      (puts (codes "first") (codes "stop;"))

log_in-knows_example :
    succeeds (log_in upper digest (some check) (codes "v") (codes "q") session).0.reply
    ≡ knows upper digest (some check) (account (codes "v") session) (codes "q")
log_in-knows_example = log_in-knows upper digest (some check) (codes "v") (codes "q") session

log_in-add_user_example :
    (succeeds
        (log_in upper digest (some check) (codes "u") (codes "new") (record {
          store = add_user upper digest (some check) (codes "u") (codes "new") store;
          username = [];
        })).0.reply
      ≡ true)
    × (succeeds
          (log_in upper digest (some check) (codes "v") (codes "new") (record {
            store = add_user upper digest (some check) (codes "u") (codes "new") store;
            username = [];
          })).0.reply
        ≡ succeeds
            (log_in upper digest
              (some check)
              (codes "v")
              (codes "new")
              (record { store = store; username = [] })).0.reply)
log_in-add_user_example =
    log_in-add_user upper digest (some check) (codes "u") (codes "new") (codes "v") (codes "new") []
      store v_differs

store_content-Leaves_example :
    Leaves
      (store_content upper 2 (codes "first") (codes "stop;") [] scripts)
      scripts
      (put_entry (codes "first") (codes "stop;"))
store_content-Leaves_example =
    store_content-Leaves upper scripts 2 (codes "first") (codes "stop;") []

activate-Leaves_example :
    (succeeds (activate upper (codes "second") scripts).0
      ≡ present (entries scripts (codes "second")))
    × Leaves (activate upper (codes "second") scripts) scripts (activate_entry (codes "second"))
activate-Leaves_example = activate-Leaves upper scripts (codes "second")

make_active-Does_example :
    Does
      (make_active upper digest (some check) (codes "second") session)
      session
      (set_active_entry (codes "second"))
      (activatable upper digest (some check) (codes "second") (account (codes "u") session))
make_active-Does_example = make_active-Does upper digest (some check) session (codes "second")

delete-Leaves_example :
    Leaves (delete upper (codes "second") scripts) scripts (delete_entry (codes "second"))
delete-Leaves_example = delete-Leaves upper scripts (codes "second") scripts-Unique

rename-Leaves_example :
    Leaves
      (rename upper (codes "first") (codes "third") scripts)
      scripts
      (rename_entry (codes "first") (codes "third"))
rename-Leaves_example = rename-Leaves upper scripts (codes "first") (codes "third") scripts-Unique

put-get_script_example :
    ((mem_methods upper digest (some check)).get_script
      (codes "first")
      (put_with_warnings upper digest (some check) (codes "first") (codes "stop;") session).1).0
    ≡ (if succeeds
            (put_with_warnings upper digest (some check) (codes "first") (codes "stop;") session).0
          && bytes_eq (codes "first") (codes "first")
        then returns (codes "stop;")
        else ((mem_methods upper digest (some check)).get_script (codes "first") session).0)
put-get_script_example =
    put-get_script upper digest (some check) (codes "first") (codes "stop;") (codes "first") session

have_space-put_example :
    (succeeds ((mem_methods upper digest (some check)).have_space (codes "third") 1 session).0
      ≡ has_room 2 (codes "third") (account (codes "u") session))
    × (succeeds (put_with_warnings upper digest (some check) (codes "third") (codes "x") session).0
        ≡ (accepts (some check) (codes "x")
            && succeeds
                ((mem_methods upper digest (some check)).have_space (codes "third") 1 session).0))
have_space-put_example =
    have_space-put upper digest (some check) (codes "third") (codes "x") 1 session

delete-deletable_example :
    succeeds (delete upper (codes "first") scripts).0 ≡ deletable (entries scripts (codes "first"))
delete-deletable_example = delete-deletable upper scripts (codes "first")

rename-succeeds_example : succeeds (rename upper (codes "first") (codes "second") scripts).0 ≡ (
    present (entries scripts (codes "first")) && not (present (entries scripts (codes "second"))))
rename-succeeds_example = rename-succeeds upper scripts (codes "first") (codes "second")

-- ===== src/Store/Scripts.antt =====
-- The scripts of an account (types script and account), and what the methods do to them.
use go_managesieve.Common.{
  ℕ, Bool, true, false, ◌&&◌, List, [], ◌∷◌, ◌++◌, Option, none, some, Bytes, codes, bytes_eq, ltb,
  leb, if◌then◌else◌, length,
}
use go_managesieve.Wire.{ScriptInfo}
use go_managesieve.Server.Errors.{Failure, failure}
use go_managesieve.Server.Session.{Reply, returns, fails}

pub record Script : Type 0 where
  pub name : Bytes
  pub content : Bytes
  pub active : Bool

-- The first script of the name.
unfoldable pub find : Bytes → List Script → Option Script
find name [] = none
find name (sc ∷ scs) = let rest = find name scs in if bytes_eq sc.name name then some sc else rest

-- A change of the script that `find` gives, which the list holds by reference.
unfoldable pub change : Bytes → (Script → Script) → List Script → List Script
change name f [] = []
change name f (sc ∷ scs) =
    let rest = change name f scs in if bytes_eq sc.name name then f sc ∷ scs else sc ∷ rest

unfoldable pub remove : Bytes → List Script → List Script
remove name [] = []
remove name (sc ∷ scs) =
    let rest = remove name scs in if bytes_eq sc.name name then scs else sc ∷ rest

abbrev pub with_content : Bytes → Script → Script
with_content content sc = record sc { content = content }

abbrev pub with_active : Bool → Script → Script
with_active active sc = record sc { active = active }

abbrev pub with_name : Bytes → Script → Script
with_name name sc = record sc { name = name }

unfoldable pub deactivate_all : List Script → List Script
deactivate_all [] = []
deactivate_all (sc ∷ scs) = with_active false sc ∷ deactivate_all scs

-- The pointer that `find` gives is nil.
abbrev pub is_nil : Option Script → Bool
is_nil none = true
is_nil (some sc) = false

unfoldable pub infos : List Script → List ScriptInfo
infos [] = []
infos (sc ∷ scs) = record { name = sc.name; active = sc.active } ∷ infos scs

module _ (upper_rune : ℕ → ℕ) where
  abbrev pub coded_error : Bytes → Bytes → Failure
  coded_error code message =
      failure upper_rune (record { code = code; message = message; close = false })

  abbrev pub nonexistent : Failure
  nonexistent = coded_error (codes "NONEXISTENT") (codes "Script does not exist")

  unfoldable pub content_of : Option Script → Reply Bytes
  content_of none = fails nonexistent
  content_of (some sc) = returns sc.content

  -- GetScript on the account.
  unfoldable pub get_content : Bytes → List Script → Reply Bytes
  get_content name scs = content_of (find name scs)

  unfoldable pub put_found :
      Option Script → ℕ → Bytes → Bytes → Bytes → List Script → Reply (Bool × Bytes) × List Script
  put_found (some sc) max name content warnings scs =
      (returns (true, warnings), change name (with_content content) scs)
  put_found none max name content warnings scs =
      if ltb 0 max && leb max (length scs)
      then (
        fails (coded_error (codes "QUOTA/MAXSCRIPTS") (codes "Too many scripts for this account")),
        scs,
      )
      else (
        returns (false, warnings),
        scs ++ record { name = name; content = content; active = false } ∷ [],
      )

  -- PutScriptWarnings behind the validation.
  unfoldable pub store_content :
      ℕ → Bytes → Bytes → Bytes → List Script → Reply (Bool × Bytes) × List Script
  store_content max name content warnings scs =
      put_found (find name scs) max name content warnings scs

  unfoldable pub activate_found :
      Option Script → Bytes → List Script → Reply (Unit {0}) × List Script
  activate_found none name scs = (fails nonexistent, scs)
  activate_found (some sc) name scs =
      (returns _, change name (with_active true) (deactivate_all scs))

  -- SetActive behind the validation.
  unfoldable pub activate : Bytes → List Script → Reply (Unit {0}) × List Script
  activate name scs = activate_found (find name scs) name scs

  unfoldable pub delete_found : Option Script → Bytes → List Script → Reply (Unit {0}) × List Script
  delete_found none name scs = (fails nonexistent, scs)
  delete_found (some sc) name scs =
      if sc.active
      then (
        fails (
            coded_error (codes "ACTIVE")
              (codes "Cannot delete the active script; deactivate it first")),
        scs,
      )
      else (returns _, remove name scs)

  -- DeleteScript on the account.
  unfoldable pub delete : Bytes → List Script → Reply (Unit {0}) × List Script
  delete name scs = delete_found (find name scs) name scs

  unfoldable pub rename_found :
      Option Script → Option Script → Bytes → Bytes → List Script → Reply (Unit {0}) × List Script
  rename_found none taken old_name new_name scs = (fails nonexistent, scs)
  rename_found (some sc) (some taken) old_name new_name scs = (
    fails (coded_error (codes "ALREADYEXISTS") (codes "A script with the new name already exists")),
    scs,
  )
  rename_found (some sc) none old_name new_name scs =
      (returns _, change old_name (with_name new_name) scs)

  -- RenameScript on the account.
  unfoldable pub rename : Bytes → Bytes → List Script → Reply (Unit {0}) × List Script
  rename old_name new_name scs =
      rename_found (find old_name scs) (find new_name scs) old_name new_name scs

  -- HaveSpace on the account.
  unfoldable pub space : ℕ → Bytes → List Script → Reply (Unit {0})
  space max name scs =
      if ltb 0 max && (is_nil (find name scs) && leb max (length scs))
      then fails
          (coded_error (codes "QUOTA/MAXSCRIPTS") (codes "Maximum number of scripts reached"))
      else returns _

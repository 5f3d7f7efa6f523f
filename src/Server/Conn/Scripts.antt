-- ===== src/Server/Conn/Scripts.antt =====
-- The script commands of the AUTHENTICATED state.
use go_managesieve.Common.{
  ℕ, Bool, ◌&&◌, List, [], ◌∷◌, ◌++◌, Option, none, some, Bytes, codes, ltb, if◌then◌else◌, length,
}
use go_managesieve.Text.Decimal.{decimal}
use go_managesieve.Text.Space.{trim_space}
use go_managesieve.Wire.{ScriptInfo, quote, sanitize_text, validate_script_name}
use go_managesieve.Server.Parser.{
  unquote_string, Number, number, not_a_number, too_large, parse_int64,
}
use go_managesieve.Server.Errors.{plain_failure}
use go_managesieve.Server.Session.{Reply, returns, fails}
use go_managesieve.Server.Conn.State.{
  ScriptCall, list_scripts, get_script, put_script, check_script, set_active, delete_script,
  rename_script, have_space, called_script, Conn, Env, emit, write, write_line, set_error,
  client_error, session_error,
}
use go_managesieve.Server.Conn.Literals.{quota_max_size, read_script_argument}

module _ {S : Type 0} where
  -- A method of the session has run.
  unfoldable pub called : ScriptCall → S → Conn S → Conn S
  called call s c = emit (called_script call) (record c { session = s })

abbrev script_line : ScriptInfo → Bytes
script_line info =
    let line = quote (sanitize_text info.name) in
    if info.active then line ++ codes " ACTIVE" else line

module _ {S : Type 0} where
  unfoldable pub write_scripts : List ScriptInfo → Conn S → Conn S
  write_scripts [] c = c
  write_scripts (info ∷ infos) c = write_scripts infos (write_line (script_line info) c)

  unfoldable pub write_literal : Bytes → Conn S → Conn S
  write_literal script c = write_line (codes "OK") (
      write (codes "\r\n")
        (write script (write (codes "{" ++ (decimal (length script) ++ codes "}\r\n")) c)))

-- The name that an argument stands for.
abbrev pub name_of : Bytes → Bytes
name_of arg = trim_space (unquote_string arg)

-- The text of a warning response.
abbrev pub warnings_line : Bytes → Bytes
warnings_line warnings = codes "OK (WARNINGS) " ++ quote (sanitize_text warnings)

abbrev pub stored_line : Bool → Bytes
stored_line updated =
    if updated then codes "OK \"Script updated\"" else codes "OK \"Script stored\""

abbrev pub put_line : Bool → Bytes → Bytes
put_line updated [] = stored_line updated
put_line updated (w ∷ warnings) = warnings_line (w ∷ warnings)

abbrev pub check_line : Bytes → Bytes
check_line [] = codes "OK"
check_line (w ∷ warnings) = warnings_line (w ∷ warnings)

module _ {S : Type 0} (env : Env S) where
  open env use {options, methods}

  unfoldable pub answer_list : Reply (List ScriptInfo) → Conn S → Conn S
  answer_list (fails e) c = session_error env e c
  answer_list (returns infos) c = write_line (codes "OK") (write_scripts infos c)

  unfoldable pub handle_list_scripts : Conn S → Conn S
  handle_list_scripts c =
      let (reply, s) = methods.list_scripts c.session in answer_list reply (called list_scripts s c)

  unfoldable pub answer_get : Reply Bytes → Conn S → Conn S
  answer_get (fails e) c = session_error env e c
  answer_get (returns script) c = write_literal script c

  unfoldable pub handle_get_script : List Bytes → Conn S → Conn S
  handle_get_script [] c = client_error env (codes "Syntax: GETSCRIPT scriptName") c
  handle_get_script (arg ∷ _) c =
      let (reply, s) = methods.get_script (name_of arg) c.session in
      answer_get reply (called get_script s c)

  unfoldable pub answer_put : Reply (Bool × Bytes) → Conn S → Conn S
  answer_put (fails e) c = session_error env e c
  answer_put (returns (updated, warnings)) c = write_line (put_line updated warnings) c

  unfoldable pub without_warnings : Reply Bool → Reply (Bool × Bytes)
  without_warnings (fails e) = fails e
  without_warnings (returns updated) = returns (updated, [])

  -- PutScriptWarnings where the session has it, PutScript else.
  unfoldable pub put :
      Option (Bytes → Bytes → S → Reply (Bool × Bytes) × S)
      → Bytes
      → Bytes
      → S
      → Reply (Bool × Bytes) × S
  put (some put_warnings) name content s = put_warnings name content s
  put none name content s =
      let (reply, s') = methods.put_script name content s in (without_warnings reply, s')

  unfoldable pub too_big : ℕ → Bool
  too_big n = ltb 0 options.max_script_size && ltb options.max_script_size n

  unfoldable pub put_named : Option Bytes → Bytes → Bytes → Conn S → Conn S
  put_named (some problem) name content c =
      client_error env problem (set_error (plain_failure problem) c)
  put_named none name content c =
      if too_big (length content)
      then quota_max_size env (length content) c
      else (let (reply, s) = put methods.put_script_warnings name content c.session in
          answer_put reply (called put_script s c))

  unfoldable pub put_content : Bytes → Option Bytes × Conn S → Conn S
  put_content arg (none, c) = c
  put_content arg (some content, c) =
      put_named (validate_script_name (name_of arg)) (name_of arg) content c

  unfoldable pub handle_put_script : List Bytes → Conn S → Conn S
  handle_put_script (arg ∷ content ∷ _) c = put_content arg (read_script_argument env content c)
  handle_put_script _ c = client_error env (codes "Syntax: PUTSCRIPT scriptName scriptContent") c

  unfoldable pub answer_check : Reply Bytes → Conn S → Conn S
  answer_check (fails e) c = session_error env e c
  answer_check (returns warnings) c = write_line (check_line warnings) c

  unfoldable pub check_content : Option Bytes × Conn S → Conn S
  check_content (none, c) = c
  check_content (some content, c) =
      if too_big (length content)
      then quota_max_size env (length content) c
      else (let (reply, s) = methods.check_script content c.session in
          answer_check reply (called check_script s c))

  unfoldable pub handle_check_script : List Bytes → Conn S → Conn S
  handle_check_script [] c = client_error env (codes "Syntax: CHECKSCRIPT scriptContent") c
  handle_check_script (content ∷ _) c = check_content (read_script_argument env content c)

  unfoldable pub answer : Bytes → Reply (Unit {0}) → Conn S → Conn S
  answer line (fails e) c = session_error env e c
  answer line (returns _) c = write_line line c

  unfoldable pub have_space_for : Bytes → Number → Conn S → Conn S
  have_space_for name (number size) c =
      if too_big size
      then quota_max_size env size c
      else (let (reply, s) = methods.have_space name size c.session in
          answer (codes "OK") reply (called have_space s c))
  have_space_for name not_a_number c = client_error env (codes "Invalid script size") c
  have_space_for name too_large c = client_error env (codes "Invalid script size") c

  unfoldable pub handle_have_space : List Bytes → Conn S → Conn S
  handle_have_space (arg ∷ size ∷ _) c = have_space_for (name_of arg) (parse_int64 size) c
  handle_have_space _ c = client_error env (codes "Syntax: HAVESPACE scriptName scriptSize") c

  unfoldable pub rename_named : Option Bytes → Bytes → Bytes → Conn S → Conn S
  rename_named (some problem) old_name new_name c =
      client_error env problem (set_error (plain_failure problem) c)
  rename_named none old_name new_name c =
      let (reply, s) = methods.rename_script old_name new_name c.session in
      answer (codes "OK") reply (called rename_script s c)

  unfoldable pub rename_from : Bytes → Bytes → Conn S → Conn S
  rename_from [] new_name c = client_error env (codes "Script name cannot be empty") c
  rename_from (x ∷ old_name) new_name c =
      rename_named (validate_script_name new_name) (x ∷ old_name) new_name c

  unfoldable pub handle_rename_script : List Bytes → Conn S → Conn S
  handle_rename_script (old ∷ new ∷ _) c = rename_from (name_of old) (name_of new) c
  handle_rename_script _ c = client_error env (codes "Syntax: RENAMESCRIPT oldName newName") c

  unfoldable pub handle_set_active : List Bytes → Conn S → Conn S
  handle_set_active [] c = client_error env (codes "Syntax: SETACTIVE scriptName") c
  handle_set_active (arg ∷ _) c =
      let (reply, s) = methods.set_active (name_of arg) c.session in
      answer (codes "OK") reply (called set_active s c)

  unfoldable pub handle_delete_script : List Bytes → Conn S → Conn S
  handle_delete_script [] c = client_error env (codes "Syntax: DELETESCRIPT scriptName") c
  handle_delete_script (arg ∷ _) c =
      let (reply, s) = methods.delete_script (name_of arg) c.session in
      answer (codes "OK \"Script deleted\"") reply (called delete_script s c)

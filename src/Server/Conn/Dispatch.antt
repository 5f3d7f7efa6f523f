-- ===== src/Server/Conn/Dispatch.antt =====
-- dispatch and dispatchUnknown. The flag of a result asks for the connection to be closed.
use go_managesieve.Common.{
  Bool, true, false, not, List, [], ◌∷◌, ◌++◌, Option, none, some, Bytes, codes, bytes_eq,
  if◌then◌else◌,
}
use go_managesieve.Wire.{quote, sanitize_text}
use go_managesieve.Server.Parser.{unquote_string}
use go_managesieve.Server.Errors.{plain_failure}
use go_managesieve.Server.Session.{AuthReply, UnknownReply, Response, says_ok, says_no}
use go_managesieve.Server.Conn.State.{
  called_unknown, Conn, Env, emit, write_line, ok_line, no_line, set_error, client_error,
}
use go_managesieve.Server.Conn.Capabilities.{send_capability_block}
use go_managesieve.Server.Conn.Auth.{handle_authenticate, handle_login, handle_start_tls}
use go_managesieve.Server.Conn.Scripts.{
  handle_list_scripts, handle_get_script, handle_put_script, handle_check_script, handle_have_space,
  handle_rename_script, handle_set_active, handle_delete_script,
}

-- The verbs of the two switches.
pub data Verb : Type 0 where
  capability starttls authenticate login noop logout : Verb
  listscripts getscript putscript checkscript : Verb
  havespace renamescript setactive deletescript : Verb
  other : Verb

unfoldable pub script_verb : Bytes → Verb
script_verb cmd =
    if bytes_eq cmd (codes "LISTSCRIPTS")
    then listscripts
    else if bytes_eq cmd (codes "GETSCRIPT")
    then getscript
    else if bytes_eq cmd (codes "PUTSCRIPT")
    then putscript
    else if bytes_eq cmd (codes "CHECKSCRIPT")
    then checkscript
    else if bytes_eq cmd (codes "HAVESPACE")
    then havespace
    else if bytes_eq cmd (codes "RENAMESCRIPT")
    then renamescript
    else if bytes_eq cmd (codes "SETACTIVE")
    then setactive
    else if bytes_eq cmd (codes "DELETESCRIPT")
    then deletescript
    else other

unfoldable pub verb_of : Bytes → Verb
unfolding script_verb
verb_of cmd =
    if bytes_eq cmd (codes "CAPABILITY")
    then capability
    else if bytes_eq cmd (codes "STARTTLS")
    then starttls
    else if bytes_eq cmd (codes "AUTHENTICATE")
    then authenticate
    else if bytes_eq cmd (codes "LOGIN")
    then login
    else if bytes_eq cmd (codes "NOOP")
    then noop
    else if bytes_eq cmd (codes "LOGOUT")
    then logout
    else script_verb cmd

module _ {S : Type 0} where
  unfoldable pub respond : List Response → Conn S → Conn S
  respond [] c = c
  respond (says_ok msg ∷ rs) c = respond rs (ok_line msg c)
  respond (says_no msg ∷ rs) c = respond rs (no_line msg c)

unfoldable pub noop_line : List Bytes → Bytes
noop_line [] = codes "OK"
noop_line (arg ∷ _) =
    codes "OK (TAG " ++ (quote (sanitize_text (unquote_string arg)) ++ codes ") \"Done\"")

module _ {S : Type 0} (env : Env S) where
  open env use {options, methods}

  unfoldable pub unknown_command : Bytes → Conn S → Bool × Conn S
  unknown_command cmd c = (
    false,
    client_error env (codes "Unknown command")
        (set_error (plain_failure (codes "unknown command: " ++ cmd)) c),
  )

  unfoldable pub unknown_handled : Bytes → UnknownReply × S → Conn S → Bool × Conn S
  unknown_handled cmd (r, s) c =
      let answered = respond r.responses (emit called_unknown (record c { session = s })) in
      if r.handled then (r.close, answered) else unknown_command cmd answered

  unfoldable pub with_handler :
      Option (Bytes → List Bytes → S → UnknownReply × S)
      → Bytes
      → List Bytes
      → Conn S
      → Bool × Conn S
  with_handler none cmd args c = unknown_command cmd c
  with_handler (some h) cmd args c = unknown_handled cmd (h cmd args c.session) c

  unfoldable pub dispatch_unknown : Bytes → List Bytes → Conn S → Bool × Conn S
  dispatch_unknown cmd args c = with_handler methods.unknown_command cmd args c

  unfoldable pub dispatch_login :
      Option (Bytes → Bytes → S → AuthReply × S) → Bytes → List Bytes → Conn S → Bool × Conn S
  dispatch_login none cmd args c = dispatch_unknown cmd args c
  dispatch_login (some method) cmd args c = (false, handle_login env method args c)

  -- The guard of the script commands.
  unfoldable pub if_authenticated : (Conn S → Conn S) → Conn S → Bool × Conn S
  if_authenticated handler c =
      if not c.authenticated
      then (false, client_error env (codes "Not authenticated") c)
      else (false, handler c)

  unfoldable pub dispatch_verb : Verb → Bytes → List Bytes → Conn S → Bool × Conn S
  dispatch_verb capability cmd args c =
      (false, write_line (codes "OK") (send_capability_block env c))
  dispatch_verb starttls cmd args c = handle_start_tls env c
  dispatch_verb authenticate cmd args c = (false, handle_authenticate env args c)
  dispatch_verb login cmd args c = dispatch_login methods.login cmd args c
  dispatch_verb noop cmd args c = (false, write_line (noop_line args) c)
  dispatch_verb logout cmd args c = (true, write_line (codes "OK \"Goodbye\"") c)
  dispatch_verb listscripts cmd args c = if_authenticated (handle_list_scripts env) c
  dispatch_verb getscript cmd args c = if_authenticated (handle_get_script env args) c
  dispatch_verb putscript cmd args c = if_authenticated (handle_put_script env args) c
  dispatch_verb checkscript cmd args c = if_authenticated (handle_check_script env args) c
  dispatch_verb havespace cmd args c = if_authenticated (handle_have_space env args) c
  dispatch_verb renamescript cmd args c = if_authenticated (handle_rename_script env args) c
  dispatch_verb setactive cmd args c = if_authenticated (handle_set_active env args) c
  dispatch_verb deletescript cmd args c = if_authenticated (handle_delete_script env args) c
  dispatch_verb other cmd args c = dispatch_unknown cmd args c

  unfoldable pub dispatch : Bytes → List Bytes → Conn S → Bool × Conn S
  dispatch cmd args c = dispatch_verb (verb_of cmd) cmd args c

-- ===== src/Server/Conn/Refinement/Commands.antt =====
-- Each command runs in the protocol.
use go_managesieve.Common.{◌≡◌, refl, arith, true, not, List, [], ◌∷◌, Option, none, some, Bytes}
use go_managesieve.Server.Session.{AuthReply, UnknownReply, Response, says_ok, says_no}
use go_managesieve.Server.Conn.State.{called_unknown, Conn, Env, emit}
use go_managesieve.Server.Conn.Dispatch.{
  Verb, capability, starttls, authenticate, login, noop, logout, listscripts, getscript, putscript,
  checkscript, havespace, renamescript, setactive, deletescript, other, verb_of, respond,
  unknown_command, unknown_handled, with_handler, dispatch_unknown, dispatch_login,
  if_authenticated, dispatch_verb, dispatch,
}
use go_managesieve.Server.Conn.Quiet.{
  Calm, still, ◌behind◌, write_line-Calm, ok_line-Calm, no_line-Calm, set_error-Calm,
  client_error-Calm,
}
use go_managesieve.Server.Conn.Quiet.Literals.{send_capability_block-Calm}
use go_managesieve.Server.Conn.Protocol.{extension}
use go_managesieve.Server.Conn.Refinement.{Run, one_step, then-Run, quiet, then_quiet, if_pair-Run}
use go_managesieve.Server.Conn.Refinement.Auth.{handle_authenticate-Run, handle_login-Run}
use go_managesieve.Server.Conn.Refinement.Upgrade.{handle_start_tls-Run}
use go_managesieve.Server.Conn.Refinement.Scripts.{
  handle_list_scripts-Run, handle_get_script-Run, handle_put_script-Run, handle_check_script-Run,
  handle_have_space-Run, handle_rename_script-Run, handle_set_active-Run, handle_delete_script-Run,
}

module _ {S : Type 0} where
  respond-Calm : (rs : List Response) (c : Conn S) → Calm c (respond rs c)
  unfolding respond
  respond-Calm [] c = still refl refl
  respond-Calm (says_ok msg ∷ rs) c = respond-Calm rs _ behind ok_line-Calm msg c
  respond-Calm (says_no msg ∷ rs) c = respond-Calm rs _ behind no_line-Calm msg c

module _ {S : Type 0} (env : Env S) where
  unknown_command-Run : (cmd : Bytes) (c : Conn S) → Run env c (unknown_command env cmd c).1
  unfolding unknown_command
  unknown_command-Run cmd c = quiet (client_error-Calm env _ _ behind set_error-Calm _ c)

  unknown_handled-Run :
      (cmd : Bytes) (r : UnknownReply) (s : S) (c : Conn S)
      → Run env c (unknown_handled env cmd (r, s) c).1
  unfolding unknown_handled emit
  unknown_handled-Run cmd r s c =
      let answered =
        then_quiet
          (one_step {c = c} {d = emit called_unknown (record c { session = s })} (extension s)
            (omega arith))
          (respond-Calm r.responses _) in
      if_pair-Run r.handled _ _ (λ _. answered) (λ _. then-Run answered (unknown_command-Run cmd _))

  with_handler-Run :
      (h : Option (Bytes → List Bytes → S → UnknownReply × S)) (cmd : Bytes) (args : List Bytes)
      (c : Conn S)
      → Run env c (with_handler env h cmd args c).1
  unfolding with_handler
  with_handler-Run none cmd args c = unknown_command-Run cmd c
  with_handler-Run (some h) cmd args c = unknown_handled-Run cmd _ _ c

  dispatch_unknown-Run :
      (cmd : Bytes) (args : List Bytes) (c : Conn S) → Run env c (dispatch_unknown env cmd args c).1
  unfolding dispatch_unknown
  dispatch_unknown-Run cmd args c = with_handler-Run _ cmd args c

  dispatch_login-Run :
      (m : Option (Bytes → Bytes → S → AuthReply × S)) (cmd : Bytes) (args : List Bytes)
      (c : Conn S)
      → Run env c (dispatch_login env m cmd args c).1
  unfolding dispatch_login
  dispatch_login-Run none cmd args c = dispatch_unknown-Run cmd args c
  dispatch_login-Run (some method) cmd args c = handle_login-Run env method args c

  if_authenticated-Run :
      (handler : Conn S → Conn S) (c : Conn S)
      → (c.authenticated ≡ true → Run env c (handler c))
      → Run env c (if_authenticated env handler c).1
  unfolding if_authenticated
  if_authenticated-Run handler c h =
      if_pair-Run (not c.authenticated) _ _ (λ _. quiet (client_error-Calm env _ c))
        (λ p. h (ground (arith, p)))

  dispatch_verb-Run :
      (verb : Verb) (cmd : Bytes) (args : List Bytes) (c : Conn S)
      → Run env c (dispatch_verb env verb cmd args c).1
  unfolding dispatch_verb
  dispatch_verb-Run capability cmd args c =
      quiet (write_line-Calm _ _ behind send_capability_block-Calm env c)
  dispatch_verb-Run starttls cmd args c = handle_start_tls-Run env c
  dispatch_verb-Run authenticate cmd args c = handle_authenticate-Run env args c
  dispatch_verb-Run login cmd args c = dispatch_login-Run _ cmd args c
  dispatch_verb-Run noop cmd args c = quiet (write_line-Calm _ c)
  dispatch_verb-Run logout cmd args c = quiet (write_line-Calm _ c)
  dispatch_verb-Run listscripts cmd args c =
      if_authenticated-Run _ c (handle_list_scripts-Run env c)
  dispatch_verb-Run getscript cmd args c =
      if_authenticated-Run _ c (λ h. handle_get_script-Run env c h args)
  dispatch_verb-Run putscript cmd args c =
      if_authenticated-Run _ c (λ h. handle_put_script-Run env c h args)
  dispatch_verb-Run checkscript cmd args c =
      if_authenticated-Run _ c (λ h. handle_check_script-Run env c h args)
  dispatch_verb-Run havespace cmd args c =
      if_authenticated-Run _ c (λ h. handle_have_space-Run env c h args)
  dispatch_verb-Run renamescript cmd args c =
      if_authenticated-Run _ c (λ h. handle_rename_script-Run env c h args)
  dispatch_verb-Run setactive cmd args c =
      if_authenticated-Run _ c (λ h. handle_set_active-Run env c h args)
  dispatch_verb-Run deletescript cmd args c =
      if_authenticated-Run _ c (λ h. handle_delete_script-Run env c h args)
  dispatch_verb-Run other cmd args c = dispatch_unknown-Run cmd args c

  -- A command, whatever it is and in whatever state of the connection, runs in the protocol: it makes
  -- only steps that the protocol permits, in the order in which they are recorded, and it never makes
  -- more to read than there was, with the stream behind a TLS handshake counted from the start.
  pub dispatch-Run :
      (cmd : Bytes) (args : List Bytes) (c : Conn S) → Run env c (dispatch env cmd args c).1
  unfolding dispatch
  dispatch-Run cmd args c = dispatch_verb-Run (verb_of cmd) cmd args c

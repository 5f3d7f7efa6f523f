-- ===== src/Server/Conn/Refinement/Scripts.antt =====
-- The handlers of the script commands run in the protocol, for an authenticated client.
use go_managesieve.Common.{
  arith, ◌∙◌, ◌≡◌, arith, refl, ◌∙◌, ap, Bool, true, List, [], ◌∷◌, Option, none, some, Bytes,
  length,
}
use go_managesieve.Wire.{ScriptInfo}
use go_managesieve.Server.Parser.{Number, number, not_a_number, too_large}
use go_managesieve.Server.Session.{Reply, returns, fails}
use go_managesieve.Server.Conn.State.{
  ScriptCall, Conn, Env, emit, write, put_script, check_script, list_scripts, get_script,
  have_space, rename_script, set_active, delete_script,
}
use go_managesieve.Server.Conn.Scripts.{
  called, write_scripts, write_literal, answer_list, handle_list_scripts, answer_get,
  handle_get_script, answer_put, too_big, put_named, put_content, handle_put_script, answer_check,
  check_content, handle_check_script, answer, have_space_for, handle_have_space, rename_named,
  rename_from, handle_rename_script, handle_set_active, handle_delete_script,
}
use go_managesieve.Server.Conn.Quiet.{
  Calm, still, ◌behind◌, write_line-Calm, set_error-Calm, client_error-Calm, session_error-Calm,
  quota_max_size-Calm,
}
use go_managesieve.Server.Conn.Quiet.Literals.{read_script_argument-Calm}
use go_managesieve.Server.Conn.Protocol.{scripts}
use go_managesieve.Server.Conn.Refinement.{Run, one_step, quiet, then_quiet, quiet_then, if-Run}

module _ {S : Type 0} where
  write_scripts-Calm : (infos : List ScriptInfo) (c : Conn S) → Calm c (write_scripts infos c)
  unfolding write_scripts
  write_scripts-Calm [] c = still refl refl
  write_scripts-Calm (info ∷ infos) c = write_scripts-Calm infos _ behind write_line-Calm _ c

  write_literal-Calm : (script : Bytes) (c : Conn S) → Calm c (write_literal script c)
  unfolding write_literal write emit
  write_literal-Calm script c = write_line-Calm _ _ behind still refl refl

module _ {S : Type 0} (env : Env S) where
  called-Run :
      (call : ScriptCall) (s : S) (c : Conn S)
      → c.authenticated ≡ true
      → Run env c (called call s c)
  unfolding called emit
  called-Run call s c auth = one_step (scripts call s auth) (omega arith)

  answer_list-Calm : (r : Reply (List ScriptInfo)) (c : Conn S) → Calm c (answer_list env r c)
  unfolding answer_list
  answer_list-Calm (returns infos) c = write_line-Calm _ _ behind write_scripts-Calm infos c
  answer_list-Calm (fails e) c = session_error-Calm env e c

  answer_get-Calm : (r : Reply Bytes) (c : Conn S) → Calm c (answer_get env r c)
  unfolding answer_get
  answer_get-Calm (returns script) c = write_literal-Calm script c
  answer_get-Calm (fails e) c = session_error-Calm env e c

  answer_put-Calm : (r : Reply (Bool × Bytes)) (c : Conn S) → Calm c (answer_put env r c)
  unfolding answer_put
  answer_put-Calm (returns (updated, warnings)) c = write_line-Calm _ c
  answer_put-Calm (fails e) c = session_error-Calm env e c

  answer_check-Calm : (r : Reply Bytes) (c : Conn S) → Calm c (answer_check env r c)
  unfolding answer_check
  answer_check-Calm (returns warnings) c = write_line-Calm _ c
  answer_check-Calm (fails e) c = session_error-Calm env e c

  answer-Calm : (line : Bytes) (r : Reply (Unit {0})) (c : Conn S) → Calm c (answer env line r c)
  unfolding answer
  answer-Calm line (returns u) c = write_line-Calm _ c
  answer-Calm line (fails e) c = session_error-Calm env e c

  module _ (c : Conn S) (auth : c.authenticated ≡ true) where
    pub handle_list_scripts-Run : Run env c (handle_list_scripts env c)
    unfolding handle_list_scripts
    handle_list_scripts-Run = then_quiet (called-Run list_scripts _ c auth) (answer_list-Calm _ _)

    pub handle_get_script-Run : (args : List Bytes) → Run env c (handle_get_script env args c)
    unfolding handle_get_script
    handle_get_script-Run [] = quiet (client_error-Calm env _ c)
    handle_get_script-Run (arg ∷ args) =
        then_quiet (called-Run get_script _ c auth) (answer_get-Calm _ _)

    pub handle_set_active-Run : (args : List Bytes) → Run env c (handle_set_active env args c)
    unfolding handle_set_active
    handle_set_active-Run [] = quiet (client_error-Calm env _ c)
    handle_set_active-Run (arg ∷ args) =
        then_quiet (called-Run set_active _ c auth) (answer-Calm _ _ _)

    pub handle_delete_script-Run : (args : List Bytes) → Run env c (handle_delete_script env args c)
    unfolding handle_delete_script
    handle_delete_script-Run [] = quiet (client_error-Calm env _ c)
    handle_delete_script-Run (arg ∷ args) =
        then_quiet (called-Run delete_script _ c auth) (answer-Calm _ _ _)

    rename_named-Run :
        (problem : Option Bytes) (old new : Bytes) → Run env c (rename_named env problem old new c)
    unfolding rename_named
    rename_named-Run (some problem) old new =
        quiet (client_error-Calm env _ _ behind set_error-Calm _ c)
    rename_named-Run none old new =
        then_quiet (called-Run rename_script _ c auth) (answer-Calm _ _ _)

    rename_from-Run : (old new : Bytes) → Run env c (rename_from env old new c)
    unfolding rename_from
    rename_from-Run [] new = quiet (client_error-Calm env _ c)
    rename_from-Run (x ∷ old) new = rename_named-Run _ _ _

    pub handle_rename_script-Run : (args : List Bytes) → Run env c (handle_rename_script env args c)
    unfolding handle_rename_script
    handle_rename_script-Run [] = quiet (client_error-Calm env _ c)
    handle_rename_script-Run (old ∷ []) = quiet (client_error-Calm env _ c)
    handle_rename_script-Run (old ∷ new ∷ args) = rename_from-Run _ _

    have_space_for-Run : (name : Bytes) (n : Number) → Run env c (have_space_for env name n c)
    unfolding have_space_for
    have_space_for-Run name (number size) =
        if-Run (too_big env size) _ _ (λ _. quiet (quota_max_size-Calm env size c))
          (λ _. then_quiet (called-Run have_space _ c auth) (answer-Calm _ _ _))
    have_space_for-Run name not_a_number = quiet (client_error-Calm env _ c)
    have_space_for-Run name too_large = quiet (client_error-Calm env _ c)

    pub handle_have_space-Run : (args : List Bytes) → Run env c (handle_have_space env args c)
    unfolding handle_have_space
    handle_have_space-Run [] = quiet (client_error-Calm env _ c)
    handle_have_space-Run (arg ∷ []) = quiet (client_error-Calm env _ c)
    handle_have_space-Run (arg ∷ size ∷ args) = have_space_for-Run _ _

    put_named-Run :
        (problem : Option Bytes) (name content : Bytes)
        → Run env c (put_named env problem name content c)
    unfolding put_named
    put_named-Run (some problem) name content =
        quiet (client_error-Calm env _ _ behind set_error-Calm _ c)
    put_named-Run none name content =
        if-Run (too_big env (length content)) _ _ (λ _. quiet (quota_max_size-Calm env _ c))
          (λ _. then_quiet (called-Run put_script _ c auth) (answer_put-Calm _ _))

  put_content-Run :
      (arg : Bytes) (r : Option Bytes × Conn S)
      → r.1.authenticated ≡ true
      → Run env r.1 (put_content env arg r)
  unfolding put_content
  put_content-Run arg (none, c) auth = quiet (still refl refl)
  put_content-Run arg (some content, c) auth = put_named-Run c auth _ _ content

  check_content-Run :
      (r : Option Bytes × Conn S) → r.1.authenticated ≡ true → Run env r.1 (check_content env r)
  unfolding check_content
  check_content-Run (none, c) auth = quiet (still refl refl)
  check_content-Run (some content, c) auth =
      if-Run (too_big env (length content)) _ _ (λ _. quiet (quota_max_size-Calm env _ c))
        (λ _. then_quiet (called-Run check_script _ c auth) (answer_check-Calm _ _))

  module _ (c : Conn S) (auth : c.authenticated ≡ true) where
    pub handle_put_script-Run : (args : List Bytes) → Run env c (handle_put_script env args c)
    unfolding handle_put_script
    handle_put_script-Run [] = quiet (client_error-Calm env _ c)
    handle_put_script-Run (arg ∷ []) = quiet (client_error-Calm env _ c)
    handle_put_script-Run (arg ∷ content ∷ args) =
        quiet_then (read_script_argument-Calm env content c) (
          put_content-Run arg _
            (ap (λ v. v.authenticated) (read_script_argument-Calm env content c).same_view ∙ auth))

    pub handle_check_script-Run : (args : List Bytes) → Run env c (handle_check_script env args c)
    unfolding handle_check_script
    handle_check_script-Run [] = quiet (client_error-Calm env _ c)
    handle_check_script-Run (content ∷ args) =
        quiet_then (read_script_argument-Calm env content c) (
          check_content-Run _
            (ap (λ v. v.authenticated) (read_script_argument-Calm env content c).same_view ∙ auth))

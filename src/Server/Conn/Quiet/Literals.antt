-- ===== src/Server/Conn/Quiet/Literals.antt =====
-- The same of reading literals, and of the capability listing.
use go_managesieve.Common.{
  ℕ, zero, suc, refl, Bool, true, false, ◌&&◌, List, [], ◌∷◌, ◌++◌, Bytes, ltb, if◌then◌else◌,
  length,
}
use go_managesieve.Wire.{Capability}
use go_managesieve.Server.Parser.{
  Tokens, tokens, unclosed_quote, out_of_fuel, Literal, literal, bad_literal, not_literal,
  literal_length,
}
use go_managesieve.Server.Conn.State.{Conn, Env}
use go_managesieve.Server.Conn.Capabilities.{
  write_if, write_extra, send_capability_block, send_greeting, start_tls_available,
}
use go_managesieve.Server.Conn.Literals.{
  BodyRead, complete, incomplete, script_body, script_continued, literal_deferred, script_literal,
  read_script_argument, auth_body, read_auth_literal, Resolved, more_args, resolve_body,
  resolve_continued, resolve_last, resolve_from, resolve_literal_args,
}
use go_managesieve.Server.Conn.Quiet.{
  Calm, still, ◌behind◌, if-Calm, write_line-Calm, request_close-Calm, set_error-Calm,
  close_if-Calm, continuation-Calm, client_error-Calm, failed_read-Calm, read_literal-Calm,
  copy_literal-Calm, quota_max_size-Calm,
}

-- A pair's connection, by branch.
pub if_pair-Calm :
    {S A : Type 0} (b : Bool) (x y : A × Conn S) {c : Conn S}
    → Calm c x.1
    → Calm c y.1
    → Calm c (if b then x else y).1
if_pair-Calm true x y h k = h
if_pair-Calm false x y h k = k

module _ {S : Type 0} (env : Env S) where
  script_body-Calm : (r : BodyRead × Conn S) → Calm r.1 (script_body r).1
  unfolding script_body
  script_body-Calm (complete body rest, c) = still refl refl
  script_body-Calm (incomplete e, c) = failed_read-Calm env _ e c

  script_continued-Calm : (n : ℕ) (r : Bool × Conn S) → Calm r.1 (script_continued env n r).1
  unfolding script_continued
  script_continued-Calm n (true, c) = script_body-Calm _ behind copy_literal-Calm env n c
  script_continued-Calm n (false, c) = request_close-Calm c

  script_literal-Calm :
      (arg : Bytes) (l : Literal) (c : Conn S) → Calm c (script_literal env arg l c).1
  unfolding script_literal
  script_literal-Calm arg not_literal c = still refl refl
  script_literal-Calm arg (bad_literal non_sync) c =
      close_if-Calm non_sync _ behind client_error-Calm env _ c
  script_literal-Calm arg (literal n non_sync) c =
      if_pair-Calm (ltb 0 env.options.max_script_size && ltb env.options.max_script_size n) _ _
        (close_if-Calm _ _ behind quota_max_size-Calm env n c)
        (script_continued-Calm n _ behind continuation-Calm non_sync c)

  pub read_script_argument-Calm :
      (arg : Bytes) (c : Conn S) → Calm c (read_script_argument env arg c).1
  unfolding read_script_argument
  read_script_argument-Calm arg c = script_literal-Calm arg (literal_length arg) c

  auth_body-Calm : (r : BodyRead × Conn S) → Calm r.1 (auth_body r).1
  unfolding auth_body
  auth_body-Calm (complete body rest, c) = still refl refl
  auth_body-Calm (incomplete e, c) = failed_read-Calm env _ e c

  pub read_auth_literal-Calm : (n : ℕ) (c : Conn S) → Calm c (read_auth_literal env n c).1
  unfolding read_auth_literal
  read_auth_literal-Calm n c = auth_body-Calm _ behind read_literal-Calm env n c

  module _ (again : List Bytes → Conn S → Resolved × Conn S)
      (quiet : (args : List Bytes) (c : Conn S) → Calm c (again args c).1) where
    more_args-Calm :
        (args : List Bytes) (t : Tokens) (c : Conn S) → Calm c (more_args env again args t c).1
    unfolding more_args
    more_args-Calm args (tokens more) c = quiet (args ++ more) c
    more_args-Calm args unclosed_quote c = client_error-Calm env _ _ behind set_error-Calm _ c
    more_args-Calm args out_of_fuel c = still refl refl

    resolve_body-Calm :
        (front : List Bytes) (r : BodyRead × Conn S) → Calm r.1 (resolve_body env again front r).1
    unfolding resolve_body
    resolve_body-Calm front (complete body rest, c) = more_args-Calm _ _ c
    resolve_body-Calm front (incomplete e, c) = failed_read-Calm env _ e c

    resolve_continued-Calm :
        (front : List Bytes) (n : ℕ) (r : Bool × Conn S)
        → Calm r.1 (resolve_continued env again front n r).1
    unfolding resolve_continued
    resolve_continued-Calm front n (true, c) =
        resolve_body-Calm front _ behind read_literal-Calm env n c
    resolve_continued-Calm front n (false, c) = request_close-Calm c

    resolve_last-Calm :
        (cmd : Bytes) (args : List Bytes) (p : List Bytes × Bytes) (l : Literal) (c : Conn S)
        → Calm c (resolve_last env again cmd args p l c).1
    unfolding resolve_last
    resolve_last-Calm cmd args (front, last) not_literal c = still refl refl
    resolve_last-Calm cmd args (front, last) (bad_literal non_sync) c =
        if_pair-Calm (literal_deferred cmd (length front)) _ _ (still refl refl)
          (close_if-Calm non_sync _ behind client_error-Calm env _ c)
    resolve_last-Calm cmd args (front, last) (literal n non_sync) c =
        if_pair-Calm (literal_deferred cmd (length front)) _ _ (still refl refl) (
          if_pair-Calm (ltb env.options.max_line_length n) _ _
            (close_if-Calm _ _ behind client_error-Calm env _ c)
            (resolve_continued-Calm front n _ behind continuation-Calm non_sync c))

  resolve_from-Calm :
      (fuel : ℕ) (cmd : Bytes) (args : List Bytes) (c : Conn S)
      → Calm c (resolve_from env fuel cmd args c).1
  unfolding resolve_from
  resolve_from-Calm zero cmd args c = still refl refl
  resolve_from-Calm (suc fuel) cmd [] c = still refl refl
  resolve_from-Calm (suc fuel) cmd (a ∷ args) c =
      resolve_last-Calm (resolve_from env fuel cmd) (resolve_from-Calm fuel cmd) cmd (a ∷ args) _ _
        c

  pub resolve_literal_args-Calm :
      (cmd : Bytes) (args : List Bytes) (c : Conn S)
      → Calm c (resolve_literal_args env cmd args c).1
  unfolding resolve_literal_args
  resolve_literal_args-Calm cmd args c = resolve_from-Calm _ cmd args c

  write_if-Calm : (b : Bool) (line : Bytes) (c : Conn S) → Calm c (write_if b line c)
  unfolding write_if
  write_if-Calm b line c = if-Calm b _ _ (write_line-Calm line c) (still refl refl)

  write_extra-Calm : (capas : List Capability) (c : Conn S) → Calm c (write_extra capas c)
  unfolding write_extra
  write_extra-Calm [] c = still refl refl
  write_extra-Calm (capa ∷ capas) c = write_extra-Calm capas _ behind write_line-Calm _ c

  pub send_capability_block-Calm : (c : Conn S) → Calm c (send_capability_block env c)
  unfolding send_capability_block
  send_capability_block-Calm c =
      write_extra-Calm env.options.extra_capabilities _
      behind write_if-Calm _ _ _
      behind write_line-Calm _ _
      behind write_if-Calm _ _ _
      behind write_line-Calm _ _
      behind write_line-Calm _ _
      behind write_line-Calm _ c

  pub send_greeting-Calm : (c : Conn S) → Calm c (send_greeting env c)
  unfolding send_greeting
  send_greeting-Calm c =
      if-Calm
        (env.options.greeting_start_tls_hint
          && start_tls_available env (send_capability_block env c))
        _ _ (write_line-Calm _ _ behind send_capability_block-Calm c)
        (write_line-Calm _ _ behind send_capability_block-Calm c)

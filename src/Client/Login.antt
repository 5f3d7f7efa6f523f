-- ===== src/Client/Login.antt =====
-- AuthenticatePlain of managesieveclient/client.go against the parser and the AUTHENTICATE handler of
-- managesieveserver/conn.go.
use go_managesieve.Common.{
  ◌≡◌, ◌≢◌, refl, ◌∙◌, ap, true, false, [], ◌∷◌, ◌++◌, append_assoc, append-nil, List, some, arith,
  Bytes, codes, All, All-append, if◌then◌else◌,
}
use go_managesieve.Text.Base64.{encode_base64}
use go_managesieve.Text.Base64.RoundTrip.{IsByte, decode_base64-encode_base64}
use go_managesieve.Text.Search.{split, split-cut, split-Lacks, Lacks, has_prefix}
use go_managesieve.Text.Utf8.{to_upper, is_ascii, map_bytes, upper_ascii}
use go_managesieve.Wire.{quote}
use go_managesieve.Server.Parser.{tokens, command, parse_line, literal_length, not_literal}
use go_managesieve.Server.Parser.Quoting.{unquote_string-quote}
use go_managesieve.Server.Parser.Requests.{request, quoted, parse_line-request}
use go_managesieve.Server.Conn.State.{Conn, Env, client_error}
use go_managesieve.Server.Conn.Capabilities.{auth_allowed}
use go_managesieve.Server.Conn.Auth.{
  auth_called, plain_credentials, auth_decoded, auth_data, auth_argument, auth_response,
  auth_mechanism, handle_authenticate,
}
use go_managesieve.Client.Operations.{plain_payload, plain_command}

-- The arguments of the command that AuthenticatePlain writes.
abbrev pub plain_arguments : Bytes → Bytes → Bytes → List Bytes
plain_arguments identity username password =
    codes "PLAIN" ∷ encode_base64 (plain_payload identity username password) ∷ []

plain_command-request :
    (identity username password : Bytes)
    → plain_command identity username password ++ codes "\r\n"
      ≡ request (codes "AUTHENTICATE") (plain_arguments identity username password)
unfolding plain_command quote
plain_command-request identity username password = simp (append_assoc, append-nil)

split-plain_payload :
    (identity username password : Bytes)
    → Lacks 0 identity
    → Lacks 0 username
    → Lacks 0 password
    → split 0 (plain_payload identity username password) ≡ identity ∷ username ∷ password ∷ []
split-plain_payload identity username password hi hu hp =
    split-cut 0 identity _ hi
    ∙ ap (◌∷◌ identity)
        (split-cut 0 username password hu ∙ ap (◌∷◌ username) (split-Lacks 0 password hp))

literal_length-quote : (s : Bytes) → literal_length (quote s) ≡ not_literal
unfolding literal_length quote has_prefix
literal_length-quote s = refl

plain_payload-IsByte :
    (identity username password : Bytes)
    → All IsByte identity
    → All IsByte username
    → All IsByte password
    → All IsByte (plain_payload identity username password)
plain_payload-IsByte identity username password hi hu hp =
    All-append IsByte identity _ hi (omega arith, All-append IsByte username _ hu (omega arith, hp))

upper_verb : map_bytes upper_ascii (codes "AUTHENTICATE") ≡ codes "AUTHENTICATE"
unfolding map_bytes
upper_verb = refl

module _ {S : Type 0} (env : Env S) (c : Conn S) where
  auth_response-quote : (s : Bytes) → auth_response env (quote s ∷ []) c ≡ (some s, c)
  unfolding auth_response auth_argument
  auth_response-quote s = rw (literal_length-quote s, unquote_string-quote s) refl

  auth_mechanism-plain :
      (arg : Bytes)
      → auth_allowed env c ≡ true
      → auth_mechanism env (quote (codes "PLAIN") ∷ arg ∷ []) c
        ≡ auth_data env (auth_response env (arg ∷ []) c)
  unfolding auth_mechanism to_upper is_ascii map_bytes
  auth_mechanism-plain arg allowed = rw (allowed, unquote_string-quote (codes "PLAIN")) refl

  auth_data-encode_base64 :
      (s : Bytes)
      → All IsByte s
      → auth_data env (some (encode_base64 s), c) ≡ plain_credentials env (split 0 s) c
  unfolding auth_data auth_decoded
  auth_data-encode_base64 s h = rw (decode_base64-encode_base64 s h) refl

  plain_credentials-password :
      (identity username password : Bytes)
      → password ≢ []
      → plain_credentials env (identity ∷ username ∷ password ∷ []) c
        ≡ auth_called env (env.methods.authenticate_plain identity username password c.session) c
  unfolding plain_credentials
  plain_credentials-password identity username [] h = absurd (h refl)
  plain_credentials-password identity username (p ∷ password) h = refl

  handle_authenticate-fresh :
      (args : List Bytes)
      → c.authenticated ≡ false
      → handle_authenticate env args c ≡ auth_mechanism env args c
  unfolding handle_authenticate
  handle_authenticate-fresh args fresh =
      ap
        (λ b.
          if b
          then client_error env (codes "Already authenticated") c
          else auth_mechanism env args c)
        fresh

  handle_authenticate-plain :
      (identity username password : Bytes)
      → c.authenticated ≡ false
      → auth_allowed env c ≡ true
      → Lacks 0 identity
      → Lacks 0 username
      → Lacks 0 password
      → password ≢ []
      → All IsByte identity
      → All IsByte username
      → All IsByte password
      → handle_authenticate env (quoted (plain_arguments identity username password)) c
        ≡ auth_called env (env.methods.authenticate_plain identity username password c.session) c
  handle_authenticate-plain identity username password fresh allowed hi hu hp some_password bi bu
        bp =
      let payload = plain_payload identity username password in
      handle_authenticate-fresh _ fresh
      ∙ auth_mechanism-plain (quote (encode_base64 payload)) allowed
      ∙ ap (auth_data env) (auth_response-quote (encode_base64 payload))
      ∙ auth_data-encode_base64 payload (plain_payload-IsByte identity username password bi bu bp)
      ∙ ap (λ parts. plain_credentials env parts c)
          (split-plain_payload identity username password hi hu hp)
      ∙ plain_credentials-password identity username password some_password

  -- What AuthenticatePlain writes, for an identity, a user and a password without a NUL of which the
  -- password is not empty, is read by the server as AUTHENTICATE with two arguments, and the server
  -- that allows authentication on a connection that is not authenticated calls the session with the
  -- same identity, user and password.
  pub plain_command-arrives :
      (identity username password : Bytes)
      → c.authenticated ≡ false
      → auth_allowed env c ≡ true
      → Lacks 0 identity
      → Lacks 0 username
      → Lacks 0 password
      → password ≢ []
      → All IsByte identity
      → All IsByte username
      → All IsByte password
      → let args = quoted (plain_arguments identity username password) in
        (parse_line env.upper_rune (plain_command identity username password ++ codes "\r\n")
          ≡ command (codes "AUTHENTICATE") (tokens args))
        × (handle_authenticate env args c
            ≡ auth_called env
                (env.methods.authenticate_plain identity username password c.session)
                c)
  plain_command-arrives identity username password fresh allowed hi hu hp some_password bi bu bp = (
    ap (parse_line env.upper_rune) (plain_command-request identity username password)
        ∙ parse_line-request env.upper_rune b'A' (codes "UTHENTICATE")
            (plain_arguments identity username password) (ground arith)
        ∙ ap (λ verb. command verb (tokens (quoted (plain_arguments identity username password))))
            upper_verb,
    handle_authenticate-plain identity username password fresh allowed hi hu hp some_password bi bu
        bp,
  )

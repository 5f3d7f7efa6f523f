-- ===== src/Server/Conn/Limits.antt =====
-- The bound on script literals, which is enforced before anything of the body is read.
use go_managesieve.Common.{
  ℕ, ◌≤◌, ◌<◌, ◌≡◌, refl, ◌∙◌, arith, Bool, true, false, ◌&&◌, ◌||◌, [], ◌∷◌, none, Bytes, ltb,
  lt→ltb,
}
use go_managesieve.Server.Parser.Numbers.{marker, literal_length-marker}
use go_managesieve.Server.Parser.{max_int64, literal}
use go_managesieve.Server.Conn.State.{
  Conn, Env, emit, write, write_line, no_line, set_error, request_close,
}
use go_managesieve.Server.Conn.Literals.{
  close_if, pending_bytes, quota_max_size, read_script_argument, script_literal,
}

module _ {S : Type 0} where
  -- What answering alone does to a connection: nothing is read.
  pub Answered : Bool → Conn S → Conn S → Type 0
  Answered closes c d = (d.reader ≡ c.reader) × (d.close_pending ≡ (c.close_pending || closes))

  no_line-same :
      (msg : Bytes) (c : Conn S)
      → ((no_line msg c).reader ≡ c.reader) × ((no_line msg c).close_pending ≡ c.close_pending)
  unfolding no_line write_line write emit
  no_line-same [] c = (refl, refl)
  no_line-same (x ∷ msg) c = (refl, refl)

  close_if-Answered :
      (b : Bool) (c d : Conn S)
      → d.reader ≡ c.reader
      → d.close_pending ≡ c.close_pending
      → Answered b c (close_if b d)
  unfolding Answered close_if request_close
  close_if-Answered true c d p q = (p, ground arith)
  close_if-Answered false c d p q = (p, q ∙ ground arith)

module _ {S : Type 0} (env : Env S) where
  quota_max_size-same :
      (n : ℕ) (c : Conn S)
      → ((quota_max_size env n c).reader ≡ c.reader)
        × ((quota_max_size env n c).close_pending ≡ c.close_pending)
  unfolding quota_max_size set_error
  quota_max_size-same n c = no_line-same _ _

  script_literal-large :
      (arg : Bytes) (n : ℕ) (non_sync : Bool) (c : Conn S)
      → (ltb 0 env.options.max_script_size && ltb env.options.max_script_size n) ≡ true
      → ((script_literal env arg (literal n non_sync) c).0 ≡ none)
        × Answered (non_sync || pending_bytes c) c (script_literal env arg (literal n non_sync) c).1
  unfolding script_literal
  script_literal-large arg n non_sync c h =
      let (reader, pending) = quota_max_size-same n c in
      rw h (
        refl,
        close_if-Answered (non_sync || pending_bytes c) c (quota_max_size env n c) reader pending,
      )

  -- A literal of PUTSCRIPT or CHECKSCRIPT that is longer than MaxScriptSize, where that is set, is
  -- refused before a byte of its body is read, and the connection is to be closed if the client has
  -- committed to the body: it is a {N+} literal, or bytes are already pending behind it.
  pub read_script_argument-Answered :
      (n : ℕ) (non_sync : Bool) (c : Conn S)
      → n ≤ max_int64
      → 0 < env.options.max_script_size
      → env.options.max_script_size < n
      → ((read_script_argument env (marker n non_sync) c).0 ≡ none)
        × Answered
            (non_sync || pending_bytes c)
            c
            (read_script_argument env (marker n non_sync) c).1
  unfolding read_script_argument
  read_script_argument-Answered n non_sync c fits set large =
      rw (literal_length-marker n non_sync fits) (
        script_literal-large (marker n non_sync) n non_sync c (
          rw (lt→ltb 0 env.options.max_script_size set)
            (lt→ltb env.options.max_script_size n large)))

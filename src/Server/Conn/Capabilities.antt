-- ===== src/Server/Conn/Capabilities.antt =====
-- The capability listing and the greeting.
use go_managesieve.Common.{
  Bool, not, ◌&&◌, ◌||◌, List, [], ◌∷◌, ◌++◌, Bytes, codes, ltb, if◌then◌else◌,
}
use go_managesieve.Text.Decimal.{decimal}
use go_managesieve.Text.Search.{join}
use go_managesieve.Wire.{Capability, quote}
use go_managesieve.Server.Conn.State.{Conn, Env, write_line}

module _ {S : Type 0} (env : Env S) where
  open env use {options}

  unfoldable pub start_tls_available : Conn S → Bool
  start_tls_available c = options.tls_config && not c.is_tls

  unfoldable pub auth_allowed : Conn S → Bool
  auth_allowed c = options.insecure_auth || c.is_tls

module _ {S : Type 0} where
  unfoldable pub write_if : Bool → Bytes → Conn S → Conn S
  write_if b line c = if b then write_line line c else c

abbrev pub capability_line : Capability → Bytes
capability_line capa =
    if capa.has_value then quote capa.name ++ (codes " " ++ quote capa.value) else quote capa.name

module _ {S : Type 0} where
  unfoldable pub write_extra : List Capability → Conn S → Conn S
  write_extra [] c = c
  write_extra (capa ∷ capas) c = write_extra capas (write_line (capability_line capa) c)

module _ {S : Type 0} (env : Env S) where
  open env use {options}

  unfoldable pub send_capability_block : Conn S → Conn S
  send_capability_block c =
      let c = write_line (codes "\"IMPLEMENTATION\" " ++ quote options.implementation) c in
      let c = write_line (codes "\"VERSION\" \"1.0\"") c in
      let c =
        write_line (codes "\"SIEVE\" " ++ quote (join (codes " ") options.sieve_extensions)) c in
      let c = write_if (start_tls_available env c) (codes "\"STARTTLS\"") c in
      let c =
        write_line
          (if auth_allowed env c then codes "\"SASL\" \"PLAIN\"" else codes "\"SASL\" \"\"") c in
      let c =
        write_if (ltb 0 options.max_script_size)
          (codes "\"MAXSCRIPTSIZE\" \"" ++ (decimal options.max_script_size ++ codes "\"")) c in
      write_extra options.extra_capabilities c

  unfoldable pub send_greeting : Conn S → Conn S
  send_greeting c =
      let listed = send_capability_block c in
      if options.greeting_start_tls_hint && start_tls_available env listed
      then write_line (codes "OK (STARTTLS) " ++ options.greeting) listed
      else write_line (codes "OK " ++ options.greeting) listed

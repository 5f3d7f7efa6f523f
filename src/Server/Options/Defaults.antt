-- ===== src/Server/Options/Defaults.antt =====
-- defaults of managesieveserver/options.go, on the options that it looks at, and the timeouts that
-- come out of them. Durations are in nanoseconds.
use go_managesieve.Common.{
  ℕ, zero, suc, ◌*◌, ◌^◌, ◌<◌, ◌≡◌, refl, [], ◌∷◌, Bytes, codes, arith, ℤ, pos, negsuc, positive,
}
use go_managesieve.Server.Conn.Deadlines.{Timeouts}

pub record Settings : Type 0 where
  pub implementation : Bytes
  pub greeting : Bytes
  pub reject_message : Bytes
  pub idle_timeout : ℤ
  pub auth_idle_timeout : ℤ
  pub absolute_session_timeout : ℤ
  pub write_timeout : ℤ
  pub max_line_length : ℤ
  pub max_auth_literal : ℤ
  pub max_errors : ℤ
  pub max_error_delay : ℤ

abbrev pub second : ℕ
second = 10 ^ 9

-- An option that is "" or 0 takes its default.
unfoldable pub text_or : Bytes → Bytes → Bytes
text_or default [] = default
text_or default (c ∷ s) = c ∷ s

unfoldable pub number_or : ℕ → ℤ → ℤ
number_or default (pos zero) = pos default
number_or default (pos (suc n)) = pos (suc n)
number_or default (negsuc n) = negsuc n

unfoldable pub defaults : Settings → Settings
unfolding text_or number_or
defaults o = record o {
  implementation = text_or (codes "Go ManageSieve server") o.implementation;
  greeting = text_or (codes "\"ManageSieve server ready\"") o.greeting;
  idle_timeout = number_or (30 * 60 * second) o.idle_timeout;
  max_line_length = number_or 8192 o.max_line_length;
  max_auth_literal = number_or 8192 o.max_auth_literal;
  max_errors = number_or 10 o.max_errors;
  max_error_delay = number_or (30 * second) o.max_error_delay;
  write_timeout = number_or (60 * second) o.write_timeout;
  reject_message = text_or (codes "\"Service not available\"") o.reject_message;
}

-- The timeouts as the code tests them, by `> 0`.
unfoldable pub timeouts_of : Settings → Timeouts
timeouts_of o = record {
  idle_timeout = positive o.idle_timeout;
  auth_idle_timeout = positive o.auth_idle_timeout;
  absolute_session_timeout = positive o.absolute_session_timeout;
  write_timeout = positive o.write_timeout;
}

text_or-text_or : (c : ℕ) (d s : Bytes) → text_or (c ∷ d) (text_or (c ∷ d) s) ≡ text_or (c ∷ d) s
unfolding text_or
text_or-text_or c d [] = refl
text_or-text_or c d (x ∷ s) = refl

number_or-number_or : (d : ℕ) (z : ℤ) → 0 < d → number_or d (number_or d z) ≡ number_or d z
unfolding number_or
number_or-number_or zero z h = absurd (omega arith)
number_or-number_or (suc d) (pos zero) h = refl
number_or-number_or (suc d) (pos (suc n)) h = refl
number_or-number_or (suc d) (negsuc n) h = refl

-- Filling in the defaults twice is filling them in once.
pub defaults-defaults : (o : Settings) → defaults (defaults o) ≡ defaults o
unfolding defaults
defaults-defaults o =
    rw
      (
        text_or-text_or b'G' (codes "o ManageSieve server") o.implementation,
        text_or-text_or b'"' (codes "ManageSieve server ready\"") o.greeting,
        text_or-text_or b'"' (codes "Service not available\"") o.reject_message,
        number_or-number_or (30 * 60 * second) o.idle_timeout (omega arith),
        number_or-number_or 8192 o.max_line_length (omega arith),
        number_or-number_or 8192 o.max_auth_literal (omega arith),
        number_or-number_or 10 o.max_errors (omega arith),
        number_or-number_or (30 * second) o.max_error_delay (omega arith),
        number_or-number_or (60 * second) o.write_timeout (omega arith),
      )
      refl

-- ===== src/Store/Memory/Admission.antt =====
-- AuthenticatePlain of the in-memory store, managesievemem/store.go: whom it admits, and as whom.
use go_managesieve.Common.{
  ℕ, ◌≡◌, refl, Bool, true, false, not, ◌&&◌, ◌||◌, [], ◌∷◌, Option, arith, Bytes, bytes_eq,
  Bool-cases, inl, inr,
}
use go_managesieve.Server.Session.{Reply, AuthReply, succeeds}
use go_managesieve.Store.Memory.{
  Account, MemSession, lookup, stored_password, is_missing, log_in_found, log_in, log_in_plain,
}
use go_managesieve.Store.Memory.Isolation.{account, knows, log_in-knows}

-- Nobody acts as another user: the identity is left out or is the user's own name.
abbrev pub acts_as : Bytes → Bytes → Bool
acts_as [] user = true
acts_as (x ∷ identity) user = bytes_eq (x ∷ identity) user

module _ (upper_rune : ℕ → ℕ) (sha256 : Bytes → Bytes)
    (validate_hook : Option (Bytes → Reply Bytes)) where
  abbrev pub admits : Bytes → Bytes → Bytes → MemSession → Bool
  admits identity user password s =
      acts_as identity user && knows upper_rune sha256 validate_hook (account user s) password

  abbrev Admission : Bytes → Bytes → Bytes → MemSession → AuthReply × MemSession → Type 0
  Admission identity user password s (r, s') =
      (r.hijack ≡ false)
      × (succeeds r.reply ≡ admits identity user password s)
      × (succeeds r.reply ≡ true → s'.username ≡ user)

  log_in_found-calm :
      (found : Option Account) (user password : Bytes) (s : MemSession)
      → let (r, s') = log_in_found upper_rune sha256 validate_hook found user password s in
        (r.hijack ≡ false) × (succeeds r.reply ≡ true → s'.username ≡ user)
  unfolding log_in_found
  log_in_found-calm found user password s =
      let refuses =
        not (bytes_eq (stored_password upper_rune sha256 validate_hook found) (sha256 password))
        || is_missing upper_rune sha256 validate_hook found in
      elim (Bool-cases refuses) [
        | inl p ↦ rw p (refl, λ h. absurd (ground arith))
        | inr p ↦ rw p (refl, λ h. refl)
      ]

  log_in-Admission :
      (user password : Bytes) (s : MemSession)
      → Admission [] user password s (log_in upper_rune sha256 validate_hook user password s)
  unfolding log_in
  log_in-Admission user password s =
      let (kept, named) = log_in_found-calm (lookup user s.store.accounts) user password s in
      (kept, log_in-knows upper_rune sha256 validate_hook user password s, named)

  -- AuthenticatePlain admits whoever knows the password of an account and acts as its user, never takes
  -- the connection over, and leaves a session of that user.
  pub log_in_plain-Admission :
      (identity user password : Bytes) (s : MemSession)
      → Admission identity user password s
          (log_in_plain upper_rune sha256 validate_hook identity user password s)
  unfolding log_in_plain
  log_in_plain-Admission [] user password s = log_in-Admission user password s
  log_in_plain-Admission (x ∷ identity) user password s =
      elim (Bool-cases (bytes_eq (x ∷ identity) user)) [
        | inl p ↦ rw p (log_in-Admission user password s)
        | inr p ↦ rw p (refl, refl, λ h. absurd (ground arith))
      ]

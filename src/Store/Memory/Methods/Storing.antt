-- ===== src/Store/Memory/Methods/Storing.antt =====
-- PutScriptWarnings, GetScript and HaveSpace of managesievemem/store.go, put together.
use go_managesieve.Common.{
  ℕ, ◌≡◌, refl, sym, ◌∙◌, ap, subst, arith, Bool, true, false, ◌&&◌, ◌||◌, List, Option, none, some,
  Bytes, bytes_eq, ltb, ◌==◌, length, if◌then◌else◌, Bool-cases, inl, inr,
}
use go_managesieve.Server.Session.{Reply, returns, fails, succeeds}
use go_managesieve.Store.Scripts.{
  Script, find, content_of, nonexistent, get_content, store_content, space,
}
use go_managesieve.Store.Contract.{
  Entry, Entries, entry_of, entries, present, put_entry, store_content-Leaves,
}
use go_managesieve.Store.Outcomes.{store_content-succeeds, space-succeeds}
use go_managesieve.Store.Memory.{
  Account, MemSession, close_connection, on_account, ask_account, ask_account_found, validate,
  put_validated, put_with_warnings, mem_methods,
}
use go_managesieve.Store.Memory.Isolation.{account}
use go_managesieve.Store.Memory.Methods.{
  on_account-none, on_account-some, account-store_scripts, entries_in, own, Does, refused-Does,
  on_account-Does, on_account-missing, accepts, validate-accepts,
}

-- There is an account, and it has the name already, or no quota, or fewer scripts than its quota.
abbrev pub has_room : ℕ → Bytes → Option Account → Bool
has_room max name none = false
has_room max name (some acct) =
    present (entries acct.scripts name) || (max == 0 || ltb (length acct.scripts) max)

abbrev exists : Option Account → Bool
exists none = false
exists (some acct) = true

on_account-exists :
    {A : Type 0} (f : List Script → Reply A × List Script) (s : MemSession) (found : Option Account)
    → account s.username s ≡ found
    → let s' = (on_account f s).1 in exists (account s'.username s') ≡ exists (account s.username s)
on_account-exists f s none e = ap (λ r. exists (account r.1.username r.1)) (on_account-none f s e)
on_account-exists f s (some acct) e =
    ap (λ r. exists (account r.1.username r.1)) (on_account-some f s acct e)
    ∙ ap exists (account-store_scripts s acct (f acct.scripts).1)
    ∙ ap exists (sym e)

and-right : (a b : Bool) → (a && b) ≡ true → b ≡ true
and-right true b h = h
and-right false b h = absurd (ground arith)

module _ (upper_rune : ℕ → ℕ) (sha256 : Bytes → Bytes)
    (validate_hook : Option (Bytes → Reply Bytes)) where
  put_found-Does :
      (found : Option Account) (warnings name content : Bytes) (s : MemSession)
      → account s.username s ≡ found
      → Does
          (on_account (store_content upper_rune s.store.max_scripts name content warnings) s)
          s
          (put_entry name content)
          (has_room s.store.max_scripts name found)
  put_found-Does none warnings name content s e =
      on_account-missing (store_content upper_rune s.store.max_scripts name content warnings) s
        (put_entry name content) e
  put_found-Does (some acct) warnings name content s e =
      let max = s.store.max_scripts in
      let f = store_content upper_rune max name content warnings in
      subst (Does (on_account f s) s (put_entry name content))
        (store_content-succeeds upper_rune acct.scripts max name content warnings)
        (on_account-Does f s (put_entry name content) acct e
          (store_content-Leaves upper_rune acct.scripts max name content warnings))

  put_validated-Does :
      (r : Reply Bytes) (name content : Bytes) (s : MemSession)
      → Does
          (put_validated upper_rune sha256 validate_hook r name content s)
          s
          (put_entry name content)
          (succeeds r && has_room s.store.max_scripts name (account s.username s))
  unfolding put_validated
  put_validated-Does (fails e) name content s =
      refused-Does (Bool × Bytes) e s (put_entry name content)
  put_validated-Does (returns warnings) name content s =
      put_found-Does (account s.username s) warnings name content s refl

  -- Whom the whole of PutScript refuses, and what it leaves.
  pub put_with_warnings-Does :
      (name content : Bytes) (s : MemSession)
      → Does
          (put_with_warnings upper_rune sha256 validate_hook name content s)
          s
          (put_entry name content)
          (accepts validate_hook content
            && has_room s.store.max_scripts name (account s.username s))
  unfolding put_with_warnings
  put_with_warnings-Does name content s =
      let r = validate upper_rune sha256 validate_hook content in
      subst
        (λ b.
          Does (put_validated upper_rune sha256 validate_hook r name content s) s
            (put_entry name content)
            (b && has_room s.store.max_scripts name (account s.username s)))
        (validate-accepts upper_rune sha256 validate_hook content)
        (put_validated-Does r name content s)

  space_found-has_room :
      (found : Option Account) (max : ℕ) (name : Bytes)
      → succeeds (ask_account_found (space upper_rune max name) found) ≡ has_room max name found
  unfolding ask_account_found
  space_found-has_room none max name = refl
  space_found-has_room (some acct) max name = space-succeeds upper_rune acct.scripts max name

  have_space-has_room :
      (name : Bytes) (size : ℕ) (s : MemSession)
      → succeeds ((mem_methods upper_rune sha256 validate_hook).have_space name size s).0
        ≡ has_room s.store.max_scripts name (account s.username s)
  unfolding ask_account
  have_space-has_room name size s =
      space_found-has_room (account s.username s) s.store.max_scripts name

  -- HaveSpace says yes if and only if the session's user has an account that has the name already, or no
  -- quota, or fewer scripts than its quota. PutScript of any content under the name succeeds if and
  -- only if HaveSpace says yes and the host's Validate accepts the content.
  pub have_space-put :
      (name content : Bytes) (size : ℕ) (s : MemSession)
      → let said =
          succeeds ((mem_methods upper_rune sha256 validate_hook).have_space name size s).0 in
        (said ≡ has_room s.store.max_scripts name (account s.username s))
        × (succeeds (put_with_warnings upper_rune sha256 validate_hook name content s).0
            ≡ (accepts validate_hook content && said))
  have_space-put name content size s =
      let said = have_space-has_room name size s in
      (
        said,
        (put_with_warnings-Does name content s).0
            ∙ ap (λ b. accepts validate_hook content && b) (sym said),
      )

  -- What GetScript says, by whether the user has an account, and of the entry.
  abbrev read_own : Bool → Option Entry → Reply Bytes
  read_own false e = fails close_connection
  read_own true none = fails (nonexistent upper_rune)
  read_own true (some e) = returns e.content

  content_of-read_own : (o : Option Script) → content_of upper_rune o ≡ read_own true (entry_of o)
  unfolding content_of
  content_of-read_own none = refl
  content_of-read_own (some sc) = refl

  asked-read_own :
      (found : Option Account) (n : Bytes)
      → ask_account_found (get_content upper_rune n) found
        ≡ read_own (exists found) (entries_in found n)
  unfolding ask_account_found get_content
  asked-read_own none n = refl
  asked-read_own (some acct) n = content_of-read_own (find n acct.scripts)

  get_script-read_own :
      (n : Bytes) (s : MemSession)
      → ((mem_methods upper_rune sha256 validate_hook).get_script n s).0
        ≡ read_own (exists (account s.username s)) (own s n)
  unfolding ask_account
  get_script-read_own n s = asked-read_own (account s.username s) n

  put_validated-exists :
      (r : Reply Bytes) (name content : Bytes) (s : MemSession)
      → let s' = (put_validated upper_rune sha256 validate_hook r name content s).1 in
        exists (account s'.username s') ≡ exists (account s.username s)
  unfolding put_validated
  put_validated-exists (fails e) name content s = refl
  put_validated-exists (returns warnings) name content s =
      on_account-exists (store_content upper_rune s.store.max_scripts name content warnings) s
        (account s.username s) refl

  has_room-exists :
      (max : ℕ) (name : Bytes) (found : Option Account)
      → has_room max name found ≡ true
      → exists found ≡ true
  has_room-exists max name none h = absurd (ground arith)
  has_room-exists max name (some acct) h = refl

  stored-read :
      (stored there : Bool) (name content n : Bytes) (m : Entries)
      → (stored ≡ true → there ≡ true)
      → read_own there ((if stored then put_entry name content m else m) n)
        ≡ (if stored && bytes_eq n name then returns content else read_own there (m n))
  stored-read false there name content n m h = refl
  stored-read true there name content n m h = elim (Bool-cases (bytes_eq n name)) [
    | inl p ↦ rw (p, h refl) refl
    | inr p ↦ rw p refl
  ]

  -- GetScript behind PutScript, whatever was stored before: if PutScript has succeeded, its name gives
  -- the content that was put; every other name, and every name if PutScript has failed, gives what it
  -- gave before.
  pub put-get_script :
      (name content n : Bytes) (s : MemSession)
      → let (r, s') = put_with_warnings upper_rune sha256 validate_hook name content s in
        ((mem_methods upper_rune sha256 validate_hook).get_script n s').0 ≡ (
          if succeeds r && bytes_eq n name
          then returns content
          else ((mem_methods upper_rune sha256 validate_hook).get_script n s).0)
  put-get_script name content n s =
      let (r, s') = put_with_warnings upper_rune sha256 validate_hook name content s in
      let (decided, left) = put_with_warnings-Does name content s in
      let there : exists (account s'.username s') ≡ exists (account s.username s) =
        unfold put_with_warnings in
        put_validated-exists (validate upper_rune sha256 validate_hook content) name content s in
      get_script-read_own n s'
      ∙ ap (λ b. read_own b (own s' n)) there
      ∙ ap (read_own (exists (account s.username s))) (left n)
      ∙ stored-read (succeeds r) (exists (account s.username s)) name content n (own s) (λ stored.
        has_room-exists s.store.max_scripts name (account s.username s)
          (and-right _ _ (sym decided ∙ stored)))
      ∙ ap (λ (old : Reply Bytes). if succeeds r && bytes_eq n name then returns content else old)
          (sym (get_script-read_own n s))

-- ===== src/Server/Shutdown/Ending.antt =====
-- Server.Close against the command loop of managesieveserver/conn.go: a connection that Close reaches
-- ends with its current round, or at the head of the next one.
use go_managesieve.Common.{
  ℕ, suc, ◌<◌, ◌≡◌, ◌⊎◌, true, [], ◌++◌, some, Bytes, codes, length, CutOff,
}
use go_managesieve.Server.Conn.State.{Conn, Env}
use go_managesieve.Server.Conn.Responses.{sent_bytes}
use go_managesieve.Server.Conn.Quiet.{calls}
use go_managesieve.Server.Conn.Serve.{stops, goes_on, close, one_round, serve_from}
use go_managesieve.Server.Shutdown.{Tracked, Server}

-- What contexts and network connections document, for a tracked connection in a round of its loop: a
-- context that derives from a cancelled one is done, and stays so; a read behind an expired deadline
-- gives nothing beyond what is buffered.
pub record Sees {S : Type 0} (env : Env S) (round : ℕ) (c : Conn S) (s : Server) (t : Tracked)
    : Type 0 where
  pub context : t.done_from_start ≡ true → env.cancelled_before round ≡ true
  pub cancelled :
      s.cancelled ≡ true
      → (env.cancelled_after round ≡ true) × (env.cancelled_before (suc round) ≡ true)
  pub network : CutOff t.deadlines → c.reader.incoming ≡ []

-- One line has been written, a BYE that asks to try again later, and no method of the session called.
abbrev pub SaysBye : {S : Type 0} → Conn S → Conn S → Type 0
SaysBye c d =
    (l : Bytes) × (sent_bytes d.trace
      ≡ sent_bytes c.trace ++ (codes "BYE (TRYLATER) " ++ (l ++ codes "\r\n")))
    × (calls d.trace ≡ calls c.trace)

module _ {S : Type 0} (env : Env S) where
  module _ (round : ℕ) (c : Conn S) where
    -- The loop has said BYE and done nothing else; or it had a line in its buffer, which has ended it, or
    -- behind which it has said BYE.
    abbrev pub Ending : Conn S → Type 0
    Ending d =
        ((e : Conn S) × (d ≡ close e) × SaysBye c e)
        ⊎ ((0 < length c.reader.buffered)
            × (((e : Conn S) × (one_round env round c ≡ stops e) × (d ≡ close e))
                ⊎ ((c' : Conn S) × (e : Conn S) × (one_round env round c ≡ goes_on c')
                    × (d ≡ close e)
                    × SaysBye c' e)))

    -- The loop ends so, with fuel for two rounds.
    abbrev pub Ends : ℕ → Type 0
    Ends fuel = (d : Conn S) × (serve_from env (suc (suc fuel)) round c ≡ some d) × Ending d

-- ===== src/Server/Reach.antt =====
-- server/server.cpp: the states that the loop reaches.
use cpp_social_network_clien.Common.{ℕ, Option, Text, arith, Option-cases, inl, inr}
use cpp_social_network_clien.Database.{Database, IsReliable}
use cpp_social_network_clien.SessionManager.{find, no_sessions}
use cpp_social_network_clien.App.{App}
use cpp_social_network_clien.CommandFactory.{create}
use cpp_social_network_clien.Access.{IsConsistent, IsConsistent-logout}
use cpp_social_network_clien.Access.Steps.{execute-IsConsistent}
use cpp_social_network_clien.Server.Rounds.{AllReliable, round-keeps}
use cpp_social_network_clien.Server.{Request, Server, init_server, respond, buffer_input, round}

-- The states of a server that started on the database `start`.
pub data Reach (hasher : Text → ℕ) (start : Database) : Server → Type 1 where
  started : Reach hasher start (init_server start)
  next :
      {s : Server}
      → Reach hasher start s
      → (accepted : Option ℕ) (ready : ℕ → Option Request) → AllReliable ready
      → Reach hasher start (round hasher accepted ready s)

module _ (hasher : Text → ℕ) where
  respond-IsConsistent :
      (r : Request) (sd : ℕ) (s : App)
      → IsReliable r.engine
      → IsConsistent s
      → IsConsistent (respond hasher r sd s).0
  unfolding respond
  respond-IsConsistent r sd s reliable v =
      elim (Option-cases (create r.indeterminate (buffer_input r.received))) [
        | inl e ↦ rw (e, respond) v
        | inr (command, e) ↦
            rw (e, respond) (execute-IsConsistent hasher r.engine command sd s reliable v)
      ]

pub no_sessions-IsConsistent :
    (db : Database) → IsConsistent (record { db = db; sessions = no_sessions })
unfolding find
no_sessions-IsConsistent db = record { may_use = λ sd c e. absurd (ground arith) }

-- In every state that the loop reaches from a start on some database, by rounds whose requests
-- meet no database error, whatever the clients send, a socket that has a conversation open is
-- logged in as a participant of that conversation.
pub Reach-IsConsistent :
    (hasher : Text → ℕ) {start : Database} {s : Server} → Reach hasher start s → IsConsistent s.app
Reach-IsConsistent hasher {start = start} started = no_sessions-IsConsistent start
Reach-IsConsistent hasher (next {s = s} reached accepted ready reliable) =
    round-keeps hasher IsConsistent (respond-IsConsistent hasher)
      (λ sd t v. IsConsistent-logout t sd v) accepted ready s reliable
      (Reach-IsConsistent hasher reached)

-- ===== src/Server/WellFormed.antt =====
-- server/server.cpp: what the tables and the sessions hold in the states that the loop reaches.
use cpp_social_network_clien.Common.{ℕ, Text, arith, Option-cases, inl, inr}
use cpp_social_network_clien.Database.{Database, IsReliable, init_database}
use cpp_social_network_clien.Database.Named.{IsNamed}
use cpp_social_network_clien.Database.Typed.{IsTyped, init_database-IsTyped}
use cpp_social_network_clien.SessionManager.{find, logout}
use cpp_social_network_clien.App.{App}
use cpp_social_network_clien.CommandFactory.{create}
use cpp_social_network_clien.CommandFactory.Spelling.{create-IsSpelled}
use cpp_social_network_clien.Commands.Named.{execute-IsNamed}
use cpp_social_network_clien.Commands.Registered.{
  IsPopulated, execute-IsPopulated, logout-registered,
}
use cpp_social_network_clien.Database.Registered.{IsReferential, init_database-IsReferential}
use cpp_social_network_clien.Commands.Lasting.{execute-IsTyped}
use cpp_social_network_clien.Server.Reach.{Reach, started, next}
use cpp_social_network_clien.Server.Rounds.{round-keeps}
use cpp_social_network_clien.Server.{Request, Server, init_server, respond, buffer_input}

-- Names are those of users, the names of users are words, and columns are in their ranges.
pub record IsWellFormed (s : App) : Type 0 where
  pub populated : IsPopulated s
  pub named : IsNamed s.db
  pub typed : IsTyped s.db

module _ (hasher : Text → ℕ) where
  respond-IsWellFormed :
      (r : Request) (sd : ℕ) (s : App)
      → IsReliable r.engine
      → IsWellFormed s
      → IsWellFormed (respond hasher r sd s).0
  unfolding respond
  respond-IsWellFormed r sd s reliable v =
      elim (Option-cases (create r.indeterminate (buffer_input r.received))) [
        | inl e ↦ rw (e, respond) v
        | inr (command, e) ↦
            rw (e, respond)
              (record {
                populated =
                    execute-IsPopulated hasher r.engine command sd s reliable.sound v.populated;
                named =
                    execute-IsNamed hasher r.engine command sd s v.named
                      (create-IsSpelled r.indeterminate (buffer_input r.received) command e);
                typed = execute-IsTyped hasher r.engine command sd s v.typed;
              })
      ]

logout-IsWellFormed :
    (sd : ℕ) (s : App)
    → IsWellFormed s
    → IsWellFormed (record s { sessions = logout sd s.sessions })
logout-IsWellFormed sd s v = record {
  populated = record {
    tables = v.populated.tables;
    sessions = logout-registered s.db sd s v.populated.sessions;
  };
  named = v.named;
  typed = v.typed;
}

-- A database to start on.
pub record IsStart (db : Database) : Type 0 where
  pub referential : IsReferential db
  pub named : IsNamed db
  pub typed : IsTyped db

pub init_database-IsStart : IsStart init_database
init_database-IsStart = record {
  referential = init_database-IsReferential;
  named = tt;
  typed = init_database-IsTyped;
}

init_server-IsWellFormed : (db : Database) → IsStart db → IsWellFormed (init_server db).app
unfolding find
init_server-IsWellFormed db v = record {
  populated = record { tables = v.referential; sessions = λ sd u e. absurd (ground arith) };
  named = v.named;
  typed = v.typed;
}

-- In every state that the loop reaches from a start on a database in which every name refers to a
-- user, the names of users are words and the columns are in their ranges (the empty one is such),
-- by rounds whose requests meet no database error, whatever the clients send, the same holds of the
-- tables, and every session is that of a user.
pub Reach-IsWellFormed :
    (hasher : Text → ℕ) (start : Database) {s : Server}
    → IsStart start
    → Reach hasher start s
    → IsWellFormed s.app
Reach-IsWellFormed hasher start v started = init_server-IsWellFormed start v
Reach-IsWellFormed hasher start v (next {s = s} before accepted ready reliable) =
    round-keeps hasher IsWellFormed (respond-IsWellFormed hasher)
      (λ sd t w. logout-IsWellFormed sd t w) accepted ready s reliable
      (Reach-IsWellFormed hasher start v before)

-- ===== src/App.antt =====
-- The state that the commands share: the singletons `Database` and `SessionManager`. The log file
-- that `Logger` writes is never read back.
use cpp_social_network_clien.Common.{Text}
use cpp_social_network_clien.Database.{Database, init_database}
use cpp_social_network_clien.SessionManager.{SessionManager, no_sessions}

pub record App : Type 0 where
  pub db : Database
  pub sessions : SessionManager

-- A server that starts on a new file.
abbrev pub init_app : App
init_app = record { db = init_database; sessions = no_sessions }

-- The state that a command leaves behind, and the response that it returns.
abbrev pub Outcome : Type 0
Outcome = App × Text

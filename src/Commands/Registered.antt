-- ===== src/Commands/Registered.antt =====
-- server/commands/*.cpp: every name in the tables and in the sessions is the name of a user.
use cpp_social_network_clien.Common.{
  ℕ, ◌≡◌, refl, true, none, some, List, [], ◌∷◌, All, Text, arith, ◌==◌, nat_eq, subst, Bool-cases,
  inl, inr, if◌then◌else◌, text_eq,
}
use cpp_social_network_clien.Database.{Database, Engine, IsSound}
use cpp_social_network_clien.Database.Users.{authenticate_user}
use cpp_social_network_clien.Database.Registered.{
  registered, Refers, IsReferential, Refers-mono, registered-Lasts, known_names, perform-Refers,
}
use cpp_social_network_clien.Database.Registered.Found.{
  get_user_by_username-registered, authenticate_user-registered, has_request-Refers,
}
use cpp_social_network_clien.SessionManager.{
  SessionManager, find, login, logout, is_authenticated, get_username, open_conversation, is_some,
}
use cpp_social_network_clien.SessionManager.Laws.{find-put, find-erase}
use cpp_social_network_clien.App.{App}
use cpp_social_network_clien.Command.{Command}
use cpp_social_network_clien.Commands.{execute}
use cpp_social_network_clien.Commands.Account.{execute_login}
use cpp_social_network_clien.Commands.Messaging.{first_unknown}
use cpp_social_network_clien.Commands.Keeps.{execute-keeps, NamesKnown}
use cpp_social_network_clien.Commands.Lasting.{execute-Lasts}
use cpp_social_network_clien.Commands.Cases.{login_cases, logout_cases, open_cases, group_cases}
use cpp_social_network_clien.Access.{find-is_authenticated}
use cpp_social_network_clien.Access.Steps.{execute_sessions_kept}

-- What a session has to do with the users in some state of the tables.
abbrev pub SessionsRegistered : Database → App → Type 0
SessionsRegistered db s =
    (sd : ℕ) (u : Text) → find sd s.sessions.sessions ≡ some u → registered db u ≡ true

pub record IsPopulated (s : App) : Type 0 where
  pub tables : IsReferential s.db
  pub sessions : SessionsRegistered s.db s

session-registered :
    (s : App) (sd : ℕ)
    → IsPopulated s
    → is_authenticated sd s.sessions ≡ true
    → registered s.db (get_username sd s.sessions) ≡ true
session-registered s sd v h =
    v.sessions sd (get_username sd s.sessions) (find-is_authenticated sd s.sessions h)

first_unknown-none :
    (e : Engine) (db : Database) (users : List Text)
    → IsSound e
    → first_unknown e db users ≡ none
    → All (λ u. registered db u ≡ true) users
unfolding first_unknown
first_unknown-none e db [] sound h = tt
first_unknown-none e db (u ∷ users) sound h = (
  get_user_by_username-registered e db sound u (ground arith),
  first_unknown-none e db users sound (ground arith),
)

names_known :
    (e : Engine) (command : Command) (sd : ℕ) (s : App)
    → IsSound e
    → IsPopulated s
    → NamesKnown (known_names (registered s.db)) e sd s command
names_known e (Command.register username _ _ _ _) sd s sound v = λ _. tt
names_known e (Command.friend_request target) sd s sound v = λ within known. (
  session-registered s sd v within,
  get_user_by_username-registered e s.db sound target (ground arith),
)
names_known e (Command.accept_friend source) sd s sound v = λ within asked.
    let both =
      has_request-Refers e s.db sound (registered s.db) source (get_username sd s.sessions) v.tables
        asked in
    (both.1, both.0)
names_known e (Command.create_post _ _) sd s sound v = session-registered s sd v
names_known e (Command.send _) sd s sound v = session-registered s sd v
names_known e (Command.chat other_user) sd s sound v = λ within known. (
  session-registered s sd v within,
  get_user_by_username-registered e s.db sound other_user (ground arith),
)
names_known e (Command.add username) sd s sound v =
    λ known. get_user_by_username-registered e s.db sound username (ground arith)
names_known e (Command.group users) sd s sound v =
    λ within none_unknown. first_unknown-none e s.db _ sound none_unknown
names_known e _ sd s sound v = tt

-- With the users as they are before the command.
tables-Refers :
    (hasher : Text → ℕ) (e : Engine) (command : Command) (sd : ℕ) (s : App)
    → IsSound e
    → IsPopulated s
    → Refers (registered s.db) (execute hasher e command sd s).0.db
tables-Refers hasher e command sd s sound v =
    execute-keeps (known_names (registered s.db)) (Refers (registered s.db))
      (perform-Refers (registered s.db)) e hasher command sd s (names_known e command sd s sound v)
      v.tables

put-registered :
    (db : Database) (username : Text) (client_sd : ℕ) (s : App)
    → registered db username ≡ true
    → SessionsRegistered db s
    → SessionsRegistered db (record s { sessions = login client_sd username s.sessions })
put-registered db username client_sd s known v sd u h =
    let looked : find sd (login client_sd username s.sessions).sessions
        ≡ (if client_sd == sd then some username else find sd s.sessions.sessions) =
      unfold login in find-put client_sd sd username s.sessions.sessions in
    elim (Bool-cases (client_sd == sd)) [
      | inl y ↦ subst (λ t. registered db t ≡ true) (ground arith) known
      | inr n ↦ v sd u (ground arith)
    ]

login-registered :
    (hasher : Text → ℕ) (e : Engine) (username password : Text) (client_sd : ℕ) (s : App)
    → IsSound e
    → SessionsRegistered s.db s
    → SessionsRegistered s.db (execute_login hasher e username password client_sd s).0
login-registered hasher e username password client_sd s sound v sd u h =
    elim (Bool-cases (is_some (authenticate_user hasher e s.db username password))) [
      | inl y ↦
          login_cases (SessionsRegistered s.db) s v hasher e username password client_sd
            (λ out.
              put-registered s.db username client_sd s
                (authenticate_user-registered e s.db sound hasher username password y) v)
            sd u h
      | inr n ↦ v sd u (unfold execute_login in ground arith)
    ]

pub logout-registered :
    (db : Database) (client_sd : ℕ) (s : App)
    → SessionsRegistered db s
    → SessionsRegistered db (record s { sessions = logout client_sd s.sessions })
logout-registered db client_sd s v sd u h =
    v sd u (unfold logout in ground (arith, find-erase client_sd sd s.sessions.sessions))

sessions-registered :
    (hasher : Text → ℕ) (e : Engine) (command : Command) (sd : ℕ) (s : App)
    → IsSound e
    → SessionsRegistered s.db s
    → SessionsRegistered s.db (execute hasher e command sd s).0
sessions-registered hasher e command sd s sound v = by_command command
  where
    Kept : App → Type 0
    Kept t = SessionsRegistered s.db t

    by_command : (command : Command) → Kept (execute hasher e command sd s).0
    by_command (Command.login username password) =
        unfold execute in login-registered hasher e username password sd s sound v
    by_command Command.logout =
        unfold execute in logout_cases Kept s v sd (logout-registered s.db sd s v)
    by_command (Command.open_conversation c) =
        unfold execute in open_cases Kept s v e sd c (λ _ _. unfold open_conversation in v)
    by_command (Command.group users) =
        unfold execute in
        group_cases Kept s v e sd users (λ _ _. v) (λ _ _ _. unfold open_conversation in v)
    by_command command = λ other u found. v other u (
        subst (λ (m : SessionManager). find other m.sessions ≡ some u)
          (execute_sessions_kept hasher e command sd s refl) found)

-- Every command, successful or not, keeps what REFERENCES users(username) demands, and every
-- session that of a user, although SQLite does not enforce foreign keys, if SQLite delivers only
-- rows that were selected.
pub execute-IsPopulated :
    (hasher : Text → ℕ) (e : Engine) (command : Command) (sd : ℕ) (s : App)
    → IsSound e
    → IsPopulated s
    → IsPopulated (execute hasher e command sd s).0
execute-IsPopulated hasher e command sd s sound v =
    let after = (execute hasher e command sd s).0 in
    let last : (u : Text) → registered s.db u ≡ true → registered after.db u ≡ true =
      λ u. registered-Lasts s.db after.db u (execute-Lasts hasher e command sd s) in
    record {
      tables =
          Refers-mono (registered s.db) (registered after.db) after.db last
            (tables-Refers hasher e command sd s sound v);
      sessions = λ other u found.
          last u (sessions-registered hasher e command sd s sound v.sessions other u found);
    }

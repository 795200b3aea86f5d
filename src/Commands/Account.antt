-- ===== src/Commands/Account.antt =====
-- server/commands: RegisterCommand, LoginCommand, LogoutCommand and SetProfileVisibilityCommand.
pub mod Registration
pub mod Session
use cpp_social_network_clien.Common.{
  ℕ, Bool, false, not, ◌&&◌, ◌||◌, Option, none, some, Text, text, ◌==◌, text_eq, if◌then◌else◌,
  is_empty,
}
use cpp_social_network_clien.Database.{Database, Engine}
use cpp_social_network_clien.Database.Users.{
  User, register_user, authenticate_user, update_visibility, get_user_by_username,
}
use cpp_social_network_clien.SessionManager
use cpp_social_network_clien.SessionManager.{is_authenticated, get_username}
use cpp_social_network_clien.App.{App, Outcome}

-- The explicit visibility after a registration, if the new user can be read back.
unfoldable pub apply_visibility : Engine → Database → Option User → Text → Database
apply_visibility e db none visibility = db
apply_visibility e db (some user) visibility = (update_visibility e db user.user_id visibility).0

unfoldable pub execute_register :
    (Text → ℕ) → Engine → Text → Text → Text → Text → Text → App → Outcome
unfolding apply_visibility
execute_register hasher e username password email role visibility s =
    if is_empty username
      || is_empty password
      || is_empty email
      || is_empty role
      || is_empty visibility
    then (s, text "ERROR Invalid arguments\n")
    else if not (role == text "normal") && not (role == text "admin")
    then (s, text "ERROR Invalid role\n")
    else if not (visibility == text "public") && not (visibility == text "private")
    then (s, text "ERROR Invalid visibility\n")
    else (let (registered, ok) = register_user hasher e s.db username password email role in
        let user = authenticate_user hasher e registered username password in
        let updated = apply_visibility e registered user visibility in
        if not ok
        then (record s { db = registered }, text "ERROR User already exists\n")
        else (record s { db = updated }, text "OK User registered\n"))

unfoldable pub execute_login : (Text → ℕ) → Engine → Text → Text → ℕ → App → Outcome
execute_login hasher e username password client_sd s =
    if is_empty username || is_empty password
    then (s, text "ERROR Invalid arguments\n")
    else if is_authenticated client_sd s.sessions
    then (s, text "ERROR Already logged in\n")
    else elim (authenticate_user hasher e s.db username password) [
      | none ↦ (s, text "ERROR Invalid credentials\n")
      | some _ ↦ (
        record s { sessions = SessionManager.login client_sd username s.sessions },
        text "OK Login successful\n",
      )
    ]

unfoldable pub execute_logout : ℕ → App → Outcome
execute_logout client_sd s =
    if not (is_authenticated client_sd s.sessions) then (s, text "ERROR Not logged in\n") else (
      record s { sessions = SessionManager.logout client_sd s.sessions },
      text "OK Logout successful\n",
    )

unfoldable pub execute_set_profile_visibility : Engine → Text → ℕ → App → Outcome
execute_set_profile_visibility e visibility client_sd s =
    if not (is_authenticated client_sd s.sessions)
    then (s, text "ERROR Not logged in\n")
    else if not (visibility == text "public") && not (visibility == text "private")
    then (s, text "ERROR Invalid visibility\n")
    else elim (get_user_by_username e s.db (get_username client_sd s.sessions)) [
      | none ↦ (s, text "ERROR Internal error\n")
      | some user ↦ (
        record s { db = (update_visibility e s.db user.user_id visibility).0 },
        text "OK Profile visibility updated\n",
      )
    ]

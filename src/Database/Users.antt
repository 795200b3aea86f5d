-- ===== src/Database/Users.antt =====
-- server/Database.cpp: registration, authentication and profile visibility. `std::hash` is the
-- parameter `hasher`.
pub mod Accounts
use cpp_social_network_clien.Common.{
  ℕ, Bool, ◌&&◌, Option, none, some, List, ℤ, to_int, Text, ◌==◌, text_eq, if◌then◌else◌, select,
  first,
}
use cpp_social_network_clien.Decimal.{to_string}
use cpp_social_network_clien.Database.{
  Database, UserRow, Engine, insert_user, select_user, update_profile_visibility, exec, query,
}

pub record User : Type 0 where
  pub user_id : ℤ
  pub username : Text
  pub password : Text
  pub user_type : Text
  pub profile_visibility : Text

unfoldable pub hash_password : (Text → ℕ) → Text → Text
hash_password hasher password = to_string (hasher password)

unfoldable pub register_user :
    (Text → ℕ) → Engine → Database → Text → Text → Text → Text → Database × Bool
register_user hasher e db username password email user_type =
    exec e (insert_user username (hash_password hasher password) email user_type) db

-- The columns of a row, as the methods copy them.
abbrev pub to_user : UserRow → User
to_user r = record {
  user_id = to_int r.user_id;
  username = r.username;
  password = r.password;
  user_type = r.user_type;
  profile_visibility = r.profile_visibility;
}

-- The first row of SELECT ... FROM users WHERE username = ?
unfoldable pub user_row : Engine → Database → Text → Option UserRow
user_row e db username =
    first (query e (select_user username) db (select (λ r. r.username == username) db.users))

unfoldable pub authenticate_user : (Text → ℕ) → Engine → Database → Text → Text → Option User
authenticate_user hasher e db username password = elim (user_row e db username) [
  | none ↦ none
  | some r ↦ if r.password == hash_password hasher password then some (to_user r) else none
]

unfoldable pub update_visibility : Engine → Database → ℤ → Text → Database × Bool
update_visibility e db user_id visibility = exec e (update_profile_visibility visibility user_id) db

unfoldable pub get_user_by_username : Engine → Database → Text → Option User
get_user_by_username e db username = elim (user_row e db username) [
  | none ↦ none
  | some r ↦ some (to_user r)
]

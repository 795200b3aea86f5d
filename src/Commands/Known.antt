-- ===== src/Commands/Known.antt =====
-- server/commands/*.cpp: the test `getUserByUsername(...).has_value()`.
use cpp_social_network_clien.Common.{◌≡◌, refl, true, Has}
use cpp_social_network_clien.Database.{Database, UserRow, Engine, IsReliable}
use cpp_social_network_clien.Database.Integrity.{IsValid}
use cpp_social_network_clien.Database.Users.Accounts.{get_user_by_username_found}
use cpp_social_network_clien.Commands.Messaging.{is_known}

pub is_known-registered :
    (e : Engine) (user : UserRow) (db : Database)
    → IsReliable e
    → IsValid db
    → Has user db.users
    → is_known e db user.username ≡ true
is_known-registered e user db reliable v there =
    rw (get_user_by_username_found e db user reliable v there, is_known) refl

-- ===== src/Commands/Account/Session.antt =====
-- RegisterCommand, and then LoginCommand.
use cpp_social_network_clien.Common.{
  ℕ, suc, ◌+◌, ◌<◌, ◌^◌, ◌||◌, ◌≡◌, false, List, ◌++◌, [], ◌∷◌, refl, Text, text, any, Has, inl,
  inr, ◌==◌, text_eq, eq_refl, sym, subst, ◌∙◌,
}
use cpp_social_network_clien.Database.{UserRow, IsReliable, Engine, new_user}
use cpp_social_network_clien.Database.Integrity.{IsValid}
use cpp_social_network_clien.Database.Users.{hash_password}
use cpp_social_network_clien.SessionManager.{login, is_authenticated}
use cpp_social_network_clien.App.{App, Outcome}
use cpp_social_network_clien.Command.{Command}
use cpp_social_network_clien.Commands.{execute}
use cpp_social_network_clien.Commands.Account.{execute_register, execute_login}
use cpp_social_network_clien.Commands.Account.Registration.{
  IsAcceptable, with_user, execute_register_adds, execute_login_registered,
}
use cpp_social_network_clien.Commands.Lasting.{execute-IsValid}

Has-snoc : (users : List UserRow) (r : UserRow) → Has r (users ++ r ∷ [])
Has-snoc [] r = inl refl
Has-snoc (u ∷ users) r = inr (Has-snoc users r)

-- In a database with unique keys and user ids below 2^31, whoever registers with acceptable
-- arguments under a free name and address can log in with the password afterwards, from any socket
-- that is not logged in, if neither of the two commands meets a database error.
pub execute_login_after_register :
    (hasher : Text → ℕ) (e later : Engine) (username password email role visibility : Text) (sd : ℕ)
    (s : App)
    → IsReliable e
    → IsReliable later
    → IsValid s.db
    → s.db.user_seq + 1 < 2 ^ 31
    → IsAcceptable username password email role visibility
    → any (λ r. r.username == username || r.email == email) s.db.users ≡ false
    → is_authenticated sd s.sessions ≡ false
    → let after = (execute_register hasher e username password email role visibility s).0 in
      execute_login hasher later username password sd after
      ≡ (record after { sessions = login sd username s.sessions }, text "OK Login successful\n")
unfolding execute
execute_login_after_register hasher e later username password email role visibility sd s reliable
      sure v small ok fresh out =
    subst LogsIn (sym registered) (
      execute_login_registered hasher later added password sd there sure valid
        (Has-snoc s.db.users added) ok.username_given ok.password_given out
      ∙ rw (eq_refl hashed) refl)
  where
    hashed : Text
    hashed = hash_password hasher password

    added : UserRow
    added = record (new_user (suc s.db.user_seq) username hashed email role) {
      profile_visibility = visibility;
    }

    there : App
    there = record s { db = with_user s.db username hashed email role visibility }

    LogsIn : Outcome → Type 0
    LogsIn o =
        execute_login hasher later username password sd o.0
        ≡ (record o.0 { sessions = login sd username s.sessions }, text "OK Login successful\n")

    registered :
        execute_register hasher e username password email role visibility s
        ≡ (there, text "OK User registered\n")
    registered =
        execute_register_adds hasher e username password email role visibility s reliable v small ok
          fresh

    valid : IsValid there.db
    valid =
        subst (λ (o : Outcome). IsValid o.0.db) registered
          (execute-IsValid hasher e (Command.register username password email role visibility) sd s
            v)

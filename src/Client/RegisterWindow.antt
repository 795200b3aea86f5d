-- ===== src/Client/RegisterWindow.antt =====
-- qt_client/RegisterWindow.cpp: the register button.
use cpp_social_network_clien.Common.{
  ℕ, Bool, true, false, not, ◌||◌, ◌≡◌, Option, ◌∷◌, ◌++◌, Text, text, arith, any, any-append,
  is_empty, suc, [], ◌&&◌, text_beq_iff, ◌⊎◌, inl, inr, Bool-cases, ◌==◌, text_eq, if◌then◌else◌,
}
use cpp_social_network_clien.Database.{Database, Engine, exec, perform, new_user}
use cpp_social_network_clien.Database.Keeps.{any_names, is_profile_visibility}
use cpp_social_network_clien.Database.Lasting.{Lasts, Lasts-refl, Lasts-IsKept, has_account}
use cpp_social_network_clien.Database.Users.{User, hash_password, register_user, authenticate_user}
use cpp_social_network_clien.App.{App}
use cpp_social_network_clien.Commands.Account.{execute_register, apply_visibility}
use cpp_social_network_clien.Commands.Keeps.{apply_visibility-keeps}
use cpp_social_network_clien.Client.Texts.{contains, starts_with}
use cpp_social_network_clien.Client.LoginWindow.{fill_in_label}

-- The label below the fields, and whether the login window has taken over.
pub record RegisterWindow : Type 0 where
  pub status_label : Text
  pub login_opened : Bool

unfoldable pub on_register_clicked :
    Text → Text → Text → Bool → Text → RegisterWindow → RegisterWindow
unfolding contains
on_register_clicked user pass email connected response w =
    if is_empty user || is_empty pass || is_empty email
    then record w { status_label = fill_in_label }
    else if not connected
    then record w { status_label = text "Server offline" }
    else if contains (text "OK") response
    then record { status_label = response; login_opened = true }
    else record w { status_label = response }

module _ (hasher : Text → ℕ) (e : Engine) (db : Database)
    (username password email role : Text) where
  abbrev AccountThere : Database → Type 0
  AccountThere after = has_account after username (hash_password hasher password) ≡ true

  account_inserted : AccountThere (record db {
    users =
        db.users
        ++ new_user (suc db.user_seq) username (hash_password hasher password) email role ∷ [];
    user_seq = suc db.user_seq;
  })
  unfolding any
  account_inserted = ground (
    arith,
    any-append (λ r. r.username == username && r.password == hash_password hasher password) db.users
        (new_user (suc db.user_seq) username (hash_password hasher password) email role ∷ []),
    text_beq_iff username username,
    text_beq_iff (hash_password hasher password) (hash_password hasher password),
  )

  register_user-account :
      (register_user hasher e db username password email role).1 ≡ true
      → AccountThere (register_user hasher e db username password email role).0
  unfolding register_user exec perform
  register_user-account h = ground (arith, account_inserted)

  register_user-failed :
      (register_user hasher e db username password email role).1 ≡ false
      → (register_user hasher e db username password email role).0 ≡ db
  unfolding register_user exec
  register_user-failed h = ground arith

  apply_visibility-account :
      (user : Option User) (visibility : Text)
      → (register_user hasher e db username password email role).1 ≡ true
      → is_profile_visibility visibility ≡ true
      → AccountThere (
          apply_visibility e
            (register_user hasher e db username password email role).0
            user
            visibility)
  apply_visibility-account user visibility h a =
      let registered = (register_user hasher e db username password email role).0 in
      (apply_visibility-keeps any_names (Lasts registered) (Lasts-IsKept registered) e registered
          user visibility a (Lasts-refl registered)).accounts
        username (hash_password hasher password) (register_user-account h)

-- On the response to a command to register with these texts: a register window opens the login
-- window only if the server has stored an account under the name and with the password that were
-- given; if it does not, then nothing has changed on the server.
pub on_register_clicked-execute_register :
    (hasher : Text → ℕ) (e : Engine) (user pass email role visibility : Text) (s : App)
    (w : RegisterWindow)
    → w.login_opened ≡ false
    → (((on_register_clicked user pass email true
            (execute_register hasher e user pass email role visibility s).1
            w).login_opened
          ≡ true)
        × (has_account
              (execute_register hasher e user pass email role visibility s).0.db
              user
              (hash_password hasher pass)
            ≡ true))
      ⊎ (((on_register_clicked user pass email true
              (execute_register hasher e user pass email role visibility s).1
              w).login_opened
            ≡ false)
          × ((execute_register hasher e user pass email role visibility s).0 ≡ s))
unfolding on_register_clicked execute_register contains starts_with
on_register_clicked-execute_register hasher e user pass email role visibility s w closed =
    elim (Bool-cases (register_user hasher e s.db user pass email role).1) [
      | inl y ↦ ground (
        arith,
        apply_visibility-account hasher e s.db user pass email role
            (authenticate_user hasher e (register_user hasher e s.db user pass email role).0 user
              pass)
            visibility y,
      )
      | inr n ↦ ground (arith, register_user-failed hasher e s.db user pass email role n)
    ]

-- ===== src/Commands/Account/Registration.antt =====
-- RegisterCommand and LoginCommand: what a registration stores, and who can log in with it.
use cpp_social_network_clien.Common.{
  ℕ, suc, ◌+◌, ◌<◌, ◌^◌, pos, Bool, true, false, not, ◌&&◌, ◌||◌, ◌≡◌, refl, ap, ◌∙◌, ◌⊎◌, inl, inr,
  some, List, [], ◌∷◌, ◌++◌, map, Text, text, arith, any, all, select, ◌==◌, nat_eq, text_eq,
  eq_refl, text_beq_iff, if◌then◌else◌, is_empty, to_int, to_int_lem, any-false_mono, leb,
  Bool-cases, Has,
}
use cpp_social_network_clien.Database.{
  Database, UserRow, Engine, IsReliable, insert_user, update_profile_visibility, perform, exec,
  new_user, set_visibility,
}
use cpp_social_network_clien.Database.Integrity.{IsValid}
use cpp_social_network_clien.Database.Queries.{exec_reliable, exec_refused}
use cpp_social_network_clien.Database.Users.{
  to_user, hash_password, register_user, authenticate_user, update_visibility,
}
use cpp_social_network_clien.Database.Users.Accounts.{user_row_single, authenticate_user_found}
use cpp_social_network_clien.SessionManager.{login, is_authenticated}
use cpp_social_network_clien.App.{App}
use cpp_social_network_clien.Commands.Account.{execute_register, execute_login}

-- The arguments that pass the checks of `RegisterCommand`.
pub record IsAcceptable (username password email role visibility : Text) : Type 0 where
  pub username_given : is_empty username ≡ false
  pub password_given : is_empty password ≡ false
  pub email_given : is_empty email ≡ false
  pub role_known : (role ≡ text "normal") ⊎ (role ≡ text "admin")
  pub visibility_known : (visibility ≡ text "public") ⊎ (visibility ≡ text "private")

-- The database with one more user.
abbrev pub with_user : Database → Text → Text → Text → Text → Text → Database
with_user db username password email role visibility = record db {
  users =
      db.users
      ++ record (new_user (suc db.user_seq) username password email role) {
        profile_visibility = visibility;
      }
        ∷ [];
  user_seq = suc db.user_seq;
}

map-append_id :
    (f : UserRow → UserRow) (users : List UserRow) (r : UserRow) (seq : ℕ)
    → ((q : UserRow) → leb q.user_id seq ≡ true → f q ≡ q)
    → all (λ q. leb q.user_id seq) users ≡ true
    → map f (users ++ r ∷ []) ≡ users ++ f r ∷ []
unfolding all
map-append_id f [] r seq k h = refl
map-append_id f (q ∷ users) r seq k h = ground (arith, k q, map-append_id f users r seq k)

select-snoc :
    (p : UserRow → Bool) (users : List UserRow) (r : UserRow)
    → any p users ≡ false
    → p r ≡ true
    → select p (users ++ r ∷ []) ≡ r ∷ []
unfolding select any
select-snoc p [] r h k = rw k
select-snoc p (q ∷ users) r h k = ground (arith, select-snoc p users r)

module _ (hasher : Text → ℕ) (e : Engine) (reliable : IsReliable e) (db : Database)
    (username password email role visibility : Text) where
  abbrev hashed : Text
  hashed = hash_password hasher password

  register_user_eq :
      any (λ r. r.username == username || r.email == email) db.users ≡ false
      → register_user hasher e db username password email role
        ≡ (with_user db username hashed email role (text "public"), true)
  unfolding register_user
  register_user_eq fresh =
      exec_reliable e (insert_user username hashed email role) db
        (with_user db username hashed email role (text "public")) reliable
        (unfold perform in rw fresh)

  update_visibility_eq :
      IsValid db
      → db.user_seq + 1 < 2 ^ 31
      → (update_visibility e
          (with_user db username hashed email role (text "public"))
          (to_int (suc db.user_seq))
          visibility).0
        ≡ with_user db username hashed email role visibility
  unfolding update_visibility
  update_visibility_eq v small = rw (to_int_lem (suc db.user_seq) (omega arith)) (
      ap (λ (o : Database × Bool). o.0)
        (exec_reliable e (update_profile_visibility visibility (pos (suc db.user_seq)))
          (with_user db username hashed email role (text "public"))
          (with_user db username hashed email role visibility) reliable
          (unfold perform in
            ap
              (λ (users : List UserRow).
                some (record db { users = users; user_seq = suc db.user_seq }))
              (map-append_id (set_visibility visibility (pos (suc db.user_seq))) db.users
                  (new_user (suc db.user_seq) username hashed email role) db.user_seq
                  (λ q h. ground arith) v.user_ids_given
                ∙ rw (eq_refl (suc db.user_seq))))))

  new_user_found :
      any (λ r. r.username == username || r.email == email) db.users ≡ false
      → authenticate_user hasher e
          (with_user db username hashed email role (text "public"))
          username
          password
        ≡ some (to_user (new_user (suc db.user_seq) username hashed email role))
  unfolding authenticate_user
  new_user_found fresh = rw (
    user_row_single e (with_user db username hashed email role (text "public")) username
        (new_user (suc db.user_seq) username hashed email role) reliable
        (select-snoc (λ q. q.username == username) db.users _
          (any-false_mono _ _ db.users (λ r h. ground arith) fresh) (eq_refl username)),
    authenticate_user,
    eq_refl hashed,
  )

module _ (username password email role visibility : Text)
    (ok : IsAcceptable username password email role visibility) where
  arguments_given :
      (is_empty username
        || is_empty password
        || is_empty email
        || is_empty role
        || is_empty visibility)
      ≡ false
  arguments_given = ground arith

  role_accepted : (not (role == text "normal") && not (role == text "admin")) ≡ false
  role_accepted =
      ground (arith, text_beq_iff role (text "normal"), text_beq_iff role (text "admin"))

  visibility_accepted :
      (not (visibility == text "public") && not (visibility == text "private")) ≡ false
  visibility_accepted =
      ground
        (arith, text_beq_iff visibility (text "public"), text_beq_iff visibility (text "private"))

-- In a database with unique keys and user ids below 2^31, without a database error, a registration
-- whose arguments pass the checks, under a name and an address that nobody has, succeeds and adds
-- exactly the user that was asked for: the hash of the password, the role, and the visibility in
-- place of the default.
pub execute_register_adds :
    (hasher : Text → ℕ) (e : Engine) (username password email role visibility : Text) (s : App)
    → IsReliable e
    → IsValid s.db
    → s.db.user_seq + 1 < 2 ^ 31
    → IsAcceptable username password email role visibility
    → any (λ r. r.username == username || r.email == email) s.db.users ≡ false
    → execute_register hasher e username password email role visibility s ≡ (
      record s {
        db = with_user s.db username (hash_password hasher password) email role visibility;
      },
      text "OK User registered\n",
    )
unfolding execute_register
execute_register_adds hasher e username password email role visibility s reliable v small ok fresh =
    rw
      (
        arguments_given username password email role visibility ok,
        role_accepted username password email role visibility ok,
        visibility_accepted username password email role visibility ok,
        register_user_eq hasher e reliable s.db username password email role visibility fresh,
        new_user_found hasher e reliable s.db username password email role visibility fresh,
      )
      (rw (
        update_visibility_eq hasher e reliable s.db username password email role visibility v
          small))

exec_taken :
    (e : Engine) (db : Database) (username hash email role : Text)
    → any (λ r. r.username == username || r.email == email) db.users ≡ true
    → exec e (insert_user username hash email role) db ≡ (db, false)
exec_taken e db username hash email role taken =
    exec_refused e (insert_user username hash email role) db (unfold perform in rw taken)

-- A registration whose arguments pass the checks, under a name or an address that is taken,
-- changes nothing and says so, whether or not the database meets errors.
pub execute_register_taken :
    (hasher : Text → ℕ) (e : Engine) (username password email role visibility : Text) (s : App)
    → IsAcceptable username password email role visibility
    → any (λ r. r.username == username || r.email == email) s.db.users ≡ true
    → execute_register hasher e username password email role visibility s
      ≡ (s, text "ERROR User already exists\n")
unfolding execute_register register_user
execute_register_taken hasher e username password email role visibility s ok taken = rw (
  arguments_given username password email role visibility ok,
  role_accepted username password email role visibility ok,
  visibility_accepted username password email role visibility ok,
  exec_taken e s.db username (hash_password hasher password) email role taken,
)

-- In a database with unique keys, without a database error, a client that is not logged in and
-- sends a registered name and a password, neither of them empty, is logged in under that name if
-- the hash of the password is the stored one; otherwise it is refused and nothing changes.
pub execute_login_registered :
    (hasher : Text → ℕ) (e : Engine) (r : UserRow) (password : Text) (sd : ℕ) (s : App)
    → IsReliable e
    → IsValid s.db
    → Has r s.db.users
    → is_empty r.username ≡ false
    → is_empty password ≡ false
    → is_authenticated sd s.sessions ≡ false
    → execute_login hasher e r.username password sd s ≡ (
        if r.password == hash_password hasher password
        then (record s { sessions = login sd r.username s.sessions }, text "OK Login successful\n")
        else (s, text "ERROR Invalid credentials\n"))
unfolding execute_login
execute_login_registered hasher e r password sd s reliable v there named given out =
    elim (Bool-cases (r.password == hash_password hasher password)) [
      | inl y ↦ rw (
        named,
        given,
        out,
        authenticate_user_found e s.db hasher r password reliable v there,
        execute_login,
        y,
      )
      | inr n ↦ rw (
        named,
        given,
        out,
        authenticate_user_found e s.db hasher r password reliable v there,
        execute_login,
        n,
      )
    ]

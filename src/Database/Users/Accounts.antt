-- ===== src/Database/Users/Accounts.antt =====
-- server/Database.cpp: whom the queries for a user find, and when a password is accepted.
use cpp_social_network_clien.Common.{
  ℕ, Bool, true, false, ◌&&◌, ◌≡◌, refl, ap, ◌∙◌, none, some, [], ◌∷◌, Text, arith, any, all,
  select, Has, select_unique, select_none, all-first, first_of_any, first_of_none, ◌==◌, nat_eq,
  text_eq, text_beq_iff, eq_refl, if◌then◌else◌,
}
use cpp_social_network_clien.Database.{
  Database, UserRow, Engine, IsSound, IsReliable, select_user, query,
}
use cpp_social_network_clien.Database.Integrity.{IsValid, same_username}
use cpp_social_network_clien.Database.Queries.{query-all, any-query}
use cpp_social_network_clien.Database.Users.{
  hash_password, to_user, user_row, authenticate_user, get_user_by_username,
}

same_row : UserRow → UserRow → Bool
same_row r s =
    (r.user_id == s.user_id && r.username == s.username)
    && ((r.password == s.password && r.email == s.email)
        && (r.user_type == s.user_type && r.profile_visibility == s.profile_visibility))

same_row_eq : (r s : UserRow) → same_row r s ≡ true → s ≡ r
unfolding same_row
same_row_eq r s h = ground (
  arith,
  text_beq_iff r.username s.username,
  text_beq_iff r.password s.password,
  text_beq_iff r.email s.email,
  text_beq_iff r.user_type s.user_type,
  text_beq_iff r.profile_visibility s.profile_visibility,
)

same_row_refl : (r : UserRow) → same_row r r ≡ true
unfolding same_row
same_row_refl r = rw (
  eq_refl r.user_id,
  eq_refl r.username,
  eq_refl r.password,
  eq_refl r.email,
  eq_refl r.user_type,
  eq_refl r.profile_visibility,
)

text_beq_comm : (s t : Text) → (s == t) ≡ (t == s)
text_beq_comm s t = ground (arith, text_beq_iff s t, text_beq_iff t s)

module _ (e : Engine) (db : Database) where
  -- A selection of one row is delivered, unless there is a database error.
  pub user_row_single :
      (username : Text) (r : UserRow)
      → IsReliable e
      → select (λ q. q.username == username) db.users ≡ r ∷ []
      → user_row e db username ≡ some r
  unfolding user_row
  user_row_single username r reliable only =
      let rows = query e (select_user username) db (r ∷ []) in
      let (found, is_first) =
        first_of_any (λ _. true) rows
          (any-query e (select_user username) db (λ _. true) (r ∷ []) reliable
            ∙ (unfold any in refl)) in
      let same =
        all-first (same_row r) rows found
          (query-all e (select_user username) db (same_row r) (r ∷ []) reliable.sound
            (unfold all in rw (same_row_refl r)))
          is_first in
      rw only (is_first ∙ ap some (same_row_eq r found same))

  pub user_row-none :
      (username : Text)
      → IsSound e
      → any (λ q. q.username == username) db.users ≡ false
      → user_row e db username ≡ none
  unfolding user_row
  user_row-none username s missing = rw (select_none _ db.users missing) (
      first_of_none _
        (query-all e (select_user username) db (λ _. false) [] s (unfold all in refl)))

  pub user_row_found :
      (r : UserRow) → IsReliable e → IsValid db → Has r db.users → user_row e db r.username ≡ some r
  user_row_found r reliable v there = user_row_single r.username r reliable (
      select_unique same_username (λ q. q.username == r.username) r db.users
        (λ q s. text_beq_comm q.username s.username) (λ q. text_beq_comm q.username r.username)
        (eq_refl r.username) v.usernames there)

  -- Without a database error, a password is accepted for a registered user exactly when its hash is
  -- the stored one, and the user that is returned is the one of that row.
  pub authenticate_user_found :
      (hasher : Text → ℕ) (r : UserRow) (password : Text)
      → IsReliable e
      → IsValid db
      → Has r db.users
      → authenticate_user hasher e db r.username password
        ≡ (if r.password == hash_password hasher password then some (to_user r) else none)
  unfolding authenticate_user
  authenticate_user_found hasher r password reliable v there =
      rw (user_row_found r reliable v there, authenticate_user)

  -- If SQLite delivers only rows that were selected, nobody is let in under a name that is not
  -- registered, whatever the password.
  pub authenticate_user_unknown :
      (hasher : Text → ℕ) (username password : Text)
      → IsSound e
      → any (λ q. q.username == username) db.users ≡ false
      → authenticate_user hasher e db username password ≡ none
  unfolding authenticate_user
  authenticate_user_unknown hasher username password s missing =
      rw (user_row-none username s missing, authenticate_user)

  pub get_user_by_username_found :
      (r : UserRow)
      → IsReliable e
      → IsValid db
      → Has r db.users
      → get_user_by_username e db r.username ≡ some (to_user r)
  unfolding get_user_by_username
  get_user_by_username_found r reliable v there =
      rw (user_row_found r reliable v there, get_user_by_username)

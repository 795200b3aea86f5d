-- ===== src/Database.antt =====
-- server/Database.h and server/Database.cpp: the tables of `initDatabase`, the SQL statements that
-- the methods of `Database` prepare, with the values that they bind, and what each statement does.
-- SQLite itself is not in the repository: when a statement fails, which rows a query delivers, in
-- which order, and what the clock says are the fields of `Engine`. Foreign keys are declared but
-- SQLite does not enforce them unless it is told to; an enforced one would be one more failure.
pub mod Tables
pub mod Users
pub mod Friends
pub mod Posts
pub mod Messages
pub mod Keeps
pub mod Growth
pub mod Queries
pub mod Integrity
pub mod Lasting
pub mod Typed
pub mod Named
pub mod Numbered
pub mod Registered
pub use Tables.*
use cpp_social_network_clien.Common.{
  ℕ, suc, ◌≡◌, Bool, true, false, ◌&&◌, ◌||◌, Option, none, some, List, [], ◌∷◌, ◌++◌, map, ℤ, pos,
  Text, text, ◌==◌, nat_eq, int_eq, text_eq, if◌then◌else◌, any, all,
}

-- The prepared statements with their bound values, named for the method that prepares them.
pub data Sql : Type 0 where
  insert_user : Text → Text → Text → Text → Sql
  select_user : Text → Sql
  update_profile_visibility : Text → ℤ → Sql
  insert_request : Text → Text → Sql
  check_request : Text → Text → Sql
  update_status : Text → Text → Sql
  insert_reverse : Text → Text → Sql
  check_friends : Text → Text → Sql
  update_friend_type : ℤ → Text → Text → Sql
  select_friends : Text → Sql
  select_requests : Text → Sql
  insert_post : Text → Text → ℤ → Sql
  select_visible_posts : Text → Sql
  select_public_posts : Sql
  check_participant : ℤ → Text → Sql
  insert_participant : ℤ → Text → Sql
  insert_message : ℤ → Text → Text → Sql
  select_messages : ℤ → Sql
  select_participants : ℤ → Sql
  select_private_conversation : Text → Text → Sql
  insert_conversation : Sql
  select_user_conversations : Text → Sql

-- INSERT INTO friends, which the primary key refuses if the pair is there.
insert_friend : Text → Text → ℤ → Database → Option Database
insert_friend user friend status db =
    if any (between user friend) db.friends
    then none
    else some (record db { friends = db.friends ++ new_friend user friend status ∷ [] })

-- What a statement does to the tables at the time `now`; `none` if a UNIQUE or PRIMARY KEY
-- constraint refuses it. A query changes nothing.
unfoldable pub perform : Text → Sql → Database → Option Database
unfolding insert_friend
perform now (insert_user username password email user_type) db =
    if any (λ r. r.username == username || r.email == email) db.users
    then none
    else some (record db {
      users = db.users ++ new_user (suc db.user_seq) username password email user_type ∷ [];
      user_seq = suc db.user_seq;
    })
perform now (update_profile_visibility visibility user_id) db =
    some (record db { users = map (set_visibility visibility user_id) db.users })
perform now (insert_request user friend) db = insert_friend user friend (pos 0) db
perform now (update_status user friend) db =
    some (record db { friends = map (set_status user friend) db.friends })
perform now (insert_reverse user friend) db = insert_friend user friend (pos 1) db
perform now (update_friend_type type user friend) db =
    some (record db { friends = map (set_type type user friend) db.friends })
perform now (insert_post author content visibility) db = some (record db {
  posts = db.posts ++ new_post (suc db.post_seq) author content visibility now ∷ [];
  post_seq = suc db.post_seq;
})
perform now (insert_participant conversation_id username) db =
    if any (λ r. r.conversation_id == conversation_id && r.username == username) db.participants
    then none
    else some (record db {
      participants = db.participants ++ new_participant conversation_id username now ∷ [];
    })
perform now (insert_message conversation_id sender content) db = some (record db {
  messages =
      db.messages ++ new_message (suc db.message_seq) conversation_id sender content now ∷ [];
  message_seq = suc db.message_seq;
})
perform now insert_conversation db = some (record db {
  conversations =
      db.conversations
      ++ record { conversation_id = suc db.conversation_seq; created_at = now } ∷ [];
  conversation_seq = suc db.conversation_seq;
})
perform now _ db = some db

-- SQLite during one request. `prepares` and `steps` say whether sqlite3_prepare_v2 and
-- sqlite3_step get by without an error, and `deliver` which of the selected rows
-- sqlite3_step hands out, in the order in which it finds them.
pub record Engine : Type 1 where
  pub now : Text
  pub prepares : Sql → Database → Bool
  pub steps : Sql → Database → Bool
  pub deliver : (A : Type 0) → Sql → Database → List A → List A

-- Prepare, bind, step and finalize: the tables afterwards, and sqlite3_step == SQLITE_DONE.
-- A statement that was not prepared is null, and a step of it changes nothing.
unfoldable pub exec : Engine → Sql → Database → Database × Bool
exec e q db =
    if e.prepares q db && e.steps q db
    then elim (perform e.now q db) [ none ↦ (db, false) | some after ↦ (after, true) ]
    else (db, false)

-- The rows for which sqlite3_step == SQLITE_ROW, of those that the statement selects.
unfoldable pub query : {A : Type 0} → Engine → Sql → Database → List A → List A
query {A} e q db rows = if e.prepares q db then e.deliver A q db rows else []

-- What SQLite documents of a query: a row that it hands out is one that the statement selects.
pub record IsSound (e : Engine) : Type 1 where
  pub deliver_all :
      (A : Type 0) (q : Sql) (db : Database) (p : A → Bool) (rows : List A)
      → all p rows ≡ true
      → all p (e.deliver A q db rows) ≡ true

-- A request during which SQLite meets no error, so that queries hand out every selected row.
pub record IsReliable (e : Engine) : Type 1 where
  pub sound : IsSound e
  pub prepared : (q : Sql) (db : Database) → e.prepares q db ≡ true
  pub stepped : (q : Sql) (db : Database) → e.steps q db ≡ true
  pub deliver_any :
      (A : Type 0) (q : Sql) (db : Database) (p : A → Bool) (rows : List A)
      → any p rows ≡ true
      → any p (e.deliver A q db rows) ≡ true

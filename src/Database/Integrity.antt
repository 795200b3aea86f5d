-- ===== src/Database/Integrity.antt =====
-- server/Database.cpp, `initDatabase`: what the UNIQUE, PRIMARY KEY and AUTOINCREMENT columns of
-- the tables guarantee.
use cpp_social_network_clien.Common.{
  ℕ, suc, ℤ, pos, Bool, true, false, ◌&&◌, ◌||◌, ◌≡◌, refl, ◌∙◌, some, List, [], ◌∷◌, ◌++◌, map,
  Text, arith, any, all, distinct, distinct-snoc, distinct-map, all_mono, all-map, leb, ◌==◌,
  nat_eq, int_eq, text_eq, any-false_mono, subst, Bool-cases, inl, inr,
}
use cpp_social_network_clien.Database.{
  Database, UserRow, FriendRow, ParticipantRow, Sql, insert_user, update_profile_visibility,
  insert_request, update_status, insert_reverse, update_friend_type, insert_participant, perform,
  insert_friend, new_user, new_friend, new_participant, set_status, set_type, set_visibility,
  between, init_database,
}

abbrev pub same_username : UserRow → UserRow → Bool
same_username r s = r.username == s.username

abbrev pub same_email : UserRow → UserRow → Bool
same_email r s = r.email == s.email

abbrev pub same_user_id : UserRow → UserRow → Bool
same_user_id r s = r.user_id == s.user_id

abbrev pub same_pair : FriendRow → FriendRow → Bool
same_pair r s = r.user_username == s.user_username && r.friend_username == s.friend_username

abbrev pub same_participant : ParticipantRow → ParticipantRow → Bool
same_participant r s = r.conversation_id == s.conversation_id && r.username == s.username

pub record IsValid (db : Database) : Type 0 where
  pub usernames : distinct same_username db.users ≡ true
  pub emails : distinct same_email db.users ≡ true
  pub user_ids : distinct same_user_id db.users ≡ true
  pub user_ids_given : all (λ r. leb r.user_id db.user_seq) db.users ≡ true
  pub pairs : distinct same_pair db.friends ≡ true
  pub members : distinct same_participant db.participants ≡ true

pub init_database-IsValid : IsValid init_database
unfolding distinct all
init_database-IsValid = record {
  usernames = refl;
  emails = refl;
  user_ids = refl;
  user_ids_given = refl;
  pairs = refl;
  members = refl;
}

user_id_fresh :
    (seq : ℕ) (users : List UserRow)
    → all (λ r. leb r.user_id seq) users ≡ true
    → any (λ r. r.user_id == suc seq) users ≡ false
unfolding all any
user_id_fresh seq [] h = refl
user_id_fresh seq (r ∷ users) h = ground (arith, user_id_fresh seq users)

all-snoc :
    (seq : ℕ) (users : List UserRow) (r : UserRow)
    → all (λ r. leb r.user_id seq) users ≡ true
    → r.user_id ≡ suc seq
    → all (λ r. leb r.user_id (suc seq)) (users ++ r ∷ []) ≡ true
unfolding all
all-snoc seq [] r h e = ground arith
all-snoc seq (s ∷ users) r h e = ground (arith, all-snoc seq users r)

insert_user-IsValid :
    (db : Database) (username password email user_type : Text)
    → IsValid db
    → any (λ r. r.username == username || r.email == email) db.users ≡ false
    → IsValid (record db {
      users = db.users ++ new_user (suc db.user_seq) username password email user_type ∷ [];
      user_seq = suc db.user_seq;
    })
insert_user-IsValid db username password email user_type v fresh = record {
  usernames =
      distinct-snoc same_username db.users _ v.usernames
        (any-false_mono _ _ db.users (λ r h. ground arith) fresh);
  emails =
      distinct-snoc same_email db.users _ v.emails
        (any-false_mono _ _ db.users (λ r h. ground arith) fresh);
  user_ids =
      distinct-snoc same_user_id db.users _ v.user_ids
        (user_id_fresh db.user_seq db.users v.user_ids_given);
  user_ids_given = all-snoc db.user_seq db.users _ v.user_ids_given refl;
  pairs = v.pairs;
  members = v.members;
}

set_visibility-IsValid :
    (db : Database) (visibility : Text) (user_id : ℤ)
    → IsValid db
    → IsValid (record db { users = map (set_visibility visibility user_id) db.users })
set_visibility-IsValid db visibility user_id v = record {
  usernames =
      distinct-map same_username (set_visibility visibility user_id) db.users (λ r s. ground arith)
      ∙ v.usernames;
  emails =
      distinct-map same_email (set_visibility visibility user_id) db.users (λ r s. ground arith)
      ∙ v.emails;
  user_ids =
      distinct-map same_user_id (set_visibility visibility user_id) db.users (λ r s. ground arith)
      ∙ v.user_ids;
  user_ids_given =
      all-map _ _ db.users ∙ all_mono _ _ db.users (λ r h. ground arith) v.user_ids_given;
  pairs = v.pairs;
  members = v.members;
}

friends-IsValid :
    (db : Database) (rows : List FriendRow)
    → IsValid db
    → distinct same_pair rows ≡ true
    → IsValid (record db { friends = rows })
friends-IsValid db rows v d = record {
  usernames = v.usernames;
  emails = v.emails;
  user_ids = v.user_ids;
  user_ids_given = v.user_ids_given;
  pairs = d;
  members = v.members;
}

insert_friend-IsValid :
    (db after : Database) (user friend : Text) (status : ℤ)
    → IsValid db
    → insert_friend user friend status db ≡ some after
    → IsValid after
unfolding insert_friend
insert_friend-IsValid db after user friend status v e =
    elim (Bool-cases (any (between user friend) db.friends)) [
      | inl y ↦ absurd (ground arith)
      | inr n ↦ subst IsValid (ground arith) (
          friends-IsValid db (db.friends ++ new_friend user friend status ∷ []) v
            (distinct-snoc same_pair db.friends _ v.pairs n))
    ]

participants-IsValid :
    (db : Database) (rows : List ParticipantRow)
    → IsValid db
    → distinct same_participant rows ≡ true
    → IsValid (record db { participants = rows })
participants-IsValid db rows v d = record {
  usernames = v.usernames;
  emails = v.emails;
  user_ids = v.user_ids;
  user_ids_given = v.user_ids_given;
  pairs = v.pairs;
  members = d;
}

-- A statement that touches none of the keys.
others-IsValid :
    (db after : Database)
    → IsValid db
    → after.users ≡ db.users
    → after.user_seq ≡ db.user_seq
    → after.friends ≡ db.friends
    → after.participants ≡ db.participants
    → IsValid after
others-IsValid db after v a b c d = record {
  usernames = rw a v.usernames;
  emails = rw a v.emails;
  user_ids = rw a v.user_ids;
  user_ids_given = rw (a, b) v.user_ids_given;
  pairs = rw c v.pairs;
  members = rw d v.members;
}

-- Every statement that the server runs keeps usernames, e-mail addresses, user ids, ordered pairs
-- of friends and memberships unique, and user ids at or below the sequence they come from.
pub perform-IsValid :
    (now : Text) (q : Sql) (db after : Database)
    → IsValid db
    → perform now q db ≡ some after
    → IsValid after
unfolding perform
perform-IsValid now (insert_user username password email user_type) db after v e =
    elim (Bool-cases (any (λ r. r.username == username || r.email == email) db.users)) [
      | inl y ↦ absurd (ground arith)
      | inr n ↦
          subst IsValid (ground arith)
            (insert_user-IsValid db username password email user_type v n)
    ]
perform-IsValid now (update_profile_visibility visibility user_id) db after v e =
    subst IsValid (ground arith) (set_visibility-IsValid db visibility user_id v)
perform-IsValid now (insert_request user friend) db after v e =
    insert_friend-IsValid db after user friend (pos 0) v e
perform-IsValid now (insert_reverse user friend) db after v e =
    insert_friend-IsValid db after user friend (pos 1) v e
perform-IsValid now (update_status user friend) db after v e = subst IsValid (ground arith) (
    friends-IsValid db (map (set_status user friend) db.friends) v
      (distinct-map same_pair (set_status user friend) db.friends (λ r s. ground arith) ∙ v.pairs))
perform-IsValid now (update_friend_type type user friend) db after v e =
    subst IsValid (ground arith) (
      friends-IsValid db (map (set_type type user friend) db.friends) v (
        distinct-map same_pair (set_type type user friend) db.friends (λ r s. ground arith)
        ∙ v.pairs))
perform-IsValid now (insert_participant c username) db after v e =
    elim (Bool-cases
      (any (λ r. r.conversation_id == c && r.username == username) db.participants)) [
        | inl y ↦ absurd (ground arith)
        | inr n ↦ subst IsValid (ground arith) (
            participants-IsValid db (db.participants ++ new_participant c username now ∷ []) v
              (distinct-snoc same_participant db.participants _ v.members n))
      ]
perform-IsValid now _ db after v e =
    others-IsValid db after v (ground arith) (ground arith) (ground arith) (ground arith)

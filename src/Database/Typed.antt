-- ===== src/Database/Typed.antt =====
-- server/Database.cpp: the values that the columns of the tables may hold.
use cpp_social_network_clien.Common.{
  suc, ℤ, pos, Bool, true, false, not, ◌&&◌, ◌||◌, ◌≡◌, refl, ◌∙◌, some, [], ◌∷◌, ◌++◌, map, Text,
  text, arith, any, all, all-append, all-map, all_mono, ◌==◌, text_eq, text_beq, int_eq, nat_eq,
  subst, Bool-cases, inl, inr,
}
use cpp_social_network_clien.Database.{
  Database, UserRow, FriendRow, PostRow, Sql, insert_user, update_profile_visibility,
  insert_request, update_status, insert_reverse, update_friend_type, insert_post,
  insert_participant, perform, insert_friend, new_user, new_friend, new_post, set_status, set_type,
  set_visibility, between, accepted, pending, init_database,
}
use cpp_social_network_clien.Database.Friends.{out_of_range}
use cpp_social_network_clien.Database.Keeps.{any_names, IsAdmitted, is_role, is_profile_visibility}

abbrev pub user_typed : UserRow → Bool
user_typed r = is_role r.user_type && is_profile_visibility r.profile_visibility

abbrev pub friend_typed : FriendRow → Bool
friend_typed r = not (out_of_range r.friend_type) && (pending r || accepted r)

abbrev pub post_typed : PostRow → Bool
post_typed r = not (out_of_range r.visibility)

-- Roles are normal or admin, profiles public or private, types of friends and visibilities of posts
-- 0, 1 or 2, and a friendship is pending or accepted.
pub record IsTyped (db : Database) : Type 0 where
  pub users : all user_typed db.users ≡ true
  pub friends : all friend_typed db.friends ≡ true
  pub posts : all post_typed db.posts ≡ true

pub init_database-IsTyped : IsTyped init_database
unfolding all
init_database-IsTyped = record { users = refl; friends = refl; posts = refl }

public-visibility : is_profile_visibility (text "public") ≡ true
unfolding text_beq
public-visibility = refl

module _ (db : Database) (v : IsTyped db) where
  IsTyped-users :
      (after : Database)
      → all user_typed after.users ≡ true
      → after.friends ≡ db.friends
      → after.posts ≡ db.posts
      → IsTyped after
  IsTyped-users after h f p = record { users = h; friends = rw f v.friends; posts = rw p v.posts }

  IsTyped-friends :
      (after : Database)
      → all friend_typed after.friends ≡ true
      → after.users ≡ db.users
      → after.posts ≡ db.posts
      → IsTyped after
  IsTyped-friends after h u p = record { users = rw u v.users; friends = h; posts = rw p v.posts }

  IsTyped-posts :
      (after : Database)
      → all post_typed after.posts ≡ true
      → after.users ≡ db.users
      → after.friends ≡ db.friends
      → IsTyped after
  IsTyped-posts after h u f = record { users = rw u v.users; friends = rw f v.friends; posts = h }

  new_user-IsTyped :
      (username password email user_type : Text)
      → is_role user_type ≡ true
      → all user_typed
          (db.users ++ new_user (suc db.user_seq) username password email user_type ∷ [])
        ≡ true
  new_user-IsTyped username password email user_type h =
      all-append user_typed db.users _
      ∙ rw v.users (unfold all in ground (arith, public-visibility))

  set_visibility-IsTyped :
      (visibility : Text) (user_id : ℤ)
      → is_profile_visibility visibility ≡ true
      → all user_typed (map (set_visibility visibility user_id) db.users) ≡ true
  set_visibility-IsTyped visibility user_id h =
      all-map _ _ db.users ∙ all_mono _ _ db.users (λ r k. ground arith) v.users

  new_friend-IsTyped :
      (user friend : Text) (status : ℤ)
      → (status == pos 0 || status == pos 1) ≡ true
      → all friend_typed (db.friends ++ new_friend user friend status ∷ []) ≡ true
  new_friend-IsTyped user friend status h =
      all-append friend_typed db.friends _ ∙ rw v.friends (unfold all in ground arith)

  set_status-IsTyped :
      (user friend : Text) → all friend_typed (map (set_status user friend) db.friends) ≡ true
  set_status-IsTyped user friend =
      all-map _ _ db.friends ∙ all_mono _ _ db.friends (λ r k. ground arith) v.friends

  set_type-IsTyped :
      (type : ℤ) (user friend : Text)
      → out_of_range type ≡ false
      → all friend_typed (map (set_type type user friend) db.friends) ≡ true
  set_type-IsTyped type user friend h =
      all-map _ _ db.friends ∙ all_mono _ _ db.friends (λ r k. ground arith) v.friends

  new_post-IsTyped :
      (author content now : Text) (visibility : ℤ)
      → out_of_range visibility ≡ false
      → all post_typed (db.posts ++ new_post (suc db.post_seq) author content visibility now ∷ [])
        ≡ true
  new_post-IsTyped author content now visibility h =
      all-append post_typed db.posts _ ∙ rw v.posts (unfold all in ground arith)

others-IsTyped :
    (db after : Database)
    → IsTyped db
    → after.users ≡ db.users
    → after.friends ≡ db.friends
    → after.posts ≡ db.posts
    → IsTyped after
others-IsTyped db after v u f p = record {
  users = rw u v.users;
  friends = rw f v.friends;
  posts = rw p v.posts;
}

insert_friend-IsTyped :
    (db after : Database) (user friend : Text) (status : ℤ)
    → IsTyped db
    → (status == pos 0 || status == pos 1) ≡ true
    → insert_friend user friend status db ≡ some after
    → IsTyped after
unfolding insert_friend
insert_friend-IsTyped db after user friend status v h e =
    elim (Bool-cases (any (between user friend) db.friends)) [
      | inl y ↦ absurd (ground arith)
      | inr n ↦ subst IsTyped (ground arith) (
          IsTyped-friends db v
            (record db { friends = db.friends ++ new_friend user friend status ∷ [] })
            (new_friend-IsTyped db v user friend status h) refl refl)
    ]

-- Every statement that the server runs keeps the values of the columns in their ranges.
pub perform-IsTyped :
    (now : Text) (q : Sql) (db after : Database)
    → IsAdmitted any_names q
    → IsTyped db
    → perform now q db ≡ some after
    → IsTyped after
unfolding perform
perform-IsTyped now (insert_user username password email user_type) db after a v e =
    elim (Bool-cases (any (λ r. r.username == username || r.email == email) db.users)) [
      | inl y ↦ absurd (ground arith)
      | inr n ↦ subst IsTyped (ground arith) (
          IsTyped-users db v
            (record db {
              users = db.users ++ new_user (suc db.user_seq) username password email user_type ∷ [];
              user_seq = suc db.user_seq;
            })
            (new_user-IsTyped db v username password email user_type a.1) refl refl)
    ]
perform-IsTyped now (update_profile_visibility visibility user_id) db after a v e =
    subst IsTyped (ground arith) (
      IsTyped-users db v (record db { users = map (set_visibility visibility user_id) db.users })
        (set_visibility-IsTyped db v visibility user_id a) refl refl)
perform-IsTyped now (insert_request user friend) db after a v e =
    insert_friend-IsTyped db after user friend (pos 0) v refl e
perform-IsTyped now (insert_reverse user friend) db after a v e =
    insert_friend-IsTyped db after user friend (pos 1) v refl e
perform-IsTyped now (update_status user friend) db after a v e = subst IsTyped (ground arith) (
    IsTyped-friends db v (record db { friends = map (set_status user friend) db.friends })
      (set_status-IsTyped db v user friend) refl refl)
perform-IsTyped now (update_friend_type type user friend) db after a v e =
    subst IsTyped (ground arith) (
      IsTyped-friends db v (record db { friends = map (set_type type user friend) db.friends })
        (set_type-IsTyped db v type user friend a) refl refl)
perform-IsTyped now (insert_post author content visibility) db after a v e =
    subst IsTyped (ground arith) (
      IsTyped-posts db v
        (record db {
          posts = db.posts ++ new_post (suc db.post_seq) author content visibility now ∷ [];
          post_seq = suc db.post_seq;
        })
        (new_post-IsTyped db v author content now visibility a.1) refl refl)
perform-IsTyped now (insert_participant c username) db after a v e =
    elim (Bool-cases
      (any (λ r. r.conversation_id == c && r.username == username) db.participants)) [
        | inl y ↦ absurd (ground arith)
        | inr n ↦ others-IsTyped db after v (ground arith) (ground arith) (ground arith)
      ]
perform-IsTyped now _ db after a v e =
    others-IsTyped db after v (ground arith) (ground arith) (ground arith)

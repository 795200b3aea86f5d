-- ===== src/Database/Keeps.antt =====
-- server/Database.cpp: a property of the tables, through the methods of `Database`.
use cpp_social_network_clien.Common.{
  ℤ, Bool, true, false, not, ◌&&◌, ◌||◌, ◌==◌, text_eq, text, ◌≡◌, refl, Option, none, some, List,
  [], ◌∷◌, Text, All, ltb, length, if_both,
}
use cpp_social_network_clien.Database.{
  Database, Sql, insert_user, update_profile_visibility, insert_request, update_status,
  insert_reverse, update_friend_type, insert_post, insert_participant, insert_message,
  insert_conversation, perform, Engine, exec,
}
use cpp_social_network_clien.Database.Friends.{
  has_request, accept_friend_request, are_friends, out_of_range, set_friend_type,
}
use cpp_social_network_clien.Database.Posts.{create_post}
use cpp_social_network_clien.Database.Messages.{
  is_participant, add_participant, send_message, create_conversation, add_participants,
  create_group_conversation,
}

abbrev pub is_role : Text → Bool
is_role role = role == text "normal" || role == text "admin"

abbrev pub is_profile_visibility : Text → Bool
is_profile_visibility visibility = visibility == text "public" || visibility == text "private"

-- What is known of the name of a new account, and of every other name.
pub record Names : Type 1 where
  pub new : Text → Type 0
  pub user : Text → Type 0

abbrev pub any_names : Names
any_names = record { new = λ _. Unit {0}; user = λ _. Unit {0} }

-- What the server checks of the values before it binds them.
abbrev pub IsAdmitted : Names → Sql → Type 0
IsAdmitted W (insert_user username password email user_type) =
    W.new username × (is_role user_type ≡ true)
IsAdmitted W (update_profile_visibility visibility user_id) =
    is_profile_visibility visibility ≡ true
IsAdmitted W (insert_request user friend) = W.user user × W.user friend
IsAdmitted W (insert_reverse user friend) = W.user user × W.user friend
IsAdmitted W (update_friend_type type user friend) = out_of_range type ≡ false
IsAdmitted W (insert_post author content visibility) =
    W.user author × (out_of_range visibility ≡ false)
IsAdmitted W (insert_participant c username) = W.user username
IsAdmitted W (insert_message c sender content) = W.user sender
IsAdmitted W _ = Unit

-- A property that every statement keeps which is admitted and carried out.
abbrev pub IsKept : Names → (Database → Type 0) → Type 0
IsKept W P =
    (now : Text) (q : Sql) (db after : Database)
    → IsAdmitted W q
    → P db
    → perform now q db ≡ some after
    → P after

module _ (W : Names) (P : Database → Type 0) (step : IsKept W P) (e : Engine) where
  run-keeps :
      (now : Text) (q : Sql) (db : Database)
      → IsAdmitted W q
      → P db
      → P
          (elim (perform now q db) as (λ _. Database × Bool) [
            | none ↦ (db, false)
            | some after ↦ (after, true)
          ]).0
  run-keeps now q db a h = go (perform now q db) refl
    where
      go :
          (r : Option Database)
          → perform now q db ≡ r
          → P
              (elim r as (λ _. Database × Bool) [
                | none ↦ (db, false)
                | some after ↦ (after, true)
              ]).0
      go none e = h
      go (some after) e = step now q db after a h e

  pub exec-keeps : (q : Sql) (db : Database) → IsAdmitted W q → P db → P (exec e q db).0
  unfolding exec
  exec-keeps q db a h =
      if_both (λ (r : Database × Bool). P r.0) (e.prepares q db && e.steps q db) _ _
        (λ _. run-keeps e.now q db a h) (λ _. h)

  pub accept_friend_request-keeps :
      (db : Database) (to from : Text)
      → (has_request e db from to ≡ true → W.user to × W.user from)
      → P db
      → P (accept_friend_request e db to from).0
  unfolding accept_friend_request
  accept_friend_request-keeps db to from w h =
      if_both (λ (r : Database × Bool). P r.0) (has_request e db from to) _ _
        (λ asked.
          exec-keeps (insert_reverse to from) (exec e (update_status from to) db).0 (w asked)
            (exec-keeps (update_status from to) db tt h))
        (λ _. h)

  pub set_friend_type-keeps :
      (db : Database) (user friend : Text) (type : ℤ)
      → P db
      → P (set_friend_type e db user friend type).0
  unfolding set_friend_type
  set_friend_type-keeps db user friend type h =
      if_both (λ (r : Database × Bool). P r.0) (out_of_range type) _ _ (λ _. h)
        λ admitted.
          if_both (λ (r : Database × Bool). P r.0) (not (are_friends e db user friend)) _ _ (λ _. h)
            (λ _. exec-keeps (update_friend_type type user friend) db admitted h)

  pub create_post-keeps :
      (db : Database) (author content : Text) (visibility : ℤ)
      → W.user author
      → P db
      → P (create_post e db author content visibility).0
  unfolding create_post
  create_post-keeps db author content visibility w h =
      if_both (λ (r : Database × Bool). P r.0) (out_of_range visibility) _ _ (λ _. h)
        (λ admitted. exec-keeps (insert_post author content visibility) db (w, admitted) h)

  pub add_participant-keeps :
      (db : Database) (c : ℤ) (username : Text)
      → W.user username
      → P db
      → P (add_participant e db c username).0
  unfolding add_participant
  add_participant-keeps db c username w h =
      if_both (λ (r : Database × Bool). P r.0) (is_participant e db c username) _ _ (λ _. h)
        (λ _. exec-keeps (insert_participant c username) db w h)

  pub send_message-keeps :
      (db : Database) (c : ℤ) (sender content : Text)
      → W.user sender
      → P db
      → P (send_message e db c sender content).0
  unfolding send_message
  send_message-keeps db c sender content w h =
      if_both (λ (r : Database × Bool). P r.0) (not (is_participant e db c sender)) _ _ (λ _. h)
        (λ _. exec-keeps (insert_message c sender content) db w h)

  pub create_conversation-keeps :
      (db : Database) (user1 user2 : Text)
      → W.user user1 × W.user user2
      → P db
      → P (create_conversation e db user1 user2).0
  unfolding create_conversation
  create_conversation-keeps db user1 user2 w h =
      let created = exec-keeps insert_conversation db tt h in
      if_both (λ (r : Database × ℤ). P r.0) (exec e insert_conversation db).1 _ _
        (λ _. add_participant-keeps _ _ user2 w.1 (add_participant-keeps _ _ user1 w.0 created))
        (λ _. created)

  pub add_participants-keeps :
      (db : Database) (c : ℤ) (users : List Text)
      → All W.user users
      → P db
      → P (add_participants e db c users)
  unfolding add_participants
  add_participants-keeps db c [] w h = h
  add_participants-keeps db c (user ∷ users) w h =
      add_participants-keeps (add_participant e db c user).0 c users w.1
        (add_participant-keeps db c user w.0 h)

  pub create_group_conversation-keeps :
      (db : Database) (users : List Text)
      → All W.user users
      → P db
      → P (create_group_conversation e db users).0
  unfolding create_group_conversation
  create_group_conversation-keeps db users w h =
      let created = exec-keeps insert_conversation db tt h in
      if_both (λ (r : Database × ℤ). P r.0) (ltb (length users) 2) _ _ (λ _. h)
        λ _.
          if_both (λ (r : Database × ℤ). P r.0) (exec e insert_conversation db).1 _ _
            (λ _. add_participants-keeps _ _ users w created) (λ _. created)

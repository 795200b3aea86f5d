-- ===== src/Commands/Cases.antt =====
-- The states in which the commands of server/commands can leave the server, one rule for each
-- command that changes something.
use cpp_social_network_clien.Common.{
  is_empty, ℕ, ℤ, negsuc, true, false, ◌≡◌, ◌≢◌, Option, none, List, [], ◌∷◌, ◌++◌, Text, arith,
}
use cpp_social_network_clien.Database.{Database, Engine}
use cpp_social_network_clien.Database.Keeps.{is_role, is_profile_visibility}
use cpp_social_network_clien.Database.Users.{
  get_user_by_username, register_user, authenticate_user, update_visibility, User,
}
use cpp_social_network_clien.Database.Friends.{
  send_friend_request, accept_friend_request, set_friend_type,
}
use cpp_social_network_clien.Database.Posts.{create_post}
use cpp_social_network_clien.Database.Messages.{
  is_participant, add_participant, send_message, create_conversation, create_group_conversation,
}
use cpp_social_network_clien.SessionManager
use cpp_social_network_clien.SessionManager.{
  is_authenticated, get_username, get_current_conversation, login, logout,
}
use cpp_social_network_clien.App.{App}
use cpp_social_network_clien.Commands.Account.{
  execute_register, execute_login, execute_logout, execute_set_profile_visibility, apply_visibility,
}
use cpp_social_network_clien.Commands.Friendship.{
  has_value, execute_friend_request, execute_accept_friend, execute_set_friend_type,
  execute_list_friends, execute_list_friend_requests,
}
use cpp_social_network_clien.Commands.Posting.{execute_create_post, execute_list_posts}
use cpp_social_network_clien.Commands.Messaging.{
  execute_chat, execute_chats, execute_open, execute_send, execute_show, execute_group, execute_add,
  is_known, first_unknown,
}

module _ (P : App → Type 0) (s : App) (same : P s) where
  pub login_cases :
      (hasher : Text → ℕ) (e : Engine) (username password : Text) (sd : ℕ)
      → (is_authenticated sd s.sessions ≡ false
          → P (record s { sessions = login sd username s.sessions }))
      → P (execute_login hasher e username password sd s).0
  unfolding execute_login
  login_cases hasher e username password sd h = ground arith

  pub register_cases :
      (hasher : Text → ℕ) (e : Engine) (username password email role visibility : Text)
      → (is_empty username ≡ false
          → is_role role ≡ true
          → P (record s { db = (register_user hasher e s.db username password email role).0 }))
      → (is_empty username ≡ false
          → is_role role ≡ true
          → is_profile_visibility visibility ≡ true
          → (user : Option User)
          → P (record s {
            db =
                apply_visibility e
                  (register_user hasher e s.db username password email role).0
                  user
                  visibility;
          }))
      → P (execute_register hasher e username password email role visibility s).0
  unfolding execute_register
  register_cases hasher e username password email role visibility h k = ground (
    arith,
    h,
    λ (n : is_empty username ≡ false) (a : is_role role ≡ true)
          (b : is_profile_visibility visibility ≡ true).
        k n a b (
          authenticate_user hasher e (register_user hasher e s.db username password email role).0
            username password),
  )

  pub logout_cases :
      (sd : ℕ) → P (record s { sessions = logout sd s.sessions }) → P (execute_logout sd s).0
  unfolding execute_logout
  logout_cases sd h = ground arith

  module _ (e : Engine) (sd : ℕ) where
    pub set_profile_visibility_cases :
        (visibility : Text)
        → (is_profile_visibility visibility ≡ true
            → (user_id : ℤ) → P (record s { db = (update_visibility e s.db user_id visibility).0 }))
        → P (execute_set_profile_visibility e visibility sd s).0
    unfolding execute_set_profile_visibility
    set_profile_visibility_cases visibility h = grind arith

    pub friend_request_cases :
        (target : Text)
        → (is_authenticated sd s.sessions ≡ true
            → has_value (get_user_by_username e s.db target) ≡ true
            → P (record s {
              db = (send_friend_request e s.db (get_username sd s.sessions) target).0;
            }))
        → P (execute_friend_request e target sd s).0
    unfolding execute_friend_request
    friend_request_cases target h = ground arith

    pub accept_friend_cases :
        (source : Text)
        → (is_authenticated sd s.sessions ≡ true
            → P (record s {
              db = (accept_friend_request e s.db (get_username sd s.sessions) source).0;
            }))
        → P (execute_accept_friend e source sd s).0
    unfolding execute_accept_friend
    accept_friend_cases source h = ground arith

    pub set_friend_type_cases :
        (target : Text) (type : ℤ)
        → P (record s { db = (set_friend_type e s.db (get_username sd s.sessions) target type).0 })
        → P (execute_set_friend_type e target type sd s).0
    unfolding execute_set_friend_type
    set_friend_type_cases target type h = ground arith

    pub create_post_cases :
        (visibility : ℤ) (content : Text)
        → (is_authenticated sd s.sessions ≡ true
            → P (record s {
              db = (create_post e s.db (get_username sd s.sessions) content visibility).0;
            }))
        → P (execute_create_post e visibility content sd s).0
    unfolding execute_create_post
    create_post_cases visibility content h = ground arith

    pub chat_cases :
        (other_user : Text)
        → (is_authenticated sd s.sessions ≡ true
            → is_known e s.db other_user ≡ true
            → P (record s {
              db = (create_conversation e s.db (get_username sd s.sessions) other_user).0;
            }))
        → P (execute_chat e other_user sd s).0
    unfolding execute_chat
    chat_cases other_user h = ground arith

    pub open_cases :
        (c : ℤ)
        → (is_authenticated sd s.sessions ≡ true
            → is_participant e s.db c (get_username sd s.sessions) ≡ true
            → P (record s { sessions = SessionManager.open_conversation sd c s.sessions }))
        → P (execute_open e c sd s).0
    unfolding execute_open
    open_cases c h = ground arith

    pub send_cases :
        (content : Text)
        → (is_authenticated sd s.sessions ≡ true
            → get_current_conversation sd s.sessions ≢ negsuc 0
            → P (record s {
              db =
                  (send_message e s.db
                    (get_current_conversation sd s.sessions)
                    (get_username sd s.sessions)
                    content).0;
            }))
        → P (execute_send e content sd s).0
    unfolding execute_send
    send_cases content h = ground arith

    pub add_cases :
        (username : Text)
        → (get_current_conversation sd s.sessions ≢ negsuc 0
            → is_known e s.db username ≡ true
            → P (record s {
              db = (add_participant e s.db (get_current_conversation sd s.sessions) username).0;
            }))
        → P (execute_add e username sd s).0
    unfolding execute_add
    add_cases username h = ground arith

  module _ (e : Engine) (sd : ℕ) (users : List Text) where
    abbrev group_result : Database × ℤ
    group_result = create_group_conversation e s.db (users ++ get_username sd s.sessions ∷ [])

    pub group_cases :
        (is_authenticated sd s.sessions ≡ true
          → first_unknown e s.db (users ++ get_username sd s.sessions ∷ []) ≡ none
          → P (record s { db = group_result.0 }))
        → (is_authenticated sd s.sessions ≡ true
            → first_unknown e s.db (users ++ get_username sd s.sessions ∷ []) ≡ none
            → group_result.1 ≢ negsuc 0
            → P (record {
              db = group_result.0;
              sessions = SessionManager.open_conversation sd group_result.1 s.sessions;
            }))
        → P (execute_group e users sd s).0
    unfolding execute_group
    group_cases h k = ground arith

-- The commands that only ask leave the state alone.
module _ (e : Engine) (sd : ℕ) (s : App) where
  pub list_friends_keeps : (execute_list_friends e sd s).0 ≡ s
  unfolding execute_list_friends
  list_friends_keeps = ground arith

  pub list_friend_requests_keeps : (execute_list_friend_requests e sd s).0 ≡ s
  unfolding execute_list_friend_requests
  list_friend_requests_keeps = ground arith

  pub list_posts_keeps : (execute_list_posts e sd s).0 ≡ s
  unfolding execute_list_posts
  list_posts_keeps = ground arith

  pub chats_keeps : (execute_chats e sd s).0 ≡ s
  unfolding execute_chats
  chats_keeps = ground arith

  pub show_keeps : (execute_show e sd s).0 ≡ s
  unfolding execute_show
  show_keeps = ground arith

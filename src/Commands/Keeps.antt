-- ===== src/Commands/Keeps.antt =====
-- server/commands/*.cpp: a property of the tables, through the commands.
use cpp_social_network_clien.Common.{
  List, [], ◌∷◌, ◌++◌, All, ℕ, false, is_empty, ℤ, Option, none, some, Text, ◌≡◌, true, subst, sym,
}
use cpp_social_network_clien.Database.{Database, Engine}
use cpp_social_network_clien.Database.Users.{
  get_user_by_username, User, register_user, update_visibility,
}
use cpp_social_network_clien.Database.Friends.{send_friend_request, has_request}
use cpp_social_network_clien.Database.Keeps.{
  any_names, Names, IsKept, is_role, is_profile_visibility, exec-keeps, accept_friend_request-keeps,
  set_friend_type-keeps, create_post-keeps, add_participant-keeps, send_message-keeps,
  create_conversation-keeps, create_group_conversation-keeps,
}
use cpp_social_network_clien.App.{App}
use cpp_social_network_clien.Command.{Command}
use cpp_social_network_clien.Commands.{execute}
use cpp_social_network_clien.Commands.Friendship.{has_value}
use cpp_social_network_clien.Commands.Messaging.{is_known, first_unknown}
use cpp_social_network_clien.SessionManager.{is_authenticated, get_username}
use cpp_social_network_clien.Commands.Account.{apply_visibility}
use cpp_social_network_clien.Commands.Cases.{
  login_cases, register_cases, logout_cases, set_profile_visibility_cases, friend_request_cases,
  accept_friend_cases, set_friend_type_cases, create_post_cases, chat_cases, open_cases, send_cases,
  add_cases, group_cases, list_friends_keeps, list_friend_requests_keeps, list_posts_keeps,
  chats_keeps, show_keeps,
}

-- What has to be known of the names that a command writes into the tables.
abbrev pub NamesKnown : Names → Engine → ℕ → App → Command → Type 0
NamesKnown W e sd s (Command.register username _ _ _ _) = is_empty username ≡ false → W.new username
NamesKnown W e sd s (Command.friend_request target) =
    is_authenticated sd s.sessions ≡ true
    → has_value (get_user_by_username e s.db target) ≡ true
    → W.user (get_username sd s.sessions) × W.user target
NamesKnown W e sd s (Command.accept_friend source) =
    is_authenticated sd s.sessions ≡ true
    → has_request e s.db source (get_username sd s.sessions) ≡ true
    → W.user (get_username sd s.sessions) × W.user source
NamesKnown W e sd s (Command.create_post _ _) =
    is_authenticated sd s.sessions ≡ true → W.user (get_username sd s.sessions)
NamesKnown W e sd s (Command.send _) =
    is_authenticated sd s.sessions ≡ true → W.user (get_username sd s.sessions)
NamesKnown W e sd s (Command.chat other_user) =
    is_authenticated sd s.sessions ≡ true
    → is_known e s.db other_user ≡ true
    → W.user (get_username sd s.sessions) × W.user other_user
NamesKnown W e sd s (Command.add username) = is_known e s.db username ≡ true → W.user username
NamesKnown W e sd s (Command.group users) =
    is_authenticated sd s.sessions ≡ true
    → first_unknown e s.db (users ++ get_username sd s.sessions ∷ []) ≡ none
    → All W.user (users ++ get_username sd s.sessions ∷ [])
NamesKnown W e sd s _ = Unit

module _ (W : Names) (P : Database → Type 0) (step : IsKept W P) (e : Engine) where
  register_user-keeps :
      (hasher : Text → ℕ) (db : Database) (username password email role : Text)
      → W.new username
      → is_role role ≡ true
      → P db
      → P (register_user hasher e db username password email role).0
  unfolding register_user
  register_user-keeps hasher db username password email role w a h =
      exec-keeps W P step e _ db (w, a) h

  update_visibility-keeps :
      (db : Database) (user_id : ℤ) (visibility : Text)
      → is_profile_visibility visibility ≡ true
      → P db
      → P (update_visibility e db user_id visibility).0
  unfolding update_visibility
  update_visibility-keeps db user_id visibility a h = exec-keeps W P step e _ db a h

  send_friend_request-keeps :
      (db : Database) (from to : Text)
      → W.user from × W.user to
      → P db
      → P (send_friend_request e db from to).0
  unfolding send_friend_request
  send_friend_request-keeps db from to w h = exec-keeps W P step e _ db w h

  pub apply_visibility-keeps :
      (db : Database) (user : Option User) (visibility : Text)
      → is_profile_visibility visibility ≡ true
      → P db
      → P (apply_visibility e db user visibility)
  unfolding apply_visibility
  apply_visibility-keeps db none visibility a h = h
  apply_visibility-keeps db (some user) visibility a h = update_visibility-keeps db _ visibility a h

  -- The rules of `Cases`, at a property of the tables.
  pub execute-keeps :
      (hasher : Text → ℕ) (command : Command) (sd : ℕ) (s : App)
      → NamesKnown W e sd s command
      → P s.db
      → P (execute hasher e command sd s).0.db
  unfolding execute
  execute-keeps hasher command sd s names h = by_command command names
    where
      Kept : App → Type 0
      Kept t = P t.db

      by_command :
          (command : Command) → NamesKnown W e sd s command → Kept (execute hasher e command sd s).0
      by_command (Command.login username password) n =
          login_cases Kept s h hasher e username password sd (λ _. h)
      by_command (Command.register username password email role visibility) n =
          let registered = λ (given : is_empty username ≡ false) (a : is_role role ≡ true).
            register_user-keeps hasher s.db username password email role (n given) a h in
          register_cases Kept s h hasher e username password email role visibility registered
            (λ given a b user. apply_visibility-keeps _ user visibility b (registered given a))
      by_command Command.logout n = logout_cases Kept s h sd h
      by_command (Command.set_profile_visibility visibility) n =
          set_profile_visibility_cases Kept s h e sd visibility
            (λ a user_id. update_visibility-keeps s.db user_id visibility a h)
      by_command (Command.friend_request target) n =
          friend_request_cases Kept s h e sd target
            (λ within known. send_friend_request-keeps s.db _ target (n within known) h)
      by_command (Command.accept_friend source) n =
          accept_friend_cases Kept s h e sd source
            (λ within. accept_friend_request-keeps W P step e s.db _ source (n within) h)
      by_command (Command.set_friend_type target type) n =
          set_friend_type_cases Kept s h e sd target type
            (set_friend_type-keeps W P step e s.db _ target type h)
      by_command (Command.create_post visibility content) n =
          create_post_cases Kept s h e sd visibility content
            (λ within. create_post-keeps W P step e s.db _ content visibility (n within) h)
      by_command (Command.chat other_user) n = chat_cases Kept s h e sd other_user (λ within known.
          create_conversation-keeps W P step e s.db _ other_user (n within known) h)
      by_command (Command.open_conversation c) n = open_cases Kept s h e sd c (λ _ _. h)
      by_command (Command.send content) n =
          send_cases Kept s h e sd content
            (λ within _. send_message-keeps W P step e s.db _ _ content (n within) h)
      by_command (Command.add username) n =
          add_cases Kept s h e sd username
            (λ _ known. add_participant-keeps W P step e s.db _ username (n known) h)
      by_command (Command.group users) n =
          group_cases Kept s h e sd users
            (λ within known. create_group_conversation-keeps W P step e s.db _ (n within known) h)
            (λ within known _. create_group_conversation-keeps W P step e s.db _ (n within known) h)
      by_command Command.list_friends n = subst Kept (sym (list_friends_keeps e sd s)) h
      by_command Command.list_friend_requests n =
          subst Kept (sym (list_friend_requests_keeps e sd s)) h
      by_command Command.list_posts n = subst Kept (sym (list_posts_keeps e sd s)) h
      by_command Command.chats n = subst Kept (sym (chats_keeps e sd s)) h
      by_command Command.show n = subst Kept (sym (show_keeps e sd s)) h

pub All-any : (names : List Text) → All (λ _. Unit {0}) names
All-any [] = tt
All-any (name ∷ names) = (tt, All-any names)

-- Where nothing has to be known.
pub no_names :
    (e : Engine) (sd : ℕ) (s : App) (command : Command) → NamesKnown any_names e sd s command
no_names e sd s (Command.register username _ _ _ _) = λ _. tt
no_names e sd s (Command.friend_request target) = λ _ _. (tt, tt)
no_names e sd s (Command.accept_friend source) = λ _ _. (tt, tt)
no_names e sd s (Command.create_post _ _) = λ _. tt
no_names e sd s (Command.send _) = λ _. tt
no_names e sd s (Command.chat other_user) = λ _ _. (tt, tt)
no_names e sd s (Command.add username) = λ _. tt
no_names e sd s (Command.group users) = λ _ _. All-any (users ++ get_username sd s.sessions ∷ [])
no_names e sd s _ = tt

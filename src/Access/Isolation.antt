-- ===== src/Access/Isolation.antt =====
-- server/commands/*.cpp: what a command of one client does to the sessions of the others.
use cpp_social_network_clien.Common.{ℕ, ℤ, ◌≡◌, ◌≢◌, refl, Text, arith, subst, sym}
use cpp_social_network_clien.Database.{Engine}
use cpp_social_network_clien.SessionManager.{find, SessionManager, login, logout, open_conversation}
use cpp_social_network_clien.SessionManager.Laws.{find-put, find-erase}
use cpp_social_network_clien.App.{App}
use cpp_social_network_clien.Command.{Command}
use cpp_social_network_clien.Commands.{execute}
use cpp_social_network_clien.Commands.Cases.{
  login_cases, register_cases, logout_cases, set_profile_visibility_cases, friend_request_cases,
  accept_friend_cases, set_friend_type_cases, create_post_cases, chat_cases, open_cases, send_cases,
  add_cases, group_cases, list_friends_keeps, list_friend_requests_keeps, list_posts_keeps,
  chats_keeps, show_keeps,
}

-- The session of a socket and the conversation that it has open.
pub record SameSession (sd : ℕ) (before after : SessionManager) : Type 0 where
  pub session : find sd after.sessions ≡ find sd before.sessions
  pub conversation : find sd after.current_conversation ≡ find sd before.current_conversation

module _ (sd other : ℕ) (apart : sd ≢ other) (m : SessionManager) where
  login-SameSession : (username : Text) → SameSession other m (login sd username m)
  unfolding login
  login-SameSession username = record {
    session = ground (arith, find-put sd other username m.sessions);
    conversation = refl;
  }

  pub logout-SameSession : SameSession other m (logout sd m)
  unfolding logout
  logout-SameSession = record {
    session = ground (arith, find-erase sd other m.sessions);
    conversation = ground (arith, find-erase sd other m.current_conversation);
  }

  open-SameSession : (c : ℤ) → SameSession other m (open_conversation sd c m)
  unfolding open_conversation
  open-SameSession c = record {
    session = refl;
    conversation = ground (arith, find-put sd other c m.current_conversation);
  }

-- No command of one client, successful or not, touches the session of another socket, or the
-- conversation that it has open.
pub execute-SameSession :
    (hasher : Text → ℕ) (e : Engine) (command : Command) (sd other : ℕ) (s : App)
    → sd ≢ other
    → SameSession other s.sessions (execute hasher e command sd s).0.sessions
unfolding execute
execute-SameSession hasher e command sd other s apart = by_command command
  where
    Kept : App → Type 0
    Kept t = SameSession other s.sessions t.sessions

    same : SameSession other s.sessions s.sessions
    same = record { session = refl; conversation = refl }

    by_command : (command : Command) → Kept (execute hasher e command sd s).0
    by_command (Command.login username password) =
        login_cases Kept s same hasher e username password sd
          (λ _. login-SameSession sd other apart s.sessions username)
    by_command (Command.register username password email role visibility) =
        register_cases Kept s same hasher e username password email role visibility (λ _ _. same)
          (λ _ _ _ _. same)
    by_command Command.logout =
        logout_cases Kept s same sd (logout-SameSession sd other apart s.sessions)
    by_command (Command.set_profile_visibility visibility) =
        set_profile_visibility_cases Kept s same e sd visibility (λ _ _. same)
    by_command (Command.friend_request target) =
        friend_request_cases Kept s same e sd target (λ _ _. same)
    by_command (Command.accept_friend source) =
        accept_friend_cases Kept s same e sd source (λ _. same)
    by_command (Command.set_friend_type target type) =
        set_friend_type_cases Kept s same e sd target type same
    by_command (Command.create_post visibility content) =
        create_post_cases Kept s same e sd visibility content (λ _. same)
    by_command (Command.chat other_user) = chat_cases Kept s same e sd other_user (λ _ _. same)
    by_command (Command.open_conversation c) =
        open_cases Kept s same e sd c (λ _ _. open-SameSession sd other apart s.sessions c)
    by_command (Command.send content) = send_cases Kept s same e sd content (λ _ _. same)
    by_command (Command.add username) = add_cases Kept s same e sd username (λ _ _. same)
    by_command (Command.group users) =
        group_cases Kept s same e sd users (λ _ _. same)
          (λ _ _ _. open-SameSession sd other apart s.sessions _)
    by_command Command.list_friends = subst Kept (sym (list_friends_keeps e sd s)) same
    by_command Command.list_friend_requests =
        subst Kept (sym (list_friend_requests_keeps e sd s)) same
    by_command Command.list_posts = subst Kept (sym (list_posts_keeps e sd s)) same
    by_command Command.chats = subst Kept (sym (chats_keeps e sd s)) same
    by_command Command.show = subst Kept (sym (show_keeps e sd s)) same

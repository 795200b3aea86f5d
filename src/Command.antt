-- ===== src/Command.antt =====
-- The subclasses of `Command` (server/commands/*.h), with the arguments of their constructors.
use cpp_social_network_clien.Common.{List, ℤ, Text}

pub data Command : Type 0 where
  login : Text → Text → Command
  register : Text → Text → Text → Text → Text → Command
  logout : Command
  set_profile_visibility : Text → Command
  friend_request : Text → Command
  accept_friend : Text → Command
  list_friends : Command
  set_friend_type : Text → ℤ → Command
  list_friend_requests : Command
  create_post : ℤ → Text → Command
  list_posts : Command
  chats : Command
  chat : Text → Command
  open_conversation : ℤ → Command
  send : Text → Command
  show : Command
  group : List Text → Command
  add : Text → Command

-- ===== src/Commands.antt =====
-- server/commands/*.cpp: the virtual method `execute` of the commands.
pub mod Account
pub mod Friendship
pub mod Posting
pub mod Messaging
pub mod Cases
pub mod Keeps
pub mod Lasting
pub mod Known
pub mod Guest
pub mod Named
pub mod Registered
use cpp_social_network_clien.Common.{ℕ, Text, text}
use cpp_social_network_clien.Database.{Engine}
use cpp_social_network_clien.Command.{Command}
use cpp_social_network_clien.App.{App, Outcome}
use Account.{execute_register, execute_login, execute_logout, execute_set_profile_visibility}
use Friendship.{
  execute_friend_request, execute_accept_friend, execute_set_friend_type, execute_list_friends,
  execute_list_friend_requests,
}
use Posting.{execute_create_post, execute_list_posts}
use Messaging.{
  execute_chat, execute_chats, execute_open, execute_send, execute_show, execute_group, execute_add,
}

-- command->execute(sd)
unfoldable pub execute : (Text → ℕ) → Engine → Command → ℕ → App → Outcome
execute hasher e (Command.login username password) sd s =
    execute_login hasher e username password sd s
execute hasher e (Command.register username password email role visibility) sd s =
    execute_register hasher e username password email role visibility s
execute hasher e Command.logout sd s = execute_logout sd s
execute hasher e (Command.set_profile_visibility visibility) sd s =
    execute_set_profile_visibility e visibility sd s
execute hasher e (Command.friend_request target) sd s = execute_friend_request e target sd s
execute hasher e (Command.accept_friend source) sd s = execute_accept_friend e source sd s
execute hasher e Command.list_friends sd s = execute_list_friends e sd s
execute hasher e (Command.set_friend_type target type) sd s =
    execute_set_friend_type e target type sd s
execute hasher e Command.list_friend_requests sd s = execute_list_friend_requests e sd s
execute hasher e (Command.create_post visibility content) sd s =
    execute_create_post e visibility content sd s
execute hasher e Command.list_posts sd s = execute_list_posts e sd s
execute hasher e Command.chats sd s = execute_chats e sd s
execute hasher e (Command.chat other_user) sd s = execute_chat e other_user sd s
execute hasher e (Command.open_conversation conversation_id) sd s =
    execute_open e conversation_id sd s
execute hasher e (Command.send content) sd s = execute_send e content sd s
execute hasher e Command.show sd s = execute_show e sd s
execute hasher e (Command.group users) sd s = execute_group e users sd s
execute hasher e (Command.add username) sd s = execute_add e username sd s

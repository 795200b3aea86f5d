-- ===== src/Commands/Guest.antt =====
-- server/commands/*.cpp: what a client that is not logged in can do.
use cpp_social_network_clien.Common.{
  ℕ, Bool, true, false, ◌≡◌, ◌⊎◌, inl, inr, refl, Text, text, arith,
}
use cpp_social_network_clien.Database.{Engine}
use cpp_social_network_clien.SessionManager.{is_authenticated}
use cpp_social_network_clien.App.{App}
use cpp_social_network_clien.Command.{Command}
use cpp_social_network_clien.Commands.{execute}
use cpp_social_network_clien.Commands.Account.{execute_logout, execute_set_profile_visibility}
use cpp_social_network_clien.Commands.Friendship.{
  execute_friend_request, execute_accept_friend, execute_set_friend_type, execute_list_friends,
  execute_list_friend_requests,
}
use cpp_social_network_clien.Commands.Posting.{execute_create_post}
use cpp_social_network_clien.Commands.Messaging.{
  execute_chat, execute_chats, execute_open, execute_send, execute_show, execute_group, execute_add,
}

-- The commands that are for everybody.
abbrev pub is_open_to_guests : Command → Bool
is_open_to_guests (Command.login username password) = true
is_open_to_guests (Command.register username password email role visibility) = true
is_open_to_guests Command.list_posts = true
is_open_to_guests _ = false

-- A client that is not logged in and asks for anything but a login, a registration or the list of
-- posts is turned away, and nothing changes, whatever the database does.
pub execute_guest :
    (hasher : Text → ℕ) (e : Engine) (command : Command) (sd : ℕ) (s : App)
    → is_authenticated sd s.sessions ≡ false
    → is_open_to_guests command ≡ false
    → (execute hasher e command sd s ≡ (s, text "ERROR Not logged in\n"))
      ⊎ (execute hasher e command sd s ≡ (s, text "ERROR Not authenticated"))
unfolding execute execute_logout execute_set_profile_visibility execute_friend_request
    execute_accept_friend execute_set_friend_type execute_list_friends execute_list_friend_requests
    execute_create_post execute_chat execute_chats execute_open execute_send execute_show
    execute_group execute_add
execute_guest hasher e (Command.login username password) sd s out h = absurd (ground arith)
execute_guest hasher e (Command.register username password email role visibility) sd s out h =
    absurd (ground arith)
execute_guest hasher e Command.list_posts sd s out h = absurd (ground arith)
execute_guest hasher e Command.logout sd s out h = inl (rw out refl)
execute_guest hasher e (Command.set_profile_visibility visibility) sd s out h = inl (rw out refl)
execute_guest hasher e (Command.friend_request target) sd s out h = inl (rw out refl)
execute_guest hasher e (Command.accept_friend source) sd s out h = inl (rw out refl)
execute_guest hasher e Command.list_friends sd s out h = inl (rw out refl)
execute_guest hasher e (Command.set_friend_type target type) sd s out h = inl (rw out refl)
execute_guest hasher e Command.list_friend_requests sd s out h = inl (rw out refl)
execute_guest hasher e (Command.create_post visibility content) sd s out h = inl (rw out refl)
execute_guest hasher e Command.chats sd s out h = inr (rw out refl)
execute_guest hasher e (Command.chat other_user) sd s out h = inr (rw out refl)
execute_guest hasher e (Command.open_conversation conversation_id) sd s out h = inr (rw out refl)
execute_guest hasher e (Command.send content) sd s out h = inr (rw out refl)
execute_guest hasher e Command.show sd s out h = inr (rw out refl)
execute_guest hasher e (Command.group users) sd s out h = inr (rw out refl)
execute_guest hasher e (Command.add username) sd s out h = inr (rw out refl)

-- ===== src/Client/Actions.antt =====
-- qt_client: the commands that the windows send, and when. QString::trimmed is a parameter.
pub mod Created
pub mod Meaning
pub mod Executed
use cpp_social_network_clien.Common.{
  ℕ, ℤ, pos, Bool, ◌||◌, Option, none, some, List, ◌∷◌, ◌++◌, Text, text, if◌then◌else◌, is_empty,
}
use cpp_social_network_clien.Decimal.{int_to_string}
use cpp_social_network_clien.Command.{Command}

-- What the user does in a window, with the texts of its fields, or a timer does.
pub data Action : Type 0 where
  click_login : Text → Text → Action
  click_register : Text → Text → Text → Text → Text → Action
  click_logout : Action
  load_friends : Action
  load_posts : Action
  click_add : Text → Action
  load_requests : Action
  click_accept : Text → Action
  send_type : Text → ℤ → Action
  send_post : ℤ → Text → Action
  click_conversation : ℤ → Action
  click_send : Text → Action
  load_messages : Action
  load_conversations : Action
  new_chat : Text → Action
  new_group : Text → Action

-- A space between two fields.
abbrev pub beside : Text → Text → Text
beside s t = s ++ 32 ∷ t

abbrev pub login_text : Text → Text → Text
login_text user pass = text "login " ++ beside user pass

abbrev pub register_text : Text → Text → Text → Text → Text → Text
register_text user pass email role visibility =
    text "register " ++ beside user (beside pass (beside email (beside role visibility)))

abbrev pub post_text : ℤ → Text → Text
post_text visibility content = text "create_post " ++ beside (int_to_string visibility) content

-- The argument of sendCommand in each handler, if it gets that far: an empty field stops it.
abbrev pub login_line : Text → Text → Option Text
login_line username password =
    if is_empty username || is_empty password then none else some (login_text username password)

abbrev pub register_line : Text → Text → Text → Text → Text → Option Text
register_line user pass email role visibility =
    if is_empty user || is_empty pass || is_empty email
    then none
    else some (register_text user pass email role visibility)

abbrev pub add_friend_line : Text → Option Text
add_friend_line username = if is_empty username then none else some (text "add_friend " ++ username)

abbrev pub accept_friend_line : Text → Option Text
accept_friend_line line = some (text "accept_friend " ++ line)

abbrev pub friend_type_line : Text → ℤ → Option Text
friend_type_line friend_user type =
    some (text "set_friend_type " ++ beside friend_user (int_to_string type))

-- With the text that is trimmed.
abbrev pub create_post_line : ℤ → Text → Option Text
create_post_line vis content = if is_empty content then none else some (post_text vis content)

abbrev pub open_line : ℤ → Option Text
open_line conversation_id = some (text "open " ++ int_to_string conversation_id)

abbrev pub send_line : Text → Option Text
send_line message = if is_empty message then none else some (text "send " ++ message)

abbrev pub new_chat_line : Text → Option Text
new_chat_line user = if is_empty user then none else some (text "chat " ++ user)

abbrev pub new_group_line : Text → Option Text
new_group_line users = if is_empty users then none else some (text "group " ++ users)

abbrev pub logout_text : Text
logout_text = text "logout"

abbrev pub friends_text : Text
friends_text = text "list_friends"

abbrev pub posts_text : Text
posts_text = text "list_posts"

abbrev pub requests_text : Text
requests_text = text "list_friend_requests"

abbrev pub show_text : Text
show_text = text "show"

abbrev pub chats_text : Text
chats_text = text "chats"

-- The line of an action, from those of the windows.
unfoldable pub sent_line : (Text → Text) → Action → Option Text
sent_line trimmed (click_login username password) = login_line username password
sent_line trimmed (click_register user pass email role visibility) =
    register_line user pass email role visibility
sent_line trimmed click_logout = some logout_text
sent_line trimmed load_friends = some friends_text
sent_line trimmed load_posts = some posts_text
sent_line trimmed (click_add username) = add_friend_line username
sent_line trimmed load_requests = some requests_text
sent_line trimmed (click_accept line) = accept_friend_line line
sent_line trimmed (send_type friend_user type) = friend_type_line friend_user type
sent_line trimmed (send_post vis content) = create_post_line vis (trimmed content)
sent_line trimmed (click_conversation conversation_id) = open_line conversation_id
sent_line trimmed (click_send input) = send_line (trimmed input)
sent_line trimmed load_messages = some show_text
sent_line trimmed load_conversations = some chats_text
sent_line trimmed (new_chat user) = new_chat_line user
sent_line trimmed (new_group users) = new_group_line users

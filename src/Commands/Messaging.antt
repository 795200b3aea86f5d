-- ===== src/Commands/Messaging.antt =====
-- server/commands: ChatCommand, ChatsCommand, OpenCommand, SendCommand, ShowCommand, GroupCommand
-- and AddCommand.
use cpp_social_network_clien.Common.{
  ℕ, Bool, true, false, not, Option, none, some, List, [], ◌∷◌, ◌++◌, ℤ, pos, negsuc, Text, text,
  newline, ◌==◌, text_eq, int_eq, if◌then◌else◌, is_empty,
}
use cpp_social_network_clien.Decimal.{int_to_string}
use cpp_social_network_clien.Database.{Database, Engine}
use cpp_social_network_clien.Database.Users.{get_user_by_username}
use cpp_social_network_clien.Database.Messages.{
  Message, is_participant, add_participant, send_message, get_messages,
  get_conversation_participants, get_private_conversation, create_conversation,
  create_group_conversation, get_user_conversations,
}
use cpp_social_network_clien.SessionManager
use cpp_social_network_clien.SessionManager.{
  is_authenticated, get_username, get_current_conversation,
}
use cpp_social_network_clien.App.{App, Outcome}

abbrev pub is_known : Engine → Database → Text → Bool
is_known e db username = elim (get_user_by_username e db username) [ none ↦ false | some _ ↦ true ]

abbrev pub is_negative : ℤ → Bool
is_negative (pos n) = false
is_negative (negsuc n) = true

unfoldable pub execute_chat : Engine → Text → ℕ → App → Outcome
execute_chat e other_user client_sd s =
    let username = get_username client_sd s.sessions in
    let (created, conversation_id) = create_conversation e s.db username other_user in
    if not (is_authenticated client_sd s.sessions)
    then (s, text "ERROR Not authenticated")
    else if username == other_user
    then (s, text "ERROR Cannot chat with yourself")
    else if not (is_known e s.db other_user)
    then (s, text "ERROR User does not exist")
    else elim (get_private_conversation e s.db username other_user) [
      | some existing ↦
          (s, text "OK Chat already exists. conversation_id = " ++ int_to_string existing)
      | none ↦
          if is_negative conversation_id
          then (record s { db = created }, text "ERROR Failed to create chat")
          else (
            record s { db = created },
            text "OK Private chat created. conversation_id = " ++ int_to_string conversation_id,
          )
    ]

-- The names of the participants with ", " between them.
unfoldable pub comma_separated : List Text → Text
comma_separated [] = []
comma_separated (u ∷ []) = u
comma_separated (u ∷ v ∷ users) = u ++ text ", " ++ comma_separated (v ∷ users)

unfoldable pub chat_lines : Engine → Database → List ℤ → Text
unfolding comma_separated
chat_lines e db [] = []
chat_lines e db (conv_id ∷ conversations) =
    text "["
    ++ int_to_string conv_id
    ++ text "] "
    ++ comma_separated (get_conversation_participants e db conv_id)
    ++ newline
    ++ chat_lines e db conversations

unfoldable pub execute_chats : Engine → ℕ → App → Outcome
unfolding chat_lines
execute_chats e client_sd s =
    let conversations = get_user_conversations e s.db (get_username client_sd s.sessions) in
    if not (is_authenticated client_sd s.sessions)
    then (s, text "ERROR Not authenticated")
    else if is_empty conversations
    then (s, text "No conversations")
    else (s, chat_lines e s.db conversations)

unfoldable pub execute_open : Engine → ℤ → ℕ → App → Outcome
execute_open e conversation_id client_sd s =
    if not (is_authenticated client_sd s.sessions)
    then (s, text "ERROR Not authenticated")
    else if not (is_participant e s.db conversation_id (get_username client_sd s.sessions))
    then (s, text "ERROR You are not a participant in this conversation")
    else (
      record s { sessions = SessionManager.open_conversation client_sd conversation_id s.sessions },
      text "OK Opened conversation " ++ int_to_string conversation_id,
    )

unfoldable pub execute_send : Engine → Text → ℕ → App → Outcome
execute_send e content client_sd s =
    let conversation_id = get_current_conversation client_sd s.sessions in
    let username = get_username client_sd s.sessions in
    let (sent, ok) = send_message e s.db conversation_id username content in
    if not (is_authenticated client_sd s.sessions)
    then (s, text "ERROR Not authenticated")
    else if conversation_id == negsuc 0
    then (s, text "ERROR No open conversation")
    else if not ok
    then (record s { db = sent }, text "ERROR Failed to send message")
    else (record s { db = sent }, text "OK Message sent")

unfoldable pub message_lines : List Message → Text
message_lines [] = []
message_lines (m ∷ messages) =
    text "[" ++ m.sender ++ text "] " ++ m.content ++ newline ++ message_lines messages

unfoldable pub execute_show : Engine → ℕ → App → Outcome
unfolding message_lines
execute_show e client_sd s =
    let conversation_id = get_current_conversation client_sd s.sessions in
    let messages = get_messages e s.db conversation_id in
    if not (is_authenticated client_sd s.sessions)
    then (s, text "ERROR Not authenticated")
    else if conversation_id == negsuc 0
    then (s, text "ERROR No open conversation")
    else if is_empty messages
    then (s, text "No messages")
    else (s, message_lines messages)

-- The first of the users that the database does not know.
unfoldable pub first_unknown : Engine → Database → List Text → Option Text
first_unknown e db [] = none
first_unknown e db (u ∷ users) =
    let rest = first_unknown e db users in if not (is_known e db u) then some u else rest

unfoldable pub execute_group : Engine → List Text → ℕ → App → Outcome
unfolding first_unknown
execute_group e users client_sd s =
    let me = get_username client_sd s.sessions in
    let all_users = users ++ me ∷ [] in
    let (created, conv) = create_group_conversation e s.db all_users in
    if not (is_authenticated client_sd s.sessions)
    then (s, text "ERROR Not authenticated")
    else elim (first_unknown e s.db all_users) [
      | some u ↦ (s, text "ERROR User does not exist: " ++ u)
      | none ↦
          if conv == negsuc 0
          then (record s { db = created }, text "ERROR Failed to create group")
          else (
            record {
              db = created;
              sessions = SessionManager.open_conversation client_sd conv s.sessions;
            },
            text "OK Group created. conversation_id = " ++ int_to_string conv,
          )
    ]

unfoldable pub execute_add : Engine → Text → ℕ → App → Outcome
execute_add e username client_sd s =
    let conv = get_current_conversation client_sd s.sessions in
    let (added, ok) = add_participant e s.db conv username in
    if not (is_authenticated client_sd s.sessions)
    then (s, text "ERROR Not authenticated")
    else if conv == negsuc 0
    then (s, text "ERROR No open conversation")
    else if not (is_known e s.db username)
    then (s, text "ERROR User does not exist")
    else if not ok
    then (record s { db = added }, text "ERROR Failed to add user")
    else (record s { db = added }, text "OK User added to group")

-- ===== src/Database/Messages.antt =====
-- server/Database.cpp: conversations, their participants and their messages.
pub mod Private
pub mod Listing
use cpp_social_network_clien.Common.{
  ℕ, Bool, true, false, not, ◌&&◌, ◌||◌, Option, none, some, List, [], ◌∷◌, ◌++◌, map, ℤ, pos,
  negsuc, to_int, Text, text_leb, ◌==◌, nat_eq, int_eq, text_eq, ltb, if◌then◌else◌, length, first,
  is_empty, any, count, select, order_by,
}
use cpp_social_network_clien.Database.{
  Database, ConversationRow, ParticipantRow, MessageRow, Engine, insert_conversation,
  check_participant, insert_participant, insert_message, select_messages, select_participants,
  select_private_conversation, select_user_conversations, exec, query,
}

pub record Message : Type 0 where
  pub message_id : ℤ
  pub conversation_id : ℤ
  pub sender : Text
  pub content : Text
  pub sent_at : Text

-- WHERE conversation_id = ? AND username = ?
abbrev pub member : ℤ → Text → ParticipantRow → Bool
member conversation_id username r = r.conversation_id == conversation_id && r.username == username

unfoldable pub is_participant : Engine → Database → ℤ → Text → Bool
is_participant e db conversation_id username = not (
    is_empty (
      query e (check_participant conversation_id username) db
        (select (member conversation_id username) db.participants)))

unfoldable pub add_participant : Engine → Database → ℤ → Text → Database × Bool
add_participant e db conversation_id username =
    if is_participant e db conversation_id username
    then (db, true)
    else exec e (insert_participant conversation_id username) db

unfoldable pub send_message : Engine → Database → ℤ → Text → Text → Database × Bool
send_message e db conversation_id sender content =
    if not (is_participant e db conversation_id sender)
    then (db, false)
    else exec e (insert_message conversation_id sender content) db

-- ORDER BY sent_at
abbrev pub earlier : MessageRow → MessageRow → Bool
earlier m n = text_leb m.sent_at n.sent_at

abbrev pub to_message : ℤ → MessageRow → Message
to_message conversation_id m = record {
  message_id = to_int m.message_id;
  conversation_id = conversation_id;
  sender = m.sender_username;
  content = m.content;
  sent_at = m.sent_at;
}

unfoldable pub get_messages : Engine → Database → ℤ → List Message
get_messages e db conversation_id = map (to_message conversation_id) (
    order_by earlier (
      query e (select_messages conversation_id) db
        (select (λ m. m.conversation_id == conversation_id) db.messages)))

unfoldable pub get_conversation_participants : Engine → Database → ℤ → List Text
get_conversation_participants e db conversation_id =
    map (λ r. r.username)
      (query e (select_participants conversation_id) db
        (select (λ r. r.conversation_id == conversation_id) db.participants))

-- The conversations of cp1 JOIN cp2, one entry for each pair of rows that the WHERE clause keeps.
unfoldable pub join_with : Text → Text → ParticipantRow → List ParticipantRow → List ℤ
join_with user1 user2 cp1 [] = []
join_with user1 user2 cp1 (cp2 ∷ rows) =
    let rest = join_with user1 user2 cp1 rows in
    if cp1.conversation_id == cp2.conversation_id && cp1.username == user1 && cp2.username == user2
    then cp1.conversation_id ∷ rest
    else rest

unfoldable pub join : Text → Text → List ParticipantRow → List ParticipantRow → List ℤ
unfolding join_with
join user1 user2 [] table = []
join user1 user2 (cp1 ∷ rows) table = join_with user1 user2 cp1 table ++ join user1 user2 rows table

-- GROUP BY conversation_id HAVING COUNT(*) = n: one entry for each group of that size.
unfoldable pub groups_of_size : ℕ → List ℤ → List ℤ → List ℤ
groups_of_size n joined [] = []
groups_of_size n joined (c ∷ rest) =
    let later = groups_of_size n joined rest in
    if count (λ d. d == c) joined == n && not (any (λ d. d == c) rest) then c ∷ later else later

unfoldable pub get_private_conversation : Engine → Database → Text → Text → Option ℤ
unfolding join groups_of_size
get_private_conversation e db user1 user2 = first (
    query e (select_private_conversation user1 user2) db (
      let joined = join user1 user2 db.participants db.participants in
      groups_of_size 2 joined joined))

-- The new rowid, as `sqlite3_last_insert_rowid` returns it into an `int`.
abbrev pub last_insert_rowid : Database → ℤ
last_insert_rowid db = to_int db.conversation_seq

unfoldable pub create_conversation : Engine → Database → Text → Text → Database × ℤ
create_conversation e db user1 user2 =
    let (created, done) = exec e insert_conversation db in
    let conversation_id = last_insert_rowid created in
    let (with_first, _) = add_participant e created conversation_id user1 in
    let (with_both, _) = add_participant e with_first conversation_id user2 in
    if done then (with_both, conversation_id) else (created, negsuc 0)

-- for (const auto &user : users) addParticipant(conversation_id, user);
unfoldable pub add_participants : Engine → Database → ℤ → List Text → Database
add_participants e db conversation_id [] = db
add_participants e db conversation_id (user ∷ users) =
    add_participants e (add_participant e db conversation_id user).0 conversation_id users

unfoldable pub create_group_conversation : Engine → Database → List Text → Database × ℤ
unfolding add_participants
create_group_conversation e db users =
    if ltb (length users) 2
    then (db, negsuc 0)
    else (let (created, done) = exec e insert_conversation db in
        let conversation_id = last_insert_rowid created in
        if done
        then (add_participants e created conversation_id users, conversation_id)
        else (created, negsuc 0))

-- The rows of conversation_participants JOIN conversations for one row of the first table: the
-- selected column and the one that orders.
unfoldable pub join_conversations : ParticipantRow → List ConversationRow → List (ℤ × Text)
join_conversations cp conversations =
    map (λ c. (cp.conversation_id, c.created_at))
      (select (λ c. pos c.conversation_id == cp.conversation_id) conversations)

unfoldable pub user_conversation_rows : Database → Text → List ParticipantRow → List (ℤ × Text)
unfolding join_conversations
user_conversation_rows db username [] = []
user_conversation_rows db username (cp ∷ rows) =
    let rest = user_conversation_rows db username rows in
    if cp.username == username then join_conversations cp db.conversations ++ rest else rest

-- ORDER BY c.created_at DESC
abbrev pub newer_conversation : ℤ × Text → ℤ × Text → Bool
newer_conversation c d = text_leb d.1 c.1

unfoldable pub get_user_conversations : Engine → Database → Text → List ℤ
unfolding user_conversation_rows
get_user_conversations e db username =
    map (λ c. c.0)
      (order_by newer_conversation (
        query e (select_user_conversations username) db
          (user_conversation_rows db username db.participants)))

-- ===== src/Database/Tables.antt =====
-- server/Database.cpp, `initDatabase`: the rows of the tables, and the conditions and changes of
-- rows that the SQL statements are made of.
use cpp_social_network_clien.Common.{
  ℕ, Bool, ◌&&◌, List, [], ℤ, pos, Text, text, ◌==◌, nat_eq, int_eq, text_eq, if◌then◌else◌,
}

pub record UserRow : Type 0 where
  pub user_id : ℕ
  pub username : Text
  pub password : Text
  pub email : Text
  pub user_type : Text
  pub profile_visibility : Text

-- `friend_type` is 0 normal, 1 close, 2 acquaintance; `status` is 0 pending, 1 accepted.
pub record FriendRow : Type 0 where
  pub user_username : Text
  pub friend_username : Text
  pub friend_type : ℤ
  pub status : ℤ

-- `visibility` is 0 public, 1 friends, 2 close friends.
pub record PostRow : Type 0 where
  pub post_id : ℕ
  pub author_username : Text
  pub content : Text
  pub visibility : ℤ
  pub created_at : Text

pub record ConversationRow : Type 0 where
  pub conversation_id : ℕ
  pub created_at : Text

pub record ParticipantRow : Type 0 where
  pub conversation_id : ℤ
  pub username : Text
  pub joined_at : Text

pub record MessageRow : Type 0 where
  pub message_id : ℕ
  pub conversation_id : ℤ
  pub sender_username : Text
  pub content : Text
  pub sent_at : Text

-- The tables, in the order of insertion, and the last key that AUTOINCREMENT gave out in each.
pub record Database : Type 0 where
  pub users : List UserRow
  pub friends : List FriendRow
  pub posts : List PostRow
  pub conversations : List ConversationRow
  pub participants : List ParticipantRow
  pub messages : List MessageRow
  pub user_seq : ℕ
  pub post_seq : ℕ
  pub conversation_seq : ℕ
  pub message_seq : ℕ

-- The tables that `initDatabase` creates in a new file.
abbrev pub init_database : Database
init_database = record {
  users = [];
  friends = [];
  posts = [];
  conversations = [];
  participants = [];
  messages = [];
  user_seq = 0;
  post_seq = 0;
  conversation_seq = 0;
  message_seq = 0;
}

-- WHERE user_username = ? AND friend_username = ?
abbrev pub between : Text → Text → FriendRow → Bool
between user friend r = r.user_username == user && r.friend_username == friend

-- AND status = 1
abbrev pub accepted : FriendRow → Bool
accepted r = r.status == pos 1

-- AND status = 0
abbrev pub pending : FriendRow → Bool
pending r = r.status == pos 0

abbrev pub set_status : Text → Text → FriendRow → FriendRow
set_status user friend r = if between user friend r then record r { status = pos 1 } else r

abbrev pub set_type : ℤ → Text → Text → FriendRow → FriendRow
set_type type user friend r =
    if between user friend r && accepted r then record r { friend_type = type } else r

abbrev pub set_visibility : Text → ℤ → UserRow → UserRow
set_visibility visibility user_id r =
    if pos r.user_id == user_id then record r { profile_visibility = visibility } else r

-- The rows that INSERT adds, with the columns that it leaves to their defaults.
abbrev pub new_user : ℕ → Text → Text → Text → Text → UserRow
new_user user_id username password email user_type = record {
  user_id = user_id;
  username = username;
  password = password;
  email = email;
  user_type = user_type;
  profile_visibility = text "public";
}

abbrev pub new_friend : Text → Text → ℤ → FriendRow
new_friend user friend status = record {
  user_username = user;
  friend_username = friend;
  friend_type = pos 0;
  status = status;
}

abbrev pub new_post : ℕ → Text → Text → ℤ → Text → PostRow
new_post post_id author content visibility now = record {
  post_id = post_id;
  author_username = author;
  content = content;
  visibility = visibility;
  created_at = now;
}

abbrev pub new_participant : ℤ → Text → Text → ParticipantRow
new_participant conversation_id username now = record {
  conversation_id = conversation_id;
  username = username;
  joined_at = now;
}

abbrev pub new_message : ℕ → ℤ → Text → Text → Text → MessageRow
new_message message_id conversation_id sender content now = record {
  message_id = message_id;
  conversation_id = conversation_id;
  sender_username = sender;
  content = content;
  sent_at = now;
}

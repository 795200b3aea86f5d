-- ===== src/Examples/Setting.antt =====
-- A small network, and SQLite without errors and with nothing but errors.
use cpp_social_network_clien.Common.{
  ℕ, refl, true, false, [], ◌∷◌, pos, Text, text, length, any, all, distinct, text_beq,
}
use cpp_social_network_clien.Database.{
  Database, UserRow, FriendRow, PostRow, MessageRow, Engine, IsSound, IsReliable, new_participant,
}
use cpp_social_network_clien.Database.Integrity.{IsValid}
use cpp_social_network_clien.SessionManager.{
  login, open_conversation, no_sessions, is_authenticated, find, put, erase, get_username,
}
use cpp_social_network_clien.App.{App}
use cpp_social_network_clien.Access.{IsConsistent, IsConsistent-login, IsConsistent-open}
use cpp_social_network_clien.Server.Reach.{no_sessions-IsConsistent}

abbrev pub ideal : Engine
ideal = record {
  now = text "2024-05-02 10:00:00";
  prepares = λ _ _. true;
  steps = λ _ _. true;
  deliver = λ A q db rows. rows;
}

pub ideal-IsReliable : IsReliable ideal
ideal-IsReliable = record {
  sound = record { deliver_all = λ A q db p rows h. h };
  prepared = λ q db. refl;
  stepped = λ q db. refl;
  deliver_any = λ A q db p rows h. h;
}

abbrev pub broken : Engine
broken = record {
  now = text "2024-05-02 10:00:00";
  prepares = λ _ _. false;
  steps = λ _ _. false;
  deliver = λ A q db rows. [];
}

pub broken-IsSound : IsSound broken
unfolding all
broken-IsSound = record { deliver_all = λ A q db p rows h. refl }

abbrev pub hasher : Text → ℕ
hasher = length

abbrev pub ada_row : UserRow
ada_row = record {
  user_id = 1;
  username = text "ada";
  password = text "4";
  email = text "ada@mail";
  user_type = text "normal";
  profile_visibility = text "public";
}

abbrev pub bob_row : UserRow
bob_row = record {
  user_id = 2;
  username = text "bob";
  password = text "6";
  email = text "bob@mail";
  user_type = text "admin";
  profile_visibility = text "private";
}

-- Ada counts Bob as a close friend.
abbrev pub ada_bob : FriendRow
ada_bob = record {
  user_username = text "ada";
  friend_username = text "bob";
  friend_type = pos 1;
  status = pos 1;
}

abbrev bob_ada : FriendRow
bob_ada = record {
  user_username = text "bob";
  friend_username = text "ada";
  friend_type = pos 0;
  status = pos 1;
}

abbrev cyd_ada : FriendRow
cyd_ada = record {
  user_username = text "cyd";
  friend_username = text "ada";
  friend_type = pos 0;
  status = pos 0;
}

-- A post of Ada's for close friends.
abbrev pub diary : PostRow
diary = record {
  post_id = 2;
  author_username = text "ada";
  content = text "for you";
  visibility = pos 2;
  created_at = text "2024-05-01 09:00:00";
}

abbrev news : PostRow
news = record {
  post_id = 1;
  author_username = text "ada";
  content = text "hello";
  visibility = pos 0;
  created_at = text "2024-05-01 08:00:00";
}

abbrev hello : MessageRow
hello = record {
  message_id = 1;
  conversation_id = pos 1;
  sender_username = text "bob";
  content = text "hi";
  sent_at = text "2024-05-01 11:00:00";
}

abbrev pub town : Database
town = record {
  users = ada_row ∷ bob_row ∷ [];
  friends = ada_bob ∷ bob_ada ∷ cyd_ada ∷ [];
  posts = news ∷ diary ∷ [];
  conversations = record { conversation_id = 1; created_at = text "2024-05-01 10:00:00" } ∷ [];
  participants =
      new_participant (pos 1) (text "ada") (text "2024-05-01 10:00:00")
      ∷ new_participant (pos 1) (text "bob") (text "2024-05-01 10:00:00")
      ∷ [];
  messages = hello ∷ [];
  user_seq = 2;
  post_seq = 2;
  conversation_seq = 1;
  message_seq = 1;
}

pub town-IsValid : IsValid town
unfolding distinct all any text_beq
town-IsValid = record {
  usernames = refl;
  emails = refl;
  user_ids = refl;
  user_ids_given = refl;
  pairs = refl;
  members = refl;
}

abbrev pub evening : App
evening = record { db = town; sessions = no_sessions }

pub evening-IsConsistent : IsConsistent evening
evening-IsConsistent = no_sessions-IsConsistent town

-- Ada on socket 5.
abbrev pub ada_online : App
ada_online = record { db = town; sessions = login 5 (text "ada") no_sessions }

-- With the conversation open.
abbrev pub ada_chatting : App
ada_chatting = record {
  db = town;
  sessions = open_conversation 5 (pos 1) (login 5 (text "ada") no_sessions);
}

pub ada_chatting-IsConsistent : IsConsistent ada_chatting
unfolding is_authenticated find login put erase get_username any text_beq
ada_chatting-IsConsistent =
    IsConsistent-open ada_online 5 (pos 1) refl refl
      (IsConsistent-login evening 5 (text "ada") refl evening-IsConsistent)

-- ===== src/Access/Chatting.antt =====
-- ChatCommand and ShowCommand: what a chat creates, and in which order it is shown.
use cpp_social_network_clien.Common.{
  eq_apart, ℕ, suc, ◌+◌, ◌<◌, ◌^◌, ℤ, pos, Bool, true, false, not, ◌≡◌, ◌≢◌, refl, ◌∙◌, [], ◌∷◌,
  ◌++◌, Text, text, arith, any, any-append, Has, int_eq, text_eq, ◌==◌, to_int_lem, text_beq_iff,
  text_leb, text_leb_total, text_leb_trans, IsOrdered, IsOrdered-map, order_by-IsOrdered,
  any-false_mono,
}
use cpp_social_network_clien.Decimal.{int_to_string}
use cpp_social_network_clien.Database.{
  Database, UserRow, Engine, IsReliable, perform, insert_conversation, insert_participant,
  new_participant,
}
use cpp_social_network_clien.Database.Integrity.{IsValid}
use cpp_social_network_clien.Database.Queries.{is_participant-any, exec_reliable}
use cpp_social_network_clien.Database.Messages.{
  member, earlier, get_messages, add_participant, create_conversation,
}
use cpp_social_network_clien.Database.Messages.Private.{get_private_conversation-none}
use cpp_social_network_clien.SessionManager.{is_authenticated, get_username}
use cpp_social_network_clien.App.{App}
use cpp_social_network_clien.Commands.Known.{is_known-registered}
use cpp_social_network_clien.Commands.Messaging.{execute_chat}

-- The messages of a conversation are returned in order of time, oldest first, in whatever order
-- SQLite finds the rows.
pub messages_oldest_first :
    (e : Engine) (db : Database) (c : ℤ)
    → IsOrdered (λ m n. text_leb m.sent_at n.sent_at) (get_messages e db c)
unfolding get_messages
messages_oldest_first e db c = IsOrdered-map _ _ _ (
    order_by-IsOrdered earlier (λ a b. text_leb_total a.sent_at b.sent_at)
      (λ x y z. text_leb_trans x.sent_at y.sent_at z.sent_at) _)

-- The database with one more conversation, of two users.
abbrev pub with_chat : Text → Database → Text → Text → Database
with_chat now db user1 user2 = record db {
  conversations =
      db.conversations
      ++ record { conversation_id = suc db.conversation_seq; created_at = now } ∷ [];
  conversation_seq = suc db.conversation_seq;
  participants =
      (db.participants ++ new_participant (pos (suc db.conversation_seq)) user1 now ∷ [])
      ++ new_participant (pos (suc db.conversation_seq)) user2 now ∷ [];
}

-- Nobody takes part in the conversation whose number comes next.
abbrev pub is_next_unused : Database → Bool
is_next_unused db =
    not (any (λ r. r.conversation_id == pos (suc db.conversation_seq)) db.participants)

add_participant_new :
    (e : Engine) (db : Database) (c : ℤ) (u : Text)
    → IsReliable e
    → any (member c u) db.participants ≡ false
    → add_participant e db c u
      ≡ (record db { participants = db.participants ++ new_participant c u e.now ∷ [] }, true)
unfolding add_participant
add_participant_new e db c u reliable fresh =
    rw (is_participant-any e db c u reliable, fresh)
      (exec_reliable e (insert_participant c u) db
        (record db { participants = db.participants ++ new_participant c u e.now ∷ [] }) reliable
        (unfold perform in rw fresh))

no_member :
    (db : Database) (u : Text)
    → is_next_unused db ≡ true
    → any (member (pos (suc db.conversation_seq)) u) db.participants ≡ false
no_member db u unused =
    any-false_mono _ (λ r. r.conversation_id == pos (suc db.conversation_seq)) db.participants
      (λ r h. ground arith) (ground arith)

-- The participants of the new conversation, one after the other.
first_added :
    (now : Text) (db : Database) (user1 user2 : Text)
    → user1 ≢ user2
    → is_next_unused db ≡ true
    → any
        (member (pos (suc db.conversation_seq)) user2)
        (db.participants ++ new_participant (pos (suc db.conversation_seq)) user1 now ∷ [])
      ≡ false
unfolding any
first_added now db user1 user2 apart unused =
    any-append _ db.participants _
    ∙ ground (arith, no_member db user2 unused, text_beq_iff user1 user2)

create_conversation_eq :
    (e : Engine) (db : Database) (user1 user2 : Text)
    → IsReliable e
    → user1 ≢ user2
    → is_next_unused db ≡ true
    → db.conversation_seq + 1 < 2 ^ 31
    → create_conversation e db user1 user2
      ≡ (with_chat e.now db user1 user2, pos (suc db.conversation_seq))
unfolding create_conversation
create_conversation_eq e db user1 user2 reliable apart unused small =
    rw
      (
        exec_reliable e insert_conversation db created reliable (unfold perform in refl),
        to_int_lem (suc db.conversation_seq) (omega arith),
        add_participant_new e created (pos (suc db.conversation_seq)) user1 reliable
            (no_member db user1 unused),
        add_participant_new e with_first (pos (suc db.conversation_seq)) user2 reliable
            (first_added e.now db user1 user2 apart unused),
      )
      refl
  where
    created : Database
    created = record db {
      conversations =
          db.conversations
          ++ record { conversation_id = suc db.conversation_seq; created_at = e.now } ∷ [];
      conversation_seq = suc db.conversation_seq;
    }

    with_first : Database
    with_first = record created {
      participants =
          db.participants ++ new_participant (pos (suc db.conversation_seq)) user1 e.now ∷ [];
    }

-- In a database with unique keys, whose next conversation id is below 2^31 and has no
-- participants, without a database error, a client that is logged in and asks for a chat with
-- another user who is registered gets a new conversation of the two, even if they have one
-- already.
pub execute_chat_creates :
    (e : Engine) (other : UserRow) (sd : ℕ) (s : App)
    → IsReliable e
    → IsValid s.db
    → Has other s.db.users
    → is_authenticated sd s.sessions ≡ true
    → get_username sd s.sessions ≢ other.username
    → is_next_unused s.db ≡ true
    → s.db.conversation_seq + 1 < 2 ^ 31
    → execute_chat e other.username sd s ≡ (
      record s { db = with_chat e.now s.db (get_username sd s.sessions) other.username },
      text "OK Private chat created. conversation_id = "
          ++ int_to_string (pos (suc s.db.conversation_seq)),
    )
unfolding execute_chat
execute_chat_creates e other sd s reliable v there within apart unused small =
    rw
      (
        within,
        eq_apart (get_username sd s.sessions) other.username apart,
        is_known-registered e other s.db reliable v there,
        get_private_conversation-none e s.db (get_username sd s.sessions) other.username
            reliable.sound v,
        create_conversation_eq e s.db (get_username sd s.sessions) other.username reliable apart
            unused small,
      )
      refl

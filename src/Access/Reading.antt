-- ===== src/Access/Reading.antt =====
-- SendCommand and ShowCommand: who reads and who writes the messages of a conversation.
use cpp_social_network_clien.Common.{
  eq_apart, ℕ, suc, ℤ, negsuc, Bool, true, ◌&&◌, ◌≡◌, ◌≢◌, refl, ◌∙◌, ◌⊎◌, inl, inr, List, [], ◌∷◌,
  ◌++◌, Text, text, arith, any, Has-any, Has-select, all_of_Has, All, All-map, All-of_all,
  all-order_by, any-map, any-order_by, any-select, any-snoc, ◌==◌, int_eq, text_eq, int_beq_iff,
  eq_refl, if◌then◌else◌, is_empty, Bool-cases,
}
use cpp_social_network_clien.Database.{
  Database, MessageRow, Engine, IsSound, IsReliable, insert_message, select_messages, perform,
  new_message,
}
use cpp_social_network_clien.Database.Growth.{Grows}
use cpp_social_network_clien.Database.Queries.{
  query-all, any-query, is_participant-any, exec_reliable,
}
use cpp_social_network_clien.Database.Messages.{
  Message, member, earlier, to_message, get_messages, send_message,
}
use cpp_social_network_clien.SessionManager.{
  is_authenticated, get_username, get_current_conversation,
}
use cpp_social_network_clien.App.{App}
use cpp_social_network_clien.Commands.Messaging.{execute_send, execute_show, message_lines}
use cpp_social_network_clien.Access.{IsConsistent, current_conversation-MayUse}

-- A message that was stored in a conversation.
abbrev pub StoredIn : Database → ℤ → Message → Type 0
StoredIn db c m =
    any (λ r. r.conversation_id == c && (r.sender_username == m.sender && r.content == m.content))
      db.messages
    ≡ true

-- Whatever SQLite delivers, the messages of a conversation were stored in that conversation.
get_messages-StoredIn :
    (e : Engine) (db : Database) (c : ℤ) → IsSound e → All (StoredIn db c) (get_messages e db c)
unfolding get_messages
get_messages-StoredIn e db c s = All-map (to_message c) (StoredIn db c) _ (
    All-of_all stored (λ r. StoredIn db c (to_message c r)) _ (λ r h. h)
      (all-order_by earlier stored _
        ∙ query-all e (select_messages c) db stored _ s (
            all_of_Has stored _ (λ r there.
              let (in_table, in_c) = Has-select (λ m. m.conversation_id == c) r db.messages there in
              Has-any _ r db.messages in_table
                (rw (in_c, eq_refl r.sender_username, eq_refl r.content))))))
  where
    stored : MessageRow → Bool
    stored r =
        any
          (λ q.
            q.conversation_id == c
            && (q.sender_username == r.sender_username && q.content == r.content))
          db.messages

-- The reply to `show` for the messages of a conversation.
abbrev pub shown : List Message → Text
shown messages = if is_empty messages then text "No messages" else message_lines messages

-- In a state where open conversations belong to participants, and whatever rows of the right ones
-- SQLite delivers, a client that asks to be shown messages is told that it is not authenticated or
-- has no open conversation, or is shown the messages of the conversation that it has open, which
-- its user takes part in, each of them stored in that conversation with this sender and content.
pub execute_show_confidential :
    (e : Engine) (sd : ℕ) (s : App)
    → IsSound e
    → IsConsistent s
    → let c = get_current_conversation sd s.sessions in
      ((execute_show e sd s).1 ≡ text "ERROR Not authenticated")
      ⊎ ((execute_show e sd s).1 ≡ text "ERROR No open conversation")
      ⊎ ((any (member c (get_username sd s.sessions)) s.db.participants ≡ true)
          × All (StoredIn s.db c) (get_messages e s.db c)
          × ((execute_show e sd s).1 ≡ shown (get_messages e s.db c)))
unfolding execute_show
execute_show_confidential e sd s sound v = elim (Bool-cases (is_authenticated sd s.sessions)) [
  | inr out ↦ inl (ground arith)
  | inl within ↦ elim (Bool-cases (get_current_conversation sd s.sessions == negsuc 0)) [
    | inl closed ↦ inr (inl (ground arith))
    | inr opened ↦
        let c = get_current_conversation sd s.sessions in
        inr (
          inr (
            current_conversation-MayUse s sd v (λ h. ground (arith, int_beq_iff c (negsuc 0))),
            get_messages-StoredIn e s.db c sound,
            ground arith,
          ))
  ]
]

-- The database with one more message.
abbrev pub with_message : Text → Database → ℤ → Text → Text → Database
with_message now db c sender content = record db {
  messages = db.messages ++ new_message (suc db.message_seq) c sender content now ∷ [];
  message_seq = suc db.message_seq;
}

send_message_eq :
    (e : Engine) (db : Database) (c : ℤ) (sender content : Text)
    → IsReliable e
    → any (member c sender) db.participants ≡ true
    → send_message e db c sender content ≡ (with_message e.now db c sender content, true)
unfolding send_message
send_message_eq e db c sender content reliable there =
    rw (is_participant-any e db c sender reliable, there)
      (exec_reliable e (insert_message c sender content) db (with_message e.now db c sender content)
        reliable (unfold perform in refl))

-- In a state where open conversations belong to participants, without a database error, a client
-- that is logged in and has a conversation open can always send: the message is appended to that
-- conversation under the name of its user, and nothing else changes.
pub execute_send_stores :
    (e : Engine) (content : Text) (sd : ℕ) (s : App)
    → IsReliable e
    → IsConsistent s
    → is_authenticated sd s.sessions ≡ true
    → get_current_conversation sd s.sessions ≢ negsuc 0
    → execute_send e content sd s ≡ (
      record s {
        db =
            with_message e.now s.db
              (get_current_conversation sd s.sessions)
              (get_username sd s.sessions)
              content;
      },
      text "OK Message sent",
    )
unfolding execute_send
execute_send_stores e content sd s reliable v within opened = rw (
  within,
  eq_apart (get_current_conversation sd s.sessions) (negsuc 0) opened,
  send_message_eq e s.db (get_current_conversation sd s.sessions) (get_username sd s.sessions)
      content reliable (current_conversation-MayUse s sd v opened),
)

-- A message that was stored is among those that a later reading of the conversation returns, with
-- its sender, if that reading meets no database error and no participant, message or post was
-- taken away in between.
pub get_messages_after_send :
    (later : Engine) (now : Text) (db after : Database) (c : ℤ) (sender content : Text)
    → IsReliable later
    → Grows (with_message now db c sender content) after
    → any (λ m. m.sender == sender && m.content == content) (get_messages later after c) ≡ true
unfolding get_messages
get_messages_after_send later now db after c sender content sure g =
    any-map (to_message c) _ _
    ∙ any-order_by earlier _ _
    ∙ any-query later (select_messages c) after _ _ sure
    ∙ any-select _ (λ m. m.conversation_id == c) after.messages
    ∙ g.kept_messages
        (λ m. m.conversation_id == c && (m.sender_username == sender && m.content == content))
        (any-snoc _ db.messages _ (rw (eq_refl c, eq_refl sender, eq_refl content)))

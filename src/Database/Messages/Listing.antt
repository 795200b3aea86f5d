-- ===== src/Database/Messages/Listing.antt =====
-- server/Database.cpp, `getUserConversations` and `getConversationParticipants` against the tables.
use cpp_social_network_clien.Common.{
  ℤ, pos, Bool, ◌&&◌, ◌≡◌, refl, ap, sym, ◌∙◌, List, [], ◌∷◌, Text, arith, any, any-map, any-select,
  any-append, any-order_by, any_congr, Bool-cases, inl, inr, ◌==◌, text_eq, int_eq, int_beq_iff,
}
use cpp_social_network_clien.Database.{
  Database, ParticipantRow, ConversationRow, Engine, IsReliable, select_participants,
  select_user_conversations,
}
use cpp_social_network_clien.Database.Queries.{any-query, is_participant-any}
use cpp_social_network_clien.Database.Messages.{
  member, is_participant, get_conversation_participants, join_conversations, user_conversation_rows,
  newer_conversation, get_user_conversations,
}

-- The conversation is in the table.
abbrev pub exists_conversation : ℤ → List ConversationRow → Bool
exists_conversation c conversations = any (λ r. pos r.conversation_id == c) conversations

any-and :
    (q : ConversationRow → Bool) (b : Bool) (rows : List ConversationRow)
    → any (λ r. q r && b) rows ≡ (any q rows && b)
unfolding any
any-and q b [] = refl
any-and q b (r ∷ rows) = ground (arith, any-and q b rows)

any-join_conversations :
    (c : ℤ) (cp : ParticipantRow) (conversations : List ConversationRow)
    → any (λ x. x.0 == c) (join_conversations cp conversations)
      ≡ (cp.conversation_id == c && exists_conversation c conversations)
unfolding join_conversations
any-join_conversations c cp conversations =
    any-map _ _ _
    ∙ any-select _ _ conversations
    ∙ any-and (λ r. pos r.conversation_id == cp.conversation_id) (cp.conversation_id == c)
        conversations
    ∙ elim (Bool-cases (cp.conversation_id == c))
        as (λ _.
          (exists_conversation cp.conversation_id conversations && cp.conversation_id == c)
          ≡ (cp.conversation_id == c && exists_conversation c conversations)) [
            | inl y ↦ rw ((int_beq_iff cp.conversation_id c).0 y) (ground arith)
            | inr n ↦ rw n (ground arith)
          ]

any-user_conversation_rows :
    (c : ℤ) (db : Database) (user : Text) (rows : List ParticipantRow)
    → any (λ x. x.0 == c) (user_conversation_rows db user rows)
      ≡ (any (member c user) rows && exists_conversation c db.conversations)
unfolding user_conversation_rows any
any-user_conversation_rows c db user [] = refl
any-user_conversation_rows c db user (cp ∷ rows) = ground (
  arith,
  any-append (λ x. x.0 == c) (join_conversations cp db.conversations)
      (user_conversation_rows db user rows),
  any-join_conversations c cp db.conversations,
  any-user_conversation_rows c db user rows,
)

-- Without a database error the list of conversations has exactly those in the table of
-- conversations that the user takes part in, and the list of the participants of a conversation
-- has exactly its participants.
pub conversations_listed :
    (e later : Engine) (db : Database) (c : ℤ) (user : Text)
    → IsReliable e
    → IsReliable later
    → (any (λ d. d == c) (get_user_conversations e db user)
        ≡ (is_participant later db c user && exists_conversation c db.conversations))
      × (any (λ u. u == user) (get_conversation_participants e db c)
          ≡ is_participant later db c user)
unfolding get_user_conversations get_conversation_participants
conversations_listed e later db c user reliable sure = (
  any-map _ _ _
      ∙ any-order_by newer_conversation _ _
      ∙ any-query e (select_user_conversations user) db _ _ reliable
      ∙ any-user_conversation_rows c db user db.participants
      ∙ ap (λ (b : Bool). b && exists_conversation c db.conversations)
          (sym (is_participant-any later db c user sure)),
  any-map _ _ _
      ∙ any-query e (select_participants c) db _ _ reliable
      ∙ any-select _ _ db.participants
      ∙ any_congr _ (member c user) db.participants (λ r. ground arith)
      ∙ sym (is_participant-any later db c user sure),
)

-- ===== src/Examples/Sessions.antt =====
-- Runs of sessions and conversations.
use cpp_social_network_clien.Common.{
  inl, inr, nat_eq, ◌++◌, ◌≡◌, ◌≢◌, refl, ◌⊎◌, true, [], ◌∷◌, pos, negsuc, text, any, All, text_eq,
  arith, to_int,
}
use cpp_social_network_clien.Database.{exec, perform}
use cpp_social_network_clien.Database.Messages.{member, get_messages, create_group_conversation}
use cpp_social_network_clien.SessionManager.{
  is_authenticated, get_username, get_current_conversation, login, open_conversation, find, put,
  erase, no_sessions,
}
use cpp_social_network_clien.Command.{Command}
use cpp_social_network_clien.Commands.{execute}
use cpp_social_network_clien.Commands.Messaging.{
  execute_send, execute_show, execute_chat, execute_add, execute_open,
}
use cpp_social_network_clien.Access.Isolation.{SameSession, execute-SameSession}
use cpp_social_network_clien.Access.Reading.{
  StoredIn, shown, with_message, execute_show_confidential, execute_send_stores,
}
use cpp_social_network_clien.Decimal.{int_to_string}
use cpp_social_network_clien.Access.Chatting.{with_chat, is_next_unused, execute_chat_creates}
use cpp_social_network_clien.Commands.Posting.{listed_posts}
use cpp_social_network_clien.Access.Posts.{MayRead, listed_posts-MayRead}
use cpp_social_network_clien.App.{App}
use cpp_social_network_clien.Access.Members.{execute_open_after_add}
use cpp_social_network_clien.Examples.Setting.{
  ideal, ideal-IsReliable, town-IsValid, bob_row, broken, broken-IsSound, hasher, town, ada_online,
  ada_chatting, ada_chatting-IsConsistent,
}

execute_show_confidential_example :
    let c = get_current_conversation 5 ada_chatting.sessions in
    ((execute_show broken 5 ada_chatting).1 ≡ text "ERROR Not authenticated")
    ⊎ ((execute_show broken 5 ada_chatting).1 ≡ text "ERROR No open conversation")
    ⊎ ((any (member c (get_username 5 ada_chatting.sessions)) ada_chatting.db.participants ≡ true)
        × All (StoredIn ada_chatting.db c) (get_messages broken ada_chatting.db c)
        × ((execute_show broken 5 ada_chatting).1 ≡ shown (get_messages broken ada_chatting.db c)))
execute_show_confidential_example =
    execute_show_confidential broken 5 ada_chatting broken-IsSound ada_chatting-IsConsistent

ada_signed_in : is_authenticated 5 ada_chatting.sessions ≡ true
unfolding is_authenticated find login put erase open_conversation
ada_signed_in = refl

ada_opened : get_current_conversation 5 ada_chatting.sessions ≢ negsuc 0
unfolding get_current_conversation find login put erase open_conversation
ada_opened e = ground arith

execute_send_stores_example : execute_send ideal (text "ciao") 5 ada_chatting ≡ (
  record ada_chatting {
    db =
        with_message ideal.now town
          (get_current_conversation 5 ada_chatting.sessions)
          (get_username 5 ada_chatting.sessions)
          (text "ciao");
  },
  text "OK Message sent",
)
execute_send_stores_example =
    execute_send_stores ideal (text "ciao") 5 ada_chatting ideal-IsReliable
      ada_chatting-IsConsistent ada_signed_in ada_opened

group_created : (create_group_conversation ideal town (text "bob" ∷ text "ada" ∷ [])).1 ≢ negsuc 0
unfolding create_group_conversation exec perform to_int
group_created e = ground (arith, e)

execute-SameSession_example :
    SameSession 6 ada_online.sessions (execute hasher broken Command.logout 5 ada_online).0.sessions
execute-SameSession_example =
    execute-SameSession hasher broken Command.logout 5 6 ada_online (λ e. ground arith)

ada_is_not_bob : get_username 5 ada_chatting.sessions ≢ bob_row.username
unfolding get_username find login put erase open_conversation
ada_is_not_bob e = ground (arith, e)

next_unused : is_next_unused town ≡ true
unfolding any
next_unused = refl

execute_chat_creates_example : execute_chat ideal bob_row.username 5 ada_chatting ≡ (
  record ada_chatting {
    db = with_chat ideal.now town (get_username 5 ada_chatting.sessions) bob_row.username;
  },
  text "OK Private chat created. conversation_id = " ++ int_to_string (pos 2),
)
execute_chat_creates_example =
    execute_chat_creates ideal bob_row 5 ada_chatting ideal-IsReliable town-IsValid (inr (inl refl))
      ada_signed_in ada_is_not_bob next_unused (omega arith)

listed_posts-MayRead_example : All (MayRead 5 ada_chatting) (listed_posts ideal 5 ada_chatting)
listed_posts-MayRead_example = listed_posts-MayRead ideal 5 ada_chatting ideal-IsReliable.sound

-- Ada on socket 5 with the conversation open, and Bob on socket 6.
abbrev both_online : App
both_online = record {
  db = town;
  sessions = open_conversation 5 (pos 1) (login 6 (text "bob") (login 5 (text "ada") no_sessions));
}

both_signed_in :
    (is_authenticated 5 both_online.sessions ≡ true)
    × (is_authenticated 6 both_online.sessions ≡ true)
unfolding is_authenticated find login put erase open_conversation
both_signed_in = (refl, refl)

bob_named : get_username 6 both_online.sessions ≡ bob_row.username
unfolding get_username find login put erase open_conversation
bob_named = refl

both_opened : get_current_conversation 5 both_online.sessions ≢ negsuc 0
unfolding get_current_conversation find login put erase open_conversation
both_opened e = ground arith

execute_open_after_add_example :
    let after = (execute_add ideal bob_row.username 5 both_online).0 in
    let c = get_current_conversation 5 both_online.sessions in
    execute_open ideal c 6 after ≡ (
      record after { sessions = open_conversation 6 c both_online.sessions },
      text "OK Opened conversation " ++ int_to_string c,
    )
execute_open_after_add_example =
    execute_open_after_add ideal ideal bob_row 5 6 both_online ideal-IsReliable ideal-IsReliable
      town-IsValid (inr (inl refl)) both_signed_in.0 both_opened both_signed_in.1 bob_named

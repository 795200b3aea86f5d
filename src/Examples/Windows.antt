-- ===== src/Examples/Windows.antt =====
-- What the windows of the Qt client show of the small network.
use cpp_social_network_clien.Common.{
  pos, text, length, leb, arith, true, ◌||◌, ◌≡◌, refl, some, [], ◌∷◌, map, all, is_empty,
  if◌then◌else◌, select, insert_by, order_by, text_beq, text_leb,
}
use cpp_social_network_clien.Database.{query}
use cpp_social_network_clien.Database.Posts.{get_public_posts}
use cpp_social_network_clien.Database.Messages.{
  get_user_conversations, get_conversation_participants,
}
use cpp_social_network_clien.SessionManager.{
  is_authenticated, get_username, login, find, put, erase,
}
use cpp_social_network_clien.Commands.Posting.{listed_posts, execute_list_posts}
use cpp_social_network_clien.Commands.Messaging.{execute_chats}
use cpp_social_network_clien.Client.MainWindow.{load_posts, no_posts_label}
use cpp_social_network_clien.Client.MainWindow.Posts.{is_flat, says_none, post_line}
use cpp_social_network_clien.Client.MessagesWindow.{load_conversations}
use cpp_social_network_clien.Client.MessagesWindow.Conversations.{is_shown, shown_item}
use cpp_social_network_clien.Decimal.{int_to_string}
use cpp_social_network_clien.Server.Lines.{is_nonzero}
use cpp_social_network_clien.Client.Connection.{NetworkClient, is_connected}
use cpp_social_network_clien.Client.Exchange.{buffer_size}
use cpp_social_network_clien.Client.Answers.{answer_to}
use cpp_social_network_clien.Client.Shown.{load_posts-answer, load_conversations-answer}
use cpp_social_network_clien.Examples.Setting.{ideal, town, evening, ada_online, hasher}

ada_signed_in : is_authenticated 5 ada_online.sessions ≡ true
unfolding is_authenticated find login put erase
ada_signed_in = refl

posts_flat : all is_flat (listed_posts ideal 5 evening) ≡ true
unfolding all listed_posts get_public_posts query select order_by insert_by text_leb
    is_authenticated find
posts_flat = refl

abbrev ada_client : NetworkClient
ada_client = record { sock = pos 3; descriptors = pos 3 ∷ [] }

ada_up : is_connected ada_client ≡ true
unfolding is_connected
ada_up = refl

posts_fit :
    (leb (length (execute_list_posts ideal 5 evening).1) buffer_size ≡ true)
    × (all is_nonzero (execute_list_posts ideal 5 evening).1 ≡ true)
unfolding all execute_list_posts listed_posts get_public_posts query select order_by insert_by
    text_leb is_authenticated find int_to_string
posts_fit = (refl, refl)

load_posts-answer_example :
    load_posts (
      answer_to hasher ideal
        (pos 7)
        5
        ada_client
        evening
        (text "list_posts")
        (execute_list_posts ideal 5 evening).1)
    ≡ (if is_empty (listed_posts ideal 5 evening) || says_none (listed_posts ideal 5 evening)
        then no_posts_label ∷ []
        else map post_line (listed_posts ideal 5 evening))
load_posts-answer_example =
    load_posts-answer hasher ideal (pos 7) 5 ada_client evening ada_up posts_flat
      (ground (arith, posts_fit.0)) posts_fit.1

chats_shown :
    all
      (is_shown ideal town)
      (get_user_conversations ideal town (get_username 5 ada_online.sessions))
    ≡ true
unfolding all get_user_conversations get_conversation_participants query select order_by insert_by
    text_leb get_username find login put erase text_beq
chats_shown = refl

chats_fit :
    (leb (length (execute_chats ideal 5 ada_online).1) buffer_size ≡ true)
    × (all is_nonzero (execute_chats ideal 5 ada_online).1 ≡ true)
unfolding all execute_chats is_authenticated get_user_conversations get_conversation_participants
    query select order_by insert_by text_leb get_username find login put erase text_beq
    int_to_string
chats_fit = (refl, refl)

load_conversations-answer_example :
    load_conversations (
      answer_to hasher ideal
        (pos 7)
        5
        ada_client
        ada_online
        (text "chats")
        (execute_chats ideal 5 ada_online).1)
    ≡ some (
        map
          (shown_item ideal town)
          (get_user_conversations ideal town (get_username 5 ada_online.sessions)))
load_conversations-answer_example =
    load_conversations-answer hasher ideal (pos 7) 5 ada_client ada_online ada_up ada_signed_in
      chats_shown (ground (arith, chats_fit.0)) chats_fit.1

-- ===== src/Client/Shown.antt =====
-- qt_client/MainWindow.cpp and qt_client/MessagesWindow.cpp on what sendCommand returns: the posts
-- and the conversations.
use cpp_social_network_clien.Common.{
  ℕ, ℤ, ◌≤◌, ◌≡◌, ap, ◌∙◌, true, ◌||◌, some, ◌∷◌, [], map, Text, text, all, length, is_empty,
  if◌then◌else◌,
}
use cpp_social_network_clien.Database.{Engine}
use cpp_social_network_clien.Database.Messages.{get_user_conversations}
use cpp_social_network_clien.SessionManager.{is_authenticated, get_username}
use cpp_social_network_clien.App.{App}
use cpp_social_network_clien.Commands.Posting.{listed_posts, execute_list_posts}
use cpp_social_network_clien.Commands.Messaging.{execute_chats}
use cpp_social_network_clien.Server.Lines.{is_nonzero}
use cpp_social_network_clien.Client.Connection.{NetworkClient, is_connected}
use cpp_social_network_clien.Client.Exchange.{buffer_size}
use cpp_social_network_clien.Client.Answers.{answer_to, list_posts_answer, chats_answer}
use cpp_social_network_clien.Client.MainWindow.{load_posts, no_posts_label}
use cpp_social_network_clien.Client.MainWindow.Posts.{
  is_flat, says_none, post_line, load_posts-list_posts,
}
use cpp_social_network_clien.Client.MessagesWindow.{load_conversations}
use cpp_social_network_clien.Client.MessagesWindow.Conversations.{
  is_shown, shown_item, load_conversations-chats,
}

module _ (hasher : Text → ℕ) (e : Engine) (indeterminate : ℤ) (sd : ℕ) (client : NetworkClient)
    (s : App) (up : is_connected client ≡ true) where
  -- When the main window asks for the posts, over a connection that works and has nothing left to
  -- read, it shows the line of every post that the server lists, in the same order, and that there
  -- are no posts where it lists none; but if the line of any post has the words "No posts" in it,
  -- it says that there are none. The texts of the posts have no newline, and the response has at
  -- most 2047 bytes, none of them zero, and is delivered whole.
  pub load_posts-answer :
      all is_flat (listed_posts e sd s) ≡ true
      → length (execute_list_posts e sd s).1 ≤ buffer_size
      → all is_nonzero (execute_list_posts e sd s).1 ≡ true
      → load_posts (
          answer_to hasher e indeterminate sd client s
            (text "list_posts")
            (execute_list_posts e sd s).1)
        ≡ (if is_empty (listed_posts e sd s) || says_none (listed_posts e sd s)
            then no_posts_label ∷ []
            else map post_line (listed_posts e sd s))
  load_posts-answer flat short nonzero =
      ap load_posts (list_posts_answer hasher e indeterminate sd client s up short nonzero)
      ∙ load_posts-list_posts e sd s flat

  -- When the messages window asks for the conversations, over a connection that works and has
  -- nothing left to read, on a socket that is logged in, it has an item for every conversation of
  -- the user, in the order in which the server has them and with its id, labelled as a chat if it
  -- has two participants and as a group otherwise, and no exception is thrown. The ids fit an
  -- `int`, the names are without commas and newlines, and the response has at most 2047 bytes, none
  -- of them zero, and is delivered whole.
  pub load_conversations-answer :
      is_authenticated sd s.sessions ≡ true
      → all (is_shown e s.db) (get_user_conversations e s.db (get_username sd s.sessions)) ≡ true
      → length (execute_chats e sd s).1 ≤ buffer_size
      → all is_nonzero (execute_chats e sd s).1 ≡ true
      → load_conversations
          (answer_to hasher e indeterminate sd client s (text "chats") (execute_chats e sd s).1)
        ≡ some
            (map (shown_item e s.db) (get_user_conversations e s.db (get_username sd s.sessions)))
  load_conversations-answer within shown short nonzero =
      ap load_conversations (chats_answer hasher e indeterminate sd client s up short nonzero)
      ∙ load_conversations-chats e sd s within shown

-- ===== src/Client/Answers.antt =====
-- qt_client and server: what sendCommand returns to the windows that ask for a list.
use cpp_social_network_clien.Common.{
  ℕ, ℤ, ◌<◌, ◌≤◌, ◌≡◌, refl, ap, true, some, Text, text, arith, all, length,
}
use cpp_social_network_clien.Database.{Engine}
use cpp_social_network_clien.App.{App}
use cpp_social_network_clien.Command.{Command}
use cpp_social_network_clien.CommandFactory.{create}
use cpp_social_network_clien.Commands.{execute}
use cpp_social_network_clien.Commands.Friendship.{
  execute_list_friends, execute_list_friend_requests,
}
use cpp_social_network_clien.Commands.Posting.{execute_list_posts}
use cpp_social_network_clien.Commands.Messaging.{execute_chats}
use cpp_social_network_clien.Server.{trim_end}
use cpp_social_network_clien.Server.Lines.{is_nonzero}
use cpp_social_network_clien.Client.Connection.{NetworkClient, is_connected, full_command}
use cpp_social_network_clien.Client.Exchange.{Link, exchange, buffer_size, whole, fresh}
use cpp_social_network_clien.Client.Actions.Created.{create-plain}
use cpp_social_network_clien.Client.Actions.Executed.{exchange-executed, IsSendable}
use cpp_social_network_clien.Client.Responses.{
  execute_list_friends-given, execute_list_friend_requests-given, execute_list_posts-given,
  execute_chats-given,
}

plain_lines :
    IsSendable (text "list_friends")
    × IsSendable (text "list_friend_requests")
    × IsSendable (text "list_posts")
    × IsSendable (text "chats")
unfolding all trim_end full_command
plain_lines = (
  record { nonzero = refl; ended = refl; fits = omega arith },
  record { nonzero = refl; ended = refl; fits = omega arith },
  record { nonzero = refl; ended = refl; fits = omega arith },
  record { nonzero = refl; ended = refl; fits = omega arith },
)

-- The answer to a line of the client `client` while the server is in the state `s`, if `response`
-- is delivered whole.
abbrev pub answer_to : (Text → ℕ) → Engine → ℤ → ℕ → NetworkClient → App → Text → Text → Text
answer_to hasher e indeterminate sd client s line response =
    (exchange hasher (whole e indeterminate line (length response)) sd line (fresh client s)).1

module _ (hasher : Text → ℕ) (e : Engine) (indeterminate : ℤ) (sd : ℕ) (client : NetworkClient)
    (s : App) (up : is_connected client ≡ true) where
  plain_answer :
      (line : Text) (c : Command)
      → create indeterminate line ≡ some c
      → IsSendable line
      → 0 < length (execute hasher e c sd s).1
      → length (execute hasher e c sd s).1 ≤ buffer_size
      → all is_nonzero (execute hasher e c sd s).1 ≡ true
      → answer_to hasher e indeterminate sd client s line (execute hasher e c sd s).1
        ≡ (execute hasher e c sd s).1
  plain_answer line c made sends given short nonzero =
      ap (λ (r : Link × Text). r.1)
        (exchange-executed hasher e indeterminate line c sd client s made sends up
          (record { given = given; short = short; nonzero = nonzero }))

  pub list_friends_answer :
      length (execute_list_friends e sd s).1 ≤ buffer_size
      → all is_nonzero (execute_list_friends e sd s).1 ≡ true
      → answer_to hasher e indeterminate sd client s
          (text "list_friends")
          (execute_list_friends e sd s).1
        ≡ (execute_list_friends e sd s).1
  unfolding execute
  list_friends_answer short nonzero =
      plain_answer (text "list_friends") Command.list_friends (create-plain indeterminate).1
        plain_lines.0 (execute_list_friends-given e sd s) short nonzero

  pub list_friend_requests_answer :
      length (execute_list_friend_requests e sd s).1 ≤ buffer_size
      → all is_nonzero (execute_list_friend_requests e sd s).1 ≡ true
      → answer_to hasher e indeterminate sd client s
          (text "list_friend_requests")
          (execute_list_friend_requests e sd s).1
        ≡ (execute_list_friend_requests e sd s).1
  unfolding execute
  list_friend_requests_answer short nonzero =
      plain_answer (text "list_friend_requests") Command.list_friend_requests
        (create-plain indeterminate).3 plain_lines.1 (execute_list_friend_requests-given e sd s)
        short nonzero

  pub list_posts_answer :
      length (execute_list_posts e sd s).1 ≤ buffer_size
      → all is_nonzero (execute_list_posts e sd s).1 ≡ true
      → answer_to hasher e indeterminate sd client s
          (text "list_posts")
          (execute_list_posts e sd s).1
        ≡ (execute_list_posts e sd s).1
  unfolding execute
  list_posts_answer short nonzero =
      plain_answer (text "list_posts") Command.list_posts (create-plain indeterminate).2
        plain_lines.2 (execute_list_posts-given e sd s) short nonzero

  pub chats_answer :
      length (execute_chats e sd s).1 ≤ buffer_size
      → all is_nonzero (execute_chats e sd s).1 ≡ true
      → answer_to hasher e indeterminate sd client s (text "chats") (execute_chats e sd s).1
        ≡ (execute_chats e sd s).1
  unfolding execute
  chats_answer short nonzero =
      plain_answer (text "chats") Command.chats (create-plain indeterminate).5 plain_lines.3
        (execute_chats-given e sd s) short nonzero

-- ===== src/Examples/Clients.antt =====
-- The Qt client against the server, on the small network.
use cpp_social_network_clien.Common.{
  take, drop, true, false, ◌≡◌, refl, inl, none, some, [], ◌∷◌, pos, negsuc, Text, text, arith, all,
  is_empty, length, ◌≤◌, ◌<◌, leb, text_beq, replicate, ltb, select, order_by, insert_by, text_leb,
}
use cpp_social_network_clien.Stream.Words.{IsWord}
use cpp_social_network_clien.Database.{query}
use cpp_social_network_clien.Database.Tables.{new_post, init_database}
use cpp_social_network_clien.Database.Posts.{get_public_posts}
use cpp_social_network_clien.SessionManager.{is_authenticated, login, find, put, erase, no_sessions}
use cpp_social_network_clien.App.{App}
use cpp_social_network_clien.Command.{Command}
use cpp_social_network_clien.CommandFactory.{create}
use cpp_social_network_clien.Commands.{execute}
use cpp_social_network_clien.Commands.Account.{execute_logout}
use cpp_social_network_clien.Commands.Posting.{execute_list_posts}
use cpp_social_network_clien.Decimal.{int_to_string}
use cpp_social_network_clien.Server.{respond, buffer_input, trim_end}
use cpp_social_network_clien.Server.Lines.{is_nonzero}
use cpp_social_network_clien.Client.Connection.{
  NetworkClient, new_client, connect_to_server, send_command, is_connected, full_command,
  OwnsSocket, to_server, answered, started, Reached-OwnsSocket,
}
use cpp_social_network_clien.Client.Exchange.{
  buffer_size, line_size, request, outcome, whole, fresh, one_read, serve_reads, exchange,
  exchange_answer, exchange_stale,
}
use cpp_social_network_clien.Client.Actions.{sent_line, click_login}
use cpp_social_network_clien.Client.Actions.Meaning.{logging_in}
use cpp_social_network_clien.Client.Actions.Executed.{respond-Means}
use cpp_social_network_clien.Examples.Setting.{ideal, evening, ada_online, hasher}

-- A connection on which send fails.
Reached-OwnsSocket_example :
    OwnsSocket
      (send_command (negsuc 0) none (connect_to_server (pos 3) (pos 1) (pos 0) new_client).0).0
Reached-OwnsSocket_example =
    Reached-OwnsSocket
      (answered (negsuc 0) none (to_server (pos 3) (pos 1) (pos 0) (inl refl) started))

abbrev pub connected_client : NetworkClient
connected_client = record { sock = pos 3; descriptors = pos 3 ∷ [] }

pub up : is_connected connected_client ≡ true
unfolding is_connected
up = refl

logout_response :
    (respond hasher (request ideal (pos 7) (text "logout")) 5 ada_online).1
    ≡ text "OK Logout successful\n"
unfolding respond buffer_input create text_beq execute execute_logout is_authenticated find login
    put erase
logout_response = refl

logout_fits :
    (0 < length (respond hasher (request ideal (pos 7) (text "logout")) 5 ada_online).1)
    × (length (respond hasher (request ideal (pos 7) (text "logout")) 5 ada_online).1 ≤ buffer_size)
    × (all is_nonzero (respond hasher (request ideal (pos 7) (text "logout")) 5 ada_online).1
        ≡ true)
    × (all is_nonzero (text "logout") ≡ true)
    × (length (full_command (text "logout")) ≤ line_size)
unfolding all full_command
logout_fits = rw logout_response (omega arith, omega arith, refl, refl, omega arith)

exchange_answer_example :
    exchange hasher
      (whole ideal
        (pos 7)
        (text "logout")
        (length (respond hasher (request ideal (pos 7) (text "logout")) 5 ada_online).1))
      5
      (text "logout")
      (fresh connected_client ada_online)
    ≡ (
      fresh connected_client
          (respond hasher (request ideal (pos 7) (text "logout")) 5 ada_online).0,
      (respond hasher (request ideal (pos 7) (text "logout")) 5 ada_online).1,
    )
exchange_answer_example =
    exchange_answer hasher ideal (pos 7) 5 (text "logout") connected_client ada_online up
      logout_fits.3 logout_fits.4 logout_fits.0 logout_fits.1 logout_fits.2

-- A public post of 2100 bytes.
abbrev long_post : App
long_post = record {
  db = record init_database {
    posts = new_post 1 (text "ada") (replicate 2100 97) (pos 0) (text "2024-05-01 08:00:00") ∷ [];
  };
  sessions = no_sessions;
}

abbrev posts_outcome : App × Text
posts_outcome = outcome hasher ideal (pos 7) 5 (text "list_posts") long_post

-- A first recv that fills its buffer, and a second one of 5 bytes.
long_checks :
    (all is_nonzero posts_outcome.1 ≡ true)
    × (ltb buffer_size (length posts_outcome.1) ≡ true)
    × (leb 5 (length (drop buffer_size posts_outcome.1)) ≡ true)
unfolding all full_command respond buffer_input create text_beq execute execute_list_posts
    is_authenticated find get_public_posts query select order_by insert_by text_leb int_to_string
    drop
long_checks = (refl, refl, refl)

short_lines :
    (length (full_command (text "list_posts")) ≤ line_size)
    × (length (full_command (text "show")) ≤ line_size)
unfolding full_command
short_lines = (omega arith, omega arith)

exchange_stale_example :
    (is_empty (drop buffer_size posts_outcome.1) ≡ false)
    × ((exchange hasher
          (whole ideal (pos 7) (text "show") 5)
          5
          (text "show")
          (exchange hasher
            (whole ideal (pos 7) (text "list_posts") buffer_size)
            5
            (text "list_posts")
            (fresh connected_client long_post)).0).1
        ≡ take 5 (drop buffer_size posts_outcome.1))
exchange_stale_example =
    exchange_stale hasher ideal (pos 7) 5 (text "list_posts") (text "show") buffer_size 5
      connected_client long_post up short_lines.0 short_lines.1 long_checks.0
      (ground (arith, long_checks.1)) (omega arith) (omega arith) (omega arith) (omega arith)
      (ground (arith, long_checks.2))

bob-IsWord : IsWord (text "bob")
unfolding all
bob-IsWord = record { nonempty = refl; unspaced = refl }

typed_login :
    (all is_nonzero (text "login bob bob") ≡ true)
    × (trim_end (text "login bob bob") ≡ text "login bob bob")
    × (length (full_command (text "login bob bob")) ≤ line_size)
unfolding all trim_end full_command
typed_login = (refl, refl, omega arith)

login_sent :
    sent_line (λ t. t) (click_login (text "bob") (text "bob")) ≡ some (text "login bob bob")
unfolding sent_line
login_sent = refl

respond-Means_example :
    serve_reads hasher (one_read ideal (pos 7)) 6 (full_command (text "login bob bob")) evening
    ≡ execute hasher ideal (Command.login (text "bob") (text "bob")) 6 evening
respond-Means_example =
    respond-Means hasher ideal (pos 7) (λ t. t) (text "login bob bob") 6 evening
      (logging_in bob-IsWord bob-IsWord) login_sent typed_login.0 typed_login.1 typed_login.2

-- ===== src/Examples/Served.antt =====
-- Clients of a server that has served requests.
use cpp_social_network_clien.Common.{
  ◌==◌, text_eq, int_eq, ◌&&◌, any, pos, true, ◌≡◌, refl, some, [], ◌∷◌, map, text, arith, ◌≤◌, all,
  length, is_empty, text_beq, select, if◌then◌else◌,
}
use cpp_social_network_clien.Stream.Words.{IsWord}
use cpp_social_network_clien.Decimal.{to_string, int_to_string}
use cpp_social_network_clien.Database.{Database, UserRow, query}
use cpp_social_network_clien.Database.Registered.{IsReferential}
use cpp_social_network_clien.Database.Users.{authenticate_user, user_row, hash_password}
use cpp_social_network_clien.Database.Typed.{IsTyped}
use cpp_social_network_clien.Database.Friends.{get_friends, get_friend_requests}
use cpp_social_network_clien.SessionManager.{
  find, login, put, erase, is_authenticated, get_username,
}
use cpp_social_network_clien.Commands.Friendship.{
  execute_list_friends, execute_list_friend_requests,
}
use cpp_social_network_clien.CommandFactory.{create}
use cpp_social_network_clien.Commands.{execute}
use cpp_social_network_clien.Commands.Account.{execute_login}
use cpp_social_network_clien.Server.{
  Server, init_server, round, accept_client, serve_slots, serve_slot, serve_client, respond,
  buffer_input,
}
use cpp_social_network_clien.Server.WellFormed.{IsStart, IsWellFormed, Reach-IsWellFormed}
use cpp_social_network_clien.Server.Reach.{Reach}
use cpp_social_network_clien.Server.Lines.{is_nonzero}
use cpp_social_network_clien.Client.Connection.{NetworkClient, is_connected}
use cpp_social_network_clien.Client.Exchange.{buffer_size}
use cpp_social_network_clien.Client.Answers.{answer_to}
use cpp_social_network_clien.Client.MainWindow.{load_friends, friend_item}
use cpp_social_network_clien.Client.FriendRequests.{RequestsDialog, load_requests}
use cpp_social_network_clien.Client.Served.{load_friends-Served, load_requests-pending}
use cpp_social_network_clien.Examples.Setting.{
  ada_row, bob_row, ideal, ideal-IsReliable, hasher, town,
}
use cpp_social_network_clien.Examples.Loop.{busy, busy-AllReliable}

spelled : IsWord (text "ada") × IsWord (text "bob") × IsWord (text "cyd")
unfolding all
spelled = (
  record { nonempty = refl; unspaced = refl },
  record { nonempty = refl; unspaced = refl },
  record { nonempty = refl; unspaced = refl },
)

-- The small network, where Cyd has an account as well.
abbrev cyd_row : UserRow
cyd_row = record bob_row { user_id = 3; username = text "cyd"; email = text "cyd@mail" }

abbrev full_town : Database
full_town = record town { users = ada_row ∷ bob_row ∷ cyd_row ∷ []; user_seq = 3 }

full_town-IsReferential : IsReferential full_town
unfolding all any text_beq
full_town-IsReferential = record {
  friends = refl;
  posts = refl;
  participants = refl;
  messages = refl;
}

full_town-IsTyped : IsTyped full_town
unfolding all text_beq
full_town-IsTyped = record { users = refl; friends = refl; posts = refl }

full_town-IsStart : IsStart full_town
full_town-IsStart = record {
  referential = full_town-IsReferential;
  named = (spelled.0, (spelled.1, (spelled.2, tt)));
  typed = full_town-IsTyped;
}

-- Ada has logged in on socket 4.
abbrev after_log_in : Server
after_log_in = round hasher (some 4) busy (init_server full_town)

after_log_in-Reach : Reach hasher full_town after_log_in
after_log_in-Reach = Reach.next Reach.started (some 4) busy busy-AllReliable

Reach-IsWellFormed_example : IsWellFormed after_log_in.app
Reach-IsWellFormed_example =
    Reach-IsWellFormed hasher full_town full_town-IsStart after_log_in-Reach

abbrev ada_client : NetworkClient
ada_client = record { sock = pos 3; descriptors = pos 3 ∷ [] }

ada_up : is_connected ada_client ≡ true
unfolding is_connected
ada_up = refl

-- The login on socket 4 succeeds; then Bob, with his type, and Cyd, who has asked.
ada_runs :
    (is_authenticated 4 after_log_in.app.sessions ≡ true)
    × ((execute_list_friends ideal 4 after_log_in.app).1 ≡ text "OK Friends list:\nbob 1\n")
    × ((execute_list_friend_requests ideal 4 after_log_in.app).1
        ≡ text "OK Friend requests:\ncyd\n")
unfolding round accept_client serve_slots serve_slot serve_client respond buffer_input create
    text_beq execute execute_login authenticate_user user_row query select hash_password to_string
    is_authenticated find login put erase execute_list_friends execute_list_friend_requests
    get_friends get_friend_requests get_username int_to_string
ada_runs = (refl, refl, refl)

fits :
    (length (execute_list_friends ideal 4 after_log_in.app).1 ≤ buffer_size)
    × (all is_nonzero (execute_list_friends ideal 4 after_log_in.app).1 ≡ true)
    × (length (execute_list_friend_requests ideal 4 after_log_in.app).1 ≤ buffer_size)
    × (all is_nonzero (execute_list_friend_requests ideal 4 after_log_in.app).1 ≡ true)
unfolding all
fits = rw (ada_runs.1, ada_runs.2) (omega arith, refl, omega arith, refl)

load_friends-Served_example :
    load_friends (pos 7) (
      answer_to hasher ideal
        (pos 7)
        4
        ada_client
        after_log_in.app
        (text "list_friends")
        (execute_list_friends ideal 4 after_log_in.app).1)
    ≡ (if is_empty
          (get_friends ideal after_log_in.app.db (get_username 4 after_log_in.app.sessions))
        then record { label = text "(no friends yet)"; user = [] } ∷ []
        else map
            (λ f. friend_item f.0 f.1)
            (get_friends ideal after_log_in.app.db (get_username 4 after_log_in.app.sessions)))
load_friends-Served_example =
    load_friends-Served hasher full_town ideal (pos 7) 4 ada_client full_town-IsStart
      after_log_in-Reach ideal-IsReliable.sound ada_up ada_runs.0 (pos 7) fits.0 fits.1

abbrev requests_dialog : RequestsDialog
requests_dialog = record { rows = []; status = text "Loading" }

abbrev requests_shown : RequestsDialog
requests_shown =
    load_requests
      (answer_to hasher ideal (pos 7) 4 ada_client after_log_in.app (text "list_friend_requests")
        (execute_list_friend_requests ideal 4 after_log_in.app).1)
      requests_dialog

load_requests-pending_example :
    (any (λ row. row == text "cyd") requests_shown.rows
      ≡ any
          (λ r.
            r.user_username == text "cyd"
            && r.friend_username == get_username 4 after_log_in.app.sessions
            && r.status == pos 0)
          after_log_in.app.db.friends)
    × (requests_shown.status ≡ requests_dialog.status)
load_requests-pending_example =
    load_requests-pending hasher full_town ideal (pos 7) 4 ada_client full_town-IsStart
      after_log_in-Reach ideal-IsReliable.sound ada_up ada_runs.0 requests_dialog (text "cyd")
      ideal-IsReliable fits.2 fits.3

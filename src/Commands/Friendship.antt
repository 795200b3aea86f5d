-- ===== src/Commands/Friendship.antt =====
-- server/commands: FriendRequestCommand, AcceptFriendCommand, SetFriendTypeCommand,
-- ListFriendsCommand and ListFriendRequestsCommand.
use cpp_social_network_clien.Common.{
  ℕ, Bool, not, Option, none, some, List, [], ◌∷◌, ◌++◌, ℤ, Text, text, newline, ◌==◌, text_eq,
  if◌then◌else◌, is_empty,
}
use cpp_social_network_clien.Decimal.{int_to_string}
use cpp_social_network_clien.Database.{Engine}
use cpp_social_network_clien.Database.Users.{get_user_by_username}
use cpp_social_network_clien.Database.Friends
use cpp_social_network_clien.Database.Friends.{
  send_friend_request, accept_friend_request, are_friends, get_friends, get_friend_requests,
}
use cpp_social_network_clien.SessionManager.{is_authenticated, get_username}
use cpp_social_network_clien.App.{App, Outcome}

abbrev pub has_value {ℓ} : {A : Type ℓ} → Option A → Bool
has_value none = Bool.false
has_value (some a) = Bool.true

unfoldable pub execute_friend_request : Engine → Text → ℕ → App → Outcome
execute_friend_request e target client_sd s =
    let user = get_username client_sd s.sessions in
    let (requested, ok) = send_friend_request e s.db user target in
    if not (is_authenticated client_sd s.sessions)
    then (s, text "ERROR Not logged in\n")
    else if user == target
    then (s, text "ERROR Cannot add yourself\n")
    else if not (has_value (get_user_by_username e s.db target))
    then (s, text "ERROR User does not exist\n")
    else if are_friends e s.db user target
    then (s, text "ERROR Already friends\n")
    else if not ok
    then (record s { db = requested }, text "ERROR Cannot send request\n")
    else (record s { db = requested }, text "OK Friend request sent\n")

unfoldable pub execute_accept_friend : Engine → Text → ℕ → App → Outcome
execute_accept_friend e source client_sd s =
    let user = get_username client_sd s.sessions in
    let (accepted, ok) = accept_friend_request e s.db user source in
    if not (is_authenticated client_sd s.sessions)
    then (s, text "ERROR Not logged in\n")
    else if not ok
    then (record s { db = accepted }, text "ERROR Cannot accept request\n")
    else (record s { db = accepted }, text "OK Friend request accepted\n")

unfoldable pub execute_set_friend_type : Engine → Text → ℤ → ℕ → App → Outcome
execute_set_friend_type e target type client_sd s =
    let user = get_username client_sd s.sessions in
    let (updated, ok) = Friends.set_friend_type e s.db user target type in
    if not (is_authenticated client_sd s.sessions)
    then (s, text "ERROR Not logged in\n")
    else if not ok
    then (record s { db = updated }, text "ERROR Cannot set friend type\n")
    else (record s { db = updated }, text "OK Friend type updated\n")

unfoldable pub friend_lines : List (Text × ℤ) → Text
friend_lines [] = []
friend_lines ((name, type) ∷ friends) =
    name ++ text " " ++ int_to_string type ++ newline ++ friend_lines friends

unfoldable pub execute_list_friends : Engine → ℕ → App → Outcome
unfolding friend_lines
execute_list_friends e client_sd s =
    let friends = get_friends e s.db (get_username client_sd s.sessions) in
    if not (is_authenticated client_sd s.sessions)
    then (s, text "ERROR Not logged in\n")
    else if is_empty friends
    then (s, text "OK No friends\n")
    else (s, text "OK Friends list:\n" ++ friend_lines friends)

unfoldable pub request_lines : List Text → Text
request_lines [] = []
request_lines (r ∷ requests) = r ++ newline ++ request_lines requests

unfoldable pub execute_list_friend_requests : Engine → ℕ → App → Outcome
unfolding request_lines
execute_list_friend_requests e client_sd s =
    let requests = get_friend_requests e s.db (get_username client_sd s.sessions) in
    if not (is_authenticated client_sd s.sessions)
    then (s, text "ERROR Not logged in\n")
    else if is_empty requests
    then (s, text "OK No friend requests\n")
    else (s, text "OK Friend requests:\n" ++ request_lines requests)

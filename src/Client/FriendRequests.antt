-- ===== src/Client/FriendRequests.antt =====
-- qt_client/FriendRequests.cpp: the list of requests from the response of the server.
use mathlib.Core.List.{append_assoc}
use cpp_social_network_clien.Common.{
  ℕ, true, not, ◌≡◌, refl, ap, ◌∙◌, List, [], ◌∷◌, ◌++◌, Text, text, arith, all, All, is_empty,
  if◌then◌else◌, drop, select,
}
use cpp_social_network_clien.Stream.Words.{IsWord}
use cpp_social_network_clien.Database.{Engine}
use cpp_social_network_clien.Database.Friends.{get_friend_requests}
use cpp_social_network_clien.SessionManager.{is_authenticated, get_username}
use cpp_social_network_clien.App.{App}
use cpp_social_network_clien.Commands.Friendship.{request_lines, execute_list_friend_requests}
use cpp_social_network_clien.Client.Texts.{contains, starts_with, read_lines, one_line}
use cpp_social_network_clien.Client.Lines.{
  unlines, nonempty_lines, read_lines-heading, word-one_line,
}

-- The rows of the list, each of which keeps its line for the button, and the label below.
pub record RequestsDialog : Type 0 where
  pub rows : List Text
  pub status : Text

unfoldable pub load_requests : Text → RequestsDialog → RequestsDialog
unfolding contains read_lines drop
load_requests response dialog =
    if not (contains (text "OK") response)
    then record { rows = []; status = text "No requests" }
    else record dialog { rows = nonempty_lines (drop 1 (read_lines response)) }

request_lines_lem : (requests : List Text) → request_lines requests ≡ unlines requests
unfolding request_lines
request_lines_lem [] = refl
request_lines_lem (r ∷ requests) = rw (request_lines_lem requests) (simp append_assoc)

names-one_line : (names : List Text) → All IsWord names → all one_line names ≡ true
unfolding all
names-one_line [] v = refl
names-one_line (w ∷ names) v = rw (word-one_line w v.0) (names-one_line names v.1)

names-nonempty :
    (names : List Text) → All IsWord names → all (λ line. not (is_empty line)) names ≡ true
unfolding all
names-nonempty [] v = refl
names-nonempty (w ∷ names) v = rw (v.0.nonempty) (names-nonempty names v.1)

abbrev requests_response : List Text → Text
requests_response requests =
    if is_empty requests
    then text "OK No friend requests\n"
    else text "OK Friend requests:\n" ++ request_lines requests

shown_requests :
    (requests : List Text) (dialog : RequestsDialog)
    → All IsWord requests
    → load_requests (requests_response requests) dialog ≡ record dialog { rows = requests }
unfolding load_requests
shown_requests [] dialog v = unfold contains starts_with read_lines drop select in refl
shown_requests (r ∷ requests) dialog v =
    unfold contains starts_with in
    rw
      (
        request_lines_lem (r ∷ requests),
        read_lines-heading (text "OK Friend requests:") (r ∷ requests) (unfold all in refl)
            (names-one_line (r ∷ requests) v) (names-nonempty (r ∷ requests) v),
      )
      refl

-- The rows of the dialog are the users who have asked the user who is logged in, in the order in
-- which the server has them, and the label stays as it is, also where nobody has asked. The names
-- have to be words.
pub load_requests-list_friend_requests :
    (e : Engine) (sd : ℕ) (s : App) (dialog : RequestsDialog)
    → is_authenticated sd s.sessions ≡ true
    → All IsWord (get_friend_requests e s.db (get_username sd s.sessions))
    → load_requests (execute_list_friend_requests e sd s).1 dialog
      ≡ record dialog { rows = get_friend_requests e s.db (get_username sd s.sessions) }
unfolding execute_list_friend_requests
load_requests-list_friend_requests e sd s dialog within v = rw within (
    ap (λ t. load_requests t dialog) (ground arith)
    ∙ shown_requests (get_friend_requests e s.db (get_username sd s.sessions)) dialog v)

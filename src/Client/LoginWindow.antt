-- ===== src/Client/LoginWindow.antt =====
-- qt_client/LoginWindow.cpp: the login button.
use cpp_social_network_clien.Common.{
  ℕ, Bool, true, false, not, ◌||◌, ◌≡◌, Option, none, some, ◌∷◌, ◌++◌, Text, text, arith, is_empty,
  if◌then◌else◌,
}
use cpp_social_network_clien.Database.{Engine}
use cpp_social_network_clien.SessionManager.{SessionManager, is_authenticated, get_username, login}
use cpp_social_network_clien.SessionManager.Laws.{find-put}
use cpp_social_network_clien.App.{App}
use cpp_social_network_clien.Commands.Account.{execute_login}
use cpp_social_network_clien.Client.Texts.{contains, starts_with}

-- The label below the fields, and the user of the main window, once that is open.
pub record LoginWindow : Type 0 where
  pub status_label : Text
  pub main_window : Option Text

abbrev pub fill_in_label : Text
fill_in_label = text "Completeaz" ++ (196 ∷ 131 ∷ text " toate c") ++ (195 ∷ 162 ∷ text "mpurile")

-- `connected` is what connectToServer answers, and `response` what sendCommand does.
unfoldable pub on_login_clicked : Text → Text → Bool → Text → LoginWindow → LoginWindow
unfolding contains
on_login_clicked username password connected response w =
    if is_empty username || is_empty password
    then record w { status_label = fill_in_label }
    else if not connected
    then record w { status_label = text "Server offline" }
    else if contains (text "OK") response
    then record { status_label = response; main_window = some username }
    else record w { status_label = response }

session-login :
    (sd : ℕ) (username : Text) (m : SessionManager)
    → (is_authenticated sd (login sd username m) ≡ true)
      × (get_username sd (login sd username m) ≡ username)
unfolding is_authenticated get_username login
session-login sd username m = ground (arith, find-put sd sd username m.sessions)

-- On the response to a command to login with the two texts: where the socket has no session and the
-- window is still a login window, the main window opens exactly if the server has logged the client
-- in, and then for the user of the session.
pub on_login_clicked-execute_login :
    (hasher : Text → ℕ) (e : Engine) (username password : Text) (sd : ℕ) (s : App) (w : LoginWindow)
    → is_authenticated sd s.sessions ≡ false
    → w.main_window ≡ none
    → (on_login_clicked username password true
        (execute_login hasher e username password sd s).1
        w).main_window
      ≡ (if is_authenticated sd (execute_login hasher e username password sd s).0.sessions
          then some (get_username sd (execute_login hasher e username password sd s).0.sessions)
          else none)
unfolding on_login_clicked execute_login contains starts_with
on_login_clicked-execute_login hasher e username password sd s w out closed =
    ground (arith, session-login sd username s.sessions)

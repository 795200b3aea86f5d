-- ===== src/Examples/Submissions.antt =====
-- What is typed into the windows of the Qt client, on the small network.
use cpp_social_network_clien.Common.{
  newline, take, drop, true, false, ◌≡◌, refl, ◌⊎◌, none, some, [], ◌∷◌, ◌++◌, pos, Text, text,
  arith, all, if◌then◌else◌, length, replicate, ltb,
}
use cpp_social_network_clien.Stream.Words.{IsWord}
use cpp_social_network_clien.Database.Tables.{new_post}
use cpp_social_network_clien.SessionManager.{is_authenticated, get_username, find}
use cpp_social_network_clien.Command.{Command}
use cpp_social_network_clien.Commands.{execute}
use cpp_social_network_clien.Decimal.{int_to_string}
use cpp_social_network_clien.Server.{trim_end}
use cpp_social_network_clien.Server.Lines.{is_nonzero}
use cpp_social_network_clien.Client.Connection.{full_command}
use cpp_social_network_clien.Client.Exchange.{Link, line_size, one_read, serve_reads}
use cpp_social_network_clien.Client.Actions.{login_text, register_text, post_text}
use cpp_social_network_clien.Client.Texts.{one_line}
use cpp_social_network_clien.Client.Cut.{post_size, serve_reads-long_post}
use cpp_social_network_clien.Client.Submitted.{
  exchanged, IsRead, on_login_clicked-answered, on_post_clicked-answered,
}
use cpp_social_network_clien.Client.LoginWindow.{LoginWindow, on_login_clicked}
use cpp_social_network_clien.Client.Dialogs.{Dialog, on_post_clicked}
use cpp_social_network_clien.Client.RegisterWindow.{RegisterWindow}
use cpp_social_network_clien.Examples.Setting.{ideal, town, evening, ada_online, hasher}
use cpp_social_network_clien.Examples.Clients.{connected_client, up}

abbrev login_window : LoginWindow
login_window = record { status_label = []; main_window = none }

nobody_on_5 : is_authenticated 5 evening.sessions ≡ false
unfolding is_authenticated find
nobody_on_5 = refl

words :
    IsWord (text "ada")
    × IsWord (text "abcd")
    × IsWord (text "cyd")
    × IsWord (text "cyd@mail")
    × IsWord (text "normal")
    × IsWord (text "public")
unfolding all
words = (
  record { nonempty = refl; unspaced = refl },
  record { nonempty = refl; unspaced = refl },
  record { nonempty = refl; unspaced = refl },
  record { nonempty = refl; unspaced = refl },
  record { nonempty = refl; unspaced = refl },
  record { nonempty = refl; unspaced = refl },
)

lines-IsRead :
    IsRead (login_text (text "ada") (text "abcd"))
    × IsRead
        (register_text (text "cyd") (text "abcd") (text "cyd@mail") (text "normal") (text "public"))
    × IsRead (post_text (pos 0) (text "hi"))
unfolding all full_command int_to_string
lines-IsRead = ((refl, omega arith), (refl, omega arith), (refl, omega arith))

abbrev ada_answered : Link × Text
ada_answered =
    exchanged hasher ideal (pos 7) 5 connected_client evening
      (login_text (text "ada") (text "abcd"))

on_login_clicked-answered_example :
    (on_login_clicked (text "ada") (text "abcd") true ada_answered.1 login_window).main_window ≡ (
      if is_authenticated 5 ada_answered.0.app.sessions
      then some (get_username 5 ada_answered.0.app.sessions)
      else none)
on_login_clicked-answered_example =
    on_login_clicked-answered hasher ideal (pos 7) 5 connected_client evening up (text "ada")
      (text "abcd") login_window words.0 words.1 lines-IsRead.0 nobody_on_5 refl

abbrev register_window : RegisterWindow
register_window = record { status_label = []; login_opened = false }

abbrev cyd_answered : Link × Text
cyd_answered =
    exchanged hasher ideal (pos 7) 5 connected_client evening
      (register_text (text "cyd") (text "abcd") (text "cyd@mail") (text "normal") (text "public"))

abbrev open_dialog : Dialog
open_dialog = record { status_label = []; is_accepted = false }

abbrev post_answered : Link × Text
post_answered =
    exchanged hasher ideal (pos 7) 5 connected_client ada_online (post_text (pos 0) (text "hi"))

post_flat : (one_line (text "hi") ≡ true) × (trim_end (text "hi") ≡ text "hi")
unfolding all trim_end
post_flat = (refl, refl)

on_post_clicked-answered_example :
    (((on_post_clicked (λ t. t) (text "hi") post_answered.1 open_dialog).is_accepted ≡ true)
      × (post_answered.0.app.db.posts
          ≡ town.posts
            ++ new_post 3 (get_username 5 ada_online.sessions) (text "hi") (pos 0) ideal.now ∷ []))
    ⊎ (((on_post_clicked (λ t. t) (text "hi") post_answered.1 open_dialog).is_accepted ≡ false)
        × (post_answered.0.app ≡ ada_online))
on_post_clicked-answered_example =
    on_post_clicked-answered hasher ideal (pos 7) 5 connected_client ada_online up (λ t. t) 0
      (text "hi") open_dialog (omega arith) post_flat.0 refl post_flat.1 lines-IsRead.2 refl

-- A post of 1100 bytes.
abbrev long_text : Text
long_text = replicate 1100 97

long_text_checks :
    (one_line long_text ≡ true)
    × (ltb post_size (length long_text) ≡ true)
    × (all is_nonzero (take post_size long_text) ≡ true)
    × (trim_end (take post_size long_text) ≡ take post_size long_text)
unfolding all take trim_end
long_text_checks = (refl, refl, refl, refl)

serve_reads-long_post_example :
    serve_reads hasher
      (record { size = line_size; engine = ideal; indeterminate = pos 7 } ∷ one_read ideal (pos 7))
      5
      (full_command (post_text (pos 0) long_text))
      ada_online
    ≡ (
      (serve_reads hasher
          (one_read ideal (pos 7))
          5
          (drop post_size long_text ++ newline)
          (execute hasher ideal
            (Command.create_post (pos 0) (take post_size long_text))
            5
            ada_online).0).0,
      (execute hasher ideal (Command.create_post (pos 0) (take post_size long_text)) 5 ada_online).1
          ++ (serve_reads hasher
              (one_read ideal (pos 7))
              5
              (drop post_size long_text ++ newline)
              (execute hasher ideal
                (Command.create_post (pos 0) (take post_size long_text))
                5
                ada_online).0).1,
    )
serve_reads-long_post_example =
    serve_reads-long_post long_text long_text_checks.0 (ground (arith, long_text_checks.1)) hasher
      ideal (pos 7) (one_read ideal (pos 7)) 0 5 ada_online (omega arith) long_text_checks.2
      long_text_checks.3

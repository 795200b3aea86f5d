-- ===== src/Client/Submitted.antt =====
-- qt_client/LoginWindow.cpp, qt_client/RegisterWindow.cpp and qt_client/CreatePost.cpp against the
-- server: what is typed in becomes a line, the server reads it, and the window takes the answer.
use cpp_social_network_clien.Common.{
  ℕ, suc, ℤ, pos, ◌≤◌, ◌≡◌, refl, sym, subst, true, false, ◌⊎◌, none, some, [], ◌∷◌, ◌++◌, Text,
  text, all, length, is_empty, nat_eq, if◌then◌else◌,
}
use cpp_social_network_clien.Stream.Words.{IsWord}
use cpp_social_network_clien.Decimal.{int_to_string}
use cpp_social_network_clien.Database.{Engine, new_post}
use cpp_social_network_clien.SessionManager.{is_authenticated, get_username}
use cpp_social_network_clien.App.{App, Outcome}
use cpp_social_network_clien.Command.{Command}
use cpp_social_network_clien.CommandFactory.{create}
use cpp_social_network_clien.CommandFactory.RoundTrip.{create-login}
use cpp_social_network_clien.Commands.{execute}
use cpp_social_network_clien.Server.{trim_end}
use cpp_social_network_clien.Server.Lines.{is_nonzero, trim_end-word}
use cpp_social_network_clien.Client.Texts.{one_line}
use cpp_social_network_clien.Client.Connection.{NetworkClient, is_connected, full_command}
use cpp_social_network_clien.Client.Exchange.{Link, outcome, exchange, line_size, whole, fresh}
use cpp_social_network_clien.Client.Responses.{
  execute_login-IsDeliverable, execute_create_post-IsDeliverable,
}
use cpp_social_network_clien.Client.Actions.{beside, login_text, post_text}
use cpp_social_network_clien.Client.Actions.Created.{create-create_post}
use cpp_social_network_clien.Client.Actions.Executed.{
  exchange-executed, outcome-executed, IsSendable, IsDeliverable,
}
use cpp_social_network_clien.Client.LoginWindow.{
  LoginWindow, on_login_clicked, on_login_clicked-execute_login,
}
use cpp_social_network_clien.Client.RegisterWindow.{RegisterWindow}
use cpp_social_network_clien.Client.Dialogs.{
  Dialog, on_post_clicked, on_post_clicked-execute_create_post,
}

-- Nothing to trim behind the last field.
pub trim_end-behind :
    (s t : Text) → is_empty t ≡ false → trim_end t ≡ t → trim_end (s ++ t) ≡ s ++ t
unfolding trim_end
trim_end-behind [] t given ended = ended
trim_end-behind (c ∷ []) t given ended = rw (ended, given) refl
trim_end-behind (c ∷ d ∷ s) t given ended = rw (trim_end-behind (d ∷ s) t given ended) refl

pub trim_end-beside :
    (s t : Text) → is_empty t ≡ false → trim_end t ≡ t → trim_end (beside s t) ≡ beside s t
trim_end-beside s t given ended =
    trim_end-behind s (32 ∷ t) refl (trim_end-behind (32 ∷ []) t given ended)

pub beside-is_empty : (s t : Text) → is_empty (beside s t) ≡ false
beside-is_empty [] t = refl
beside-is_empty (c ∷ s) t = refl

-- A call of sendCommand where everything arrives: the line in one read of the server, and the
-- response whole.
abbrev pub exchanged : (Text → ℕ) → Engine → ℤ → ℕ → NetworkClient → App → Text → Link × Text
exchanged hasher e indeterminate sd client s line =
    exchange hasher
      (whole e indeterminate line (length (outcome hasher e indeterminate sd line s).1)) sd line
      (fresh client s)

-- A line without a zero byte that the server can read at once.
abbrev pub IsRead : Text → Type 0
IsRead line = (all is_nonzero line ≡ true) × (length (full_command line) ≤ line_size)

module _ (hasher : Text → ℕ) (e : Engine) (indeterminate : ℤ) (sd : ℕ) (client : NetworkClient)
    (s : App) (up : is_connected client ≡ true) where
  exchanged_lem :
      (line : Text) (c : Command)
      → create indeterminate line ≡ some c
      → IsRead line
      → trim_end line ≡ line
      → IsDeliverable (execute hasher e c sd s).1
      → exchanged hasher e indeterminate sd client s line
        ≡ (fresh client (execute hasher e c sd s).0, (execute hasher e c sd s).1)
  exchanged_lem line c made reads ended delivers =
      let sends : IsSendable line = record { nonzero = reads.0; ended = ended; fits = reads.1 } in
      subst
        (λ (o : Outcome).
          exchange hasher (whole e indeterminate line (length o.1)) sd line (fresh client s)
          ≡ (fresh client (execute hasher e c sd s).0, (execute hasher e c sd s).1))
        (sym (outcome-executed hasher e indeterminate line c sd s made sends))
        (exchange-executed hasher e indeterminate line c sd client s made sends up delivers)

  -- When a name and a password, both of them words, are typed into the login window, on a
  -- connection that works, has nothing left to read and whose socket has no session, and the line
  -- has no zero byte, fits into one read of the server, and the response arrives whole, then the
  -- main window opens exactly if the server has logged the client in, and for the user of the
  -- session.
  pub on_login_clicked-answered :
      (user pass : Text) (w : LoginWindow)
      → IsWord user
      → IsWord pass
      → IsRead (login_text user pass)
      → is_authenticated sd s.sessions ≡ false
      → w.main_window ≡ none
      → (on_login_clicked user pass true
          (exchanged hasher e indeterminate sd client s (login_text user pass)).1
          w).main_window
        ≡ (if is_authenticated sd
              (exchanged hasher e indeterminate sd client s (login_text user pass)).0.app.sessions
            then some (
                get_username sd
                  (exchanged hasher e indeterminate sd client s
                    (login_text user pass)).0.app.sessions)
            else none)
  unfolding execute
  on_login_clicked-answered user pass w u p reads out closed =
      subst
        (λ (r : Link × Text). (on_login_clicked user pass true r.1 w).main_window ≡ (
          if is_authenticated sd r.0.app.sessions
          then some (get_username sd r.0.app.sessions)
          else none))
        (sym (
          exchanged_lem (login_text user pass) (Command.login user pass)
            (create-login indeterminate user pass u p) reads
            (trim_end-behind (text "login ") (beside user pass) (beside-is_empty user pass)
              (trim_end-beside user pass p.nonempty (trim_end-word [] pass p)))
            (execute_login-IsDeliverable hasher e user pass sd s)))
        (on_login_clicked-execute_login hasher e user pass sd s w out closed)

  -- When a text that is one line is typed into the dialog for posts, with a visibility of 0, 1 or
  -- 2, on a connection that works and has nothing left to read, and the trimmed text is not empty
  -- and does not end with a newline or a carriage return, and the line has no zero byte, fits into
  -- one read of the server, and the response arrives whole, then the dialog closes and the server
  -- has added the post, with its author, text and visibility, behind the posts that there were; or
  -- it stays open, and nothing has changed on the server.
  pub on_post_clicked-answered :
      (trimmed : Text → Text) (n : ℕ) (content : Text) (d : Dialog)
      → n ≤ 2
      → one_line (trimmed content) ≡ true
      → is_empty (trimmed content) ≡ false
      → trim_end (trimmed content) ≡ trimmed content
      → IsRead (post_text (pos n) (trimmed content))
      → d.is_accepted ≡ false
      → (((on_post_clicked trimmed content
              (exchanged hasher e indeterminate sd client s (post_text (pos n) (trimmed content))).1
              d).is_accepted
            ≡ true)
          × ((exchanged hasher e indeterminate sd client s
                (post_text (pos n) (trimmed content))).0.app.db.posts
              ≡ s.db.posts
                ++ new_post
                    (suc s.db.post_seq)
                    (get_username sd s.sessions)
                    (trimmed content)
                    (pos n)
                    e.now
                  ∷ []))
        ⊎ (((on_post_clicked trimmed content
                (exchanged hasher e indeterminate sd client s
                  (post_text (pos n) (trimmed content))).1
                d).is_accepted
              ≡ false)
            × ((exchanged hasher e indeterminate sd client s
                  (post_text (pos n) (trimmed content))).0.app
                ≡ s))
  unfolding execute
  on_post_clicked-answered trimmed n content d small flat given ended reads open_still =
      subst
        (λ (o : Link × Text).
          (((on_post_clicked trimmed content o.1 d).is_accepted ≡ true)
            × (o.0.app.db.posts
                ≡ s.db.posts
                  ++ new_post (suc s.db.post_seq) (get_username sd s.sessions) (trimmed content)
                      (pos n) e.now
                    ∷ []))
          ⊎ (((on_post_clicked trimmed content o.1 d).is_accepted ≡ false) × (o.0.app ≡ s)))
        (sym (
          exchanged_lem (post_text (pos n) (trimmed content))
            (Command.create_post (pos n) (trimmed content))
            (create-create_post indeterminate n (trimmed content) small flat) reads
            (trim_end-behind (text "create_post ") _ (beside-is_empty (int_to_string (pos n)) _)
              (trim_end-beside (int_to_string (pos n)) (trimmed content) given ended))
            (execute_create_post-IsDeliverable e (pos n) (trimmed content) sd s)))
        (on_post_clicked-execute_create_post e trimmed (pos n) content sd s d given open_still)

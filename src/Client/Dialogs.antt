-- ===== src/Client/Dialogs.antt =====
-- qt_client/AddFriend.cpp, qt_client/FriendType.cpp and qt_client/CreatePost.cpp: the dialogs that
-- close when the server says so. QString::trimmed is a parameter.
use cpp_social_network_clien.Common.{
  ℕ, ℤ, pos, Bool, true, false, ◌≡◌, ◌⊎◌, [], ◌∷◌, ◌++◌, Text, text, arith, is_empty, if◌then◌else◌,
  suc,
}
use cpp_social_network_clien.Database.{Database, Engine, exec, perform, new_post, new_friend}
use cpp_social_network_clien.Database.Friends.{send_friend_request}
use cpp_social_network_clien.Database.Posts.{create_post}
use cpp_social_network_clien.SessionManager.{get_username}
use cpp_social_network_clien.App.{App}
use cpp_social_network_clien.Commands.Friendship.{execute_friend_request}
use cpp_social_network_clien.Commands.Posting.{execute_create_post}
use cpp_social_network_clien.Client.Texts.{contains, starts_with}

-- The label, and whether the dialog was accepted; `AddFriend` waits 800 ms with it.
pub record Dialog : Type 0 where
  pub status_label : Text
  pub is_accepted : Bool

-- What the dialogs do with a response.
unfoldable pub take_response : Text → Dialog → Dialog
unfolding contains
take_response response d =
    if contains (text "OK") response
    then record { status_label = response; is_accepted = true }
    else record d { status_label = response }

unfoldable pub on_add_clicked : Text → Text → Dialog → Dialog
unfolding take_response
on_add_clicked username response d =
    if is_empty username
    then record d { status_label = text "Enter username" }
    else take_response response d

unfoldable pub on_type_clicked : Text → Dialog → Dialog
unfolding take_response
on_type_clicked response d = take_response response d

unfoldable pub on_post_clicked : (Text → Text) → Text → Text → Dialog → Dialog
unfolding take_response
on_post_clicked trimmed content response d =
    if is_empty (trimmed content)
    then record d { status_label = text "Post cannot be empty " ++ (240 ∷ 159 ∷ 152 ∷ 133 ∷ []) }
    else take_response response d

create_post-stored :
    (e : Engine) (db : Database) (user content : Text) (visibility : ℤ)
    → (((create_post e db user content visibility).1 ≡ true)
        × ((create_post e db user content visibility).0.posts
            ≡ db.posts ++ new_post (suc db.post_seq) user content visibility e.now ∷ []))
      ⊎ (((create_post e db user content visibility).1 ≡ false)
          × ((create_post e db user content visibility).0 ≡ db))
unfolding create_post exec perform
create_post-stored e db user content visibility = ground arith

-- On the response to a command to post the trimmed text, which is not empty: the dialog for posts
-- closes if the server has added the post to the table, with the author, the text and the
-- visibility that were meant, behind the posts that there were; otherwise it stays open, and
-- nothing has changed on the server.
pub on_post_clicked-execute_create_post :
    (e : Engine) (trimmed : Text → Text) (visibility : ℤ) (content : Text) (sd : ℕ) (s : App)
    (d : Dialog)
    → is_empty (trimmed content) ≡ false
    → d.is_accepted ≡ false
    → (((on_post_clicked trimmed content
            (execute_create_post e visibility (trimmed content) sd s).1
            d).is_accepted
          ≡ true)
        × ((execute_create_post e visibility (trimmed content) sd s).0.db.posts
            ≡ s.db.posts
              ++ new_post
                  (suc s.db.post_seq)
                  (get_username sd s.sessions)
                  (trimmed content)
                  visibility
                  e.now
                ∷ []))
      ⊎ (((on_post_clicked trimmed content
              (execute_create_post e visibility (trimmed content) sd s).1
              d).is_accepted
            ≡ false)
          × ((execute_create_post e visibility (trimmed content) sd s).0 ≡ s))
unfolding on_post_clicked execute_create_post contains starts_with
on_post_clicked-execute_create_post e trimmed visibility content sd s d given open_still =
    ground
      (arith, create_post-stored e s.db (get_username sd s.sessions) (trimmed content) visibility)

send_friend_request-stored :
    (e : Engine) (db : Database) (user target : Text)
    → (((send_friend_request e db user target).1 ≡ true)
        × ((send_friend_request e db user target).0.friends
            ≡ db.friends ++ new_friend user target (pos 0) ∷ []))
      ⊎ (((send_friend_request e db user target).1 ≡ false)
          × ((send_friend_request e db user target).0 ≡ db))
unfolding send_friend_request exec perform
send_friend_request-stored e db user target = ground arith

-- On the response to a command to add the user: the dialog for a new friend closes if the server
-- has added a pending request to the table, of the user who is logged in to the user whose name was
-- typed in; otherwise it stays open, and nothing has changed on the server. The name is not empty.
pub on_add_clicked-execute_friend_request :
    (e : Engine) (target : Text) (sd : ℕ) (s : App) (d : Dialog)
    → is_empty target ≡ false
    → d.is_accepted ≡ false
    → (((on_add_clicked target (execute_friend_request e target sd s).1 d).is_accepted ≡ true)
        × ((execute_friend_request e target sd s).0.db.friends
            ≡ s.db.friends ++ new_friend (get_username sd s.sessions) target (pos 0) ∷ []))
      ⊎ (((on_add_clicked target (execute_friend_request e target sd s).1 d).is_accepted ≡ false)
          × ((execute_friend_request e target sd s).0 ≡ s))
unfolding on_add_clicked execute_friend_request contains starts_with
on_add_clicked-execute_friend_request e target sd s d given open_still =
    ground (arith, send_friend_request-stored e s.db (get_username sd s.sessions) target)

-- ===== src/Client/Served.antt =====
-- qt_client on a server that the loop has brought where it is: the windows show what the server
-- has.
use cpp_social_network_clien.Common.{
  any, any-map, any-select, any_congr, pos, int_eq, ℕ, ℤ, ◌≡◌, refl, ap, ◌∙◌, Bool, true, not, ◌&&◌,
  List, [], ◌∷◌, map, Text, text, arith, all, all-select_of_all, All, is_empty, length, ◌≤◌, ◌==◌,
  text_eq, if◌then◌else◌,
}
use cpp_social_network_clien.Stream.{is_space}
use cpp_social_network_clien.Stream.Words.{IsWord}
use cpp_social_network_clien.Database.{
  Database, FriendRow, Engine, IsSound, IsReliable, accepted, pending, select_friends,
  select_requests,
}
use cpp_social_network_clien.Database.Queries.{query-all, any-query}
use cpp_social_network_clien.Database.Friends.{out_of_range, get_friends, get_friend_requests}
use cpp_social_network_clien.Database.Named.{IsNamed, registered-IsWord}
use cpp_social_network_clien.Database.Registered.{registered, friend_refers, IsReferential}
use cpp_social_network_clien.Database.Typed.{IsTyped, friend_typed}
use cpp_social_network_clien.SessionManager.{is_authenticated, get_username}
use cpp_social_network_clien.Commands.Friendship.{
  execute_list_friends, execute_list_friend_requests,
}
use cpp_social_network_clien.Server.{Server}
use cpp_social_network_clien.Server.Lines.{is_nonzero}
use cpp_social_network_clien.Server.WellFormed.{IsStart, Reach-IsWellFormed}
use cpp_social_network_clien.Server.Reach.{Reach}
use cpp_social_network_clien.Client.Connection.{NetworkClient, is_connected}
use cpp_social_network_clien.Client.Exchange.{buffer_size}
use cpp_social_network_clien.Client.Answers.{
  answer_to, list_friends_answer, list_friend_requests_answer,
}
use cpp_social_network_clien.Client.MainWindow.{load_friends, friend_item}
use cpp_social_network_clien.Client.MainWindow.Friends.{IsFriendEntry, load_friends-list_friends}
use cpp_social_network_clien.Client.FriendRequests.{
  RequestsDialog, load_requests, load_requests-list_friend_requests,
}

abbrev is_word : Text → Bool
is_word w = not (is_empty w) && all (λ c. not (is_space c)) w

-- A row whose names are words and whose type is one of the three.
abbrev listable : FriendRow → Bool
listable r =
    is_word r.user_username && is_word r.friend_username && not (out_of_range r.friend_type)

word-is_word : (w : Text) → IsWord w → is_word w ≡ true
word-is_word w v = rw (v.nonempty, v.unspaced) refl

is_word-IsWord : (w : Text) → is_word w ≡ true → IsWord w
is_word-IsWord w h = record { nonempty = ground arith; unspaced = ground arith }

rows-listable :
    (db : Database) (rows : List FriendRow)
    → IsNamed db
    → all (friend_refers (registered db)) rows ≡ true
    → all friend_typed rows ≡ true
    → all listable rows ≡ true
unfolding all
rows-listable db [] named refers typed = refl
rows-listable db (r ∷ rows) named refers typed =
    let user_word =
      word-is_word r.user_username (registered-IsWord db r.user_username named (ground arith)) in
    let friend_word =
      word-is_word r.friend_username
        (registered-IsWord db r.friend_username named (ground arith)) in
    ground (arith, user_word, friend_word, rows-listable db rows named)

listable-entries :
    (rows : List FriendRow)
    → all listable rows ≡ true
    → All IsFriendEntry (map (λ r. (r.friend_username, r.friend_type)) rows)
unfolding all
listable-entries [] h = tt
listable-entries (r ∷ rows) h = (
  (is_word-IsWord r.friend_username (ground arith), ground arith),
  listable-entries rows (ground arith),
)

listable-names :
    (rows : List FriendRow)
    → all listable rows ≡ true
    → All IsWord (map (λ r. r.user_username) rows)
unfolding all
listable-names [] h = tt
listable-names (r ∷ rows) h =
    (is_word-IsWord r.user_username (ground arith), listable-names rows (ground arith))

module _ (e : Engine) (db : Database) (sound : IsSound e) (refers : IsReferential db)
    (named : IsNamed db) (typed : IsTyped db) where
  friends-listable : all listable db.friends ≡ true
  friends-listable = rows-listable db db.friends named refers.friends typed.friends

  get_friends-entries : (username : Text) → All IsFriendEntry (get_friends e db username)
  unfolding get_friends
  get_friends-entries username = listable-entries _ (
      query-all e (select_friends username) db listable _ sound (
        all-select_of_all listable (λ r. r.user_username == username && accepted r) db.friends
          friends-listable))

  get_friend_requests-words : (username : Text) → All IsWord (get_friend_requests e db username)
  unfolding get_friend_requests
  get_friend_requests-words username = listable-names _ (
      query-all e (select_requests username) db listable _ sound (
        all-select_of_all listable (λ r. r.friend_username == username && pending r) db.friends
          friends-listable))

get_friend_requests-any :
    (e : Engine) (db : Database) (me u : Text)
    → IsReliable e
    → any (λ row. row == u) (get_friend_requests e db me)
      ≡ any (λ r. r.user_username == u && r.friend_username == me && r.status == pos 0) db.friends
unfolding get_friend_requests
get_friend_requests-any e db me u reliable =
    any-map (λ r. r.user_username) (λ row. row == u) _
    ∙ any-query e (select_requests me) db (λ r. r.user_username == u) _ reliable
    ∙ any-select (λ r. r.user_username == u) (λ r. r.friend_username == me && pending r) db.friends
    ∙ any_congr _ _ db.friends (λ r. ground arith)

module _ (hasher : Text → ℕ) (start : Database) {s : Server} (e : Engine) (indeterminate : ℤ)
    (sd : ℕ) (client : NetworkClient) (before : IsStart start) (reached : Reach hasher start s)
    (sound : IsSound e) (up : is_connected client ≡ true)
    (within : is_authenticated sd s.app.sessions ≡ true) where
  -- The server has started on a database in which every name refers to a user, the names of users
  -- are words and the columns are in their ranges, and has served any rounds of requests without
  -- database errors. When the main window then asks for the friends, over a connection that works,
  -- with nothing left to read, on a socket that is logged in, it lists the friends that the server
  -- has for the user of the socket, each under his name and with the icon of his type, in the same
  -- order, or says that there are none. The rows that SQLite delivers are selected ones, and the
  -- response has at most 2047 bytes and no zero byte.
  pub load_friends-Served :
      (type : ℤ)
      → length (execute_list_friends e sd s.app).1 ≤ buffer_size
      → all is_nonzero (execute_list_friends e sd s.app).1 ≡ true
      → load_friends type (
          answer_to hasher e indeterminate sd client s.app
            (text "list_friends")
            (execute_list_friends e sd s.app).1)
        ≡ (if is_empty (get_friends e s.app.db (get_username sd s.app.sessions))
            then record { label = text "(no friends yet)"; user = [] } ∷ []
            else map
                (λ f. friend_item f.0 f.1)
                (get_friends e s.app.db (get_username sd s.app.sessions)))
  load_friends-Served type short nonzero =
      let v = Reach-IsWellFormed hasher start before reached in
      ap (load_friends type)
        (list_friends_answer hasher e indeterminate sd client s.app up short nonzero)
      ∙ load_friends-list_friends e sd s.app type within (
          get_friends-entries e s.app.db sound v.populated.tables v.named v.typed
            (get_username sd s.app.sessions))

  load_requests-Served :
      (dialog : RequestsDialog)
      → length (execute_list_friend_requests e sd s.app).1 ≤ buffer_size
      → all is_nonzero (execute_list_friend_requests e sd s.app).1 ≡ true
      → load_requests
          (answer_to hasher e indeterminate sd client s.app
            (text "list_friend_requests")
            (execute_list_friend_requests e sd s.app).1)
          dialog
        ≡ record dialog { rows = get_friend_requests e s.app.db (get_username sd s.app.sessions) }
  load_requests-Served dialog short nonzero =
      let v = Reach-IsWellFormed hasher start before reached in
      ap (λ t. load_requests t dialog)
        (list_friend_requests_answer hasher e indeterminate sd client s.app up short nonzero)
      ∙ load_requests-list_friend_requests e sd s.app dialog within (
          get_friend_requests-words e s.app.db sound v.populated.tables v.named v.typed
            (get_username sd s.app.sessions))

  -- The server has started on a database in which every name refers to a user, the names of users
  -- are words and the columns are in their ranges, and has served any rounds of requests without
  -- database errors. When the dialog of friend requests then asks for them, without a database
  -- error, over a connection that works, with nothing left to read, on a socket that is logged in,
  -- a user is in its list exactly if the table of friends has a row from that user to the user of
  -- the socket with the status 0, and its label stays as it is. The response has at most 2047 bytes
  -- and no zero byte, and is delivered whole.
  pub load_requests-pending :
      (dialog : RequestsDialog) (u : Text)
      → IsReliable e
      → length (execute_list_friend_requests e sd s.app).1 ≤ buffer_size
      → all is_nonzero (execute_list_friend_requests e sd s.app).1 ≡ true
      → (any
            (λ row. row == u)
            (load_requests
              (answer_to hasher e indeterminate sd client s.app
                (text "list_friend_requests")
                (execute_list_friend_requests e sd s.app).1)
              dialog).rows
          ≡ any
              (λ r.
                r.user_username == u
                && r.friend_username == get_username sd s.app.sessions
                && r.status == pos 0)
              s.app.db.friends)
        × ((load_requests
              (answer_to hasher e indeterminate sd client s.app
                (text "list_friend_requests")
                (execute_list_friend_requests e sd s.app).1)
              dialog).status
            ≡ dialog.status)
  load_requests-pending dialog u reliable short nonzero = (
    ap (λ (d : RequestsDialog). any (λ row. row == u) d.rows)
          (load_requests-Served dialog short nonzero)
        ∙ get_friend_requests-any e s.app.db (get_username sd s.app.sessions) u reliable,
    ap (λ (d : RequestsDialog). d.status) (load_requests-Served dialog short nonzero),
  )

-- ===== src/Client/MainWindow.antt =====
-- qt_client/MainWindow.cpp: the list of friends and the posts, from the responses of the server. A
-- QString is its bytes in UTF-8, and a list of widgets is a list of what they show.
pub mod Friends
pub mod Posts
use cpp_social_network_clien.Common.{
  ℕ, Bool, List, [], ◌∷◌, ◌++◌, map, ℤ, pos, Text, text, ◌==◌, int_eq, if◌then◌else◌, drop,
}
use cpp_social_network_clien.Stream.{open_stream, extract_word, extract_int}
use cpp_social_network_clien.Client.Texts.{contains, read_lines}
use cpp_social_network_clien.Client.Lines.{nonempty_lines}

-- The label of an item and the text that is stored with it.
pub record FriendItem : Type 0 where
  pub label : Text
  pub user : Text

-- The emoji and the space in front of the name.
abbrev pub friend_icon : ℤ → Text
friend_icon type =
    if type == pos 1
    then 240 ∷ 159 ∷ 146 ∷ 150 ∷ 32 ∷ []
    else if type == pos 2
    then 240 ∷ 159 ∷ 145 ∷ 139 ∷ 32 ∷ []
    else 240 ∷ 159 ∷ 153 ∷ 130 ∷ 32 ∷ []

abbrev pub friend_item : Text → ℤ → FriendItem
friend_item username type = record { label = friend_icon type ++ username; user = username }

-- ls >> username >> type, where `indeterminate` is what the variable `type` holds before.
unfoldable pub read_friend : ℤ → Text → FriendItem
unfolding extract_word extract_int
read_friend indeterminate line =
    let (ls, username) = extract_word (open_stream line) [] in
    let (ls, type) = extract_int ls indeterminate in friend_item username type

unfoldable pub load_friends : ℤ → Text → List FriendItem
unfolding contains read_lines read_friend drop
load_friends indeterminate response =
    if contains (text "No friends") response
    then record { label = text "(no friends yet)"; user = [] } ∷ []
    else map (read_friend indeterminate) (nonempty_lines (drop 1 (read_lines response)))

abbrev pub no_posts_label : Text
no_posts_label = text "No posts yet " ++ (240 ∷ 159 ∷ 146 ∷ 173 ∷ [])

-- The labels of the widgets in the layout.
unfoldable pub load_posts : Text → List Text
unfolding contains read_lines drop
load_posts response =
    if contains (text "No posts") response
    then no_posts_label ∷ []
    else nonempty_lines (drop 1 (read_lines response))

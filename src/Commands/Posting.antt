-- ===== src/Commands/Posting.antt =====
-- server/commands: CreatePostCommand and ListPostsCommand.
use cpp_social_network_clien.Common.{
  ℕ, not, List, [], ◌∷◌, ◌++◌, ℤ, Text, text, newline, if◌then◌else◌, is_empty,
}
use cpp_social_network_clien.Decimal.{int_to_string}
use cpp_social_network_clien.Database.{Engine}
use cpp_social_network_clien.Database.Posts
use cpp_social_network_clien.Database.Posts.{Post, get_visible_posts, get_public_posts}
use cpp_social_network_clien.SessionManager.{is_authenticated, get_username}
use cpp_social_network_clien.App.{App, Outcome}

unfoldable pub execute_create_post : Engine → ℤ → Text → ℕ → App → Outcome
execute_create_post e visibility content client_sd s =
    let user = get_username client_sd s.sessions in
    let (created, ok) = Posts.create_post e s.db user content visibility in
    if not (is_authenticated client_sd s.sessions)
    then (s, text "ERROR Not logged in\n")
    else if is_empty content
    then (s, text "ERROR Empty post\n")
    else if not ok
    then (record s { db = created }, text "ERROR Cannot create post\n")
    else (record s { db = created }, text "OK Post created\n")

unfoldable pub post_lines : List Post → Text
post_lines [] = []
post_lines (p ∷ posts) =
    text "["
    ++ p.created_at
    ++ text "] "
    ++ p.author
    ++ text " ("
    ++ int_to_string p.visibility
    ++ text "): "
    ++ p.content
    ++ newline
    ++ post_lines posts

-- The posts that the client may see: everybody sees the public ones.
unfoldable pub listed_posts : Engine → ℕ → App → List Post
listed_posts e client_sd s =
    if is_authenticated client_sd s.sessions
    then get_visible_posts e s.db (get_username client_sd s.sessions)
    else get_public_posts e s.db

unfoldable pub execute_list_posts : Engine → ℕ → App → Outcome
unfolding post_lines listed_posts
execute_list_posts e client_sd s =
    let posts = listed_posts e client_sd s in
    if is_empty posts
    then (s, text "OK No posts\n")
    else (s, text "OK Posts:\n" ++ post_lines posts)

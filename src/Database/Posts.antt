-- ===== src/Database/Posts.antt =====
-- server/Database.cpp: posts, and who sees them.
pub mod Visibility
pub mod Closeness
use cpp_social_network_clien.Common.{
  Bool, false, ◌&&◌, ◌||◌, List, map, ℤ, pos, Text, text_leb, ◌==◌, int_eq, text_eq, if◌then◌else◌,
  any, select, order_by,
}
use cpp_social_network_clien.Database.{
  Database, FriendRow, PostRow, Engine, insert_post, select_visible_posts, select_public_posts,
  between, accepted, exec, query,
}
use cpp_social_network_clien.Database.Friends.{out_of_range}

pub record Post : Type 0 where
  pub author : Text
  pub content : Text
  pub visibility : ℤ
  pub created_at : Text

abbrev pub to_post : PostRow → Post
to_post r = record {
  author = r.author_username;
  content = r.content;
  visibility = r.visibility;
  created_at = r.created_at;
}

unfoldable pub create_post : Engine → Database → Text → Text → ℤ → Database × Bool
create_post e db author content visibility =
    if out_of_range visibility
    then (db, false)
    else exec e (insert_post author content visibility) db

-- The WHERE clause of `getVisiblePosts`.
unfoldable pub visible_to : Database → Text → PostRow → Bool
visible_to db username p =
    p.author_username == username
    || p.visibility == pos 0
    || (p.visibility == pos 1
        && any (λ f. between p.author_username username f && accepted f) db.friends)
    || (p.visibility == pos 2
        && any (λ f. between p.author_username username f && accepted f && f.friend_type == pos 1)
            db.friends)

-- ORDER BY created_at DESC
abbrev pub newer : PostRow → PostRow → Bool
newer p q = text_leb q.created_at p.created_at

unfoldable pub get_visible_posts : Engine → Database → Text → List Post
get_visible_posts e db username = map to_post (
    order_by newer
      (query e (select_visible_posts username) db (select (visible_to db username) db.posts)))

unfoldable pub get_public_posts : Engine → Database → List Post
get_public_posts e db =
    map to_post (
      order_by newer
        (query e select_public_posts db (select (λ p. p.visibility == pos 0) db.posts)))

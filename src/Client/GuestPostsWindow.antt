-- ===== src/Client/GuestPostsWindow.antt =====
-- qt_client/GuestPostsWindow.cpp, `loadPublicPosts`: the posts that are shown without a login.
-- QString::trimmed is a parameter.
use cpp_social_network_clien.Common.{
  ℕ, Bool, true, false, not, ◌&&◌, ◌≡◌, refl, ap, ◌∙◌, List, [], ◌∷◌, ◌++◌, map, Text, text, arith,
  all, is_empty, if◌then◌else◌, drop, select, leb,
}
use cpp_social_network_clien.Database.{Engine}
use cpp_social_network_clien.Database.Posts.{Post}
use cpp_social_network_clien.App.{App}
use cpp_social_network_clien.Commands.Posting.{listed_posts, execute_list_posts}
use cpp_social_network_clien.Client.Texts.{starts_with}
use cpp_social_network_clien.Client.Lines.{split_lines, split_lines-unlines}
use cpp_social_network_clien.Client.MainWindow.Posts.{
  post_line, post_lines_lem, post_lines-one_line, is_flat, posts_response,
}

abbrev pub offline_label : Text
offline_label = 226 ∷ 157 ∷ 140 ∷ text " Server offline"

abbrev pub failed_label : Text
failed_label = 226 ∷ 157 ∷ 140 ∷ text " Failed to load posts"

abbrev pub no_public_posts_label : Text
no_public_posts_label = text "No public posts yet " ++ (240 ∷ 159 ∷ 140 ∷ 184 ∷ [])

-- The items of the list. `connected` is what connectToServer answers.
unfoldable pub load_public_posts : (Text → Text) → Bool → Text → List Text
unfolding starts_with split_lines select drop
load_public_posts trimmed connected response =
    let shown = select (λ line. not (is_empty (trimmed line))) (drop 1 (split_lines response)) in
    if not connected
    then offline_label ∷ []
    else if not (starts_with (text "OK") response)
    then failed_label ∷ []
    else if is_empty shown
    then no_public_posts_label ∷ []
    else shown

-- What Qt documents: white space at both ends is removed, and nothing else.
pub record IsTrimming (trimmed : Text → Text) : Type 0 where
  pub empty : trimmed [] ≡ []
  pub kept :
      (c : ℕ) (s : Text) → (leb 33 c && leb c 126) ≡ true → is_empty (trimmed (c ∷ s)) ≡ false

module _ (trimmed : Text → Text) (v : IsTrimming trimmed) where
  posts_kept :
      (posts : List Post)
      → select (λ line. not (is_empty (trimmed line))) (map post_line posts ++ [] ∷ [])
        ≡ map post_line posts
  unfolding select
  posts_kept [] = rw v.empty refl
  posts_kept (p ∷ posts) = rw (v.kept 91 _ refl, posts_kept posts) refl

  shown_public :
      (posts : List Post)
      → all is_flat posts ≡ true
      → load_public_posts trimmed true (posts_response posts)
        ≡ (if is_empty posts then no_public_posts_label ∷ [] else map post_line posts)
  unfolding load_public_posts starts_with
  shown_public [] h = rw v.empty refl
  shown_public (p ∷ posts) h =
      rw
        (
          post_lines_lem (p ∷ posts),
          split_lines-unlines (map post_line (p ∷ posts)) (post_lines-one_line (p ∷ posts) h),
          posts_kept (p ∷ posts),
        )
        refl

  -- Without a login the window shows the line of every post that the server lists, in the same
  -- order, and its own text if there is none, where the texts of the posts have no newline.
  pub load_public_posts-list_posts :
      (e : Engine) (sd : ℕ) (s : App)
      → all is_flat (listed_posts e sd s) ≡ true
      → load_public_posts trimmed true (execute_list_posts e sd s).1 ≡ (
          if is_empty (listed_posts e sd s)
          then no_public_posts_label ∷ []
          else map post_line (listed_posts e sd s))
  unfolding execute_list_posts
  load_public_posts-list_posts e sd s flat =
      ap (load_public_posts trimmed true) (ground arith) ∙ shown_public (listed_posts e sd s) flat

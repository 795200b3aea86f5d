-- ===== src/Client/MainWindow/Posts.antt =====
-- qt_client/MainWindow.cpp, `loadPosts`, on the response of `list_posts`.
use mathlib.Core.List.{append_assoc}
use cpp_social_network_clien.Common.{
  ℕ, Bool, true, not, ◌&&◌, ◌||◌, ◌≡◌, refl, ap, ◌∙◌, List, [], ◌∷◌, ◌++◌, map, Text, text, arith,
  any, all, is_empty, if◌then◌else◌,
}
use cpp_social_network_clien.Decimal.{int_to_string}
use cpp_social_network_clien.Database.{Engine}
use cpp_social_network_clien.Database.Posts.{Post}
use cpp_social_network_clien.App.{App}
use cpp_social_network_clien.Commands.Posting.{post_lines, listed_posts, execute_list_posts}
use cpp_social_network_clien.Client.Texts.{contains, starts_with, one_line}
use cpp_social_network_clien.Client.Lines.{
  unlines, contains-unlines, one_line-append, read_lines-heading, int-one_line,
}
use cpp_social_network_clien.Client.MainWindow.{load_posts, no_posts_label}

-- The line of a post, as the server prints it.
abbrev pub post_line : Post → Text
post_line p =
    text "["
    ++ (p.created_at
        ++ (text "] "
            ++ (p.author
                ++ (text " (" ++ (int_to_string p.visibility ++ (text "): " ++ p.content))))))

pub post_lines_lem : (posts : List Post) → post_lines posts ≡ unlines (map post_line posts)
unfolding post_lines
post_lines_lem [] = refl
post_lines_lem (p ∷ posts) = rw (post_lines_lem posts) (simp append_assoc)

-- The texts of a post have no newline.
abbrev pub is_flat : Post → Bool
is_flat p = one_line p.created_at && one_line p.author && one_line p.content

post_line-one_line : (p : Post) → is_flat p ≡ true → one_line (post_line p) ≡ true
post_line-one_line p h = one_line-append (text "[") _ (unfold all in refl) (
    one_line-append p.created_at _ (ground arith) (
      one_line-append (text "] ") _ (unfold all in refl) (
        one_line-append p.author _ (ground arith) (
          one_line-append (text " (") _ (unfold all in refl) (
            one_line-append (int_to_string p.visibility) _ (int-one_line p.visibility)
              (one_line-append (text "): ") p.content (unfold all in refl) (ground arith)))))))

pub post_lines-one_line :
    (posts : List Post) → all is_flat posts ≡ true → all one_line (map post_line posts) ≡ true
unfolding all
post_lines-one_line [] h = refl
post_lines-one_line (p ∷ posts) h = ground (arith, post_line-one_line p, post_lines-one_line posts)

post_lines-nonempty :
    (posts : List Post) → all (λ line. not (is_empty line)) (map post_line posts) ≡ true
unfolding all
post_lines-nonempty [] = refl
post_lines-nonempty (p ∷ posts) = post_lines-nonempty posts

abbrev pub posts_response : List Post → Text
posts_response posts =
    if is_empty posts then text "OK No posts\n" else text "OK Posts:\n" ++ post_lines posts

-- The posts of which a line has the words "No posts".
abbrev pub says_none : List Post → Bool
says_none posts = any (contains (text "No posts")) (map post_line posts)

heading_contains :
    (rest : Text)
    → contains (text "No posts") (text "OK Posts:\n" ++ rest) ≡ contains (text "No posts") rest
unfolding contains starts_with
heading_contains rest = refl

shown_posts :
    (posts : List Post)
    → all is_flat posts ≡ true
    → load_posts (posts_response posts)
      ≡ (if is_empty posts || says_none posts then no_posts_label ∷ [] else map post_line posts)
unfolding load_posts
shown_posts [] h = unfold contains starts_with in refl
shown_posts (p ∷ posts) h =
    rw
      (
        post_lines_lem (p ∷ posts),
        heading_contains (unlines (map post_line (p ∷ posts))),
        contains-unlines 78 (text "o posts") (map post_line (p ∷ posts)) (unfold all in refl),
        read_lines-heading (text "OK Posts:") (map post_line (p ∷ posts)) (unfold all in refl)
            (post_lines-one_line (p ∷ posts) h) (post_lines-nonempty (p ∷ posts)),
      )
      refl

-- On the whole response: the window shows the line of every post that the server lists, in the same
-- order, and that there are no posts where it lists none; but if the line of any post has the words
-- "No posts" in it, it says that there are none. The texts of the posts have no newline.
pub load_posts-list_posts :
    (e : Engine) (sd : ℕ) (s : App)
    → all is_flat (listed_posts e sd s) ≡ true
    → load_posts (execute_list_posts e sd s).1 ≡ (
        if is_empty (listed_posts e sd s) || says_none (listed_posts e sd s)
        then no_posts_label ∷ []
        else map post_line (listed_posts e sd s))
unfolding execute_list_posts
load_posts-list_posts e sd s flat =
    ap load_posts (ground arith) ∙ shown_posts (listed_posts e sd s) flat

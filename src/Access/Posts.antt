-- ===== src/Access/Posts.antt =====
-- ListPostsCommand: the posts that a client is shown, whether or not it is logged in.
use cpp_social_network_clien.Common.{ℕ, pos, true, ◌≡◌, ◌⊎◌, inl, inr, List, [], ◌∷◌, All, if_both}
use cpp_social_network_clien.Database.{Engine, IsSound}
use cpp_social_network_clien.Database.Posts.{Post, get_visible_posts, get_public_posts}
use cpp_social_network_clien.Database.Posts.Visibility.{
  Sees, get_visible_posts-Sees, get_public_posts_public,
}
use cpp_social_network_clien.SessionManager.{is_authenticated, get_username}
use cpp_social_network_clien.App.{App}
use cpp_social_network_clien.Commands.Posting.{listed_posts}

-- What the client on a socket may be shown.
abbrev pub MayRead : ℕ → App → Post → Type 0
MayRead sd s p =
    (p.visibility ≡ pos 0)
    ⊎ ((is_authenticated sd s.sessions ≡ true)
        × Sees s.db (get_username sd s.sessions) p.author p.visibility)

All-mono :
    (P Q : Post → Type 0) (posts : List Post) → ((p : Post) → P p → Q p) → All P posts → All Q posts
All-mono P Q [] k h = tt
All-mono P Q (p ∷ posts) k h = (k p h.0, All-mono P Q posts k h.1)

-- If SQLite delivers only rows that were selected, every post that `list_posts` shows a client is
-- public, or the client is logged in as a user to whom the visibility rule grants it.
pub listed_posts-MayRead :
    (e : Engine) (sd : ℕ) (s : App) → IsSound e → All (MayRead sd s) (listed_posts e sd s)
unfolding listed_posts
listed_posts-MayRead e sd s sound =
    if_both (λ (posts : List Post). All (MayRead sd s) posts) (is_authenticated sd s.sessions) _ _
      (λ within.
        All-mono (λ p. Sees s.db (get_username sd s.sessions) p.author p.visibility) (MayRead sd s)
          (get_visible_posts e s.db (get_username sd s.sessions)) (λ p h. inr (within, h))
          (get_visible_posts-Sees e s.db (get_username sd s.sessions) sound))
      (λ _.
        All-mono (λ p. p.visibility ≡ pos 0) (MayRead sd s) (get_public_posts e s.db) (λ p h. inl h)
          (get_public_posts_public e s.db sound))

-- ===== src/Database/Posts/Visibility.antt =====
-- server/Database.cpp, `getVisiblePosts` and `getPublicPosts`: who sees which post.
use cpp_social_network_clien.Common.{
  ℤ, pos, Bool, true, ◌&&◌, ◌≡◌, inl, inr, List, Text, arith, text_leb, text_leb_total,
  text_leb_trans, any, order_by, all-select, all-order_by, All, All-of_all, IsOrdered,
  order_by-IsOrdered, any-map, any-order_by, any-select, ◌==◌, int_eq, text_eq, int_beq_iff,
  text_beq_iff, eq_refl, ◌∙◌, IsOrdered-map, Has, Has-any, any-Has, All-map, Bool-cases,
}
use cpp_social_network_clien.Database.{
  Database, FriendRow, PostRow, Engine, IsSound, IsReliable, select_visible_posts,
  select_public_posts, between, accepted,
}
use cpp_social_network_clien.Database.Queries.{query-all, any-query}
use cpp_social_network_clien.Database.Posts.{
  Post, to_post, visible_to, newer, get_visible_posts, get_public_posts,
}

-- A friendship that was accepted, as `author` holds it.
pub record Befriends (author viewer : Text) (r : FriendRow) : Type 0 where
  pub by_author : r.user_username ≡ author
  pub with_viewer : r.friend_username ≡ viewer
  pub is_accepted : r.status ≡ pos 1

-- The documented rule: one's own posts, public ones, posts for friends if the author has the
-- viewer as a friend, and posts for close friends if the author has marked the viewer as one.
pub data Sees (db : Database) (viewer author : Text) (visibility : ℤ) : Type 0 where
  own : author ≡ viewer → Sees db viewer author visibility
  public : visibility ≡ pos 0 → Sees db viewer author visibility
  friend :
      visibility ≡ pos 1
      → (r : FriendRow) → Has r db.friends
      → Befriends author viewer r
      → Sees db viewer author visibility
  close_friend :
      visibility ≡ pos 2
      → (r : FriendRow) → Has r db.friends
      → Befriends author viewer r
      → r.friend_type ≡ pos 1
      → Sees db viewer author visibility

module _ (author viewer : Text) (f : FriendRow) where
  Befriends-of_test : (between author viewer f && accepted f) ≡ true → Befriends author viewer f
  Befriends-of_test h = record {
    by_author = ground (arith, text_beq_iff f.user_username author);
    with_viewer = ground (arith, text_beq_iff f.friend_username viewer);
    is_accepted = ground (arith, int_beq_iff f.status (pos 1));
  }

  test_of_Befriends : Befriends author viewer f → (between author viewer f && accepted f) ≡ true
  test_of_Befriends b = ground (
    arith,
    text_beq_iff f.user_username author,
    text_beq_iff f.friend_username viewer,
    int_beq_iff f.status (pos 1),
  )

module _ (db : Database) (viewer : Text) (r : PostRow) where
  Sees-visible_to : visible_to db viewer r ≡ true → Sees db viewer r.author_username r.visibility
  unfolding visible_to
  Sees-visible_to h = elim (Bool-cases (r.author_username == viewer)) [
    | inl y ↦ own ((text_beq_iff r.author_username viewer).0 y)
    | inr n ↦ elim (Bool-cases (r.visibility == pos 0)) [
      | inl y ↦ public ((int_beq_iff r.visibility (pos 0)).0 y)
      | inr n' ↦ elim (Bool-cases (r.visibility == pos 1)) [
        | inl y ↦
            let one : r.visibility ≡ pos 1 = (int_beq_iff r.visibility (pos 1)).0 y in
            let (f, there, k) =
              any-Has (λ f. between r.author_username viewer f && accepted f) db.friends
                (ground arith) in
            friend one f there (Befriends-of_test r.author_username viewer f k)
        | inr n'' ↦
            let (f, there, k) =
              any-Has
                (λ f. between r.author_username viewer f && accepted f && f.friend_type == pos 1)
                db.friends (ground arith) in
            close_friend (ground (arith, int_beq_iff r.visibility (pos 2))) f there
              (Befriends-of_test r.author_username viewer f (ground arith))
              (ground (arith, int_beq_iff f.friend_type (pos 1)))
      ]
    ]
  ]

  visible_to-Sees : Sees db viewer r.author_username r.visibility → visible_to db viewer r ≡ true
  unfolding visible_to
  visible_to-Sees (own e) = ground (arith, text_beq_iff r.author_username viewer)
  visible_to-Sees (public e) = ground (arith, int_beq_iff r.visibility (pos 0))
  visible_to-Sees (friend e f there b) = ground (
    arith,
    int_beq_iff r.visibility (pos 1),
    Has-any (λ f. between r.author_username viewer f && accepted f) f db.friends there
        (test_of_Befriends r.author_username viewer f b),
  )
  visible_to-Sees (close_friend e f there b close) = ground (
    arith,
    int_beq_iff r.visibility (pos 2),
    Has-any (λ f. between r.author_username viewer f && accepted f && f.friend_type == pos 1) f
        db.friends there
        (ground (
          arith,
          test_of_Befriends r.author_username viewer f b,
          int_beq_iff f.friend_type (pos 1),
        )),
  )

-- If SQLite delivers only rows that were selected, a viewer is shown only posts that the
-- visibility rule grants.
pub get_visible_posts-Sees :
    (e : Engine) (db : Database) (viewer : Text)
    → IsSound e
    → All (λ p. Sees db viewer p.author p.visibility) (get_visible_posts e db viewer)
unfolding get_visible_posts
get_visible_posts-Sees e db viewer s =
    All-map to_post (λ p. Sees db viewer p.author p.visibility) _
      (All-of_all (visible_to db viewer) _ _ (λ r. Sees-visible_to db viewer r)
        (all-order_by newer (visible_to db viewer) _
          ∙ query-all e (select_visible_posts viewer) db (visible_to db viewer) _ s
              (all-select (visible_to db viewer) db.posts)))

-- The post that a row holds.
abbrev pub is_post_of : PostRow → Post → Bool
is_post_of r p =
    p.author == r.author_username
    && p.content == r.content
    && p.visibility == r.visibility
    && p.created_at == r.created_at

-- Without a database error a viewer is shown every post that the visibility rule grants.
pub get_visible_posts_complete :
    (e : Engine) (db : Database) (viewer : Text) (r : PostRow)
    → IsReliable e
    → Has r db.posts
    → Sees db viewer r.author_username r.visibility
    → any (is_post_of r) (get_visible_posts e db viewer) ≡ true
unfolding get_visible_posts
get_visible_posts_complete e db viewer r reliable there sees =
    any-map to_post (is_post_of r) _
    ∙ any-order_by newer _ _
    ∙ any-query e (select_visible_posts viewer) db _ _ reliable
    ∙ any-select _ (visible_to db viewer) db.posts
    ∙ Has-any (λ q. visible_to db viewer q && is_post_of r (to_post q)) r db.posts there
        (rw (
          visible_to-Sees db viewer r sees,
          eq_refl r.author_username,
          eq_refl r.content,
          eq_refl r.visibility,
          eq_refl r.created_at,
        ))

-- If SQLite delivers only rows that were selected, a client that is not logged in is shown public
-- posts only.
pub get_public_posts_public :
    (e : Engine) (db : Database)
    → IsSound e
    → All (λ p. p.visibility ≡ pos 0) (get_public_posts e db)
unfolding get_public_posts
get_public_posts_public e db s =
    All-map to_post (λ p. p.visibility ≡ pos 0) _
      (All-of_all (λ r. r.visibility == pos 0) _ _ (λ r. (int_beq_iff r.visibility (pos 0)).0)
        (all-order_by newer _ _ ∙ query-all e select_public_posts db _ _ s (all-select _ db.posts)))

-- Both lists of posts, of a client that is logged in and of one that is not, are in order of time,
-- newest first, in whatever order SQLite finds the rows.
pub posts_newest_first :
    (e : Engine) (db : Database) (viewer : Text)
    → IsOrdered (λ p q. text_leb q.created_at p.created_at) (get_visible_posts e db viewer)
      × IsOrdered (λ p q. text_leb q.created_at p.created_at) (get_public_posts e db)
unfolding get_visible_posts get_public_posts
posts_newest_first e db viewer =
    (IsOrdered-map to_post _ _ (ordered _), IsOrdered-map to_post _ _ (ordered _))
  where
    ordered : (rows : List PostRow) → IsOrdered newer (order_by newer rows)
    ordered =
        order_by-IsOrdered newer (λ p q h. text_leb_total q.created_at p.created_at h)
          (λ p q r h k. text_leb_trans r.created_at q.created_at p.created_at k h)

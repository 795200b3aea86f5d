-- ===== src/Database/Posts/Closeness.antt =====
-- server/Database.cpp, `setFriendType` and `getVisiblePosts`: marking a close friend and the posts
-- for close friends.
use cpp_social_network_clien.Common.{
  eq_apart, ℤ, pos, Bool, true, false, ◌&&◌, ◌≡◌, ◌≢◌, refl, List, [], ◌∷◌, map, Text, arith, any,
  int_eq, text_eq, ◌==◌,
}
use cpp_social_network_clien.Database.{
  Database, FriendRow, PostRow, Engine, IsReliable, perform, update_friend_type, between, accepted,
  set_type,
}
use cpp_social_network_clien.Database.Queries.{are_friends-any, exec_reliable}
use cpp_social_network_clien.Database.Friends.{set_friend_type, out_of_range}
use cpp_social_network_clien.Database.Posts.{visible_to}

abbrev close : Text → Text → FriendRow → Bool
close author viewer r = between author viewer r && accepted r && r.friend_type == pos 1

-- Every accepted row of the pair has the new type.
close-set_type :
    (author viewer : Text) (type : ℤ) (rows : List FriendRow)
    → any (close author viewer) (map (set_type type author viewer) rows)
      ≡ (any (λ r. between author viewer r && accepted r) rows && type == pos 1)
unfolding any
close-set_type author viewer type [] = refl
close-set_type author viewer type (r ∷ rows) =
    ground (arith, close-set_type author viewer type rows)

-- Without a database error, setting a type from 0 to 2 for somebody else who is an accepted friend
-- succeeds, and afterwards this friend sees a post of the user for close friends exactly if the
-- type is 1.
pub set_friend_type-visible_to :
    (e : Engine) (db : Database) (viewer : Text) (type : ℤ) (post : PostRow)
    → IsReliable e
    → out_of_range type ≡ false
    → any (λ r. between post.author_username viewer r && accepted r) db.friends ≡ true
    → post.author_username ≢ viewer
    → post.visibility ≡ pos 2
    → ((set_friend_type e db post.author_username viewer type).1 ≡ true)
      × (visible_to (set_friend_type e db post.author_username viewer type).0 viewer post
          ≡ (type == pos 1))
unfolding set_friend_type visible_to
set_friend_type-visible_to e db viewer type post reliable known friends apart close_only =
    rw
      (
        known,
        are_friends-any e db post.author_username viewer reliable,
        friends,
        exec_reliable e (update_friend_type type post.author_username viewer) db
            (record db { friends = map (set_type type post.author_username viewer) db.friends })
            reliable (unfold perform in refl),
      )
      (refl, seen)
  where
    seen :
        visible_to
          (record db { friends = map (set_type type post.author_username viewer) db.friends })
          viewer
          post
        ≡ (type == pos 1)
    seen =
        rw
          (
            eq_apart post.author_username viewer apart,
            close_only,
            close-set_type post.author_username viewer type db.friends,
            friends,
          )
          refl

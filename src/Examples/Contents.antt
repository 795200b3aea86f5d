-- ===== src/Examples/Contents.antt =====
-- Posts, friendships and private conversations.
use cpp_social_network_clien.Common.{
  ◌≡◌, ◌≢◌, refl, arith, true, not, ◌&&◌, ◌||◌, none, inl, inr, pos, text, any, All, false, ◌==◌,
  text_eq, int_eq, text_beq,
}
use cpp_social_network_clien.Database.{between, accepted}
use cpp_social_network_clien.Database.Posts.{get_visible_posts, visible_to}
use cpp_social_network_clien.Database.Posts.Visibility.{
  Sees, is_post_of, get_visible_posts-Sees, get_visible_posts_complete,
}
use cpp_social_network_clien.Database.Friends.{accept_friend_request, are_friends, set_friend_type}
use cpp_social_network_clien.Database.Friends.Requests.{Requested, accept_friend_request_mutual}
use cpp_social_network_clien.Database.Messages.{
  get_private_conversation, get_user_conversations, get_conversation_participants, is_participant,
}
use cpp_social_network_clien.Database.Messages.Private.{get_private_conversation-none}
use cpp_social_network_clien.Database.Messages.Listing.{conversations_listed, exists_conversation}
use cpp_social_network_clien.Database.Posts.Closeness.{set_friend_type-visible_to}
use cpp_social_network_clien.Examples.Setting.{
  ideal, ideal-IsReliable, town, town-IsValid, diary, ada_bob,
}

get_visible_posts-Sees_example :
    All
      (λ p. Sees town (text "cyd") p.author p.visibility)
      (get_visible_posts ideal town (text "cyd"))
get_visible_posts-Sees_example =
    get_visible_posts-Sees ideal town (text "cyd") ideal-IsReliable.sound

-- Bob is a close friend of Ada's.
bob-Sees : Sees town (text "bob") diary.author_username diary.visibility
bob-Sees =
    Sees.close_friend refl ada_bob (inl refl)
      (record { by_author = refl; with_viewer = refl; is_accepted = refl }) refl

get_visible_posts_complete_example :
    any (is_post_of diary) (get_visible_posts ideal town (text "bob")) ≡ true
get_visible_posts_complete_example =
    get_visible_posts_complete ideal town (text "bob") diary ideal-IsReliable (inr (inl refl))
      bob-Sees

get_private_conversation-none_example :
    get_private_conversation ideal town (text "ada") (text "bob") ≡ none
get_private_conversation-none_example =
    get_private_conversation-none ideal town (text "ada") (text "bob") ideal-IsReliable.sound
      town-IsValid

cyd_not_ada : text "cyd" ≢ text "ada"
cyd_not_ada e = ground (arith, e)

cyd-Requested : Requested town (text "cyd") (text "ada")
unfolding any text_beq
cyd-Requested = refl

accept_friend_request_mutual_example :
    let after = (accept_friend_request ideal town (text "ada") (text "cyd")).0 in
    ((accept_friend_request ideal town (text "ada") (text "cyd")).1 ≡ true)
    × (are_friends ideal after (text "cyd") (text "ada") ≡ true)
    × (are_friends ideal after (text "ada") (text "cyd") ≡ (
        not (any (between (text "ada") (text "cyd")) town.friends)
        || any (λ r. between (text "ada") (text "cyd") r && accepted r) town.friends))
accept_friend_request_mutual_example =
    accept_friend_request_mutual ideal ideal-IsReliable town (text "cyd") (text "ada") ideal
      ideal-IsReliable cyd_not_ada cyd-Requested

-- Nobody has sent Dan a request, nor he to anybody.
dan_fresh : any (between (text "dan") (text "bob")) town.friends ≡ false
unfolding any text_beq
dan_fresh = refl

dan_fresh_back : any (between (text "bob") (text "dan")) town.friends ≡ false
unfolding any text_beq
dan_fresh_back = refl

dan_not_bob : text "dan" ≢ text "bob"
dan_not_bob e = ground (arith, e)

conversations_listed_example :
    (any (λ d. d == pos 1) (get_user_conversations ideal town (text "ada")) ≡ (
      is_participant ideal town (pos 1) (text "ada")
      && exists_conversation (pos 1) town.conversations))
    × (any (λ u. u == text "ada") (get_conversation_participants ideal town (pos 1))
        ≡ is_participant ideal town (pos 1) (text "ada"))
conversations_listed_example =
    conversations_listed ideal ideal town (pos 1) (text "ada") ideal-IsReliable ideal-IsReliable

ada_bob_friends :
    any (λ r. between diary.author_username (text "bob") r && accepted r) town.friends ≡ true
unfolding any text_beq
ada_bob_friends = refl

ada_not_bob : diary.author_username ≢ text "bob"
ada_not_bob e = ground (arith, e)

set_friend_type-visible_to_example :
    ((set_friend_type ideal town diary.author_username (text "bob") (pos 2)).1 ≡ true)
    × (visible_to
          (set_friend_type ideal town diary.author_username (text "bob") (pos 2)).0
          (text "bob")
          diary
        ≡ (pos 2 == pos 1))
set_friend_type-visible_to_example =
    set_friend_type-visible_to ideal town (text "bob") (pos 2) diary ideal-IsReliable refl
      ada_bob_friends ada_not_bob refl

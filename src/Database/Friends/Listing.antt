-- ===== src/Database/Friends/Listing.antt =====
-- server/Database.cpp, `getFriends` and `getFriendRequests` against the tests that the commands
-- use.
use cpp_social_network_clien.Common.{
  ◌≡◌, sym, ◌∙◌, Text, arith, any, any-map, any-select, any_congr, ◌==◌, text_eq, int_eq,
}
use cpp_social_network_clien.Database.{
  Database, Engine, IsReliable, select_friends, select_requests,
}
use cpp_social_network_clien.Database.Queries.{any-query, are_friends-any, has_request-any}
use cpp_social_network_clien.Database.Friends.{
  has_request, are_friends, get_friends, get_friend_requests,
}

-- Without a database error the list of friends has exactly those for whom `areFriends` says yes,
-- and the list of requests exactly those whose pending request `acceptFriendRequest` finds.
pub friends_listed :
    (e later : Engine) (db : Database) (user other : Text)
    → IsReliable e
    → IsReliable later
    → (any (λ f. f.0 == other) (get_friends e db user) ≡ are_friends later db user other)
      × (any (λ from. from == other) (get_friend_requests e db user)
          ≡ has_request later db other user)
unfolding get_friends get_friend_requests
friends_listed e later db user other reliable sure = (
  any-map _ _ _
      ∙ any-query e (select_friends user) db _ _ reliable
      ∙ any-select _ _ db.friends
      ∙ any_congr _ _ db.friends (λ r. ground arith)
      ∙ sym (are_friends-any later db user other sure),
  any-map _ _ _
      ∙ any-query e (select_requests user) db _ _ reliable
      ∙ any-select _ _ db.friends
      ∙ any_congr _ _ db.friends (λ r. ground arith)
      ∙ sym (has_request-any later db other user sure),
)

-- ===== src/Database/Friends.antt =====
-- server/Database.cpp: friend requests, friendships and their types. The mutex has no part in the
-- model, since the server runs one request at a time.
pub mod Requests
pub mod Lifecycle
pub mod Listing
pub mod Graph
pub mod Refinement
use cpp_social_network_clien.Common.{
  Bool, true, false, not, ◌&&◌, ◌||◌, List, map, ℤ, pos, negsuc, Text, ◌==◌, text_eq, leb,
  if◌then◌else◌, select, is_empty,
}
use cpp_social_network_clien.Database.{
  Database, FriendRow, Engine, insert_request, check_request, update_status, insert_reverse,
  check_friends, update_friend_type, select_friends, select_requests, between, accepted, pending,
  exec, query,
}

unfoldable pub send_friend_request : Engine → Database → Text → Text → Database × Bool
send_friend_request e db from to = exec e (insert_request from to) db

-- The check of `acceptFriendRequest`: there is a pending request.
unfoldable pub has_request : Engine → Database → Text → Text → Bool
has_request e db from to = not (
    is_empty (
      query e (check_request from to) db (select (λ r. between from to r && pending r) db.friends)))

-- The results of the two writes are not looked at.
unfoldable pub accept_friend_request : Engine → Database → Text → Text → Database × Bool
unfolding has_request
accept_friend_request e db to from =
    if has_request e db from to
    then (let (updated, _) = exec e (update_status from to) db in
        let (reversed, _) = exec e (insert_reverse to from) updated in (reversed, true))
    else (db, false)

unfoldable pub are_friends : Engine → Database → Text → Text → Bool
are_friends e db a b = not (
    is_empty
      (query e (check_friends a b) db (select (λ r. between a b r && accepted r) db.friends)))

-- type < 0 || type > 2
abbrev pub out_of_range : ℤ → Bool
out_of_range (negsuc n) = true
out_of_range (pos n) = not (leb n 2)

unfoldable pub set_friend_type : Engine → Database → Text → Text → ℤ → Database × Bool
set_friend_type e db user friend_user type =
    if out_of_range type
    then (db, false)
    else if not (are_friends e db user friend_user)
    then (db, false)
    else exec e (update_friend_type type user friend_user) db

unfoldable pub get_friends : Engine → Database → Text → List (Text × ℤ)
get_friends e db username =
    map (λ r. (r.friend_username, r.friend_type))
      (query e (select_friends username) db
        (select (λ r. r.user_username == username && accepted r) db.friends))

unfoldable pub get_friend_requests : Engine → Database → Text → List Text
get_friend_requests e db username =
    map (λ r. r.user_username)
      (query e (select_requests username) db
        (select (λ r. r.friend_username == username && pending r) db.friends))

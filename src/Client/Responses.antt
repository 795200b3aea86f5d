-- ===== src/Client/Responses.antt =====
-- server/commands/*.cpp: responses that one call of recv on the client can deliver whole.
use cpp_social_network_clien.Common.{
  ℕ, ℤ, ◌<◌, Bool, true, ◌≡◌, ◌&&◌, Text, arith, all, length, ltb, leb,
}
use cpp_social_network_clien.Database.{Engine}
use cpp_social_network_clien.App.{App}
use cpp_social_network_clien.Commands.Account.{execute_login, execute_register}
use cpp_social_network_clien.Commands.Friendship.{
  execute_list_friends, execute_list_friend_requests,
}
use cpp_social_network_clien.Commands.Posting.{execute_create_post, execute_list_posts}
use cpp_social_network_clien.Commands.Messaging.{execute_chats, chat_lines}
use cpp_social_network_clien.Server.Lines.{is_nonzero}
use cpp_social_network_clien.Client.Exchange.{buffer_size}
use cpp_social_network_clien.Client.Actions.Executed.{IsDeliverable}

abbrev is_deliverable : Text → Bool
is_deliverable t = ltb 0 (length t) && leb (length t) buffer_size && all is_nonzero t

deliverable : (t : Text) → is_deliverable t ≡ true → IsDeliverable t
deliverable t h = record { given = ground arith; short = ground arith; nonzero = ground arith }

pub execute_login-IsDeliverable :
    (hasher : Text → ℕ) (e : Engine) (username password : Text) (sd : ℕ) (s : App)
    → IsDeliverable (execute_login hasher e username password sd s).1
unfolding execute_login all
execute_login-IsDeliverable hasher e username password sd s = deliverable _ (ground arith)

pub execute_register-IsDeliverable :
    (hasher : Text → ℕ) (e : Engine) (user pass email role visibility : Text) (s : App)
    → IsDeliverable (execute_register hasher e user pass email role visibility s).1
unfolding execute_register all
execute_register-IsDeliverable hasher e user pass email role visibility s =
    deliverable _ (ground arith)

pub execute_create_post-IsDeliverable :
    (e : Engine) (visibility : ℤ) (content : Text) (sd : ℕ) (s : App)
    → IsDeliverable (execute_create_post e visibility content sd s).1
unfolding execute_create_post all
execute_create_post-IsDeliverable e visibility content sd s = deliverable _ (ground arith)

-- The lists are never empty responses.
module _ (e : Engine) (sd : ℕ) (s : App) where
  pub execute_list_friends-given : 0 < length (execute_list_friends e sd s).1
  unfolding execute_list_friends
  execute_list_friends-given = ground arith

  pub execute_list_friend_requests-given : 0 < length (execute_list_friend_requests e sd s).1
  unfolding execute_list_friend_requests
  execute_list_friend_requests-given = ground arith

  pub execute_list_posts-given : 0 < length (execute_list_posts e sd s).1
  unfolding execute_list_posts
  execute_list_posts-given = ground arith

  pub execute_chats-given : 0 < length (execute_chats e sd s).1
  unfolding execute_chats chat_lines
  execute_chats-given = ground arith

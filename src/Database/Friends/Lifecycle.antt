-- ===== src/Database/Friends/Lifecycle.antt =====
-- server/Database.cpp: from a friend request to a friendship.
use cpp_social_network_clien.Common.{
  pos, true, false, ◌≡◌, ◌≢◌, refl, ◌∙◌, [], ◌∷◌, ◌++◌, Text, arith, any, any-append, any-snoc,
  int_eq, text_eq, eq_refl, text_beq_iff,
}
use cpp_social_network_clien.Database.{
  Database, Engine, IsReliable, perform, insert_request, between, new_friend,
}
use cpp_social_network_clien.Database.Queries.{exec_reliable}
use cpp_social_network_clien.Database.Friends.{
  send_friend_request, accept_friend_request, are_friends,
}
use cpp_social_network_clien.Database.Friends.Requests.{Requested, accept_friend_request_mutual}

-- The database with one more request.
abbrev with_request : Database → Text → Text → Database
with_request db from to = record db { friends = db.friends ++ new_friend from to (pos 0) ∷ [] }

send_friend_request_adds :
    (e : Engine) (db : Database) (from to : Text)
    → IsReliable e
    → any (between from to) db.friends ≡ false
    → send_friend_request e db from to ≡ (with_request db from to, true)
unfolding send_friend_request
send_friend_request_adds e db from to reliable fresh =
    exec_reliable e (insert_request from to) db (with_request db from to) reliable
      (unfold perform in rw fresh)

with_request-Requested :
    (db : Database) (from to : Text) → Requested (with_request db from to) from to
with_request-Requested db from to = any-snoc _ db.friends _ (rw (eq_refl from, eq_refl to) refl)

no_reverse :
    (db : Database) (from to : Text)
    → from ≢ to
    → any (between to from) db.friends ≡ false
    → any (between to from) (with_request db from to).friends ≡ false
unfolding any
no_reverse db from to apart fresh =
    any-append (between to from) db.friends (new_friend from to (pos 0) ∷ [])
    ∙ ground (arith, text_beq_iff from to)

-- Two different users without any earlier row between them are friends of each other once one has
-- sent a request and the other has accepted it, if no step meets a database error.
pub befriend :
    (e later at_last : Engine) (db : Database) (from to : Text)
    → IsReliable e
    → IsReliable later
    → IsReliable at_last
    → from ≢ to
    → any (between from to) db.friends ≡ false
    → any (between to from) db.friends ≡ false
    → let after = (accept_friend_request later (send_friend_request e db from to).0 to from).0 in
      (are_friends at_last after from to ≡ true) × (are_friends at_last after to from ≡ true)
befriend e later at_last db from to reliable sure certain apart fresh fresh_back =
    rw (send_friend_request_adds e db from to reliable fresh) (
      let (done, forth, back) =
        accept_friend_request_mutual later sure (with_request db from to) from to at_last certain
          apart (with_request-Requested db from to) in
      (forth, back ∙ rw (no_reverse db from to apart fresh_back) refl))

-- ===== src/Database/Friends/Requests.antt =====
-- server/Database.cpp: what accepting a friend request leads to, for both sides.
use cpp_social_network_clien.Common.{
  pos, Bool, true, not, ◌&&◌, ◌||◌, ◌≡◌, ◌≢◌, refl, ap, ◌∙◌, List, [], ◌∷◌, ◌++◌, map, Text, arith,
  any, any-append, any-append_left, any-map, any_congr, Bool-cases, inl, inr, int_eq, text_eq,
  text_beq_iff, eq_refl, if◌then◌else◌, any_mono,
}
use cpp_social_network_clien.Database.{
  Database, FriendRow, Engine, IsReliable, perform, exec, update_status, insert_reverse, between,
  accepted, pending, set_status, new_friend,
}
use cpp_social_network_clien.Database.Queries.{
  are_friends-any, has_request-any, exec_reliable, exec_refused,
}
use cpp_social_network_clien.Database.Friends.{accept_friend_request, are_friends}

-- The rows that the table holds of a pair.
abbrev pub Requested : Database → Text → Text → Type 0
Requested db from to = any (λ r. between from to r && pending r) db.friends ≡ true

abbrev accepted_pair : List FriendRow → Text → Text → Bool
accepted_pair rows a b = any (λ r. between a b r && accepted r) rows

module _ (from to : Text) (rows : List FriendRow) where
  -- Accepting marks every row of the pair.
  accepted-set_status :
      any (between from to) rows ≡ true
      → accepted_pair (map (set_status from to) rows) from to ≡ true
  accepted-set_status h =
      any-map (set_status from to) _ rows ∙ any_mono (between from to) _ rows (λ r k. rw (k, k)) h

  pub between-set_status :
      (a b : Text) → any (between a b) (map (set_status from to) rows) ≡ any (between a b) rows
  between-set_status a b =
      any-map (set_status from to) (between a b) rows ∙ any_congr _ _ rows (λ r. ground arith)

  -- and no row of the reverse pair.
  reverse-set_status :
      from ≢ to → accepted_pair (map (set_status from to) rows) to from ≡ accepted_pair rows to from
  reverse-set_status apart =
      any-map (set_status from to) _ rows
      ∙ any_congr _ _ rows
          (λ r. ground (arith, text_beq_iff r.user_username from, text_beq_iff r.user_username to))

-- The table after a request was accepted without a database error.
abbrev pub after_accept : Text → Text → List FriendRow → List FriendRow
after_accept from to rows =
    let marked = map (set_status from to) rows in
    if any (between to from) rows then marked else marked ++ new_friend to from (pos 1) ∷ []

module _ (from to : Text) (rows : List FriendRow) where
  after_accept_forth :
      any (between from to) rows ≡ true → accepted_pair (after_accept from to rows) from to ≡ true
  after_accept_forth there = elim (Bool-cases (any (between to from) rows)) [
    | inl y ↦ rw y (accepted-set_status from to rows there)
    | inr n ↦ rw n (any-append_left _ _ _ (accepted-set_status from to rows there))
  ]

  after_accept_back :
      from ≢ to
      → accepted_pair (after_accept from to rows) to from
        ≡ (not (any (between to from) rows) || accepted_pair rows to from)
  after_accept_back apart = elim (Bool-cases (any (between to from) rows)) [
    | inl y ↦ rw y (reverse-set_status from to rows apart)
    | inr n ↦ rw n (
        any-append _ (map (set_status from to) rows) _
        ∙ (unfold any in rw (eq_refl to, eq_refl from) (ground arith)))
  ]

module _ (e : Engine) (reliable : IsReliable e) (db : Database) (from to : Text) where
  reversed_eq :
      (rows : List FriendRow)
      → (exec e (insert_reverse to from) (record db { friends = map (set_status from to) rows })).0
        ≡ record db { friends = after_accept from to rows }
  reversed_eq rows = elim (Bool-cases (any (between to from) rows)) [
    | inl y ↦
        rw
          (exec_refused e (insert_reverse to from)
            (record db { friends = map (set_status from to) rows })
            (unfold perform in rw (between-set_status from to rows to from, y)))
          (rw y)
    | inr n ↦
        rw
          (exec_reliable e (insert_reverse to from)
            (record db { friends = map (set_status from to) rows })
            (record db {
              friends = map (set_status from to) rows ++ new_friend to from (pos 1) ∷ [];
            })
            reliable (unfold perform in rw (between-set_status from to rows to from, n)))
          (rw n)
  ]

  pub accept_eq :
      Requested db from to
      → accept_friend_request e db to from
        ≡ (record db { friends = after_accept from to db.friends }, true)
  unfolding accept_friend_request
  accept_eq pending =
      rw (has_request-any e db from to reliable, pending)
        (rw
          (exec_reliable e (update_status from to) db
            (record db { friends = map (set_status from to) db.friends }) reliable
            (unfold perform in refl))
          (ap (λ (d : Database). (d, true)) (reversed_eq db.friends)))

  -- Without a database error, accepting a pending request of another user succeeds and makes the
  -- accepter a friend of the sender. The sender becomes a friend of the accepter exactly if the
  -- accepter had no row of his own for the sender, or an accepted one: a pending request of his
  -- own stays pending.
  pub accept_friend_request_mutual :
      (later : Engine)
      → IsReliable later
      → from ≢ to
      → Requested db from to
      → let after = (accept_friend_request e db to from).0 in
        ((accept_friend_request e db to from).1 ≡ true)
        × (are_friends later after from to ≡ true)
        × (are_friends later after to from ≡ (
            not (any (between to from) db.friends)
            || any (λ r. between to from r && accepted r) db.friends))
  accept_friend_request_mutual later sure apart pending = rw (accept_eq pending) (
    refl,
    are_friends-any later _ from to sure
        ∙ after_accept_forth from to db.friends
            (any_mono _ _ db.friends (λ r k. ground arith) pending),
    are_friends-any later _ to from sure ∙ after_accept_back from to db.friends apart,
  )

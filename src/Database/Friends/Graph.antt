-- ===== src/Database/Friends/Graph.antt =====
-- server/Database.cpp: the friendships as a graph that forgets the rows, and the methods on friends
-- as operations of the graph.
use cpp_social_network_clien.Common.{
  ℤ, pos, Bool, true, false, not, ◌&&◌, ◌||◌, ◌≡◌, refl, Option, none, some, List, [], ◌∷◌, ◌++◌,
  map, Text, arith, any, any-false_mono, distinct, ◌==◌, text_eq, int_eq, text_beq_iff,
  if◌then◌else◌, Bool-cases, inl, inr,
}
use cpp_social_network_clien.Database.{
  Database, FriendRow, between, set_status, set_type, new_friend,
}
use cpp_social_network_clien.Database.Integrity.{same_pair}
use cpp_social_network_clien.Database.Friends.{out_of_range}
use cpp_social_network_clien.SessionManager.{is_some}

-- For an ordered pair of users the type and the status of the edge between them, if there is one.
abbrev pub Graph : Type 0
Graph = Text → Text → Option (ℤ × ℤ)

abbrev pub put_edge : Text → Text → ℤ × ℤ → Graph → Graph
put_edge user friend v g a b = if user == a && friend == b then some v else g a b

-- The edge becomes a friendship.
abbrev pub mark_edge : Text → Text → Graph → Graph
mark_edge user friend g a b =
    if user == a && friend == b
    then elim (g a b) [ none ↦ none | some v ↦ some (v.0, pos 1) ]
    else g a b

-- The edge that the table has for a pair.
unfoldable pub edge : Text → Text → List FriendRow → Option (ℤ × ℤ)
edge a b [] = none
edge a b (r ∷ rows) =
    let rest = edge a b rows in if between a b r then some (r.friend_type, r.status) else rest

abbrev pub graph : Database → Graph
graph db a b = edge a b db.friends

abbrev pub has_status : ℤ → Option (ℤ × ℤ) → Bool
has_status s none = false
has_status s (some e) = e.1 == s

module _ (user friend : Text) where
  pub any-between :
      (rows : List FriendRow) → any (between user friend) rows ≡ is_some (edge user friend rows)
  unfolding any edge
  any-between [] = refl
  any-between (r ∷ rows) = ground (arith, any-between rows)

  pub any-status :
      (s : ℤ) (rows : List FriendRow)
      → distinct same_pair rows ≡ true
      → any (λ r. between user friend r && r.status == s) rows
        ≡ has_status s (edge user friend rows)
  unfolding any edge distinct
  any-status s [] h = refl
  any-status s (r ∷ rows) h = elim (Bool-cases (between user friend r)) [
    | inl y ↦
        let others : any (λ t. between user friend t && t.status == s) rows ≡ false =
          any-false_mono _ (same_pair r) rows
            (λ t k. ground (
              arith,
              text_beq_iff r.user_username t.user_username,
              text_beq_iff r.friend_username t.friend_username,
              text_beq_iff r.user_username user,
              text_beq_iff r.friend_username friend,
              text_beq_iff t.user_username user,
              text_beq_iff t.friend_username friend,
            ))
            (ground arith) in
        ground (arith, others)
    | inr n ↦ ground (arith, any-status s rows)
  ]

  pub edge-snoc :
      (a b : Text) (status : ℤ) (rows : List FriendRow)
      → any (between user friend) rows ≡ false
      → edge a b (rows ++ new_friend user friend status ∷ [])
        ≡ put_edge user friend (pos 0, status) (λ a b. edge a b rows) a b
  unfolding any edge
  edge-snoc a b status [] h = ground arith
  edge-snoc a b status (r ∷ rows) h =
      ground (arith, edge-snoc a b status rows, text_beq_iff user a, text_beq_iff friend b)

  pub edge-set_status :
      (a b : Text) (rows : List FriendRow)
      → edge a b (map (set_status user friend) rows) ≡ (
          if user == a && friend == b
          then elim (edge a b rows) [ none ↦ none | some v ↦ some (v.0, pos 1) ]
          else edge a b rows)
  unfolding edge
  edge-set_status a b [] = ground arith
  edge-set_status a b (r ∷ rows) = ground (
    arith,
    edge-set_status a b rows,
    text_beq_iff user a,
    text_beq_iff friend b,
    text_beq_iff r.user_username user,
    text_beq_iff r.friend_username friend,
  )

  pub edge-set_type :
      (type : ℤ) (a b : Text) (rows : List FriendRow)
      → edge a b (map (set_type type user friend) rows) ≡ (
          if user == a && friend == b && has_status (pos 1) (edge a b rows)
          then some (type, pos 1)
          else edge a b rows)
  unfolding edge
  edge-set_type type a b [] = ground arith
  edge-set_type type a b (r ∷ rows) = ground (
    arith,
    edge-set_type type a b rows,
    text_beq_iff user a,
    text_beq_iff friend b,
    text_beq_iff r.user_username user,
    text_beq_iff r.friend_username friend,
  )

-- The operations of the graph. An edge has the status 0 while it is a request, and 1 afterwards.
pub data FriendOp : Type 0 where
  send_request : Text → Text → FriendOp
  accept : Text → Text → FriendOp
  change_type : Text → Text → ℤ → FriendOp

-- A request makes a new edge of the type 0. Accepting it marks the edge, and adds the edge back if
-- there is none. A type is changed where it is in range and the edge is accepted.
unfoldable pub step_graph : FriendOp → Graph → Graph × Bool
step_graph (send_request from to) g =
    if is_some (g from to) then (g, false) else (put_edge from to (pos 0, pos 0) g, true)
step_graph (accept to from) g =
    let marked : Graph = mark_edge from to g in
    if not (has_status (pos 0) (g from to))
    then (g, false)
    else if is_some (marked to from)
    then (marked, true)
    else (put_edge to from (pos 0, pos 1) marked, true)
step_graph (change_type user friend type) g =
    if out_of_range type || not (has_status (pos 1) (g user friend))
    then (g, false)
    else (put_edge user friend (type, pos 1) g, true)

-- A sequence of operations, with their results.
unfoldable pub step_graphs : List FriendOp → Graph → Graph × List Bool
unfolding step_graph
step_graphs [] g = (g, [])
step_graphs (op ∷ ops) g =
    let (h, ok) = step_graph op g in let (last, oks) = step_graphs ops h in (last, ok ∷ oks)

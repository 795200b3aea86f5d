-- ===== src/Database/Friends/Refinement.antt =====
-- server/Database.cpp: the methods on friends implement the operations of the graph.
use mathlib.Core.Path.{fun_ext}
use cpp_social_network_clien.Common.{
  ℤ, pos, Bool, true, false, ◌&&◌, ◌≡◌, refl, ap, sym, ◌∙◌, List, [], ◌∷◌, ◌++◌, map, Text, arith,
  any, distinct, text_eq, int_eq, text_beq_iff, if◌then◌else◌, Bool-cases, inl, inr,
}
use cpp_social_network_clien.Database.{
  Database, FriendRow, Engine, IsReliable, insert_request, update_friend_type, perform, between,
  pending, set_status, set_type, new_friend,
}
use cpp_social_network_clien.Database.Integrity.{same_pair, IsValid, perform-IsValid}
use cpp_social_network_clien.Database.Keeps.{
  any_names, exec-keeps, accept_friend_request-keeps, set_friend_type-keeps,
}
use cpp_social_network_clien.Database.Queries.{
  are_friends-any, has_request-any, exec_reliable, exec_refused,
}
use cpp_social_network_clien.Database.Friends.{
  send_friend_request, accept_friend_request, set_friend_type, are_friends, out_of_range,
}
use cpp_social_network_clien.Database.Friends.Requests.{after_accept, accept_eq, between-set_status}
use cpp_social_network_clien.Database.Friends.Graph.{
  Graph, graph, edge, put_edge, mark_edge, has_status, FriendOp, send_request, accept, change_type,
  step_graph, step_graphs, any-between, any-status, edge-snoc, edge-set_status, edge-set_type,
}
use cpp_social_network_clien.SessionManager.{is_some}

-- The method of `Database` for an operation.
unfoldable pub run_op : Engine → FriendOp → Database → Database × Bool
unfolding send_friend_request accept_friend_request set_friend_type
run_op e (send_request from to) db = send_friend_request e db from to
run_op e (accept to from) db = accept_friend_request e db to from
run_op e (change_type user friend type) db = set_friend_type e db user friend type

graph_ext : (g h : Graph) → ((a b : Text) → g a b ≡ h a b) → g ≡ h
graph_ext g h k = fun_ext (λ a. fun_ext (λ b. k a b))

-- The operation, as it looks on the graph.
abbrev pub seen : Database × Bool → Graph × Bool
seen r = (graph r.0, r.1)

module _ (user friend : Text) (rows : List FriendRow) where
  edge_there : any (between user friend) rows ≡ true → is_some (edge user friend rows) ≡ true
  edge_there h = sym (any-between user friend rows) ∙ h

  edge_missing : any (between user friend) rows ≡ false → is_some (edge user friend rows) ≡ false
  edge_missing h = sym (any-between user friend rows) ∙ h

accept_step :
    (to from : Text) (g : Graph)
    → has_status (pos 0) (g from to) ≡ true
    → step_graph (accept to from) g ≡ (
      (if is_some (mark_edge from to g to from)
          then mark_edge from to g
          else put_edge to from (pos 0, pos 1) (mark_edge from to g)),
      true,
    )
unfolding step_graph
accept_step to from g h = elim (Bool-cases (is_some (mark_edge from to g to from))) [
  | inl y ↦ rw (h, y) refl
  | inr n ↦ rw (h, n) refl
]

module _ (e : Engine) (reliable : IsReliable e) (db : Database) where
  request_lem :
      (from to : Text)
      → seen (send_friend_request e db from to) ≡ step_graph (send_request from to) (graph db)
  unfolding send_friend_request step_graph
  request_lem from to = elim (Bool-cases (any (between from to) db.friends)) [
    | inl y ↦
        rw
          (
            exec_refused e (insert_request from to) db (unfold perform in rw y refl),
            edge_there from to db.friends y,
          )
          refl
    | inr n ↦
        rw
          (
            exec_reliable e (insert_request from to) db
                (record db { friends = db.friends ++ new_friend from to (pos 0) ∷ [] }) reliable
                (unfold perform in rw n refl),
            edge_missing from to db.friends n,
          )
          (ap (λ (g : Graph). (g, true))
            (graph_ext _ _ (λ a b. edge-snoc from to a b (pos 0) db.friends n)))
  ]

  type_lem :
      (user friend : Text) (type : ℤ)
      → distinct same_pair db.friends ≡ true
      → seen (set_friend_type e db user friend type)
        ≡ step_graph (change_type user friend type) (graph db)
  unfolding set_friend_type step_graph
  type_lem user friend type d =
      let there : are_friends e db user friend ≡ has_status (pos 1) (graph db user friend) =
        are_friends-any e db user friend reliable ∙ any-status user friend (pos 1) db.friends d in
      elim (Bool-cases (out_of_range type)) [
        | inl y ↦ rw y refl
        | inr n ↦ elim (Bool-cases (has_status (pos 1) (graph db user friend))) [
          | inl k ↦
              rw
                (
                  n,
                  there,
                  k,
                  exec_reliable e (update_friend_type type user friend) db
                      (record db { friends = map (set_type type user friend) db.friends }) reliable
                      (unfold perform in refl),
                )
                (ap (λ (g : Graph). (g, true))
                  (graph_ext _ _ (λ a b. ground (
                    arith,
                    edge-set_type user friend type a b db.friends,
                    text_beq_iff user a,
                    text_beq_iff friend b,
                    k,
                  ))))
          | inr k ↦ rw (n, there, k) refl
        ]
      ]

  -- Marking the rows marks the edge, and adds or takes away none.
  mark_lem :
      (from to : Text)
      → (λ (a b : Text). edge a b (map (set_status from to) db.friends))
        ≡ mark_edge from to (graph db)
  mark_lem from to =
      graph_ext _ (mark_edge from to (graph db)) (λ a b. edge-set_status from to a b db.friends)

  marked-is_some :
      (from to : Text)
      → is_some (mark_edge from to (graph db) to from) ≡ any (between to from) db.friends
  marked-is_some from to =
      ap is_some (sym (edge-set_status from to to from db.friends))
      ∙ sym (any-between to from (map (set_status from to) db.friends))
      ∙ between-set_status from to db.friends to from

  accepted_graph :
      (from to : Text)
      → (graph (record db { friends = after_accept from to db.friends })) ≡ (
          if is_some (mark_edge from to (graph db) to from)
          then mark_edge from to (graph db)
          else put_edge to from (pos 0, pos 1) (mark_edge from to (graph db)))
  accepted_graph from to = elim (Bool-cases (any (between to from) db.friends)) [
    | inl y ↦ rw (marked-is_some from to, y) (mark_lem from to)
    | inr n ↦
        rw (marked-is_some from to, n)
          (graph_ext _ _ (λ a b.
              edge-snoc to from a b (pos 1) (map (set_status from to) db.friends)
                (between-set_status from to db.friends to from ∙ n))
            ∙ ap (put_edge to from (pos 0, pos 1)) (mark_lem from to))
  ]

  accept_lem :
      (to from : Text)
      → distinct same_pair db.friends ≡ true
      → seen (accept_friend_request e db to from) ≡ step_graph (accept to from) (graph db)
  accept_lem to from d =
      let there : any (λ r. between from to r && pending r) db.friends
          ≡ has_status (pos 0) (graph db from to) =
        any-status from to (pos 0) db.friends d in
      elim (Bool-cases (has_status (pos 0) (graph db from to))) [
        | inl y ↦
            rw (accept_eq e reliable db from to (there ∙ y), accept_step to from (graph db) y)
              (ap (λ (g : Graph). (g, true)) (accepted_graph from to))
        | inr n ↦
            unfold accept_friend_request step_graph in
            rw (has_request-any e db from to reliable, there, n) refl
      ]

run_op_lem :
    (e : Engine) (op : FriendOp) (db : Database)
    → IsReliable e
    → IsValid db
    → seen (run_op e op db) ≡ step_graph op (graph db)
unfolding run_op
run_op_lem e (send_request from to) db reliable v = request_lem e reliable db from to
run_op_lem e (accept to from) db reliable v = accept_lem e reliable db to from v.pairs
run_op_lem e (change_type user friend type) db reliable v =
    type_lem e reliable db user friend type v.pairs

run_op-IsValid :
    (e : Engine) (op : FriendOp) (db : Database) → IsValid db → IsValid (run_op e op db).0
unfolding run_op
run_op-IsValid e (send_request from to) db v =
    unfold send_friend_request in
    exec-keeps any_names IsValid (λ now q d after a h p. perform-IsValid now q d after h p) e
      (insert_request from to) db (tt, tt) v
run_op-IsValid e (accept to from) db v =
    accept_friend_request-keeps any_names IsValid
      (λ now q d after a h p. perform-IsValid now q d after h p) e db to from (λ _. (tt, tt)) v
run_op-IsValid e (change_type user friend type) db v =
    set_friend_type-keeps any_names IsValid
      (λ now q d after a h p. perform-IsValid now q d after h p) e db user friend type v

-- A sequence of calls, with their results.
unfoldable pub run_ops : Engine → List FriendOp → Database → Database × List Bool
unfolding run_op
run_ops e [] db = (db, [])
run_ops e (op ∷ ops) db =
    let (after, ok) = run_op e op db in let (last, oks) = run_ops e ops after in (last, ok ∷ oks)

run_ops_lem :
    (e : Engine) (ops : List FriendOp) (db : Database)
    → IsReliable e
    → IsValid db
    → ◌≡◌ {A = Graph × List Bool}
        (graph (run_ops e ops db).0, (run_ops e ops db).1)
        (step_graphs ops (graph db))
unfolding run_ops step_graphs
run_ops_lem e [] db reliable v = refl
run_ops_lem e (op ∷ ops) db reliable v =
    ap (λ (r : Graph × List Bool). (r.0, (run_op e op db).1 ∷ r.1))
      (run_ops_lem e ops (run_op e op db).0 reliable (run_op-IsValid e op db v))
    ∙ ap (λ (r : Graph × Bool). ((step_graphs ops r.0).0, r.1 ∷ (step_graphs ops r.0).1))
        (run_op_lem e op db reliable v)

run_ops-IsValid :
    (e : Engine) (ops : List FriendOp) (db : Database) → IsValid db → IsValid (run_ops e ops db).0
unfolding run_ops
run_ops-IsValid e [] db v = v
run_ops-IsValid e (op ∷ ops) db v =
    run_ops-IsValid e ops (run_op e op db).0 (run_op-IsValid e op db v)

-- Without database errors, on tables whose keys are unique, any sequence of requests, acceptances
-- and changes of types leads to the graph that the operations of the graph lead to, with the same
-- results, and areFriends says yes exactly where that graph has an accepted edge.
pub run_ops-step_graphs :
    (e later : Engine) (ops : List FriendOp) (db : Database) (a b : Text)
    → IsReliable e
    → IsReliable later
    → IsValid db
    → (◌≡◌ {A = Graph × List Bool}
        (graph (run_ops e ops db).0, (run_ops e ops db).1)
        (step_graphs ops (graph db)))
      × (are_friends later (run_ops e ops db).0 a b
          ≡ has_status (pos 1) ((step_graphs ops (graph db)).0 a b))
run_ops-step_graphs e later ops db a b reliable sure v = (
  run_ops_lem e ops db reliable v,
  are_friends-any later (run_ops e ops db).0 a b sure
      ∙ any-status a b (pos 1) (run_ops e ops db).0.friends (run_ops-IsValid e ops db v).pairs
      ∙ ap (λ (r : Graph × List Bool). has_status (pos 1) (r.0 a b))
          (run_ops_lem e ops db reliable v),
)

-- ===== src/Examples/Graphs.antt =====
-- Friendships of the small network as a graph.
use cpp_social_network_clien.Common.{◌≡◌, List, [], ◌∷◌, Bool, pos, text}
use cpp_social_network_clien.Database.Friends.{are_friends}
use cpp_social_network_clien.Database.Friends.Graph.{
  Graph, graph, has_status, accept, change_type, step_graphs, FriendOp,
}
use cpp_social_network_clien.Database.Friends.Refinement.{run_ops, run_ops-step_graphs}
use cpp_social_network_clien.Examples.Setting.{ideal, ideal-IsReliable, town, town-IsValid}

-- Ada accepts the request of Cyd, and takes back that Bob is close.
abbrev changes : List FriendOp
changes = accept (text "ada") (text "cyd") ∷ change_type (text "ada") (text "bob") (pos 0) ∷ []

run_ops-step_graphs_example :
    (◌≡◌ {A = Graph × List Bool}
      (graph (run_ops ideal changes town).0, (run_ops ideal changes town).1)
      (step_graphs changes (graph town)))
    × (are_friends ideal (run_ops ideal changes town).0 (text "ada") (text "cyd")
        ≡ has_status (pos 1) ((step_graphs changes (graph town)).0 (text "ada") (text "cyd")))
run_ops-step_graphs_example =
    run_ops-step_graphs ideal ideal changes town (text "ada") (text "cyd") ideal-IsReliable
      ideal-IsReliable town-IsValid

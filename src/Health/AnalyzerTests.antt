-- ===== src/Health/AnalyzerTests.antt =====
-- Runs of the health analyzer's model, with graphs that keep the edges in a function.
use autoware_ai_common.Base.{
  List, String, [], arith, false, if◌then◌else◌, keep, length, refl, true, ℕ, ◌++◌, ◌==◌, ◌∷◌, ◌≡◌,
}
use autoware_ai_common.Messages.{NodeStatus, SystemStatus, sample_levels}
use autoware_ai_common.Health.Analyzer.{find_warning_nodes}
use autoware_ai_common.Health.Graph.{
  Graphs, IsGraphs, filter_system_status, find_root_nodes, generate_depend_graph,
  system_status_callback,
}
use autoware_ai_common.Health.Roots.{is_root, system_status_callback-roots}

abbrev Network : Type 0
Network = List String × (ℕ → List ℕ)

instance abbrev networks : Graphs Network
networks = record {
  no_vertices = ([], λ v. []);
  names = λ x. x.0;
  add_vertex = λ s x. (x.0 ++ s ∷ [], λ v. if v == length x.0 then [] else x.1 v);
  add_edge = λ v w x. (x.0, λ u. if v == u then x.1 u ++ w ∷ [] else x.1 u);
  adjacent = λ v x. x.1 v;
}

networks-IsGraphs : IsGraphs Network
networks-IsGraphs = record {
  names_empty = refl;
  names_vertex = λ s x. refl;
  names_edge = λ v w x. refl;
  adjacent_new = λ s x. ground arith;
  adjacent_vertex = λ s x v o. ground (arith, o);
  adjacent_edge = λ v w u x o. refl;
}

abbrev failing : String → NodeStatus
failing name = record {
  stamp = 0;
  node_name = name;
  node_activated = true;
  status =
      (record { stamp = 0; key = "rate"; value = ""; description = ""; type = 1; level = 3 } ∷ [])
      ∷ [];
}

-- The lidar has no input; the detector uses the lidar, and both fail.
abbrev chain : SystemStatus
chain = record {
  stamp = 0;
  available_nodes = [];
  node_status = failing "detector" ∷ failing "lidar" ∷ [];
  hardware_status = [];
  topic_statistics = record { node_pub = "lidar"; node_sub = "detector" } ∷ [];
  detect_too_match_warning = false;
}

system_status_callback-roots_example :
    (system_status_callback {G = Network} sample_levels 2 chain).0.node_status
    ≡ keep (λ node. is_root sample_levels chain node.node_name) chain.node_status
system_status_callback-roots_example =
    system_status_callback-roots networks-IsGraphs sample_levels 2 chain

the_lidar :
    (system_status_callback {G = Network} sample_levels 2 chain).0.node_status
    ≡ failing "lidar" ∷ []
unfolding filter_system_status find_warning_nodes find_root_nodes generate_depend_graph
the_lidar = refl

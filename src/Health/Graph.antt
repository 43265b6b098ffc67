-- ===== src/Health/Graph.antt =====
-- The graph of dependencies of autoware_health_checker/src/health_analyzer/health_analyzer.cpp and the nodes
-- that the others depend on. The graph library is a parameter: vertices are numbers, in the order in which
-- they were added, with their names, and a vertex has a list of the ones it has an edge to.
use autoware_ai_common.Base.{
  Bool, List, Option, String, [], and_then, any, count_if, get_elem?, if◌then◌else◌, keep, leb,
  length, none, some, suc, ℕ, ◌++◌, ◌+◌, ◌<◌, ◌==◌, ◌∷◌, ◌≡◌,
}
use autoware_ai_common.Messages.{DiagLevels, DiagnosticStatusArray, SystemStatus, TopicStatistics}
use autoware_ai_common.Base.Text.{str_eq}
use autoware_ai_common.Base.Map.{or_else}
use autoware_ai_common.Health.Analyzer.{find_warning_nodes, is_already_exist}

pub record Graphs (G : Type 0) : Type 0 where
  pub no_vertices : G
  pub names : G → List String
  pub add_vertex : String → G → G
  pub add_edge : ℕ → ℕ → G → G
  pub adjacent : ℕ → G → List ℕ

-- What the code relies on: an edge goes to the one list that it belongs to, and a new vertex has none.
pub record IsGraphs (G : Type 0) ⦃g : Graphs G⦄ : Type 0 where
  pub names_empty : g.names g.no_vertices ≡ []
  pub names_vertex : (s : String) (x : G) → g.names (g.add_vertex s x) ≡ g.names x ++ s ∷ []
  pub names_edge : (v w : ℕ) (x : G) → g.names (g.add_edge v w x) ≡ g.names x
  pub adjacent_new : (s : String) (x : G) → g.adjacent (length (g.names x)) (g.add_vertex s x) ≡ []
  pub adjacent_vertex :
      (s : String) (x : G) (v : ℕ)
      → v < length (g.names x)
      → g.adjacent v (g.add_vertex s x) ≡ g.adjacent v x
  pub adjacent_edge :
      (v w u : ℕ) (x : G)
      → v < length (g.names x)
      → g.adjacent u (g.add_edge v w x)
        ≡ (if v == u then g.adjacent u x ++ w ∷ [] else g.adjacent u x)

-- The place of the first element that passes a test.
unfoldable pub find_index : (String → Bool) → List String → Option ℕ
find_index p [] = none
find_index p (x ∷ xs) =
    let rest = find_index p xs in if p x then some 0 else and_then rest (λ i. some (suc i))

module _ {G : Type 0} ⦃g : Graphs G⦄ where
  -- getTargetNode
  unfoldable pub get_target_node : String → G → Option ℕ
  unfolding find_index
  get_target_node target x = find_index (λ s. str_eq s target) (g.names x)

  -- A vertex that was found, or else a new one with the name.
  abbrev pub vertex_for : String → Option ℕ → G → ℕ × G
  vertex_for name (some v) x = (v, x)
  vertex_for name none x = (length (g.names x), g.add_vertex name x)

  -- addDepend
  unfoldable pub add_depend : TopicStatistics → G → G
  unfolding get_target_node
  add_depend s x =
      if str_eq s.node_pub s.node_sub
      then x
      else let (node_pub, x1) = vertex_for s.node_pub (get_target_node s.node_pub x) x in
        let (node_sub, x2) = vertex_for s.node_sub (get_target_node s.node_sub x) x1 in
        g.add_edge node_sub node_pub x2

  unfoldable pub add_depends : List TopicStatistics → G → G
  unfolding add_depend
  add_depends [] x = x
  add_depends (s ∷ ss) x = add_depends ss (add_depend s x)

  -- generateDependGraph
  unfoldable pub generate_depend_graph : SystemStatus → G
  unfolding add_depends
  generate_depend_graph s = add_depends s.topic_statistics g.no_vertices

  abbrev pub name_at : ℕ → G → String
  name_at v x = or_else (get_elem? (g.names x) v) ""

  -- The loop of findRootNodes over the vertices that one has an edge to.
  abbrev pub depend_found : List String → ℕ → G → Bool
  depend_found target_nodes v x =
      any (λ w. is_already_exist target_nodes (name_at w x)) (g.adjacent v x)

  unfoldable pub root_nodes_of : List String → List String → G → List String
  root_nodes_of target_nodes [] x = []
  root_nodes_of target_nodes (node ∷ nodes) x =
      let rest = root_nodes_of target_nodes nodes x in
      elim (get_target_node node x) [
        | none ↦ rest
        | some v ↦ if depend_found target_nodes v x then rest else node ∷ rest
      ]

  -- findRootNodes
  unfoldable pub find_root_nodes : List String → G → List String
  unfolding root_nodes_of
  find_root_nodes target_nodes x = root_nodes_of target_nodes target_nodes x

abbrev sum : {A : Type 0} → (A → ℕ) → List A → ℕ
sum f [] = 0
sum f (x ∷ xs) = f x + sum f xs

-- The loops of countWarn.
abbrev pub count_arrays : DiagLevels → List DiagnosticStatusArray → ℕ
count_arrays lv [] = 0
count_arrays lv (xs ∷ arrays) = count_if (λ s. s.level == lv.warn) xs + count_arrays lv arrays

-- countWarn, of statuses given as the arrays of each node and of each hardware
unfoldable pub count_warn : DiagLevels → SystemStatus → ℕ
count_warn lv s =
    sum (λ node. count_arrays lv node.status) s.node_status
    + sum (λ hardware. count_arrays lv hardware.status) s.hardware_status

module _ {G : Type 0} ⦃g : Graphs G⦄ (lv : DiagLevels) (warn_nodes_count_threshold : ℕ) where
  -- filterSystemStatus, with the graph
  unfoldable pub filter_system_status : SystemStatus → G → SystemStatus
  unfolding count_warn
  filter_system_status status x =
      let root_nodes = find_root_nodes (find_warning_nodes lv status) x in
      record status {
        detect_too_match_warning = leb warn_nodes_count_threshold (count_warn lv status);
        node_status = keep (λ node. is_already_exist root_nodes node.node_name) status.node_status;
      }

  -- systemStatusCallback: the graph and what is published
  abbrev pub system_status_callback : SystemStatus → SystemStatus × G
  system_status_callback msg = let x = generate_depend_graph msg in (filter_system_status msg x, x)

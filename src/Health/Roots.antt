-- ===== src/Health/Roots.antt =====
-- The nodes of findRootNodes in autoware_health_checker/src/health_analyzer/health_analyzer.cpp.
use autoware_ai_common.Base.{
  Bool, List, Option-cases, String, [], any, ap, arith, false, inl, inr, is_some, keep, length,
  none, not, refl, ℕ, ◌&&◌, ◌||◌, ◌∙◌, ◌∷◌, ◌≡◌,
}
use autoware_ai_common.Messages.{DiagLevels, SystemStatus, TopicStatistics}
use autoware_ai_common.Base.Text.{eq_iff, str_eq}
use autoware_ai_common.Health.Analyzer.{find_warning_nodes, is_already_exist, is_over_warn}
use autoware_ai_common.Health.Graph.{
  Graphs, IsGraphs, add_depend, add_depends, filter_system_status, find_index, find_root_nodes,
  generate_depend_graph, get_target_node, root_nodes_of, system_status_callback,
}
use autoware_ai_common.Health.Edges.{
  Shows, Shows-add_depend, Shows-same, known-add_depend, mentions, uses,
}
use autoware_ai_common.Health.Culprits.{any-count_if, count_if-find_warning_nodes}

any-pointwise :
    {A : Type 0} (p q : A → Bool) (xs : List A) → ((x : A) → p x ≡ q x) → any p xs ≡ any q xs
any-pointwise p q [] e = refl
any-pointwise p q (x ∷ xs) e = ground (arith, e x, any-pointwise p q xs e)

keep-pointwise :
    {A : Type 0} (p q : A → Bool) (xs : List A) → ((x : A) → p x ≡ q x) → keep p xs ≡ keep q xs
keep-pointwise p q [] e = refl
keep-pointwise p q (x ∷ xs) e = ground (arith, e x, keep-pointwise p q xs e)

module _ {G : Type 0} ⦃g : Graphs G⦄ (h : IsGraphs G) where
  Shows-add_depends :
      (ss : List TopicStatistics) (D : String → (String → Bool) → Bool) (x : G)
      → Shows D x
      → Shows (λ n P. D n P || any (λ s. uses s n P) ss) (add_depends ss x)
  unfolding add_depends
  Shows-add_depends [] D x r = Shows-same h D _ x r (λ n P. ground arith)
  Shows-add_depends (s ∷ ss) D x r =
      Shows-same h (λ n P. (D n P || uses s n P) || any (λ s. uses s n P) ss) _
        (add_depends ss (add_depend s x))
        (Shows-add_depends ss (λ n P. D n P || uses s n P) (add_depend s x)
          (Shows-add_depend h D s x r))
        (λ n P. ground arith)

  known-add_depends :
      (ss : List TopicStatistics) (n : String) (x : G)
      → is_some (get_target_node n (add_depends ss x))
        ≡ (is_some (get_target_node n x) || any (λ s. mentions s n) ss)
  unfolding add_depends
  known-add_depends [] n x = ground arith
  known-add_depends (s ∷ ss) n x =
      known-add_depends ss n (add_depend s x)
      ∙ ap (λ c. c || any (λ s. mentions s n) ss) (known-add_depend h n s x)
      ∙ ground arith

  none-no_vertices : (n : String) → get_target_node n g.no_vertices ≡ none
  unfolding get_target_node find_index
  none-no_vertices n = ap (find_index (λ s. str_eq s n)) h.names_empty

  Shows-no_vertices : Shows (λ n P. false) g.no_vertices
  Shows-no_vertices = record {
    inside = λ v o. absurd (omega (arith, o, ap length h.names_empty));
    edges = λ n P v e. absurd (cc (none-no_vertices n, e));
    fresh = λ n P e. refl;
  }

  root_nodes_of-keep :
      (targets nodes : List String) (D : String → (String → Bool) → Bool) (x : G)
      → Shows D x
      → root_nodes_of targets nodes x
        ≡ keep (λ n. is_some (get_target_node n x) && not (D n (is_already_exist targets))) nodes
  unfolding root_nodes_of
  root_nodes_of-keep targets [] D x r = refl
  root_nodes_of-keep targets (node ∷ nodes) D x r = elim (Option-cases (get_target_node node x)) [
    | inl k ↦ ground (arith, k, root_nodes_of-keep targets nodes D x r)
    | inr (v, k) ↦ ground (
      arith,
      k,
      r.edges node (is_already_exist targets) v k,
      root_nodes_of-keep targets nodes D x r,
    )
  ]

  -- The root nodes among some nodes, in the graph of the statistics of a message, are those of them, in
  -- their order, that are publisher or subscriber in statistics between two different nodes, and that
  -- subscribe in none of these to one of the given nodes.
  pub find_root_nodes-exact :
      (targets : List String) (s : SystemStatus)
      → find_root_nodes targets (generate_depend_graph {G = G} s)
        ≡ keep
            (λ n.
              any (λ t. mentions t n) s.topic_statistics
              && not (any (λ t. uses t n (is_already_exist targets)) s.topic_statistics))
            targets
  unfolding find_root_nodes generate_depend_graph
  find_root_nodes-exact targets s =
      let ss = s.topic_statistics in
      root_nodes_of-keep targets targets (λ n P. false || any (λ t. uses t n P) ss)
        (add_depends ss g.no_vertices)
        (Shows-add_depends ss (λ n P. false) g.no_vertices Shows-no_vertices)
      ∙ keep-pointwise _ _ targets
          (λ n. ground (arith, known-add_depends ss n g.no_vertices, none-no_vertices n))

any-keep :
    (r : String → Bool) (n : String) (xs : List String)
    → is_already_exist (keep r xs) n ≡ (r n && is_already_exist xs n)
any-keep r n [] = ground arith
any-keep r n (x ∷ xs) = ground (arith, eq_iff x n, ap r, any-keep r n xs)

-- A node of that name has a status of level WARN, ERROR or FATAL.
abbrev pub has_warning : DiagLevels → SystemStatus → String → Bool
has_warning lv s n =
    any (λ node. str_eq node.node_name n && any (any (λ x. is_over_warn lv x.level)) node.status)
      s.node_status

exist-find_warning_nodes :
    (lv : DiagLevels) (s : SystemStatus) (n : String)
    → is_already_exist (find_warning_nodes lv s) n ≡ has_warning lv s n
exist-find_warning_nodes lv s n =
    any-count_if (λ x. str_eq x n) (find_warning_nodes lv s)
    ∙ ground (arith, count_if-find_warning_nodes lv s n)

-- A node with a warning that is in the statistics and subscribes to no node with a warning.
abbrev pub is_root : DiagLevels → SystemStatus → String → Bool
is_root lv s n =
    has_warning lv s n
    && (any (λ t. mentions t n) s.topic_statistics
        && not (any (λ t. uses t n (has_warning lv s)) s.topic_statistics))

-- Of the nodes of a message the callback publishes, in their order, exactly those whose name has a status
-- of level WARN, ERROR or FATAL, is publisher or subscriber in statistics between two different nodes, and
-- subscribes in none of these to a node with such a status.
pub system_status_callback-roots :
    {G : Type 0} ⦃g : Graphs G⦄
    → IsGraphs G
    → (lv : DiagLevels) (threshold : ℕ) (s : SystemStatus)
    → (system_status_callback {G = G} lv threshold s).0.node_status
      ≡ keep (λ node. is_root lv s node.node_name) s.node_status
unfolding filter_system_status
system_status_callback-roots {G} h lv threshold s =
    let targets = find_warning_nodes lv s in
    keep-pointwise _ _ s.node_status (λ node.
      let n = node.node_name in
      ap (λ xs. is_already_exist xs n) (find_root_nodes-exact h targets s)
      ∙ any-keep _ n targets
      ∙ ground (
        arith,
        exist-find_warning_nodes lv s n,
        any-pointwise (λ t. uses t n (is_already_exist targets)) (λ t. uses t n (has_warning lv s))
            s.topic_statistics
            (λ t.
              ap (λ c. not (str_eq t.node_pub t.node_sub) && (str_eq t.node_sub n && c))
                (exist-find_warning_nodes lv s t.node_pub)),
      ))

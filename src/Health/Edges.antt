-- ===== src/Health/Edges.antt =====
-- The graph that addDepend of autoware_health_checker/src/health_analyzer/health_analyzer.cpp builds.
use autoware_ai_common.Base.{
  ==_iff, All, All-append, Bool, Bool-cases, List, Option, Option-cases, String, [], any,
  any-append, ap, arith, false, get_elem?, if◌then◌else◌, inl, inr, is_some, length, length-append,
  ltb, ltb→lt, none, not, refl, some, subst, suc, sym, zero, ℕ, ◌&&◌, ◌++◌, ◌<◌, ◌==◌, ◌||◌, ◌∙◌,
  ◌∷◌, ◌≡◌, ◌≤◌,
}
use autoware_ai_common.Base.Text.{eq_iff, str_eq}
use autoware_ai_common.Health.Graph.{
  Graphs, IsGraphs, add_depend, find_index, get_target_node, name_at, vertex_for,
}
use autoware_ai_common.Base.Map.{or_else}
use autoware_ai_common.Messages.{TopicStatistics}

find_index-append :
    (p : String → Bool) (xs : List String) (s : String)
    → find_index p (xs ++ s ∷ [])
      ≡ elim (find_index p xs) [ some v ↦ some v | none ↦ if p s then some (length xs) else none ]
unfolding find_index
find_index-append p [] s = ground arith
find_index-append p (x ∷ xs) s = ground (arith, find_index-append p xs s)

find_index-get_elem :
    (n : String) (xs : List String) (v : ℕ)
    → find_index (λ s. str_eq s n) xs ≡ some v
    → (v < length xs) × (get_elem? xs v ≡ some n)
unfolding find_index
find_index-get_elem n [] v h = absurd (cc h)
find_index-get_elem n (x ∷ xs) v h = elim (Option-cases (find_index (λ s. str_eq s n) xs)) [
  | inl k ↦ ground (arith, h, k, eq_iff x n)
  | inr (u, k) ↦ ground (arith, h, k, eq_iff x n, find_index-get_elem n xs u k)
]

get_elem-append :
    (xs ys : List String) (v : ℕ) → v < length xs → get_elem? (xs ++ ys) v ≡ get_elem? xs v
get_elem-append [] ys v h = absurd (omega (arith, h))
get_elem-append (x ∷ xs) ys zero h = refl
get_elem-append (x ∷ xs) ys (suc v) h = get_elem-append xs ys v (omega (arith, h))

-- What the statistics say of the names that the node with a name depends on.
abbrev pub uses : TopicStatistics → String → (String → Bool) → Bool
uses s n P = not (str_eq s.node_pub s.node_sub) && (str_eq s.node_sub n && P s.node_pub)

-- Whether a node is one of the two of the statistics.
abbrev pub mentions : TopicStatistics → String → Bool
mentions s n = not (str_eq s.node_pub s.node_sub) && (str_eq s.node_pub n || str_eq s.node_sub n)

abbrev pub Bounded : ℕ → List ℕ → Type 0
Bounded n = All (λ w. w < n)

any-same :
    (p q : ℕ → Bool) (n : ℕ) (ws : List ℕ)
    → Bounded n ws
    → ((w : ℕ) → w < n → p w ≡ q w)
    → any p ws ≡ any q ws
any-same p q n [] b h = refl
any-same p q n (w ∷ ws) (c, b) h = ground (arith, h w c, any-same p q n ws b h)

Bounded-weaken : (n m : ℕ) (ws : List ℕ) → n ≤ m → Bounded n ws → Bounded m ws
Bounded-weaken n m [] o b = tt
Bounded-weaken n m (w ∷ ws) o (c, b) = (omega (arith, c, o), Bounded-weaken n m ws o b)

module _ {G : Type 0} ⦃g : Graphs G⦄ where
  -- The edges of the vertex with a name go to the names that satisfy a test just when `D` says so.
  pub record Shows (D : String → (String → Bool) → Bool) (x : G) : Type 0 where
    pub inside : (v : ℕ) → v < length (g.names x) → Bounded (length (g.names x)) (g.adjacent v x)
    pub edges :
        (n : String) (P : String → Bool) (v : ℕ)
        → get_target_node n x ≡ some v
        → any (λ w. P (name_at w x)) (g.adjacent v x) ≡ D n P
    pub fresh : (n : String) (P : String → Bool) → get_target_node n x ≡ none → D n P ≡ false

module _ {G : Type 0} ⦃g : Graphs G⦄ (h : IsGraphs G) where
  length-add_vertex :
      (s : String) (x : G) → length (g.names (g.add_vertex s x)) ≡ suc (length (g.names x))
  length-add_vertex s x =
      ap length (h.names_vertex s x) ∙ omega (arith, length-append (g.names x) (s ∷ []))

  name_at-add_vertex :
      (s : String) (x : G) (w : ℕ)
      → w < length (g.names x)
      → name_at w (g.add_vertex s x) ≡ name_at w x
  name_at-add_vertex s x w o =
      ap (λ names. or_else (get_elem? names w) "") (h.names_vertex s x)
      ∙ ap (λ e. or_else e "") (get_elem-append (g.names x) (s ∷ []) w o)

  found :
      (n : String) (x : G) (v : ℕ)
      → get_target_node n x ≡ some v
      → (v < length (g.names x)) × (name_at v x ≡ n)
  unfolding get_target_node
  found n x v e =
      let (o, k) = find_index-get_elem n (g.names x) v e in (o, ap (λ e. or_else e "") k)

  get-add_vertex :
      (n s : String) (x : G)
      → get_target_node n (g.add_vertex s x) ≡ elim (get_target_node n x) [
        | some v ↦ some v
        | none ↦ if str_eq s n then some (length (g.names x)) else none
      ]
  unfolding get_target_node
  get-add_vertex n s x =
      ap (find_index (λ y. str_eq y n)) (h.names_vertex s x)
      ∙ find_index-append (λ y. str_eq y n) (g.names x) s

  Shows-add_vertex :
      (D : String → (String → Bool) → Bool) (s : String) (x : G)
      → Shows D x
      → get_target_node s x ≡ none
      → Shows D (g.add_vertex s x)
  Shows-add_vertex D s x r f = record {
    inside = λ v o. elim (Bool-cases (ltb v (length (g.names x)))) [
      | inl b ↦
          subst (λ ws. Bounded (length (g.names (g.add_vertex s x))) ws)
            (sym (h.adjacent_vertex s x v (ltb→lt v _ b)))
            (Bounded-weaken (length (g.names x)) _ (g.adjacent v x)
              (omega (arith, length-add_vertex s x)) (r.inside v (ltb→lt v _ b)))
      | inr b ↦
          let last : v ≡ length (g.names x) = ground (arith, b, o, length-add_vertex s x) in
          subst (λ ws. Bounded (length (g.names (g.add_vertex s x))) ws)
            (sym (ap (λ u. g.adjacent u (g.add_vertex s x)) last ∙ h.adjacent_new s x)) tt
    ];
    edges = λ n P v e. elim (Option-cases (get_target_node n x)) [
      | inl k ↦
          let last : v ≡ length (g.names x) = ground (arith, sym (get-add_vertex n s x) ∙ e, k) in
          ap (any (λ w. P (name_at w (g.add_vertex s x))))
            (ap (λ u. g.adjacent u (g.add_vertex s x)) last ∙ h.adjacent_new s x)
          ∙ sym (r.fresh n P k)
      | inr (u, k) ↦
          let same : u ≡ v = ground (arith, sym (get-add_vertex n s x) ∙ e, k) in
          let o = (found n x u k).0 in
          subst
            (λ z.
              any (λ w. P (name_at w (g.add_vertex s x))) (g.adjacent z (g.add_vertex s x)) ≡ D n P)
            same
            (ap (any (λ w. P (name_at w (g.add_vertex s x)))) (h.adjacent_vertex s x u o)
              ∙ any-same (λ w. P (name_at w (g.add_vertex s x))) (λ w. P (name_at w x)) _
                  (g.adjacent u x) (r.inside u o) (λ w c. ap P (name_at-add_vertex s x w c))
              ∙ r.edges n P u k)
    ];
    fresh = λ n P e. r.fresh n P (elim (Option-cases (get_target_node n x)) [
      | inl k ↦ k
      | inr (v, k) ↦ absurd (ground (arith, sym (get-add_vertex n s x) ∙ e, k))
    ]);
  }

  get-add_edge :
      (n : String) (a b : ℕ) (x : G) → get_target_node n (g.add_edge a b x) ≡ get_target_node n x
  unfolding get_target_node
  get-add_edge n a b x = ap (find_index (λ y. str_eq y n)) (h.names_edge a b x)

  Shows-add_edge :
      (D : String → (String → Bool) → Bool) (sub pub_name : String) (a b : ℕ) (x : G)
      → Shows D x
      → get_target_node sub x ≡ some a
      → get_target_node pub_name x ≡ some b
      → Shows (λ n P. D n P || (str_eq sub n && P pub_name)) (g.add_edge a b x)
  Shows-add_edge D sub pub_name a b x r p q = record {
    inside = λ v o.
        let same = ap length (h.names_edge a b x) in
        let i = r.inside v (omega (arith, o, same)) in
        subst (λ m. Bounded m (g.adjacent v (g.add_edge a b x))) (sym same)
          (subst (λ ws. Bounded (length (g.names x)) ws)
            (sym (h.adjacent_edge a b v x (found sub x a p).0))
            (elim (Bool-cases (a == v)) [
              | inl t ↦ rw t (
                  All-append (λ w. w < length (g.names x)) (g.adjacent v x) (b ∷ []) i
                    ((found pub_name x b q).0, tt))
              | inr t ↦ rw t i
            ]));
    edges = λ n P v e.
        let k : get_target_node n x ≡ some v = sym (get-add_edge n a b x) ∙ e in
        let test = λ (w : ℕ). P (name_at w x) in
        ap
          (λ names. any (λ w. P (or_else (get_elem? names w) "")) (g.adjacent v (g.add_edge a b x)))
          (h.names_edge a b x)
        ∙ ap (any test) (h.adjacent_edge a b v x (found sub x a p).0)
        ∙ elim (Bool-cases (a == v)) [
          | inl t ↦
              ap (λ c. any test (if c then g.adjacent v x ++ b ∷ [] else g.adjacent v x)) t
              ∙ any-append test (g.adjacent v x) (b ∷ [])
              ∙ ground (
                arith,
                r.edges n P v k,
                ap P (found pub_name x b q).1,
                (eq_iff sub n).1 (
                    sym (found sub x a p).1
                    ∙ ap (λ w. name_at w x) ((==_iff a v).0 t)
                    ∙ (found n x v k).1),
              )
          | inr t ↦
              ap (λ c. any test (if c then g.adjacent v x ++ b ∷ [] else g.adjacent v x)) t
              ∙ elim (Bool-cases (str_eq sub n)) [
                | inl m ↦ absurd (
                    ground
                      (arith, sym p ∙ ap (λ y. get_target_node y x) ((eq_iff sub n).0 m) ∙ k, t))
                | inr m ↦ ground (arith, r.edges n P v k, m)
              ]
        ];
    fresh = λ n P e.
        let k : get_target_node n x ≡ none = sym (get-add_edge n a b x) ∙ e in
        elim (Bool-cases (str_eq sub n)) [
          | inl t ↦ absurd (cc (sym (ap (λ m. get_target_node m x) ((eq_iff sub n).0 t)) ∙ p, k))
          | inr t ↦ rw (t, r.fresh n P k) refl
        ];
  }

  -- A vertex is there or is made.
  Shows-vertex_for :
      (D : String → (String → Bool) → Bool) (s : String) (o : Option ℕ) (x : G)
      → Shows D x
      → get_target_node s x ≡ o
      → Shows D (vertex_for s o x).1
        × (get_target_node s (vertex_for s o x).1 ≡ some (vertex_for s o x).0)
  Shows-vertex_for D s (some v) x r e = (r, e)
  Shows-vertex_for D s none x r e =
      (Shows-add_vertex D s x r e, get-add_vertex s s x ∙ ground (arith, e, eq_iff s s))

  get-vertex_for :
      (n s : String) (o : Option ℕ) (x : G)
      → str_eq s n ≡ false
      → get_target_node n (vertex_for s o x).1 ≡ get_target_node n x
  get-vertex_for n s (some v) x e = refl
  get-vertex_for n s none x e = get-add_vertex n s x ∙ elim (Option-cases (get_target_node n x)) [
    | inl k ↦ ground (arith, k, e)
    | inr (v, k) ↦ ground (arith, k)
  ]

  pub Shows-same :
      (D E : String → (String → Bool) → Bool) (x : G)
      → Shows D x
      → ((n : String) (P : String → Bool) → D n P ≡ E n P)
      → Shows E x
  Shows-same D E x r e = record {
    inside = r.inside;
    edges = λ n P v k. r.edges n P v k ∙ e n P;
    fresh = λ n P k. sym (e n P) ∙ r.fresh n P k;
  }

  pub Shows-add_depend :
      (D : String → (String → Bool) → Bool) (s : TopicStatistics) (x : G)
      → Shows D x
      → Shows (λ n P. D n P || uses s n P) (add_depend s x)
  unfolding add_depend
  Shows-add_depend D s x r =
      let o = get_target_node s.node_pub x in
      let u = get_target_node s.node_sub x in
      let (b, x1) = vertex_for s.node_pub o x in
      let (a, x2) = vertex_for s.node_sub u x1 in
      elim (Bool-cases (str_eq s.node_pub s.node_sub)) [
        | inl e ↦
            subst (λ c. Shows (λ n P. D n P || uses s n P) (if c then x else g.add_edge a b x2))
              (sym e) (Shows-same D (λ n P. D n P || uses s n P) x r (λ n P. ground (arith, e)))
        | inr e ↦
            let (r1, e1) = Shows-vertex_for D s.node_pub o x r refl in
            let (r2, e2) =
              Shows-vertex_for D s.node_sub u x1 r1 (get-vertex_for s.node_sub s.node_pub o x e) in
            let e3 : str_eq s.node_sub s.node_pub ≡ false =
              ground (arith, e, eq_iff s.node_sub s.node_pub, eq_iff s.node_pub s.node_sub) in
            let kept = get-vertex_for s.node_pub s.node_sub u x1 e3 ∙ e1 in
            subst (λ c. Shows (λ n P. D n P || uses s n P) (if c then x else g.add_edge a b x2))
              (sym e)
              (Shows-same (λ n P. D n P || (str_eq s.node_sub n && P s.node_pub))
                (λ n P. D n P || uses s n P) (g.add_edge a b x2)
                (Shows-add_edge D s.node_sub s.node_pub a b x2 r2 e2 kept)
                (λ n P. ground (arith, e)))
      ]

  known-vertex_for :
      (n s : String) (o : Option ℕ) (x : G)
      → get_target_node s x ≡ o
      → is_some (get_target_node n (vertex_for s o x).1)
        ≡ (is_some (get_target_node n x) || str_eq s n)
  known-vertex_for n s (some v) x e = elim (Bool-cases (str_eq s n)) [
    | inl t ↦
        ap is_some (sym (ap (λ m. get_target_node m x) ((eq_iff s n).0 t)) ∙ e)
        ∙ ground (arith, t, ap is_some (sym (ap (λ m. get_target_node m x) ((eq_iff s n).0 t)) ∙ e))
    | inr t ↦ ground (arith, t)
  ]
  known-vertex_for n s none x e =
      ap is_some (get-add_vertex n s x) ∙ elim (Option-cases (get_target_node n x)) [
        | inl k ↦ ground (arith, k)
        | inr (v, k) ↦ ground (arith, k)
      ]

  pub known-add_depend :
      (n : String) (s : TopicStatistics) (x : G)
      → is_some (get_target_node n (add_depend s x))
        ≡ (is_some (get_target_node n x) || mentions s n)
  unfolding add_depend
  known-add_depend n s x =
      let o = get_target_node s.node_pub x in
      let u = get_target_node s.node_sub x in
      let (b, x1) = vertex_for s.node_pub o x in
      let (a, x2) = vertex_for s.node_sub u x1 in
      elim (Bool-cases (str_eq s.node_pub s.node_sub)) [
        | inl e ↦ rw e (ground (arith, e))
        | inr e ↦ rw e (
            ap is_some (get-add_edge n a b x2)
            ∙ known-vertex_for n s.node_sub u x1 (get-vertex_for s.node_sub s.node_pub o x e)
            ∙ ap (λ c. c || str_eq s.node_sub n) (known-vertex_for n s.node_pub o x refl)
            ∙ ground (arith, e))
      ]

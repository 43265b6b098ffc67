-- ===== src/VectorMap/Points.antt =====
-- Points, vectors and nodes of vector_map/lib/vector_map/vector_map.cpp: operator<<, operator>>
-- and the updaters.
use autoware_ai_common.Base.{List, Option, [], refl, some, ◌∷◌, ◌≡◌}
use autoware_ai_common.Base.Int.{ℤ}
use autoware_ai_common.Base.Map.{Map}
use autoware_ai_common.VectorMap.Numbers.{Bytes, IsInt, show_ℤ, stoi-show_ℤ}
use autoware_ai_common.VectorMap.Columns.{
  Decimals, IsShown, Lacks, columns, double_at, int_at, join, Lacks-join, show_ℤ-IsPart,
  show_ℤ-line, split-join, ◌>>=◌, ◌◂◌,
}
use autoware_ai_common.VectorMap.Handles.{by_id, update_map}

pub record Point (W : Type 0) : Type 0 where
  pub pid : ℤ
  pub b : W
  pub l : W
  pub h : W
  pub bx : W
  pub ly : W
  pub ref : ℤ
  pub mcode1 : ℤ
  pub mcode2 : ℤ
  pub mcode3 : ℤ

module _ {W : Type 0} ⦃t : Decimals W⦄ where
  -- What operator<< puts between commas.
  abbrev pub point_columns : Point W → List Bytes
  point_columns obj =
      show_ℤ obj.pid
      ∷ t.show_double obj.b
      ∷ t.show_double obj.l
      ∷ t.show_double obj.h
      ∷ t.show_double obj.bx
      ∷ t.show_double obj.ly
      ∷ show_ℤ obj.ref
      ∷ show_ℤ obj.mcode1
      ∷ show_ℤ obj.mcode2
      ∷ show_ℤ obj.mcode3
      ∷ []

  unfoldable pub print_point : Point W → Bytes
  print_point obj = join b',' (point_columns obj)

  unfoldable pub read_point : Bytes → Option (Point W)
  read_point s =
      let cs = columns s in
      do
        pid ← int_at 0 cs
        b ← double_at 1 cs
        l ← double_at 2 cs
        h ← double_at 3 cs
        bx ← double_at 4 cs
        ly ← double_at 5 cs
        ref ← int_at 6 cs
        mcode1 ← int_at 7 cs
        mcode2 ← int_at 8 cs
        mcode3 ← int_at 9 cs
        some (record {
          pid = pid;
          b = b;
          l = l;
          h = h;
          bx = bx;
          ly = ly;
          ref = ref;
          mcode1 = mcode1;
          mcode2 = mcode2;
          mcode3 = mcode3;
        })

  abbrev pub IsPoint : Point W → Type 0
  IsPoint x =
      IsInt x.pid
      × IsShown x.b
      × IsShown x.l
      × IsShown x.h
      × IsShown x.bx
      × IsShown x.ly
      × IsInt x.ref
      × IsInt x.mcode1
      × IsInt x.mcode2
      × IsInt x.mcode3

  pub read_point-print : (x : Point W) → IsPoint x → read_point (print_point x) ≡ some x
  unfolding read_point print_point
  read_point-print x h =
      rw
        (
          split-join b',' (point_columns x) (
              show_ℤ-IsPart x.pid h.0
              ◂ h.1.column
              ◂ h.2.column
              ◂ h.3.column
              ◂ h.4.column
              ◂ h.5.column
              ◂ show_ℤ-IsPart x.ref h.6
              ◂ show_ℤ-IsPart x.mcode1 h.7
              ◂ show_ℤ-IsPart x.mcode2 h.8
              ◂ show_ℤ-IsPart x.mcode3 h.9
              ◂ tt),
          stoi-show_ℤ x.pid h.0,
          h.1.read,
          h.2.read,
          h.3.read,
          h.4.read,
          h.5.read,
          stoi-show_ℤ x.ref h.6,
          stoi-show_ℤ x.mcode1 h.7,
          stoi-show_ℤ x.mcode2 h.8,
          stoi-show_ℤ x.mcode3 h.9,
        )
        refl

  pub print_point-line : (x : Point W) → IsPoint x → Lacks b'\n' (print_point x)
  unfolding print_point
  print_point-line x h = Lacks-join b',' b'\n' (point_columns x) refl (
      show_ℤ-line x.pid h.0
      ◂ h.1.line
      ◂ h.2.line
      ◂ h.3.line
      ◂ h.4.line
      ◂ h.5.line
      ◂ show_ℤ-line x.ref h.6
      ◂ show_ℤ-line x.mcode1 h.7
      ◂ show_ℤ-line x.mcode2 h.8
      ◂ show_ℤ-line x.mcode3 h.9
      ◂ tt)

-- updatePoint
abbrev pub update_point : {W : Type 0} → List (Point W) → Map ℤ (Point W)
update_point = update_map (λ obj. obj.pid)

pub record Vector (W : Type 0) : Type 0 where
  pub vid : ℤ
  pub pid : ℤ
  pub hang : W
  pub vang : W

module _ {W : Type 0} ⦃t : Decimals W⦄ where
  -- What operator<< puts between commas.
  abbrev pub vector_columns : Vector W → List Bytes
  vector_columns obj =
      show_ℤ obj.vid ∷ show_ℤ obj.pid ∷ t.show_double obj.hang ∷ t.show_double obj.vang ∷ []

  unfoldable pub print_vector : Vector W → Bytes
  print_vector obj = join b',' (vector_columns obj)

  unfoldable pub read_vector : Bytes → Option (Vector W)
  read_vector s =
      let cs = columns s in
      do
        vid ← int_at 0 cs
        pid ← int_at 1 cs
        hang ← double_at 2 cs
        vang ← double_at 3 cs
        some (record { vid = vid; pid = pid; hang = hang; vang = vang })

  abbrev pub IsVector : Vector W → Type 0
  IsVector x = IsInt x.vid × IsInt x.pid × IsShown x.hang × IsShown x.vang

  pub read_vector-print : (x : Vector W) → IsVector x → read_vector (print_vector x) ≡ some x
  unfolding read_vector print_vector
  read_vector-print x h =
      rw
        (
          split-join b',' (vector_columns x)
              (show_ℤ-IsPart x.vid h.0 ◂ show_ℤ-IsPart x.pid h.1 ◂ h.2.column ◂ h.3.column ◂ tt),
          stoi-show_ℤ x.vid h.0,
          stoi-show_ℤ x.pid h.1,
          h.2.read,
          h.3.read,
        )
        refl

  pub print_vector-line : (x : Vector W) → IsVector x → Lacks b'\n' (print_vector x)
  unfolding print_vector
  print_vector-line x h =
      Lacks-join b',' b'\n' (vector_columns x) refl
        (show_ℤ-line x.vid h.0 ◂ show_ℤ-line x.pid h.1 ◂ h.2.line ◂ h.3.line ◂ tt)

-- updateVector
abbrev pub update_vector : {W : Type 0} → List (Vector W) → Map ℤ (Vector W)
update_vector = update_map (λ obj. obj.vid)

pub record Node : Type 0 where
  pub nid : ℤ
  pub pid : ℤ

-- What operator<< puts between commas.
abbrev pub node_columns : Node → List Bytes
node_columns obj = show_ℤ obj.nid ∷ show_ℤ obj.pid ∷ []

unfoldable pub print_node : Node → Bytes
print_node obj = join b',' (node_columns obj)

unfoldable pub read_node : Bytes → Option Node
read_node s =
    let cs = columns s in
    do nid ← int_at 0 cs; pid ← int_at 1 cs; some (record { nid = nid; pid = pid })

abbrev pub IsNode : Node → Type 0
IsNode x = IsInt x.nid × IsInt x.pid

pub read_node-print : (x : Node) → IsNode x → read_node (print_node x) ≡ some x
unfolding read_node print_node
read_node-print x h =
    rw
      (
        split-join b',' (node_columns x) (show_ℤ-IsPart x.nid h.0 ◂ show_ℤ-IsPart x.pid h.1 ◂ tt),
        stoi-show_ℤ x.nid h.0,
        stoi-show_ℤ x.pid h.1,
      )
      refl

pub print_node-line : (x : Node) → IsNode x → Lacks b'\n' (print_node x)
unfolding print_node
print_node-line x h =
    Lacks-join b',' b'\n' (node_columns x) refl (show_ℤ-line x.nid h.0 ◂ show_ℤ-line x.pid h.1 ◂ tt)

-- updateNode
abbrev pub update_node : List Node → Map ℤ Node
update_node = update_map (λ obj. obj.nid)

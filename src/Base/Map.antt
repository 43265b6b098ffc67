-- ===== src/Base/Map.antt =====
-- `std::map`: an association list kept in the order of its keys, which is the order of iteration.
-- The look-up laws hold whatever the order test is; a client has them and need not unfold the maps.
use mathlib.Core.Path.{◌≡◌, refl}
use mathlib.Core.Logic.{◌↔◌}
use mathlib.Core.Bool.{Bool, true}
use mathlib.Core.Option.{Option, none, some}
use mathlib.Core.List.{List, [], ◌∷◌, map}
use native.Mathlib.Omega.{arith}
use Prim.Native.Nat.{ℕ}
use autoware_ai_common.Base.Tests.{==_iff, if◌then◌else◌, ltb, ◌==◌}

-- What a map asks of its keys: `less` is the map's comparison, `beq` the equality that it gives.
pub record Key {ℓ} (K : Type ℓ) : Type ℓ where
  pub beq : K → K → Bool
  pub less : K → K → Bool
  pub beq_iff : (a b : K) → (beq a b ≡ true) ↔ (a ≡ b)

abbrev pub Map {ℓ κ} : Type ℓ → Type κ → Type (ℓ ⊔ κ)
Map K V = List (K × V)

-- What an entry becomes when another value is offered for its key.
abbrev pub or_else {ℓ} : {V : Type ℓ} → Option V → V → V
or_else none v = v
or_else (some w) v = w

module _ {ℓ κ} {K : Type ℓ} {V : Type κ} ⦃o : Key K⦄ where
  -- m.find(k), m.at(k) and m.count(k)
  unfoldable pub lookup : K → Map K V → Option V
  lookup k [] = none
  lookup k ((j, v) ∷ m) = if o.beq j k then some v else lookup k m

  -- m[k] = v
  unfoldable pub assign : K → V → Map K V → Map K V
  assign k v [] = (k, v) ∷ []
  assign k v ((j, w) ∷ m) =
      if o.beq j k
      then (k, v) ∷ m
      else if o.less k j
      then (k, v) ∷ (j, w) ∷ m
      else (j, w) ∷ assign k v m

  -- m.emplace(k, v): an entry that is there stays
  unfoldable pub emplace : K → V → Map K V → Map K V
  emplace k v m = elim (lookup k m) [ none ↦ assign k v m | some w ↦ m ]

  -- m.erase(k)
  unfoldable pub erase : K → Map K V → Map K V
  erase k [] = []
  erase k ((j, v) ∷ m) = if o.beq j k then erase k m else (j, v) ∷ erase k m

  pub lookup-assign :
      (k j : K) (v : V) (m : Map K V)
      → lookup j (assign k v m) ≡ (if o.beq k j then some v else lookup j m)
  unfolding lookup assign
  lookup-assign k j v [] = refl
  lookup-assign k j v ((i, w) ∷ m) =
      ground (arith, o.beq_iff k j, o.beq_iff i k, o.beq_iff i j, lookup-assign k j v m)

  pub lookup-erase :
      (k j : K) (m : Map K V) → lookup j (erase k m) ≡ (if o.beq k j then none else lookup j m)
  unfolding lookup erase
  lookup-erase k j [] = ground arith
  lookup-erase k j ((i, w) ∷ m) =
      ground (arith, o.beq_iff k j, o.beq_iff i k, o.beq_iff i j, lookup-erase k j m)

  pub lookup-emplace :
      (k j : K) (v : V) (m : Map K V)
      → lookup j (emplace k v m) ≡ (if o.beq k j then some (or_else (lookup k m) v) else lookup j m)
  unfolding emplace
  lookup-emplace k j v m = ground (arith, lookup-assign k j v m, o.beq_iff k j)

abbrev pub keys {ℓ κ} : {K : Type ℓ} {V : Type κ} → Map K V → List K
keys = map (λ e. e.0)

-- Natural numbers as keys, in the order of std::less and of std::greater.
instance abbrev pub ascending : Key ℕ
ascending = record { beq = ◌==◌; less = ltb; beq_iff = ==_iff }

abbrev pub descending : Key ℕ
descending = record { beq = ◌==◌; less = λ a b. ltb b a; beq_iff = ==_iff }

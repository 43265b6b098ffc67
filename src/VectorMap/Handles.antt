-- ===== src/VectorMap/Handles.antt =====
-- Handle of vector_map/include/vector_map/vector_map.h: the items of a message by their identifier. The
-- callbacks are not modelled. A Key is its number.
use autoware_ai_common.Base.{
  Bool, Bool-cases, List, [], arith, false, find_if, if◌then◌else◌, inl, inr, none, refl, some,
  true, ◌∷◌, ◌≡◌,
}
use autoware_ai_common.Base.Int.{eqb_ℤ, eqb_ℤ_iff, ltb_ℤ, pos, ℤ}
use autoware_ai_common.Base.Map.{Key, Map, emplace, lookup, lookup-emplace, or_else}

instance abbrev pub by_id : Key ℤ
by_id = record { beq = eqb_ℤ; less = ltb_ℤ; beq_iff = eqb_ℤ_iff }

-- The loop of the updaters, such as updatePoint of vector_map.cpp: an item with identifier 0 is left out,
-- and of items with one identifier the first stays.
unfoldable pub insert_items : {A : Type 0} → (A → ℤ) → List A → Map ℤ A → Map ℤ A
insert_items id [] m = m
insert_items id (x ∷ xs) m =
    insert_items id xs (if eqb_ℤ (id x) (pos 0) then m else emplace (id x) x m)

abbrev pub update_map : {A : Type 0} → (A → ℤ) → List A → Map ℤ A
update_map id items = insert_items id items []

-- findByKey, where `default` is the value-initialised item
abbrev pub find_by_key : {A : Type 0} → A → ℤ → Map ℤ A → A
find_by_key default key m = or_else (lookup key m) default

-- findByFilter
unfoldable pub find_by_filter : {A : Type 0} → (A → Bool) → Map ℤ A → List A
find_by_filter filter [] = []
find_by_filter filter ((key, x) ∷ m) =
    if filter x then x ∷ find_by_filter filter m else find_by_filter filter m

lookup-insert_items :
    {A : Type 0} (id : A → ℤ) (xs : List A) (m : Map ℤ A) (key : ℤ)
    → eqb_ℤ key (pos 0) ≡ false
    → lookup key (insert_items id xs m)
      ≡ elim (lookup key m) [ some x ↦ some x | none ↦ find_if (λ x. eqb_ℤ (id x) key) xs ]
unfolding insert_items
lookup-insert_items id [] m key h = ground arith
lookup-insert_items id (x ∷ xs) m key h = ground (
  arith,
  h,
  eqb_ℤ_iff (id x) key,
  lookup-emplace (id x) key x m,
  lookup-insert_items id xs m key h,
  lookup-insert_items id xs (emplace (id x) x m) key h,
)

lookup-insert_items_zero :
    {A : Type 0} (id : A → ℤ) (xs : List A) (m : Map ℤ A) (key : ℤ)
    → eqb_ℤ key (pos 0) ≡ true
    → lookup key (insert_items id xs m) ≡ lookup key m
unfolding insert_items
lookup-insert_items_zero id [] m key h = refl
lookup-insert_items_zero id (x ∷ xs) m key h = ground (
  arith,
  h,
  lookup-emplace (id x) key x m,
  lookup-insert_items_zero id xs m key h,
  lookup-insert_items_zero id xs (emplace (id x) x m) key h,
)

-- After an update the item that is found under a key other than 0 is the first one of the message with
-- that identifier, or the default where there is none; no item is found under 0.
pub find_by_key-update_map :
    {A : Type 0} (id : A → ℤ) (default : A) (items : List A) (key : ℤ)
    → find_by_key default key (update_map id items) ≡ (
        if eqb_ℤ key (pos 0)
        then default
        else or_else (find_if (λ x. eqb_ℤ (id x) key) items) default)
unfolding insert_items lookup
find_by_key-update_map id default items key = elim (Bool-cases (eqb_ℤ key (pos 0))) [
  | inl h ↦ rw (h, lookup-insert_items_zero id items [] key h) refl
  | inr h ↦ rw (h, lookup-insert_items id items [] key h) refl
]

-- ===== src/VectorMap/Columns.antt =====
-- The columns of a row and the lines of a file: what std::getline makes of a text with a separator, and
-- the text that the rows of vector_map/lib/vector_map/vector_map.cpp are printed as. `none` is an
-- exception, or a column that is not there, which the code reads out of bounds. How a `double` is
-- printed and read is a parameter.
use autoware_ai_common.Base.{
  All, List, Option, [], and_then, any, any-append, ap, arith, false, get_elem?, if◌then◌else◌,
  null, refl, some, ℕ, ◌++◌, ◌==◌, ◌∙◌, ◌∷◌, ◌≡◌,
}
use autoware_ai_common.Base.Int.{ℤ}
use autoware_ai_common.Base.Map.{or_else}
use autoware_ai_common.VectorMap.Numbers.{Bytes, IsInt, lacks-show_ℤ, show_ℤ, stoi}

abbrev add_first : ℕ → List Bytes → List Bytes
add_first c [] = (c ∷ []) ∷ []
add_first c (x ∷ xs) = (c ∷ x) ∷ xs

-- The texts that std::getline takes off a stream one after the other.
unfoldable pub split : ℕ → Bytes → List Bytes
split sep [] = []
split sep (c ∷ s) = let rest = split sep s in if c == sep then [] ∷ rest else add_first c rest

abbrev pub columns : Bytes → List Bytes
columns = split b','

unfoldable pub join : ℕ → List Bytes → Bytes
join sep [] = []
join sep (x ∷ []) = x
join sep (x ∷ y ∷ xs) = x ++ sep ∷ join sep (y ∷ xs)

abbrev pub Lacks : ℕ → Bytes → Type 0
Lacks sep s = any (λ c. c == sep) s ≡ false

pub split-append :
    (sep : ℕ) (x s : Bytes) → Lacks sep x → split sep (x ++ sep ∷ s) ≡ x ∷ split sep s
unfolding split
split-append sep [] s h = ground arith
split-append sep (c ∷ x) s h = ground (arith, h, split-append sep x s)

split-last : (sep : ℕ) (x : Bytes) → Lacks sep x → null x ≡ false → split sep x ≡ x ∷ []
unfolding split
split-last sep [] h n = absurd (cc n)
split-last sep (c ∷ []) h n = ground (arith, h)
split-last sep (c ∷ d ∷ x) h n = ground (arith, h, split-last sep (d ∷ x))

-- A text that is found again between separators.
abbrev pub IsPart : ℕ → Bytes → Type 0
IsPart sep x = Lacks sep x × (null x ≡ false)

-- What was joined is split into the same parts.
pub split-join : (sep : ℕ) (xs : List Bytes) → All (IsPart sep) xs → split sep (join sep xs) ≡ xs
unfolding split join
split-join sep [] h = refl
split-join sep (x ∷ []) h = split-last sep x h.0.0 h.0.1
split-join sep (x ∷ y ∷ xs) h =
    split-append sep x (join sep (y ∷ xs)) h.0.0 ∙ ap (λ r. x ∷ r) (split-join sep (y ∷ xs) h.1)

Lacks-append : (sep : ℕ) (x y : Bytes) → Lacks sep x → Lacks sep y → Lacks sep (x ++ y)
Lacks-append sep x y h k = ground (arith, any-append (λ c. c == sep) x y, h, k)

-- Another separator that is in no part is not in what is joined.
pub Lacks-join :
    (sep other : ℕ) (xs : List Bytes)
    → (sep == other) ≡ false
    → All (Lacks other) xs
    → Lacks other (join sep xs)
unfolding join
Lacks-join sep other [] k h = refl
Lacks-join sep other (x ∷ []) k h = h.0
Lacks-join sep other (x ∷ y ∷ xs) k h =
    Lacks-append other x (sep ∷ join sep (y ∷ xs)) h.0
      (ground (arith, k, Lacks-join sep other (y ∷ xs) k h.1))

-- The proofs for the parts of a row, one after the other.
infixr 5 ◌◂◌
abbrev pub ◌◂◌ : {A B : Type 0} → A → B → A × B
a ◂ b = (a, b)

pub record Decimals (W : Type 0) : Type 0 where
  pub show_double : W → Bytes
  pub stod : Bytes → Option W

infixl 5 ◌>>=◌
abbrev pub ◌>>=◌ {ℓ κ} : {A : Type ℓ} {B : Type κ} → Option A → (A → Option B) → Option B
o >>= f = and_then o f

abbrev pub int_at : ℕ → List Bytes → Option ℤ
int_at i xs = and_then (get_elem? xs i) stoi

module _ {W : Type 0} ⦃t : Decimals W⦄ where
  abbrev pub double_at : ℕ → List Bytes → Option W
  double_at i xs = and_then (get_elem? xs i) t.stod

  -- A number that is a part of a row and is read back from its print.
  pub record IsShown (x : W) : Type 0 where
    pub read : t.stod (t.show_double x) ≡ some x
    pub column : IsPart b',' (t.show_double x)
    pub line : Lacks b'\n' (t.show_double x)

-- columns[i].c_str()[0]
abbrev pub char_at : ℕ → List Bytes → Option ℕ
char_at i xs = and_then (get_elem? xs i) (λ s. some (or_else (get_elem? s 0) 0))

-- A character that is no separator.
abbrev pub IsChar : ℕ → Type 0
IsChar c = Lacks b',' (c ∷ []) × Lacks b'\n' (c ∷ [])

pub show_ℤ-IsPart : (x : ℤ) → IsInt x → IsPart b',' (show_ℤ x)
show_ℤ-IsPart x h = lacks-show_ℤ b',' x refl refl h

pub show_ℤ-line : (x : ℤ) → IsInt x → Lacks b'\n' (show_ℤ x)
show_ℤ-line x h = (lacks-show_ℤ b'\n' x refl refl h).0

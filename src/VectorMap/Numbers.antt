-- ===== src/VectorMap/Numbers.antt =====
-- Text as bytes, and what the standard library makes of an `int`: `operator<<` and std::stoi.
use autoware_ai_common.Base.{
  All, Bool, Bool-cases, List, Option, [], and_then, any, ap, arith, false, if◌then◌else◌, inl, inr,
  leb, ltb, none, null, refl, some, suc, true, zero, ℕ, ◌%◌, ◌&&◌, ◌*◌, ◌+◌, ◌-◌, ◌/◌, ◌<◌, ◌==◌,
  ◌||◌, ◌∙◌, ◌∷◌, ◌≡◌, ◌≤◌,
}
use autoware_ai_common.Base.Int.{neg_part, negsuc, pos, pos_part, sub_ℕ, ℤ}

abbrev pub Bytes : Type 0
Bytes = List ℕ

abbrev pub is_digit : ℕ → Bool
is_digit c = leb b'0' c && leb c b'9'

-- The digits of a number before some text, at most so many of them.
unfoldable pub digits : ℕ → ℕ → Bytes → Bytes
digits zero n out = out
digits (suc k) n out =
    let rest = digits k (n / 10) ((b'0' + n % 10) ∷ out) in if n == 0 then out else rest

-- An `int` has ten digits at most.
unfoldable pub show_ℕ : ℕ → Bytes
show_ℕ n = if n == 0 then b'0' ∷ [] else digits 10 n []

-- operator<< of an `int`
unfoldable pub show_ℤ : ℤ → Bytes
unfolding show_ℕ
show_ℤ (pos n) = show_ℕ n
show_ℤ (negsuc n) = b'-' ∷ show_ℕ (suc n)

-- The number that the digits at the front of a text go on with.
unfoldable pub value : ℕ → Bytes → ℕ
value n [] = n
value n (c ∷ s) = let rest = value (n * 10 + (c - b'0')) s in if is_digit c then rest else n

unfoldable pub read_ℕ : Bytes → Option ℕ
read_ℕ [] = none
read_ℕ (c ∷ s) = if is_digit c then some (value 0 (c ∷ s)) else none

unfoldable pub skip_space : Bytes → Bytes
skip_space [] = []
skip_space (c ∷ s) =
    let rest = skip_space s in if c == b' ' || (leb 9 c && leb c 13) then rest else c ∷ s

-- One past the largest `int`.
abbrev pub int_bound : ℕ
int_bound = 2147483648

abbrev in_range : Bool → ℕ → Option ℤ
in_range true n = if leb n int_bound then some (sub_ℕ 0 n) else none
in_range false n = if ltb n int_bound then some (pos n) else none

unfoldable pub read_signed : Bytes → Option ℤ
unfolding read_ℕ
read_signed [] = none
read_signed (c ∷ s) =
    if c == b'-'
    then and_then (read_ℕ s) (in_range true)
    else if c == b'+'
    then and_then (read_ℕ s) (in_range false)
    else and_then (read_ℕ (c ∷ s)) (in_range false)

-- std::stoi, whose two exceptions are `none`
unfoldable pub stoi : Bytes → Option ℤ
unfolding read_signed skip_space
stoi s = read_signed (skip_space s)

-- The numbers of an `int`.
abbrev pub IsInt : ℤ → Type 0
IsInt x = (pos_part x < int_bound) × (neg_part x ≤ int_bound)

abbrev limit : ℕ → ℕ
limit zero = 1
limit (suc k) = 10 * limit k

value-digits : (k n : ℕ) (out : Bytes) → n < limit k → value 0 (digits k n out) ≡ value n out
unfolding digits value
value-digits zero n out h = ap (λ m. value m out) (omega (arith, h))
value-digits (suc k) n out h =
    ground (arith, h, value-digits k (n / 10) ((b'0' + n % 10) ∷ out) (omega (arith, h)))

digits-All :
    (k n : ℕ) (out : Bytes)
    → All (λ c. is_digit c ≡ true) out
    → All (λ c. is_digit c ≡ true) (digits k n out)
unfolding digits
digits-All zero n out h = h
digits-All (suc k) n out h = elim (Bool-cases (n == 0)) [
  | inl e ↦ rw e h
  | inr e ↦ rw e (digits-All k (n / 10) ((b'0' + n % 10) ∷ out) (ground arith, h))
]

null-digits : (k n : ℕ) (c : ℕ) (out : Bytes) → null (digits k n (c ∷ out)) ≡ false
unfolding digits
null-digits zero n c out = refl
null-digits (suc k) n c out = ground (arith, null-digits k (n / 10) (b'0' + n % 10) (c ∷ out))

-- The text of a number: digits, at least one, that spell it.
pub record Spells (n : ℕ) (s : Bytes) : Type 0 where
  pub all_digits : All (λ c. is_digit c ≡ true) s
  pub some_digit : null s ≡ false
  pub spelled : value 0 s ≡ n

show_ℕ-Spells : (n : ℕ) → n ≤ int_bound → Spells n (show_ℕ n)
unfolding show_ℕ
show_ℕ-Spells n h = elim (Bool-cases (n == 0)) [
  | inl e ↦ rw e (record {
    all_digits = (refl, tt);
    some_digit = refl;
    spelled = unfold value in ground (arith, e);
  })
  | inr e ↦ rw e (record {
    all_digits = digits-All 10 n [] tt;
    some_digit = unfold digits in ground (arith, e, null-digits 9 (n / 10) (b'0' + n % 10) []);
    spelled = unfold value in value-digits 10 n [] (omega (arith, h));
  })
]

-- A text that spells a number is read as it, with either sign.
read_ℕ-Spells : (n : ℕ) (s : Bytes) → Spells n s → read_ℕ s ≡ some n
unfolding read_ℕ
read_ℕ-Spells n [] h = absurd (cc (h.some_digit))
read_ℕ-Spells n (c ∷ s) h = rw (h.all_digits.0) (ap some h.spelled)

stoi-Spells : (n : ℕ) (s : Bytes) → Spells n s → n < int_bound → stoi s ≡ some (pos n)
unfolding stoi read_signed skip_space
stoi-Spells n [] h b = absurd (cc (h.some_digit))
stoi-Spells n (c ∷ s) h b = ground (arith, h.all_digits.0, read_ℕ-Spells n (c ∷ s) h, b)

stoi-minus : (n : ℕ) (s : Bytes) → Spells n s → n ≤ int_bound → stoi (b'-' ∷ s) ≡ some (sub_ℕ 0 n)
unfolding stoi read_signed skip_space
stoi-minus n s h b = ground (arith, read_ℕ-Spells n s h, b)

-- Every `int` is read back from its print.
pub stoi-show_ℤ : (x : ℤ) → IsInt x → stoi (show_ℤ x) ≡ some x
unfolding show_ℤ
stoi-show_ℤ (pos n) h = stoi-Spells n (show_ℕ n) (show_ℕ-Spells n (omega (arith, h))) h.0
stoi-show_ℤ (negsuc n) h =
    stoi-minus (suc n) (show_ℕ (suc n)) (show_ℕ-Spells (suc n) h.1) h.1 ∙ ap some (ground arith)

-- A separator is in no text of digits.
lacks-digits :
    (sep : ℕ) (s : Bytes)
    → is_digit sep ≡ false
    → All (λ c. is_digit c ≡ true) s
    → any (λ c. c == sep) s ≡ false
lacks-digits sep [] k h = refl
lacks-digits sep (c ∷ s) k h = ground (arith, k, h.0, lacks-digits sep s k h.1)

pub lacks-show_ℤ :
    (sep : ℕ) (x : ℤ)
    → is_digit sep ≡ false
    → (b'-' == sep) ≡ false
    → IsInt x
    → (any (λ c. c == sep) (show_ℤ x) ≡ false) × (null (show_ℤ x) ≡ false)
unfolding show_ℤ
lacks-show_ℤ sep (pos n) k m h =
    let p = show_ℕ-Spells n (omega (arith, h)) in
    (lacks-digits sep (show_ℕ n) k p.all_digits, p.some_digit)
lacks-show_ℤ sep (negsuc n) k m h =
    let p = show_ℕ-Spells (suc n) h.1 in
    (ground (arith, m, lacks-digits sep (show_ℕ (suc n)) k p.all_digits), refl)

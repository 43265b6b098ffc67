-- ===== src/Base/Text.antt =====
-- Texts as map keys, in the order of `std::string`.
use Prim.Native.Nat.{Ordering}
use Prim.Native.String
use mathlib.Core.Bool.{Bool, true, false}
pub use text.Mathlib.Text.{◌==◌ as str_eq}
pub use text.Mathlib.TextEquality.{eq_iff}
pub use text.Mathlib.TextPositions.{eq_refl}
pub use Prim.Native.String.{◌++◌ as str_append}
use autoware_ai_common.Base.Map.{Key}

abbrev pub str_less : String.String → String.String → Bool
str_less a b = elim (String.compare a b) [ Ordering.lt ↦ true | _ ↦ false ]

instance abbrev pub string_key : Key String.String
string_key = record { beq = str_eq; less = str_less; beq_iff = eq_iff }

-- ===== src/Health/Names.antt =====
-- autoware_health_checker/src/health_aggregator/health_aggregator.cpp: how a node's name becomes a key.
-- `none` is the exception of `at` on an empty name.
use Prim.Native.String.{String, [], ◌∷◌}
use autoware_ai_common.Base.{Option, if◌then◌else◌, none, some}
use autoware_ai_common.Base.Text.{str_append, str_eq}

-- std::regex_replace(name, std::regex("/"), "_")
unfoldable pub slashes_to_underscores : String → String
slashes_to_underscores [] = []
slashes_to_underscores (c ∷ s) =
    str_append (if str_eq (c ∷ []) "/" then "_" else c ∷ []) (slashes_to_underscores s)

-- changeToKeyFormat
unfoldable pub change_to_key_format : String → Option String
unfolding slashes_to_underscores
change_to_key_format [] = none
change_to_key_format (c ∷ s) =
    some (slashes_to_underscores (if str_eq (c ∷ []) "/" then s else c ∷ s))

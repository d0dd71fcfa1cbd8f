-- ===== src/Simplify/Description.antt =====
-- `_build_llm_description` of core/simplify.py: the text of a tool, with its HTTP hint at the end.
pub mod Bounded
use Prim.Native.String.{◌++◌, count}
use specmcp.Prelude.{
  ℕ, ◌-◌, String, Bool, true, false, ◌&&◌, ◌==◌, Option, none, some, List, [], ◌∷◌, if◌then◌else◌,
  ltb, not,
}
use mathlib.Core.List
use specmcp.Prelude.Text.{take, strip, rstrip, is_space, is_nil, join}
use specmcp.Model.{Operation}
use specmcp.Naming.Method.{HttpMethod, method_name}

-- A summary or description that is not empty.
abbrev text_part : Option String → List String
text_part none = []
text_part (some s) = if is_nil s then [] else s ∷ []

abbrev same_text : Option String → Option String → Bool
same_text (some s) (some t) = s == t
same_text none none = true
same_text _ _ = false

-- "[METHOD /path]"
unfoldable pub http_hint : Operation → String
http_hint op = "[" ++ (method_name op.method ++ (" " ++ (op.path ++ "]")))

unfoldable pub description_base : Operation → String
unfolding join
description_base op = join " " (
    List.◌++◌ (if op.deprecated then "[DEPRECATED]" ∷ [] else []) (
      List.◌++◌ (text_part op.summary)
        (if same_text op.description op.summary then [] else text_part op.description)))

-- The base and the hint, cut to the limit.
pub cap_description : ℕ → String → String → String
unfolding take strip rstrip
cap_description max_chars base hint =
    let full = if is_nil base then hint else strip is_space (base ++ (" " ++ hint)) in
    let available = max_chars - count hint - 1 in
    if ltb max_chars (count full)
    then (if ltb 0 available then rstrip is_space (take available base) ++ ("… " ++ hint) else hint)
    else full

unfoldable pub build_llm_description : ℕ → Operation → String
unfolding cap_description http_hint description_base
build_llm_description max_chars op = cap_description max_chars (description_base op) (http_hint op)

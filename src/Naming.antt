-- ===== src/Naming.antt =====
-- The naming algorithm of src/specmcp/core/normalize.py (documented in docs/naming.md): the name of
-- an operation that has no operationId, and the resolution of equal names.
pub mod Clean
pub mod Unique
pub mod Method
use Prim.Native.String
use mathlib.Core.Option.{get_or}
use specmcp.Prelude.{
  ℕ, zero, suc, ◌+◌, Char, code, String, Bool, true, false, ◌&&◌, List, [], ◌∷◌, eqb, if◌then◌else◌,
  some, none, Option,
}
use specmcp.Prelude.Dict.{Dict, get, set}
use specmcp.Prelude.Suffix.{suffixed}
use specmcp.Prelude.Text.{is_nil, strip}
use specmcp.Naming.Method.{HttpMethod, method_key}

abbrev pub is_underscore : Char → Bool
is_underscore c = eqb (code c) b'_'

abbrev pub starts_underscore : String → Bool
starts_underscore String.[] = false
starts_underscore (String.◌∷◌ c s) = is_underscore c

-- name.replace("/", "_")
replace_slashes : String → String
replace_slashes String.[] = ""
replace_slashes (String.◌∷◌ c s) =
    String.◌∷◌ (if eqb (code c) b'/' then "_" else c) (replace_slashes s)

-- name.replace(ch, "")
delete_char : ℕ → String → String
delete_char ch String.[] = ""
delete_char ch (String.◌∷◌ c s) =
    let rest = delete_char ch s in if eqb (code c) ch then rest else String.◌∷◌ c rest

-- re.sub(r"_+", "_", name)
collapse : String → String
collapse String.[] = ""
collapse (String.◌∷◌ c s) =
    let rest = collapse s in
    if is_underscore c && starts_underscore rest then rest else String.◌∷◌ c rest

unfoldable pub sanitize_path_segment : String → String
unfolding replace_slashes delete_char collapse strip
sanitize_path_segment path =
    strip is_underscore (collapse (delete_char b'}' (delete_char b'{' (replace_slashes path))))

unfoldable pub derive_operation_id : HttpMethod → String → String
unfolding sanitize_path_segment
derive_operation_id method path =
    let path_part = sanitize_path_segment path in
    if is_nil path_part
    then method_key method
    else String.◌++◌ (method_key method) (String.◌++◌ "_" path_part)

-- `seen[name]` of a `Counter`.
abbrev pub seen_count : Dict ℕ → String → ℕ
seen_count seen name = get_or (get seen name) 0

-- The first occurrence keeps its name, the n-th gets the suffix n.
abbrev pub decorate : ℕ → String → String
decorate zero name = name
decorate (suc n) name = suffixed name (suc n + 1)

-- The loop of `_resolve_collisions`.
pub resolve_from : Dict ℕ → List String → List String
resolve_from seen [] = []
resolve_from seen (name ∷ rest) =
    let n = seen_count seen name in decorate n name ∷ resolve_from (set seen name (n + 1)) rest

unfoldable pub resolve_collisions : List String → List String
unfolding resolve_from get set suffixed
resolve_collisions candidates = resolve_from [] candidates

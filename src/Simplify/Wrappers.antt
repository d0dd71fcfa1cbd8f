-- ===== src/Simplify/Wrappers.antt =====
-- `apply_flatten_wrappers` of core/simplify.py: an object argument with one property is replaced by
-- that property, and the binding's path gains the level.
pub mod Flattened
use Prim.Native.String
use specmcp.Prelude.{
  ℕ, String, Bool, true, false, ◌||◌, ◌&&◌, ◌==◌, Option, none, some, List, [], ◌∷◌, ◌++◌,
  if◌then◌else◌, elem, is_empty,
}
use specmcp.Prelude.Dict.{Dict, keys, get, set, remove, has}
use specmcp.Json.{
  Json, null, bool, num, str, arr, obj, Items, nil, cons, Fields, end, field, array, object,
  from_dict, to_dict, to_list, is_str, get_or, truthy,
}
use specmcp.Model.{Schema, TargetKind, body_field, at_path, ArgumentBinding, Bindings}
use specmcp.Errors.Result.{Result, ok, err, python_error, ◌>>=◌, map_result}
use specmcp.Normalize.Read.{as_dict, as_text, read_list}
use specmcp.Simplify.Unions.{texts}

abbrev is_body_field : TargetKind → Bool
is_body_field body_field = true
is_body_field _ = false

-- The one property of an object schema, if it has one property. The keyword `properties` is an
-- object, as the meta-schema requires.
abbrev pub single_property : Json → Option (String × Json)
single_property (obj fs) =
    if is_str "object" (get_or (to_dict fs) "type" null)
    then elim (get (to_dict fs) "properties") [
      | some (obj (field k v end)) ↦ some (k, v)
      | _ ↦ none
    ]
    else none
single_property v = none

-- What the loop builds.
pub record Flat : Type 0 where
  pub properties : Dict Json
  pub bindings : Bindings

-- f"{llm_key}_{inner_key}" if inner_key in bindings else inner_key
abbrev pub flat_key : Bindings → String → String → String
flat_key bindings key inner =
    if has bindings inner then String.◌++◌ key (String.◌++◌ "_" inner) else inner

-- The argument is replaced.
unwrap : Bindings → Flat → String → ArgumentBinding → String × Json → Flat
unfolding set remove
unwrap bindings flat key binding (inner, schema) =
    let new_key = flat_key bindings key inner in
    record {
      properties = set flat.properties new_key schema;
      bindings =
          remove
            (set flat.bindings new_key (record {
              source_llm_key = new_key;
              target_kind = body_field;
              target_path = binding.target_path ++ inner ∷ [];
              style = binding.style;
              explode = binding.explode;
            }))
            key;
    }

abbrev keep : Flat → String → Json → Flat
keep flat key schema = record flat { properties = set flat.properties key schema }

-- The argument is a field of the body, and a wrapper.
abbrev unwrap_if :
    Bindings → Flat → String → Json → Option ArgumentBinding → Option (String × Json) → Flat
unwrap_if bindings flat key schema none inner = keep flat key schema
unwrap_if bindings flat key schema (some binding) none = keep flat key schema
unwrap_if bindings flat key schema (some binding) (some inner) =
    if is_body_field binding.target_kind
    then unwrap bindings flat key binding inner
    else keep flat key schema

pub flatten_from : Bindings → Flat → Dict Json → Flat
unfolding get unwrap get_or
flatten_from bindings flat [] = flat
flatten_from bindings flat ((key, schema) ∷ d) =
    flatten_from bindings
      (unwrap_if bindings flat key schema (get bindings key) (single_property schema)) d

-- `path[: len(prefix)] == prefix`
abbrev starts_with_path : List String → List String → Bool
starts_with_path path [] = true
starts_with_path [] (p ∷ prefix) = false
starts_with_path (q ∷ path) (p ∷ prefix) = q == p && starts_with_path path prefix

-- The first new argument whose path goes on from the old one's.
first_below : List String → Bindings → List String
first_below prefix [] = []
first_below prefix ((key, binding) ∷ d) =
    if starts_with_path binding.target_path prefix then key ∷ [] else first_below prefix d

abbrev below_if : Bindings → Option ArgumentBinding → List String
below_if new none = []
below_if new (some binding) = first_below binding.target_path new

-- The list of required arguments, under their new keys.
fix_required : Bindings → Bindings → List String → List String
unfolding first_below get
fix_required bindings new [] = []
fix_required bindings new (r ∷ rs) =
    (if has new r then r ∷ [] else below_if new (get bindings r)) ++ fix_required bindings new rs

-- {**schema, "properties": new_props}, with the fixed list of required arguments
abbrev rewrite_schema : Schema → Dict Json → List String → Schema
rewrite_schema schema properties required =
    let changed = set schema "properties" (object properties) in
    if is_empty required
    then remove changed "required"
    else set changed "required" (array (texts required))

unfoldable pub apply_flatten_wrappers : Schema → Bindings → Result (Schema × Bindings)
unfolding flatten_from fix_required get_or read_list map_result set remove
apply_flatten_wrappers schema bindings =
    let props = get_or schema "properties" (object []) in
    if truthy props
    then (do
      properties ← as_dict props
      required_raw ← read_list schema "required" []
      required ← map_result as_text required_raw
      let flat = flatten_from bindings (record { properties = []; bindings = bindings }) properties
      ok (
        rewrite_schema schema flat.properties (fix_required bindings flat.bindings required),
        flat.bindings,
      ))
    else ok (schema, bindings)

-- ===== src/Simplify/ArgumentMap.antt =====
-- `build_argument_map` of core/simplify.py: the arguments that the language model sees, and the
-- binding of each to its place in the request.
pub mod Bound
use specmcp.Prelude.{
  String, Bool, true, false, ◌&&◌, ◌==◌, Option, none, some, List, [], ◌∷◌, ◌++◌, if◌then◌else◌,
  is_empty,
}
use specmcp.Prelude.Dict.{Dict, keys, get, set, has}
use specmcp.Json.{
  Json, null, bool, num, str, arr, obj, Items, array, object, is_str, holds_str, to_dict, to_list,
  get_or, from_list,
}
use specmcp.Model.{
  ParamLocation, path, query, header, cookie, Parameter, Operation, RequestBody, RequestBodyVariant,
  Schema, TargetKind, at_path, at_query, at_header, at_cookie, body_field, body_root,
  ArgumentBinding, Bindings,
}
use specmcp.Errors.Result.{Result, ok, err, python_error, ◌>>=◌}
use specmcp.Simplify.UniqueKey.{unique_key}

-- The three accumulators of the function.
pub record Built : Type 0 where
  pub properties : Dict Json
  pub required : List String
  pub bindings : Bindings

abbrev pub target_of : ParamLocation → TargetKind
target_of path = at_path
target_of query = at_query
target_of header = at_header
target_of cookie = at_cookie

-- One more argument under a key that is free.
add : Built → String → Json → Bool → ArgumentBinding → Built
add b key schema needed binding = record {
  properties = set b.properties key schema;
  required = if needed then b.required ++ key ∷ [] else b.required;
  bindings = set b.bindings key binding;
}

add_parameter : Built → Parameter → Built
unfolding add unique_key set
add_parameter b p =
    let key = unique_key p.name (keys b.bindings) "_query" in
    add b key (object p.schema) p.required (record {
      source_llm_key = key;
      target_kind = target_of p.location;
      target_path = p.name ∷ [];
      style = p.style;
      explode = p.explode;
    })

add_parameters : Built → List Parameter → Built
add_parameters b [] = b
add_parameters b (p ∷ ps) = add_parameters (add_parameter b p) ps

abbrev unstyled : String → TargetKind → List String → ArgumentBinding
unstyled key kind target = record {
  source_llm_key = key;
  target_kind = kind;
  target_path = target;
  style = none;
  explode = none;
}

-- A field of an object body; `needed` names the fields that are required.
add_field : (String → Bool) → Built → String × Json → Built
unfolding add unique_key set
add_field needed b (name, schema) =
    let key = unique_key name (keys b.bindings) "_body" in
    add b key schema (needed name) (unstyled key body_field (name ∷ []))

add_fields : (String → Bool) → Built → Dict Json → Built
unfolding add_field
add_fields needed b [] = b
add_fields needed b (entry ∷ d) = add_fields needed (add_field needed b entry) d

-- A body that is no object is one argument.
add_root : Built → Json → Bool → Built
unfolding add unique_key set
add_root b schema needed =
    let key = unique_key "body" (keys b.bindings) "_query" in
    add b key schema needed (unstyled key body_root [])

abbrev is_object_schema : Schema → Bool
is_object_schema schema = is_str "object" (get_or schema "type" null) && has schema "properties"

-- `body_schema["properties"].items()`
abbrev entries_of : Json → Result (Dict Json)
entries_of (obj fs) = ok (to_dict fs)
entries_of v = err python_error

-- `body_schema.get("required", [])`, read only where the body is required; a list, as the meta-schema
-- requires.
abbrev required_fields : Bool → Json → Result Items
required_fields false v = ok Items.nil
required_fields true (arr vs) = ok vs
required_fields true v = err python_error

-- The first variant is the one that is dispatched.
add_variants : Built → Bool → List RequestBodyVariant → Result Built
unfolding add_fields add_root get_or
add_variants b body_required [] = ok b
add_variants b body_required (variant ∷ rest) =
    if is_object_schema variant.schema
    then (do
      entries ← entries_of (get_or variant.schema "properties" null)
      needed ← required_fields body_required (get_or variant.schema "required" (array []))
      ok (add_fields (λ name. body_required && holds_str name needed) b entries))
    else ok (add_root b (object variant.schema) body_required)

add_body : Built → Option RequestBody → Result Built
unfolding add_variants
add_body b none = ok b
add_body b (some body) = add_variants b body.required body.variants

abbrev empty_built : Built
empty_built = record { properties = []; required = []; bindings = [] }

abbrev texts : List String → List Json
texts [] = []
texts (s ∷ ss) = str s ∷ texts ss

-- The schema of the arguments.
unfoldable pub llm_schema : Built → Schema
llm_schema b =
    let base =
      ("type", str "object")
      ∷ ("properties", object b.properties)
      ∷ ("additionalProperties", bool true)
      ∷ [] in
    if is_empty b.required then base else base ++ ("required", array (texts b.required)) ∷ []

unfoldable pub build_arguments : Operation → Result Built
unfolding add_parameters add_parameter add_body
build_arguments op = add_body (add_parameters empty_built op.parameters) op.request_body

unfoldable pub build_argument_map : Operation → Result (Schema × Bindings)
unfolding build_arguments llm_schema
build_argument_map op = do b ← build_arguments op; ok (llm_schema b, b.bindings)

-- ===== src/Tests/Tools.antt =====
-- Examples of the Simplify and Expose stages.
use Prim.Native.String.{count}
use specmcp.Prelude.{
  String, ◌≡◌, ◌≢◌, refl, Bool, true, false, Option, none, some, List, [], ◌∷◌, ◌++◌, map, any,
  elem, arith, ◌==◌, eq_iff,
}
use specmcp.Prelude.Digits.{show}
use specmcp.Prelude.Dict.{Dict, get, set}
use specmcp.Json.{Json, str, bool, array, object}
use specmcp.Model.{
  Parameter, Operation, Schema, path, simple, TargetKind, at_path, body_field, ParamStyle,
  ArgumentBinding, SimplifiedOperation,
}
use specmcp.Errors.Result.{ok, ◌>>=◌, map_result}
use specmcp.Naming.Method.{HttpMethod}
use specmcp.Normalize.Schema.Types.{admits}
use specmcp.Simplify.UniqueKey.{unique_key}
use specmcp.Simplify.UniqueKey.Fresh.{unique_key_fresh}
use specmcp.Simplify.ArgumentMap.{Built, build_arguments, build_argument_map, llm_schema}
use specmcp.Simplify.ArgumentMap.Bound.{
  IsBuilt, parameter_target, body_targets, build_arguments-IsBuilt,
}
use specmcp.Simplify.Metadata.{is_dropped}
use specmcp.Simplify.Pipeline.{SimplifyConfig, Simplified, simplify_one}
use specmcp.Simplify.Pipeline.Covered.{is_covered, simplify_one-covered}
use specmcp.Simplify.Unions.{try_collapse}
use specmcp.Simplify.Unions.Collapsed.{branch_admits, try_collapse-admits}
use specmcp.Simplify.Description.{build_llm_description}
use specmcp.Expose.{OperationOverride, ToolDefinition, lookup, build}
use specmcp.Expose.Exposed.{IsExposed}
use specmcp.Expose.Lookup.{build-lookup}

unique_key_test : unique_key "id" ("id" ∷ "id_body" ∷ []) "_body" ≡ "id_body_2"
unfolding unique_key show
unique_key_test = refl

unique_key_fresh_example :
    elem (unique_key "id" ("id" ∷ "id_body" ∷ []) "_body") ("id" ∷ "id_body" ∷ []) ≡ false
unique_key_fresh_example = unique_key_fresh "id" ("id" ∷ "id_body" ∷ []) "_body"

abbrev id_parameter : Parameter
id_parameter = record {
  name = "id";
  location = path;
  required = true;
  schema = [];
  style = some simple;
  explode = some false;
  allow_empty_value = false;
  deprecated = false;
}

abbrev id_schema : Schema
id_schema =
    ("type", str "object")
    ∷ ("properties", object (("id", object []) ∷ ("x-tag", object []) ∷ []))
    ∷ []

abbrev user_operation : Operation
user_operation = record {
  id = "getUser";
  method = HttpMethod.get;
  path = "/users/{id}";
  server_url = "";
  parameters = id_parameter ∷ [];
  request_body = some (record {
    required = true;
    variants =
        record { content_type = "application/json"; schema = id_schema; encoding = none } ∷ [];
  });
  responses = [];
  auth = [];
  summary = some "Get a user";
  description = none;
  tags = [];
  deprecated = false;
  source_location = none;
  vendor_extensions = [];
}

abbrev binding : String → TargetKind → String → Option ParamStyle → Option Bool → ArgumentBinding
binding key kind name style explode = record {
  source_llm_key = key;
  target_kind = kind;
  target_path = name ∷ [];
  style = style;
  explode = explode;
}

abbrev user_built : Built
user_built = record {
  properties = ("id", object []) ∷ ("id_body", object []) ∷ ("x-tag", object []) ∷ [];
  required = "id" ∷ [];
  bindings =
      ("id", binding "id" at_path "id" (some simple) (some false))
      ∷ ("id_body", binding "id_body" body_field "id" none none)
      ∷ ("x-tag", binding "x-tag" body_field "x-tag" none none)
      ∷ [];
}

user_built_test : build_arguments user_operation ≡ ok user_built
unfolding build_arguments ◌>>=◌ get set unique_key
user_built_test = refl

build_arguments-IsBuilt_example :
    IsBuilt user_built
      (map parameter_target user_operation.parameters ++ body_targets user_operation.request_body)
build_arguments-IsBuilt_example = build_arguments-IsBuilt user_operation user_built user_built_test

user_map_test : build_argument_map user_operation ≡ ok (llm_schema user_built, user_built.bindings)
unfolding build_argument_map ◌>>=◌ build_arguments get set unique_key
user_map_test = refl

abbrev four_rules : SimplifyConfig
four_rules = record {
  inline_shallow_refs = true;
  drop_spec_metadata = true;
  collapse_unions = true;
  flatten_single_property_wrappers = false;
  truncate_description_chars = 40;
}

-- An argument that is named like an extension loses its property and keeps its binding.
abbrev user_simplified : Simplified
user_simplified = (
  ("type", str "object")
      ∷ ("properties", object (("id", object []) ∷ ("id_body", object []) ∷ []))
      ∷ ("additionalProperties", bool true)
      ∷ ("required", array (str "id" ∷ []))
      ∷ [],
  (user_built.bindings, []),
)

user_simplified_test : simplify_one user_operation four_rules ≡ ok user_simplified
unfolding simplify_one ◌>>=◌ get set unique_key is_dropped
user_simplified_test = refl

simplify_one-covered_example : is_covered user_simplified ≡ true
unfolding get set unique_key build_arguments ◌>>=◌
simplify_one-covered_example =
    simplify_one-covered user_operation four_rules user_simplified refl refl user_simplified_test

abbrev branches : List Json
branches =
    object (("type", str "string") ∷ [])
    ∷ object (("type", array (str "null" ∷ str "string" ∷ [])) ∷ [])
    ∷ []

abbrev collapsed : Schema
collapsed = ("type", array (str "string" ∷ str "null" ∷ [])) ∷ []

try_collapse-admits_example :
    admits (get collapsed "type") "null" ≡ any (branch_admits "null") branches
unfolding try_collapse ◌>>=◌ get map_result
try_collapse-admits_example = try_collapse-admits branches collapsed "null" refl

ne_of_eq_false : (s t : String) → (s == t) ≡ false → s ≢ t
ne_of_eq_false s t h e = ground (arith, eq_iff s t)

-- The description has one character more than the limit.
description_test : count (build_llm_description 23 user_operation) ≡ 24
unfolding build_llm_description
description_test = refl

abbrev simplified : SimplifiedOperation
simplified = record {
  operation = user_operation;
  llm_input_schema = [];
  llm_description = "text";
  arg_map = [];
  warnings = [];
}

abbrev overrides : Dict OperationOverride
overrides =
    (
      "getUser",
      record {
        rename = some "fetch";
        description = none;
        hide = false;
        additional_properties_strict = true;
      },
    )
    ∷ []

build-lookup_example :
    (t : ToolDefinition) × (lookup (build (some overrides) (simplified ∷ [])) "fetch" ≡ some t)
    × IsExposed (get overrides "getUser") simplified t
unfolding get
build-lookup_example = build-lookup (some overrides) [] simplified [] refl refl

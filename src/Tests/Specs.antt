-- ===== src/Tests/Specs.antt =====
-- Examples of the Normalize stage.
use specmcp.Prelude.{
  String, ◌≡◌, refl, true, false, ◌&&◌, ◌||◌, ◌==◌, none, some, [], ◌∷◌, All, arith, eq_iff, sym,
  ap, ◌∙◌,
}
use specmcp.Prelude.Suffix.{suffixed, suffixed-ne}
use specmcp.Prelude.Dict.{Dict, get, set, remove}
use specmcp.Json.{Json, bool, num, str, obj, Fields, end, field, object, get_or}
use specmcp.Model.{Parameter, Operation, query, form}
use specmcp.Errors.Result.{ok, ◌>>=◌}
use specmcp.Naming.Method.{HttpMethod}
use specmcp.Naming.Unique.{NoneSuffixed}
use specmcp.Normalize.Read.{v3_1, read_dict}
use specmcp.Normalize.Schema.{normalize_schema, normalize_at, key_kind, edit_keys}
use specmcp.Normalize.Schema.Types.{admits, schema_type, is_nullable, admits-normalize_schema}
use specmcp.Normalize.Parameters.{normalize_parameter, merge_parameters}
use specmcp.Normalize.Parameters.Merged.{IsExposable, merge_parameters-IsExposable}
use specmcp.Simplify.Pipeline.{SimplifyConfig, simplify, simplify_operation}
use specmcp.Expose.{ToolDefinition, lookup, build}
use specmcp.Expose.Exposed.{IsExposed}
use specmcp.Naming.{resolve_collisions}
use specmcp.Normalize.Operations.Listed.{AreListed, normalize_spec-AreListed}
use specmcp.Expose.Reached.{build-simplify}
use specmcp.Normalize.Operations.{
  ResolvedSpec, Filters, Candidate, collect_candidates, normalize_spec,
}
use specmcp.Normalize.Operations.Listed.{spec_candidates}

abbrev nullable_text : Fields
nullable_text = field "type" (str "string") (field "nullable" (bool true) end)

abbrev bounded : Fields
bounded = field "maximum" (num "5") (field "exclusiveMaximum" (bool true) end)

bound_test : normalize_schema (obj bounded) ≡ obj (field "exclusiveMaximum" (num "5") end)
unfolding normalize_at edit_keys get set remove get_or key_kind
bound_test = refl

admits-normalize_schema_example :
    admits (schema_type (normalize_schema (obj nullable_text))) "null" ≡ (
      admits (schema_type (obj nullable_text)) "null"
      || (is_nullable nullable_text && ("null" == "null")))
unfolding get
admits-normalize_schema_example =
    admits-normalize_schema nullable_text (str "string") "null" refl tt

abbrev raw_parameter : String → String → Dict Json
raw_parameter name place = ("name", str name) ∷ ("in", str place) ∷ []

abbrev id_parameter : Parameter
id_parameter = record {
  name = "id";
  location = query;
  required = false;
  schema = [];
  style = some form;
  explode = some true;
  allow_empty_value = false;
  deprecated = false;
}

-- The header Host is left out.
merge_parameters-IsExposable_example : All IsExposable (id_parameter ∷ [])
unfolding merge_parameters normalize_parameter ◌>>=◌ get get_or
merge_parameters-IsExposable_example =
    merge_parameters-IsExposable v3_1 (raw_parameter "Host" "header" ∷ [])
      (raw_parameter "id" "query" ∷ []) (id_parameter ∷ []) refl

abbrev no_filters : Filters
no_filters = record {
  base_url_override = none;
  include_deprecated = true;
  include_tags = [];
  exclude_tags = [];
  include_operations = [];
  exclude_operations = [];
}

abbrev ping : Dict Json
ping = ("operationId", str "ping") ∷ []

abbrev small_spec : ResolvedSpec
small_spec = record {
  spec = ("paths", object (("/ping", object (("get", object ping) ∷ [])) ∷ [])) ∷ [];
  source = "api.yaml";
  openapi_version = v3_1;
}

abbrev ping_candidate : Candidate
ping_candidate = record {
  id = "ping";
  path_item = ("get", object ping) ∷ [];
  op_dict = ping;
  method = HttpMethod.get;
  path = "/ping";
}

abbrev pub ping_operation : Operation
ping_operation = record {
  id = "ping";
  method = HttpMethod.get;
  path = "/ping";
  server_url = "";
  parameters = [];
  request_body = none;
  responses = [];
  auth = [];
  summary = none;
  description = none;
  tags = [];
  deprecated = false;
  source_location = some ("api.yaml", 0);
  vendor_extensions = [];
}

ping_candidates : spec_candidates small_spec ≡ ok (ping_candidate ∷ [])
unfolding spec_candidates collect_candidates read_dict ◌>>=◌ get
ping_candidates = refl

ping_normalized : normalize_spec small_spec no_filters ≡ ok (ping_operation ∷ [])
unfolding normalize_spec ◌>>=◌ get
ping_normalized = refl

normalize_spec-AreListed_example :
    AreListed no_filters
      (ping_candidate ∷ [])
      (resolve_collisions ("ping" ∷ []))
      (ping_operation ∷ [])
normalize_spec-AreListed_example =
    normalize_spec-AreListed small_spec no_filters (ping_candidate ∷ []) (ping_operation ∷ [])
      ping_candidates ping_normalized

ping_apart : NoneSuffixed ("ping" ∷ [])
ping_apart a b n h k e =
    let first : "ping" ≡ a = ground (arith, eq_iff "ping" a) in
    let second : "ping" ≡ b = ground (arith, eq_iff "ping" b) in
    suffixed-ne "ping" n (ap (λ (s : String). suffixed s n) second ∙ sym e ∙ sym first)

abbrev config : SimplifyConfig
config = record {
  inline_shallow_refs = true;
  drop_spec_metadata = true;
  collapse_unions = true;
  flatten_single_property_wrappers = true;
  truncate_description_chars = 500;
}

build-simplify_example :
    (t : ToolDefinition) × (lookup (build none (simplify config (ping_operation ∷ []))) "ping"
      ≡ some t)
    × IsExposed none (simplify_operation config ping_operation) t
build-simplify_example =
    build-simplify small_spec no_filters (ping_candidate ∷ []) config [] ping_operation []
      ping_candidates ping_apart ping_normalized

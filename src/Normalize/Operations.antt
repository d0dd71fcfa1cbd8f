-- ===== src/Normalize/Operations.antt =====
-- `normalize` of core/normalize.py: candidates in spec order, resolved names, filters, operations.
pub mod Passing
pub mod Listed
pub mod Distinctness
use specmcp.Prelude.{
  ℕ, zero, String, Bool, true, false, not, ◌&&◌, ◌||◌, ◌==◌, Option, none, some, List, [], ◌∷◌,
  ◌++◌, any, elem, map, is_empty, if◌then◌else◌,
}
use specmcp.Prelude.Dict.{Dict, get}
use specmcp.Prelude.Text.{has_prefix, strip, is_space, is_nil}
use specmcp.Json.{Json, null, bool, num, str, arr, obj, array, object, get_or, to_dict, to_list}
use specmcp.Model.{Operation, Schema}
use specmcp.Naming.{derive_operation_id, resolve_collisions}
use specmcp.Naming.Method.{HttpMethod, http_methods, method_key}
use specmcp.Errors.Result.{Result, ok, err, ◌>>=◌, map_result}
use specmcp.Normalize.Read.{
  OpenapiVersion, as_dict, as_list, read_text, read_texts, read_bool, read_dict, read_list,
  read_optional_text,
}
use specmcp.Normalize.Parameters.{merge_parameters}
use specmcp.Normalize.Content.{normalize_request_body, normalize_responses, normalize_security}
use specmcp.Normalize.Server.{resolve_server_url}

pub record ResolvedSpec : Type 0 where
  pub spec : Dict Json
  pub source : String
  pub openapi_version : OpenapiVersion

-- The keyword arguments of `normalize`; None and an empty list are alike there.
pub record Filters : Type 0 where
  pub base_url_override : Option String
  pub include_deprecated : Bool
  pub include_tags : List String
  pub exclude_tags : List String
  pub include_operations : List String
  pub exclude_operations : List String

pub record Candidate : Type 0 where
  pub id : String
  pub path_item : Dict Json
  pub op_dict : Dict Json
  pub method : HttpMethod
  pub path : String

-- One method of a path item; no candidate where its value is no object.
candidate_at : String → Dict Json → HttpMethod → Result (List Candidate)
unfolding read_text derive_operation_id strip
candidate_at path path_item method = elim (get path_item (method_key method)) [
  | some (obj fs) ↦ (do
    given ← read_text (to_dict fs) "operationId" ""
    let stripped = strip is_space given
    ok (
        record {
          id = if is_nil stripped then derive_operation_id method path else stripped;
          path_item = path_item;
          op_dict = to_dict fs;
          method = method;
          path = path;
        }
        ∷ []))
  | _ ↦ ok []
]

concat_result {ℓ κ} : {A : Type ℓ} {B : Type κ} → (A → Result (List B)) → List A → Result (List B)
concat_result f [] = ok []
concat_result f (x ∷ xs) = do ys ← f x; zs ← concat_result f xs; ok (ys ++ zs)

-- The methods of one path, and no candidate where the path item is no object.
path_candidates : String × Json → Result (List Candidate)
unfolding concat_result candidate_at
path_candidates (path, item) = elim item [
  | obj fs ↦ concat_result (candidate_at path (to_dict fs)) http_methods
  | _ ↦ ok []
]

-- Pass 1: all candidates in spec order.
unfoldable pub collect_candidates : Dict Json → Result (List Candidate)
unfolding concat_result path_candidates
collect_candidates paths = concat_result path_candidates paths

-- Pass 2: each candidate with its resolved name.
abbrev zip_names : List Candidate → List String → List (Candidate × String)
zip_names (c ∷ cs) (name ∷ names) = (c, name) ∷ zip_names cs names
zip_names _ _ = []

unfoldable pub name_candidates : List Candidate → List (Candidate × String)
unfolding resolve_collisions
name_candidates candidates = zip_names candidates (resolve_collisions (map (λ c. c.id) candidates))

-- The operation passes the filters.
unfoldable pub is_kept : Filters → String → List String → Bool → Bool
is_kept f op_id tags deprecated =
    not (not f.include_deprecated && deprecated)
    && ((is_empty f.include_tags || any (λ t. elem t f.include_tags) tags)
        && (not (not (is_empty f.exclude_tags) && any (λ t. elem t f.exclude_tags) tags)
            && ((is_empty f.include_operations || elem op_id f.include_operations)
                && not (not (is_empty f.exclude_operations) && elem op_id f.exclude_operations))))

abbrev default_servers : List Json
default_servers = object (("url", str "/") ∷ []) ∷ []

vendor_extensions : Dict Json → Schema
vendor_extensions [] = []
vendor_extensions ((k, v) ∷ d) =
    let rest = vendor_extensions d in if has_prefix k "x-" then (k, v) ∷ rest else rest

-- The objects of a list of objects.
dicts : List Json → Result (List (Dict Json))
unfolding map_result
dicts vs = map_result as_dict vs

-- Pass 3, for an operation that is kept.
pub build_operation :
    ResolvedSpec → Filters → Candidate → String → List String → Bool → Result Operation
unfolding resolve_server_url merge_parameters normalize_request_body normalize_responses
    normalize_security read_list read_dict read_optional_text vendor_extensions dicts get_or
build_operation resolved f c op_id tags deprecated = do
  global_servers ← read_list resolved.spec "servers" default_servers
  path_servers ← read_list c.path_item "servers" global_servers
  op_servers ← read_list c.op_dict "servers" path_servers
  server_url ← resolve_server_url op_servers [] f.base_url_override
  path_raw ← read_list c.path_item "parameters" []
  path_params ← dicts path_raw
  op_raw ← read_list c.op_dict "parameters" []
  op_params ← dicts op_raw
  parameters ← merge_parameters resolved.openapi_version path_params op_params
  request_body ←
      normalize_request_body resolved.openapi_version (get_or c.op_dict "requestBody" (object []))
  raw_responses ← read_dict c.op_dict "responses"
  responses ← normalize_responses resolved.openapi_version raw_responses
  global_security ← read_list resolved.spec "security" []
  op_security ← read_list c.op_dict "security" global_security
  auth ← normalize_security op_security
  summary ← read_optional_text c.op_dict "summary"
  description ← read_optional_text c.op_dict "description"
  ok (record {
    id = op_id;
    method = c.method;
    path = c.path;
    server_url = server_url;
    parameters = parameters;
    request_body = request_body;
    responses = responses;
    auth = auth;
    summary = summary;
    description = description;
    tags = tags;
    deprecated = deprecated;
    source_location = some (resolved.source, 0);
    vendor_extensions = vendor_extensions c.op_dict;
  })

-- The body of the third loop: an operation, or `none` where a filter drops it.
pub normalize_candidate : ResolvedSpec → Filters → Candidate × String → Result (Option Operation)
unfolding read_texts read_bool is_kept build_operation
normalize_candidate resolved f (c, op_id) = do
  tags ← read_texts c.op_dict "tags"
  deprecated ← read_bool c.op_dict "deprecated" false
  if is_kept f op_id tags deprecated
      then (do op ← build_operation resolved f c op_id tags deprecated; ok (some op))
      else ok none

abbrev pub keep_some : Option Operation → List Operation → List Operation
keep_some none ops = ops
keep_some (some op) ops = op ∷ ops

unfoldable pub normalize_named :
    ResolvedSpec → Filters → List (Candidate × String) → Result (List Operation)
unfolding normalize_candidate
normalize_named resolved f [] = ok []
normalize_named resolved f (named ∷ rest) = do
  op ← normalize_candidate resolved f named
  ops ← normalize_named resolved f rest
  ok (keep_some op ops)

unfoldable pub normalize_spec : ResolvedSpec → Filters → Result (List Operation)
unfolding read_dict collect_candidates name_candidates normalize_named
normalize_spec resolved f = do
  paths ← read_dict resolved.spec "paths"
  candidates ← collect_candidates paths
  normalize_named resolved f (name_candidates candidates)

-- ===== src/Normalize/Content.antt =====
-- Request bodies, responses and security requirements of core/normalize.py.
pub mod Sorted
use Prim.Native.Nat.{Ordering}
use Prim.Native.String.{compare}
use specmcp.Prelude.{
  ℕ, String, Bool, true, false, ◌&&◌, ◌||◌, ◌==◌, Option, none, some, List, [], ◌∷◌, any, is_empty,
  ltb, eqb, if◌then◌else◌,
}
use specmcp.Prelude.Dict.{Dict, get}
use specmcp.Prelude.Text.{lower_has_prefix, has_prefix}
use specmcp.Json.{
  Json, null, bool, num, str, arr, obj, Items, nil, cons, object, get_or, to_list, to_dict, truthy,
}
use specmcp.Model.{
  RequestBody, RequestBodyVariant, Response, ResponseVariant, AuthRequirement, Schema,
}
use specmcp.Errors.Result.{Result, ok, err, python_error, ◌>>=◌, map_result}
use specmcp.Normalize.Read.{
  OpenapiVersion, as_dict, as_list, as_text, read_bool, read_dict, read_optional_text,
}
use specmcp.Normalize.Parameters.{upgrade_schema}

-- An attribute whose absence and null are both None.
abbrev some_value : Option Json → Option Json
some_value (some null) = none
some_value o = o

body_variant : OpenapiVersion → String × Json → Result RequestBodyVariant
unfolding get_or upgrade_schema
body_variant version (content_type, media) = do
  fields ← as_dict media
  schema ← as_dict (upgrade_schema version (get_or fields "schema" (object [])))
  ok (record {
    content_type = content_type;
    schema = schema;
    encoding = some_value (get fields "encoding");
  })

-- `raw` is `op_dict.get("requestBody", {})`.
unfoldable pub normalize_request_body : OpenapiVersion → Json → Result (Option RequestBody)
unfolding body_variant map_result read_dict read_bool
normalize_request_body version raw =
    if truthy raw
    then (do
      fields ← as_dict raw
      content ← read_dict fields "content"
      variants ← map_result (body_variant version) content
      required ← read_bool fields "required" false
      ok (
          if is_empty variants
          then none
          else some (record { required = required; variants = variants })))
    else ok none

abbrev binary_content_types : List String
binary_content_types =
    "application/octet-stream" ∷ "image/" ∷ "audio/" ∷ "video/" ∷ "application/pdf"
    ∷ "application/zip" ∷ "application/gzip" ∷ []

unfoldable pub is_binary : String → Bool
is_binary content_type = any (lower_has_prefix content_type) binary_content_types

-- `schema` of a response variant is a dict or None.
response_schema : OpenapiVersion → Option Json → Result (Option Schema)
unfolding upgrade_schema
response_schema version none = ok none
response_schema version (some null) = ok none
response_schema version (some v) = do schema ← as_dict (upgrade_schema version v); ok (some schema)

response_variant : OpenapiVersion → String × Json → Result ResponseVariant
unfolding response_schema is_binary
response_variant version (content_type, media) = do
  fields ← as_dict media
  schema ← response_schema version (get fields "schema")
  ok (record { content_type = content_type; schema = schema; is_binary = is_binary content_type })

-- The first part of `sort_key`: 2xx, then others, `default` last.
unfoldable pub status_rank : String → ℕ
status_rank status = if status == "default" then 2 else if has_prefix status "2" then 0 else 1

abbrev pub text_less : String → String → Bool
text_less s t = elim (compare s t) [ Ordering.lt ↦ true | _ ↦ false ]

-- `sort_key(s) < sort_key(t)`, tuples in lexicographic order
unfoldable pub key_less : String → String → Bool
unfolding status_rank
key_less s t =
    ltb (status_rank s) (status_rank t) || (eqb (status_rank s) (status_rank t) && text_less s t)

-- `sorted` is stable: an entry goes behind those that are not greater.
insert_entry : String × Json → Dict Json → Dict Json
insert_entry (s, v) [] = (s, v) ∷ []
insert_entry (s, v) ((t, w) ∷ d) =
    if key_less s t then (s, v) ∷ (t, w) ∷ d else (t, w) ∷ insert_entry (s, v) d

sort_from : Dict Json → Dict Json → Dict Json
sort_from done [] = done
sort_from done (entry ∷ d) = sort_from (insert_entry entry done) d

unfoldable pub sort_responses : Dict Json → Dict Json
unfolding insert_entry sort_from key_less
sort_responses d = sort_from [] d

normalize_response : OpenapiVersion → String × Json → Result Response
unfolding response_variant map_result read_dict read_optional_text
normalize_response version (status_code, raw) = do
  fields ← as_dict raw
  content ← read_dict fields "content"
  variants ← map_result (response_variant version) content
  description ← read_optional_text fields "description"
  headers ← read_dict fields "headers"
  ok (record {
    status_code = status_code;
    description = description;
    headers = headers;
    variants = variants;
  })

unfoldable pub normalize_responses : OpenapiVersion → Dict Json → Result (List Response)
unfolding normalize_response sort_responses map_result
normalize_responses version raw_responses =
    map_result (normalize_response version) (sort_responses raw_responses)

security_requirement : String × Json → Result AuthRequirement
unfolding map_result
security_requirement (scheme_name, value) = do
  values ← as_list value
  scopes ← map_result as_text values
  ok (record { scheme_name = scheme_name; scopes = scopes })

security_group : Json → Result (List AuthRequirement)
unfolding security_requirement map_result
security_group group = do entries ← as_dict group; map_result security_requirement entries

-- The outer list is a disjunction, the inner lists are conjunctions.
unfoldable pub normalize_security : List Json → Result (List (List AuthRequirement))
unfolding security_group map_result
normalize_security security = map_result security_group security

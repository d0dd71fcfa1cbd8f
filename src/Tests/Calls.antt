-- ===== src/Tests/Calls.antt =====
-- Examples of tool calls.

use specmcp.Prelude.{String, ◌≡◌, refl, true, false, none, some, List, [], ◌∷◌}
use specmcp.Prelude.Dict.{Dict}
use specmcp.Json.{Json, str, obj, end, field}
use specmcp.Model.{Operation, ArgumentBinding, at_path, ParamStyle, simple}
use specmcp.Naming.Method.{HttpMethod}
use specmcp.Errors.Result.{Result, ok, err, dispatch, upstream_client}
use specmcp.Expose.{ToolDefinition}
use specmcp.Http.{HttpResponse}
use specmcp.Prelude.Digits.{digit}
use specmcp.Dispatch.Quote.{quote}
use specmcp.Dispatch.Serialize.{serialize_path}
use specmcp.Dispatch.Serialize.Safe.{is_safe, serialize_path-safe}
use specmcp.Dispatch.Body.{set_nested}
use specmcp.Dispatch.Body.Nested.{get_nested, set_nested_lem}
use specmcp.Dispatch.Template.{fill_path}
use specmcp.Dispatch.Template.Filled.{Piece, fixed, variable, render, substitute, fill_path_lem}
use specmcp.Dispatch.Call.{Request, Trace, Outside}

quote_test : quote "a/b é" ≡ "a%2Fb%20%C3%A9"
unfolding quote digit
quote_test = refl

abbrev nested : Json → String
nested v = "[]"

abbrev styled : ParamStyle → ArgumentBinding
styled style = record {
  source_llm_key = "id";
  target_kind = at_path;
  target_path = "id" ∷ [];
  style = some style;
  explode = none;
}

serialize_path-safe_example :
    is_safe (serialize_path nested (str "../admin?x=1") (styled simple)) ≡ true
serialize_path-safe_example = serialize_path-safe nested (str "../admin?x=1") (styled simple) refl

abbrev wrapped : Dict Json
wrapped = ("data", obj (field "kind" (str "x") end)) ∷ []

set_nested_lem_example :
    (e : Dict Json) × (set_nested wrapped ("data" ∷ "name" ∷ []) (str "Ann") ≡ ok e)
    × (get_nested e ("data" ∷ "name" ∷ []) ≡ some (str "Ann"))
    × (get_nested e ("data" ∷ "kind" ∷ []) ≡ get_nested wrapped ("data" ∷ "kind" ∷ []))
set_nested_lem_example =
    set_nested_lem "data" ("name" ∷ []) ("data" ∷ "kind" ∷ []) wrapped (str "Ann") refl

abbrev rest_refused : Dict String → String → Result String
rest_refused path_vars rest = err dispatch

abbrev user_path : List Piece
user_path = fixed "/users/" ∷ variable "id" ∷ fixed "/posts" ∷ []

template_test : render user_path ≡ "/users/{id}/posts"
template_test = refl

fill_path_lem_example :
    fill_path rest_refused (("id", "7") ∷ []) (render user_path)
    ≡ substitute (("id", "7") ∷ []) user_path
fill_path_lem_example = fill_path_lem rest_refused (("id", "7") ∷ []) user_path refl

abbrev refusing : Trace → Request → Result HttpResponse
refusing t r = err (upstream_client 401 "expired")

-- An upstream that refuses each request.
abbrev pub outside : Outside
outside = record {
  inject = λ t auth headers params. ok (headers, params);
  invalidate_cached_tokens = λ t auth. true;
  request = refusing;
  stream_request = λ t r. ok ("", false);
  validation_error = λ args schema. none;
  pretty_json = λ body. none;
  nested_text = nested;
  format_rest = rest_refused;
}

abbrev ping_operation : Operation
ping_operation = record {
  id = "ping";
  method = HttpMethod.get;
  path = "/ping";
  server_url = "https://api.example.com";
  parameters = [];
  request_body = none;
  responses = [];
  auth = [];
  summary = none;
  description = none;
  tags = [];
  deprecated = false;
  source_location = none;
  vendor_extensions = [];
}

abbrev ping_tool : ToolDefinition
ping_tool = record {
  name = "ping";
  description = "";
  input_schema = [];
  simplified_operation = record {
    operation = ping_operation;
    llm_input_schema = [];
    llm_description = "";
    arg_map = [];
    warnings = [];
  };
}

-- ===== src/Dispatch/Call.antt =====
-- `dispatch` of runtime/dispatcher.py: validation, the parts, authentication, the HTTP call with its
-- one retry on 401, and the result. The time limits and the retry settings, which are handed on to
-- the HTTP client, are left out.
pub mod Retried
use Prim.Native.String
use specmcp.Prelude.{
  ℕ, String, Bool, true, false, ◌&&◌, Option, none, some, List, [], ◌∷◌, ◌++◌, any, eqb,
  if◌then◌else◌,
}
use specmcp.Prelude.Dict.{Dict}
use specmcp.Prelude.Text.{has_prefix, rstrip}
use specmcp.Json.{Json, str}
use specmcp.Model.{
  Operation, Schema, AuthRequirement, Response, ResponseVariant, SimplifiedOperation,
}
use specmcp.Naming.Method.{HttpMethod}
use specmcp.Normalize.Server.{is_slash}
use specmcp.Errors.Result.{
  Error, upstream_client, auth, argument_validation, Result, ok, err, ◌>>=◌,
}
use specmcp.Expose.{ToolDefinition}
use specmcp.Http.{HttpResponse}
use specmcp.Dispatch.Template.{fill_path}
use specmcp.Dispatch.Parts.{Parts, empty_parts, build_parts, contains, Bodies, pick_body}

pub record Request : Type 0 where
  pub method : HttpMethod
  pub url : String
  pub headers : Dict String
  pub params : Dict String
  pub json_body : Json
  pub form_body : Option (Dict String)

-- What the dispatcher does to the outside, in order.
pub data Event : Type 0 where
  injected invalidated : Event
  sent streamed : Request → Event

abbrev pub Trace : Type 0
Trace = List Event

abbrev pub Auth : Type 0
Auth = List (List AuthRequirement)

-- The AuthInjector and the HttpClient, by their answers, which may depend on all that was done
-- before; jsonschema, json, and the parameters of `Parts` and `Template`.
pub record Outside : Type 0 where
  pub inject : Trace → Auth → Dict String → Dict String → Result (Dict String × Dict String)
  pub invalidate_cached_tokens : Trace → Auth → Bool
  pub request : Trace → Request → Result HttpResponse
  pub stream_request : Trace → Request → Result (String × Bool)
  pub validation_error : Dict Json → Schema → Option String
  pub pretty_json : String → Option String
  pub nested_text : Json → String
  pub format_rest : Dict String → String → Result String

-- A result and all that was done.
abbrev pub Traced {ℓ} : Type ℓ → Type ℓ
Traced A = Trace × Result A

unfoldable pub then_do {ℓ κ} :
    {A : Type ℓ} {B : Type κ} → Traced A → (Trace → A → Traced B) → Traced B
then_do (t, ok a) f = f t a
then_do (t, err e) f = (t, err e)

-- The request before authentication.
pub record Draft : Type 0 where
  pub operation : Operation
  pub url : String
  pub params : Dict String
  pub bodies : Bodies

abbrev pub authed : Draft → Dict String × Dict String → Request
authed d (headers, params) = record {
  method = d.operation.method;
  url = d.url;
  headers = headers;
  params = params;
  json_body = d.bodies.json_body;
  form_body = d.bodies.form_body;
}

-- A streamed request is not given the form.
abbrev pub stream_authed : Draft → Dict String × Dict String → Request
stream_authed d credentials = record (authed d credentials) { form_body = none }

-- "event-stream" in a content type of a 2xx response
unfoldable pub operation_may_stream : Operation → Bool
operation_may_stream op =
    any
      (λ (r : Response).
        has_prefix r.status_code "2"
        && any (λ (v : ResponseVariant). contains v.content_type "event-stream") r.variants)
      op.responses

abbrev pub text_block : String → Dict Json
text_block text = ("type", str "text") ∷ ("text", str text) ∷ []

abbrev pub mark_truncated : Bool → String → String
mark_truncated truncated text =
    if truncated then String.◌++◌ text "\n\n[Response truncated]" else text

abbrev pub is_401 : Error → Bool
is_401 (upstream_client status message) = eqb status 401
is_401 e = false

module _ (outside : Outside) where
  abbrev parsed_or : Option String → String → String
  parsed_or none body = body
  parsed_or (some text) body = text

  unfoldable pub format_result : HttpResponse → List (Dict Json)
  format_result r =
      text_block (mark_truncated r.truncated (parsed_or (outside.pretty_json r.body) r.body)) ∷ []

  -- Steps 0 to 6.
  unfoldable pub draft_request : ToolDefinition → Dict Json → Result Draft
  unfolding build_parts fill_path pick_body rstrip
  draft_request tool llm_args = elim (outside.validation_error llm_args tool.input_schema) [
    | some message ↦ err (argument_validation message)
    | none ↦ (do
      let sop = tool.simplified_operation
      let op = sop.operation
      parts ← build_parts outside.nested_text sop.arg_map llm_args empty_parts
      filled_path ← fill_path outside.format_rest parts.path_vars op.path
      ok (record {
        operation = op;
        url = String.◌++◌ (rstrip is_slash op.server_url) filled_path;
        params = parts.query_params;
        bodies = pick_body outside.nested_text op parts;
      }))
  ]

  unfoldable pub inject_auth : Draft → Trace → Traced (Dict String × Dict String)
  inject_auth d t =
      (t ++ injected ∷ [], outside.inject t d.operation.auth d.bodies.headers d.params)

  unfoldable pub send : Request → Trace → Traced HttpResponse
  send r t = (t ++ sent r ∷ [], outside.request t r)

  -- The answer to the second request: another 401 is an AuthError.
  abbrev pub second_error : Error → Error
  second_error e = if is_401 e then auth else e

  abbrev pub second_result : Result HttpResponse → Result HttpResponse
  second_result (ok r) = ok r
  second_result (err e) = err (second_error e)

  unfoldable pub send_again : Draft → Trace → Traced HttpResponse
  unfolding then_do inject_auth send
  send_again d t =
      then_do (inject_auth d t) λ u credentials.
        let (v, answer) = send (authed d credentials) u in (v, second_result answer)

  -- What is done about the error of the first request.
  unfoldable pub recover : Draft → Error → Trace → Traced HttpResponse
  unfolding send_again
  recover d e t =
      if is_401 e
      then (let u = t ++ invalidated ∷ [] in
          if outside.invalidate_cached_tokens t d.operation.auth
          then send_again d u
          else (u, err e))
      else (t, err e)

  abbrev pub after_first : Draft → Traced HttpResponse → Traced HttpResponse
  after_first d (t, ok r) = (t, ok r)
  after_first d (t, err e) = recover d e t

  unfoldable pub call_buffered : Draft → Dict String × Dict String → Trace → Traced HttpResponse
  unfolding send recover
  call_buffered d credentials t = after_first d (send (authed d credentials) t)

  unfoldable pub call_stream : Draft → Dict String × Dict String → Trace → Traced (List (Dict Json))
  unfolding then_do
  call_stream d credentials t =
      let r = stream_authed d credentials in
      then_do (t ++ streamed r ∷ [], outside.stream_request t r)
        λ u answer. (u, ok (text_block (mark_truncated answer.1 answer.0) ∷ []))

  -- Steps 7 to 10.
  unfoldable pub call : Bool → Draft → Trace → Traced (List (Dict Json))
  unfolding then_do inject_auth operation_may_stream call_stream call_buffered format_result
  call enable_streaming d t = then_do (inject_auth d t) λ u credentials.
      if enable_streaming && operation_may_stream d.operation
      then call_stream d credentials u
      else then_do (call_buffered d credentials u) λ v r. (v, ok (format_result r))

  abbrev pub call_drafted : Bool → Result Draft → Trace → Traced (List (Dict Json))
  call_drafted enable_streaming (ok d) t = call enable_streaming d t
  call_drafted enable_streaming (err e) t = (t, err e)

  unfoldable pub dispatch_tool :
      Bool → ToolDefinition → Dict Json → Trace → Traced (List (Dict Json))
  unfolding draft_request call
  dispatch_tool enable_streaming tool llm_args t =
      call_drafted enable_streaming (draft_request tool llm_args) t

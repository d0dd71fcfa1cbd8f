-- ===== src/Serve.antt =====
-- The server, cli/serve.py with runtime/registry_ref.py: the pipeline, the handlers of an MCP session,
-- and the reload of the registry. A run of a handler between its waits is one step; the registry
-- reference is the state, and its lock makes a swap one step.
pub mod Pipeline
pub mod Reloaded
pub mod Settings
pub mod Closed
use Prim.Native.String
use specmcp.Prelude.{
  String, Bool, true, false, ◌==◌, Option, none, some, List, [], ◌∷◌, if◌then◌else◌,
}
use specmcp.Prelude.Dict.{Dict, get}
use specmcp.Prelude.Text.{is_nil}
use specmcp.Json.{Json, str, get_or, null}
use specmcp.Errors.{
  SpecmcpError, ErrorClass, mcp_error_content, normalize_error, internal_error, is_blank,
}
use specmcp.Errors.Result.{Error, Result, ok, err}
use specmcp.Errors.Loaded.{Loaded, loaded, failed, other_exception, ◌>>=◌}
use specmcp.Load
use specmcp.Load.{load_spec, RawSpec}
use specmcp.Model.{Operation}
use specmcp.Normalize.Read.{OpenapiVersion, v3_0, v3_1}
use specmcp.Normalize.Operations.{ResolvedSpec, Filters, normalize_spec}
use specmcp.Simplify.Pipeline.{SimplifyConfig, simplify}
use specmcp.Expose.{OperationOverride, ToolDefinition, ToolRegistry, lookup, list_tools, build}
use specmcp.Dispatch.Call
use specmcp.Dispatch.Call.{Trace, Traced, dispatch_tool}

-- What is read of the configuration.
pub record ServeConfig : Type 0 where
  pub filters : Filters
  pub simplify : SimplifyConfig
  pub operations : Dict OperationOverride

abbrev pub no_filters : Filters
no_filters = record {
  base_url_override = none;
  include_deprecated = true;
  include_tags = [];
  exclude_tags = [];
  include_operations = [];
  exclude_operations = [];
}

abbrev pub default_simplify : SimplifyConfig
default_simplify = record {
  inline_shallow_refs = true;
  drop_spec_metadata = true;
  collapse_unions = true;
  flatten_single_property_wrappers = true;
  truncate_description_chars = 500;
}

abbrev pub filters_of : Option ServeConfig → Filters
filters_of none = no_filters
filters_of (some cfg) = cfg.filters

abbrev pub simplify_of : Option ServeConfig → SimplifyConfig
simplify_of none = default_simplify
simplify_of (some cfg) = cfg.simplify

abbrev pub operations_of : Option ServeConfig → Option (Dict OperationOverride)
operations_of none = none
operations_of (some cfg) = some cfg.operations

-- The document as the next stage takes it.
abbrev pub spec_of : Load.ResolvedSpec → ResolvedSpec
spec_of r = record {
  spec = r.document;
  source = r.source;
  openapi_version = if r.openapi_version == "3.0" then v3_0 else v3_1;
}

-- NormalizeError, or an exception of Python: the stage raises no other error.
abbrev pub normalized : Result (List Operation) → Loaded (List Operation)
normalized (ok ops) = loaded ops
normalized (err Error.normalize) = failed normalize_error
normalized (err e) = other_exception

-- _run_pipeline
unfoldable pub run_pipeline : Load.Outside → String → Option ServeConfig → Loaded ToolRegistry
unfolding load_spec normalize_spec simplify build ◌>>=◌
run_pipeline outside source cfg = do
  (raw, spec) ← load_spec outside source
  ops ← normalized (normalize_spec (spec_of spec) (filters_of cfg))
  loaded (build (operations_of cfg) (simplify (simplify_of cfg) ops))

-- What a handler answers, or that an exception leaves it.
pub data Reply : Type 0 where
  tools : List (Dict Json) → Reply
  content : List String → Reply
  exception : Reply

-- The dispatcher's outside, Python's repr of a text, and the exceptions with their messages, which
-- the errors here do not carry.
pub record Outside : Type 0 where
  pub call : Call.Outside
  pub repr : String → String
  pub exception_of : Error → SpecmcpError

abbrev is_text : Option Json → Bool
is_text (some (str t)) = t == "text"
is_text o = false

abbrev text_of : Option Json → Loaded String
text_of (some (str t)) = loaded t
text_of o = other_exception

-- The texts of the blocks of type text.
unfoldable pub block_texts : List (Dict Json) → Loaded (List String)
unfolding get ◌>>=◌
block_texts [] = loaded []
block_texts (block ∷ blocks) =
    let rest = block_texts blocks in
    if is_text (get block "type")
    then (text_of (get block "text") >>= λ text. rest >>= λ texts. loaded (text ∷ texts))
    else rest

abbrev pub content_of : Loaded (List String) → Reply
content_of (loaded texts) = content texts
content_of r = exception

-- exc.request_id = exc.request_id or request_id
abbrev pub with_request_id : String → SpecmcpError → SpecmcpError
with_request_id request_id e =
    if is_blank e.request_id then record e { request_id = some request_id } else e

abbrev pub handle_list_tools : ToolRegistry → Reply
handle_list_tools registry = tools (list_tools registry)

module _ (outside : Outside) (enable_streaming : Bool) where
  abbrev pub reply_of : String → Traced (List (Dict Json)) → Trace × Reply
  reply_of request_id (t, ok blocks) = (t, content_of (block_texts blocks))
  reply_of request_id (t, err Error.python_error) = (t, exception)
  reply_of request_id (t, err e) =
      (t, content (mcp_error_content (with_request_id request_id (outside.exception_of e)) ∷ []))

  unfoldable pub handle_call_tool :
      ToolRegistry → String → String → Dict Json → Trace → Trace × Reply
  unfolding lookup dispatch_tool block_texts mcp_error_content
  handle_call_tool registry request_id name arguments t = elim (lookup registry name) [
    | none ↦ (t, content (String.◌++◌ "Unknown tool: " (outside.repr name) ∷ []))
    | some tool ↦ reply_of request_id (dispatch_tool outside.call enable_streaming tool arguments t)
  ]

-- The registry reference of a server that watches its files, or a server that an exception of the
-- watcher has ended.
pub data Served : Type 0 where
  serving : ToolRegistry → Served
  ended : Served

-- One turn of _watch_and_reload, with what the pipeline gave: a failure of the taxonomy is reported
-- and the registry kept.
abbrev pub reloaded : ToolRegistry → Loaded ToolRegistry → Served
reloaded old (loaded new) = serving new
reloaded old (failed c) = serving old
reloaded old other_exception = ended

-- The watcher's turns, by the outside that each change of the files leaves.
unfoldable pub watch_and_reload : String → Option ServeConfig → List Load.Outside → Served → Served
unfolding run_pipeline
watch_and_reload source cfg changes ended = ended
watch_and_reload source cfg [] (serving registry) = serving registry
watch_and_reload source cfg (outside ∷ changes) (serving registry) =
    watch_and_reload source cfg changes (reloaded registry (run_pipeline outside source cfg))

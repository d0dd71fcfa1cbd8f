-- ===== src/Lib.antt =====
-- specmcp: a server that makes the operations of an OpenAPI document callable as MCP tools.
--
-- The program is a pipeline, src/specmcp/core: Load resolves the document; Normalize turns it into
-- operations (normalize.py, model.py); Simplify makes each operation's schema and argument map for
-- the language model (simplify.py); Expose builds the registry of the tools (expose.py). At run time
-- the dispatcher (src/specmcp/runtime/dispatcher.py) turns a tool call into an HTTP request by the
-- argument map, has src/specmcp/auth add credentials, and retries once on 401. For schemes of the
-- authorization-code flow the user logs in by the endpoints of src/specmcp/runtime/oauth_handler.py,
-- which share nonces and token stores with the handlers in auth. cli/serve.py starts all of it from
-- the configuration, config.py. All raise the errors of src/specmcp/errors.py.
--
-- The files, by the code that they model:
--   Prelude   shared lists, dictionaries in insertion order, decimal numbers, texts, and the names
--             made by f"{name}_{n}" (Prelude/Suffix)
--   Json      the values of the document (`Any`), with Python's truth values
--   Errors    errors.py: the classes, exit codes and client texts; Errors/Result is a computation
--             that may raise
--   Model     core/model.py: the records of the Operation Model
--   Naming    _sanitize_path_segment, _derive_operation_id and _resolve_collisions of
--             core/normalize.py
--   Normalize the rest of core/normalize.py: Schema is _normalize_schema_30_to_31, Parameters is
--             _normalize_parameter and _merge_parameters, Content is bodies, responses and security,
--             Server is _resolve_server_url, Operations is normalize
--   Simplify  core/simplify.py: UniqueKey, ArgumentMap, Refs, Metadata, Unions, Wrappers, Truncate
--             and Description are its functions, Pipeline is simplify and _simplify_one
--   Expose    core/expose.py
--   Dispatch  runtime/dispatcher.py: Quote is urllib's quote, Serialize the _serialize functions,
--             Body is _set_nested, Template is str.format_map, Parts is steps 1 to 6 of dispatch,
--             Call is its validation, authentication, requests and retry
--   Http      runtime/http_client.py: Retries is its retry loop, Responses _parse_response, Events the
--             loop of stream_request
--   Load      core/load.py
--   Config    config.py: the schemes and their validators, Env the environment variables, Schemes
--             parse_auth_schemes and resolve_auth_values
--   Auth      auth: Injector with ClientCredentials, TokenCache and State are the files of these
--             names; Tokens is OAuthTokens and TokenStore the stores of token_store.py (Memory,
--             Sqlite), Encryption encryption.py, LoginNonce login_nonce.py, AuthCode
--             oauth2_authcode.py; TtlCache is the interface of cachetools.TTLCache
--   Oauth     runtime/oauth_handler.py: Nonces the methods of OAuthHandlerState, Login _handle_login
--             with generate_challenge of auth/pkce.py, Exchange _exchange_code, Callback
--             _handle_callback, Session the other handlers, System all of them as a step relation, Flow
--             a login from its nonce to its tokens
--   Serve     cli/serve.py with runtime/registry_ref.py: the pipeline, the handlers of an MCP
--             session and the watcher; Settings is _build_oauth_state, Closed the end of a connection
--   Tests     tests and examples
--
-- Conventions. A dictionary is an association list in insertion order (Prelude/Dict). A function that
-- may raise returns a `Result`; an exception of Python on a value of the wrong type is the error
-- `python_error`, and a value that the OpenAPI meta-schema forbids may be one here where pydantic
-- coerces it, or be read earlier than the program does: a parameter's name that is no text counts as
-- the empty one, a `required` that is no list is an error for a body without fields too, and the tags
-- of an operation are read before the filters. A number of the document is the text that Python prints for it. What runs against the
-- outside (`Dispatch/Call`) is a function of the list of all events so far, and returns that list
-- grown; the injector, the HTTP client, jsonschema and json are the record `Outside` of functions.
-- Python's repr of nested values and the special fields of format templates are parameters too.
--
-- A time is a natural number of seconds. The lock of the token cache makes its call one step, and
-- the caches of the injector are passed on as its state. The signed state is its bytes, or their
-- text at the endpoints, with the HMAC a parameter. cachetools.TTLCache, the cipher, UTF-8, base64
-- and the database's listing of rows are parameters with their documented behaviour as laws;
-- `table_cache` and the records of Tests show that these can hold. A token store is an interface,
-- TokenStore, with the law that it implements a map, which both stores fill; the handlers are shown
-- correct for any store with that law.
--
-- The endpoints are a system (Oauth/System). A step is a handler's run, or its part up to or from the
-- wait for the token endpoint, since the event loop lets other requests in there only; the waiting
-- exchanges are part of the state, and end in any order. What is drawn at random, the requests and the
-- answers of the token endpoint come with the steps.
--
-- Bounds and fuel. The search of _unique_key has one more step than there are keys, which is enough
-- since one of so many suffixes is free; the walk up the error classes has four steps, which is the
-- depth of the taxonomy. All other recursion is structural.
--
-- Not modelled: what httpx, prance, openapi-spec-validator and the parsers do; the configuration's
-- plain fields (config.py), the session record (runtime/session.py), the starting of the servers
-- (cli/serve.py) and the other commands (cli): they are I/O, or are left to a later version. The
-- messages of exceptions are not modelled, but for those that are shown. Of dispatch, the
-- time limits and the retry settings that it hands to the HTTP client are left out; of the pages,
-- their HTML.
pub mod Prelude
pub mod Json
pub mod Naming
pub mod Errors
pub mod Model
pub mod Normalize
pub mod Simplify
pub mod Expose
pub mod Auth
pub mod Oauth
pub mod Config
pub mod Load
pub mod Http
pub mod Dispatch
pub mod Serve
pub mod Tests

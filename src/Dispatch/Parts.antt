-- ===== src/Dispatch/Parts.antt =====
-- The parts of a request, from the arguments and their bindings: steps 1 to 6 of `dispatch` in
-- runtime/dispatcher.py, and `_pick_content_type`.
pub mod Bound
use Prim.Native.String
use specmcp.Prelude.{
  String, Bool, true, false, not, Option, none, some, List, [], ◌∷◌, is_empty, if◌then◌else◌,
}
use specmcp.Prelude.Dict.{Dict, get, set, update, has}
use specmcp.Prelude.Text.{is_nil, has_prefix}
use specmcp.Json.{Json, null, object}
use specmcp.Model.{
  Operation, RequestBody, RequestBodyVariant, ArgumentBinding, Bindings, TargetKind, at_path,
  at_query, at_header, at_cookie, body_field, body_root,
}
use specmcp.Errors.Result.{Result, ok, err, python_error, ◌>>=◌}
use specmcp.Dispatch.Serialize.{py_str, serialize_path, serialize_query, serialize_simple}
use specmcp.Dispatch.Body.{set_nested}

pub record Parts : Type 0 where
  pub path_vars : Dict String
  pub query_params : Dict String
  pub req_headers : Dict String
  pub body_fields : Dict Json
  -- `none` is _MISSING
  pub body_root : Option Json

abbrev pub empty_parts : Parts
empty_parts = record {
  path_vars = [];
  query_params = [];
  req_headers = [];
  body_fields = [];
  body_root = none;
}

-- binding.target_path[0]
abbrev first_name : List String → Result String
first_name [] = err python_error
first_name (name ∷ rest) = ok name

-- The Cookie header with one more pair.
abbrev add_cookie : Option String → String → String
add_cookie none pair = pair
add_cookie (some s) pair = if is_nil s then pair else String.◌++◌ s (String.◌++◌ "; " pair)

-- `"form" in content_type`
abbrev pub contains : String → String → Bool
contains String.[] needle = has_prefix "" needle
contains (String.◌∷◌ c s) needle =
    if has_prefix (String.◌∷◌ c s) needle then true else contains s needle

unfoldable pub pick_content_type : Operation → Option String
pick_content_type op = elim op.request_body [
  | none ↦ none
  | some body ↦ elim body.variants [ [] ↦ none | variant ∷ rest ↦ some variant.content_type ]
]

-- The bodies of the request, each None or a value; None is also what a null value is.
pub record Bodies : Type 0 where
  pub json_body : Json
  pub form_body : Option (Dict String)
  pub headers : Dict String

abbrev set_default : Dict String → String → String → Dict String
set_default d k v = if has d k then d else set d k v

module _ (nested_text : Json → String) where
  -- The body of the loop, for an argument that is given.
  unfoldable pub add_argument : String → TargetKind → ArgumentBinding → Json → Parts → Result Parts
  unfolding serialize_path serialize_query serialize_simple set_nested update set get
  add_argument llm_key at_path binding value p = do
    name ← first_name binding.target_path
    ok (record p { path_vars = set p.path_vars name (serialize_path nested_text value binding) })
  add_argument llm_key at_query binding value p = ok (record p {
    query_params = update p.query_params (serialize_query nested_text llm_key value binding);
  })
  add_argument llm_key at_header binding value p = do
    name ← first_name binding.target_path
    ok (record p { req_headers = set p.req_headers name (serialize_simple nested_text value) })
  add_argument llm_key at_cookie binding value p = do
    name ← first_name binding.target_path
    let pair = String.◌++◌ name (String.◌++◌ "=" (serialize_simple nested_text value))
    ok (record p {
      req_headers = set p.req_headers "Cookie" (add_cookie (get p.req_headers "Cookie") pair);
    })
  add_argument llm_key body_field binding value p = do
    fields ← set_nested p.body_fields binding.target_path value
    ok (record p { body_fields = fields })
  add_argument llm_key body_root binding value p = ok (record p { body_root = some value })

  abbrev add_given : String → ArgumentBinding → Option Json → Parts → Result Parts
  add_given llm_key binding none p = ok p
  add_given llm_key binding (some value) p =
      add_argument llm_key binding.target_kind binding value p

  -- The loop over the bindings.
  unfoldable pub build_parts : Bindings → Dict Json → Parts → Result Parts
  unfolding add_argument get
  build_parts [] llm_args p = ok p
  build_parts ((llm_key, binding) ∷ rest) llm_args p = do
    next ← add_given llm_key binding (get llm_args llm_key) p
    build_parts rest llm_args next

  texts_of : Dict Json → Dict String
  texts_of [] = []
  texts_of ((k, v) ∷ d) = (k, py_str nested_text v) ∷ texts_of d

  abbrev json_bodies : Dict Json → Dict String → Option String → Bodies
  json_bodies fields headers none = record {
    json_body = object fields;
    form_body = none;
    headers = headers;
  }
  json_bodies fields headers (some content_type) =
      if is_nil content_type
      then record { json_body = object fields; form_body = none; headers = headers }
      else if contains content_type "form"
      then record { json_body = null; form_body = some (texts_of fields); headers = headers }
      else record {
        json_body = object fields;
        form_body = none;
        headers = set_default headers "Content-Type" content_type;
      }

  -- Step 6: the whole body that is given, or else its fields.
  unfoldable pub pick_body : Operation → Parts → Bodies
  unfolding pick_content_type texts_of set
  pick_body op p = elim p.body_root [
    | some root ↦ record { json_body = root; form_body = none; headers = p.req_headers }
    | none ↦
        if is_empty p.body_fields
        then record { json_body = null; form_body = none; headers = p.req_headers }
        else json_bodies p.body_fields p.req_headers (pick_content_type op)
  ]

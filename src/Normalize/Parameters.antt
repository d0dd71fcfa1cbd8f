-- ===== src/Normalize/Parameters.antt =====
-- `_normalize_parameter` and `_merge_parameters` of core/normalize.py.
pub mod Merged
use specmcp.Prelude.{
  String, Bool, true, false, ◌&&◌, ◌||◌, ◌==◌, Option, none, some, List, [], ◌∷◌, any,
  if◌then◌else◌,
}
use specmcp.Prelude.Dict.{Dict, get}
use specmcp.Prelude.Text.{lower_is}
use specmcp.Json.{Json, null, str, obj, object, get_or}
use specmcp.Model.{
  ParamLocation, path, query, header, cookie, ParamStyle, simple, label, matrix, form,
  space_delimited, pipe_delimited, deep_object, Parameter, Schema,
}
use specmcp.Errors.Result.{Result, ok, err, normalize, python_error, ◌>>=◌}
use specmcp.Normalize.Read.{
  OpenapiVersion, v3_0, v3_1, as_dict, read_text, read_bool, read_optional_text, read_optional_bool,
}
use specmcp.Normalize.Schema.{normalize_schema, normalize_at}

abbrev reserved_headers : List String
reserved_headers =
    "content-type" ∷ "authorization" ∷ "accept" ∷ "content-length" ∷ "host" ∷ "transfer-encoding"
    ∷ []

-- name.lower() in RESERVED_HEADERS
unfoldable pub is_reserved : String → Bool
is_reserved name = any (lower_is name) reserved_headers

abbrev pub default_style : ParamLocation → ParamStyle
default_style path = simple
default_style query = form
default_style header = simple
default_style cookie = form

abbrev pub default_explode : ParamStyle → Bool
default_explode form = true
default_explode deep_object = true
default_explode _ = false

abbrev pub parse_location : String → Result ParamLocation
parse_location s =
    if s == "path"
    then ok path
    else if s == "query"
    then ok query
    else if s == "header"
    then ok header
    else if s == "cookie"
    then ok cookie
    else err normalize

abbrev pub parse_style : String → Result ParamStyle
parse_style s =
    if s == "simple"
    then ok simple
    else if s == "label"
    then ok label
    else if s == "matrix"
    then ok matrix
    else if s == "form"
    then ok form
    else if s == "spaceDelimited"
    then ok space_delimited
    else if s == "pipeDelimited"
    then ok pipe_delimited
    else if s == "deepObject"
    then ok deep_object
    else err python_error

abbrev pub is_header : ParamLocation → Bool
is_header header = true
is_header _ = false

abbrev pub is_path : ParamLocation → Bool
is_path path = true
is_path _ = false

-- A schema of the document, brought to its 3.1 form.
unfoldable pub upgrade_schema : OpenapiVersion → Json → Json
upgrade_schema v3_0 schema = normalize_schema schema
upgrade_schema v3_1 schema = schema

-- The style that is given, or the default of the location.
abbrev choose_style : ParamLocation → Option String → Result ParamStyle
choose_style location none = ok (default_style location)
choose_style location (some s) = parse_style s

abbrev choose_explode : ParamStyle → Option Bool → Bool
choose_explode style none = default_explode style
choose_explode style (some b) = b

-- The rest of `_normalize_parameter`, once the parameter is not a reserved header.
pub build_parameter : OpenapiVersion → Dict Json → String → ParamLocation → Result Parameter
unfolding upgrade_schema read_bool read_optional_text read_optional_bool get_or
build_parameter version raw name location = do
  schema ← as_dict (upgrade_schema version (get_or raw "schema" (object [])))
  style_raw ← read_optional_text raw "style"
  style ← choose_style location style_raw
  explode ← read_optional_bool raw "explode"
  required ← read_bool raw "required" (is_path location)
  allow_empty_value ← read_bool raw "allowEmptyValue" false
  deprecated ← read_bool raw "deprecated" false
  ok (record {
    name = name;
    location = location;
    required = required;
    schema = schema;
    style = some style;
    explode = some (choose_explode style explode);
    allow_empty_value = allow_empty_value;
    deprecated = deprecated;
  })

-- `none` for a reserved header.
unfoldable pub normalize_parameter : OpenapiVersion → Dict Json → Result (Option Parameter)
unfolding build_parameter is_reserved read_text
normalize_parameter version raw = do
  name ← read_text raw "name" ""
  location_raw ← read_text raw "in" ""
  location ← parse_location location_raw
  if is_header location && is_reserved name
      then ok none
      else do parameter ← build_parameter version raw name location; ok (some parameter)

-- A key of `combined`; both parts are texts in a valid document.
abbrev pub ParamKey : Type 0
ParamKey = String × String

abbrev text_of : Json → String
text_of (str s) = s
text_of v = ""

unfoldable pub param_key : Dict Json → ParamKey
unfolding get_or
param_key raw = (text_of (get_or raw "name" (str "")), text_of (get_or raw "in" (str "")))

abbrev pub same_key : ParamKey → ParamKey → Bool
same_key (n, l) (m, k) = n == m && l == k

abbrev pub Combined : Type 0
Combined = List (ParamKey × Dict Json)

-- combined[key] = p
put : ParamKey → Dict Json → Combined → Combined
put key p [] = (key, p) ∷ []
put key p ((k, q) ∷ rest) = if same_key k key then (k, p) ∷ rest else (k, q) ∷ put key p rest

put_all : List (Dict Json) → Combined → Combined
put_all [] combined = combined
put_all (p ∷ ps) combined = put_all ps (put (param_key p) p combined)

unfoldable pub combine : List (Dict Json) → List (Dict Json) → Combined
unfolding put put_all param_key
combine path_params op_params = put_all op_params (put_all path_params [])

abbrev keep_some : Option Parameter → List Parameter → List Parameter
keep_some none ps = ps
keep_some (some p) ps = p ∷ ps

unfoldable pub normalize_all : OpenapiVersion → Combined → Result (List Parameter)
normalize_all version [] = ok []
normalize_all version ((key, raw) ∷ rest) = do
  parameter ← normalize_parameter version raw
  parameters ← normalize_all version rest
  ok (keep_some parameter parameters)

unfoldable pub merge_parameters :
    OpenapiVersion → List (Dict Json) → List (Dict Json) → Result (List Parameter)
unfolding normalize_all combine
merge_parameters version path_params op_params =
    normalize_all version (combine path_params op_params)

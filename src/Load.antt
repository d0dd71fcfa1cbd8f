-- ===== src/Load.antt =====
-- Loading a document, core/load.py. The files, httpx, the parsers of JSON and YAML, prance and
-- openapi-spec-validator are the functions of `Outside`.
pub mod Accepted
use Prim.Native.String
use specmcp.Prelude.{
  ℕ, String, Bool, true, false, not, ◌&&◌, ◌||◌, Option, none, some, if◌then◌else◌,
}
use specmcp.Prelude.Dict.{Dict}
use specmcp.Prelude.Text.{is_nil, has_prefix, is_space, lower_is, lstrip}
use specmcp.Json.{Json, null, bool, num, str, arr, obj, to_dict, truthy, get_or}
use specmcp.Errors.Loaded.{Loaded, loaded, failed, other_exception, ◌>>=◌}
use specmcp.Errors.{
  spec_syntax_error, spec_validation_error, spec_resolution_error, spec_unsupported_error,
  transient_error,
}

pub data Verdict : Type 0 where
  valid invalid not_installed : Verdict

pub record Outside : Type 0 where
  -- The text behind a URL, with httpx; `none` is a failure, whose class is given.
  pub fetch : String → Loaded String
  -- The text of a file; `none` if there is no such file.
  pub read_file : String → Option String
  pub json_loads : String → Option Json
  pub yaml_load : String → Option Json
  -- SpecResolver.resolve; `none` is SpecResolutionError
  pub resolve : String → Option (Dict Json)
  pub validate : Dict Json → Verdict

pub record RawSpec : Type 0 where
  pub document : Dict Json
  pub source : String

pub record ResolvedSpec : Type 0 where
  pub document : Dict Json
  pub source : String
  pub openapi_version : String

-- text.lower().endswith(suffix), for a suffix in small ASCII letters that is not empty
abbrev pub lower_has_suffix : String → String → Bool
lower_has_suffix String.[] t = false
lower_has_suffix (String.◌∷◌ c s) t = lower_is (String.◌∷◌ c s) t || lower_has_suffix s t

abbrev pub str_has_prefix : Json → String → Bool
str_has_prefix (str s) t = has_prefix s t
str_has_prefix v t = false

abbrev pub known_version : Json → Loaded String
known_version (str openapi) =
    if is_nil openapi
    then failed spec_validation_error
    else if has_prefix openapi "3.1"
    then loaded "3.1"
    else if has_prefix openapi "3.0"
    then loaded "3.0"
    else failed spec_unsupported_error
known_version v = failed spec_validation_error

unfoldable pub detect_openapi_version : Dict Json → Loaded String
unfolding get_or
detect_openapi_version document =
    let openapi = get_or document "openapi" (str "") in
    let swagger = get_or document "swagger" (str "") in
    if truthy swagger || str_has_prefix openapi "2."
    then failed spec_unsupported_error
    else known_version openapi

unfoldable pub looks_like_json : String → String → Bool
unfolding lstrip
looks_like_json content source =
    lower_has_suffix source ".json"
    || (has_prefix (lstrip is_space content) "{"
        && (not (lower_has_suffix source ".yaml") && not (lower_has_suffix source ".yml")))

abbrev pub parsed_json : Option Json → Loaded Json
parsed_json none = failed spec_syntax_error
parsed_json (some v) = loaded v

-- A mapping, or SpecSyntaxError.
abbrev pub parsed_yaml : Option Json → Loaded Json
parsed_yaml (some (obj fs)) = loaded (obj fs)
parsed_yaml o = failed spec_syntax_error

-- `data.get(…)` on what was parsed.
abbrev pub as_mapping : Json → Loaded (Dict Json)
as_mapping (obj fs) = loaded (to_dict fs)
as_mapping v = other_exception

abbrev pub found : Option String → Loaded String
found none = failed spec_resolution_error
found (some text) = loaded text

abbrev pub resolved : Option (Dict Json) → Loaded (Dict Json)
resolved none = failed spec_resolution_error
resolved (some document) = loaded document

-- _validate_meta_schema, with what it was given as its result
abbrev pub validated : Verdict → Dict Json → Loaded (Dict Json)
validated invalid document = failed spec_validation_error
validated v document = loaded document

module _ (outside : Outside) where
  unfoldable pub parse_raw : String → String → Loaded Json
  unfolding looks_like_json
  parse_raw content source =
      if looks_like_json content source
      then parsed_json (outside.json_loads content)
      else parsed_yaml (outside.yaml_load content)

  unfoldable pub read_source : String → Loaded String
  read_source source =
      if has_prefix source "http://" || has_prefix source "https://"
      then outside.fetch source
      else found (outside.read_file source)

  unfoldable pub load_spec : String → Loaded (RawSpec × ResolvedSpec)
  unfolding read_source parse_raw detect_openapi_version ◌>>=◌
  load_spec source = do
    content ← read_source source
    parsed ← parse_raw content source
    raw ← as_mapping parsed
    version ← detect_openapi_version raw
    document ← resolved (outside.resolve source)
    checked ← validated (outside.validate document) document
    loaded (
      record { document = raw; source = source },
      record { document = checked; source = source; openapi_version = version },
    )

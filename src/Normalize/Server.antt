-- ===== src/Normalize/Server.antt =====
-- `_resolve_server_url` of core/normalize.py.
pub mod Resolved
use Prim.Native.String
use specmcp.Prelude.{
  Char, code, String, Bool, true, false, not, ◌&&◌, ◌||◌, Option, none, some, List, [], ◌∷◌, eqb,
  if◌then◌else◌,
}
use specmcp.Prelude.Dict.{Dict, get}
use specmcp.Prelude.Text.{is_nil, rstrip, any_char, replace}
use specmcp.Json.{Json}
use specmcp.Errors.Result.{Result, ok, err, normalize, ◌>>=◌}
use specmcp.Normalize.Read.{as_dict, as_text, read_text, read_dict}

abbrev pub is_slash : Char → Bool
is_slash c = eqb (code c) b'/'

abbrev pub is_close : Char → Bool
is_close c = eqb (code c) b'}'

-- What follows an opening brace begins with a name and its closing brace.
abbrev pub closes : String → Bool
closes String.[] = false
closes (String.◌∷◌ c s) = not (is_close c) && any_char is_close s

-- re.findall(r"\{[^}]+\}", url) finds something
abbrev pub has_variable : String → Bool
has_variable String.[] = false
has_variable (String.◌∷◌ c s) = (eqb (code c) b'{' && closes s) || has_variable s

-- `(server_variables or {}).get(var_name) or var_def.get("default", "")`
variable_value : Dict String → String → Dict Json → Result String
unfolding read_text
variable_value given name var_def = elim (get given name) [
  | none ↦ read_text var_def "default" ""
  | some v ↦ if is_nil v then read_text var_def "default" "" else ok v
]

fill_variables : Dict String → Dict Json → String → Result String
unfolding variable_value replace
fill_variables given [] url = ok url
fill_variables given ((name, def) ∷ rest) url = do
  var_def ← as_dict def
  value ← variable_value given name var_def
  fill_variables given rest (replace (String.◌++◌ "{" (String.◌++◌ name "}")) value url)

-- The first server's URL, with its variables resolved, or the error that some are left.
pub server_url : Dict String → Json → Result String
unfolding read_text read_dict fill_variables
server_url given server_raw = do
  server ← as_dict server_raw
  url ← read_text server "url" ""
  variables ← read_dict server "variables"
  filled ← fill_variables given variables url
  if has_variable filled then err normalize else ok (rstrip is_slash filled)

abbrev pub is_given : Option String → Bool
is_given none = false
is_given (some s) = not (is_nil s)

abbrev given_text : Option String → String
given_text none = ""
given_text (some s) = s

unfoldable pub resolve_server_url : List Json → Dict String → Option String → Result String
unfolding server_url rstrip
resolve_server_url servers given base_url_override =
    if is_given base_url_override
    then ok (rstrip is_slash (given_text base_url_override))
    else elim servers [ [] ↦ ok "" | server ∷ rest ↦ server_url given server ]

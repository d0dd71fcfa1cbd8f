-- ===== src/Dispatch/Serialize.antt =====
-- `_serialize_path`, `_serialize_query` and `_serialize_simple` of runtime/dispatcher.py. `str()` of
-- a list or an object inside a value is a parameter, `nested_text`: it is Python's `repr`, which
-- escapes by Python's table of printable characters.
pub mod Safe
use Prim.Native.String.{◌++◌}
use specmcp.Prelude.{String, Bool, true, false, Option, none, some, List, [], ◌∷◌, if◌then◌else◌}
use specmcp.Prelude.Dict.{Dict, set}
use specmcp.Json.{Json, null, bool, num, str, arr, obj, Items, nil, cons, Fields, end, field}
use specmcp.Model.{
  ParamStyle, simple, label, matrix, form, space_delimited, pipe_delimited, deep_object,
  ArgumentBinding,
}
use specmcp.Dispatch.Quote.{quote}
use specmcp.Prelude.Text.{join}

abbrev pub map_items : (Json → String) → Items → List String
map_items f nil = []
map_items f (cons v vs) = f v ∷ map_items f vs

abbrev pub map_fields : (String → Json → String) → Fields → List String
map_fields f end = []
map_fields f (field k v fs) = f k v ∷ map_fields f fs

-- binding.target_path[0], or the default where the path is empty
abbrev pub first_or : List String → String → String
first_or [] default = default
first_or (name ∷ rest) default = name

abbrev pub is_set : Option Bool → Bool → Bool
is_set none default = default
is_set (some b) default = b

module _ (nested_text : Json → String) where
  -- str(v)
  abbrev pub py_str : Json → String
  py_str null = "None"
  py_str (bool true) = "True"
  py_str (bool false) = "False"
  py_str (num t) = t
  py_str (str s) = s
  py_str v = nested_text v

  -- f"{k}{sep}{v}"
  abbrev pub pair : String → String → Json → String
  pair sep k v = k ++ (sep ++ py_str v)

  abbrev pub quoted : Json → String
  quoted v = quote (py_str v)

  abbrev pub quoted_pair : String → String → Json → String
  quoted_pair sep k v = quote k ++ (sep ++ quoted v)

  unfoldable pub path_simple : Bool → Json → String
  unfolding join quote
  path_simple explode (arr vs) = join "," (map_items quoted vs)
  path_simple explode (obj fs) =
      if explode
      then join "," (map_fields (quoted_pair "=") fs)
      else join "," (map_fields (quoted_pair ",") fs)
  path_simple explode v = quoted v

  unfoldable pub path_label : Bool → Json → String
  unfolding join
  path_label explode (arr vs) = "." ++ join (if explode then "." else ",") (map_items py_str vs)
  path_label explode (obj fs) =
      if explode
      then "." ++ join "." (map_fields (pair "=") fs)
      else "." ++ join "," (map_fields (pair ",") fs)
  path_label explode v = "." ++ py_str v

  unfoldable pub path_matrix : String → Bool → Json → String
  unfolding join
  path_matrix name explode (arr vs) =
      if explode
      then join "" (map_items (λ v. ";" ++ (name ++ ("=" ++ py_str v))) vs)
      else ";" ++ (name ++ ("=" ++ join "," (map_items py_str vs)))
  path_matrix name explode (obj fs) =
      if explode
      then join "" (map_fields (λ k v. ";" ++ pair "=" k v) fs)
      else ";" ++ (name ++ ("=" ++ join "," (map_fields (pair ",") fs)))
  path_matrix name explode v = ";" ++ (name ++ ("=" ++ py_str v))

  abbrev serialize_styled : Option ParamStyle → String → Bool → Json → String
  serialize_styled none name explode v = path_simple explode v
  serialize_styled (some simple) name explode v = path_simple explode v
  serialize_styled (some label) name explode v = path_label explode v
  serialize_styled (some matrix) name explode v = path_matrix name explode v
  serialize_styled (some style) name explode v = quoted v

  -- The target path of a path argument has one element.
  unfoldable pub serialize_path : Json → ArgumentBinding → String
  unfolding path_simple path_label path_matrix
  serialize_path value binding =
      serialize_styled binding.style (first_or binding.target_path "")
        (is_set binding.explode false) value

  -- {str(k): str(v) for k, v in value.items()}, with the keys passed through a function
  abbrev entries : (String → String) → Fields → Dict String → Dict String
  entries f end d = d
  entries f (field k v fs) d = entries f fs (set d (f k) (py_str v))

  abbrev one : String → String → Dict String
  one name text = (name, text) ∷ []

  query_form : String → Bool → Json → Dict String
  unfolding join set
  query_form name explode (arr vs) = one name (join "," (map_items py_str vs))
  query_form name explode (obj fs) =
      if explode then entries (λ k. k) fs [] else one name (join "," (map_fields (pair ",") fs))
  query_form name explode v = one name (py_str v)

  query_delimited : String → String → Json → Dict String
  unfolding join
  query_delimited sep name (arr vs) = one name (join sep (map_items py_str vs))
  query_delimited sep name v = one name (py_str v)

  query_deep : String → Json → Dict String
  unfolding set
  query_deep name (obj fs) = entries (λ k. name ++ ("[" ++ (k ++ "]"))) fs []
  query_deep name v = one name (py_str v)

  abbrev query_styled : Option ParamStyle → String → Bool → Json → Dict String
  query_styled none name explode v = query_form name explode v
  query_styled (some form) name explode v = query_form name explode v
  query_styled (some space_delimited) name explode v = query_delimited " " name v
  query_styled (some pipe_delimited) name explode v = query_delimited "|" name v
  query_styled (some deep_object) name explode v = query_deep name v
  query_styled (some style) name explode v = one name (py_str v)

  unfoldable pub serialize_query : String → Json → ArgumentBinding → Dict String
  unfolding query_form query_delimited query_deep
  serialize_query llm_key value binding =
      query_styled binding.style (first_or binding.target_path llm_key)
        (is_set binding.explode true) value

  unfoldable pub serialize_simple : Json → String
  unfolding join
  serialize_simple (arr vs) = join "," (map_items py_str vs)
  serialize_simple (obj fs) = join "," (map_fields (pair ",") fs)
  serialize_simple v = py_str v

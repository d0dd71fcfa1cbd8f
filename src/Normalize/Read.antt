-- ===== src/Normalize/Read.antt =====
-- Reading values of known types out of the resolved document, whose values are `Any`. The document
-- has passed the OpenAPI meta-schema; a value of a type that it forbids is a `python_error` here,
-- where pydantic would raise, or coerce it.
use specmcp.Prelude.{String, Bool, Option, none, some, List, []}
use specmcp.Prelude.Dict.{Dict, get}
use specmcp.Json.{Json, null, bool, str, arr, obj, to_list, to_dict}
use specmcp.Errors.Result.{Result, ok, err, python_error, ◌>>=◌, map_result}

pub data OpenapiVersion : Type 0 where
  v3_0 v3_1 : OpenapiVersion

abbrev pub as_text : Json → Result String
as_text (str s) = ok s
as_text v = err python_error

abbrev pub as_bool : Json → Result Bool
as_bool (bool b) = ok b
as_bool v = err python_error

abbrev pub as_dict : Json → Result (Dict Json)
as_dict (obj fs) = ok (to_dict fs)
as_dict v = err python_error

abbrev pub as_list : Json → Result (List Json)
as_list (arr vs) = ok (to_list vs)
as_list v = err python_error

-- `raw.get(key, default)`, as a value of its type
unfoldable pub read_text : Dict Json → String → String → Result String
read_text raw key default = elim (get raw key) [ none ↦ ok default | some v ↦ as_text v ]

unfoldable pub read_bool : Dict Json → String → Bool → Result Bool
read_bool raw key default = elim (get raw key) [ none ↦ ok default | some v ↦ as_bool v ]

unfoldable pub read_dict : Dict Json → String → Result (Dict Json)
read_dict raw key = elim (get raw key) [ none ↦ ok [] | some v ↦ as_dict v ]

unfoldable pub read_list : Dict Json → String → List Json → Result (List Json)
read_list raw key default = elim (get raw key) [ none ↦ ok default | some v ↦ as_list v ]

-- `raw.get(key)`: absent and null are both None
unfoldable pub read_optional_text : Dict Json → String → Result (Option String)
read_optional_text raw key = elim (get raw key) [
  | none ↦ ok none
  | some v ↦ elim v [ null ↦ ok none | str s ↦ ok (some s) | _ ↦ err python_error ]
]

unfoldable pub read_optional_bool : Dict Json → String → Result (Option Bool)
read_optional_bool raw key = elim (get raw key) [
  | none ↦ ok none
  | some v ↦ elim v [ null ↦ ok none | bool b ↦ ok (some b) | _ ↦ err python_error ]
]

unfoldable pub read_texts : Dict Json → String → Result (List String)
unfolding read_list map_result
read_texts raw key = read_list raw key [] >>= λ vs. map_result as_text vs

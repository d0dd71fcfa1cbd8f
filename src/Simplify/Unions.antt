-- ===== src/Simplify/Unions.antt =====
-- `_collapse_unions_in` and `_try_collapse` of core/simplify.py.
pub mod Collapsed
use specmcp.Prelude.{
  ℕ, ◌<◌, String, Bool, true, false, ◌||◌, ◌&&◌, Option, none, some, List, [], ◌∷◌, ◌++◌, any, elem,
  if◌then◌else◌, length, ltb, ◌==◌,
}
use specmcp.Prelude.Dict.{Dict, set, update, has, get}
use specmcp.Json.{
  Json, null, bool, num, str, arr, obj, Items, nil, cons, Fields, end, field, array, object,
  from_dict, to_dict, to_list, get_or,
}
use specmcp.Model.{Schema}
use specmcp.Errors.Result.{Result, ok, err, python_error, ◌>>=◌, map_result}
use specmcp.Normalize.Read.{as_text}

-- The types of a branch; `none` where it has no simple type.
abbrev pub branch_types : Json → Result (Option (List String))
branch_types (str t) = ok (some (t ∷ []))
branch_types (arr vs) = map_result as_text (to_list vs) >>= λ ts. ok (some ts)
branch_types v = ok none

-- A branch that is no object has no `get`.
abbrev pub branch_fields : Json → Result (Dict Json)
branch_fields (obj fs) = ok (to_dict fs)
branch_fields v = err python_error

-- The loop of `_try_collapse`: the types of all branches, or `none` where one has none.
collect_types : List Json → Result (Option (List String))
unfolding get_or
collect_types [] = ok (some [])
collect_types (branch ∷ branches) = do
  fields ← branch_fields branch
  types ← branch_types (get_or fields "type" null)
  elim types [
    | none ↦ ok none
    | some ts ↦ (do
      rest ← collect_types branches
      elim rest [ none ↦ ok none | some us ↦ ok (some (ts ++ us)) ])
  ]

-- list(dict.fromkeys(types))
unique_from : List String → List String → List String
unique_from seen [] = []
unique_from seen (t ∷ ts) =
    let rest = unique_from (t ∷ seen) ts in
    let same = unique_from seen ts in if elem t seen then same else t ∷ rest

abbrev has_properties : Json → Bool
has_properties (obj fs) = has (to_dict fs) "properties"
has_properties v = false

abbrev pub texts : List String → List Json
texts [] = []
texts (s ∷ ss) = str s ∷ texts ss

-- One type stands alone, several in a list.
abbrev pub type_schema : List String → Schema
type_schema (t ∷ []) = ("type", str t) ∷ []
type_schema ts = ("type", array (texts ts)) ∷ []

unfoldable pub try_collapse : List Json → Result (Option Schema)
unfolding collect_types unique_from
try_collapse branches = do
  types ← collect_types branches
  elim types [
    | none ↦ ok none
    | some ts ↦
        if any has_properties branches then ok none else ok (some (type_schema (unique_from [] ts)))
  ]

-- The key and the value are a union of at least two branches.
abbrev pub is_union : String → Json → Bool
is_union k (arr (cons v (cons w vs))) = k == "oneOf" || k == "anyOf"
is_union k v = false

abbrev pub branches_of : Json → List Json
branches_of (arr vs) = to_list vs
branches_of v = []

-- result.update(collapsed), or the branches as they are.
abbrev pub keep_union : Dict Json → String → Option Schema → Result Items → Result (Dict Json)
keep_union result k (some collapsed) kept = ok (update result collapsed)
keep_union result k none kept = kept >>= λ vs. ok (set result k (arr vs))

-- `collapse_fields result fs` goes on from the keys that are in `result`. A list that is no union is
-- left as it is.
unfoldable mutual
  pub collapse_in : Json → Result Json
  collapse_in (obj fs) = collapse_fields fs [] >>= λ result. ok (object result)
  collapse_in v = ok v

  pub collapse_branches : Json → Result Items
  collapse_branches (arr vs) = collapse_items vs
  collapse_branches v = ok nil

  pub collapse_items : Items → Result Items
  collapse_items nil = ok nil
  collapse_items (cons v vs) = collapse_in v >>= λ w. collapse_items vs >>= λ ws. ok (cons w ws)

  pub collapse_fields : Fields → Dict Json → Result (Dict Json)
  collapse_fields end result = ok result
  collapse_fields (field k v fs) result =
      let union = try_collapse (branches_of v) >>= λ collapsed.
      keep_union result k collapsed (collapse_branches v) >>= λ next. collapse_fields fs next in
      let plain = collapse_in v >>= λ w. collapse_fields fs (set result k w) in
      if is_union k v then union else plain

unfoldable pub apply_collapse_unions : Schema → Result Schema
unfolding collapse_in
apply_collapse_unions schema = collapse_fields (from_dict schema) []

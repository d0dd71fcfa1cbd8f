-- ===== src/Simplify/Refs.antt =====
-- `apply_inline_shallow_refs`, `_count_refs` and `_inline_refs` of core/simplify.py.
pub mod Lost
use Prim.Native.String
use specmcp.Prelude.{
  ℕ, suc, ◌+◌, String, Char, code, Bool, true, false, ◌&&◌, ◌||◌, ◌==◌, Option, none, some, List,
  [], ◌∷◌, eqb, leb, ltb, length, any, if◌then◌else◌,
}
use specmcp.Prelude.Dict.{Dict, get, set}
use specmcp.Prelude.Text.{has_prefix, any_char}
use specmcp.Json.{
  Json, null, bool, num, str, arr, obj, Items, nil, cons, Fields, end, field, object, from_dict,
  to_dict, to_list, get_or,
}
use specmcp.Model.{Schema}
use specmcp.Errors.Result.{Result, ok, err, python_error, ◌>>=◌}
use specmcp.Normalize.Read.{as_dict}
use specmcp.Naming.{seen_count}

-- counts[ref] = counts.get(ref, 0) + 1. A list or an object is no key of a dictionary; a count under
-- a key that is no text is never read.
abbrev note_ref : Option Json → Dict ℕ → Result (Dict ℕ)
note_ref (some (str ref)) counts = ok (set counts ref (seen_count counts ref + 1))
note_ref (some (arr vs)) counts = err python_error
note_ref (some (obj fs)) counts = err python_error
note_ref o counts = ok counts

unfoldable mutual
  pub count_refs : Json → Dict ℕ → Result (Dict ℕ)
  count_refs (obj fs) counts =
      note_ref (get (to_dict fs) "$ref") counts >>= λ noted. count_fields fs noted
  count_refs (arr vs) counts = count_items vs counts
  count_refs v counts = ok counts

  pub count_items : Items → Dict ℕ → Result (Dict ℕ)
  count_items nil counts = ok counts
  count_items (cons v vs) counts = count_refs v counts >>= λ next. count_items vs next

  pub count_fields : Fields → Dict ℕ → Result (Dict ℕ)
  count_fields end counts = ok counts
  count_fields (field k v fs) counts = count_refs v counts >>= λ next. count_fields fs next

abbrev is_slash : Char → Bool
is_slash c = eqb (code c) b'/'

-- ref.split("/")[-1]
unfoldable pub last_segment : String → String
last_segment String.[] = String.[]
last_segment (String.◌∷◌ c s) =
    let rest = last_segment s in if is_slash c || any_char is_slash s then rest else String.◌∷◌ c s

-- `"$ref" in node and len(node) == 1`, with the value
abbrev pub lone_ref : Fields → Option Json
lone_ref (field k v end) = if k == "$ref" then some v else none
lone_ref fs = none

-- len(props)
abbrev size_of : Json → Result ℕ
size_of (obj fs) = ok (length (to_dict fs))
size_of (arr vs) = ok (length (to_list vs))
size_of (str s) = ok (Prim.Native.String.count s)
size_of v = err python_error

abbrev is_internal : String → Bool
is_internal ref = has_prefix ref "#/$defs/" || has_prefix ref "#/definitions/"

-- The target, where it is used at most once and is small.
pub shallow_target : Dict Json → Dict ℕ → ℕ → String → Result (Option Json)
unfolding get_or last_segment
shallow_target defs usage_count max_properties ref = do
  let target = get_or defs (last_segment ref) (object [])
  fields ← as_dict target
  if leb (seen_count usage_count ref) 1
      then (do
        size ← size_of (get_or fields "properties" (object []))
        ok (if ltb size max_properties then some target else none))
      else ok none

pub target_of_ref : Dict Json → Dict ℕ → ℕ → Option Json → Result (Option Json)
unfolding shallow_target
target_of_ref defs usage_count max_properties none = ok none
target_of_ref defs usage_count max_properties (some (str ref)) =
    if is_internal ref then shallow_target defs usage_count max_properties ref else ok none
target_of_ref defs usage_count max_properties (some v) = err python_error

-- The target takes the place of the node, or the recursion goes on.
abbrev pub replace_node : Option Json → Result Fields → Result Json
replace_node (some target) kept = ok target
replace_node none kept = kept >>= λ fs. ok (obj fs)

unfoldable mutual
  pub inline_refs : Dict Json → Dict ℕ → ℕ → Json → Result Json
  inline_refs defs usage_count max_properties (obj fs) =
      let kept = inline_fields defs usage_count max_properties fs in
      target_of_ref defs usage_count max_properties (lone_ref fs) >>= λ target.
      replace_node target kept
  inline_refs defs usage_count max_properties (arr vs) =
      inline_items defs usage_count max_properties vs >>= λ ws. ok (arr ws)
  inline_refs defs usage_count max_properties v = ok v

  pub inline_items : Dict Json → Dict ℕ → ℕ → Items → Result Items
  inline_items defs usage_count max_properties nil = ok nil
  inline_items defs usage_count max_properties (cons v vs) =
      inline_refs defs usage_count max_properties v >>= λ w.
      inline_items defs usage_count max_properties vs >>= λ ws. ok (cons w ws)

  pub inline_fields : Dict Json → Dict ℕ → ℕ → Fields → Result Fields
  inline_fields defs usage_count max_properties end = ok end
  inline_fields defs usage_count max_properties (field k v fs) =
      inline_refs defs usage_count max_properties v >>= λ w.
      inline_fields defs usage_count max_properties fs >>= λ gs. ok (field k w gs)

-- schema.get("$defs", schema.get("definitions", {}))
unfoldable pub definitions_of : Schema → Json
unfolding get_or
definitions_of schema = get_or schema "$defs" (get_or schema "definitions" (object []))

-- A value other than an object for the definitions fails where a target is looked up; here it fails
-- at once.
unfoldable pub apply_inline_shallow_refs : Schema → Result Schema
unfolding definitions_of count_refs inline_refs target_of_ref
apply_inline_shallow_refs schema = do
  defs ← as_dict (definitions_of schema)
  usage_count ← count_refs (object schema) []
  inlined ← inline_refs defs usage_count 20 (object schema)
  as_dict inlined

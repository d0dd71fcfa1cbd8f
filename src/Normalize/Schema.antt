-- ===== src/Normalize/Schema.antt =====
-- `_normalize_schema_30_to_31` of core/normalize.py: JSON Schema from its 3.0 form to its 3.1 form.
pub mod Order
pub mod Nullable
pub mod Types
use specmcp.Prelude.{
  String, Bool, true, false, not, ◌||◌, ◌&&◌, List, [], ◌∷◌, ◌++◌, ◌==◌, Option, none, some,
  if◌then◌else◌, elem,
}
use specmcp.Prelude.Dict.{Dict, get, set, remove}
use specmcp.Json.{
  Json, null, bool, num, str, arr, obj, Items, nil, cons, Fields, end, field, to_list, array,
  object, to_dict, from_dict, truthy, is_true, holds_str, get_or,
}

-- The types that `nullable` adds "null" to.
add_null : Option Json → Option Json
add_null none = some (array (str "null" ∷ []))
add_null (some null) = some (array (str "null" ∷ []))
add_null (some (str t)) = some (array (str t ∷ str "null" ∷ []))
add_null (some (arr vs)) =
    if holds_str "null" vs then none else some (array (to_list vs ++ str "null" ∷ []))
add_null (some v) = none

set_some : Dict Json → String → Option Json → Dict Json
set_some d k none = d
set_some d k (some v) = set d k v

-- nullable: true → add "null" to type
move_nullable : Dict Json → Dict Json
unfolding add_null set_some get_or
move_nullable d =
    let rest = remove d "nullable" in
    if truthy (get_or d "nullable" (bool false))
    then set_some rest "type" (add_null (get rest "type"))
    else rest

-- exclusiveMaximum: true → exclusiveMaximum: <maximum>; so for the minimum
move_bound : String → String → Dict Json → Dict Json
unfolding get_or
move_bound exclusive bound d =
    if is_true (get_or d exclusive null)
    then set (remove d bound) exclusive (get_or d bound null)
    else d

-- What is done to the schema's own keys.
unfoldable pub edit_keys : Dict Json → Dict Json
unfolding move_nullable move_bound
edit_keys d =
    move_bound "exclusiveMinimum" "minimum"
      (move_bound "exclusiveMaximum" "maximum" (move_nullable d))

-- How the value of a key is recursed into.
pub data KeyKind : Type 0 where
  schema schema_map schema_list other : KeyKind

unfoldable pub key_kind : String → KeyKind
key_kind k =
    if elem k ("items" ∷ "additionalProperties" ∷ "not" ∷ [])
    then schema
    else if elem k ("properties" ∷ "patternProperties" ∷ "definitions" ∷ "$defs" ∷ [])
    then schema_map
    else if elem k ("allOf" ∷ "anyOf" ∷ "oneOf" ∷ [])
    then schema_list
    else other

-- The source edits the keys first and then recurses; the keys edited are none of those recursed
-- into (`Order`), so here the nested schemas come first and the recursion is structural.
unfoldable mutual
  pub normalize_at : KeyKind → Json → Json
  normalize_at schema (obj fs) = object (edit_keys (to_dict (normalize_nested fs)))
  normalize_at schema_map (obj fs) = obj (normalize_values fs)
  normalize_at schema_list (arr vs) = arr (normalize_items vs)
  normalize_at kind v = v

  pub normalize_nested : Fields → Fields
  normalize_nested end = end
  normalize_nested (field k v fs) = field k (normalize_at (key_kind k) v) (normalize_nested fs)

  pub normalize_values : Fields → Fields
  normalize_values end = end
  normalize_values (field k v fs) = field k (normalize_at schema v) (normalize_values fs)

  pub normalize_items : Items → Items
  normalize_items nil = nil
  normalize_items (cons v vs) = cons (normalize_at schema v) (normalize_items vs)

abbrev pub normalize_schema : Json → Json
normalize_schema = normalize_at schema

-- ===== src/Simplify/Metadata.antt =====
-- `_drop_metadata` of core/simplify.py: keys that only the specification uses are dropped from the
-- schema, at any depth.
pub mod Dropped
use specmcp.Prelude.{String, Bool, true, false, ◌||◌, List, [], ◌∷◌, elem, if◌then◌else◌}
use specmcp.Prelude.Text.{has_prefix}
use specmcp.Json.{
  Json, null, bool, num, str, arr, obj, Items, nil, cons, Fields, end, field, from_dict, to_dict,
}
use specmcp.Model.{Schema}

abbrev spec_only_keys : List String
spec_only_keys = "example" ∷ "examples" ∷ "xml" ∷ "externalDocs" ∷ "discriminator" ∷ []

unfoldable pub is_dropped : String → Bool
is_dropped k = elem k spec_only_keys || has_prefix k "x-"

unfoldable mutual
  pub drop_metadata : Json → Json
  drop_metadata null = null
  drop_metadata (bool b) = bool b
  drop_metadata (num t) = num t
  drop_metadata (str s) = str s
  drop_metadata (arr vs) = arr (drop_items vs)
  drop_metadata (obj fs) = obj (drop_fields fs)

  pub drop_items : Items → Items
  drop_items nil = nil
  drop_items (cons v vs) = cons (drop_metadata v) (drop_items vs)

  pub drop_fields : Fields → Fields
  drop_fields end = end
  drop_fields (field k v fs) =
      let kept = drop_metadata v in
      let rest = drop_fields fs in if is_dropped k then rest else field k kept rest

unfoldable pub apply_drop_spec_metadata : Schema → Schema
unfolding drop_metadata
apply_drop_spec_metadata schema = to_dict (drop_fields (from_dict schema))

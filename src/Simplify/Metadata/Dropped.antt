-- ===== src/Simplify/Metadata/Dropped.antt =====
-- What is left when the metadata is dropped.
use specmcp.Prelude.{
  String, ◌≡◌, refl, ap, ap₂, ◌∙◌, Bool, true, false, not, ◌&&◌, ◌==◌, eq_iff, none, some,
  Bool-cases, inl, inr, arith,
}
use specmcp.Prelude.Dict.{get}
use specmcp.Json.{
  Json, null, bool, num, str, arr, obj, Items, nil, cons, Fields, end, field, from_dict, to_dict,
  to_dict-from_dict,
}
use specmcp.Simplify.Metadata.{
  is_dropped, drop_metadata, drop_items, drop_fields, apply_drop_spec_metadata,
}
use specmcp.Model.{Schema}

-- No object in the value, at any depth, has a key that is dropped.
mutual
  pub free_of_metadata : Json → Bool
  free_of_metadata null = true
  free_of_metadata (bool b) = true
  free_of_metadata (num t) = true
  free_of_metadata (str s) = true
  free_of_metadata (arr vs) = free_items vs
  free_of_metadata (obj fs) = free_fields fs

  pub free_items : Items → Bool
  free_items nil = true
  free_items (cons v vs) = free_of_metadata v && free_items vs

  pub free_fields : Fields → Bool
  free_fields end = true
  free_fields (field k v fs) = not (is_dropped k) && (free_of_metadata v && free_fields fs)

mutual
  unfolding drop_metadata free_of_metadata

  free-drop_metadata : (v : Json) → free_of_metadata (drop_metadata v) ≡ true
  free-drop_metadata null = refl
  free-drop_metadata (bool b) = refl
  free-drop_metadata (num t) = refl
  free-drop_metadata (str s) = refl
  free-drop_metadata (arr vs) = free-drop_items vs
  free-drop_metadata (obj fs) = free-drop_fields fs

  free-drop_items : (vs : Items) → free_items (drop_items vs) ≡ true
  free-drop_items nil = refl
  free-drop_items (cons v vs) = rw (free-drop_metadata v) (free-drop_items vs)

  free-drop_fields : (fs : Fields) → free_fields (drop_fields fs) ≡ true
  free-drop_fields end = refl
  free-drop_fields (field k v fs) = elim (Bool-cases (is_dropped k)) [
    | inl gone ↦ rw gone (free-drop_fields fs)
    | inr kept ↦ rw kept (rw (kept, free-drop_metadata v) (free-drop_fields fs))
  ]

mutual
  unfolding drop_metadata free_of_metadata

  drop_metadata_of_free : (v : Json) → free_of_metadata v ≡ true → drop_metadata v ≡ v
  drop_metadata_of_free null h = refl
  drop_metadata_of_free (bool b) h = refl
  drop_metadata_of_free (num t) h = refl
  drop_metadata_of_free (str s) h = refl
  drop_metadata_of_free (arr vs) h = ap arr (drop_items_of_free vs h)
  drop_metadata_of_free (obj fs) h = ap obj (drop_fields_of_free fs h)

  drop_items_of_free : (vs : Items) → free_items vs ≡ true → drop_items vs ≡ vs
  drop_items_of_free nil h = refl
  drop_items_of_free (cons v vs) h =
      ap₂ cons (drop_metadata_of_free v (ground arith)) (drop_items_of_free vs (ground arith))

  drop_fields_of_free : (fs : Fields) → free_fields fs ≡ true → drop_fields fs ≡ fs
  drop_fields_of_free end h = refl
  drop_fields_of_free (field k v fs) h =
      let kept : is_dropped k ≡ false = ground arith in
      rw kept (
        ap₂ (field k) (drop_metadata_of_free v (ground arith))
          (drop_fields_of_free fs (ground arith)))

-- Dropping leaves no metadata key at any depth, and changes nothing where there is none.
pub drop_metadata_exact :
    (v : Json)
    → (free_of_metadata (drop_metadata v) ≡ true)
      × (free_of_metadata v ≡ true → drop_metadata v ≡ v)
drop_metadata_exact v = (free-drop_metadata v, drop_metadata_of_free v)

get-drop_fields :
    (fs : Fields) (k : String) → is_dropped k ≡ true → get (to_dict (drop_fields fs)) k ≡ none
unfolding drop_metadata get
get-drop_fields end k h = refl
get-drop_fields (field j v fs) k h = elim (Bool-cases (is_dropped j)) [
  | inl gone ↦ rw gone (get-drop_fields fs k h)
  | inr kept ↦ rw kept (ground (arith, eq_iff j k, get-drop_fields fs k h))
]

get_kept :
    (fs : Fields) (k : String) (v : Json)
    → is_dropped k ≡ false
    → get (to_dict fs) k ≡ some v
    → get (to_dict (drop_fields fs)) k ≡ some (drop_metadata v)
unfolding drop_metadata get
get_kept end k v h p = cc
get_kept (field j w fs) k v h p = elim (Bool-cases (j == k)) [
  | inl same ↦
      let kept : is_dropped j ≡ false = ap is_dropped ((eq_iff j k).0 same) ∙ h in
      let e : some w ≡ some v = rw same at p in
      let value : w ≡ v = cc in rw (kept, same) (ap (λ (u : Json). some (drop_metadata u)) value)
  | inr differ ↦
      let later = get_kept fs k v h (rw differ at p) in
      elim (Bool-cases (is_dropped j)) [
        | inl gone ↦ rw gone later
        | inr kept ↦ rw (kept, differ) later
      ]
]

not_dropped : is_dropped "properties" ≡ false
unfolding is_dropped
not_dropped = refl

-- The rule takes the names of arguments for keywords: an argument whose name is one of the keys, or
-- begins with "x-", is gone from the properties of the schema.
pub apply_drop_spec_metadata_loses :
    (schema : Schema) (properties : Fields) (k : String)
    → get schema "properties" ≡ some (obj properties)
    → is_dropped k ≡ true
    → (kept : Fields) × (get (apply_drop_spec_metadata schema) "properties" ≡ some (obj kept))
      × (get (to_dict kept) k ≡ none)
unfolding apply_drop_spec_metadata
apply_drop_spec_metadata_loses schema properties k p h = (
  drop_fields properties,
  get_kept (from_dict schema) "properties" (obj properties) not_dropped
      (rw (← to_dict-from_dict schema) at p),
  get-drop_fields properties k h,
)

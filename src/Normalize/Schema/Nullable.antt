-- ===== src/Normalize/Schema/Nullable.antt =====
-- The 3.0 keyword `nullable` after normalization: it is gone from every schema, and what it said is
-- in the types.
use specmcp.Prelude.{
  String, ◌≡◌, refl, sym, ap, ◌∙◌, Bool, true, false, not, ◌&&◌, [], ◌∷◌, ◌==◌, eq_iff, Option,
  none, some, arith, Bool-cases, inl, inr,
}
use specmcp.Prelude.Dict.{
  all_entries, all_entries-set, all_entries-remove, Dict, get, set, remove, has, has-set,
  has-remove,
}
use specmcp.Json.{
  Json, null, bool, arr, obj, end, field, Fields, Items, nil, cons, object, to_dict, from_dict,
  is_true, truthy, get_or, to_dict-from_dict, from_dict-to_dict,
}
use specmcp.Normalize.Schema.{
  add_null, set_some, move_nullable, move_bound, edit_keys, KeyKind, schema, schema_map,
  schema_list, other, key_kind, normalize_at, normalize_nested, normalize_values, normalize_items,
  normalize_schema,
}

-- No schema in a value has a key `nullable`, where a value stands at a key of the given kind.
mutual
  pub free_of_nullable : KeyKind → Json → Bool
  free_of_nullable schema (obj fs) = not (has (to_dict fs) "nullable") && free_nested fs
  free_of_nullable schema_map (obj fs) = free_values fs
  free_of_nullable schema_list (arr vs) = free_items vs
  free_of_nullable kind v = true

  pub free_nested : Fields → Bool
  free_nested end = true
  free_nested (field k v fs) = free_of_nullable (key_kind k) v && free_nested fs

  pub free_values : Fields → Bool
  free_values end = true
  free_values (field k v fs) = free_of_nullable schema v && free_values fs

  pub free_items : Items → Bool
  free_items nil = true
  free_items (cons v vs) = free_of_nullable schema v && free_items vs

free_other : (v : Json) → free_of_nullable other v ≡ true
unfolding free_of_nullable
free_other null = refl
free_other _ = refl

abbrev free_entry : String → Json → Bool
free_entry k v = free_of_nullable (key_kind k) v

free_nested-eq_all : (d : Dict Json) → free_nested (from_dict d) ≡ all_entries free_entry d
unfolding free_of_nullable
free_nested-eq_all [] = refl
free_nested-eq_all ((k, v) ∷ d) = ap (λ (b : Bool). free_entry k v && b) (free_nested-eq_all d)

-- What the editing of keys keeps: the nested values are free, and so is the key list.
record IsFree (d : Dict Json) : Type 0 where
  nested : all_entries free_entry d ≡ true
  gone : has d "nullable" ≡ false

set-IsFree :
    (d : Dict Json) (k : String) (v : Json)
    → key_kind k ≡ other
    → (k == "nullable") ≡ false
    → IsFree d
    → IsFree (set d k v)
set-IsFree d k v p q h = record {
  nested = all_entries-set free_entry d k v (rw p (free_other v)) h.nested;
  gone = rw has-set (ground (arith, h.gone));
}

remove-IsFree : (d : Dict Json) (k : String) → IsFree d → IsFree (remove d k)
remove-IsFree d k h = record {
  nested = all_entries-remove free_entry d k h.nested;
  gone = rw has-remove (ground (arith, h.gone));
}

move_nullable-IsFree : (d : Dict Json) → all_entries free_entry d ≡ true → IsFree (move_nullable d)
unfolding move_nullable key_kind
move_nullable-IsFree d h =
    let rest = remove d "nullable" in
    let free : IsFree rest = record {
      nested = all_entries-remove free_entry d "nullable" h;
      gone = rw has-remove (ground (arith, eq_iff "nullable" "nullable"));
    } in
    elim (Bool-cases (truthy (get_or d "nullable" (bool false)))) [
      | inl e ↦ rw (e, move_nullable) (written rest free (add_null (get rest "type")))
      | inr e ↦ rw (e, move_nullable) free
    ]
  where
    written : (r : Dict Json) → IsFree r → (o : Option Json) → IsFree (set_some r "type" o)
    written r f none = f
    written r f (some v) = set-IsFree r "type" v refl refl f

move_bound-IsFree :
    (exclusive bound : String)
    → key_kind exclusive ≡ other
    → (exclusive == "nullable") ≡ false
    → (d : Dict Json) → IsFree d
    → IsFree (move_bound exclusive bound d)
unfolding move_bound
move_bound-IsFree exclusive bound p q d h = elim (Bool-cases (is_true (get_or d exclusive null))) [
  | inl e ↦
      rw (e, move_bound)
        (set-IsFree (remove d bound) exclusive (get_or d bound null) p q (remove-IsFree d bound h))
  | inr e ↦ rw (e, move_bound) h
]

edit_keys-IsFree : (d : Dict Json) → all_entries free_entry d ≡ true → IsFree (edit_keys d)
unfolding edit_keys key_kind
edit_keys-IsFree d h =
    move_bound-IsFree "exclusiveMinimum" "minimum" refl refl _
      (move_bound-IsFree "exclusiveMaximum" "maximum" refl refl _ (move_nullable-IsFree d h))

-- A schema whose nested values are free is free after the editing of its keys.
edited_free :
    (fs : Fields)
    → free_nested fs ≡ true
    → free_of_nullable schema (object (edit_keys (to_dict fs))) ≡ true
unfolding free_of_nullable
edited_free fs h =
    let d = to_dict fs in
    let all_free : all_entries free_entry d ≡ true =
      sym (free_nested-eq_all d) ∙ ap free_nested (from_dict-to_dict fs) ∙ h in
    let free = edit_keys-IsFree d all_free in
    rw (to_dict-from_dict (edit_keys d), free.gone) (free_nested-eq_all (edit_keys d) ∙ free.nested)

mutual
  unfolding normalize_at free_of_nullable

  free-normalize_at :
      (kind : KeyKind) (v : Json) → free_of_nullable kind (normalize_at kind v) ≡ true
  free-normalize_at schema (obj fs) = edited_free (normalize_nested fs) (free-normalize_nested fs)
  free-normalize_at schema_map (obj fs) = free-normalize_values fs
  free-normalize_at schema_list (arr vs) = free-normalize_items vs
  free-normalize_at _ _ = refl

  free-normalize_nested : (fs : Fields) → free_nested (normalize_nested fs) ≡ true
  free-normalize_nested end = refl
  free-normalize_nested (field k v fs) =
      rw (free-normalize_at (key_kind k) v) (free-normalize_nested fs)

  free-normalize_values : (fs : Fields) → free_values (normalize_values fs) ≡ true
  free-normalize_values end = refl
  free-normalize_values (field k v fs) = rw (free-normalize_at schema v) (free-normalize_values fs)

  free-normalize_items : (vs : Items) → free_items (normalize_items vs) ≡ true
  free-normalize_items nil = refl
  free-normalize_items (cons v vs) = rw (free-normalize_at schema v) (free-normalize_items vs)

-- After normalization no schema, at any depth, has the keyword `nullable`.
pub normalize_schema_free : (v : Json) → free_of_nullable schema (normalize_schema v) ≡ true
normalize_schema_free v = free-normalize_at schema v

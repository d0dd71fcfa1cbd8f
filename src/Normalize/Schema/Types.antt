-- ===== src/Normalize/Schema/Types.antt =====
-- The types that a schema admits before and after its normalization.
use specmcp.Prelude.{
  String, ◌≡◌, refl, ap, ◌∙◌, Bool, true, false, ◌&&◌, ◌||◌, [], ◌∷◌, ◌++◌, ◌==◌, eq_iff, Option,
  none, some, arith, if◌then◌else◌, Bool-cases, inl, inr,
}
use specmcp.Prelude.Dict.{Dict, get, get-set, get-remove}
use specmcp.Json.{
  Json, null, bool, str, arr, obj, Fields, Items, nil, cons, to_dict, from_dict, to_list, from_list,
  truthy, get_or, holds_str, is_true, to_dict-from_dict,
}
use specmcp.Normalize.Schema.{
  add_null, set_some, move_nullable, move_bound, edit_keys, key_kind, normalize_schema,
}
use specmcp.Normalize.Schema.Order.{
  map_entries, get-map_entries, normalize_schema-obj, to_dict-normalize_nested,
}

-- The keyword `type` of a schema.
abbrev pub schema_type : Json → Option Json
schema_type (obj fs) = get (to_dict fs) "type"
schema_type v = none

-- The JSON types that the keyword admits; without it all are.
abbrev pub admits : Option Json → String → Bool
admits none t = true
admits (some (str s)) t = s == t
admits (some (arr vs)) t = holds_str t vs
admits (some v) t = false

-- The keyword `nullable` is there and true.
abbrev pub is_nullable : Fields → Bool
is_nullable fs = truthy (get_or (to_dict fs) "nullable" (bool false))

abbrev or_else : Option Json → Option Json → Option Json
or_else (some v) o = some v
or_else none o = o

abbrev new_type : Bool → Option Json → Option Json
new_type b o = if b then or_else (add_null o) o else o

type-set_some :
    (d : Dict Json) (o : Option Json) → get (set_some d "type" o) "type" ≡ or_else o (get d "type")
unfolding set_some
type-set_some d none = refl
type-set_some d (some v) = rw get-set refl

type-move_nullable :
    (d : Dict Json)
    → get (move_nullable d) "type"
      ≡ new_type (truthy (get_or d "nullable" (bool false))) (get d "type")
unfolding move_nullable
type-move_nullable d = elim (Bool-cases (truthy (get_or d "nullable" (bool false)))) [
  | inl e ↦ rw (e, move_nullable) (rw (type-set_some, get-remove) refl)
  | inr e ↦ rw (e, move_nullable) (rw get-remove refl)
]

type-move_bound :
    (exclusive bound : String)
    → (exclusive == "type") ≡ false
    → (bound == "type") ≡ false
    → (d : Dict Json) → get (move_bound exclusive bound d) "type" ≡ get d "type"
unfolding move_bound
type-move_bound exclusive bound p q d = elim (Bool-cases (is_true (get_or d exclusive null))) [
  | inl e ↦ rw (e, move_bound) (rw (get-set, p, get-remove, q) refl)
  | inr e ↦ rw (e, move_bound) refl
]

type-normalize_schema :
    (fs : Fields)
    → schema_type (normalize_schema (obj fs)) ≡ new_type (is_nullable fs) (get (to_dict fs) "type")
unfolding edit_keys key_kind
type-normalize_schema fs =
    let d = to_dict fs in
    let edited = edit_keys d in
    ap schema_type (normalize_schema-obj fs)
    ∙ ap (λ (e : Dict Json). get e "type")
        (to_dict-normalize_nested (from_dict edited) ∙ ap map_entries (to_dict-from_dict edited))
    ∙ get-map_entries "type" refl edited
    ∙ type-move_bound "exclusiveMinimum" "minimum" refl refl _
    ∙ type-move_bound "exclusiveMaximum" "maximum" refl refl _
    ∙ type-move_nullable d

holds_str-append :
    (t : String) (vs : Items)
    → holds_str t (from_list (to_list vs ++ str "null" ∷ [])) ≡ (holds_str t vs || ("null" == t))
holds_str-append t nil = ground arith
holds_str-append t (cons v vs) = ground (arith, holds_str-append t vs)

-- The keyword is a text or a list, as the meta-schema requires.
abbrev pub IsTypeKeyword : Json → Type 0
IsTypeKeyword (str s) = Unit
IsTypeKeyword (arr vs) = Unit
IsTypeKeyword v = ⊥

admits-new_type :
    (b : Bool) (ty : Json) (t : String)
    → IsTypeKeyword ty
    → admits (new_type b (some ty)) t ≡ (admits (some ty) t || (b && ("null" == t)))
unfolding add_null
admits-new_type false (str s) t h = ground arith
admits-new_type false (arr vs) t h = ground arith
admits-new_type true (str s) t h = ground arith
admits-new_type true (arr vs) t h = elim (Bool-cases (holds_str "null" vs)) [
  | inl e ↦ rw e (ground (arith, eq_iff "null" t))
  | inr e ↦ rw e (holds_str-append t vs)
]
admits-new_type _ _ t h = absurd h

-- Where a 3.0 schema has a type, the normalized one admits what that type admits, and "null" if the
-- schema is nullable.
pub admits-normalize_schema :
    (fs : Fields) (ty : Json) (t : String)
    → get (to_dict fs) "type" ≡ some ty
    → IsTypeKeyword ty
    → admits (schema_type (normalize_schema (obj fs))) t
      ≡ (admits (schema_type (obj fs)) t || (is_nullable fs && ("null" == t)))
admits-normalize_schema fs ty t p h =
    rw (type-normalize_schema fs, p) (admits-new_type (is_nullable fs) ty t h)

-- A nullable schema with no type, which admits every value in 3.0, admits only null once normalized.
pub normalize_schema_untyped :
    (fs : Fields) (t : String)
    → get (to_dict fs) "type" ≡ none
    → is_nullable fs ≡ true
    → (admits (schema_type (obj fs)) t ≡ true)
      × (admits (schema_type (normalize_schema (obj fs))) t ≡ ("null" == t))
unfolding add_null
normalize_schema_untyped fs t p q = (rw p refl, rw (type-normalize_schema fs, p, q) (ground arith))

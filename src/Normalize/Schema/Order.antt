-- ===== src/Normalize/Schema/Order.antt =====
-- The source edits a schema's keys before it recurses. The model recurses first; here the two orders
-- are shown to agree.
use specmcp.Prelude.{
  String, ◌≡◌, refl, sym, ap, ◌∙◌, false, [], ◌∷◌, ◌==◌, eq_iff, Option, none, some, Bool-cases,
  inl, inr,
}
use specmcp.Prelude.Dict.{Dict, get, set, remove}
use specmcp.Json.{
  Json, null, bool, obj, end, field, Fields, object, to_dict, from_dict, is_true, truthy, get_or,
  to_dict-from_dict, from_dict-to_dict,
}
use specmcp.Normalize.Schema.{
  add_null, set_some, move_nullable, move_bound, edit_keys, other, key_kind, normalize_at,
  normalize_nested, normalize_schema,
}

-- The recursion into the value of each key.
abbrev pub recurse : String → Json → Json
recurse k v = normalize_at (key_kind k) v

abbrev pub map_entries : Dict Json → Dict Json
map_entries [] = []
map_entries ((k, v) ∷ d) = (k, recurse k v) ∷ map_entries d

pub to_dict-normalize_nested :
    (fs : Fields) → to_dict (normalize_nested fs) ≡ map_entries (to_dict fs)
unfolding normalize_at
to_dict-normalize_nested end = refl
to_dict-normalize_nested (field k v fs) =
    ap (λ (e : Dict Json). (k, recurse k v) ∷ e) (to_dict-normalize_nested fs)

normalize_at-other : (v : Json) → normalize_at other v ≡ v
unfolding normalize_at
normalize_at-other null = refl
normalize_at-other _ = refl

module _ (k : String) (plain : key_kind k ≡ other) where
  recurse_plain : (v : Json) → recurse k v ≡ v
  recurse_plain v = rw plain (normalize_at-other v)

  pub get-map_entries : (d : Dict Json) → get (map_entries d) k ≡ get d k
  unfolding get
  get-map_entries [] = refl
  get-map_entries ((j, w) ∷ d) = elim (Bool-cases (j == k)) [
    | inl same ↦ rw same (ap some (rw ((eq_iff j k).0 same) (recurse_plain w)))
    | inr differ ↦ rw differ (get-map_entries d)
  ]

  set-map_entries : (v : Json) (d : Dict Json) → set (map_entries d) k v ≡ map_entries (set d k v)
  unfolding set
  set-map_entries v [] = ap (λ (w : Json). (k, w) ∷ []) (sym (recurse_plain v))
  set-map_entries v ((j, w) ∷ d) = elim (Bool-cases (j == k)) [
    | inl same ↦ rw same (
        ap (λ (u : Json). (j, u) ∷ map_entries d)
          (rw ((eq_iff j k).0 same) (sym (recurse_plain v))))
    | inr differ ↦ rw differ (ap (λ (e : Dict Json). (j, recurse j w) ∷ e) (set-map_entries v d))
  ]

remove-map_entries :
    (k : String) (d : Dict Json) → remove (map_entries d) k ≡ map_entries (remove d k)
unfolding remove
remove-map_entries k [] = refl
remove-map_entries k ((j, w) ∷ d) = elim (Bool-cases (j == k)) [
  | inl same ↦ rw same (remove-map_entries k d)
  | inr differ ↦ rw differ (ap (λ (e : Dict Json). (j, recurse j w) ∷ e) (remove-map_entries k d))
]

set_some-map_entries :
    (k : String) (plain : key_kind k ≡ other) (d : Dict Json) (o : Option Json)
    → set_some (map_entries d) k o ≡ map_entries (set_some d k o)
unfolding set_some
set_some-map_entries k plain d none = refl
set_some-map_entries k plain d (some v) = set-map_entries k plain v d

get_or-map_entries :
    (k : String) (plain : key_kind k ≡ other) (v : Json) (d : Dict Json)
    → get_or (map_entries d) k v ≡ get_or d k v
unfolding get_or
get_or-map_entries k plain v d = rw (get-map_entries k plain d, get_or) refl

move_nullable-map_entries :
    (d : Dict Json) → move_nullable (map_entries d) ≡ map_entries (move_nullable d)
unfolding move_nullable key_kind
move_nullable-map_entries d =
    let rest = remove d "nullable" in
    rw
      (
        get_or-map_entries "nullable" refl (bool false) d,
        remove-map_entries "nullable" d,
        move_nullable,
      )
      (elim (Bool-cases (truthy (get_or d "nullable" (bool false)))) [
        | inl e ↦
            rw (e, get-map_entries "type" refl rest, move_nullable)
              (set_some-map_entries "type" refl rest (add_null (get rest "type")))
        | inr e ↦ rw (e, move_nullable) refl
      ])

move_bound-map_entries :
    (exclusive bound : String)
    → key_kind exclusive ≡ other
    → key_kind bound ≡ other
    → (d : Dict Json)
    → move_bound exclusive bound (map_entries d) ≡ map_entries (move_bound exclusive bound d)
unfolding move_bound
move_bound-map_entries exclusive bound p q d =
    rw
      (
        get_or-map_entries exclusive p null d,
        get_or-map_entries bound q null d,
        remove-map_entries bound d,
        move_bound,
      )
      (elim (Bool-cases (is_true (get_or d exclusive null))) [
        | inl e ↦
            rw (e, move_bound) (set-map_entries exclusive p (get_or d bound null) (remove d bound))
        | inr e ↦ rw (e, move_bound) refl
      ])

edit_keys-map_entries : (d : Dict Json) → edit_keys (map_entries d) ≡ map_entries (edit_keys d)
unfolding edit_keys key_kind
edit_keys-map_entries d =
    rw
      (
        move_nullable-map_entries d,
        move_bound-map_entries "exclusiveMaximum" "maximum" refl refl (move_nullable d),
      )
      (move_bound-map_entries "exclusiveMinimum" "minimum" refl refl
        (move_bound "exclusiveMaximum" "maximum" (move_nullable d)))

normalize_nested-from_dict :
    (d : Dict Json) → normalize_nested (from_dict d) ≡ from_dict (map_entries d)
normalize_nested-from_dict d =
    sym (from_dict-to_dict _)
    ∙ ap from_dict (to_dict-normalize_nested (from_dict d) ∙ ap map_entries (to_dict-from_dict d))

-- Normalizing a schema edits its own keys and then recurses into the values of the edited schema,
-- which is the order of the source.
pub normalize_schema-obj :
    (fs : Fields)
    → normalize_schema (obj fs) ≡ obj (normalize_nested (from_dict (edit_keys (to_dict fs))))
unfolding normalize_at
normalize_schema-obj fs =
    ap (λ (d : Dict Json). object (edit_keys d)) (to_dict-normalize_nested fs)
    ∙ ap object (edit_keys-map_entries (to_dict fs))
    ∙ ap obj (sym (normalize_nested-from_dict (edit_keys (to_dict fs))))

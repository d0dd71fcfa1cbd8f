-- ===== src/Simplify/Unions/Collapsed.antt =====
-- The types that a collapsed union admits.
use specmcp.Prelude.{
  String, ◌≡◌, refl, sym, ap, ap₂, subst, ◌∙◌, Bool, false, not, ◌&&◌, ◌||◌, ◌==◌, eq_iff, Option,
  none, some, List, [], ◌∷◌, ◌++◌, any, elem, elem-append, if◌then◌else◌, Bool-cases, inl, inr,
  arith,
}
use specmcp.Prelude.Dict.{Dict, get}
use specmcp.Json.{
  Json, null, str, arr, obj, Items, nil, cons, to_dict, to_list, from_list, get_or, holds_str,
}
use specmcp.Model.{Schema}
use specmcp.Errors.Result.{
  ok, ◌>>=◌, map_result, Returns, Returns-ok, Returns-bind, Returns-if, ok_injective,
}
use specmcp.Normalize.Read.{as_text}
use specmcp.Normalize.Schema.Types.{admits}
use specmcp.Simplify.Unions.{
  branch_types, branch_fields, collect_types, unique_from, has_properties, texts, type_schema,
  try_collapse,
}

-- A branch admits a JSON type by its keyword `type`.
abbrev pub branch_admits : String → Json → Bool
branch_admits t (obj fs) = admits (get (to_dict fs) "type") t
branch_admits t v = false

module _ (t : String) where
  holds_texts : (ts : List String) → holds_str t (from_list (texts ts)) ≡ elem t ts
  holds_texts [] = refl
  holds_texts (s ∷ ts) = ap (λ (b : Bool). (s == t) || b) (holds_texts ts)

  admits-type_schema : (ts : List String) → admits (get (type_schema ts) "type") t ≡ elem t ts
  unfolding get
  admits-type_schema [] = refl
  admits-type_schema (s ∷ []) = ground arith
  admits-type_schema (s ∷ u ∷ ts) = holds_texts (s ∷ u ∷ ts)

  elem-unique_from :
      (seen ts : List String) → elem t (unique_from seen ts) ≡ (not (elem t seen) && elem t ts)
  unfolding unique_from
  elem-unique_from seen [] = ground arith
  elem-unique_from seen (s ∷ ts) = elim (Bool-cases (elem s seen)) [
    | inl old ↦ rw old (elem-unique_from seen ts ∙ ground (arith, eq_iff s t))
    | inr new ↦ rw new (rw (elem-unique_from (s ∷ seen) ts) (ground (arith, eq_iff s t)))
  ]

  -- What the text values of a list are.
  elem-map_as_text :
      (vs : Items) → Returns (λ ts. elem t ts ≡ holds_str t vs) (map_result as_text (to_list vs))
  unfolding map_result
  elem-map_as_text nil = Returns-ok [] refl
  elem-map_as_text (cons (str s) vs) = Returns-bind _ _ λ u e. Returns-bind _ _ λ ts rest.
      Returns-ok (u ∷ ts) (
        ap₂ (λ (a : String) (b : Bool). (a == t) || b) (sym (ok_injective e))
          ((elem-map_as_text vs).at ts rest))
  elem-map_as_text (cons v vs) = Returns-bind _ _ λ u e. cc

  abbrev Admitted : Bool → Option (List String) → Type 0
  Admitted b none = Unit
  Admitted b (some ts) = elem t ts ≡ b

  branch_types-admits : (v : Json) → Returns (λ o. Admitted (admits (some v) t) o) (branch_types v)
  branch_types-admits (str s) = Returns-ok (some (s ∷ [])) (ground arith)
  branch_types-admits (arr vs) =
      Returns-bind _ _ λ ts e. Returns-ok (some ts) ((elem-map_as_text vs).at ts e)
  branch_types-admits v = Returns-ok none tt

  optional_types :
      (o : Option Json)
      → Returns (Admitted (admits o t)) (branch_types (elim o [ none ↦ null | some v ↦ v ]))
  optional_types none = Returns-ok none tt
  optional_types (some v) = branch_types-admits v

  branch-Admitted :
      (branch : Json) (fields : Dict Json)
      → branch_fields branch ≡ ok fields
      → Returns (Admitted (branch_admits t branch)) (branch_types (get_or fields "type" null))
  unfolding get_or
  branch-Admitted (obj fs) fields e =
      subst
        (λ (d : Dict Json).
          Returns (Admitted (admits (get (to_dict fs) "type") t))
            (branch_types (get_or d "type" null)))
        (ok_injective e) (optional_types (get (to_dict fs) "type"))
  branch-Admitted v fields e = cc

  join :
      (a b : Bool) (ts : List String) (o : Option (List String))
      → elem t ts ≡ a
      → Admitted b o
      → Returns (Admitted (a || b)) (elim o [ none ↦ ok none | some us ↦ ok (some (ts ++ us)) ])
  join a b ts none p q = Returns-ok none tt
  join a b ts (some us) p q =
      Returns-ok (some (ts ++ us)) (elem-append t ts us ∙ ap₂ (λ (x y : Bool). x || y) p q)

  further :
      (branch : Json) (branches : List Json) (types : Option (List String))
      → Admitted (branch_admits t branch) types
      → Returns (Admitted (any (branch_admits t) branches)) (collect_types branches)
      → Returns (Admitted (any (branch_admits t) (branch ∷ branches))) (elim types [
        | none ↦ ok none
        | some ts ↦
            (collect_types branches >>= λ rest. elim rest [
              | none ↦ ok none
              | some us ↦ ok (some (ts ++ us))
            ])
      ])
  further branch branches none h ih = Returns-ok none tt
  further branch branches (some ts) h ih =
      Returns-bind _ _ λ rest q. join _ _ ts rest h (ih.at rest q)

  collect_types-admits :
      (branches : List Json)
      → Returns (Admitted (any (branch_admits t) branches)) (collect_types branches)
  unfolding collect_types
  collect_types-admits [] = Returns-ok (some []) refl
  collect_types-admits (branch ∷ branches) = Returns-bind _ _ λ fields e.
      Returns-bind _ _ λ types p.
        further branch branches types ((branch-Admitted branch fields e).at types p)
          (collect_types-admits branches)

  abbrev SchemaAdmits : Bool → Option Schema → Type 0
  SchemaAdmits b none = Unit
  SchemaAdmits b (some s) = admits (get s "type") t ≡ b

  collapsed :
      (branches : List Json) (b : Bool) (types : Option (List String))
      → Admitted b types
      → Returns (SchemaAdmits b) (elim types [
        | none ↦ ok none
        | some ts ↦
            if any has_properties branches
            then ok none
            else ok (some (type_schema (unique_from [] ts)))
      ])
  collapsed branches b none h = Returns-ok none tt
  collapsed branches b (some ts) h =
      Returns-if (any has_properties branches) _ _ (λ _. Returns-ok none tt)
        λ _.
          Returns-ok (some (type_schema (unique_from [] ts)))
            (admits-type_schema (unique_from [] ts) ∙ elem-unique_from [] ts ∙ h)

  pub collapsed_admits :
      (branches : List Json)
      → Returns (SchemaAdmits (any (branch_admits t) branches)) (try_collapse branches)
  unfolding try_collapse
  collapsed_admits branches = Returns-bind _ _ λ types e.
      collapsed branches (any (branch_admits t) branches) types
        ((collect_types-admits branches).at types e)

-- Where a union is collapsed, the schema that replaces it admits a type exactly if one of the
-- branches does.
pub try_collapse-admits :
    (branches : List Json) (schema : Schema) (t : String)
    → try_collapse branches ≡ ok (some schema)
    → admits (get schema "type") t ≡ any (branch_admits t) branches
try_collapse-admits branches schema t h = (collapsed_admits t branches).at (some schema) h

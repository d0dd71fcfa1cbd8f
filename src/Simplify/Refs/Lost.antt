-- ===== src/Simplify/Refs/Lost.antt =====
-- References inside the schema that `build_argument_map` makes, which has no definitions.
use Prim.Native.String
use text.Mathlib.TextLemmas.{cons-append}
use specmcp.Prelude.{◌⊎◌, inl, inr, Bool-cases, ltb, leb}
use specmcp.Prelude.{
  ℕ, String, ◌≡◌, refl, true, Option, none, some, [], leb, arith, is_empty, Bool-cases, inl, inr,
}
use specmcp.Prelude.Dict.{Dict, get}
use specmcp.Prelude.Text.{has_prefix}
use specmcp.Json.{Json, str, obj, end, field, object, get_or}
use specmcp.Model.{Operation, Schema, Bindings}
use specmcp.Errors.Result.{ok, ◌>>=◌, Returns, Returns-ok, Returns-err, Returns-if, Returns-bind}
use specmcp.Naming.{seen_count}
use specmcp.Simplify.ArgumentMap.{build_argument_map, llm_schema, Built}
use specmcp.Simplify.Refs.{target_of_ref, inline_refs, definitions_of, shallow_target}

pub no_definitions : (b : Built) → definitions_of (llm_schema b) ≡ object []
unfolding definitions_of llm_schema get get_or
no_definitions b = elim (Bool-cases (is_empty b.required)) [ inl e ↦ rw e refl | inr e ↦ rw e refl ]

build_argument_map-definitions :
    (op : Operation)
    → Returns (λ (e : Schema × Bindings). definitions_of e.0 ≡ object []) (build_argument_map op)
unfolding build_argument_map
build_argument_map-definitions op =
    Returns-bind _ _ λ b _. Returns-ok (llm_schema b, b.bindings) (no_definitions b)

has_prefix-append : (s t : String) → has_prefix (String.◌++◌ s t) s ≡ true
has_prefix-append String.[] t = refl
has_prefix-append (String.◌∷◌ c s) t = rw cons-append (ground (arith, has_prefix-append s t))

-- A reference into the definitions.
abbrev pub defs_ref : String → String
defs_ref name = String.◌++◌ "#/$defs/" name

shallow_target-empty :
    (usage_count : Dict ℕ) (ref : String)
    → leb (seen_count usage_count ref) 1 ≡ true
    → shallow_target [] usage_count 20 ref ≡ ok (some (object []))
unfolding shallow_target get_or get ◌>>=◌
shallow_target-empty usage_count ref h = rw h refl

-- The schema that `build_argument_map` returns has no definitions, and so a reference into them
-- that is used at most once becomes the empty schema, which admits every value.
pub inline_refs_lost :
    (op : Operation) (schema : Schema) (bindings : Bindings) (usage_count : Dict ℕ) (name : String)
    → build_argument_map op ≡ ok (schema, bindings)
    → leb (seen_count usage_count (defs_ref name)) 1 ≡ true
    → (definitions_of schema ≡ object [])
      × (inline_refs [] usage_count 20 (obj (field "$ref" (str (defs_ref name)) end))
          ≡ ok (object []))
unfolding inline_refs target_of_ref ◌>>=◌
inline_refs_lost op schema bindings usage_count name h k = (
  (build_argument_map-definitions op).at (schema, bindings) h,
  rw (has_prefix-append "#/$defs/" name, target_of_ref)
      (rw (shallow_target-empty usage_count (defs_ref name) k, ◌>>=◌) refl),
)

shallow_target-none :
    (usage_count : Dict ℕ) (max_properties : ℕ) (ref : String)
    → Returns
        (λ t. (t ≡ none) ⊎ (t ≡ some (object [])))
        (shallow_target [] usage_count max_properties ref)
unfolding shallow_target get_or get ◌>>=◌
shallow_target-none usage_count max_properties ref =
    Returns-if (leb (seen_count usage_count ref) 1) _ _
      (λ _. elim (Bool-cases (ltb 0 max_properties)) [
        | inl small ↦ rw small (Returns-ok (some (object [])) (inr refl))
        | inr large ↦ rw large (Returns-ok none (inl refl))
      ])
      (λ _. Returns-ok none (inl refl))

-- Without definitions a reference is left, or becomes the empty schema.
pub target_of_ref-empty :
    (usage_count : Dict ℕ) (max_properties : ℕ) (o : Option Json)
    → Returns
        (λ t. (t ≡ none) ⊎ (t ≡ some (object [])))
        (target_of_ref [] usage_count max_properties o)
unfolding target_of_ref
target_of_ref-empty usage_count max_properties none = Returns-ok none (inl refl)
target_of_ref-empty usage_count max_properties (some (str ref)) =
    Returns-if _ _ _ (λ _. shallow_target-none usage_count max_properties ref)
      (λ _. Returns-ok none (inl refl))
target_of_ref-empty usage_count max_properties (some v) = Returns-err _

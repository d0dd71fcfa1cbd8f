-- ===== src/Expose/Reached.antt =====
-- The stages together: the operations of a document, simplified and exposed, are reached by name.
use mathlib.Core.List.{map-append}
use specmcp.Prelude.{
  String, ◌≡◌, refl, ap, ◌∙◌, false, none, some, List, [], ◌∷◌, ◌++◌, map, elem, Distinct,
}
use specmcp.Model.{Operation, SimplifiedOperation}
use specmcp.Errors.Result.{ok}
use specmcp.Naming.Unique.{NoneSuffixed}
use specmcp.Normalize.Operations.{ResolvedSpec, Filters, Candidate, normalize_spec}
use specmcp.Normalize.Operations.Listed.{spec_candidates}
use specmcp.Normalize.Operations.Distinctness.{ids, normalize_spec-Distinct}
use specmcp.Simplify.Pipeline.{SimplifyConfig, simplify, simplify_operation}
use specmcp.Expose.{ToolDefinition, lookup, build}
use specmcp.Expose.Exposed.{IsExposed}
use specmcp.Expose.Lookup.{shown_names, build-lookup}

shown_names-simplify :
    (config : SimplifyConfig) (ops : List Operation)
    → shown_names none (map (simplify_operation config) ops) ≡ ids ops
unfolding simplify_operation
shown_names-simplify config [] = refl
shown_names-simplify config (op ∷ ops) =
    ap (λ (names : List String). op.id ∷ names) (shown_names-simplify config ops)

-- In a list without repetitions a name does not stand again behind its place.
fresh_behind :
    (before : List Operation) (op : Operation) (after : List Operation)
    → Distinct (ids (before ++ op ∷ after))
    → elem op.id (ids after) ≡ false
fresh_behind [] op after (fresh, h) = fresh
fresh_behind (o ∷ before) op after (fresh, h) = fresh_behind before op after h

-- Where no candidate of the document is called like another with a suffix, and without overrides, each
-- operation that Normalize gives is reached in the registry under its name: what is found has that
-- name, and the description and the schema that Simplify gives the operation.
pub build-simplify :
    (resolved : ResolvedSpec) (f : Filters) (candidates : List Candidate) (config : SimplifyConfig)
    (before : List Operation) (op : Operation) (after : List Operation)
    → spec_candidates resolved ≡ ok candidates
    → NoneSuffixed (map (λ c. c.id) candidates)
    → normalize_spec resolved f ≡ ok (before ++ op ∷ after)
    → (t : ToolDefinition) × (lookup (build none (simplify config (before ++ op ∷ after))) op.id
        ≡ some t)
      × IsExposed none (simplify_operation config op) t
unfolding simplify simplify_operation
build-simplify resolved f candidates config before op after p apart h =
    let one = simplify_operation config in
    let distinct = normalize_spec-Distinct resolved f candidates (before ++ op ∷ after) p apart h in
    let (t, found, exposed) = build-lookup none (map one before) (one op) (map one after) refl (
      ap (elem op.id) (shown_names-simplify config after)
      ∙ fresh_behind before op after distinct) in
    (
      t,
      ap (λ (sops : List SimplifiedOperation). lookup (build none sops) op.id)
            (map-append one before (op ∷ after))
          ∙ found,
      exposed,
    )

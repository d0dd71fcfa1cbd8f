-- ===== src/Simplify/Pipeline.antt =====
-- `simplify`, `_simplify_one` and `_fallback_schema` of core/simplify.py: the rules one after
-- another, and what stands in for an operation on which they fail.
mod Entries
mod Sound
mod Rules
pub mod Covered
use specmcp.Prelude.{ℕ, String, Bool, false, none, List, [], ◌∷◌, map, if◌then◌else◌, ltb}
use specmcp.Json.{Json, bool, str, array, object}
use specmcp.Model.{
  Operation, Schema, Bindings, ArgumentBinding, body_root, SimplifyWarning, SimplifiedOperation,
  fallback_to_freeform,
}
use specmcp.Errors.Result.{Result, ok, err, ◌>>=◌}
use specmcp.Simplify.ArgumentMap.{build_argument_map}
use specmcp.Simplify.Refs.{apply_inline_shallow_refs}
use specmcp.Simplify.Metadata.{apply_drop_spec_metadata}
use specmcp.Simplify.Unions.{apply_collapse_unions}
use specmcp.Simplify.Wrappers.{apply_flatten_wrappers}
use specmcp.Simplify.Truncate.{apply_truncate_descriptions}
use specmcp.Simplify.Description.{build_llm_description}

pub record SimplifyConfig : Type 0 where
  pub inline_shallow_refs : Bool
  pub drop_spec_metadata : Bool
  pub collapse_unions : Bool
  pub flatten_single_property_wrappers : Bool
  pub truncate_description_chars : ℕ

-- What the rules hand on. Only the last one warns.
abbrev pub Simplified : Type 0
Simplified = Schema × (Bindings × List SimplifyWarning)

abbrev pub truncate_if : SimplifyConfig → String → Schema × Bindings → Simplified
truncate_if config op_id (schema, bindings) =
    if ltb 0 config.truncate_description_chars
    then (let (cut, warnings) =
          apply_truncate_descriptions schema [] op_id config.truncate_description_chars in
        (cut, (bindings, warnings)))
    else (schema, (bindings, []))

unfoldable pub simplify_one : Operation → SimplifyConfig → Result Simplified
unfolding build_argument_map apply_inline_shallow_refs apply_drop_spec_metadata
    apply_collapse_unions apply_flatten_wrappers apply_truncate_descriptions
simplify_one op config = do
  (schema, bindings) ← build_argument_map op
  inlined ← if config.inline_shallow_refs then apply_inline_shallow_refs schema else ok schema
  let dropped = if config.drop_spec_metadata then apply_drop_spec_metadata inlined else inlined
  collapsed ← if config.collapse_unions then apply_collapse_unions dropped else ok dropped
  flat ←
      if config.flatten_single_property_wrappers
      then apply_flatten_wrappers collapsed bindings
      else ok (collapsed, bindings)
  ok (truncate_if config op.id flat)

abbrev fallback_warning : String → SimplifyWarning
fallback_warning operation_id = record {
  kind = fallback_to_freeform;
  operation_id = operation_id;
  field_path = none;
  message =
      "Schema is too complex to simplify automatically. Pass the entire request body as a JSON string in the 'body' argument.";
}

abbrev body_schema : Json
body_schema = object (
    ("type", str "string")
    ∷ (
      "description",
      str
          "The request body as a JSON string. The API expects a complex schema that could not be simplified.",
    )
    ∷ [])

abbrev pub fallback_binding : ArgumentBinding
fallback_binding = record {
  source_llm_key = "body";
  target_kind = body_root;
  target_path = [];
  style = none;
  explode = none;
}

-- One free-form argument.
unfoldable pub fallback_schema : String → Simplified
fallback_schema operation_id = (
  ("type", str "object")
      ∷ ("properties", object (("body", body_schema) ∷ []))
      ∷ ("required", array (str "body" ∷ []))
      ∷ ("additionalProperties", bool false)
      ∷ [],
  (("body", fallback_binding) ∷ [], fallback_warning operation_id ∷ []),
)

abbrev pub or_fallback : String → Result Simplified → Simplified
or_fallback operation_id (ok s) = s
or_fallback operation_id (err e) = fallback_schema operation_id

-- The body of the loop.
unfoldable pub simplify_operation : SimplifyConfig → Operation → SimplifiedOperation
unfolding simplify_one fallback_schema build_llm_description
simplify_operation config op =
    let (schema, (bindings, warnings)) = or_fallback op.id (simplify_one op config) in
    record {
      operation = op;
      llm_input_schema = schema;
      llm_description = build_llm_description config.truncate_description_chars op;
      arg_map = bindings;
      warnings = warnings;
    }

unfoldable pub simplify : SimplifyConfig → List Operation → List SimplifiedOperation
unfolding simplify_operation
simplify config ops = map (simplify_operation config) ops

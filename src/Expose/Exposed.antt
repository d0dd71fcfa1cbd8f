-- ===== src/Expose/Exposed.antt =====
-- What the registry lists for an operation, said of the listed tool and not of its construction.
use specmcp.Prelude.{
  String, ◌≡◌, refl, Bool, true, false, ◌&&◌, ◌==◌, Option, none, some, List, [], ◌∷◌,
  if◌then◌else◌, Bool-cases, inl, inr,
}
use specmcp.Prelude.Dict.{Dict, get, set, get-set}
use specmcp.Prelude.Text.{is_nil-eq}
use specmcp.Json.{bool}
use specmcp.Model.{Schema, SimplifiedOperation}
use specmcp.Expose.{
  OperationOverride, ToolDefinition, text_or, is_hidden, tool_name, tool_of, override_for,
  build_tools,
}

-- A text that is given and not empty, and otherwise what is there without it.
abbrev pub given : Option String → String → String
given none own = own
given (some s) own = if s == "" then own else s

abbrev new_name : Option OperationOverride → Option String
new_name none = none
new_name (some o) = o.rename

abbrev new_description : Option OperationOverride → Option String
new_description none = none
new_description (some o) = o.description

abbrev is_strict : Option OperationOverride → Bool
is_strict none = false
is_strict (some o) = o.additional_properties_strict

-- The name under which an operation is shown: the new one, or its own.
abbrev pub shown_name : Option OperationOverride → SimplifiedOperation → String
shown_name override sop = given (new_name override) sop.operation.id

-- The tool has the name and the description of the override or its own, it is for this operation, and
-- its schema is that of the operation, closed where the override is strict.
pub record IsExposed (override : Option OperationOverride) (sop : SimplifiedOperation)
    (t : ToolDefinition) : Type 0 where
  pub named : t.name ≡ shown_name override sop
  pub described : t.description ≡ given (new_description override) sop.llm_description
  pub schema :
      (k : String)
      → get t.input_schema k ≡ (
          if is_strict override && ("additionalProperties" == k)
          then some (bool false)
          else get sop.llm_input_schema k)
  pub operation : t.simplified_operation ≡ sop

-- The tools of a list of operations, in order, without those that are hidden.
pub data AreExposed (operations : Option (Dict OperationOverride))
    : List SimplifiedOperation → List ToolDefinition → Type 0 where
  done : AreExposed operations [] []
  hidden :
      (sop : SimplifiedOperation) (sops : List SimplifiedOperation) (ts : List ToolDefinition)
      → is_hidden (override_for operations sop.operation.id) ≡ true
      → AreExposed operations sops ts
      → AreExposed operations (sop ∷ sops) ts
  shown :
      (sop : SimplifiedOperation) (sops : List SimplifiedOperation) (t : ToolDefinition)
      (ts : List ToolDefinition)
      → is_hidden (override_for operations sop.operation.id) ≡ false
      → IsExposed (override_for operations sop.operation.id) sop t
      → AreExposed operations sops ts
      → AreExposed operations (sop ∷ sops) (t ∷ ts)

text_or-given : (o : Option String) (own : String) → text_or o own ≡ given o own
text_or-given none own = refl
text_or-given (some s) own = rw is_nil-eq refl

pub tool_name-shown_name :
    (override : Option OperationOverride) (sop : SimplifiedOperation)
    → tool_name override sop.operation.id ≡ shown_name override sop
tool_name-shown_name none sop = refl
tool_name-shown_name (some o) sop = text_or-given o.rename sop.operation.id

get-strict :
    (strict : Bool) (d : Schema) (k : String)
    → get (if strict then set d "additionalProperties" (bool false) else d) k
      ≡ (if strict && ("additionalProperties" == k) then some (bool false) else get d k)
get-strict true d k = get-set d "additionalProperties" k (bool false)
get-strict false d k = refl

pub tool_of-IsExposed :
    (override : Option OperationOverride) (sop : SimplifiedOperation)
    → IsExposed override sop (tool_of override sop)
unfolding tool_of
tool_of-IsExposed none sop = record {
  named = refl;
  described = refl;
  schema = λ k. refl;
  operation = refl;
}
tool_of-IsExposed (some o) sop = record {
  named = text_or-given o.rename sop.operation.id;
  described = text_or-given o.description sop.llm_description;
  schema = get-strict o.additional_properties_strict sop.llm_input_schema;
  operation = refl;
}

pub build_tools-AreExposed :
    (operations : Option (Dict OperationOverride)) (sops : List SimplifiedOperation)
    → AreExposed operations sops (build_tools operations sops)
unfolding build_tools
build_tools-AreExposed operations [] = done
build_tools-AreExposed operations (sop ∷ sops) =
    let override = override_for operations sop.operation.id in
    elim (Bool-cases (is_hidden override)) [
      | inl h ↦ rw (h, build_tools) (hidden sop sops _ h (build_tools-AreExposed operations sops))
      | inr h ↦
          rw (h, build_tools)
            (shown sop sops _ _ h (tool_of-IsExposed override sop)
              (build_tools-AreExposed operations sops))
    ]

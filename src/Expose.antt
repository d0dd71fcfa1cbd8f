-- ===== src/Expose.antt =====
-- The Expose stage, src/specmcp/core/expose.py: the registry of the tools, and its index by name.
pub mod Exposed
pub mod Lookup
pub mod Reached
use specmcp.Prelude.{
  String, Bool, true, false, not, ◌&&◌, Option, none, some, List, [], ◌∷◌, map, if◌then◌else◌,
}
use specmcp.Prelude.Dict.{Dict, get, set}
use specmcp.Prelude.Text.{is_nil}
use specmcp.Json.{Json, bool, str, object}
use specmcp.Model.{Operation, Schema, SimplifiedOperation}

-- The fields of `OperationOverride` (config.py) that the registry reads.
pub record OperationOverride : Type 0 where
  pub rename : Option String
  pub description : Option String
  pub hide : Bool
  pub additional_properties_strict : Bool

pub record ToolDefinition : Type 0 where
  pub name : String
  pub description : String
  pub input_schema : Schema
  pub simplified_operation : SimplifiedOperation

-- t.to_mcp_dict()
abbrev pub to_mcp_dict : ToolDefinition → Dict Json
to_mcp_dict t =
    ("name", str t.name)
    ∷ ("description", str t.description)
    ∷ ("inputSchema", object t.input_schema)
    ∷ []

pub record ToolRegistry : Type 0 where
  pub tools : List ToolDefinition
  pub index : Dict ToolDefinition

-- {t.name: t for t in tools}, onto the entries that are there
index_from : Dict ToolDefinition → List ToolDefinition → Dict ToolDefinition
index_from index [] = index
index_from index (t ∷ ts) = index_from (set index t.name t) ts

unfoldable pub registry_of : List ToolDefinition → ToolRegistry
unfolding index_from
registry_of tools = record { tools = tools; index = index_from [] tools }

unfoldable pub lookup : ToolRegistry → String → Option ToolDefinition
lookup registry name = get registry.index name

unfoldable pub list_tools : ToolRegistry → List (Dict Json)
list_tools registry = map to_mcp_dict registry.tools

-- A text of an override that is given and not empty, or the default.
abbrev pub text_or : Option String → String → String
text_or none default = default
text_or (some s) default = if is_nil s then default else s

abbrev pub is_hidden : Option OperationOverride → Bool
is_hidden none = false
is_hidden (some o) = o.hide

abbrev pub tool_name : Option OperationOverride → String → String
tool_name none op_id = op_id
tool_name (some o) op_id = text_or o.rename op_id

abbrev tool_description : Option OperationOverride → String → String
tool_description none default = default
tool_description (some o) default = text_or o.description default

abbrev tool_schema : Option OperationOverride → Schema → Schema
tool_schema none schema = schema
tool_schema (some o) schema =
    if o.additional_properties_strict
    then set schema "additionalProperties" (bool false)
    else schema

unfoldable pub tool_of : Option OperationOverride → SimplifiedOperation → ToolDefinition
tool_of override sop = record {
  name = tool_name override sop.operation.id;
  description = tool_description override sop.llm_description;
  input_schema = tool_schema override sop.llm_input_schema;
  simplified_operation = sop;
}

-- config.operations.get(op_id), where there is a config
abbrev pub override_for : Option (Dict OperationOverride) → String → Option OperationOverride
override_for none op_id = none
override_for (some operations) op_id = get operations op_id

unfoldable pub build_tools :
    Option (Dict OperationOverride) → List SimplifiedOperation → List ToolDefinition
unfolding tool_of
build_tools operations [] = []
build_tools operations (sop ∷ sops) =
    let override = override_for operations sop.operation.id in
    let rest = build_tools operations sops in
    if is_hidden override then rest else tool_of override sop ∷ rest

unfoldable pub build : Option (Dict OperationOverride) → List SimplifiedOperation → ToolRegistry
unfolding build_tools registry_of
build operations sops = registry_of (build_tools operations sops)

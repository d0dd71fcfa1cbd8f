-- ===== src/Model.antt =====
-- The Operation Model, src/specmcp/core/model.py: the data that the pipeline's stages share.
use specmcp.Prelude.{String, Bool, ℕ, Option, List}
use specmcp.Prelude.Dict.{Dict}
use specmcp.Json.{Json}
use specmcp.Naming.Method.{HttpMethod}

pub data ParamLocation : Type 0 where
  path query header cookie : ParamLocation

pub data ParamStyle : Type 0 where
  simple label matrix form space_delimited pipe_delimited deep_object : ParamStyle

-- A JSON object, such as a schema.
abbrev pub Schema : Type 0
Schema = Dict Json

pub record Parameter : Type 0 where
  pub name : String
  pub location : ParamLocation
  pub required : Bool
  pub schema : Schema
  pub style : Option ParamStyle
  pub explode : Option Bool
  pub allow_empty_value : Bool
  pub deprecated : Bool

pub record RequestBodyVariant : Type 0 where
  pub content_type : String
  pub schema : Schema
  pub encoding : Option Json

pub record RequestBody : Type 0 where
  pub required : Bool
  pub variants : List RequestBodyVariant

pub record ResponseVariant : Type 0 where
  pub content_type : String
  pub schema : Option Schema
  pub is_binary : Bool

pub record Response : Type 0 where
  pub status_code : String
  pub description : Option String
  pub headers : Schema
  pub variants : List ResponseVariant

pub record AuthRequirement : Type 0 where
  pub scheme_name : String
  pub scopes : List String

pub record Operation : Type 0 where
  pub id : String
  pub method : HttpMethod
  pub path : String
  pub server_url : String
  pub parameters : List Parameter
  pub request_body : Option RequestBody
  pub responses : List Response
  -- The outer list is a disjunction, the inner ones are conjunctions.
  pub auth : List (List AuthRequirement)
  pub summary : Option String
  pub description : Option String
  pub tags : List String
  pub deprecated : Bool
  pub source_location : Option (String × ℕ)
  pub vendor_extensions : Schema

-- Where in the request an argument goes.
pub data TargetKind : Type 0 where
  at_path at_query at_header at_cookie body_field body_root : TargetKind

pub record ArgumentBinding : Type 0 where
  pub source_llm_key : String
  pub target_kind : TargetKind
  pub target_path : List String
  pub style : Option ParamStyle
  pub explode : Option Bool

-- `ArgumentMap.bindings`
abbrev pub Bindings : Type 0
Bindings = Dict ArgumentBinding

pub data WarningKind : Type 0 where
  fallback_to_freeform union_collapsed_lossy recursive_schema_detected : WarningKind
  description_truncated unsupported_style : WarningKind

pub record SimplifyWarning : Type 0 where
  pub kind : WarningKind
  pub operation_id : String
  pub field_path : Option String
  pub message : String

pub record SimplifiedOperation : Type 0 where
  pub operation : Operation
  pub llm_input_schema : Schema
  pub llm_description : String
  pub arg_map : Bindings
  pub warnings : List SimplifyWarning

-- ===== src/Simplify/Truncate.antt =====
-- `_truncate_in` of core/simplify.py: long descriptions are cut, at any depth.
pub mod Bounded
pub mod Stable
use Prim.Native.String
use Prim.Native.String.{count}
use specmcp.Prelude.{
  ℕ, String, Bool, true, false, ◌&&◌, ◌==◌, Option, none, List, [], ◌∷◌, ◌++◌, if◌then◌else◌, ltb,
}
use specmcp.Prelude.Digits.{show}
use specmcp.Prelude.Text.{take}
use specmcp.Json.{
  Json, null, bool, num, str, arr, obj, Items, nil, cons, Fields, end, field, from_dict, to_dict,
}
use specmcp.Model.{Schema, SimplifyWarning, description_truncated}

-- v[:max_chars] + "…"
unfoldable pub cut : ℕ → String → String
unfolding take
cut max_chars s = String.◌++◌ (take max_chars s) "…"

abbrev pub is_long : ℕ → String → Json → Bool
is_long max_chars k (str s) = k == "description" && ltb max_chars (count s)
is_long max_chars k v = false

abbrev pub cut_text : ℕ → Json → Json
cut_text max_chars (str s) = str (cut max_chars s)
cut_text max_chars v = v

unfoldable mutual
  pub truncate_in : ℕ → Json → Json
  truncate_in max_chars null = null
  truncate_in max_chars (bool b) = bool b
  truncate_in max_chars (num t) = num t
  truncate_in max_chars (str s) = str s
  truncate_in max_chars (arr vs) = arr (truncate_items max_chars vs)
  truncate_in max_chars (obj fs) = obj (truncate_fields max_chars fs)

  pub truncate_items : ℕ → Items → Items
  truncate_items max_chars nil = nil
  truncate_items max_chars (cons v vs) =
      cons (truncate_in max_chars v) (truncate_items max_chars vs)

  pub truncate_fields : ℕ → Fields → Fields
  truncate_fields max_chars end = end
  truncate_fields max_chars (field k v fs) =
      let inner = truncate_in max_chars v in
      let rest = truncate_fields max_chars fs in
      field k (if is_long max_chars k v then cut_text max_chars v else inner) rest

abbrev cut_warning : ℕ → String → SimplifyWarning
cut_warning max_chars operation_id = record {
  kind = description_truncated;
  operation_id = operation_id;
  field_path = none;
  message = String.◌++◌ "Description truncated to " (String.◌++◌ (show max_chars) " chars");
}

-- The warnings that the same walk appends.
unfoldable mutual
  pub warnings_in : ℕ → String → Json → List SimplifyWarning
  warnings_in max_chars op null = []
  warnings_in max_chars op (bool b) = []
  warnings_in max_chars op (num t) = []
  warnings_in max_chars op (str s) = []
  warnings_in max_chars op (arr vs) = warnings_items max_chars op vs
  warnings_in max_chars op (obj fs) = warnings_fields max_chars op fs

  pub warnings_items : ℕ → String → Items → List SimplifyWarning
  warnings_items max_chars op nil = []
  warnings_items max_chars op (cons v vs) =
      warnings_in max_chars op v ++ warnings_items max_chars op vs

  pub warnings_fields : ℕ → String → Fields → List SimplifyWarning
  warnings_fields max_chars op end = []
  warnings_fields max_chars op (field k v fs) =
      let inner = warnings_in max_chars op v in
      let rest = warnings_fields max_chars op fs in
      (if is_long max_chars k v then cut_warning max_chars op ∷ [] else inner) ++ rest

unfoldable pub apply_truncate_descriptions :
    Schema → List SimplifyWarning → String → ℕ → Schema × List SimplifyWarning
unfolding truncate_in warnings_in cut
apply_truncate_descriptions schema warnings operation_id max_chars = (
  to_dict (truncate_fields max_chars (from_dict schema)),
  warnings ++ warnings_fields max_chars operation_id (from_dict schema),
)

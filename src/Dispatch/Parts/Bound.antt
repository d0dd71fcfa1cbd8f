-- ===== src/Dispatch/Parts/Bound.antt =====
-- Which path variables the arguments give, and what that means for the fallback schema.
use specmcp.Prelude.{
  String, ◌≡◌, refl, ap, ◌∙◌, Bool, true, false, Option, none, some, List, [], ◌∷◌, all,
}
use specmcp.Prelude.Dict.{Dict, get}
use specmcp.Json.{Json}
use specmcp.Errors.Result.{Result, ok, err, dispatch, ◌>>=◌, Returns, Returns-ok, Returns-bind}
use specmcp.Simplify.Pipeline.{fallback_schema, fallback_binding}
use specmcp.Dispatch.Template.{fill_path}
use specmcp.Dispatch.Template.Filled.{
  Piece, fixed, variable, render, substitute, is_plain_piece, fill_path_lem,
}
use specmcp.Dispatch.Parts.{Parts, empty_parts, add_given, add_argument, build_parts}

-- The template has a variable.
abbrev pub has_variable : List Piece → Bool
has_variable [] = false
has_variable (fixed s ∷ ps) = has_variable ps
has_variable (variable name ∷ ps) = true

substitute-none : (ps : List Piece) → has_variable ps ≡ true → substitute [] ps ≡ err dispatch
unfolding ◌>>=◌ get
substitute-none [] h = cc
substitute-none (fixed s ∷ ps) h = rw (substitute-none ps h, ◌>>=◌) refl
substitute-none (variable name ∷ ps) h = refl

abbrev NoVars : Parts → Type 0
NoVars p = p.path_vars ≡ []

module _ (nested_text : Json → String) where
  given-NoVars :
      (o : Option Json)
      → Returns NoVars (add_given nested_text "body" fallback_binding o empty_parts)
  unfolding add_argument
  given-NoVars none = Returns-ok _ refl
  given-NoVars (some v) = Returns-ok _ refl

  fallback-NoVars :
      (op_id : String) (args : Dict Json)
      → Returns NoVars (build_parts nested_text (fallback_schema op_id).1.0 args empty_parts)
  unfolding build_parts fallback_schema
  fallback-NoVars op_id args =
      Returns-bind _ _ λ next e. Returns-ok next ((given-NoVars (get args "body")).at next e)

  -- An operation that is simplified by the fallback and whose path has a variable cannot be
  -- dispatched: whatever the arguments are, its path is not filled.
  pub fallback_undispatchable :
      (format_rest : Dict String → String → Result String) (op_id : String) (args : Dict Json)
      (p : Parts) (path : List Piece)
      → build_parts nested_text (fallback_schema op_id).1.0 args empty_parts ≡ ok p
      → all is_plain_piece path ≡ true
      → has_variable path ≡ true
      → fill_path format_rest p.path_vars (render path) ≡ err dispatch
  fallback_undispatchable format_rest op_id args p path built h k =
      fill_path_lem format_rest p.path_vars path h
      ∙ ap (λ (d : Dict String). substitute d path) ((fallback-NoVars op_id args).at p built)
      ∙ substitute-none path k

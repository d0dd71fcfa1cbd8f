-- ===== src/Serve/Pipeline.antt =====
-- What the registry of the pipeline serves.
use specmcp.Prelude.{String, ◌≡◌, subst, Option, List}
use specmcp.Errors.Result.{Error, Result, ok, err}
use specmcp.Errors.Loaded.{loaded, >>=-eq-loaded, loaded_injective}
use specmcp.Load
use specmcp.Load.{RawSpec, load_spec}
use specmcp.Load.Accepted.{IsAccepted, load_spec-IsAccepted}
use specmcp.Model.{Operation}
use specmcp.Normalize.Operations.{normalize_spec}
use specmcp.Simplify.Pipeline.{simplify}
use specmcp.Expose.{ToolRegistry, registry_of, lookup, build, build_tools}
use specmcp.Expose.Lookup.{names, shown_names, names-build_tools, last_named, lookup_lem}
use specmcp.Expose.Exposed.{AreExposed, build_tools-AreExposed}
use specmcp.Serve.{
  ServeConfig, filters_of, simplify_of, operations_of, spec_of, normalized, run_pipeline,
}

module _ (outside : Load.Outside) (source : String) (cfg : Option ServeConfig) where
  -- The tools are those of the operations of an accepted document that the configuration does not
  -- hide, in order, and a call by name finds the last tool of that name.
  pub record IsServed (registry : ToolRegistry) : Type 0 where
    pub raw : RawSpec
    pub spec : Load.ResolvedSpec
    pub ops : List Operation
    pub accepted : IsAccepted outside source raw spec
    pub normalized_ops : normalize_spec (spec_of spec) (filters_of cfg) ≡ ok ops
    pub exposed : AreExposed (operations_of cfg) (simplify (simplify_of cfg) ops) registry.tools
    pub shown :
        names registry.tools ≡ shown_names (operations_of cfg) (simplify (simplify_of cfg) ops)
    pub reached : (name : String) → lookup registry name ≡ last_named name registry.tools

  normalized-eq :
      (r : Result (List Operation)) (ops : List Operation) → normalized r ≡ loaded ops → r ≡ ok ops
  normalized-eq (ok a) ops h = cc
  normalized-eq (err Error.normalize) ops h = cc
  normalized-eq (err e) ops h = cc

  -- What the pipeline returns serves an accepted document: its tools are those of the operations that
  -- Normalize gives and the configuration does not hide, in order, each with the name and the
  -- description of its override or its own and with the simplified schema, in which
  -- additionalProperties is false where the override is strict. A name finds the last tool listed
  -- under it, and nothing where none is.
  pub run_pipeline-IsServed :
      (registry : ToolRegistry)
      → run_pipeline outside source cfg ≡ loaded registry
      → IsServed registry
  unfolding run_pipeline build registry_of lookup
  run_pipeline-IsServed registry h =
      let ((raw, spec), read, h1) = >>=-eq-loaded (load_spec outside source) _ h in
      let (ops, norm, h2) =
        >>=-eq-loaded (normalized (normalize_spec (spec_of spec) (filters_of cfg))) _ h1 in
      let sops = simplify (simplify_of cfg) ops in
      subst IsServed (loaded_injective h2) (record {
        raw = raw;
        spec = spec;
        ops = ops;
        accepted = load_spec-IsAccepted outside source raw spec read;
        normalized_ops = normalized-eq (normalize_spec (spec_of spec) (filters_of cfg)) ops norm;
        exposed = build_tools-AreExposed (operations_of cfg) sops;
        shown = names-build_tools (operations_of cfg) sops;
        reached = λ name. lookup_lem (build_tools (operations_of cfg) sops) name;
      })

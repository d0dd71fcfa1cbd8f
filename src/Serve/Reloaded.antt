-- ===== src/Serve/Reloaded.antt =====
-- Which registry a server that watches its files serves.
use specmcp.Prelude.{
  String, ◌≡◌, refl, sym, subst, ap, ◌∙◌, ◌⊎◌, inl, inr, Bool, true, false, Option, List, [], ◌∷◌,
  ◌++◌, all,
}
use specmcp.Errors.Loaded.{Loaded, loaded, failed, Loaded-cases}
use specmcp.Load
use specmcp.Expose.{ToolRegistry}
use specmcp.Serve.{ServeConfig, serving, ended, run_pipeline, watch_and_reload}
use specmcp.Serve.Pipeline.{IsServed, run_pipeline-IsServed}

abbrev pub is_failed {ℓ} : {A : Type ℓ} → Loaded A → Bool
is_failed (failed c) = true
is_failed r = false

module _ (source : String) (cfg : Option ServeConfig) where
  -- No change of a list leaves a document that the pipeline takes.
  abbrev pub none_taken : List Load.Outside → Bool
  none_taken changes = all (λ outside. is_failed (run_pipeline outside source cfg)) changes

  -- The registry is that of the last change that the pipeline took.
  pub record IsCurrent (changes : List Load.Outside) (registry : ToolRegistry) : Type 1 where
    pub earlier : List Load.Outside
    pub current : Load.Outside
    pub later : List Load.Outside
    pub split : changes ≡ earlier ++ current ∷ later
    pub taken : run_pipeline current source cfg ≡ loaded registry
    pub served : IsServed current source cfg registry
    pub failed_later : none_taken later ≡ true

  abbrev pub Current : List Load.Outside → ToolRegistry → ToolRegistry → Type 1
  Current changes registry after =
      ((none_taken changes ≡ true) × (after ≡ registry)) ⊎ IsCurrent changes after

  later-IsCurrent :
      (outside : Load.Outside) (changes : List Load.Outside) (after : ToolRegistry)
      → IsCurrent changes after
      → IsCurrent (outside ∷ changes) after
  later-IsCurrent outside changes after c = record {
    earlier = outside ∷ c.earlier;
    current = c.current;
    later = c.later;
    split = ap (λ os. outside ∷ os) c.split;
    taken = c.taken;
    served = c.served;
    failed_later = c.failed_later;
  }

  ended_lem : (changes : List Load.Outside) → watch_and_reload source cfg changes ended ≡ ended
  unfolding watch_and_reload
  ended_lem [] = refl
  ended_lem (o ∷ changes) = refl

  -- However the files change, a server that still runs serves the registry that the pipeline returned
  -- at the last change that left a document which it takes, or the registry it was started with if
  -- there was none: a change at which the pipeline raises an error of the taxonomy alters nothing.
  pub watch_and_reload-Current :
      (changes : List Load.Outside) (registry after : ToolRegistry)
      → watch_and_reload source cfg changes (serving registry) ≡ serving after
      → Current changes registry after
  unfolding watch_and_reload
  watch_and_reload-Current [] registry after h = inl (refl, cc)
  watch_and_reload-Current (outside ∷ changes) registry after h =
      elim (Loaded-cases (run_pipeline outside source cfg)) [
        | inl (new, e) ↦
            elim (watch_and_reload-Current changes new after (rw (e, watch_and_reload) at h)) [
              | inl (none_later, same) ↦ inr (record {
                earlier = [];
                current = outside;
                later = changes;
                split = refl;
                taken = subst (λ r. run_pipeline outside source cfg ≡ loaded r) (sym same) e;
                served =
                    subst (IsServed outside source cfg) (sym same)
                      (run_pipeline-IsServed outside source cfg new e);
                failed_later = none_later;
              })
              | inr c ↦ inr (later-IsCurrent outside changes after c)
            ]
        | inr (inl (c, e)) ↦
            elim (watch_and_reload-Current changes registry after (rw (e, watch_and_reload) at h)) [
              | inl (none_later, same) ↦ inl (rw e none_later, same)
              | inr current ↦ inr (later-IsCurrent outside changes after current)
            ]
        | inr (inr e) ↦
            let stopped : watch_and_reload source cfg changes ended ≡ serving after =
              rw (e, watch_and_reload) at h in
            let q : ended ≡ serving after = sym (ended_lem changes) ∙ stopped in cc
      ]

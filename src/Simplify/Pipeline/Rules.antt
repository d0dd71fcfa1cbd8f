-- ===== src/Simplify/Pipeline/Rules.antt =====
-- Each rule of the pipeline keeps a schema sound.
use specmcp.Prelude.{ℕ, String, ◌≡◌, inl, inr, refl, sym, true, [], Bool-cases, ltb}
use specmcp.Prelude.Dict.{Dict}
use specmcp.Json.{obj, Fields, object, to_dict, from_dict, to_dict-from_dict}
use specmcp.Model.{Schema, Bindings}
use specmcp.Errors.Result.{Returns, Returns-ok, Returns-bind, ok_injective}
use specmcp.Normalize.Read.{as_dict}
use specmcp.Simplify.Refs.{
  lone_ref, replace_node, inline_refs, apply_inline_shallow_refs, definitions_of,
}
use specmcp.Simplify.Refs.Lost.{target_of_ref-empty}
use specmcp.Simplify.Metadata.{drop_metadata, apply_drop_spec_metadata}
use specmcp.Simplify.Unions.{apply_collapse_unions}
use specmcp.Simplify.Truncate.{cut_text, truncate_in, apply_truncate_descriptions}
use specmcp.Simplify.Pipeline.{SimplifyConfig, truncate_if}
use specmcp.Simplify.Pipeline.Entries.{
  inline_fields-all, drop_fields-all, truncate_fields-all, collapse_fields-all,
}
use specmcp.Simplify.Pipeline.Sound.{
  is_sound, sound, sound_as, union_sound, inline_bound, drop_bound, truncate_bound, cut_bound,
  collapse_bound,
}

module _ (bindings : Bindings) where
  abbrev pub IsSound : Schema → Type 0
  IsSound schema = sound bindings schema ≡ true

  inlined-IsSound :
      (usage_count : Dict ℕ) (fs : Fields)
      → IsSound (to_dict fs)
      → Returns (λ w. Returns IsSound (as_dict w)) (inline_refs [] usage_count 20 (obj fs))
  unfolding inline_refs
  inlined-IsSound usage_count fs h = Returns-bind _ _ λ t e.
      elim ((target_of_ref-empty usage_count 20 (lone_ref fs)).at t e) [
        | inr s ↦ rw (s, replace_node) (Returns-ok (object []) (Returns-ok [] refl))
        | inl n ↦
            rw (n, replace_node)
              (Returns-bind _ _ λ gs d. Returns-ok (obj gs) (
                Returns-ok (to_dict gs) (
                  (inline_fields-all (is_sound bindings) usage_count 20
                      (λ k v g. record {
                        at = λ w q.
                            sound_as bindings k v w g
                              (λ b. (inline_bound bindings usage_count 20 v b).at w q);
                      })
                      fs h).at
                    gs d)))
      ]

  pub inline-IsSound :
      (schema : Schema)
      → definitions_of schema ≡ object []
      → IsSound schema
      → Returns IsSound (apply_inline_shallow_refs schema)
  unfolding apply_inline_shallow_refs
  inline-IsSound schema none_defined h = Returns-bind _ _ λ defs e.
      let p : [] ≡ defs = ok_injective (rw none_defined at e) in
      rw (sym p) (
        Returns-bind _ _ λ usage_count _. Returns-bind _ _ λ inlined d.
          (inlined-IsSound usage_count (from_dict schema) (rw to_dict-from_dict h)).at inlined d)

  pub drop-IsSound : (schema : Schema) → IsSound schema → IsSound (apply_drop_spec_metadata schema)
  unfolding apply_drop_spec_metadata
  drop-IsSound schema h =
      drop_fields-all (is_sound bindings)
        (λ k v g. sound_as bindings k v (drop_metadata v) g (drop_bound bindings v))
        (from_dict schema) (rw to_dict-from_dict h)

  pub collapse-IsSound :
      (schema : Schema) → IsSound schema → Returns IsSound (apply_collapse_unions schema)
  unfolding apply_collapse_unions
  collapse-IsSound schema h =
      collapse_fields-all (is_sound bindings) (union_sound bindings)
        (λ k v g. record {
          at = λ w q. sound_as bindings k v w g (λ b. (collapse_bound bindings v b).at w q);
        })
        (from_dict schema) [] (rw to_dict-from_dict h) refl

  pub truncate-IsSound :
      (config : SimplifyConfig) (op_id : String) (schema : Schema)
      → IsSound schema
      → IsSound (truncate_if config op_id (schema, bindings)).0
  unfolding apply_truncate_descriptions
  truncate-IsSound config op_id schema h =
      elim (Bool-cases (ltb 0 config.truncate_description_chars)) [
        | inr off ↦ rw off h
        | inl on ↦
            let m = config.truncate_description_chars in
            rw on (
              truncate_fields-all (is_sound bindings) m
                (λ k v g. sound_as bindings k v (truncate_in m v) g (truncate_bound bindings m v))
                (λ k v g. sound_as bindings k v (cut_text m v) g (cut_bound bindings m v))
                (from_dict schema) (rw to_dict-from_dict h))
      ]

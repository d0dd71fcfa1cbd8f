-- ===== src/Simplify/Pipeline/Covered.antt =====
-- The pipeline keeps a binding for each argument of the schema.
use specmcp.Prelude.{
  String, ◌≡◌, inl, inr, refl, subst, Bool, true, false, not, ◌==◌, Option, some, List, [], ◌∷◌,
  all, elem, arith, if◌then◌else◌, Bool-cases, ltb, is_empty, elem_of_eq, elem_later,
}
use specmcp.Prelude.Dict.{Dict, keys, get, has, all_entries}
use specmcp.Json.{Json, obj, object, to_dict, from_dict, to_dict-from_dict}
use specmcp.Model.{Operation, Schema, Bindings}
use specmcp.Errors.Result.{ok, err, Returns, Returns-ok, Returns-bind, Returns-if, ok_injective}
use specmcp.Simplify.ArgumentMap.{Built, build_arguments, build_argument_map, llm_schema}
use specmcp.Simplify.ArgumentMap.Bound.{build_arguments-IsBuilt}
use specmcp.Simplify.Refs.{apply_inline_shallow_refs, definitions_of}
use specmcp.Simplify.Refs.Lost.{no_definitions}
use specmcp.Simplify.Metadata.{apply_drop_spec_metadata}
use specmcp.Simplify.Unions.{apply_collapse_unions}
use specmcp.Simplify.Pipeline.{SimplifyConfig, Simplified, truncate_if, simplify_one}
use specmcp.Simplify.Pipeline.Sound.{is_list, is_bound, all_bound}
use specmcp.Simplify.Pipeline.Rules.{
  IsSound, inline-IsSound, drop-IsSound, collapse-IsSound, truncate-IsSound,
}

all_members :
    (p : String → Bool) (ks : List String)
    → ((k : String) → elem k ks ≡ true → p k ≡ true)
    → all p ks ≡ true
all_members p [] h = refl
all_members p (k ∷ ks) h =
    rw (h k (elem_of_eq k k ks refl)) (all_members p ks (λ j g. h j (elem_later j k ks g)))

-- No schema of an argument is a list.
abbrev pub no_lists : Dict Json → Bool
no_lists = all_entries (λ k v. not (is_list v))

all-is_bound :
    (bindings : Bindings) (d : Dict Json)
    → all (λ k. has bindings k) (keys d) ≡ true
    → no_lists d ≡ true
    → all_entries (is_bound bindings) d ≡ true
all-is_bound bindings [] h g = refl
all-is_bound bindings ((k, v) ∷ d) h g = ground (arith, all-is_bound bindings d)

llm_schema-IsSound :
    (b : Built)
    → keys b.properties ≡ keys b.bindings
    → no_lists b.properties ≡ true
    → IsSound b.bindings (llm_schema b)
unfolding llm_schema
llm_schema-IsSound b same h =
    let held : all (λ k. has b.bindings k) (keys b.properties) ≡ true =
      all_members (λ k. has b.bindings k) (keys b.properties) (λ k g. rw same at g) in
    let bound : all_entries (is_bound b.bindings) (to_dict (from_dict b.properties)) ≡ true =
      rw to_dict-from_dict (all-is_bound b.bindings b.properties held h) in
    elim (Bool-cases (is_empty b.required)) [
      | inl e ↦ rw (e, bound) refl
      | inr e ↦ rw (e, bound) refl
    ]

-- No argument that `build_argument_map` makes has a list for its schema, which no document has.
abbrev pub has_no_lists : Operation → Bool
has_no_lists op = elim (build_arguments op) [ ok b ↦ no_lists b.properties | err e ↦ true ]

-- The arguments of a schema.
abbrev pub arguments_of : Option Json → List String
arguments_of (some (obj fs)) = keys (to_dict fs)
arguments_of o = []

-- What the pipeline returns has a binding for each of its arguments.
abbrev pub is_covered : Simplified → Bool
is_covered (schema, (bindings, warnings)) =
    all (λ k. has bindings k) (arguments_of (get schema "properties"))

build-IsSound :
    (op : Operation)
    → has_no_lists op ≡ true
    → Returns
        (λ (e : Schema × Bindings). IsSound e.1 e.0 × (definitions_of e.0 ≡ object []))
        (build_argument_map op)
unfolding build_argument_map
build-IsSound op h = Returns-bind _ _ λ b e.
    let same = (build_arguments-IsBuilt op b e).same_keys in
    Returns-ok (llm_schema b, b.bindings)
      (llm_schema-IsSound b same (rw (e, has_no_lists) at h), no_definitions b)

bound-keys :
    (bindings : Bindings) (d : Dict Json)
    → all_entries (is_bound bindings) d ≡ true
    → all (λ k. has bindings k) (keys d) ≡ true
bound-keys bindings [] h = refl
bound-keys bindings ((k, v) ∷ d) h = ground (arith, bound-keys bindings d)

keys-all_bound :
    (bindings : Bindings) (v : Json)
    → all_bound bindings v ≡ true
    → all (λ k. has bindings k) (arguments_of (some v)) ≡ true
keys-all_bound bindings (obj fs) h = bound-keys bindings (to_dict fs) h
keys-all_bound bindings v h = cc

covered-IsSound :
    (bindings : Bindings) (schema : Schema)
    → IsSound bindings schema
    → all (λ k. has bindings k) (arguments_of (get schema "properties")) ≡ true
unfolding get
covered-IsSound bindings [] h = refl
covered-IsSound bindings ((k, v) ∷ schema) h = elim (Bool-cases (k == "properties")) [
  | inl here ↦ rw here (keys-all_bound bindings v (ground arith))
  | inr later ↦ rw later (covered-IsSound bindings schema (ground arith))
]

module _ (op : Operation) (config : SimplifyConfig) where
  truncated-is_covered :
      (flat : Schema × Bindings)
      → IsSound flat.1 flat.0
      → is_covered (truncate_if config op.id flat) ≡ true
  truncated-is_covered (schema, bindings) h =
      elim (Bool-cases (ltb 0 config.truncate_description_chars)) [
        | inr off ↦ rw off (covered-IsSound bindings schema h)
        | inl on ↦ rw on (
            covered-IsSound bindings _ (rw on at (truncate-IsSound bindings config op.id schema h)))
      ]

  simplify_one-is_covered :
      config.flatten_single_property_wrappers ≡ false
      → has_no_lists op ≡ true
      → Returns (λ s. is_covered s ≡ true) (simplify_one op config)
  unfolding simplify_one
  simplify_one-is_covered off h = Returns-bind _ _ λ built e.
      let (start, undefined) = (build-IsSound op h).at built e in
      let bindings = built.1 in
      Returns-bind _ _ λ inlined i.
        let inlined_sound : IsSound bindings inlined =
          (Returns-if config.inline_shallow_refs (apply_inline_shallow_refs built.0) (ok built.0)
              (λ _. inline-IsSound bindings built.0 undefined start)
              (λ _. Returns-ok built.0 start)).at
            inlined i in
        let dropped =
          if config.drop_spec_metadata then apply_drop_spec_metadata inlined else inlined in
        let dropped_sound : IsSound bindings dropped = elim (Bool-cases config.drop_spec_metadata) [
          | inl on ↦ rw on (drop-IsSound bindings inlined inlined_sound)
          | inr on ↦ rw on inlined_sound
        ] in
        Returns-bind _ _ λ collapsed c.
          let collapsed_sound : IsSound bindings collapsed =
            (Returns-if config.collapse_unions (apply_collapse_unions dropped) (ok dropped)
                (λ _. collapse-IsSound bindings dropped dropped_sound)
                (λ _. Returns-ok dropped dropped_sound)).at
              collapsed c in
          Returns-bind _ _ λ flat d.
            let same : (collapsed, bindings) ≡ flat = ok_injective (rw off at d) in
            Returns-ok _ (
              subst (λ flat. is_covered (truncate_if config op.id flat) ≡ true) same
                (truncated-is_covered (collapsed, bindings) collapsed_sound))

-- With the flattening of wrappers off, each argument of the schema that the pipeline returns has a
-- binding, whatever the other passes did, when no argument is built with a list for its schema.
pub simplify_one-covered :
    (op : Operation) (config : SimplifyConfig) (s : Simplified)
    → config.flatten_single_property_wrappers ≡ false
    → has_no_lists op ≡ true
    → simplify_one op config ≡ ok s
    → is_covered s ≡ true
simplify_one-covered op config s off h e = (simplify_one-is_covered op config off h).at s e

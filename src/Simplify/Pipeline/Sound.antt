-- ===== src/Simplify/Pipeline/Sound.antt =====
-- What each rule of the pipeline keeps of the arguments of a schema.
use specmcp.Prelude.{
  ℕ, String, ◌≡◌, inl, inr, refl, Bool, true, false, not, ◌&&◌, ◌||◌, ◌==◌, [], arith, Bool-cases,
}
use specmcp.Prelude.Dict.{Dict, has, all_entries}
use specmcp.Json.{Json, null, bool, num, str, arr, obj, cons, object, to_dict, to_dict-from_dict}
use specmcp.Model.{Schema, Bindings}
use specmcp.Errors.Result.{Returns, Returns-ok, Returns-bind}
use specmcp.Simplify.Refs.{lone_ref, replace_node, inline_refs}
use specmcp.Simplify.Refs.Lost.{target_of_ref-empty}
use specmcp.Simplify.Metadata.{drop_metadata}
use specmcp.Simplify.Unions.{is_union, collapse_in}
use specmcp.Simplify.Truncate.{cut_text, truncate_in}
use specmcp.Simplify.Pipeline.Entries.{
  inline_fields-all, drop_fields-all, truncate_fields-all, collapse_fields-all,
}

abbrev pub is_list : Json → Bool
is_list (arr vs) = true
is_list v = false

-- The argument has a binding, and its schema is no list.
abbrev pub is_bound : Bindings → String → Json → Bool
is_bound bindings k v = has bindings k && not (is_list v)

abbrev pub all_bound : Bindings → Json → Bool
all_bound bindings (obj fs) = all_entries (is_bound bindings) (to_dict fs)
all_bound bindings v = false

abbrev union_key : String → Bool
union_key k = k == "oneOf" || k == "anyOf"

-- The keyword `properties` of a schema without unions of its own has bound arguments only.
abbrev pub is_sound : Bindings → String → Json → Bool
is_sound bindings k v = (not (k == "properties") || all_bound bindings v) && not (union_key k)

abbrev pub sound : Bindings → Schema → Bool
sound bindings schema = all_entries (is_sound bindings) schema

no_union_of_list : (k : String) (v : Json) → is_list v ≡ false → is_union k v ≡ false
no_union_of_list k (arr vs) h = cc
no_union_of_list k v h = refl

no_union_of_key : (k : String) (v : Json) → union_key k ≡ false → is_union k v ≡ false
no_union_of_key k (arr (cons v (cons w vs))) h = h
no_union_of_key k v h = refl

module _ (bindings : Bindings) where
  bound-list : (k : String) (v : Json) → is_bound bindings k v ≡ true → is_list v ≡ false
  bound-list k v h = ground arith

  bound_as :
      (k : String) (v w : Json)
      → is_bound bindings k v ≡ true
      → is_list w ≡ false
      → is_bound bindings k w ≡ true
  bound_as k v w h g = ground arith

  -- `w` may stand for `v` in an object whose arguments are bound.
  pub sound_as :
      (k : String) (v w : Json)
      → is_sound bindings k v ≡ true
      → (all_bound bindings v ≡ true → all_bound bindings w ≡ true)
      → is_sound bindings k w ≡ true
  sound_as k v w h f = elim (Bool-cases (k == "properties")) [
    | inl props ↦ rw props (ground (arith, f))
    | inr other ↦ rw other (ground arith)
  ]

  inline-list :
      (usage_count : Dict ℕ) (m : ℕ) (v : Json)
      → is_list v ≡ false
      → Returns (λ w. is_list w ≡ false) (inline_refs [] usage_count m v)
  unfolding inline_refs
  inline-list usage_count m (arr vs) h = cc
  inline-list usage_count m (obj fs) h = Returns-bind _ _ λ t e.
      elim ((target_of_ref-empty usage_count m (lone_ref fs)).at t e) [
        | inl n ↦ rw (n, replace_node) (Returns-bind _ _ λ gs d. Returns-ok (obj gs) refl)
        | inr s ↦ rw (s, replace_node) (Returns-ok (object []) refl)
      ]
  inline-list usage_count m v h = Returns-ok v h

  pub inline_bound :
      (usage_count : Dict ℕ) (m : ℕ) (v : Json)
      → all_bound bindings v ≡ true
      → Returns (λ w. all_bound bindings w ≡ true) (inline_refs [] usage_count m v)
  unfolding inline_refs
  inline_bound usage_count m (obj fs) h = Returns-bind _ _ λ t e.
      elim ((target_of_ref-empty usage_count m (lone_ref fs)).at t e) [
        | inr s ↦ rw (s, replace_node) (Returns-ok (object []) refl)
        | inl n ↦
            rw (n, replace_node)
              (Returns-bind _ _ λ gs d. Returns-ok (obj gs) (
                (inline_fields-all (is_bound bindings) usage_count m
                    (λ k v g. record {
                      at = λ w q.
                          bound_as k v w g
                            ((inline-list usage_count m v (bound-list k v g)).at w q);
                    })
                    fs h).at
                  gs d))
      ]
  inline_bound usage_count m v h = cc

  drop-list : (v : Json) → is_list v ≡ false → is_list (drop_metadata v) ≡ false
  unfolding drop_metadata
  drop-list (arr vs) h = cc
  drop-list null h = refl
  drop-list (bool b) h = refl
  drop-list (num t) h = refl
  drop-list (str s) h = refl
  drop-list (obj fs) h = refl

  pub drop_bound :
      (v : Json) → all_bound bindings v ≡ true → all_bound bindings (drop_metadata v) ≡ true
  unfolding drop_metadata
  drop_bound (obj fs) h =
      drop_fields-all (is_bound bindings)
        (λ k v g. bound_as k v (drop_metadata v) g (drop-list v (bound-list k v g))) fs h
  drop_bound v h = cc

  truncate-list : (m : ℕ) (v : Json) → is_list v ≡ false → is_list (truncate_in m v) ≡ false
  unfolding truncate_in
  truncate-list m (arr vs) h = cc
  truncate-list m null h = refl
  truncate-list m (bool b) h = refl
  truncate-list m (num t) h = refl
  truncate-list m (str s) h = refl
  truncate-list m (obj fs) h = refl

  cut-list : (m : ℕ) (v : Json) → is_list v ≡ false → is_list (cut_text m v) ≡ false
  cut-list m (str s) h = refl
  cut-list m v h = h

  pub cut_bound :
      (m : ℕ) (v : Json) → all_bound bindings v ≡ true → all_bound bindings (cut_text m v) ≡ true
  cut_bound m (str s) h = cc
  cut_bound m v h = h

  pub truncate_bound :
      (m : ℕ) (v : Json) → all_bound bindings v ≡ true → all_bound bindings (truncate_in m v) ≡ true
  unfolding truncate_in
  truncate_bound m (obj fs) h =
      truncate_fields-all (is_bound bindings) m
        (λ k v g. bound_as k v (truncate_in m v) g (truncate-list m v (bound-list k v g)))
        (λ k v g. bound_as k v (cut_text m v) g (cut-list m v (bound-list k v g))) fs h
  truncate_bound m v h = cc

  collapse-list : (v : Json) → is_list v ≡ false → Returns (λ w. is_list w ≡ false) (collapse_in v)
  unfolding collapse_in
  collapse-list (obj fs) h = Returns-bind _ _ λ d e. Returns-ok (object d) refl
  collapse-list (arr vs) h = cc
  collapse-list v h = Returns-ok v h

  pub collapse_bound :
      (v : Json)
      → all_bound bindings v ≡ true
      → Returns (λ w. all_bound bindings w ≡ true) (collapse_in v)
  unfolding collapse_in
  collapse_bound (obj fs) h = Returns-bind _ _ λ d e. Returns-ok (object d) (
      rw to_dict-from_dict (
        (collapse_fields-all (is_bound bindings) (λ k v g. no_union_of_list k v (bound-list k v g))
            (λ k v g. record {
              at = λ w q. bound_as k v w g ((collapse-list v (bound-list k v g)).at w q);
            })
            fs [] h refl).at
          d e))
  collapse_bound v h = cc

  pub union_sound : (k : String) (v : Json) → is_sound bindings k v ≡ true → is_union k v ≡ false
  union_sound k v h = no_union_of_key k v (ground arith)

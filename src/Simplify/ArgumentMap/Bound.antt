-- ===== src/Simplify/ArgumentMap/Bound.antt =====
-- Every parameter and every body field has one argument, with its property and its binding.
use specmcp.Prelude.{
  String, ◌≡◌, refl, ap, Bool, true, false, ◌&&◌, eq_refl, Option, none, some, List, [], ◌∷◌, ◌++◌,
  map, if◌then◌else◌, elem, elem-append, Distinct, All, All-append, arith, all,
}
use mathlib.Core.List.{append_assoc, append-nil, map-append}
use specmcp.Prelude.Dict.{Dict, keys, set, set_fresh, Distinct-set, keys-append}
use specmcp.Json.{Json, null, holds_str, object, get_or}
use specmcp.Model.{
  Parameter, Operation, RequestBody, RequestBodyVariant, TargetKind, body_field, body_root,
  ArgumentBinding, Bindings,
}
use specmcp.Errors.Result.{ok, err, Returns, Returns-ok, Returns-bind, Returns-if}
use specmcp.Simplify.UniqueKey.Fresh.{unique_key_fresh}
use specmcp.Simplify.ArgumentMap.{
  Built, target_of, add, add_parameter, add_parameters, add_field, add_fields, add_root, add_body,
  add_variants, is_object_schema, entries_of, empty_built, build_arguments,
}

-- The place of an argument in the request.
abbrev pub Target : Type 0
Target = TargetKind × List String

abbrev pub targets : Bindings → List Target
targets bindings =
    map (λ (e : String × ArgumentBinding). (e.1.target_kind, e.1.target_path)) bindings

abbrev pub IsOwnKey : String × ArgumentBinding → Type 0
IsOwnKey (k, binding) = binding.source_llm_key ≡ k

-- `b` has one argument for each target, in order.
pub record IsBuilt (b : Built) (expected : List Target) : Type 0 where
  pub same_keys : keys b.properties ≡ keys b.bindings
  pub distinct : Distinct (keys b.bindings)
  pub known : all (λ k. elem k (keys b.bindings)) b.required ≡ true
  pub complete : targets b.bindings ≡ expected
  pub own_keys : All IsOwnKey b.bindings

known-more :
    (xs ys required : List String)
    → all (λ k. elem k xs) required ≡ true
    → all (λ k. elem k (xs ++ ys)) required ≡ true
known-more xs ys [] h = refl
known-more xs ys (r ∷ required) h = ground (arith, elem-append r xs ys, known-more xs ys required)

all-append :
    (p : String → Bool) (xs ys : List String)
    → all p xs ≡ true
    → all p ys ≡ true
    → all p (xs ++ ys) ≡ true
all-append p [] ys h k = k
all-append p (x ∷ xs) ys h k = ground (arith, all-append p xs ys)

known-add :
    (ks : List String) (key : String) (needed : Bool) (required : List String)
    → all (λ k. elem k ks) required ≡ true
    → all (λ k. elem k (ks ++ key ∷ [])) (if needed then required ++ key ∷ [] else required) ≡ true
known-add ks key false required h = known-more ks (key ∷ []) required h
known-add ks key true required h =
    all-append _ required (key ∷ []) (known-more ks (key ∷ []) required h)
      (rw elem-append (ground (arith, eq_refl key)))

add-IsBuilt :
    (b : Built) (expected : List Target) (key : String) (schema : Json) (needed : Bool)
    (binding : ArgumentBinding)
    → elem key (keys b.bindings) ≡ false
    → binding.source_llm_key ≡ key
    → IsBuilt b expected
    → IsBuilt
        (add b key schema needed binding)
        (expected ++ (binding.target_kind, binding.target_path) ∷ [])
unfolding add
add-IsBuilt b expected key schema needed binding fresh own h =
    let bound : set b.bindings key binding ≡ b.bindings ++ (key, binding) ∷ [] =
      set_fresh b.bindings key binding fresh in
    let held : set b.properties key schema ≡ b.properties ++ (key, schema) ∷ [] =
      set_fresh b.properties key schema (rw h.same_keys fresh) in
    record {
      same_keys =
          rw (bound, held, keys-append, keys-append)
            (ap (λ (ks : List String). ks ++ key ∷ []) h.same_keys);
      distinct = Distinct-set b.bindings key binding h.distinct;
      known = rw (bound, keys-append) (known-add (keys b.bindings) key needed b.required h.known);
      complete =
          rw (bound, map-append)
            (ap (λ (ts : List Target). ts ++ (binding.target_kind, binding.target_path) ∷ [])
              h.complete);
      own_keys =
          rw bound (All-append IsOwnKey b.bindings ((key, binding) ∷ []) h.own_keys (own, tt));
    }

abbrev pub parameter_target : Parameter → Target
parameter_target p = (target_of p.location, p.name ∷ [])

add_parameters-IsBuilt :
    (b : Built) (expected : List Target) (ps : List Parameter)
    → IsBuilt b expected
    → IsBuilt (add_parameters b ps) (expected ++ map parameter_target ps)
unfolding add_parameters
add_parameters-IsBuilt b expected [] h = rw append-nil h
add_parameters-IsBuilt b expected (p ∷ ps) h =
    rw (append_assoc expected (parameter_target p ∷ []) (map parameter_target ps)) at (
      add_parameters-IsBuilt (add_parameter b p) (expected ++ parameter_target p ∷ []) ps (
        unfold add_parameter in
        add-IsBuilt b expected _ _ _ _ (unique_key_fresh p.name (keys b.bindings) "_query") refl h))

abbrev pub field_target : String × Json → Target
field_target (name, schema) = (body_field, name ∷ [])

add_fields-IsBuilt :
    (needed : String → Bool) (b : Built) (expected : List Target) (d : Dict Json)
    → IsBuilt b expected
    → IsBuilt (add_fields needed b d) (expected ++ map field_target d)
unfolding add_fields
add_fields-IsBuilt needed b expected [] h = rw append-nil h
add_fields-IsBuilt needed b expected ((name, schema) ∷ d) h =
    rw (append_assoc expected ((body_field, name ∷ []) ∷ []) (map field_target d)) at (
      add_fields-IsBuilt needed (add_field needed b (name, schema))
        (expected ++ (body_field, name ∷ []) ∷ []) d
        (unfold add_field in
          add-IsBuilt b expected _ _ _ _ (unique_key_fresh name (keys b.bindings) "_body") refl h))

-- The places that the operation's body has: its fields, or the whole of it.
abbrev pub variant_targets : List RequestBodyVariant → List Target
variant_targets [] = []
variant_targets (variant ∷ rest) =
    if is_object_schema variant.schema
    then elim (entries_of (get_or variant.schema "properties" null)) [
      | ok entries ↦ map field_target entries
      | err e ↦ []
    ]
    else (body_root, []) ∷ []

abbrev pub body_targets : Option RequestBody → List Target
body_targets none = []
body_targets (some body) = variant_targets body.variants

empty-IsBuilt : IsBuilt empty_built []
empty-IsBuilt = record {
  same_keys = refl;
  distinct = tt;
  known = refl;
  complete = refl;
  own_keys = tt;
}

module _ (b : Built) (expected : List Target) (h : IsBuilt b expected) where
  add_root-IsBuilt :
      (schema : Json) (needed : Bool)
      → IsBuilt (add_root b schema needed) (expected ++ (body_root, []) ∷ [])
  unfolding add_root
  add_root-IsBuilt schema needed =
      add-IsBuilt b expected _ _ _ _ (unique_key_fresh "body" (keys b.bindings) "_query") refl h

  add_variants-IsBuilt :
      (body_required : Bool) (vs : List RequestBodyVariant)
      → Returns (λ c. IsBuilt c (expected ++ variant_targets vs)) (add_variants b body_required vs)
  unfolding add_variants
  add_variants-IsBuilt body_required [] = Returns-ok b (rw append-nil h)
  add_variants-IsBuilt body_required (variant ∷ rest) =
      Returns-if (is_object_schema variant.schema) _ _
        (λ object_like. Returns-bind _ _ λ entries found. Returns-bind _ _ λ needed _.
          Returns-ok (add_fields (λ name. body_required && holds_str name needed) b entries) (
            rw (object_like, found)
              (add_fields-IsBuilt (λ name. body_required && holds_str name needed) b expected
                entries h)))
        (λ other.
          Returns-ok (add_root b (object variant.schema) body_required)
            (rw other (add_root-IsBuilt (object variant.schema) body_required)))

  add_body-IsBuilt :
      (o : Option RequestBody)
      → Returns (λ c. IsBuilt c (expected ++ body_targets o)) (add_body b o)
  unfolding add_body
  add_body-IsBuilt none = Returns-ok b (rw append-nil h)
  add_body-IsBuilt (some body) = add_variants-IsBuilt body.required body.variants

-- What `build_argument_map` gives: each parameter and each field of the body, in order, has exactly
-- one argument; its keys are distinct, its properties and its bindings have the same keys, and only
-- such keys are required.
pub build_arguments-IsBuilt :
    (op : Operation) (b : Built)
    → build_arguments op ≡ ok b
    → IsBuilt b (map parameter_target op.parameters ++ body_targets op.request_body)
unfolding build_arguments
build_arguments-IsBuilt op b h =
    let params = add_parameters empty_built op.parameters in
    (add_body-IsBuilt params (map parameter_target op.parameters)
        (add_parameters-IsBuilt empty_built [] op.parameters empty-IsBuilt) op.request_body).at
      b h

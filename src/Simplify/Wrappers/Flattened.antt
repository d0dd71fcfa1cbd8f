-- ===== src/Simplify/Wrappers/Flattened.antt =====
-- What flattening does to the arguments and their bindings.
use specmcp.Prelude.{String, ◌≡◌, ◌≢◌, sym, eq_refl, eq_false_of_ne, none, List, [], ◌∷◌, arith}
use specmcp.Json.{Json, str, object, get_or}
use specmcp.Model.{body_field, ArgumentBinding, Bindings}
use specmcp.Simplify.Wrappers.{flatten_from}

-- An object schema with one property.
abbrev pub wrapper : String → Json → Json
wrapper inner schema =
    object (("type", str "object") ∷ ("properties", object ((inner, schema) ∷ [])) ∷ [])

abbrev pub body_binding : String → List String → ArgumentBinding
body_binding key path = record {
  source_llm_key = key;
  target_kind = body_field;
  target_path = path;
  style = none;
  explode = none;
}

-- Two body fields that wrap a property of one name.
module _ (a b inner : String) (s t : Json) (differ : a ≢ b) (apart_a : a ≢ inner)
    (apart_b : b ≢ inner) where
  abbrev pub pair : Bindings
  pair = (a, body_binding a (a ∷ [])) ∷ (b, body_binding b (b ∷ [])) ∷ []

  -- Where two body fields wrap a property of one name, and no argument has that name, flattening
  -- keeps the second one's property and binding, and the first one's binding is gone.
  pub flatten_clash :
      flatten_from pair
        (record { properties = []; bindings = pair })
        ((a, wrapper inner s) ∷ (b, wrapper inner t) ∷ [])
      ≡ record {
        properties = (inner, t) ∷ [];
        bindings = (inner, body_binding inner (b ∷ inner ∷ [])) ∷ [];
      }
  unfolding flatten_from get_or
  flatten_clash = ground (
    arith,
    eq_false_of_ne a b differ,
    eq_false_of_ne a inner apart_a,
    eq_false_of_ne b inner apart_b,
    eq_false_of_ne b a (λ e. differ (sym e)),
    eq_false_of_ne inner a (λ e. apart_a (sym e)),
    eq_false_of_ne inner b (λ e. apart_b (sym e)),
    eq_refl a,
    eq_refl b,
    eq_refl inner,
  )

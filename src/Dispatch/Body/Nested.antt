-- ===== src/Dispatch/Body/Nested.antt =====
-- Reading back what was set, and what setting leaves alone.
use specmcp.Prelude.{
  String, ◌≡◌, refl, ap, ◌∙◌, Bool, true, false, not, ◌||◌, ◌==◌, eq_iff, eq_refl, Option, none,
  some, List, [], ◌∷◌, Bool-cases, inl, inr, arith,
}
use specmcp.Prelude.Dict.{Dict, get, set, get-set}
use specmcp.Json.{Json, object, to_dict-from_dict}
use specmcp.Errors.Result.{ok, ◌>>=◌, Returns, Returns-ok, Returns-err, Returns-bind}
use specmcp.Dispatch.Body.{as_inner, set_nested}

-- object[path[0]][path[1]]...
abbrev pub get_nested : Dict Json → List String → Option Json
get_nested d [] = none
get_nested d (key ∷ []) = get d key
get_nested d (key ∷ next ∷ path) = get_nested (as_inner (get d key)) (next ∷ path)

-- The paths part: neither leads on from the other.
abbrev pub parts : List String → List String → Bool
parts (k ∷ p) (j ∷ q) = not (k == j) || parts p q
parts _ _ = false

get_nested-set :
    (path : List String) (d : Dict Json) (value : Json)
    → Returns (λ e. get_nested e path ≡ some value) (set_nested d path value)
unfolding set_nested
get_nested-set [] d value = Returns-err _
get_nested-set (key ∷ []) d value = Returns-ok _ (rw (get-set, eq_refl) refl)
get_nested-set (key ∷ next ∷ path) d value = Returns-bind _ _ λ inner e.
    Returns-ok (set d key (object inner)) (
      rw (get-set, eq_refl, to_dict-from_dict)
        ((get_nested-set (next ∷ path) (as_inner (get d key)) value).at inner e))

get_nested-set_apart :
    (k j : String) (q : List String) (v : Json) (d : Dict Json)
    → (k == j) ≡ false
    → get_nested (set d k v) (j ∷ q) ≡ get_nested d (j ∷ q)
get_nested-set_apart k j [] v d h = rw (get-set, h) refl
get_nested-set_apart k j (m ∷ q) v d h = rw (get-set, h) refl

apart_of_parts : (a b : Bool) → (not a || b) ≡ true → b ≡ false → a ≡ false
apart_of_parts true b h k = ground arith
apart_of_parts false b h k = refl

get_nested-set_other :
    (path other : List String) (d : Dict Json) (value : Json)
    → parts path other ≡ true
    → Returns (λ e. get_nested e other ≡ get_nested d other) (set_nested d path value)
unfolding set_nested
get_nested-set_other [] other d value h = cc
get_nested-set_other (k ∷ p) [] d value h = cc
get_nested-set_other (k ∷ []) (j ∷ q) d value h =
    Returns-ok _ (get_nested-set_apart k j q value d (apart_of_parts (k == j) (parts [] q) h refl))
get_nested-set_other (k ∷ n ∷ p) (j ∷ []) d value h = Returns-bind _ _ λ inner e.
    Returns-ok _
      (get_nested-set_apart k j [] (object inner) d (apart_of_parts (k == j) false h refl))
get_nested-set_other (k ∷ n ∷ p) (j ∷ m ∷ q) d value h = Returns-bind _ _ λ inner e.
    Returns-ok _ (elim (Bool-cases (k == j)) [
      | inr differ ↦ get_nested-set_apart k j (m ∷ q) (object inner) d differ
      | inl same ↦
          let deeper : parts (n ∷ p) (m ∷ q) ≡ true = rw same at h in
          let here : as_inner (get (set d k (object inner)) j) ≡ inner =
            rw (get-set, same) (to_dict-from_dict inner) in
          ap (λ (i : Dict Json). get_nested i (m ∷ q)) here
          ∙ (get_nested-set_other (n ∷ p) (m ∷ q) (as_inner (get d k)) value deeper).at inner e
          ∙ ap (λ (i : String). get_nested (as_inner (get d i)) (m ∷ q)) ((eq_iff k j).0 same)
    ])

set_nested_total :
    (key : String) (path : List String) (d : Dict Json) (value : Json)
    → (e : Dict Json) × (set_nested d (key ∷ path) value ≡ ok e)
unfolding set_nested ◌>>=◌
set_nested_total key [] d value = (set d key value, refl)
set_nested_total key (next ∷ path) d value =
    let (inner, e) = set_nested_total next path (as_inner (get d key)) value in
    (set d key (object inner), rw (e, ◌>>=◌) refl)

-- Setting a value at a path that is not empty succeeds; the value is read back at that path, and
-- what is read at each path that parts from it is as it was.
pub set_nested_lem :
    (key : String) (path other : List String) (d : Dict Json) (value : Json)
    → parts (key ∷ path) other ≡ true
    → (e : Dict Json) × (set_nested d (key ∷ path) value ≡ ok e)
      × (get_nested e (key ∷ path) ≡ some value)
      × (get_nested e other ≡ get_nested d other)
set_nested_lem key path other d value h =
    let (e, done) = set_nested_total key path d value in
    (
      e,
      done,
      (get_nested-set (key ∷ path) d value).at e done,
      (get_nested-set_other (key ∷ path) other d value h).at e done,
    )

-- ===== src/Dispatch/Body.antt =====
-- `_set_nested` of runtime/dispatcher.py: one argument into the object of the request body.
pub mod Nested
use specmcp.Prelude.{String, Bool, Option, none, some, List, [], ◌∷◌}
use specmcp.Prelude.Dict.{Dict, get, set}
use specmcp.Json.{Json, null, bool, num, str, arr, obj, object, to_dict}
use specmcp.Errors.Result.{Result, ok, err, python_error, ◌>>=◌}

-- obj[key], where it is a dictionary, and else the new one
abbrev pub as_inner : Option Json → Dict Json
as_inner (some (obj fs)) = to_dict fs
as_inner o = []

-- An empty path has no last key.
unfoldable pub set_nested : Dict Json → List String → Json → Result (Dict Json)
unfolding get set
set_nested object_ [] value = err python_error
set_nested object_ (key ∷ []) value = ok (set object_ key value)
set_nested object_ (key ∷ next ∷ path) value =
    set_nested (as_inner (get object_ key)) (next ∷ path) value >>= λ inner.
    ok (set object_ key (object inner))

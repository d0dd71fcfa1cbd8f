-- ===== src/Json.antt =====
-- JSON values as the program holds them (`Any`, `dict[str, Any]`), and the operations of Python that
-- it uses on them. A number, int or float, is the text that Python prints for it.
use specmcp.Prelude.{
  String, ◌≡◌, refl, Bool, true, false, not, ◌||◌, List, [], ◌∷◌, ◌==◌, none, some, ap,
}
use specmcp.Prelude.Dict.{Dict, get}
use specmcp.Prelude.Text.{is_nil}

mutual
  pub data Json : Type 0 where
    null : Json
    bool : Bool → Json
    num : String → Json
    str : String → Json
    arr : Items → Json
    obj : Fields → Json

  pub data Items : Type 0 where
    nil : Items
    cons : Json → Items → Items

  pub data Fields : Type 0 where
    end : Fields
    field : String → Json → Fields → Fields

abbrev pub to_list : Items → List Json
to_list nil = []
to_list (cons v vs) = v ∷ to_list vs

abbrev pub from_list : List Json → Items
from_list [] = nil
from_list (v ∷ vs) = cons v (from_list vs)

abbrev pub to_dict : Fields → Dict Json
to_dict end = []
to_dict (field k v fs) = (k, v) ∷ to_dict fs

abbrev pub from_dict : Dict Json → Fields
from_dict [] = end
from_dict ((k, v) ∷ d) = field k v (from_dict d)

abbrev pub array : List Json → Json
array vs = arr (from_list vs)

abbrev pub object : Dict Json → Json
object d = obj (from_dict d)

pub to_dict-from_dict : (d : Dict Json) → to_dict (from_dict d) ≡ d
to_dict-from_dict [] = refl
to_dict-from_dict ((k, v) ∷ d) = ap (λ (e : Dict Json). (k, v) ∷ e) (to_dict-from_dict d)

pub from_dict-to_dict : (fs : Fields) → from_dict (to_dict fs) ≡ fs
from_dict-to_dict end = refl
from_dict-to_dict (field k v fs) = ap (field k v) (from_dict-to_dict fs)

pub to_list-from_list : (vs : List Json) → to_list (from_list vs) ≡ vs
to_list-from_list [] = refl
to_list-from_list (v ∷ vs) = ap (λ (l : List Json). v ∷ l) (to_list-from_list vs)

-- bool(v)
abbrev pub truthy : Json → Bool
truthy null = false
truthy (bool b) = b
truthy (num t) = not (t == "0" || t == "0.0" || t == "-0.0")
truthy (str s) = not (is_nil s)
truthy (arr nil) = false
truthy (arr (cons v vs)) = true
truthy (obj end) = false
truthy (obj (field k v fs)) = true

abbrev pub is_str : String → Json → Bool
is_str t (str s) = s == t
is_str t v = false

-- `t in values`, for a text t
abbrev pub holds_str : String → Items → Bool
holds_str t nil = false
holds_str t (cons v vs) = is_str t v || holds_str t vs

abbrev pub is_true : Json → Bool
is_true (bool b) = b
is_true v = false

-- d.get(k, default)
unfoldable pub get_or : Dict Json → String → Json → Json
get_or d k default = elim (get d k) [ none ↦ default | some v ↦ v ]

-- ===== src/Dispatch/Template.antt =====
-- `op.path.format_map(path_vars)` of runtime/dispatcher.py, and how a missing key is reported.
pub mod Filled
use Prim.Native.String
use specmcp.Prelude.{
  String, Char, code, Bool, true, false, ◌&&◌, ◌||◌, eqb, Option, none, some, if◌then◌else◌,
}
use specmcp.Prelude.Dict.{Dict, get}
use specmcp.Prelude.Text.{all_chars, is_nil}
use specmcp.Prelude.Digits.{is_digit}
use specmcp.Errors.Result.{Result, ok, err, dispatch, python_error, ◌>>=◌}

-- What a character does to the parsing of a template. `special` is one that ends the plain name of
-- a replacement field.
pub data CharKind : Type 0 where
  open_brace close_brace special plain : CharKind

abbrev pub char_kind : Char → CharKind
char_kind c =
    let n = code c in
    if eqb n b'{'
    then open_brace
    else if eqb n b'}'
    then close_brace
    else if eqb n b'.' || (eqb n b'[' || (eqb n b'!' || eqb n b':'))
    then special
    else plain

-- Where the parser is: in literal text, behind a first brace, or inside a field's name.
pub data Mode : Type 0 where
  literal opened closed : Mode
  inside : String → Mode

-- The value of a field: a KeyError is reported as DispatchError; an empty or numeric name would be
-- positional, which is a ValueError.
abbrev pub field_value : Dict String → String → Result String
field_value path_vars name =
    if all_chars is_digit name
    then err python_error
    else elim (get path_vars name) [ some v ↦ ok v | none ↦ err dispatch ]

abbrev pub snoc : String → Char → String
snoc s c = String.◌++◌ s (String.◌∷◌ c String.[])

abbrev prepend : Char → Result String → Result String
prepend c r = r >>= λ t. ok (String.◌∷◌ c t)

-- `format_rest path_vars rest` is what Python gives for a template whose rest begins inside a field
-- with an attribute, an index, a conversion, a format spec or a nested field.
module _ (format_rest : Dict String → String → Result String) where
  unfoldable pub fill : Dict String → Mode → String → Result String
  fill path_vars literal String.[] = ok ""
  fill path_vars literal (String.◌∷◌ c s) = elim (char_kind c) [
    | open_brace ↦ fill path_vars opened s
    | close_brace ↦ fill path_vars closed s
    | special ↦ prepend c (fill path_vars literal s)
    | plain ↦ prepend c (fill path_vars literal s)
  ]
  fill path_vars closed (String.◌∷◌ c s) = elim (char_kind c) [
    | close_brace ↦ prepend c (fill path_vars literal s)
    | _ ↦ err python_error
  ]
  fill path_vars opened (String.◌∷◌ c s) = elim (char_kind c) [
    | open_brace ↦ prepend c (fill path_vars literal s)
    | close_brace ↦ err python_error
    | special ↦ format_rest path_vars (String.◌∷◌ c s)
    | plain ↦ fill path_vars (inside (snoc "" c)) s
  ]
  fill path_vars (inside name) (String.◌∷◌ c s) = elim (char_kind c) [
    | open_brace ↦ format_rest path_vars (String.◌++◌ name (String.◌∷◌ c s))
    | close_brace ↦
        field_value path_vars name >>= λ v. fill path_vars literal s >>= λ t. ok (String.◌++◌ v t)
    | special ↦ format_rest path_vars (String.◌++◌ name (String.◌∷◌ c s))
    | plain ↦ fill path_vars (inside (snoc name c)) s
  ]
  fill path_vars mode String.[] = err python_error

  unfoldable pub fill_path : Dict String → String → Result String
  unfolding fill
  fill_path path_vars path = fill path_vars literal path

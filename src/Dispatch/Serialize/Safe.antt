-- ===== src/Dispatch/Serialize/Safe.antt =====
-- What a serialized path argument can do to the path.
use Prim.Native.String.{◌++◌}
use specmcp.Prelude.{
  String, Char, code, ◌≡◌, refl, Bool, true, false, ◌||◌, eqb, Option, none, some, List, [], ◌∷◌,
  arith, all,
}
use specmcp.Prelude.Text.{all_chars, all_chars-append}
use specmcp.Json.{Json, str, arr, obj, Items, nil, cons, Fields, end, field}
use specmcp.Model.{ParamStyle, simple, label, matrix, ArgumentBinding}
use specmcp.Dispatch.Quote.{quote, is_quoted, all_quoted}
use specmcp.Dispatch.Serialize.{
  map_items, map_fields, quoted, quoted_pair, py_str, path_simple, path_label, serialize_path,
}
use specmcp.Prelude.Text.{join}

-- A character of one path segment: no slash, question mark, number sign or brace.
abbrev pub is_segment_char : Char → Bool
is_segment_char c = is_quoted c || (eqb (code c) b',' || eqb (code c) b'=')

abbrev pub is_safe : String → Bool
is_safe = all_chars is_segment_char

safe_of_quoted : (s : String) → all_chars is_quoted s ≡ true → is_safe s ≡ true
safe_of_quoted Prim.Native.String.[] h = refl
safe_of_quoted (Prim.Native.String.◌∷◌ c s) h = ground (arith, safe_of_quoted s)

safe-quote : (s : String) → is_safe (quote s) ≡ true
safe-quote s = safe_of_quoted (quote s) (all_quoted s)

safe-append : (s t : String) → is_safe s ≡ true → is_safe t ≡ true → is_safe (s ++ t) ≡ true
safe-append s t h k = rw (all_chars-append is_segment_char s t, h, k) refl

safe-join :
    (sep : String) (parts : List String)
    → is_safe sep ≡ true
    → all is_safe parts ≡ true
    → is_safe (join sep parts) ≡ true
unfolding join
safe-join sep [] h k = refl
safe-join sep (s ∷ []) h k = ground arith
safe-join sep (s ∷ t ∷ ts) h k =
    let both : (is_safe s ≡ true) × (all is_safe (t ∷ ts) ≡ true) = ground arith in
    safe-append s _ both.0 (safe-append sep _ h (safe-join sep (t ∷ ts) h both.1))

-- The style is none of those that put their own delimiters into the path. A value `..` has unreserved
-- characters only, and stays as it is.
abbrev pub is_plain_style : Option ParamStyle → Bool
is_plain_style (some label) = false
is_plain_style (some matrix) = false
is_plain_style _ = true

module _ (nested_text : Json → String) where
  safe-items : (vs : Items) → all is_safe (map_items (quoted nested_text) vs) ≡ true
  safe-items nil = refl
  safe-items (cons v vs) = rw (safe-quote, safe-items vs) refl

  safe-fields :
      (sep : String) (fs : Fields)
      → is_safe sep ≡ true
      → all is_safe (map_fields (quoted_pair nested_text sep) fs) ≡ true
  safe-fields sep end h = refl
  safe-fields sep (field k v fs) h =
      let first : is_safe (quoted_pair nested_text sep k v) ≡ true =
        safe-append (quote k) _ (safe-quote k)
          (safe-append sep (quoted nested_text v) h (safe-quote (py_str nested_text v))) in
      rw (first, safe-fields sep fs h) refl

  safe-simple : (explode : Bool) (v : Json) → is_safe (path_simple nested_text explode v) ≡ true
  unfolding path_simple
  safe-simple explode (arr vs) =
      safe-join "," (map_items (quoted nested_text) vs) refl (safe-items vs)
  safe-simple true (obj fs) =
      safe-join "," (map_fields (quoted_pair nested_text "=") fs) refl (safe-fields "=" fs refl)
  safe-simple false (obj fs) =
      safe-join "," (map_fields (quoted_pair nested_text ",") fs) refl (safe-fields "," fs refl)
  safe-simple explode v = safe-quote (py_str nested_text v)

  -- Without the styles label and matrix, whatever its value, the text of a path argument has only
  -- unreserved characters, `%`, `,` and `=`: no slash, question mark, number sign or brace.
  pub serialize_path-safe :
      (value : Json) (binding : ArgumentBinding)
      → is_plain_style binding.style ≡ true
      → is_safe (serialize_path nested_text value binding) ≡ true
  unfolding serialize_path
  serialize_path-safe value binding h = go binding.style h
    where
      go :
          (style : Option ParamStyle)
          → is_plain_style style ≡ true
          → is_safe (serialize_path nested_text value (record binding { style = style })) ≡ true
      go none h = safe-simple _ value
      go (some simple) h = safe-simple _ value
      go (some label) h = cc
      go (some matrix) h = cc
      go (some style) h = safe-quote (py_str nested_text value)

  -- A text that stands as a path argument of style label is not quoted: where it has a character
  -- that no segment has, such as a slash, so has the path.
  pub serialize_path_label :
      (text : String) (binding : ArgumentBinding)
      → binding.style ≡ some label
      → is_safe text ≡ false
      → is_safe (serialize_path nested_text (str text) binding) ≡ false
  unfolding serialize_path path_label
  serialize_path_label text binding h k = rw h (rw all_chars-append (ground arith))

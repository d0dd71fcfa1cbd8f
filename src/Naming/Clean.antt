-- ===== src/Naming/Clean.antt =====
-- What a sanitized path looks like.

use specmcp.Prelude.{
  ℕ, Char, code, String, ◌≡◌, refl, Bool, true, false, not, ◌&&◌, eqb, arith, if◌then◌else◌,
  Bool-cases, inl, inr,
}
use specmcp.Prelude.Text.{is_nil, all_chars, lstrip, rstrip}
use specmcp.Naming.{
  is_underscore, starts_underscore, replace_slashes, delete_char, collapse, sanitize_path_segment,
}

-- No two underscores stand side by side.
abbrev pub no_double : String → Bool
no_double String.[] = true
no_double (String.◌∷◌ c s) = not (is_underscore c && starts_underscore s) && no_double s

abbrev pub ends_underscore : String → Bool
ends_underscore String.[] = false
ends_underscore (String.◌∷◌ c s) = if is_nil s then is_underscore c else ends_underscore s

-- Not a slash and not a brace.
abbrev pub is_plain : Char → Bool
is_plain c = not (eqb (code c) b'/') && (not (eqb (code c) b'{') && not (eqb (code c) b'}'))

pub record IsClean (s : String) : Type 0 where
  pub plain : all_chars is_plain s ≡ true
  pub single : no_double s ≡ true
  pub first : starts_underscore s ≡ false
  pub last : ends_underscore s ≡ false

abbrev not_char : ℕ → Char → Bool
not_char ch c = not (eqb (code c) ch)

not_slash-replace : (s : String) → all_chars (not_char b'/') (replace_slashes s) ≡ true
unfolding replace_slashes
not_slash-replace String.[] = refl
not_slash-replace (String.◌∷◌ c s) = elim (Bool-cases (eqb (code c) b'/')) [
  | inl slash ↦ rw slash (not_slash-replace s)
  | inr other ↦ rw (other, other) (not_slash-replace s)
]

not_char-delete : (ch : ℕ) (s : String) → all_chars (not_char ch) (delete_char ch s) ≡ true
unfolding delete_char
not_char-delete ch String.[] = refl
not_char-delete ch (String.◌∷◌ c s) = ground (arith, not_char-delete ch s)

module _ (p : Char → Bool) where
  all_chars-delete :
      (ch : ℕ) (s : String) → all_chars p s ≡ true → all_chars p (delete_char ch s) ≡ true
  unfolding delete_char
  all_chars-delete ch String.[] h = refl
  all_chars-delete ch (String.◌∷◌ c s) h = ground (arith, all_chars-delete ch s)

  all_chars-collapse : (s : String) → all_chars p s ≡ true → all_chars p (collapse s) ≡ true
  unfolding collapse
  all_chars-collapse String.[] h = refl
  all_chars-collapse (String.◌∷◌ c s) h = ground (arith, all_chars-collapse s)

  all_chars-lstrip :
      (q : Char → Bool) (s : String) → all_chars p s ≡ true → all_chars p (lstrip q s) ≡ true
  unfolding lstrip
  all_chars-lstrip q String.[] h = refl
  all_chars-lstrip q (String.◌∷◌ c s) h = ground (arith, all_chars-lstrip q s)

  all_chars-rstrip :
      (q : Char → Bool) (s : String) → all_chars p s ≡ true → all_chars p (rstrip q s) ≡ true
  unfolding rstrip
  all_chars-rstrip q String.[] h = refl
  all_chars-rstrip q (String.◌∷◌ c s) h = ground (arith, all_chars-rstrip q s)

all_plain :
    (s : String)
    → all_chars (not_char b'/') s ≡ true
    → all_chars (not_char b'{') s ≡ true
    → all_chars (not_char b'}') s ≡ true
    → all_chars is_plain s ≡ true
all_plain String.[] h k l = refl
all_plain (String.◌∷◌ c s) h k l = ground (arith, all_plain s)

no_double-collapse : (s : String) → no_double (collapse s) ≡ true
unfolding collapse
no_double-collapse String.[] = refl
no_double-collapse (String.◌∷◌ c s) = ground (arith, no_double-collapse s)

no_double-lstrip : (s : String) → no_double s ≡ true → no_double (lstrip is_underscore s) ≡ true
unfolding lstrip
no_double-lstrip String.[] h = refl
no_double-lstrip (String.◌∷◌ c s) h = ground (arith, no_double-lstrip s)

starts-lstrip : (s : String) → starts_underscore (lstrip is_underscore s) ≡ false
unfolding lstrip
starts-lstrip String.[] = refl
starts-lstrip (String.◌∷◌ c s) = ground (arith, starts-lstrip s)

-- Stripping on the right keeps a first character that is no underscore.
starts-rstrip :
    (s : String) → starts_underscore s ≡ false → starts_underscore (rstrip is_underscore s) ≡ false
unfolding rstrip
starts-rstrip String.[] h = refl
starts-rstrip (String.◌∷◌ c s) h = ground arith

no_double-rstrip : (s : String) → no_double s ≡ true → no_double (rstrip is_underscore s) ≡ true
unfolding rstrip
no_double-rstrip String.[] h = refl
no_double-rstrip (String.◌∷◌ c s) h = ground (arith, no_double-rstrip s, starts-rstrip s)

ends-rstrip : (s : String) → ends_underscore (rstrip is_underscore s) ≡ false
unfolding rstrip
ends-rstrip String.[] = refl
ends-rstrip (String.◌∷◌ c s) = ground (arith, ends-rstrip s)

abbrev plain_part : String → String
plain_part path = delete_char b'}' (delete_char b'{' (replace_slashes path))

abbrev unstripped : String → String
unstripped path = collapse (plain_part path)

unstripped_plain : (path : String) → all_chars is_plain (unstripped path) ≡ true
unstripped_plain path =
    let s = replace_slashes path in
    let t = delete_char b'{' s in
    let u = delete_char b'}' t in
    all_chars-collapse is_plain u (
      all_plain u
        (all_chars-delete (not_char b'/') b'}' t
          (all_chars-delete (not_char b'/') b'{' s (not_slash-replace path)))
        (all_chars-delete (not_char b'{') b'}' t (not_char-delete b'{' s)) (not_char-delete b'}' t))

-- A sanitized path has no slash, no brace, no two underscores side by side, and no underscore at
-- its ends, whatever the path.
pub sanitize_path_segment-IsClean : (path : String) → IsClean (sanitize_path_segment path)
unfolding sanitize_path_segment
sanitize_path_segment-IsClean path =
    let s = unstripped path in
    let left = lstrip is_underscore s in
    record {
      plain =
          all_chars-rstrip is_plain is_underscore left
            (all_chars-lstrip is_plain is_underscore s (unstripped_plain path));
      single = no_double-rstrip left (no_double-lstrip s (no_double-collapse (plain_part path)));
      first = starts-rstrip left (starts-lstrip s);
      last = ends-rstrip left;
    }

replace_slashes_of_plain : (s : String) → all_chars is_plain s ≡ true → replace_slashes s ≡ s
unfolding replace_slashes
replace_slashes_of_plain String.[] h = refl
replace_slashes_of_plain (String.◌∷◌ c s) h = ground (arith, replace_slashes_of_plain s)

delete_char_of_absent :
    (ch : ℕ) (s : String) → all_chars (not_char ch) s ≡ true → delete_char ch s ≡ s
unfolding delete_char
delete_char_of_absent ch String.[] h = refl
delete_char_of_absent ch (String.◌∷◌ c s) h = ground (arith, delete_char_of_absent ch s)

collapse_of_single : (s : String) → no_double s ≡ true → collapse s ≡ s
unfolding collapse
collapse_of_single String.[] h = refl
collapse_of_single (String.◌∷◌ c s) h = ground (arith, collapse_of_single s)

lstrip_of_first : (s : String) → starts_underscore s ≡ false → lstrip is_underscore s ≡ s
unfolding lstrip
lstrip_of_first String.[] h = refl
lstrip_of_first (String.◌∷◌ c s) h = ground arith

rstrip_of_last : (s : String) → ends_underscore s ≡ false → rstrip is_underscore s ≡ s
unfolding rstrip
rstrip_of_last String.[] h = refl
rstrip_of_last (String.◌∷◌ c String.[]) h = ground arith
rstrip_of_last (String.◌∷◌ c (String.◌∷◌ d s)) h = ground (arith, rstrip_of_last (String.◌∷◌ d s))

not_char_of_plain :
    (s : String)
    → all_chars is_plain s ≡ true
    → (all_chars (not_char b'{') s ≡ true) × (all_chars (not_char b'}') s ≡ true)
not_char_of_plain String.[] h = (refl, refl)
not_char_of_plain (String.◌∷◌ c s) h = ground (arith, not_char_of_plain s)

-- A clean text is its own sanitized form, so sanitizing twice changes nothing.
pub sanitize_path_segment_of_IsClean : (s : String) → IsClean s → sanitize_path_segment s ≡ s
unfolding sanitize_path_segment
sanitize_path_segment_of_IsClean s clean =
    let (no_open, no_close) = not_char_of_plain s clean.plain in
    rw (
      replace_slashes_of_plain s clean.plain,
      delete_char_of_absent b'{' s no_open,
      delete_char_of_absent b'}' s no_close,
      collapse_of_single s clean.single,
      lstrip_of_first s clean.first,
      rstrip_of_last s clean.last,
    )

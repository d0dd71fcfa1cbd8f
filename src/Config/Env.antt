-- ===== src/Config/Env.antt =====
-- _resolve_value_from. The environment is a dictionary.
use Prim.Native.String
use text.Mathlib.TextLemmas.{cons-append, nil-append}
use specmcp.Prelude.{
  subst, String, Char, code, ◌≡◌, refl, Bool, true, false, ◌&&◌, ◌||◌, Option, none, some, eqb, leb,
  if◌then◌else◌, arith, Bool-cases, inl, inr, Option-cases,
}
use specmcp.Prelude.Dict.{Dict, get}
use specmcp.Prelude.Text.{is_nil, strip, is_space, all_chars}
use specmcp.Errors.{config_error, config_env_var_error}
use specmcp.Errors.Loaded.{Loaded, loaded, failed}

-- [A-Z_] and [A-Z0-9_]
abbrev pub is_name_start : Char → Bool
is_name_start c = (leb b'A' (code c) && leb (code c) b'Z') || eqb (code c) b'_'

abbrev pub is_name_char : Char → Bool
is_name_char c = is_name_start c || (leb b'0' (code c) && leb (code c) b'9')

abbrev pub push : Char → Option String → Option String
push c none = none
push c (some s) = some (String.◌∷◌ c s)

-- [A-Z0-9_]*\)$
unfoldable pub name_rest : String → Option String
name_rest String.[] = none
name_rest (String.◌∷◌ c s) =
    let rest = push c (name_rest s) in
    if is_name_char c then rest else if eqb (code c) b')' && is_nil s then some String.[] else none

unfoldable pub name_first : String → Option String
unfolding name_rest
name_first String.[] = none
name_first (String.◌∷◌ c s) = if is_name_start c then push c (name_rest s) else none

-- What is behind a prefix.
unfoldable pub after_prefix : String → String → Option String
after_prefix s String.[] = some s
after_prefix String.[] (String.◌∷◌ d t) = none
after_prefix (String.◌∷◌ c s) (String.◌∷◌ d t) =
    let rest = after_prefix s t in if eqb (code c) (code d) then rest else none

abbrev then_name : Option String → Option String
then_name none = none
then_name (some s) = name_first s

-- _ENV_VAR_RE.match on a text without outer blanks, which has no final line break: the name.
unfoldable pub match_env : String → Option String
unfolding after_prefix name_first
match_env raw = then_name (after_prefix raw "env(")

abbrev env_value : Dict String → Option String → Loaded String
env_value env none = failed config_error
env_value env (some name) = elim (get env name) [
  | none ↦ failed config_env_var_error
  | some value ↦ loaded value
]

unfoldable pub resolve_value_from : Dict String → String → Loaded String
unfolding match_env strip get
resolve_value_from env raw = env_value env (match_env (strip is_space raw))

-- A name that can stand in env(…).
abbrev pub is_env_name : String → Bool
is_env_name String.[] = false
is_env_name (String.◌∷◌ c s) = is_name_start c && all_chars is_name_char s

name_rest-append :
    (s : String) → all_chars is_name_char s ≡ true → name_rest (String.◌++◌ s ")") ≡ some s
unfolding name_rest
name_rest-append String.[] h = refl
name_rest-append (String.◌∷◌ c s) h = elim (Bool-cases (is_name_char c)) [
  | inl good ↦ rw cons-append (rw good (rw (name_rest-append s (rw good at h)) refl))
  | inr bad ↦ cc (rw bad at h)
]

after_prefix-append : (t s : String) → after_prefix (String.◌++◌ t s) t ≡ some s
unfolding after_prefix
after_prefix-append String.[] s = rw nil-append refl
after_prefix-append (String.◌∷◌ c t) s = rw cons-append (ground (arith, after_prefix-append t s))

pub match_env_name :
    (name : String)
    → is_env_name name ≡ true
    → match_env (String.◌++◌ "env(" (String.◌++◌ name ")")) ≡ some name
unfolding match_env name_first
match_env_name String.[] h = cc
match_env_name (String.◌∷◌ c s) h = elim (Bool-cases (is_name_start c)) [
  | inl good ↦
      rw (after_prefix-append "env(" (String.◌++◌ (String.◌∷◌ c s) ")"))
        (rw cons-append (rw good (rw (name_rest-append s (rw good at h)) refl)))
  | inr bad ↦ cc (rw bad at h)
]

is_name_rest : (s name : String) → name_rest s ≡ some name → all_chars is_name_char name ≡ true
unfolding name_rest
is_name_rest String.[] name h = cc
is_name_rest (String.◌∷◌ c s) name h = elim (Bool-cases (is_name_char c)) [
  | inl good ↦
      let h1 : push c (name_rest s) ≡ some name = rw good at h in
      elim (Option-cases (name_rest s)) [
        | inl bad ↦ cc (rw bad at h1)
        | inr (rest, found) ↦
            let h2 : some (String.◌∷◌ c rest) ≡ some name = rw found at h1 in
            let e : String.◌∷◌ c rest ≡ name = cc in
            subst (λ n. all_chars is_name_char n ≡ true) e
              (rw (good, is_name_rest s rest found) refl)
      ]
  | inr bad ↦ elim (Bool-cases (eqb (code c) b')' && is_nil s)) [
    | inl last ↦
        let h1 : some String.[] ≡ some name = rw (bad, last) at h in
        let e : String.[] ≡ name = cc in subst (λ n. all_chars is_name_char n ≡ true) e refl
    | inr other ↦ cc (rw (bad, other) at h)
  ]
]

is_name_first : (s name : String) → name_first s ≡ some name → is_env_name name ≡ true
unfolding name_first
is_name_first String.[] name h = cc
is_name_first (String.◌∷◌ c s) name h = elim (Bool-cases (is_name_start c)) [
  | inl good ↦
      let h1 : push c (name_rest s) ≡ some name = rw good at h in
      elim (Option-cases (name_rest s)) [
        | inl bad ↦ cc (rw bad at h1)
        | inr (rest, found) ↦
            let h2 : some (String.◌∷◌ c rest) ≡ some name = rw found at h1 in
            let e : String.◌∷◌ c rest ≡ name = cc in
            subst (λ n. is_env_name n ≡ true) e (rw (good, is_name_rest s rest found) refl)
      ]
  | inr bad ↦ cc (rw bad at h)
]

pub is_env_name-match_env :
    (raw name : String) → match_env raw ≡ some name → is_env_name name ≡ true
unfolding match_env
is_env_name-match_env raw name h = elim (Option-cases (after_prefix raw "env(")) [
  | inl bad ↦ cc (rw bad at h)
  | inr (s, found) ↦ is_name_first s name (rw found at h)
]

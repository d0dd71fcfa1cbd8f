-- ===== src/Dispatch/Template/Filled.antt =====
-- Filling a template against its reading as literal texts and variables.
use Prim.Native.String
use text.Mathlib.TextLemmas.{nil-append, cons-append, append_assoc, append-nil}
use specmcp.Prelude.{
  String, Char, code, ◌≡◌, ◌⊎◌, refl, ap, ◌∙◌, Bool, true, false, not, ◌&&◌, ◌||◌, eqb, Option,
  none, some, List, [], ◌∷◌, all, arith, inl, inr,
}
use specmcp.Prelude.Dict.{Dict, get}
use specmcp.Prelude.Text.{all_chars}
use specmcp.Prelude.Digits.{is_digit}
use specmcp.Errors.Result.{Result, ok, err, dispatch, ◌>>=◌}
use specmcp.Dispatch.Template.{
  CharKind, special, plain, char_kind, literal, opened, inside, field_value, snoc, fill, fill_path,
}

-- A piece of a path: a text as it is, or a variable.
pub data Piece : Type 0 where
  fixed variable : String → Piece

abbrev pub render : List Piece → String
render [] = ""
render (fixed s ∷ ps) = String.◌++◌ s (render ps)
render (variable name ∷ ps) = String.◌∷◌ "{" (String.◌++◌ name (String.◌∷◌ "}" (render ps)))

-- The values in place of the variables, or DispatchError for one that is missing.
abbrev pub substitute : Dict String → List Piece → Result String
substitute path_vars [] = ok ""
substitute path_vars (fixed s ∷ ps) = substitute path_vars ps >>= λ t. ok (String.◌++◌ s t)
substitute path_vars (variable name ∷ ps) = elim (get path_vars name) [
  | none ↦ err dispatch
  | some v ↦ (substitute path_vars ps >>= λ t. ok (String.◌++◌ v t))
]

abbrev pub is_brace : Char → Bool
is_brace c = eqb (code c) b'{' || eqb (code c) b'}'

abbrev pub is_plain_kind : CharKind → Bool
is_plain_kind plain = true
is_plain_kind _ = false

abbrev pub is_name_char : Char → Bool
is_name_char c = is_plain_kind (char_kind c)

-- Texts have no brace; names have plain characters, and are not empty or numeric.
abbrev pub is_plain_piece : Piece → Bool
is_plain_piece (fixed s) = all_chars (λ c. not (is_brace c)) s
is_plain_piece (variable name) = all_chars is_name_char name && not (all_chars is_digit name)

kind_plain : (k : CharKind) → is_plain_kind k ≡ true → k ≡ plain
kind_plain plain h = refl
kind_plain _ h = cc

kind_fixed : (c : Char) → is_brace c ≡ false → (char_kind c ≡ plain) ⊎ (char_kind c ≡ special)
kind_fixed c h = ground arith

prepend-bind :
    (c : Char) (s : String) (r : Result String)
    → ((r >>= λ t. ok (String.◌++◌ s t)) >>= λ t. ok (String.◌∷◌ c t))
      ≡ (r >>= λ t. ok (String.◌++◌ (String.◌∷◌ c s) t))
unfolding ◌>>=◌
prepend-bind c s (ok t) = rw cons-append refl
prepend-bind c s (err e) = refl

bind-nil : (r : Result String) → r ≡ (r >>= λ t. ok (String.◌++◌ "" t))
unfolding ◌>>=◌
bind-nil (ok t) = rw nil-append refl
bind-nil (err e) = refl

module _ (format_rest : Dict String → String → Result String) (path_vars : Dict String) where
  fill-fixed :
      (s rest : String)
      → all_chars (λ c. not (is_brace c)) s ≡ true
      → fill format_rest path_vars literal (String.◌++◌ s rest)
        ≡ (fill format_rest path_vars literal rest >>= λ t. ok (String.◌++◌ s t))
  unfolding fill
  fill-fixed String.[] rest h = rw nil-append (bind-nil (fill format_rest path_vars literal rest))
  fill-fixed (String.◌∷◌ c s) rest h =
      let here : is_brace c ≡ false = ground arith in
      let later : all_chars (λ c. not (is_brace c)) s ≡ true = ground arith in
      let next =
        ap (λ (r : Result String). r >>= λ t. ok (String.◌∷◌ c t)) (fill-fixed s rest later) in
      rw (cons-append c s rest) (elim (kind_fixed c here) [
        | inl k ↦ rw (k, fill) (next ∙ prepend-bind c s (fill format_rest path_vars literal rest))
        | inr k ↦ rw (k, fill) (next ∙ prepend-bind c s (fill format_rest path_vars literal rest))
      ])

  fill-name :
      (name s rest : String)
      → all_chars is_name_char s ≡ true
      → fill format_rest path_vars (inside name) (String.◌++◌ s rest)
        ≡ fill format_rest path_vars (inside (String.◌++◌ name s)) rest
  unfolding fill
  fill-name name String.[] rest h = rw (nil-append, append-nil) refl
  fill-name name (String.◌∷◌ c s) rest h =
      let here : is_name_char c ≡ true = ground arith in
      let later : all_chars is_name_char s ≡ true = ground arith in
      rw (cons-append c s rest, kind_plain (char_kind c) here, fill)
        (fill-name (snoc name c) s rest later
          ∙ ap (λ (n : String). fill format_rest path_vars (inside n) rest)
              (append_assoc name (String.◌∷◌ c String.[]) s
                ∙ ap (String.◌++◌ name)
                    (cons-append c String.[] s ∙ ap (String.◌∷◌ c) (nil-append s))))

  fill-variable :
      (name rest : String)
      → is_plain_piece (variable name) ≡ true
      → fill format_rest path_vars opened (String.◌++◌ name (String.◌∷◌ "}" rest)) ≡ (
          field_value path_vars name >>= λ v.
          fill format_rest path_vars literal rest >>= λ t. ok (String.◌++◌ v t))
  unfolding fill
  fill-variable String.[] rest h = cc
  fill-variable (String.◌∷◌ c s) rest h =
      let here : is_name_char c ≡ true = ground arith in
      let later : all_chars is_name_char s ≡ true = ground arith in
      rw (cons-append c s (String.◌∷◌ "}" rest), kind_plain (char_kind c) here, fill)
        (fill-name (snoc "" c) s (String.◌∷◌ "}" rest) later
          ∙ ap (λ (n : String). fill format_rest path_vars (inside n) (String.◌∷◌ "}" rest))
              (ap (λ (n : String). String.◌++◌ n s) (nil-append (String.◌∷◌ c String.[]))
                ∙ cons-append c String.[] s
                ∙ ap (String.◌∷◌ c) (nil-append s)))

  field_value-eq :
      (name : String) (k : String → Result String)
      → is_plain_piece (variable name) ≡ true
      → (field_value path_vars name >>= k)
        ≡ (elim (get path_vars name) [ none ↦ err dispatch | some v ↦ k v ])
  unfolding ◌>>=◌
  field_value-eq name k h =
      let named : all_chars is_digit name ≡ false = ground arith in
      rw (named, ◌>>=◌) (settle (get path_vars name))
    where
      settle :
          (o : Option String)
          → ((elim o [ some v ↦ ok v | none ↦ err dispatch ]) >>= k)
            ≡ (elim o [ none ↦ err dispatch | some v ↦ k v ])
      settle none = refl
      settle (some v) = refl

  -- A template of plain texts and named variables is filled as its pieces say: each variable by its
  -- value, and DispatchError where one has none.
  pub fill_path_lem :
      (ps : List Piece)
      → all is_plain_piece ps ≡ true
      → fill_path format_rest path_vars (render ps) ≡ substitute path_vars ps
  unfolding fill_path
  fill_path_lem [] h = unfold fill in refl
  fill_path_lem (fixed s ∷ ps) h =
      let here : is_plain_piece (fixed s) ≡ true = ground arith in
      let later : all is_plain_piece ps ≡ true = ground arith in
      fill-fixed s (render ps) here
      ∙ ap (λ (r : Result String). r >>= λ t. ok (String.◌++◌ s t)) (fill_path_lem ps later)
  fill_path_lem (variable name ∷ ps) h =
      let here : is_plain_piece (variable name) ≡ true = ground arith in
      let later : all is_plain_piece ps ≡ true = ground arith in
      let opens : fill format_rest path_vars literal (render (variable name ∷ ps))
          ≡ fill format_rest path_vars opened (String.◌++◌ name (String.◌∷◌ "}" (render ps))) =
        unfold fill in refl in
      opens
      ∙ fill-variable name (render ps) here
      ∙ ap
          (λ (r : Result String).
            field_value path_vars name >>= λ v. r >>= λ t. ok (String.◌++◌ v t))
          (fill_path_lem ps later)
      ∙ field_value-eq name _ here

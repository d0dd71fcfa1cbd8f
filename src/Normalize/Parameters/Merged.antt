-- ===== src/Normalize/Parameters/Merged.antt =====
-- Which raw parameters a merge keeps, and which parameters come out of it.
use specmcp.Prelude.{
  String, ◌≡◌, refl, ap, ◌∙◌, Bool, true, false, ◌&&◌, eq_iff, Option, none, some, List, [], ◌∷◌,
  All, arith, if◌then◌else◌, Bool-cases, inl, inr,
}
use specmcp.Prelude.Dict.{Dict}
use specmcp.Json.{Json}
use specmcp.Model.{ParamLocation, Parameter}
use specmcp.Errors.Result.{ok, ◌>>=◌, Returns, Returns-bind, Returns-if, Returns-ok}
use specmcp.Normalize.Read.{OpenapiVersion}
use specmcp.Normalize.Parameters.{
  is_reserved, is_header, ParamKey, param_key, same_key, Combined, put, put_all, combine,
  build_parameter, normalize_parameter, keep_some, normalize_all, merge_parameters,
}

abbrev pub find : ParamKey → Combined → Option (Dict Json)
find key [] = none
find key ((k, p) ∷ rest) = if same_key k key then some p else find key rest

-- The last parameter of a list that has the key.
abbrev pub last_with : ParamKey → List (Dict Json) → Option (Dict Json)
last_with key [] = none
last_with key (p ∷ ps) = elim (last_with key ps) [
  | some q ↦ some q
  | none ↦ if same_key (param_key p) key then some p else none
]

abbrev pub or_else : Option (Dict Json) → Option (Dict Json) → Option (Dict Json)
or_else (some p) o = some p
or_else none o = o

same_key→eq : (a b : ParamKey) → same_key a b ≡ true → a ≡ b
same_key→eq (n, l) (m, k) h = ground (arith, eq_iff n m, eq_iff l k)

same_key_join : (a b c : ParamKey) → same_key a c ≡ true → same_key b c ≡ true → same_key a b ≡ true
same_key_join (n, l) (m, k) (o, j) h g =
    ground (arith, eq_iff n o, eq_iff m o, eq_iff l j, eq_iff k j, eq_iff n m, eq_iff l k)

find-put :
    (key : ParamKey) (p : Dict Json) (c : Combined) (other : ParamKey)
    → find other (put key p c) ≡ (if same_key key other then some p else find other c)
unfolding put
find-put key p [] other = refl
find-put key p ((k, q) ∷ rest) other = elim (Bool-cases (same_key k key)) [
  | inl same ↦ rw (same, same_key→eq k key same) (ground arith)
  | inr differ ↦ rw differ (ground (arith, find-put key p rest other, same_key_join k key other))
]

find-put_all :
    (ps : List (Dict Json)) (c : Combined) (key : ParamKey)
    → find key (put_all ps c) ≡ or_else (last_with key ps) (find key c)
unfolding put_all
find-put_all [] c key = refl
find-put_all (p ∷ ps) c key =
    find-put_all ps (put (param_key p) p c) key
    ∙ ap (or_else (last_with key ps)) (find-put (param_key p) p c key)
    ∙ settle (last_with key ps) (same_key (param_key p) key)
  where
    settle :
        (o : Option (Dict Json)) (b : Bool)
        → or_else o (if b then some p else find key c)
          ≡ or_else (elim o [ some q ↦ some q | none ↦ if b then some p else none ]) (find key c)
    settle o b = ground arith

-- For each name and location the merge takes the operation's last parameter with it, and the path's
-- last one where the operation has none.
pub combine_lem :
    (path_params op_params : List (Dict Json)) (key : ParamKey)
    → find key (combine path_params op_params)
      ≡ or_else (last_with key op_params) (last_with key path_params)
unfolding combine
combine_lem path_params op_params key =
    find-put_all op_params (put_all path_params []) key
    ∙ ap (or_else (last_with key op_params))
        (find-put_all path_params [] key ∙ settle (last_with key path_params))
  where
    settle : (o : Option (Dict Json)) → or_else o none ≡ o
    settle none = refl
    settle (some p) = refl

-- A parameter that the language model may set: not a header that the dispatcher owns.
abbrev pub IsExposable : Parameter → Type 0
IsExposable p = (is_header p.location && is_reserved p.name) ≡ false

abbrev Exposable? : Option Parameter → Type 0
Exposable? none = Unit
Exposable? (some p) = IsExposable p

module _ (name : String) (location : ParamLocation) where
  abbrev IsNamed : Parameter → Type 0
  IsNamed p = (p.name ≡ name) × (p.location ≡ location)

  build_parameter-IsNamed :
      (version : OpenapiVersion) (raw : Dict Json)
      → Returns IsNamed (build_parameter version raw name location)
  unfolding build_parameter
  build_parameter-IsNamed version raw = Returns-bind _ _ λ schema _. Returns-bind _ _ λ style_raw _.
      Returns-bind _ _ λ style _. Returns-bind _ _ λ explode _. Returns-bind _ _ λ required _.
        Returns-bind _ _ λ empty _. Returns-bind _ _ λ deprecated _. Returns-ok _ (refl, refl)

  exposed :
      (version : OpenapiVersion) (raw : Dict Json)
      → (is_header location && is_reserved name) ≡ false
      → Returns Exposable? (build_parameter version raw name location >>= λ p. ok (some p))
  exposed version raw h = Returns-bind _ _ λ p built.
      let (named, located) = (build_parameter-IsNamed version raw).at p built in
      Returns-ok (some p) (rw (named, located) h)

normalize_parameter-exposable :
    (version : OpenapiVersion) (raw : Dict Json)
    → Returns Exposable? (normalize_parameter version raw)
unfolding normalize_parameter
normalize_parameter-exposable version raw = Returns-bind _ _ λ name _.
    Returns-bind _ _ λ location_raw _.
      Returns-bind _ _
        λ location _. Returns-if _ _ _ (λ _. Returns-ok none tt) (exposed name location version raw)

keep_some-IsExposable :
    (o : Option Parameter) (ps : List Parameter)
    → Exposable? o
    → All IsExposable ps
    → All IsExposable (keep_some o ps)
keep_some-IsExposable none ps e h = h
keep_some-IsExposable (some p) ps e h = (e, h)

normalize_all-IsExposable :
    (version : OpenapiVersion) (c : Combined) → Returns (All IsExposable) (normalize_all version c)
unfolding normalize_all
normalize_all-IsExposable version [] = Returns-ok [] tt
normalize_all-IsExposable version ((key, raw) ∷ rest) = Returns-bind _ _ λ o first.
    Returns-bind _ _ λ ps later. Returns-ok (keep_some o ps) (
      keep_some-IsExposable o ps ((normalize_parameter-exposable version raw).at o first)
        ((normalize_all-IsExposable version rest).at ps later))

-- No parameter that a merge gives is a header that the dispatcher owns.
pub merge_parameters-IsExposable :
    (version : OpenapiVersion) (path_params op_params : List (Dict Json)) (ps : List Parameter)
    → merge_parameters version path_params op_params ≡ ok ps
    → All IsExposable ps
unfolding merge_parameters
merge_parameters-IsExposable version path_params op_params ps h =
    (normalize_all-IsExposable version (combine path_params op_params)).at ps h

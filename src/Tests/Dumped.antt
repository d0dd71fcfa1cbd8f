-- ===== src/Tests/Dumped.antt =====
-- A stand-in for json.dumps and json.loads, as a prefix code.
use Prim.Native.Char.{code}
use specmcp.Prelude.{
  ℕ, zero, suc, ◌+◌, ◌≤◌, String, ◌≡◌, refl, ap, ◌∙◌, true, false, Option, none, some, [], ◌∷◌,
  arith,
}
use specmcp.Json.{Json, null, bool, num, str, arr, obj, Items, nil, cons, Fields, end, field}
use specmcp.Auth.State.{Bytes}
use specmcp.Prelude.{Char}
use specmcp.Tests.Codec.{to_char, to_char-code, to_letters, read_letters, from_letters-to_letters}

abbrev put_text : String → Bytes → Bytes
put_text String.[] r = 0 ∷ r
put_text (String.◌∷◌ c s) r = suc (code c) ∷ put_text s r

abbrev mutual
  put : Json → Bytes → Bytes
  put null r = 0 ∷ r
  put (bool false) r = 1 ∷ r
  put (bool true) r = 2 ∷ r
  put (num s) r = 3 ∷ put_text s r
  put (str s) r = 4 ∷ put_text s r
  put (arr vs) r = 5 ∷ put_items vs r
  put (obj fs) r = 6 ∷ put_fields fs r

  put_items : Items → Bytes → Bytes
  put_items nil r = 0 ∷ r
  put_items (cons v vs) r = 1 ∷ put v (put_items vs r)

  put_fields : Fields → Bytes → Bytes
  put_fields end r = 0 ∷ r
  put_fields (field k v fs) r = 1 ∷ put_text k (put v (put_fields fs r))

abbrev mutual
  size : Json → ℕ
  size (arr vs) = suc (size_items vs)
  size (obj fs) = suc (size_fields fs)
  size v = 1

  size_items : Items → ℕ
  size_items nil = 1
  size_items (cons v vs) = suc (size v + size_items vs)

  size_fields : Fields → ℕ
  size_fields end = 1
  size_fields (field k v fs) = suc (size v + size_fields fs)

abbrev Read : Type 0 → Type 0
Read A = Option (A × Bytes)

abbrev then_read : {A B : Type 0} → Read A → (A → Bytes → Read B) → Read B
then_read none f = none
then_read (some (a, r)) f = f a r

abbrev put_first : Option Char → Read String → Read String
put_first (some c) (some (s, r)) = some (String.◌∷◌ c s, r)
put_first c o = none

abbrev take_text : Bytes → Read String
take_text [] = none
take_text (zero ∷ r) = some (String.[], r)
take_text (suc n ∷ r) = put_first (to_char n) (take_text r)

abbrev mutual
  take : ℕ → Bytes → Read Json
  take (suc f) (zero ∷ r) = some (null, r)
  take (suc f) (suc zero ∷ r) = some (bool false, r)
  take (suc f) (suc (suc zero) ∷ r) = some (bool true, r)
  take (suc f) (suc (suc (suc zero)) ∷ r) = then_read (take_text r) (λ s q. some (num s, q))
  take (suc f) (suc (suc (suc (suc zero))) ∷ r) = then_read (take_text r) (λ s q. some (str s, q))
  take (suc f) (suc (suc (suc (suc (suc zero)))) ∷ r) =
      then_read (take_items f r) (λ vs q. some (arr vs, q))
  take (suc f) (suc (suc (suc (suc (suc (suc n))))) ∷ r) =
      then_read (take_fields f r) (λ fs q. some (obj fs, q))
  take f r = none

  take_items : ℕ → Bytes → Read Items
  take_items (suc f) (zero ∷ r) = some (nil, r)
  take_items (suc f) (suc n ∷ r) =
      then_read (take f r) (λ v q. then_read (take_items f q) (λ vs p. some (cons v vs, p)))
  take_items f r = none

  take_fields : ℕ → Bytes → Read Fields
  take_fields (suc f) (zero ∷ r) = some (end, r)
  take_fields (suc f) (suc n ∷ r) = then_read (take_text r) (λ k q.
      then_read (take f q) (λ v p. then_read (take_fields f p) (λ fs o. some (field k v fs, o))))
  take_fields f r = none

take_text-put_text : (s : String) (r : Bytes) → take_text (put_text s r) ≡ some (s, r)
take_text-put_text String.[] r = refl
take_text-put_text (String.◌∷◌ c s) r = rw (to_char-code c, take_text-put_text s r) refl

mutual
  take-put : (f : ℕ) (v : Json) (r : Bytes) → size v ≤ f → take f (put v r) ≡ some (v, r)
  take-put zero null r h = absurd (omega arith)
  take-put zero (bool b) r h = absurd (omega arith)
  take-put zero (num s) r h = absurd (omega arith)
  take-put zero (str s) r h = absurd (omega arith)
  take-put zero (arr vs) r h = absurd (omega arith)
  take-put zero (obj fs) r h = absurd (omega arith)
  take-put (suc f) null r h = refl
  take-put (suc f) (bool false) r h = refl
  take-put (suc f) (bool true) r h = refl
  take-put (suc f) (num s) r h = rw (take_text-put_text s r) refl
  take-put (suc f) (str s) r h = rw (take_text-put_text s r) refl
  take-put (suc f) (arr vs) r h = rw (take_items-put f vs r (omega arith)) refl
  take-put (suc f) (obj fs) r h = rw (take_fields-put f fs r (omega arith)) refl

  take_items-put :
      (f : ℕ) (vs : Items) (r : Bytes)
      → size_items vs ≤ f
      → take_items f (put_items vs r) ≡ some (vs, r)
  take_items-put zero nil r h = absurd (omega arith)
  take_items-put zero (cons v vs) r h = absurd (omega arith)
  take_items-put (suc f) nil r h = refl
  take_items-put (suc f) (cons v vs) r h =
      rw (take-put f v (put_items vs r) (omega arith))
        (rw (take_items-put f vs r (omega arith)) refl)

  take_fields-put :
      (f : ℕ) (fs : Fields) (r : Bytes)
      → size_fields fs ≤ f
      → take_fields f (put_fields fs r) ≡ some (fs, r)
  take_fields-put zero end r h = absurd (omega arith)
  take_fields-put zero (field k v fs) r h = absurd (omega arith)
  take_fields-put (suc f) end r h = refl
  take_fields-put (suc f) (field k v fs) r h = rw (take_text-put_text k (put v (put_fields fs r))) (
      rw (take-put f v (put_fields fs r) (omega arith))
        (rw (take_fields-put f fs r (omega arith)) refl))

pub dumps : Json → String
dumps v = to_letters (size v ∷ put v [])

abbrev value_of : Read Json → Option Json
value_of none = none
value_of (some (v, r)) = some v

abbrev read_value : Option Bytes → Option Json
read_value (some (n ∷ bs)) = value_of (take n bs)
read_value o = none

pub loads : String → Option Json
loads text = read_value (read_letters text)

pub loads-dumps : (v : Json) → loads (dumps v) ≡ some v
unfolding loads dumps
loads-dumps v =
    ap read_value (from_letters-to_letters (size v ∷ put v []))
    ∙ ap value_of (take-put (size v) v [] (omega arith))

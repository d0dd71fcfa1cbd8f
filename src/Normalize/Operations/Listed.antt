-- ===== src/Normalize/Operations/Listed.antt =====
-- Which operations come out of the Normalize stage: each candidate of the document in turn, under the
-- name that the resolution of all names gives it, is listed or left out by the filters.
use specmcp.Prelude.{
  String, ◌≡◌, refl, sym, ap, ◌∙◌, Bool, false, Option, none, some, List, [], ◌∷◌, map, arith,
  length, subst,
}
use specmcp.Model.{Operation}
use specmcp.Naming.{resolve_collisions}
use specmcp.Naming.Unique.{length-resolve_collisions}
use specmcp.Errors.Result.{
  Result, ok, ◌>>=◌, Returns, Returns-ok, Returns-bind, Returns-if, >>=-eq-ok, ok_injective,
}
use specmcp.Normalize.Read.{read_texts, read_bool, read_dict}
use specmcp.Normalize.Operations.{
  ResolvedSpec, Filters, Candidate, collect_candidates, zip_names, name_candidates, build_operation,
  normalize_candidate, keep_some, normalize_named, normalize_spec,
}
use specmcp.Normalize.Operations.Passing.{Passes, Passes-is_kept, is_kept-Passes, apart}

-- The operation that a candidate becomes under a name.
pub record IsOperationOf (c : Candidate) (name : String) (op : Operation) : Type 0 where
  pub named : op.id ≡ name
  pub method : op.method ≡ c.method
  pub path : op.path ≡ c.path
  pub tagged : read_texts c.op_dict "tags" ≡ ok op.tags
  pub marked : read_bool c.op_dict "deprecated" false ≡ ok op.deprecated

pub data AreListed (f : Filters) : List Candidate → List String → List Operation → Type 0 where
  none_left : AreListed f [] [] []
  left_out :
      (c : Candidate) (cs : List Candidate) (name : String) (names : List String)
      (ops : List Operation) (tags : List String) (deprecated : Bool)
      → read_texts c.op_dict "tags" ≡ ok tags
      → read_bool c.op_dict "deprecated" false ≡ ok deprecated
      → ¬ Passes f name tags deprecated
      → AreListed f cs names ops
      → AreListed f (c ∷ cs) (name ∷ names) ops
  listed :
      (c : Candidate) (cs : List Candidate) (name : String) (names : List String) (op : Operation)
      (ops : List Operation)
      → IsOperationOf c name op
      → Passes f name op.tags op.deprecated
      → AreListed f cs names ops
      → AreListed f (c ∷ cs) (name ∷ names) (op ∷ ops)

-- The candidates of a document, in spec order.
unfoldable pub spec_candidates : ResolvedSpec → Result (List Candidate)
spec_candidates resolved = read_dict resolved.spec "paths" >>= λ paths. collect_candidates paths

length-map : (cs : List Candidate) → length (map (λ c. c.id) cs) ≡ length cs
length-map [] = refl
length-map (c ∷ cs) = omega (arith, length-map cs)

module _ (resolved : ResolvedSpec) (f : Filters) where
  -- The fields that an operation has from its candidate.
  record Copied (c : Candidate) (name : String) (tags : List String) (deprecated : Bool)
      (op : Operation) : Type 0 where
    named : op.id ≡ name
    method : op.method ≡ c.method
    path : op.path ≡ c.path
    tagged : op.tags ≡ tags
    marked : op.deprecated ≡ deprecated

  Copied-build_operation :
      (c : Candidate) (name : String) (tags : List String) (deprecated : Bool)
      → Returns (Copied c name tags deprecated) (build_operation resolved f c name tags deprecated)
  unfolding build_operation
  Copied-build_operation c name tags deprecated = Returns-bind _ _ λ _ _. Returns-bind _ _ λ _ _.
      Returns-bind _ _ λ _ _. Returns-bind _ _ λ _ _. Returns-bind _ _ λ _ _.
        Returns-bind _ _ λ _ _. Returns-bind _ _ λ _ _. Returns-bind _ _ λ _ _.
          Returns-bind _ _ λ _ _. Returns-bind _ _ λ _ _. Returns-bind _ _ λ _ _.
            Returns-bind _ _ λ _ _. Returns-bind _ _ λ _ _. Returns-bind _ _ λ _ _.
              Returns-bind _ _ λ _ _. Returns-bind _ _ λ _ _. Returns-bind _ _ λ _ _.
                Returns-ok _ (record {
                  named = refl;
                  method = refl;
                  path = refl;
                  tagged = refl;
                  marked = refl;
                })

  -- What a candidate adds to the operations behind it.
  abbrev Added : Candidate → String → Option Operation → Type 0
  Added c name o =
      (cs : List Candidate) (names : List String) (ops : List Operation)
      → AreListed f cs names ops
      → AreListed f (c ∷ cs) (name ∷ names) (keep_some o ops)

  built-Added :
      (c : Candidate) (name : String) (tags : List String) (deprecated : Bool)
      → read_texts c.op_dict "tags" ≡ ok tags
      → read_bool c.op_dict "deprecated" false ≡ ok deprecated
      → Passes f name tags deprecated
      → (op : Operation) → Copied c name tags deprecated op
      → Added c name (some op)
  built-Added c name tags deprecated p q passes op copied cs names ops rest =
      listed c cs name names op ops
        (record {
          named = copied.named;
          method = copied.method;
          path = copied.path;
          tagged = p ∙ ap ok (sym copied.tagged);
          marked = q ∙ ap ok (sym copied.marked);
        })
        (subst (λ ts. Passes f name ts op.deprecated) (sym copied.tagged)
          (subst (λ d. Passes f name tags d) (sym copied.marked) passes))
        rest

  normalize_candidate-Added :
      (c : Candidate) (name : String)
      → Returns (Added c name) (normalize_candidate resolved f (c, name))
  unfolding normalize_candidate
  normalize_candidate-Added c name = Returns-bind _ _ λ tags p. Returns-bind _ _ λ deprecated q.
      Returns-if _ _ _
        (λ kept. Returns-bind _ _ λ op done. Returns-ok (some op) (
          built-Added c name tags deprecated p q (Passes-is_kept f name tags deprecated kept) op
            ((Copied-build_operation c name tags deprecated).at op done)))
        (λ dropped. Returns-ok none λ cs names ops rest.
          left_out c cs name names ops tags deprecated p q
            (λ passes. apart (is_kept-Passes f name tags deprecated passes) dropped) rest)

  normalize_named-AreListed :
      (cs : List Candidate) (names : List String)
      → length cs ≡ length names
      → Returns (AreListed f cs names) (normalize_named resolved f (zip_names cs names))
  unfolding normalize_named
  normalize_named-AreListed [] [] h = Returns-ok [] none_left
  normalize_named-AreListed [] (x ∷ names) h = absurd (omega arith)
  normalize_named-AreListed (c ∷ cs) [] h = absurd (omega arith)
  normalize_named-AreListed (c ∷ cs) (name ∷ names) h = Returns-bind _ _ λ o p.
      Returns-bind _ _ λ ops q. Returns-ok _ (
        (normalize_candidate-Added c name).at o p cs names ops
          ((normalize_named-AreListed cs names (omega arith)).at ops q))

  -- Of the candidates of a document that is normalized, in spec order, each is listed with its method
  -- and path and with its name resolved among all candidates, if it passes the filters under that
  -- name, and is left out otherwise; nothing else is listed.
  pub normalize_spec-AreListed :
      (candidates : List Candidate) (ops : List Operation)
      → spec_candidates resolved ≡ ok candidates
      → normalize_spec resolved f ≡ ok ops
      → AreListed f candidates (resolve_collisions (map (λ c. c.id) candidates)) ops
  unfolding normalize_spec spec_candidates name_candidates ◌>>=◌
  normalize_spec-AreListed candidates ops p h =
      let (paths, p1, h1) = >>=-eq-ok (read_dict resolved.spec "paths") _ h in
      let (found, p2, h2) = >>=-eq-ok (collect_candidates paths) _ h1 in
      let same : found ≡ candidates = ok_injective (sym p2 ∙ rw (p1, ◌>>=◌) at p) in
      let given = map (λ (c : Candidate). c.id) candidates in
      (normalize_named-AreListed candidates (resolve_collisions given)
          (sym (length-map candidates) ∙ sym (length-resolve_collisions given))).at
        ops (rw same at h2)

-- ===== src/Normalize/Operations/Distinctness.antt =====
-- When the operations of a document all have different names.
use specmcp.Prelude.{
  String, ◌≡◌, subst, inl, inr, true, List, map, elem, elem_later, Distinct, arith, Bool-cases,
}
use specmcp.Model.{Operation}
use specmcp.Naming.Unique.{NoneSuffixed, resolve_collisions-Distinct}
use specmcp.Errors.Result.{ok}
use specmcp.Normalize.Operations.{ResolvedSpec, Filters, Candidate, normalize_spec}
use specmcp.Normalize.Operations.Listed.{
  AreListed, none_left, left_out, listed, spec_candidates, normalize_spec-AreListed,
}

abbrev pub ids : List Operation → List String
ids ops = map (λ op. op.id) ops

module _ (f : Filters) where
  -- The names listed are among the resolved ones.
  elem-ids :
      {cs : List Candidate} {names : List String} {ops : List Operation} (x : String)
      → AreListed f cs names ops
      → elem x (ids ops) ≡ true
      → elem x names ≡ true
  elem-ids x none_left h = h
  elem-ids x (left_out c cs name names ops tags deprecated p q fails rest) h =
      elem_later x name names (elem-ids x rest h)
  elem-ids x (listed c cs name names op ops of passes rest) h =
      ground (arith, of.named, elem-ids x rest)

  Distinct-ids :
      {cs : List Candidate} {names : List String} {ops : List Operation}
      → AreListed f cs names ops
      → Distinct names
      → Distinct (ids ops)
  Distinct-ids none_left h = tt
  Distinct-ids (left_out c cs name names ops tags deprecated p q fails rest) (fresh, h) =
      Distinct-ids rest h
  Distinct-ids (listed c cs name names op ops of passes rest) (fresh, h) = (
    elim (Bool-cases (elem op.id (ids ops))) [
      | inr absent ↦ absent
      | inl again ↦
          let member : elem name names ≡ true =
            subst (λ i. elem i names ≡ true) of.named (elem-ids op.id rest again) in
          cc
    ],
    Distinct-ids rest h,
  )

-- Where no candidate is called like another with a suffix, no two operations have one name.
pub normalize_spec-Distinct :
    (resolved : ResolvedSpec) (f : Filters) (candidates : List Candidate) (ops : List Operation)
    → spec_candidates resolved ≡ ok candidates
    → NoneSuffixed (map (λ c. c.id) candidates)
    → normalize_spec resolved f ≡ ok ops
    → Distinct (ids ops)
normalize_spec-Distinct resolved f candidates ops p apart h =
    let given = map (λ (c : Candidate). c.id) candidates in
    Distinct-ids f (normalize_spec-AreListed resolved f candidates ops p h)
      (resolve_collisions-Distinct given apart)

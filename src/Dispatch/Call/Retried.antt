-- ===== src/Dispatch/Call/Retried.antt =====
-- How often a tool call reaches the upstream, and what the client sees of a 401.
use specmcp.Prelude.{
  ℕ, suc, ◌≤◌, String, ◌≡◌, refl, Bool, true, false, ◌&&◌, [], ◌∷◌, ◌++◌, Bool-cases, inl, inr,
}
use specmcp.Prelude.Dict.{Dict}
use specmcp.Json.{Json}
use specmcp.Errors.Result.{Result, ok, err}
use specmcp.Http.{HttpResponse}
use specmcp.Dispatch.Call.{
  injected, invalidated, sent, streamed, Trace, Outside, Traced, then_do, Draft, authed, is_401,
  inject_auth, send, second_result, send_again, recover, after_first, call_buffered,
}

-- The requests of a trace.
abbrev pub requests : Trace → ℕ
requests [] = 0
requests (sent r ∷ t) = suc (requests t)
requests (streamed r ∷ t) = suc (requests t)
requests (e ∷ t) = requests t

abbrev pub invalidations : Trace → ℕ
invalidations [] = 0
invalidations (invalidated ∷ t) = suc (invalidations t)
invalidations (e ∷ t) = invalidations t

-- Read from the first event on: every request is sent with credentials that were injected since the
-- last request and the last invalidation (`equipped`), and each but the first after an invalidation
-- that was made since the last request (`allowed`).
abbrev pub is_ordered : Bool → Bool → Trace → Bool
is_ordered allowed equipped [] = true
is_ordered allowed equipped (injected ∷ t) = is_ordered allowed true t
is_ordered allowed equipped (invalidated ∷ t) = is_ordered true false t
is_ordered allowed equipped (sent r ∷ t) = allowed && equipped && is_ordered false false t
is_ordered allowed equipped (streamed r ∷ t) = allowed && equipped && is_ordered false false t

-- At most one invalidation, at most one request more, and all in their order.
pub record IsBounded (t : Trace) : Type 0 where
  pub once : invalidations t ≤ 1
  pub matched : requests t ≤ suc (invalidations t)
  pub ordered : is_ordered true false t ≡ true

-- The result is the upstream's 401.
abbrev pub result_401 {ℓ} : {A : Type ℓ} → Result A → Bool
result_401 (ok a) = false
result_401 (err e) = is_401 e

second_not_401 :
    (outside : Outside) (r : Result HttpResponse) → result_401 (second_result outside r) ≡ false
second_not_401 outside (ok r) = refl
second_not_401 outside (err e) = elim (Bool-cases (is_401 e)) [ inl h ↦ rw h refl | inr h ↦ rw h h ]

then_do-not_401 {ℓ κ} :
    {A : Type ℓ} {B : Type κ} (t : Trace) (r : Result A) (f : Trace → A → Traced B)
    → result_401 r ≡ false
    → ((u : Trace) (a : A) → result_401 (f u a).1 ≡ false)
    → result_401 (then_do (t, r) f).1 ≡ false
unfolding then_do
then_do-not_401 t (ok a) f h k = k t a
then_do-not_401 t (err e) f h k = h

again_not_401 :
    (outside : Outside) (d : Draft) (t : Trace)
    → ((u : Trace)
        → result_401 (outside.inject u d.operation.auth d.bodies.headers d.params) ≡ false)
    → result_401 (send_again outside d t).1 ≡ false
unfolding send_again inject_auth send
again_not_401 outside d t clean =
    then_do-not_401 (t ++ injected ∷ [])
      (outside.inject t d.operation.auth d.bodies.headers d.params)
      (λ u c. (u ++ sent (authed d c) ∷ [], second_result outside (outside.request u (authed d c))))
      (clean t) λ u c. second_not_401 outside (outside.request u (authed d c))

-- Where cached tokens can always be invalidated, and getting credentials never fails with the
-- upstream's 401 itself, a call never ends in that 401: a second one is an AuthError.
pub call_buffered_not_401 :
    (outside : Outside) (d : Draft) (credentials : Dict String × Dict String) (t : Trace)
    → ((u : Trace)
        → result_401 (outside.inject u d.operation.auth d.bodies.headers d.params) ≡ false)
    → ((u : Trace) → outside.invalidate_cached_tokens u d.operation.auth ≡ true)
    → result_401 (call_buffered outside d credentials t).1 ≡ false
unfolding call_buffered send recover
call_buffered_not_401 outside d credentials t clean gone =
    go (outside.request t (authed d credentials))
  where
    u : Trace
    u = t ++ sent (authed d credentials) ∷ []

    go : (answer : Result HttpResponse) → result_401 (after_first outside d (u, answer)).1 ≡ false
    go (ok r) = refl
    go (err e) = elim (Bool-cases (is_401 e)) [
      | inr other ↦ rw (other, recover) other
      | inl refused ↦
          rw (refused, recover)
            (rw (gone u, recover) (again_not_401 outside d (u ++ invalidated ∷ []) clean))
    ]

-- ===== src/Http/Retries.antt =====
-- Which attempt gives the outcome of a request.
use specmcp.Prelude.{
  ℕ, zero, suc, ◌+◌, ◌≤◌, ◌<◌, ◌⊎◌, inl, inr, ◌≡◌, refl, sym, ap, subst, ◌∙◌, Bool, true, false,
  ◌&&◌, Option, none, some, any, eqb, arith, if◌then◌else◌, Bool-cases,
}
use specmcp.Errors.Result.{Result, ok, err}
use specmcp.Http.{
  HttpResponse, Limits, RetryConfig, is_network_error, Attempt, Outcome, parse_response, has_more,
  attempt_from, request_with_retry,
}

-- The attempt is made again if attempts are left.
abbrev pub is_retryable : RetryConfig → Attempt → Bool
is_retryable retry (ok raw) = any (eqb raw.status_code) retry.on_status
is_retryable retry (err e) = is_network_error e

abbrev pub outcome_of : Limits → Attempt → Result HttpResponse
outcome_of limits (ok raw) = parse_response limits raw
outcome_of limits (err e) = err e

-- The outcome is that of attempt n, the first from `start` on that is the last or not retryable.
pub record IsDecided (limits : Limits) (retry : RetryConfig) (send_once : ℕ → Attempt) (start : ℕ)
    (outcome : Outcome) : Type 0 where
  pub attempt : ℕ
  pub from_start : start ≤ attempt
  pub in_range : attempt < retry.attempts
  pub retried : (m : ℕ) → start ≤ m → m < attempt → is_retryable retry (send_once m) ≡ true
  pub stops : (is_retryable retry (send_once attempt) ≡ false) ⊎ (suc attempt ≡ retry.attempts)
  pub counted : outcome.0 + start ≡ suc attempt
  pub result : outcome.1 ≡ outcome_of limits (send_once attempt)

abbrev next_status : Attempt → Option ℕ → Option ℕ
next_status (ok raw) last = some raw.status_code
next_status (err e) last = last

module _ (limits : Limits) (retry : RetryConfig) (send_once : ℕ → Attempt) where
  abbrev from : ℕ → ℕ → Option ℕ → Outcome
  from = attempt_from limits retry send_once

  abbrev again : ℕ → Attempt → Bool
  again attempt o = is_retryable retry o && has_more limits retry send_once attempt

  attempt_from-step :
      (left attempt : ℕ) (last : Option ℕ) (o : Attempt)
      → send_once attempt ≡ o
      → from (suc left) attempt last ≡ (
          if again attempt o
          then (
            suc (from left (attempt + 1) (next_status o last)).0,
            (from left (attempt + 1) (next_status o last)).1,
          )
          else (1, outcome_of limits o))
  unfolding attempt_from
  attempt_from-step left attempt last (ok raw) e = rw (e, attempt_from) refl
  attempt_from-step left attempt last (err error) e = rw (e, attempt_from) refl

  retry-IsDecided :
      (attempt : ℕ) (outcome : Outcome)
      → is_retryable retry (send_once attempt) ≡ true
      → IsDecided limits retry send_once (attempt + 1) outcome
      → IsDecided limits retry send_once attempt (suc outcome.0, outcome.1)
  retry-IsDecided attempt outcome here ih = record {
    attempt = ih.attempt;
    from_start = omega (arith, ih.from_start);
    in_range = ih.in_range;
    retried = λ m least below. elim (Bool-cases (eqb attempt m)) [
      | inl same ↦
          let e : attempt ≡ m = ground arith in
          ap (λ (i : ℕ). is_retryable retry (send_once i)) (sym e) ∙ here
      | inr differ ↦ ih.retried m (ground arith) below
    ];
    stops = ih.stops;
    counted = omega (arith, ih.counted);
    result = ih.result;
  }

  stop-IsDecided :
      (left attempt : ℕ)
      → attempt + suc left ≡ retry.attempts
      → again attempt (send_once attempt) ≡ false
      → IsDecided limits retry send_once attempt (1, outcome_of limits (send_once attempt))
  stop-IsDecided left attempt h stop = record {
    attempt = attempt;
    from_start = omega arith;
    in_range = omega arith;
    retried = λ m least below. absurd (omega arith);
    stops = elim (Bool-cases (is_retryable retry (send_once attempt))) [
      | inl again_ ↦ inr (ground arith)
      | inr done ↦ inl done
    ];
    counted = omega arith;
    result = refl;
  }

  attempt_from-IsDecided :
      (left attempt : ℕ) (last : Option ℕ)
      → attempt + suc left ≡ retry.attempts
      → IsDecided limits retry send_once attempt (from (suc left) attempt last)
  attempt_from-IsDecided zero attempt last h =
      let stop : again attempt (send_once attempt) ≡ false = ground arith in
      rw (attempt_from-step zero attempt last (send_once attempt) refl)
        (rw stop (stop-IsDecided zero attempt h stop))
  attempt_from-IsDecided (suc left) attempt last h =
      rw (attempt_from-step (suc left) attempt last (send_once attempt) refl)
        (elim (Bool-cases (again attempt (send_once attempt))) [
          | inr stop ↦ rw stop (stop-IsDecided (suc left) attempt h stop)
          | inl more ↦ rw more (
              retry-IsDecided attempt
                (from (suc left) (attempt + 1) (next_status (send_once attempt) last))
                (ground arith)
                (attempt_from-IsDecided left (attempt + 1) (next_status (send_once attempt) last)
                  (omega arith)))
        ])

-- With at least one attempt allowed, a request is decided by one attempt, the first that is the last
-- one allowed or whose answer is not to be retried; that many attempts are made, and the outcome is
-- its parsed response or its error.
pub request_with_retry-IsDecided :
    (limits : Limits) (retry : RetryConfig) (send_once : ℕ → Attempt) (k : ℕ)
    → retry.attempts ≡ suc k
    → IsDecided limits retry send_once 0 (request_with_retry limits retry send_once)
unfolding request_with_retry
request_with_retry-IsDecided limits retry send_once k h =
    subst
      (λ (n : ℕ). IsDecided limits retry send_once 0 (attempt_from limits retry send_once n 0 none))
      (sym h) (attempt_from-IsDecided limits retry send_once k 0 none (omega arith))

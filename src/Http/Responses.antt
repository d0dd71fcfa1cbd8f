-- ===== src/Http/Responses.antt =====
-- What becomes of a response, by its lengths and its status.
use specmcp.Prelude.{
  ℕ, ◌≤◌, ◌<◌, ◌⊎◌, inl, inr, String, ◌≡◌, refl, sym, subst, Bool, true, false, ◌&&◌, Option, none,
  some, ltb, leb, arith, Bool-cases,
}
use specmcp.Prelude.Text.{IsFirst, take-IsFirst}
use specmcp.Errors.Result.{Result, ok, err, response_too_large, upstream_client, upstream_server}
use specmcp.Http.{HttpResponse, Limits, RawResponse, exceeds, cut_body, parse_response}

abbrev pub AnnouncedWithin : Option ℕ → ℕ → Type 0
AnnouncedWithin none limit = Unit
AnnouncedWithin (some n) limit = n ≤ limit

-- Neither the announced nor the real length is over the limit.
pub record IsWithin (limits : Limits) (raw : RawResponse) : Type 0 where
  pub announced : AnnouncedWithin raw.content_length limits.response_size_limit_bytes
  pub size : raw.body_length ≤ limits.response_size_limit_bytes

-- A text that is handed on, and its mark: a body within the text limit as it is and unmarked, and of a
-- longer one the first characters, as many as the limit, and marked.
abbrev pub IsText : Limits → RawResponse → String → Bool → Type 0
IsText limits raw text truncated =
    ((raw.body_length ≤ limits.text_truncate_bytes) × (text ≡ raw.body_text) × (truncated ≡ false))
    ⊎ ((limits.text_truncate_bytes < raw.body_length)
        × IsFirst limits.text_truncate_bytes text raw.body_text
        × (truncated ≡ true))

-- The five ways in which a response is taken.
pub data IsParsed (limits : Limits) (raw : RawResponse) : Result HttpResponse → Type 0 where
  announced_over :
      (n : ℕ)
      → raw.content_length ≡ some n
      → limits.response_size_limit_bytes < n
      → IsParsed limits raw (err (response_too_large n limits.response_size_limit_bytes))
  body_over :
      AnnouncedWithin raw.content_length limits.response_size_limit_bytes
      → limits.response_size_limit_bytes < raw.body_length
      → IsParsed limits raw
          (err (response_too_large raw.body_length limits.response_size_limit_bytes))
  client_error :
      (text : String) (truncated : Bool)
      → IsWithin limits raw
      → 400 ≤ raw.status_code
      → raw.status_code < 500
      → IsText limits raw text truncated
      → IsParsed limits raw (err (upstream_client raw.status_code text))
  server_error :
      IsWithin limits raw
      → 500 ≤ raw.status_code
      → raw.status_code < 600
      → IsParsed limits raw (err (upstream_server raw.status_code))
  handed_on :
      (r : HttpResponse)
      → IsWithin limits raw
      → (raw.status_code < 400) ⊎ (600 ≤ raw.status_code)
      → r.status_code ≡ raw.status_code
      → r.headers ≡ raw.headers
      → IsText limits raw r.body r.truncated
      → IsParsed limits raw (ok r)

AnnouncedWithin-exceeds :
    (o : Option ℕ) (limit : ℕ) → exceeds o limit ≡ false → AnnouncedWithin o limit
AnnouncedWithin-exceeds none limit h = tt
AnnouncedWithin-exceeds (some n) limit h = ground arith

exceeds-some :
    (o : Option ℕ) (limit : ℕ) → exceeds o limit ≡ true → (n : ℕ) × (o ≡ some n) × (limit < n)
exceeds-some none limit h = cc
exceeds-some (some n) limit h = (n, refl, ground arith)

cut_body-IsText :
    (limits : Limits) (raw : RawResponse)
    → IsText limits raw (cut_body limits raw) (ltb limits.text_truncate_bytes raw.body_length)
cut_body-IsText limits raw = elim (Bool-cases (ltb limits.text_truncate_bytes raw.body_length)) [
  | inl longer ↦
      rw longer (inr (ground arith, take-IsFirst limits.text_truncate_bytes raw.body_text, refl))
  | inr fits ↦ rw fits (inl (ground arith, refl, refl))
]

announced_over-eq :
    (limits : Limits) (raw : RawResponse) (n : ℕ)
    → raw.content_length ≡ some n
    → exceeds raw.content_length limits.response_size_limit_bytes ≡ true
    → parse_response limits raw ≡ err (response_too_large n limits.response_size_limit_bytes)
unfolding parse_response
announced_over-eq limits raw n announced over = rw (over, parse_response) (rw announced refl)

-- A response is refused by its announced length, then by its real one, then for a status from 400 to
-- 499 with the text of its body, or from 500 to 599 without; any other is handed on with its status,
-- its headers and its text. A body of more bytes than the text limit is cut to that many characters
-- and marked.
pub parse_response-IsParsed :
    (limits : Limits) (raw : RawResponse) → IsParsed limits raw (parse_response limits raw)
unfolding parse_response
parse_response-IsParsed limits raw =
    let limit = limits.response_size_limit_bytes in
    let status = raw.status_code in
    elim (Bool-cases (exceeds raw.content_length limit)) [
      | inl over ↦
          let (n, announced, more) = exceeds-some raw.content_length limit over in
          subst (λ r. IsParsed limits raw r) (sym (announced_over-eq limits raw n announced over))
            (announced_over n announced more)
      | inr announced ↦ elim (Bool-cases (ltb limit raw.body_length)) [
        | inl over ↦
            rw (announced, over, parse_response)
              (body_over (AnnouncedWithin-exceeds raw.content_length limit announced)
                (ground arith))
        | inr size ↦
            let within : IsWithin limits raw = record {
              announced = AnnouncedWithin-exceeds raw.content_length limit announced;
              size = ground arith;
            } in
            elim (Bool-cases (leb 400 status && ltb status 500)) [
              | inl client ↦
                  rw (announced, size, client, parse_response)
                    (client_error (cut_body limits raw)
                      (ltb limits.text_truncate_bytes raw.body_length) within (ground arith)
                      (ground arith) (cut_body-IsText limits raw))
              | inr no_client ↦ elim (Bool-cases (leb 500 status && ltb status 600)) [
                | inl server ↦
                    rw (announced, size, no_client, server, parse_response)
                      (server_error within (ground arith) (ground arith))
                | inr no_server ↦
                    rw (announced, size, no_client, no_server, parse_response)
                      (handed_on _ within (ground arith) refl refl (cut_body-IsText limits raw))
              ]
            ]
      ]
    ]

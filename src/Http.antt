-- ===== src/Http.antt =====
-- The HTTP client, src/specmcp/runtime/http_client.py: retries, the parsing of responses, and
-- server-sent events. What httpx answers to each attempt is a function of the attempt's number.
pub mod Retries
pub mod Responses
pub mod Events
use Prim.Native.String
use specmcp.Prelude.{
  ℕ, zero, suc, ◌+◌, ◌-◌, String, Char, code, Bool, true, false, not, ◌&&◌, ◌||◌, ◌==◌, Option,
  none, some, List, [], ◌∷◌, any, ltb, leb, eqb, if◌then◌else◌,
}
use specmcp.Prelude.Dict.{Dict}
use specmcp.Prelude.Text.{has_prefix, lstrip, take}
use specmcp.Errors.Result.{
  Error, transient, upstream_client, upstream_server, response_too_large, Result, ok, err,
}
use specmcp.Prelude.Text.{join}

pub record HttpResponse : Type 0 where
  pub status_code : ℕ
  pub headers : Dict String
  pub body : String
  pub truncated : Bool

-- The two limits of `DispatchConfig` that the parsing reads.
pub record Limits : Type 0 where
  pub response_size_limit_bytes : ℕ
  pub text_truncate_bytes : ℕ

-- A response of httpx. The Content-Length is `none` where it is missing or is no number; the body is
-- given by its number of bytes and its text, decoded from UTF-8 with replacement.
pub record RawResponse : Type 0 where
  pub status_code : ℕ
  pub headers : Dict String
  pub content_length : Option ℕ
  pub body_length : ℕ
  pub body_text : String

abbrev pub exceeds : Option ℕ → ℕ → Bool
exceeds none limit = false
exceeds (some n) limit = ltb limit n

abbrev length_or_zero : Option ℕ → ℕ
length_or_zero none = 0
length_or_zero (some n) = n

-- The body, cut to as many characters as the limit has bytes.
abbrev pub cut_body : Limits → RawResponse → String
cut_body limits raw =
    if ltb limits.text_truncate_bytes raw.body_length
    then take limits.text_truncate_bytes raw.body_text
    else raw.body_text

unfoldable pub parse_response : Limits → RawResponse → Result HttpResponse
unfolding take
parse_response limits raw =
    let limit = limits.response_size_limit_bytes in
    let text = cut_body limits raw in
    if exceeds raw.content_length limit
    then err (response_too_large (length_or_zero raw.content_length) limit)
    else if ltb limit raw.body_length
    then err (response_too_large raw.body_length limit)
    else if leb 400 raw.status_code && ltb raw.status_code 500
    then err (upstream_client raw.status_code text)
    else if leb 500 raw.status_code && ltb raw.status_code 600
    then err (upstream_server raw.status_code)
    else ok (record {
      status_code = raw.status_code;
      headers = raw.headers;
      body = text;
      truncated = ltb limits.text_truncate_bytes raw.body_length;
    })

-- `RetryConfig` of config.py
pub record RetryConfig : Type 0 where
  pub attempts : ℕ
  pub on_status : List ℕ

abbrev pub is_network_error : Error → Bool
is_network_error transient = true
is_network_error e = false

-- The answer of one attempt: `_send_once` raises TransientError, and nothing else of the taxonomy.
abbrev pub Attempt : Type 0
Attempt = Result RawResponse

-- Where the loop ends with no attempt left.
abbrev exhausted : Option ℕ → Error
exhausted none = transient
exhausted (some status) = upstream_server status

-- How many attempts were made, and the outcome.
abbrev pub Outcome : Type 0
Outcome = ℕ × Result HttpResponse

abbrev one_more : Outcome → Outcome
one_more (n, r) = (suc n, r)

module _ (limits : Limits) (retry : RetryConfig) (send_once : ℕ → Attempt) where
  -- `attempt < retry.attempts - 1`
  abbrev pub has_more : ℕ → Bool
  has_more attempt = ltb attempt (retry.attempts - 1)

  -- The loop, with `left` attempts to go.
  unfoldable pub attempt_from : ℕ → ℕ → Option ℕ → Outcome
  unfolding parse_response
  attempt_from zero attempt last_status = (0, err (exhausted last_status))
  attempt_from (suc left) attempt last_status = elim (send_once attempt) [
    | err e ↦
        if is_network_error e && has_more attempt
        then one_more (attempt_from left (attempt + 1) last_status)
        else (1, err e)
    | ok raw ↦
        if any (eqb raw.status_code) retry.on_status && has_more attempt
        then one_more (attempt_from left (attempt + 1) (some raw.status_code))
        else (1, parse_response limits raw)
  ]

  unfoldable pub request_with_retry : Outcome
  unfolding attempt_from
  request_with_retry = attempt_from retry.attempts 0 none

-- The number of bytes of a text in UTF-8.
abbrev char_bytes : Char → ℕ
char_bytes c =
    if ltb (code c) 128
    then 1
    else if ltb (code c) 2048
    then 2
    else if ltb (code c) 65536
    then 3
    else 4

unfoldable pub byte_length : String → ℕ
byte_length String.[] = 0
byte_length (String.◌∷◌ c s) = char_bytes c + byte_length s

abbrev drop : ℕ → String → String
drop zero s = s
drop (suc n) String.[] = String.[]
drop (suc n) (String.◌∷◌ c s) = drop n s

abbrev is_blank : Char → Bool
is_blank c = eqb (code c) 32

-- The payload of a `data:` line.
abbrev pub payload : String → String
payload line = lstrip is_blank (drop 5 line)

-- The loop over the lines: the parts that are added, and whether the limit stopped it.
unfoldable pub read_events : ℕ → ℕ → List String → List String × Bool
unfolding byte_length lstrip
read_events max_bytes total [] = ([], false)
read_events max_bytes total (line ∷ lines) =
    let event = payload line in
    let skip = not (has_prefix line "data:") in
    let next = total + byte_length event in
    let rest = read_events max_bytes (if skip then total else next) lines in
    if skip
    then rest
    else if event == "[DONE]"
    then ([], false)
    else if ltb max_bytes next
    then ([], true)
    else (event ∷ rest.0, rest.1)

unfoldable pub stream_text : ℕ → List String → String × Bool
unfolding read_events join
stream_text max_bytes lines =
    let (parts, truncated) = read_events max_bytes 0 lines in (join "\n" parts, truncated)

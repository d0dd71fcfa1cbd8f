-- ===== src/Http/Events.antt =====
-- The parts of a stream of server-sent events that are handed on.
use specmcp.Prelude.{
  ℕ, ◌+◌, ◌≤◌, String, ◌≡◌, refl, ap, Bool, false, not, ◌==◌, List, [], ◌∷◌, ◌++◌, ltb, arith,
  if◌then◌else◌, Bool-cases, inl, inr,
}
use specmcp.Prelude.Text.{has_prefix}
use specmcp.Http.{byte_length, payload, read_events}

-- The payloads of the data lines before the first terminator.
abbrev pub payloads : List String → List String
payloads [] = []
payloads (line ∷ lines) =
    let rest = payloads lines in
    if not (has_prefix line "data:")
    then rest
    else if payload line == "[DONE]"
    then []
    else payload line ∷ rest

abbrev pub total_bytes : List String → ℕ
total_bytes [] = 0
total_bytes (s ∷ ss) = byte_length s + total_bytes ss

-- The parts fit the limit, they are the first payloads, and all of them unless truncated.
pub record IsRead (max_bytes total : ℕ) (lines : List String) (read : List String × Bool)
    : Type 0 where
  pub fits : total + total_bytes read.0 ≤ max_bytes
  pub rest : List String
  pub first : payloads lines ≡ read.0 ++ rest
  pub all : read.1 ≡ false → rest ≡ []

module _ (max_bytes : ℕ) where
  read_events-IsRead :
      (total : ℕ) (lines : List String)
      → total ≤ max_bytes
      → IsRead max_bytes total lines (read_events max_bytes total lines)
  unfolding read_events
  read_events-IsRead total [] h = record {
    fits = omega arith;
    rest = [];
    first = refl;
    all = λ _. refl;
  }
  read_events-IsRead total (line ∷ lines) h = elim (Bool-cases (has_prefix line "data:")) [
    | inr other ↦
        let ih = read_events-IsRead total lines h in
        rw (other, read_events)
          (record { fits = ih.fits; rest = ih.rest; first = rw other ih.first; all = ih.all })
    | inl event ↦ elim (Bool-cases (payload line == "[DONE]")) [
      | inl done ↦
          rw (event, done, read_events)
            (record {
              fits = omega arith;
              rest = [];
              first = rw (event, done) refl;
              all = λ _. refl;
            })
      | inr more ↦ elim (Bool-cases (ltb max_bytes (total + byte_length (payload line)))) [
        | inl over ↦
            rw (event, more, over, read_events)
              (record {
                fits = omega arith;
                rest = payloads (line ∷ lines);
                first = refl;
                all = λ e. cc;
              })
        | inr within ↦
            let ih = read_events-IsRead (total + byte_length (payload line)) lines (ground arith) in
            rw (event, more, within, read_events)
              (record {
                fits = omega (arith, ih.fits);
                rest = ih.rest;
                first = rw (event, more) (ap (λ (ss : List String). payload line ∷ ss) ih.first);
                all = ih.all;
              })
      ]
    ]
  ]

-- The parts of a stream have no more bytes than the limit; they are the payloads up to some point,
-- and all payloads before the terminator unless the stream is marked as truncated.
pub read_events_lem :
    (max_bytes : ℕ) (lines : List String) → IsRead max_bytes 0 lines (read_events max_bytes 0 lines)
read_events_lem max_bytes lines = read_events-IsRead max_bytes 0 lines (omega arith)

-- ===== src/Auth/TtlCache/Table.antt =====
-- A cache without a bound on its size, which meets the laws.
use specmcp.Prelude.{
  ℕ, ◌+◌, ◌≤◌, ◌<◌, String, ◌≡◌, ◌≢◌, refl, ◌⊎◌, inl, inr, Option, none, some, [], ltb, arith, ◌==◌,
  eq_iff, eq_refl, if◌then◌else◌, Bool-cases,
}
use specmcp.Prelude.Dict.{Dict, get, set, remove, get-set, get-remove}
use specmcp.Auth.TtlCache.{TtlCache}

module _ {V : Type 0} where
  abbrev pub live : ℕ → Option (ℕ × V) → Option V
  live now none = none
  live now (some (expires, v)) = if ltb now expires then some v else none

  pub live_empty : (now : ℕ) (k : String) → live now (get [] k) ≡ none
  unfolding get
  live_empty now k = refl

  pub live_earlier :
      (o : Option (ℕ × V)) (now later : ℕ) (v : V)
      → now ≤ later
      → live later o ≡ some v
      → live now o ≡ some v
  live_earlier none now later v h e = cc
  live_earlier (some (expires, w)) now later v h e = ground arith

  pub live_inserted :
      (d : Dict (ℕ × V)) (k : String) (v : V) (ttl now later : ℕ)
      → later < now + ttl
      → live later (get (set d k (now + ttl, v)) k) ≡ some v
  live_inserted d k v ttl now later h = rw get-set (rw eq_refl (ground arith))

  pub live_insert :
      (d : Dict (ℕ × V)) (k j : String) (v w : V) (ttl now later : ℕ)
      → live later (get (set d k (now + ttl, v)) j) ≡ some w
      → ((k ≡ j) × (w ≡ v)) ⊎ ((k ≢ j) × (live later (get d j) ≡ some w))
  live_insert d k j v w ttl now later h = elim (Bool-cases (k == j)) [
    | inl same ↦
        let found : live later (some (now + ttl, v)) ≡ some w = rw same at (rw get-set at h) in
        inl ((eq_iff k j).0 same, ground arith)
    | inr differ ↦
        let found : live later (get d j) ≡ some w = rw differ at (rw get-set at h) in
        inr (λ e. cc ((eq_iff k j).1 e), found)
  ]

  pub live_pop :
      (d : Dict (ℕ × V)) (k j : String) (w : V) (later : ℕ)
      → live later (get (remove d k) j) ≡ some w
      → (k ≢ j) × (live later (get d j) ≡ some w)
  live_pop d k j w later h = elim (Bool-cases (k == j)) [
    | inl same ↦ cc (rw same at (rw get-remove at h))
    | inr differ ↦ (λ e. cc ((eq_iff k j).1 e), rw differ at (rw get-remove at h))
  ]

  abbrev pub table_cache : ℕ → TtlCache V
  table_cache ttl = record {
    State = Dict (ℕ × V);
    ttl = ttl;
    empty = [];
    peek = λ now d k. live now (get d k);
    insert = λ now k v d. set d k (now + ttl, v);
    pop = λ now k d. remove d k;
    peek_empty = λ now k. live_empty now k;
    peek_earlier = λ d k now later v. live_earlier (get d k) now later v;
    peek_inserted = λ d k v now later h. live_inserted d k v ttl now later;
    peek_insert = λ d k j v w now later h. live_insert d k j v w ttl now later;
    peek_pop = λ d k j w now later h. live_pop d k j w later;
  }

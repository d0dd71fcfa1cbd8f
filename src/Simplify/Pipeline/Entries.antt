-- ===== src/Simplify/Pipeline/Entries.antt =====
-- What each rule of the pipeline keeps of the entries of an object, entry by entry.
use specmcp.Prelude.{ℕ, String, ◌≡◌, inl, inr, refl, Bool, true, false, ◌&&◌, [], Bool-cases}
use specmcp.Prelude.Dict.{Dict, set, all_entries, all_entries-set}
use specmcp.Json.{Json, Fields, end, field, to_dict}
use specmcp.Errors.Result.{Returns, Returns-ok, Returns-bind}
use specmcp.Simplify.Refs.{inline_refs, inline_fields}
use specmcp.Simplify.Metadata.{is_dropped, drop_metadata, drop_fields}
use specmcp.Simplify.Unions.{is_union, collapse_in, collapse_fields}
use specmcp.Simplify.Truncate.{is_long, cut_text, truncate_in, truncate_fields}

and_both : (a b : Bool) → (a && b) ≡ true → (a ≡ true) × (b ≡ true)
and_both true b h = (refl, h)
and_both false b h = cc

both : (a b : Bool) → a ≡ true → b ≡ true → (a && b) ≡ true
both a b h k = rw (h, k) refl

module _ (p : String → Json → Bool) where
  abbrev pub AllFields : Fields → Type 0
  AllFields fs = all_entries p (to_dict fs) ≡ true

  pub inline_fields-all :
      (usage_count : Dict ℕ) (max_properties : ℕ)
      → ((k : String) (v : Json)
          → p k v ≡ true
          → Returns (λ w. p k w ≡ true) (inline_refs [] usage_count max_properties v))
      → (fs : Fields) → AllFields fs
      → Returns AllFields (inline_fields [] usage_count max_properties fs)
  unfolding inline_refs
  inline_fields-all usage_count max_properties step end h = Returns-ok end refl
  inline_fields-all usage_count max_properties step (field k v fs) h =
      let (first, later) = and_both (p k v) (all_entries p (to_dict fs)) h in
      Returns-bind _ _ λ w e. Returns-bind _ _ λ gs d. Returns-ok (field k w gs) (
        both (p k w) (all_entries p (to_dict gs)) ((step k v first).at w e)
          ((inline_fields-all usage_count max_properties step fs later).at gs d))

  pub drop_fields-all :
      ((k : String) (v : Json) → p k v ≡ true → p k (drop_metadata v) ≡ true)
      → (fs : Fields) → AllFields fs
      → AllFields (drop_fields fs)
  unfolding drop_metadata
  drop_fields-all step end h = refl
  drop_fields-all step (field k v fs) h =
      let (first, later) = and_both (p k v) (all_entries p (to_dict fs)) h in
      elim (Bool-cases (is_dropped k)) [
        | inl gone ↦ rw gone (drop_fields-all step fs later)
        | inr kept ↦ rw kept (both _ _ (step k v first) (drop_fields-all step fs later))
      ]

  pub truncate_fields-all :
      (m : ℕ)
      → ((k : String) (v : Json) → p k v ≡ true → p k (truncate_in m v) ≡ true)
      → ((k : String) (v : Json) → p k v ≡ true → p k (cut_text m v) ≡ true)
      → (fs : Fields) → AllFields fs
      → AllFields (truncate_fields m fs)
  unfolding truncate_in
  truncate_fields-all m step cut end h = refl
  truncate_fields-all m step cut (field k v fs) h =
      let (first, later) = and_both (p k v) (all_entries p (to_dict fs)) h in
      elim (Bool-cases (is_long m k v)) [
        | inl long ↦ rw long (both _ _ (cut k v first) (truncate_fields-all m step cut fs later))
        | inr short ↦ rw short (both _ _ (step k v first) (truncate_fields-all m step cut fs later))
      ]

  pub collapse_fields-all :
      ((k : String) (v : Json) → p k v ≡ true → is_union k v ≡ false)
      → ((k : String) (v : Json) → p k v ≡ true → Returns (λ w. p k w ≡ true) (collapse_in v))
      → (fs : Fields) (result : Dict Json) → AllFields fs
      → all_entries p result ≡ true
      → Returns (λ d. all_entries p d ≡ true) (collapse_fields fs result)
  unfolding collapse_in
  collapse_fields-all no_union step end result h r = Returns-ok result r
  collapse_fields-all no_union step (field k v fs) result h r =
      let (first, later) = and_both (p k v) (all_entries p (to_dict fs)) h in
      rw (no_union k v first) (
        Returns-bind _ _ λ w e.
          collapse_fields-all no_union step fs (set result k w) later
            (all_entries-set p result k w ((step k v first).at w e) r))

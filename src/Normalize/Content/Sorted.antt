-- ===== src/Normalize/Content/Sorted.antt =====
-- The order of the responses.
use mathlib.Core.List.{Perm, perm_middle, append-nil}
use mathlib.Core.List.Perm
use specmcp.Prelude.{◌≤◌, String, ◌≡◌, true, false, [], ◌∷◌, ◌++◌, All, arith, Bool-cases, inl, inr}
use specmcp.Prelude.Dict.{Dict}
use specmcp.Json.{Json}
use specmcp.Normalize.Content.{status_rank, key_less, insert_entry, sort_from, sort_responses}

-- No entry has a lower rank than one before it.
abbrev pub IsRanked : Dict Json → Type 0
IsRanked [] = Unit
IsRanked ((s, v) ∷ d) = All (λ entry. status_rank s ≤ status_rank entry.0) d × IsRanked d

rank-le_of_less : (s t : String) → key_less s t ≡ true → status_rank s ≤ status_rank t
unfolding key_less
rank-le_of_less s t h = ground arith

rank-le_of_not_less : (s t : String) → key_less s t ≡ false → status_rank t ≤ status_rank s
unfolding key_less
rank-le_of_not_less s t h = ground arith

module _ (s : String) where
  abbrev AllAbove : Dict Json → Type 0
  AllAbove d = All (λ entry. status_rank s ≤ status_rank entry.0) d

  above_trans :
      (t : String) (d : Dict Json)
      → status_rank s ≤ status_rank t
      → All (λ entry. status_rank t ≤ status_rank entry.0) d
      → AllAbove d
  above_trans t [] h k = tt
  above_trans t ((u, w) ∷ d) h (p, k) = (omega arith, above_trans t d h k)

  above-insert :
      (t : String) (v : Json) (d : Dict Json)
      → status_rank s ≤ status_rank t
      → AllAbove d
      → AllAbove (insert_entry (t, v) d)
  unfolding insert_entry
  above-insert t v [] h k = (h, tt)
  above-insert t v ((u, w) ∷ d) h (p, k) = elim (Bool-cases (key_less t u)) [
    | inl less ↦ rw less (h, (p, k))
    | inr more ↦ rw more (p, above-insert t v d h k)
  ]

insert-IsRanked :
    (s : String) (v : Json) (d : Dict Json) → IsRanked d → IsRanked (insert_entry (s, v) d)
unfolding insert_entry
insert-IsRanked s v [] h = (tt, tt)
insert-IsRanked s v ((t, w) ∷ d) (above, h) = elim (Bool-cases (key_less s t)) [
  | inl less ↦
      let le = rank-le_of_less s t less in rw less ((le, above_trans s t d le above), (above, h))
  | inr more ↦
      rw more (above-insert t s v d (rank-le_of_not_less s t more) above, insert-IsRanked s v d h)
]

sort_from-IsRanked : (done d : Dict Json) → IsRanked done → IsRanked (sort_from done d)
unfolding sort_from
sort_from-IsRanked done [] h = h
sort_from-IsRanked done ((s, v) ∷ d) h =
    sort_from-IsRanked (insert_entry (s, v) done) d (insert-IsRanked s v done h)

insert-perm : (e : String × Json) (d : Dict Json) → Perm (insert_entry e d) (e ∷ d)
unfolding insert_entry
insert-perm (s, v) [] = Perm.refl _
insert-perm (s, v) ((t, w) ∷ d) = elim (Bool-cases (key_less s t)) [
  | inl less ↦ rw less (Perm.refl _)
  | inr more ↦
      rw more (Perm.trans (Perm.cons (t, w) (insert-perm (s, v) d)) (Perm.swap (s, v) (t, w) d))
]

sort_from-perm : (done d : Dict Json) → Perm (sort_from done d) (d ++ done)
unfolding sort_from
sort_from-perm done [] = Perm.refl _
sort_from-perm done (e ∷ d) =
    Perm.trans (sort_from-perm (insert_entry e done) d)
      (Perm.trans (Perm.append (Perm.refl d) (insert-perm e done)) (perm_middle d done))

-- The responses keep all their entries, and come 2xx first and `default` last.
pub sort_responses_sorted :
    (d : Dict Json) → IsRanked (sort_responses d) × Perm (sort_responses d) d
unfolding sort_responses
sort_responses_sorted d = (sort_from-IsRanked [] d tt, rw append-nil at (sort_from-perm [] d))

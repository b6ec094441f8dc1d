-- ===== src/Scheduler/Selection/Sorting.antt =====
-- The sort by descending score.
use nexus_grid_grid.Prelude.{false, ◌≡◌, List, [], ◌∷◌, String, All, Bool-cases, inl, inr}
use nexus_grid_grid.Prelude.Int.{ℤ, lex_lt, lex_lt_asymm, lex_lt_neg_trans}
use nexus_grid_grid.Scheduler.Selection.{place, sort_scored}

abbrev pub Scored : Type 0
Scored = String × List ℤ

-- No later entry outranks an earlier one.
abbrev pub Descending : List Scored → Type 0
Descending [] = Unit
Descending (x ∷ xs) = All (λ y. lex_lt x.1 y.1 ≡ false) xs × Descending xs

module _ (P : Scored → Type 0) where
  All-place : (x : Scored) (xs : List Scored) → P x → All P xs → All P (place x xs)
  unfolding place
  All-place x [] p ps = (p, tt)
  All-place x (y ∷ ys) p ps = elim (Bool-cases (lex_lt x.1 y.1)) [
    | inl below ↦ rw below (ps.0, All-place x ys p ps.1)
    | inr above ↦ rw above (p, ps)
  ]

  All-unplace : (x : Scored) (xs : List Scored) → All P (place x xs) → P x × All P xs
  unfolding place
  All-unplace x [] ps = ps
  All-unplace x (y ∷ ys) ps = elim (Bool-cases (lex_lt x.1 y.1)) [
    | inl below ↦
        let tail : P y × All P (place x ys) = rw (below, place) at ps in
        let rest = All-unplace x ys tail.1 in (rest.0, (tail.0, rest.1))
    | inr above ↦ let tail : P x × (P y × All P ys) = rw (above, place) at ps in tail
  ]

  -- Sorting keeps what holds of every entry, both ways.
  pub All-sort_scored : (xs : List Scored) → All P xs → All P (sort_scored xs)
  unfolding sort_scored
  All-sort_scored [] ps = tt
  All-sort_scored (x ∷ xs) ps = All-place x (sort_scored xs) ps.0 (All-sort_scored xs ps.1)

  pub All-unsort : (xs : List Scored) → All P (sort_scored xs) → All P xs
  unfolding sort_scored
  All-unsort [] ps = tt
  All-unsort (x ∷ xs) ps =
      let parts = All-unplace x (sort_scored xs) ps in (parts.0, All-unsort xs parts.1)

below-All :
    (x y : Scored) (ys : List Scored)
    → lex_lt x.1 y.1 ≡ false
    → All (λ z. lex_lt y.1 z.1 ≡ false) ys
    → All (λ z. lex_lt x.1 z.1 ≡ false) ys
below-All x y [] h hs = tt
below-All x y (z ∷ zs) h hs = (lex_lt_neg_trans x.1 y.1 z.1 h hs.0, below-All x y zs h hs.1)

place-Descending : (x : Scored) (xs : List Scored) → Descending xs → Descending (place x xs)
unfolding place
place-Descending x [] d = (tt, tt)
place-Descending x (y ∷ ys) d = elim (Bool-cases (lex_lt x.1 y.1)) [
  | inl below ↦ rw below (
    All-place (λ z. lex_lt y.1 z.1 ≡ false) x ys (lex_lt_asymm x.1 y.1 below) d.0,
    place-Descending x ys d.1,
  )
  | inr above ↦ rw above ((above, below-All x y ys above d.0), d)
]

pub sort_scored-Descending : (xs : List Scored) → Descending (sort_scored xs)
unfolding sort_scored
sort_scored-Descending [] = tt
sort_scored-Descending (x ∷ xs) = place-Descending x (sort_scored xs) (sort_scored-Descending xs)

-- ===== src/MonteCarlo/Tests.antt =====
-- The theorems on week14 for two threads with a point each.
use systemprogramminglab.Prelude.{ℕ, ◌+◌, ◌*◌, ◌≡◌, refl, Bool, true, false, List, [], ◌∷◌, leb}
use systemprogramminglab.MonteCarlo.{
  System, locked, thread, advance, advance_at, step, Reach, here, then_step, main,
}
use systemprogramminglab.MonteCarlo.Count.{AllEnded, all_hits, count_lem}
use systemprogramminglab.MonteCarlo.Ends.{count_ends}

abbrev near : ℕ → ℕ → Bool
near x y = leb (x * x + y * y) 1

abbrev points : List (List (ℕ × ℕ))
points = ((0, 1) ∷ []) ∷ ((2, 2) ∷ []) ∷ []

entered : Reach near (main points) (record (main points) {
  mutex = true;
  threads = record { points = (0, 1) ∷ []; place = locked } ∷ thread ((2, 2) ∷ []) ∷ [];
})
unfolding step advance_at advance
entered = then_step 0 here refl

abbrev at_end : System
at_end = record { count = 1; mutex = false; threads = thread [] ∷ thread [] ∷ [] }

ended : Reach near (main points) at_end
unfolding step advance_at advance
ended = then_step 1 (then_step 0 (then_step 0 (then_step 0 entered refl) refl) refl) refl

count_lem_example : 1 ≡ all_hits near points
count_lem_example = count_lem near points at_end ended ((refl, refl), ((refl, refl), tt))

count_ends_example :
    (t : System) × Reach near at_end t × AllEnded near t.threads × (t.count ≡ all_hits near points)
count_ends_example = count_ends near points at_end ended

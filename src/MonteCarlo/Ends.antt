-- ===== src/MonteCarlo/Ends.antt =====
-- The threads end.
use systemprogramminglab.Prelude.{
  ℕ, zero, suc, ◌+◌, ◌*◌, ◌<◌, ◌≤◌, ◌≡◌, ◌⊎◌, refl, subst, Bool, true, false, some, List, [], ◌∷◌,
  arith, Bool-cases, inl, inr, length,
}
use systemprogramminglab.MonteCarlo.{
  Place, outside, locked, loaded, stored, Thread, System, advance, advance_at, step, Reach, here,
  then_step, main,
}
use systemprogramminglab.MonteCarlo.Count.{
  InSection, Quiet, Held, Excludes, Then, Keeps, Reach-Keeps, main-Quiet, step-Keeps, AllEnded,
  all_hits, count_lem,
}

-- Falls at every step of a thread.
unfoldable place_weight : Place → ℕ
place_weight outside = 3
place_weight locked = 2
place_weight (loaded n) = 1
place_weight stored = 0

abbrev weight : List (ℕ × ℕ) → Place → ℕ
weight points place = length points * 4 + place_weight place

unfoldable all_weight : List Thread → ℕ
all_weight [] = 0
all_weight (t ∷ ts) = weight t.points t.place + all_weight ts

module _ (hit : ℕ → ℕ → Bool) where
  inside_less :
      (count : ℕ) (points : List (ℕ × ℕ)) (place : Place)
      → InSection hit count points place
      → (r : Thread × ℕ × Bool) × (advance hit count true points place ≡ some r)
        × (weight r.0.points r.0.place < weight points place)
  unfolding advance place_weight
  inside_less count [] place h = absurd h
  inside_less count (p ∷ points) outside h = absurd h
  inside_less count ((x, y) ∷ points) locked h =
      ((record { points = (x, y) ∷ points; place = loaded count }, count, true), refl, omega arith)
  inside_less count ((x, y) ∷ points) (loaded n) h =
      ((record { points = (x, y) ∷ points; place = stored }, suc n, true), refl, omega arith)
  inside_less count ((x, y) ∷ points) stored h =
      ((record { points = points; place = outside }, count, false), refl, omega arith)

  abbrev Moves : ℕ → Bool → List Thread → Type 0
  Moves count mutex ts =
      AllEnded hit ts
      ⊎ ((k : ℕ) × (r : List Thread × ℕ × Bool) × (advance_at hit k count mutex ts ≡ some r)
          × (all_weight r.0 < all_weight ts))

  behind_Moves :
      (count : ℕ) (mutex : Bool) (t : Thread) (ts : List Thread) (k : ℕ)
      (r : List Thread × ℕ × Bool)
      → advance_at hit k count mutex ts ≡ some r
      → all_weight r.0 < all_weight ts
      → Moves count mutex (t ∷ ts)
  unfolding advance_at all_weight
  behind_Moves count mutex t ts k r e l =
      inr (suc k, (t ∷ r.0, r.1, r.2), rw (e) refl, omega (arith, l))

  free_moves :
      (count : ℕ) (points : List (ℕ × ℕ))
      → (points ≡ [])
        ⊎ ((r : Thread × ℕ × Bool) × (advance hit count false points outside ≡ some r)
            × (weight r.0.points r.0.place < weight points outside))
  unfolding advance place_weight
  free_moves count [] = inl refl
  free_moves count ((x, y) ∷ points) = elim (Bool-cases (hit x y)) [
    | inl e ↦ inr (
      (record { points = (x, y) ∷ points; place = locked }, count, true),
      rw (e) refl,
      omega arith,
    )
    | inr e ↦
        inr ((record { points = points; place = outside }, count, false), rw (e) refl, omega arith)
  ]

  Quiet-Moves : (count : ℕ) (ts : List Thread) → Quiet hit ts → Moves count false ts
  unfolding advance_at advance all_weight
  Quiet-Moves count [] q = inl tt
  Quiet-Moves count (t ∷ ts) q = elim (free_moves count t.points) [
    | inr (r, e, l) ↦ inr (0, (r.0 ∷ ts, r.1, r.2), rw (q.0, e) refl, rw (q.0) (omega (arith, l)))
    | inl p ↦ elim (Quiet-Moves count ts q.1) [
      | inl ended ↦ inl ((p, q.0), ended)
      | inr (k, r, e, l) ↦ behind_Moves count false t ts k r e l
    ]
  ]

  ended_Held : (count : ℕ) (ts : List Thread) → AllEnded hit ts → Held hit count ts → ⊥
  ended_Held count [] ended h = h
  ended_Held count (t ∷ ts) ended (inl (s, q)) =
      subst (λ points. InSection hit count points t.place) ended.0.0 s
  ended_Held count (t ∷ ts) ended (inr (o, h)) = ended_Held count ts ended.1 h

  Held-Moves : (count : ℕ) (ts : List Thread) → Held hit count ts → Moves count true ts
  unfolding advance_at all_weight
  Held-Moves count [] h = absurd h
  Held-Moves count (t ∷ ts) (inl (s, q)) =
      let (r, e, l) = inside_less count t.points t.place s in
      inr (0, (r.0 ∷ ts, r.1, r.2), rw (e) refl, omega (arith, l))
  Held-Moves count (t ∷ ts) (inr (o, h)) = elim (Held-Moves count ts h) [
    | inl ended ↦ absurd (ended_Held count ts ended h)
    | inr (k, r, e, l) ↦ behind_Moves count true t ts k r e l
  ]

  Moves-cases :
      (s : System)
      → Excludes hit s.count s.mutex s.threads
      → AllEnded hit s.threads
        ⊎ ((k : ℕ) × (t : System) × (step hit k s ≡ some t)
            × (all_weight t.threads < all_weight s.threads))
  unfolding step
  Moves-cases s e = elim (Bool-cases s.mutex) [
    | inl m ↦
        elim (Held-Moves s.count s.threads (subst (λ b. Excludes hit s.count b s.threads) m e)) [
          | inl ended ↦ inl ended
          | inr (k, r, f, l) ↦
              inr (k, record { count = r.1; mutex = r.2; threads = r.0 }, rw (m, f) refl, l)
        ]
    | inr m ↦
        elim (Quiet-Moves s.count s.threads (subst (λ b. Excludes hit s.count b s.threads) m e)) [
          | inl ended ↦ inl ended
          | inr (k, r, f, l) ↦
              inr (k, record { count = r.1; mutex = r.2; threads = r.0 }, rw (m, f) refl, l)
        ]
  ]

  ends_within :
      (fuel : ℕ) (s t : System)
      → Excludes hit t.count t.mutex t.threads
      → all_weight t.threads ≤ fuel
      → Reach hit s t
      → (u : System) × Reach hit s u × AllEnded hit u.threads
  ends_within zero s t e le r = elim (Moves-cases t e) [
    | inl ended ↦ (t, r, ended)
    | inr (k, u, f, l) ↦ absurd (omega arith)
  ]
  ends_within (suc fuel) s t e le r = elim (Moves-cases t e) [
    | inl ended ↦ (t, r, ended)
    | inr (k, u, f, l) ↦
        let (x, _) = subst (Then hit (Keeps hit t)) f (step-Keeps hit k t e) in
        ends_within fuel s u x (omega arith) (then_step k r f)
  ]

  Reach-trans : (s t u : System) → Reach hit s t → Reach hit t u → Reach hit s u
  Reach-trans s t _ p here = p
  Reach-trans s t u p (then_step k q f) = then_step k (Reach-trans s t _ p q) f

  -- From every state that a schedule leads to, some further steps end all threads, and then `count`
  -- is the number of points in the circle among the points of all threads.
  pub count_ends :
      (lists : List (List (ℕ × ℕ))) (s : System)
      → Reach hit (main lists) s
      → (t : System) × Reach hit s t × AllEnded hit t.threads × (t.count ≡ all_hits hit lists)
  count_ends lists s r =
      let (e, _) = Reach-Keeps hit (main lists) s (main-Quiet hit lists) r in
      let (t, q, ended) = ends_within (all_weight s.threads) s s e (omega arith) here in
      (t, q, ended, count_lem hit lists t (Reach-trans (main lists) s t r q) ended)

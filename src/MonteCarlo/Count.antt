-- ===== src/MonteCarlo/Count.antt =====
-- No increment of `count` is lost.
use systemprogramminglab.Prelude.{
  ℕ, zero, suc, ◌+◌, ◌≡◌, ◌⊎◌, refl, ◌∙◌, sym, ap, subst, Bool, true, false, Option, none, some,
  List, [], ◌∷◌, if◌then◌else◌, ◌>>=◌, map, arith, Bool-cases, inl, inr,
}
use systemprogramminglab.MonteCarlo.{
  Place, outside, locked, loaded, stored, Thread, System, advance, advance_at, step, Reach, here,
  then_step, thread, main,
}

module _ (hit : ℕ → ℕ → Bool) where
  -- The points in the circle.
  unfoldable pub hits : List (ℕ × ℕ) → ℕ
  hits [] = 0
  hits ((x, y) ∷ points) = let rest = hits points in if hit x y then suc rest else rest

  -- The increments that a thread has still to make.
  unfoldable pub owed : List (ℕ × ℕ) → Place → ℕ
  unfolding hits
  owed points outside = hits points
  owed points locked = hits points
  owed points (loaded n) = hits points
  owed [] stored = 0
  owed (p ∷ points) stored = hits points

  unfoldable pub all_owed : List Thread → ℕ
  unfolding owed
  all_owed [] = 0
  all_owed (t ∷ threads) = owed t.points t.place + all_owed threads

  -- A thread in the section is at a point in the circle, and has read the present `count`.
  abbrev pub InSection : ℕ → List (ℕ × ℕ) → Place → Type 0
  InSection count [] place = ⊥
  InSection count (p ∷ points) outside = ⊥
  InSection count ((x, y) ∷ points) locked = hit x y ≡ true
  InSection count ((x, y) ∷ points) (loaded n) = (hit x y ≡ true) × (n ≡ count)
  InSection count ((x, y) ∷ points) stored = hit x y ≡ true

  abbrev pub Quiet : List Thread → Type 0
  Quiet [] = Unit
  Quiet (t ∷ threads) = (t.place ≡ outside) × Quiet threads

  -- With the mutex held, one thread is in the section.
  abbrev pub Held : ℕ → List Thread → Type 0
  Held count [] = ⊥
  Held count (t ∷ threads) =
      (InSection count t.points t.place × Quiet threads)
      ⊎ ((t.place ≡ outside) × Held count threads)

  abbrev pub Excludes : ℕ → Bool → List Thread → Type 0
  Excludes count false threads = Quiet threads
  Excludes count true threads = Held count threads

  -- What holds if a step is made.
  abbrev pub Then : {A : Type 0} → (A → Type 0) → Option A → Type 0
  Then P none = Unit
  Then P (some a) = P a

  pub Then-bind :
      {A B : Type 0} (P : A → Type 0) (Q : B → Type 0) (m : Option A) (k : A → Option B)
      → Then P m
      → ((a : A) → P a → Then Q (k a))
      → Then Q (m >>= k)
  Then-bind P Q none k h f = tt
  Then-bind P Q (some a) k h f = f a h

  -- A thread outside waits while the mutex is held, or passes a point that is not in the circle.
  advance_waits :
      (count : ℕ) (points : List (ℕ × ℕ))
      → Then
          (λ (r : Thread × ℕ × Bool).
            (r.0.place ≡ outside)
            × (r.1 ≡ count)
            × (r.2 ≡ true)
            × (owed r.0.points r.0.place ≡ hits points))
          (advance hit count true points outside)
  unfolding advance owed hits
  advance_waits count [] = tt
  advance_waits count ((x, y) ∷ points) = elim (Bool-cases (hit x y)) [
    | inl e ↦ rw (e) tt
    | inr e ↦ rw (e) (refl, refl, refl, refl)
  ]

  -- With the mutex free it may also enter the section.
  advance_enters :
      (count : ℕ) (points : List (ℕ × ℕ))
      → Then
          (λ (r : Thread × ℕ × Bool).
            (r.1 ≡ count)
            × (owed r.0.points r.0.place ≡ hits points)
            × (((r.2 ≡ false) × (r.0.place ≡ outside))
                ⊎ ((r.2 ≡ true) × InSection count r.0.points r.0.place)))
          (advance hit count false points outside)
  unfolding advance owed hits
  advance_enters count [] = tt
  advance_enters count ((x, y) ∷ points) = elim (Bool-cases (hit x y)) [
    | inl e ↦ rw (e) (refl, rw (e) refl, inr (refl, e))
    | inr e ↦ rw (e) (refl, refl, inl (refl, refl))
  ]

  -- The thread in the section.
  advance_inside :
      (count : ℕ) (points : List (ℕ × ℕ)) (place : Place)
      → InSection count points place
      → Then
          (λ (r : Thread × ℕ × Bool).
            (owed r.0.points r.0.place + r.1 ≡ owed points place + count)
            × (((r.2 ≡ false) × (r.0.place ≡ outside))
                ⊎ ((r.2 ≡ true) × InSection r.1 r.0.points r.0.place)))
          (advance hit count true points place)
  unfolding advance owed hits
  advance_inside count [] place h = absurd h
  advance_inside count (p ∷ points) outside h = absurd h
  advance_inside count ((x, y) ∷ points) locked h = (refl, inr (refl, (h, refl)))
  advance_inside count ((x, y) ∷ points) (loaded n) h = (rw (h.0, h.1) omega arith, inr (refl, h.0))
  advance_inside count ((x, y) ∷ points) stored h = (refl, inl (refl, refl))

  waits_at :
      (k count : ℕ) (ts : List Thread)
      → Quiet ts
      → Then
          (λ (r : List Thread × ℕ × Bool).
            Quiet r.0 × (r.1 ≡ count) × (r.2 ≡ true) × (all_owed r.0 ≡ all_owed ts))
          (advance_at hit k count true ts)
  unfolding advance_at all_owed owed
  waits_at k count [] q = tt
  waits_at zero count (t ∷ ts) q = rw (q.0) (
      Then-bind _ _ (advance hit count true t.points outside) _ (advance_waits count t.points)
        λ r h. ((h.0, q.1), h.1, h.2, ap (λ n. n + all_owed ts) h.3))
  waits_at (suc k) count (t ∷ ts) q =
      Then-bind _ _ (advance_at hit k count true ts) _ (waits_at k count ts q.1)
        λ r h. ((q.0, h.0), h.1, h.2, ap (λ n. owed t.points t.place + n) h.3)

  -- What a step keeps.
  abbrev Kept : ℕ → List Thread → List Thread × ℕ × Bool → Type 0
  Kept count ts (us, c, m) = Excludes c m us × (all_owed us + c ≡ all_owed ts + count)

  Excludes-behind :
      (t : Thread) (us : List Thread) (c : ℕ) (m : Bool)
      → t.place ≡ outside
      → Excludes c m us
      → Excludes c m (t ∷ us)
  Excludes-behind t us c false o e = (o, e)
  Excludes-behind t us c true o e = inr (o, e)

  free_at :
      (k count : ℕ) (ts : List Thread)
      → Quiet ts
      → Then (Kept count ts) (advance_at hit k count false ts)
  unfolding advance_at all_owed owed
  free_at k count [] q = tt
  free_at zero count (t ∷ ts) q = rw (q.0) (
      Then-bind _ _ (advance hit count false t.points outside) _ (advance_enters count t.points)
        λ r h. elim (h.2) [
          | inl o ↦ (rw (o.0) (o.1, q.1), omega (arith, h.0, h.1))
          | inr o ↦ (rw (o.0, h.0) (inl (o.1, q.1)), omega (arith, h.0, h.1))
        ])
  free_at (suc k) count (t ∷ ts) q =
      Then-bind _ _ (advance_at hit k count false ts) _ (free_at k count ts q.1)
        λ r h. (Excludes-behind t r.0 r.1 r.2 q.0 h.0, omega (arith, h.1))

  Held-at :
      (k count : ℕ) (ts : List Thread)
      → Held count ts
      → Then (Kept count ts) (advance_at hit k count true ts)
  unfolding advance_at all_owed owed
  Held-at k count [] h = tt
  Held-at zero count (t ∷ ts) (inl (s, q)) =
      Then-bind _ _ (advance hit count true t.points t.place) _
        (advance_inside count t.points t.place s)
        λ r h. elim (h.1) [
          | inl o ↦ (rw (o.0) (o.1, q), omega (arith, h.0))
          | inr o ↦ (rw (o.0) (inl (o.1, q)), omega (arith, h.0))
        ]
  Held-at (suc k) count (t ∷ ts) (inl (s, q)) =
      Then-bind _ _ (advance_at hit k count true ts) _ (waits_at k count ts q)
        λ r h. (rw (h.2, h.1) (inl (s, h.0)), omega (arith, h.1, h.3))
  Held-at zero count (t ∷ ts) (inr (o, h)) = rw (o) (
      Then-bind _ _ (advance hit count true t.points outside) _ (advance_waits count t.points)
        λ r g. (rw (g.2) (inr (g.0, subst (λ c. Held c ts) (sym g.1) h)), omega (arith, g.1, g.3)))
  Held-at (suc k) count (t ∷ ts) (inr (o, h)) =
      Then-bind _ _ (advance_at hit k count true ts) _ (Held-at k count ts h)
        λ r g. (Excludes-behind t r.0 r.1 r.2 o g.0, omega (arith, g.1))

  -- What every schedule keeps.
  abbrev pub Keeps : System → System → Type 0
  Keeps s t =
      Excludes t.count t.mutex t.threads
      × (all_owed t.threads + t.count ≡ all_owed s.threads + s.count)

  pub step-Keeps :
      (k : ℕ) (s : System) → Excludes s.count s.mutex s.threads → Then (Keeps s) (step hit k s)
  unfolding step
  step-Keeps k s e = elim (Bool-cases s.mutex) [
    | inl m ↦ rw (m) (
        Then-bind _ _ (advance_at hit k s.count true s.threads) _
          (Held-at k s.count s.threads (rw (m) at e)) λ r h. h)
    | inr m ↦ rw (m) (
        Then-bind _ _ (advance_at hit k s.count false s.threads) _
          (free_at k s.count s.threads (rw (m) at e)) λ r h. h)
  ]

  pub Reach-Keeps : (s t : System) → Excludes s.count s.mutex s.threads → Reach hit s t → Keeps s t
  Reach-Keeps s _ e here = (e, refl)
  Reach-Keeps s u e (then_step {t = t} k r f) =
      let (x, n) = Reach-Keeps s t e r in
      let (y, l) = subst (Then (Keeps t)) f (step-Keeps k t x) in (y, l ∙ n)

  -- All the points in the circle.
  unfoldable pub all_hits : List (List (ℕ × ℕ)) → ℕ
  unfolding hits
  all_hits [] = 0
  all_hits (points ∷ lists) = hits points + all_hits lists

  pub main-Quiet : (lists : List (List (ℕ × ℕ))) → Quiet (map thread lists)
  main-Quiet [] = tt
  main-Quiet (points ∷ lists) = (refl, main-Quiet lists)

  main_owed : (lists : List (List (ℕ × ℕ))) → all_owed (map thread lists) ≡ all_hits lists
  unfolding all_owed owed all_hits
  main_owed [] = refl
  main_owed (points ∷ lists) = ap (λ n. hits points + n) (main_owed lists)

  abbrev pub AllEnded : List Thread → Type 0
  AllEnded [] = Unit
  AllEnded (t ∷ threads) = ((t.points ≡ []) × (t.place ≡ outside)) × AllEnded threads

  ended_owed : (ts : List Thread) → AllEnded ts → all_owed ts ≡ 0
  unfolding all_owed owed hits
  ended_owed [] h = refl
  ended_owed (t ∷ ts) h = rw (h.0.0, h.0.1, ended_owed ts h.1) refl

  -- Once all threads have ended, after any schedule, `count` is the number of points in the circle
  -- among the points of all threads.
  pub count_lem :
      (lists : List (List (ℕ × ℕ))) (s : System)
      → Reach hit (main lists) s
      → AllEnded s.threads
      → s.count ≡ all_hits lists
  count_lem lists s r h =
      let (_, n) = Reach-Keeps (main lists) s (main-Quiet lists) r in
      omega (arith, n, main_owed lists, ended_owed s.threads h)

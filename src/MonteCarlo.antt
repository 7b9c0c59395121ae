-- ===== src/MonteCarlo.antt =====
-- week14/main.c: threads that count the points in a circle, under a mutex. `hit` is the test of the
-- two numbers that `random_r` gives for a point; the numbers that a thread will get are a list.
pub mod Count
pub mod Ends
mod Tests
use systemprogramminglab.Prelude.{
  ℕ, zero, suc, ◌≡◌, Bool, true, false, Option, none, some, List, [], ◌∷◌, if◌then◌else◌, ◌>>=◌,
  map,
}

-- Where a thread stands: outside the section, or in it before `count++` reads, with the value that
-- it has read, or behind the write.
pub data Place : Type 0 where
  outside : Place
  locked : Place
  loaded : ℕ → Place
  stored : Place

pub record Thread : Type 0 where
  pub points : List (ℕ × ℕ)
  pub place : Place

pub record System : Type 0 where
  pub count : ℕ
  pub mutex : Bool
  pub threads : List Thread

-- What a step of a thread leaves: the thread, `count` and the mutex. `none` is a thread that has
-- ended or waits.
unfoldable pub advance :
    (ℕ → ℕ → Bool) → ℕ → Bool → List (ℕ × ℕ) → Place → Option (Thread × ℕ × Bool)
advance hit count mutex [] outside = none
advance hit count mutex ((x, y) ∷ points) outside =
    if hit x y
    then (if mutex
        then none
        else some (record { points = (x, y) ∷ points; place = locked }, count, true))
    else some (record { points = points; place = outside }, count, mutex)
advance hit count mutex points locked =
    some (record { points = points; place = loaded count }, count, mutex)
advance hit count mutex points (loaded n) =
    some (record { points = points; place = stored }, suc n, mutex)
advance hit count mutex [] stored = some (record { points = []; place = outside }, count, false)
advance hit count mutex (p ∷ points) stored =
    some (record { points = points; place = outside }, count, false)

-- A step of the `k`th of some threads.
unfoldable pub advance_at :
    (ℕ → ℕ → Bool) → ℕ → ℕ → Bool → List Thread → Option (List Thread × ℕ × Bool)
unfolding advance
advance_at hit k count mutex [] = none
advance_at hit zero count mutex (t ∷ threads) = do
  (u, c, m) ← advance hit count mutex t.points t.place
  some (u ∷ threads, c, m)
advance_at hit (suc k) count mutex (t ∷ threads) = do
  (us, c, m) ← advance_at hit k count mutex threads
  some (t ∷ us, c, m)

unfoldable pub step : (ℕ → ℕ → Bool) → ℕ → System → Option System
unfolding advance_at
step hit k s = do
  (us, c, m) ← advance_at hit k s.count s.mutex s.threads
  some (record { count = c; mutex = m; threads = us })

-- The states that any schedule leads to.
pub data Reach (hit : ℕ → ℕ → Bool) (s : System) : System → Type 0 where
  here : Reach hit s s
  then_step : {t u : System} (k : ℕ) → Reach hit s t → step hit k t ≡ some u → Reach hit s u

abbrev pub thread : List (ℕ × ℕ) → Thread
thread points = record { points = points; place = outside }

-- `main` once all threads are made.
abbrev pub main : List (List (ℕ × ℕ)) → System
main points = record { count = 0; mutex = false; threads = map thread points }

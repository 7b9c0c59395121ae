-- ===== src/BoundedQueue/Ring.antt =====
-- The circular array of week15/main.c holds a queue: puts at one end, gets at the other.
use native.Mathlib.Nat.{mod-eq_of_lt, mod-eq-sub-mod}
use systemprogramminglab.Prelude.{
  ℕ, zero, suc, ◌+◌, ◌-◌, ◌%◌, ◌≤◌, ◌<◌, ◌≡◌, ◌≢◌, refl, ◌∙◌, ap, inl, inr, false, some, List, [],
  ◌∷◌, ◌++◌, arith, ltb, ◌==◌, if◌then◌else◌, Bool-cases, length, length-set, get_elem?, get_or,
  set,
}
use systemprogramminglab.BoundedQueue.{Queue, qinit, put_data, get_data}

-- The cell that lies `n` cells behind cell `h`, round the array.
abbrev pub around : ℕ → ℕ → ℕ → ℕ
around capacity h n = if ltb (h + n) capacity then h + n else h + n - capacity

pub record IsValid (q : Queue) : Type 0 where
  pub room : length q.cells ≡ q.capacity
  pub positive : 0 < q.capacity
  pub get_in : q.get_index < q.capacity
  pub size_in : q.size ≤ q.capacity
  pub put_at : q.put_index ≡ around q.capacity q.get_index q.size

-- The `n` values from cell `h` on.
unfoldable pub slots : List ℕ → ℕ → ℕ → ℕ → List ℕ
slots cells capacity h zero = []
slots cells capacity h (suc n) = get_or cells h 0 ∷ slots cells capacity (around capacity h 1) n

-- What the queue holds, the oldest first.
abbrev pub contents : Queue → List ℕ
contents q = slots q.cells q.capacity q.get_index q.size

not_ltb : (a b : ℕ) → ltb a b ≡ false → b ≤ a
not_ltb a b h = ground arith

mod_around : (capacity h : ℕ) → h < capacity → (h + 1) % capacity ≡ around capacity h 1
mod_around capacity h lt = elim (Bool-cases (ltb (h + 1) capacity)) [
  | inl inside ↦ rw inside (mod-eq_of_lt (ground arith))
  | inr last ↦ rw last (
      mod-eq-sub-mod {n = h + 1} {m = capacity} (not_ltb (h + 1) capacity last)
      ∙ mod-eq_of_lt {n = h + 1 - capacity} {m = capacity} (omega arith))
]

get_or-some : (xs : List ℕ) (i : ℕ) → i < length xs → get_elem? xs i ≡ some (get_or xs i 0)
get_or-some [] i h = elim h [ ]
get_or-some (x ∷ xs) zero h = refl
get_or-some (x ∷ xs) (suc i) h = get_or-some xs i (omega arith)

get_or-set :
    (xs : List ℕ) (i j v : ℕ)
    → i < length xs
    → get_or (set xs i v) j 0 ≡ (if i == j then v else get_or xs j 0)
get_or-set [] i j v h = elim h [ ]
get_or-set (x ∷ xs) zero zero v h = refl
get_or-set (x ∷ xs) zero (suc j) v h = ground arith
get_or-set (x ∷ xs) (suc i) zero v h = ground arith
get_or-set (x ∷ xs) (suc i) (suc j) v h = ground (arith, get_or-set xs i j v)

-- Writing the cell behind `n` others appends the value to them.
slots-set :
    (cells : List ℕ) (capacity v n h i : ℕ)
    → length cells ≡ capacity
    → h < capacity
    → n < capacity
    → i ≡ around capacity h n
    → slots (set cells i v) capacity h (suc n) ≡ slots cells capacity h n ++ (v ∷ [])
unfolding slots
slots-set cells capacity v zero h i room hh nn e = ground (arith, get_or-set cells i h v)
slots-set cells capacity v (suc n) h i room hh nn e =
    let rest =
      slots-set cells capacity v n (around capacity h 1) i room (ground arith) (omega arith)
        (ground arith) in
    ap (λ x. x ∷ slots (set cells i v) capacity (around capacity h 1) (suc n))
      (ground (arith, get_or-set cells i h v))
    ∙ ap (λ t. get_or cells h 0 ∷ t) rest

slots_ne_zero :
    (cells : List ℕ) (capacity h n : ℕ)
    → n ≢ 0
    → slots cells capacity h n
      ≡ get_or cells h 0 ∷ slots cells capacity (around capacity h 1) (n - 1)
unfolding slots
slots_ne_zero cells capacity h zero ne = absurd (ne refl)
slots_ne_zero cells capacity h (suc n) ne =
    ap (λ k. get_or cells h 0 ∷ slots cells capacity (around capacity h 1) k) (omega arith)

slots-grow :
    (q : Queue) (value : ℕ)
    → IsValid q
    → q.size ≢ q.capacity
    → slots (set q.cells q.put_index value) q.capacity q.get_index (q.size + 1)
      ≡ contents q ++ (value ∷ [])
slots-grow q value v ne =
    ap (slots (set q.cells q.put_index value) q.capacity q.get_index) (omega arith)
    ∙ slots-set q.cells q.capacity value q.size q.get_index q.put_index v.room v.get_in
        (omega (arith, v.size_in, ne)) v.put_at

-- A fresh queue with an array of its capacity is valid and empty.
pub qinit-IsValid :
    (capacity n_loops : ℕ) (cells : List ℕ)
    → 0 < capacity
    → length cells ≡ capacity
    → IsValid (qinit capacity n_loops cells) × (contents (qinit capacity n_loops cells) ≡ [])
unfolding qinit slots
qinit-IsValid capacity n_loops cells h e = (ground arith, refl)

-- A put into a valid queue that is not full writes inside the array, appends the value to what the
-- queue holds, and leaves a valid queue of the same capacity.
pub put_data_lem :
    (q : Queue) (value : ℕ)
    → IsValid q
    → q.size ≢ q.capacity
    → (t : Queue) × (put_data q value ≡ some t)
      × IsValid t
      × (contents t ≡ contents q ++ (value ∷ []))
      × (t.size ≡ q.size + 1)
      × (t.capacity ≡ q.capacity)
      × (t.n_loops ≡ q.n_loops)
unfolding put_data
put_data_lem q value v ne = (
  record q {
    cells = set q.cells q.put_index value;
    put_index = (q.put_index + 1) % q.capacity;
    size = q.size + 1;
  },
  ground arith,
  record {
    room = length-set q.cells q.put_index value ∙ v.room;
    positive = v.positive;
    get_in = v.get_in;
    size_in = omega (arith, v.size_in, ne);
    put_at = mod_around q.capacity q.put_index (ground arith) ∙ ground arith;
  },
  slots-grow q value v ne,
  refl,
  refl,
  refl,
)

-- A get from a valid queue that is not empty reads inside the array, takes the oldest value out,
-- and leaves a valid queue of the same capacity.
pub get_data_lem :
    (q : Queue)
    → IsValid q
    → q.size ≢ 0
    → (value : ℕ) × (t : Queue) × (get_data q ≡ some (value, t))
      × IsValid t
      × (contents q ≡ value ∷ contents t)
      × (t.size + 1 ≡ q.size)
      × (t.capacity ≡ q.capacity)
      × (t.n_loops ≡ q.n_loops)
unfolding get_data
get_data_lem q v ne = (
  get_or q.cells q.get_index 0,
  record q { get_index = (q.get_index + 1) % q.capacity; size = q.size - 1 },
  rw (get_or-some q.cells q.get_index (omega arith)),
  record {
    room = v.room;
    positive = v.positive;
    get_in = rw (mod_around q.capacity q.get_index v.get_in) (ground arith);
    size_in = omega arith;
    put_at = rw (mod_around q.capacity q.get_index v.get_in) (ground arith);
  },
  rw (mod_around q.capacity q.get_index v.get_in)
      (slots_ne_zero q.cells q.capacity q.get_index q.size ne),
  omega arith,
  refl,
  refl,
)

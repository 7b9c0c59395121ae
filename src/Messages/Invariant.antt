-- ===== src/Messages/Invariant.antt =====
-- week10/main.c: what the turns of two users keep of their messages.
use systemprogramminglab.Prelude.{
  ℕ, suc, ◌+◌, ◌≤◌, ◌<◌, ◌≡◌, ◌≢◌, refl, ◌∙◌, ap, List, [], ◌∷◌, ◌++◌, map, length, length-append,
  arith, All, ◌==◌, if◌then◌else◌, ℤ, pos,
}
use systemprogramminglab.Libc.Texts.{c_text}
use systemprogramminglab.Messages.{
  User, Receiver, receiving, acking, confirming, interrupted, failed, stop,
}
use systemprogramminglab.Messages.Bytes.{Carries, CarriesTime}
use systemprogramminglab.Messages.Flow.{Flow}

-- How many of the messages printed are acknowledged.
abbrev pub Owes : Receiver → ℕ → ℕ → Type 0
Owes receiving received acked = received ≡ acked
Owes acking received acked = received ≡ suc acked
Owes confirming received acked = received ≡ acked
Owes interrupted received acked = (acked ≤ received) × (received ≤ suc acked)
Owes failed received acked = ⊥

-- No type of message serves two purposes.
abbrev pub Distinct : ℕ → ℕ → Type 0
Distinct a b = (0 < a) × (0 < b) × (a ≢ b) × (a ≢ 20 + b) × (b ≢ 20 + a)

-- A line that a message carries whole.
abbrev pub Fits : List ℕ → Type 0
Fits typed = length (c_text typed) < 508

abbrev pub from : ℕ → List (List ℕ) → List (ℤ × List ℕ)
from a = map (λ line. (pos a, line))

pub from-append :
    (a : ℕ) (ls : List (List ℕ)) (l : List ℕ)
    → from a (ls ++ (l ∷ [])) ≡ from a ls ++ ((pos a, l) ∷ [])
from-append a [] l = refl
from-append a (x ∷ ls) l = ap (λ t. (pos a, x) ∷ t) (from-append a ls l)

-- What waits under each type, after a message is added to one or read from one.
abbrev pub added : (ℕ → List (List ℕ)) → ℕ → List ℕ → ℕ → List (List ℕ)
added w t m u = if u == t then w u ++ (m ∷ []) else w u

abbrev pub left_with : (ℕ → List (List ℕ)) → ℕ → List (List ℕ) → ℕ → List (List ℕ)
left_with w t ms u = if u == t then ms else w u

-- The messages of `u` to `v`, and the acknowledgements of `v`, where `w` is what waits.
abbrev pub Channel : ℕ → ℕ → User → User → (ℕ → List (List ℕ)) → Type 0
Channel a b u v w =
    Flow Carries (from a u.sent) v.received (w b)
    × Flow CarriesTime v.acked u.confirmed (w (20 + a))
    × Owes v.child (length v.received) (length v.acked)

abbrev pub Half : ℕ → ℕ → User → User → (ℕ → List (List ℕ)) → Type 0
Half a b u v w =
    (u.user_id ≡ pos a) × (u.receiver_id ≡ pos b) × All Fits u.lines × Channel a b u v w

abbrev pub Both : ℕ → ℕ → User → User → (ℕ → List (List ℕ)) → Type 0
Both a b u v w = Half a b u v w × Half b a v u w

pub length_snoc : {A : Type 0} (xs : List A) (x : A) → length (xs ++ (x ∷ [])) ≡ suc (length xs)
length_snoc xs x = length-append xs (x ∷ []) ∙ omega arith

pub Owes-stop : (c : Receiver) (n k : ℕ) → Owes c n k → Owes (stop c) n k
unfolding stop
Owes-stop receiving n k e = (omega arith, omega arith)
Owes-stop acking n k e = (omega arith, omega arith)
Owes-stop confirming n k e = (omega arith, omega arith)
Owes-stop interrupted n k e = e
Owes-stop failed n k e = absurd e

-- ===== src/Reservation/Wording.antt =====
-- What pa3/pa3_client.c prints for the replies that pa3/pa3_server.c sends.
use systemprogramminglab.Prelude.{
  ℕ, zero, suc, Option, get_elem?, ◌<◌, ◌≡◌, refl, ◌∙◌, sym, ap, subst, inl, inr, Bool, true, false,
  none, some, List, [], ◌∷◌, ◌++◌, Bool-cases, arith, ℤ, pos, negsuc, ◌==ℤ◌, codes, Option-cases,
}
use systemprogramminglab.Libc.Decimal.{decimal, format_int, strtol}
use systemprogramminglab.Libc.Decimal.Casts.{strtol_int, strtol_int-fits}
use systemprogramminglab.Libc.Texts.{same}
use systemprogramminglab.Reservation.Tables.{Server}
use systemprogramminglab.Reservation.Tables.Valid.{IsValid}
use systemprogramminglab.Reservation.Query.{Query, Outcome, Handled, answer, respond, handle_query}
use systemprogramminglab.Reservation.Client.{validate_query, report}
use systemprogramminglab.Reservation.Replies.{ReadsAs, Good, answer-Good}
use systemprogramminglab.Reservation.Session.{IsSent, validate-InRange}

-- The actions of the queries that are sent, from 1 on.
pub data Request : Type 0 where
  log_in book_seat list_seats cancel_seat log_out : Request

unfoldable pub request_of : ℤ → Option Request
request_of (pos (suc n)) =
    get_elem? (log_in ∷ book_seat ∷ list_seats ∷ cancel_seat ∷ log_out ∷ []) n
request_of others = none

-- The text for a query with such an action, whose reply is a failure (`true`) or not.
unfoldable pub wording : Option Request → Bool → List ℕ → List ℕ
wording (some log_in) false reply = codes "Logged in successfully.\n"
wording (some log_in) true reply = codes "Failed to log in.\n"
wording (some book_seat) false reply = codes "Seat " ++ (reply ++ codes " booked.\n")
wording (some book_seat) true reply = codes "Failed to book.\n"
wording (some list_seats) false reply = codes "Booked seats: \n" ++ (reply ++ codes "\n")
wording (some list_seats) true reply = codes "Failed to confirm booking.\n"
wording (some cancel_seat) false reply = codes "Cancelled seat number: " ++ (reply ++ codes "\n")
wording (some cancel_seat) true reply = codes "Failed to cancel booking.\n"
wording (some log_out) false reply = codes "Logged out successfully.\n"
wording (some log_out) true reply = codes "Failed to log out.\n"
wording none failure reply = []

-- What is to be printed for a query and the reply to it: a reply of -1 is a failure.
unfoldable pub told : ℤ → List ℕ → List ℕ
unfolding wording request_of same
told action reply = wording (request_of action) (same reply (codes "-1")) reply

data IsAction : ℤ → Type 0 where
  logs_in : IsAction (pos 1)
  books : IsAction (pos 2)
  lists : IsAction (pos 3)
  cancels : IsAction (pos 4)
  logs_out : IsAction (pos 5)

small-IsAction : (user : ℤ) (n : ℕ) (seat : ℤ) → validate_query user (pos n) seat ≡ true → n < 6
unfolding validate_query
small-IsAction user n seat h = ground arith

number-IsAction : (n : ℕ) → n < 6 → (pos n ==ℤ pos 0) ≡ false → IsAction (pos n)
number-IsAction zero h ne = absurd (cc)
number-IsAction (suc zero) h ne = logs_in
number-IsAction (suc (suc zero)) h ne = books
number-IsAction (suc (suc (suc zero))) h ne = lists
number-IsAction (suc (suc (suc (suc zero)))) h ne = cancels
number-IsAction (suc (suc (suc (suc (suc zero))))) h ne = logs_out
number-IsAction (suc (suc (suc (suc (suc (suc n)))))) h ne = absurd (omega arith)

IsAction-IsAction :
    (user action seat : ℤ)
    → validate_query user action seat ≡ true
    → (action ==ℤ pos 0) ≡ false
    → IsAction action
unfolding validate_query
IsAction-IsAction user (pos n) seat h ne = number-IsAction n (small-IsAction user n seat h) ne
IsAction-IsAction user (negsuc n) seat h ne = absurd (ground arith)

failure_told :
    (a : ℤ) → IsAction a → report a (codes "-1") ≡ wording (request_of a) true (codes "-1")
unfolding report strtol_int wording request_of
failure_told a logs_in = refl
failure_told a books = refl
failure_told a lists = refl
failure_told a cancels = refl
failure_told a logs_out = refl

success_told :
    (a : ℤ) (text : List ℕ)
    → IsAction a
    → ReadsAs a (some text)
    → report a text ≡ wording (request_of a) false text
unfolding report wording request_of format_int
success_told a text logs_in (n, small, e, shape) = rw (strtol_int-fits text n e (omega arith)) refl
success_told a text books (n, small, e, inl three) = absurd (cc)
success_told a text books (n, small, e, inr whole) =
    rw (strtol_int-fits text n e (omega arith))
      (ap (λ t. codes "Seat " ++ (t ++ codes " booked.\n")) (sym whole))
success_told a text lists (n, small, e, shape) = rw (strtol_int-fits text n e (omega arith)) refl
success_told a text cancels (n, small, e, inl three) = absurd (cc)
success_told a text cancels (n, small, e, inr whole) =
    rw (strtol_int-fits text n e (omega arith))
      (ap (λ t. codes "Cancelled seat number: " ++ (t ++ codes "\n")) (sym whole))
success_told a text logs_out (n, small, e, shape) = rw (strtol_int-fits text n e (omega arith)) refl

same_minus_one : (text : List ℕ) → same text (codes "-1") ≡ true → text ≡ codes "-1"
unfolding same
same_minus_one [] h = absurd (cc)
same_minus_one (c ∷ []) h = absurd (ground arith)
same_minus_one (c ∷ d ∷ []) h =
    ap (λ k. k ∷ d ∷ []) {x = c} (ground arith) ∙ ap (λ k. 45 ∷ k ∷ []) {x = d} (ground arith)
same_minus_one (c ∷ d ∷ f ∷ text) h = absurd (ground arith)

-- A number that is not negative is no failure.
no_failure : (text : List ℕ) (n : ℕ) → strtol text ≡ pos n → same text (codes "-1") ≡ false
unfolding strtol
no_failure text n e = elim (Bool-cases (same text (codes "-1"))) [
  | inl y ↦
      let at : strtol (codes "-1") ≡ pos n = ap strtol (sym (same_minus_one text y)) ∙ e in
      absurd (cc)
  | inr other ↦ other
]

outcome_told :
    (q : Query) (o : Outcome)
    → IsAction q.action
    → ReadsAs q.action o.0
    → report q.action (respond q o).sent ≡ told q.action (respond q o).sent
unfolding format_int same decimal told wording
outcome_told q (none, t) a h = failure_told q.action a
outcome_told q (some text, t) a h = rw (no_failure text h.0 h.2) (success_told q.action text a h)

-- What the client prints for the reply to a query that it sends is the text of that kind of reply.
pub report_lem :
    (s : Server) (socket : ℤ) (q : Query) (h : Handled)
    → IsValid s
    → IsSent q
    → (q.action ==ℤ pos 0) ≡ false
    → handle_query s socket q ≡ some h
    → report q.action h.sent ≡ told q.action h.sent
unfolding handle_query
report_lem s socket q h valid sent ne k =
    let good = answer-Good s socket q valid (validate-InRange q.user q.action q.payload sent) in
    elim (Option-cases (answer s socket q)) [
      | inl e ↦ absurd (rw (e) at good)
      | inr (o, e) ↦
          let (v, reads) : Good q.action o = rw (e) at good in
          let at : some (respond q o) ≡ some h = sym (rw (e) refl) ∙ k in
          subst (λ g. report q.action g.sent ≡ told q.action g.sent)
            (ap (λ p. elim p [ some g ↦ g | none ↦ h ]) at)
            (outcome_told q o (IsAction-IsAction q.user q.action q.payload sent ne) reads)
    ]

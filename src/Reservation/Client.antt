-- ===== src/Reservation/Client.antt =====
-- pa3/pa3_client.c: which queries are sent, and what is printed for a reply.
use systemprogramminglab.Prelude.{
  ℕ, ◌^◌, ◌-◌, Bool, true, false, not, ◌||◌, Option, none, some, List, ◌++◌, ltb, if◌then◌else◌,
  codes, ℤ, pos, negsuc, ◌==ℤ◌, is_neg, ltb_pos,
}
use systemprogramminglab.Libc.Decimal.{format_int}
use systemprogramminglab.Libc.Decimal.Casts.{strtol_int}

-- `i > n` for a constant `n ≥ 0`
abbrev gt_pos : ℤ → ℕ → Bool
gt_pos (pos i) n = ltb n i
gt_pos (negsuc i) n = false

unfoldable pub validate_query : ℤ → ℤ → ℤ → Bool
validate_query user action seat =
    if is_neg user || gt_pos user 1023
    then false
    else if is_neg action || gt_pos action 5
    then false
    else if action ==ℤ pos 1
    then not (is_neg seat || gt_pos seat (2 ^ 31 - 1))
    else if (action ==ℤ pos 2) || (action ==ℤ pos 3)
    then not (is_neg seat || not (ltb_pos seat 256))
    else true

-- What one line of input leads to.
pub data Sent : Type 0 where
  invalid : Sent
  terminate : Sent
  query : ℤ → ℤ → ℤ → Sent

-- `fields` are the numbers that `sscanf` found, if it found three.
unfoldable pub handle_line : Option (ℤ × ℤ × ℤ) → Sent
unfolding validate_query
handle_line none = invalid
handle_line (some (user, action, seat)) =
    if not (validate_query user action seat)
    then invalid
    else if action ==ℤ pos 0
    then terminate
    else query user action seat

abbrev pub failed : ℤ → Bool
failed code = code ==ℤ negsuc 0

-- The line printed for the reply to a query, the newline of `puts` included.
unfoldable pub report : ℤ → List ℕ → List ℕ
unfolding strtol_int format_int
report action response =
    let code = strtol_int response in
    if action ==ℤ pos 1
    then (if failed code then codes "Failed to log in.\n" else codes "Logged in successfully.\n")
    else if action ==ℤ pos 2
    then (if failed code
        then codes "Failed to book.\n"
        else codes "Seat " ++ (format_int code ++ codes " booked.\n"))
    else if action ==ℤ pos 3
    then (if failed code
        then codes "Failed to confirm booking.\n"
        else codes "Booked seats: \n" ++ (response ++ codes "\n"))
    else if action ==ℤ pos 4
    then (if failed code
        then codes "Failed to cancel booking.\n"
        else codes "Cancelled seat number: " ++ (format_int code ++ codes "\n"))
    else if action ==ℤ pos 5
    then (if failed code then codes "Failed to log out.\n" else codes "Logged out successfully.\n")
    else codes "Query is invalid.\n"

-- `disconnect`: the line printed for the reply to the terminating query.
unfoldable pub disconnect_report : List ℕ → List ℕ
unfolding strtol_int
disconnect_report response =
    if strtol_int response ==ℤ pos 256
    then codes "Connection terminated.\n"
    else codes "Failed to disconnect.\n"

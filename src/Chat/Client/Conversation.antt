-- ===== src/Chat/Client/Conversation.antt =====
-- A client of the chat of week13, from its first message to `quit`.
use systemprogramminglab.Prelude.{
  ℕ, ◌≡◌, ◌≢◌, ◌≤◌, ◌<◌, ◌+◌, refl, ◌∙◌, sym, ap, false, Option, none, some, List, [], ◌∷◌, ◌++◌,
  ◌>>=◌, length, codes, All, Lacks, append_assoc, lt→ltb, pos, take_all,
}
use systemprogramminglab.Libc.Texts.{c_text, same}
use systemprogramminglab.Chat.{Message}
use systemprogramminglab.Chat.Client.{leaves, handle_input, handle_server_response, joining}
use systemprogramminglab.Chat.Client.Said.{spoken, handle_input_says}
use systemprogramminglab.Chat.Client.Program.{
  Woken, Outcome, ExitCode, success, farewell, handle_answer, handle_typed, typed_input,
  followed_by, client_rounds, run_client,
}

-- A line that is sent on, and a message that is printed.
abbrev pub IsSaid : Option (List ℕ) → Type 0
IsSaid none = Unit
IsSaid (some line) =
    (line ≢ []) × (length line < 80) × Lacks 0 line × (same line (codes "quit\n") ≡ false)

abbrev pub IsHeard : Option (Option Message) → Type 0
IsHeard none = Unit
IsHeard (some none) = ⊥
IsHeard (some (some msg)) = length msg.username + length msg.text < 82

abbrev pub IsRound : Woken → Type 0
IsRound w = IsSaid w.typed × IsHeard w.answered

abbrev pub said_by : List ℕ → Option (List ℕ) → List Message
said_by username none = []
said_by username (some line) = spoken username line ∷ []

abbrev pub heard_of : Option (Option Message) → List ℕ
heard_of (some (some msg)) = msg.username ++ msg.text
heard_of others = []

-- What a client has said, and what it has heard.
unfoldable pub all_said : List ℕ → List Woken → List Message
all_said username [] = []
all_said username (w ∷ ws) = said_by username w.typed ++ all_said username ws

unfoldable pub all_heard : List Woken → List ℕ
all_heard [] = []
all_heard (w ∷ ws) = heard_of w.answered ++ all_heard ws

abbrev pub leaving : List ℕ → Message
leaving username = record { username = username; text = codes "quit\n"; kind = pos 2 }

-- The round in which `quit` is typed.
abbrev pub quits : Option (Option Message) → Woken
quits answered = record { typed = some (codes "quit\n"); answered = answered }

answer_lem :
    (a : Option (Option Message))
    → IsHeard a
    → handle_answer a ≡ some (record { sent = []; printed = heard_of a; exit = none })
unfolding handle_server_response
answer_lem none h = refl
answer_lem (some none) h = absurd h
answer_lem (some (some msg)) h = rw (lt→ltb (length msg.username + length msg.text) 82 h) refl

round_lem :
    (username : List ℕ) (t : Option (List ℕ)) (a : Option (Option Message))
    (next : Outcome → Option Outcome)
    → length username ≤ 19
    → IsSaid t
    → IsHeard a
    → (do input ← typed_input username t; o ← handle_typed input a; next o)
      ≡ next (record { sent = said_by username t; printed = heard_of a; exit = none })
round_lem username none a next short h k = rw (answer_lem a k) refl
round_lem username (some line) a next short (ne, fits, clear, other) k =
    rw (handle_input_says username line short ne fits clear other, answer_lem a k) refl

quit_lem :
    (username : List ℕ)
    → length username ≤ 19
    → handle_input username (codes "quit\n") ≡ some (leaves (leaving username))
unfolding handle_input c_text same
quit_lem username short = rw (take_all 19 username short) refl

outcome_lem :
    {sent sent' : List Message} {printed printed' : List ℕ} {code : Option ExitCode}
    → sent ≡ sent'
    → printed ≡ printed'
    → ◌≡◌ {A = Outcome}
        (record { sent = sent; printed = printed; exit = code })
        (record { sent = sent'; printed = printed'; exit = code })
outcome_lem e e' = cc

rounds_lem :
    (username : List ℕ) (ws more : List Woken) (a : Option (Option Message))
    → length username ≤ 19
    → All IsRound ws
    → client_rounds username (ws ++ (quits a ∷ more))
      ≡ some (record {
        sent = all_said username ws ++ (leaving username ∷ []);
        printed = all_heard ws ++ farewell;
        exit = some success;
      })
unfolding client_rounds all_said all_heard
rounds_lem username [] more a short h =
    ap
      (λ i. do
        input ← i
        o ← handle_typed input a
        followed_by o o.exit (client_rounds username more))
      (quit_lem username short)
rounds_lem username (w ∷ ws) more a short h =
    round_lem username w.typed w.answered
      (λ o. followed_by o o.exit (client_rounds username (ws ++ (quits a ∷ more)))) short h.0.0
      h.0.1
    ∙ rw (rounds_lem username ws more a short h.1) (
        ap some (
          outcome_lem
            (sym (
              append_assoc (said_by username w.typed) (all_said username ws)
                (leaving username ∷ [])))
            (sym (append_assoc (heard_of w.answered) (all_heard ws) farewell))))

-- A client with a name of at most 19 bytes, and rounds in which it may have a line to send, of at
-- most 79 bytes, none of them NUL, not empty and not `quit`, and may have a message to print, of at
-- most 81 bytes with its name: up to the round in which `quit` is typed, it sends its first
-- message, the lines in order and a last message, prints the messages in order and a farewell, and
-- exits with success.
pub run_client_lem :
    (username : List ℕ) (ws more : List Woken) (a : Option (Option Message))
    → length username ≤ 19
    → All IsRound ws
    → run_client username (ws ++ (quits a ∷ more))
      ≡ some (record {
        sent = joining username ∷ (all_said username ws ++ (leaving username ∷ []));
        printed = all_heard ws ++ farewell;
        exit = some success;
      })
unfolding run_client
run_client_lem username ws more a short h = rw (rounds_lem username ws more a short h) refl

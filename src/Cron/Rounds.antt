-- ===== src/Cron/Rounds.antt =====
-- The loop of week7/cron.c: a round, and the wait for the next minute. Times are seconds; a minute
-- has 60 of them.
use systemprogramminglab.Prelude.{
  ℕ, zero, suc, ◌+◌, ◌-◌, ◌*◌, ◌/◌, ◌%◌, ◌<◌, ◌≡◌, refl, ◌∙◌, ap, Option, some, List, [], ◌∷◌,
  ◌>>=◌, All, length, arith,
}
use systemprogramminglab.Cron.{Time, check}

-- What is slept after a round that ends at a time.
unfoldable pub pause : ℕ → ℕ
pause time = 60 - time % 60 % 60

-- Rounds from a time on: a delay is what a round takes, and a sleep takes what is asked for. `clock` is `localtime`, and `crontab` the file as it is at a time. The commands that
-- are run, or none, for each round.
unfoldable pub cron_rounds :
    (ℕ → Time) → (ℕ → List ℕ) → List ℕ → ℕ → Option (List (Option (List ℕ)))
unfolding check pause
cron_rounds clock crontab [] time = some []
cron_rounds clock crontab (delay ∷ delays) time =
    let later = cron_rounds clock crontab delays (time + delay + pause (time + delay)) in
    do command ← check (clock time) (crontab time); commands ← later; some (command ∷ commands)

-- A round at the start of each of so many minutes.
unfoldable pub each_minute : (ℕ → Time) → (ℕ → List ℕ) → ℕ → ℕ → Option (List (Option (List ℕ)))
each_minute clock crontab zero minute = some []
each_minute clock crontab (suc n) minute =
    let later = each_minute clock crontab n (minute + 1) in
    do
      command ← check (clock (minute * 60)) (crontab (minute * 60))
      commands ← later
      some (command ∷ commands)

-- A round that takes less than a minute is followed by the start of the next one.
pause_lem :
    (minute delay : ℕ)
    → delay < 60
    → minute * 60 + delay + pause (minute * 60 + delay) ≡ (minute + 1) * 60
unfolding pause
pause_lem minute delay h = omega arith

pub cron_rounds-each_minute :
    (clock : ℕ → Time) (crontab : ℕ → List ℕ) (delays : List ℕ) (minute : ℕ)
    → All (λ delay. delay < 60) delays
    → cron_rounds clock crontab delays (minute * 60)
      ≡ each_minute clock crontab (length delays) minute
unfolding cron_rounds each_minute
cron_rounds-each_minute clock crontab [] minute h = refl
cron_rounds-each_minute clock crontab (delay ∷ delays) minute h =
    ap
      (λ later. do
        command ← check (clock (minute * 60)) (crontab (minute * 60))
        commands ← later
        some (command ∷ commands))
      (ap (cron_rounds clock crontab delays) (pause_lem minute delay h.0)
        ∙ cron_rounds-each_minute clock crontab delays (minute + 1) h.1)

pause_first :
    (time delay : ℕ)
    → time % 60 + delay < 60
    → time + delay + pause (time + delay) ≡ (time / 60 + 1) * 60
unfolding pause
pause_first time delay h = omega arith

-- Started at any time, with a first round that ends in the minute in which it starts, and later
-- rounds that take less than a minute each: after the first round there is one at the start of each
-- minute, none left out and none twice, for as many rounds as there are.
pub cron_rounds_lem :
    (clock : ℕ → Time) (crontab : ℕ → List ℕ) (delays : List ℕ) (time delay : ℕ)
    → time % 60 + delay < 60
    → All (λ delay. delay < 60) delays
    → cron_rounds clock crontab (delay ∷ delays) time ≡ (do
      command ← check (clock time) (crontab time)
      commands ← each_minute clock crontab (length delays) (time / 60 + 1)
      some (command ∷ commands))
unfolding cron_rounds
cron_rounds_lem clock crontab delays time delay first h =
    ap
      (λ later. do
        command ← check (clock time) (crontab time)
        commands ← later
        some (command ∷ commands))
      (ap (cron_rounds clock crontab delays) (pause_first time delay first)
        ∙ cron_rounds-each_minute clock crontab delays (time / 60 + 1) h)

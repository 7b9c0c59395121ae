-- ===== src/Shell/Command/Outputs.antt =====
-- The rounds for the redirections of the output.
use systemprogramminglab.Prelude.{
  ℕ, suc, ◌+◌, ◌≡◌, ◌≢◌, refl, ◌∙◌, sym, ap, true, false, Option, none, some, List, [], ◌∷◌, ◌++◌,
  append_assoc, length, drop, Lacks, arith, Lacks-append,
}
use systemprogramminglab.Libc.Texts.{
  strstr, strstr-Lacks, starts, strstr_miss, starts_first, starts_second,
}
use systemprogramminglab.Shell.Command.{Scan, find_redirection}
use systemprogramminglab.Shell.Command.Scans.{
  Behind, nothing, space, nul, bytes, seen, trimmed, marked,
}
use systemprogramminglab.Shell.Command.Rounds.{
  find_redirection_missing, find_redirection_found, IsName,
}

-- Where a command writes.
pub data Target : Type 0 where
  stays : Target
  truncates : List ℕ → Target
  appends : List ℕ → Target

-- How that is written.
abbrev pub output_text : Target → List ℕ
output_text stays = []
output_text (truncates f) = b' ' ∷ b'>' ∷ b' ' ∷ f
output_text (appends f) = b' ' ∷ b'>' ∷ b'>' ∷ b' ' ∷ f

-- A name that reads neither as a redirection nor as its end.
abbrev pub IsPlainName : List ℕ → Type 0
IsPlainName f = IsName f × (Lacks b'>' f × Lacks b'<' f)

abbrev pub IsTarget : Target → Type 0
IsTarget stays = Unit
IsTarget (truncates f) = IsPlainName f
IsTarget (appends f) = IsPlainName f

pub seen-Lacks : (b : ℕ) (z : Behind) → b ≢ b' ' → Lacks b (seen z)
seen-Lacks b nothing ne = tt
seen-Lacks b space ne = (λ e. ne (sym e), tt)
seen-Lacks b nul ne = tt

-- A text with ` >> ` has no ` > `.
double_apart : (r : List ℕ) → starts (b' ' ∷ b'>' ∷ b' ' ∷ []) (b' ' ∷ b'>' ∷ b'>' ∷ r) ≡ false
unfolding starts
double_apart r = refl

double_only :
    (r : List ℕ)
    → Lacks b'>' r
    → strstr (b' ' ∷ b'>' ∷ b'>' ∷ b' ' ∷ r) (b' ' ∷ b'>' ∷ b' ' ∷ []) ≡ none
double_only r k = strstr_miss _ _ _ (double_apart (b' ' ∷ r)) (
    strstr_miss _ _ _ (starts_first _ _ _ _ (cc)) (
      strstr_miss _ _ _ (starts_first _ _ _ _ (cc))
        (strstr-Lacks b' ' b'>' (b' ' ∷ []) (b' ' ∷ r) (cc, k))))

not_here :
    (b c d : ℕ) (mid r : List ℕ)
    → Lacks b mid
    → d ≢ b
    → starts (b' ' ∷ b ∷ b' ' ∷ []) (c ∷ (mid ++ (d ∷ r))) ≡ false
not_here b c d [] r h ne = starts_second _ _ _ _ _ _ ne
not_here b c d (e ∷ mid) r h ne = starts_second _ _ _ _ _ _ h.0

no_copy :
    (b d : ℕ) (mid r : List ℕ)
    → Lacks b mid
    → d ≢ b
    → strstr (d ∷ r) (b' ' ∷ b ∷ b' ' ∷ []) ≡ none
    → strstr (mid ++ (d ∷ r)) (b' ' ∷ b ∷ b' ' ∷ []) ≡ none
no_copy b d [] r h ne k = k
no_copy b d (c ∷ mid) r h ne k =
    strstr_miss _ _ _ (not_here b c d mid r h.1 ne) (no_copy b d mid r h.1 ne k)

no_single :
    (mid r : List ℕ)
    → Lacks b'>' mid
    → Lacks b'>' r
    → strstr (mid ++ (b' ' ∷ b'>' ∷ b'>' ∷ b' ' ∷ r)) (b' ' ∷ b'>' ∷ b' ' ∷ []) ≡ none
no_single mid r h k = no_copy b'>' b' ' mid _ h (cc) (double_only r k)

-- A text that begins with `>` and has no other has no ` >> `.
no_double :
    (r : List ℕ) → Lacks b'>' r → strstr (b'>' ∷ b' ' ∷ r) (b' ' ∷ b'>' ∷ b'>' ∷ b' ' ∷ []) ≡ none
no_double r h =
    strstr_miss _ _ _ (starts_first _ _ _ _ (cc))
      (strstr-Lacks b' ' b'>' (b'>' ∷ b' ' ∷ []) (b' ' ∷ r) (cc, h))

pub drop_behind : (pre rest : List ℕ) (a : ℕ) → drop (suc (length pre)) (pre ++ (a ∷ rest)) ≡ rest
drop_behind [] rest a = refl
drop_behind (x ∷ pre) rest a = drop_behind pre rest a

abbrev pub single : List ℕ
single = b' ' ∷ b'>' ∷ b' ' ∷ []

abbrev pub double : List ℕ
double = b' ' ∷ b'>' ∷ b'>' ∷ b' ' ∷ []

-- The two rounds.
abbrev pub find_output : Scan → Scan × (Option ℕ × Option ℕ)
find_output s =
    let (t, output) = find_redirection single true s in
    let (u, append) = find_redirection double true t in (u, (output, append))

-- Where they leave a text in which an output is written behind `pre`.
abbrev pub found_output : Target → List ℕ → Behind → Scan → Scan × (Option ℕ × Option ℕ)
found_output stays pre z s = (s, (none, none))
found_output (truncates f) pre z s =
    (marked b' ' (b'>' ∷ b' ' ∷ []) pre f z s.command_end, (some (length pre + 3), none))
found_output (appends f) pre z s =
    (marked b' ' (b'>' ∷ b'>' ∷ b' ' ∷ []) pre f z s.command_end, (none, some (length pre + 4)))

tail_Lacks : (f : List ℕ) (z : Behind) → Lacks b'>' f → Lacks b'>' (f ++ seen z)
tail_Lacks f z h = Lacks-append b'>' f (seen z) h (seen-Lacks b'>' z (cc))

pub single-Lacks : Lacks 0 single
single-Lacks = ground arith

pub double-Lacks : Lacks 0 double
double-Lacks = ground arith

truncating_Lacks : (f : List ℕ) → Lacks 0 f → Lacks 0 (b'>' ∷ b' ' ∷ f)
truncating_Lacks f h = (cc, (cc, h))

module _ (pre mid text : List ℕ) (z : Behind) (at : ℕ) (end : Option ℕ)
    (l : at + length mid ≡ length pre) (h : Lacks b'>' mid) (h0 : Lacks 0 mid) where
  find_stays :
      drop at text ≡ mid ++ bytes z
      → find_output (record { text = text; at = at; command_end = end })
        ≡ found_output stays pre z (record { text = text; at = at; command_end = end })
  find_stays d =
      let s : Scan = record { text = text; at = at; command_end = end } in
      rw
        (
          find_redirection_missing single mid z true s d h0
              (strstr-Lacks b' ' b'>' (b' ' ∷ []) (mid ++ seen z) (tail_Lacks mid z h)),
          find_redirection_missing double mid z true s d h0
              (strstr-Lacks b' ' b'>' (b'>' ∷ b' ' ∷ []) (mid ++ seen z) (tail_Lacks mid z h)),
        )
        refl

  find_truncates :
      (f : List ℕ)
      → drop at text ≡ mid ++ (single ++ (f ++ bytes z))
      → text ≡ pre ++ (single ++ (f ++ bytes z))
      → IsPlainName f
      → find_output (record { text = text; at = at; command_end = end })
        ≡ found_output (truncates f) pre z (record { text = text; at = at; command_end = end })
  find_truncates f d e n =
      let t = marked b' ' (b'>' ∷ b' ' ∷ []) pre f z end in
      rw
        (
          find_redirection_found b' ' b'>' (b' ' ∷ []) pre mid f text z at end d e l (cc) h
              (Lacks-append 0 mid single h0 single-Lacks) n.0,
          find_redirection_missing double (b'>' ∷ b' ' ∷ f) (trimmed z) true t (drop_behind pre _ 0)
              (truncating_Lacks f n.0.1)
              (no_double (f ++ seen (trimmed z)) (tail_Lacks f (trimmed z) n.1.0)),
        )
        refl

  find_appends :
      (f : List ℕ)
      → drop at text ≡ mid ++ (double ++ (f ++ bytes z))
      → text ≡ pre ++ (double ++ (f ++ bytes z))
      → IsPlainName f
      → find_output (record { text = text; at = at; command_end = end })
        ≡ found_output (appends f) pre z (record { text = text; at = at; command_end = end })
  find_appends f d e n =
      let s : Scan = record { text = text; at = at; command_end = end } in
      rw
        (
          find_redirection_missing single (mid ++ (double ++ f)) z true s
              (d ∙ sym (append_assoc mid (double ++ f) (bytes z)))
              (Lacks-append 0 mid (double ++ f) h0 (Lacks-append 0 double f double-Lacks n.0.1))
              (ap (λ t. strstr t single) (append_assoc mid (double ++ f) (seen z))
                ∙ no_single mid (f ++ seen z) h (tail_Lacks f z n.1.0)),
          find_redirection_found b' ' b'>' (b'>' ∷ b' ' ∷ []) pre mid f text z at end d e l (cc) h
              (Lacks-append 0 mid double h0 double-Lacks) n.0,
        )
        refl

  -- The output that is written behind a text without `>` is found.
  pub find_output_lem :
      (o : Target)
      → drop at text ≡ mid ++ (output_text o ++ bytes z)
      → text ≡ pre ++ (output_text o ++ bytes z)
      → IsTarget o
      → find_output (record { text = text; at = at; command_end = end })
        ≡ found_output o pre z (record { text = text; at = at; command_end = end })
  find_output_lem stays d e n = find_stays d
  find_output_lem (truncates f) d e n = find_truncates f d e n
  find_output_lem (appends f) d e n = find_appends f d e n

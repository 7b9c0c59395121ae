-- ===== src/Shell/Command/Rounds.antt =====
-- The rounds of the loop over the redirections, on a text that has some of them.
use systemprogramminglab.Prelude.{
  ℕ, suc, ◌+◌, ◌≡◌, ◌≢◌, refl, ◌∙◌, sym, Bool, true, Option, none, some, List, ◌∷◌, ◌++◌,
  append_assoc, length, drop, Lacks, Lacks-append,
}
use systemprogramminglab.Libc.Texts.{strstr, strstr_first, EndsNot}
use systemprogramminglab.Shell.Command.{Scan, find_redirection}
use systemprogramminglab.Shell.Command.Scans.{Behind, bytes, seen, c_text-append, marked, mark_lem}

pub find_redirection_missing :
    (op t : List ℕ) (z : Behind) (is_null : Bool) (s : Scan)
    → drop s.at s.text ≡ t ++ bytes z
    → Lacks 0 t
    → strstr (t ++ seen z) op ≡ none
    → find_redirection op is_null s ≡ (s, none)
unfolding find_redirection
find_redirection_missing op t z is_null s e h m = rw (e, c_text-append t z h, m) refl

-- A name behind a redirection.
abbrev pub IsName : List ℕ → Type 0
IsName f = EndsNot b' ' f × Lacks 0 f

pub find_redirection_found :
    (a b : ℕ) (q pre mid f text : List ℕ) (z : Behind) (at : ℕ) (end : Option ℕ)
    → drop at text ≡ mid ++ ((a ∷ b ∷ q) ++ (f ++ bytes z))
    → text ≡ pre ++ ((a ∷ b ∷ q) ++ (f ++ bytes z))
    → at + length mid ≡ length pre
    → a ≢ b
    → Lacks b mid
    → Lacks 0 (mid ++ (a ∷ b ∷ q))
    → IsName f
    → find_redirection (a ∷ b ∷ q) true (record { text = text; at = at; command_end = end })
      ≡ (marked a (b ∷ q) pre f z end, some (length pre + suc (suc (length q))))
unfolding find_redirection
find_redirection_found a b q pre mid f text z at end d e l ne h h0 n =
    let whole : drop at text ≡ ((mid ++ (a ∷ b ∷ q)) ++ f) ++ bytes z =
      d
      ∙ sym (append_assoc mid (a ∷ b ∷ q) (f ++ bytes z))
      ∙ sym (append_assoc (mid ++ (a ∷ b ∷ q)) f (bytes z)) in
    let parted : ((mid ++ (a ∷ b ∷ q)) ++ f) ++ seen z ≡ mid ++ ((a ∷ b ∷ q) ++ (f ++ seen z)) =
      append_assoc (mid ++ (a ∷ b ∷ q)) f (seen z) ∙ append_assoc mid (a ∷ b ∷ q) (f ++ seen z) in
    rw
      (
        whole,
        c_text-append ((mid ++ (a ∷ b ∷ q)) ++ f) z (Lacks-append 0 _ f h0 n.1),
        parted,
        strstr_first a b q mid (f ++ seen z) ne h,
        l,
        e,
      )
      (mark_lem a (b ∷ q) pre f z at end n.0 n.1)

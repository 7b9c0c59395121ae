-- ===== src/Shell/Command.antt =====
-- `parse_command` of pa2/main.c. The text of a command is the list of its bytes, with a NUL behind
-- the last one; a pointer into it is an offset.
pub mod Scans
pub mod Rounds
pub mod Outputs
pub mod Redirected
pub mod Reading
pub mod Written
pub mod Swapped
use systemprogramminglab.Prelude.{
  ℕ, zero, suc, ◌+◌, ◌-◌, Bool, true, false, ◌||◌, Option, none, some, List, [], ◌∷◌, ◌==◌, ltb,
  if◌then◌else◌, ◌>>=◌, length, get_or, set, drop, codes,
}
use systemprogramminglab.Libc.Texts.{c_text, same, strstr, tokens}

pub data Kind : Type 0 where
  commandline : Kind
  pipeline : Kind
  commands : Kind
  command : Kind
  executable : Kind
  implement : Kind
  builtin : Kind
  path : Kind
  unknown : Kind

pub record Command : Type 0 where
  pub kind : Kind
  pub args : List (List ℕ)

-- `redirect_in`, `redirect_out` and `redirect_out_append`, as the texts that they point to.
pub record Redirects : Type 0 where
  pub input : Option (List ℕ)
  pub output : Option (List ℕ)
  pub append : Option (List ℕ)

-- Between two redirections: the text, `pos` and `command_end`.
pub record Scan : Type 0 where
  pub text : List ℕ
  pub at : ℕ
  pub command_end : Option ℕ

abbrev pub is_none {ℓ} : {A : Type ℓ} → Option A → Bool
is_none none = true
is_none (some a) = false

abbrev pub or_else {ℓ} : {A : Type ℓ} → Option A → A → A
or_else none b = b
or_else (some a) b = a

-- The text behind `from` loses a space at its end.
unfoldable pub trim : List ℕ → ℕ → List ℕ
trim text from =
    let last = from + length (c_text (drop from text)) - 1 in
    if get_or text last 0 == b' ' then set text last 0 else text

-- What a redirection found at `p` does. The pointer is set only if it was NULL.
unfoldable pub mark : List ℕ → Bool → Scan → ℕ → Scan × Option ℕ
unfolding trim
mark op is_null s p =
    let from = p + length op in
    let text = if is_null then trim s.text from else s.text in
    (
      record {
        text = set text p 0;
        at = suc p;
        command_end = some (or_else s.command_end (suc p));
      },
      if is_null then some from else none,
    )

-- For `strstr` returning NULL or an offset from `pos`.
unfoldable pub handle_match : List ℕ → Bool → Scan → Option ℕ → Scan × Option ℕ
unfolding mark
handle_match op is_null s none = (s, none)
handle_match op is_null s (some o) = mark op is_null s (s.at + o)

-- A round of the loop over the redirections.
unfoldable pub find_redirection : List ℕ → Bool → Scan → Scan × Option ℕ
unfolding handle_match
find_redirection op is_null s = handle_match op is_null s (strstr (c_text (drop s.at s.text)) op)

-- What a pointer set to the offset `from`, if it is, points to in the end.
abbrev pub pointed : List ℕ → Option (List ℕ) → Option ℕ → Option (List ℕ)
pointed text known none = known
pointed text known (some from) = some (c_text (drop from text))

unfoldable pub one_of : List ℕ → List (List ℕ) → Bool
one_of w [] = false
one_of w (v ∷ vs) = same w v || one_of w vs

abbrev pub executables : List (List ℕ)
executables = codes "ls" ∷ codes "man" ∷ codes "grep" ∷ codes "sort" ∷ codes "awk" ∷ codes "bc" ∷ []

abbrev pub implemented : List (List ℕ)
implemented =
    codes "head"
    ∷ codes "tail"
    ∷ codes "cat"
    ∷ codes "cp"
    ∷ codes "mv"
    ∷ codes "rm"
    ∷ codes "pwd"
    ∷ []

abbrev pub builtins : List (List ℕ)
builtins = codes "cd" ∷ codes "exit" ∷ []

abbrev pub is_path : List ℕ → Bool
is_path [] = false
is_path (c ∷ w) = c == b'.'

unfoldable pub kind_of : List ℕ → Kind
unfolding one_of
kind_of w =
    if one_of w executables
    then executable
    else if one_of w implemented
    then implement
    else if one_of w builtins
    then builtin
    else if is_path w
    then path
    else unknown

-- The words of a command, of which there must be one, and at most 199.
unfoldable pub classify : List (List ℕ) → Option Command
unfolding kind_of
classify [] = none
classify (w ∷ ws) =
    if ltb (length (w ∷ ws)) 200 then some (record { kind = kind_of w; args = w ∷ ws }) else none

abbrev pub cut : List ℕ → Option ℕ → List ℕ
cut text none = text
cut text (some e) = set text e 0

unfoldable pub parse_command : List ℕ → Redirects → Option (Command × Redirects)
unfolding find_redirection classify
parse_command cmd known =
    let start : Scan = record { text = cmd; at = 0; command_end = none } in
    let (s, input) = find_redirection (codes " < ") (is_none known.input) start in
    let (t, output) = find_redirection (codes " > ") (is_none known.output) s in
    let (u, append) = find_redirection (codes " >> ") (is_none known.append) t in
    let text = cut u.text u.command_end in
    do
      parsed ← classify (tokens b' ' (c_text text))
      some (
        parsed,
        record {
          input = pointed text known.input input;
          output = pointed text known.output output;
          append = pointed text known.append append;
        },
      )

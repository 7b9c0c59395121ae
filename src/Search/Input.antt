-- ===== src/Search/Input.antt =====
-- `resolve_input` of pa1/main.c: the kind of a query and its words.
pub mod Split
pub mod RoundTrip
use systemprogramminglab.Prelude.{
  ℕ, zero, suc, ◌+◌, ◌-◌, Bool, true, false, not, Option, none, some, List, [], ◌∷◌, ltb, ◌==◌,
  if◌then◌else◌, codes, length, take, drop, drop_last,
}
use systemprogramminglab.Search.Text.{deref, stringcmp, issubstring}
use systemprogramminglab.Libc.Texts.{c_text}
use systemprogramminglab.Search.Run.{Run, done, fault, out_of_fuel}

-- `enum MODE`
pub data Mode : Type 0 where
  sword mword cword regexp exit : Mode

-- How far `inputp1` goes until it stands on a space or on the NUL.
unfoldable pub span_length : List ℕ → ℕ
span_length [] = 0
span_length (c ∷ s) = if c == b' ' then 0 else suc (span_length s)

-- The loop of the MWORD case, from `inputp1` and `inputp2` on, which are equal at its head. A
-- round consumes a byte at least.
unfoldable pub split_words : ℕ → List ℕ → Run (List (List ℕ))
split_words zero input = out_of_fuel
split_words (suc fuel) [] = done []
split_words (suc fuel) (c ∷ s) =
    let n = span_length (c ∷ s) in
    elim (drop n (c ∷ s)) [
      | [] ↦ done (take n (c ∷ s) ∷ [])
      | _ ∷ rest ↦ elim (split_words fuel rest) [
        | done words ↦ done (take n (c ∷ s) ∷ words)
        | fault ↦ fault
        | out_of_fuel ↦ out_of_fuel
      ]
    ]

-- The text between the quotes. With one quote and nothing else `stringncpy` is asked for -1 bytes,
-- and writes its NUL in front of the array.
unfoldable pub quoted : List ℕ → Run (Mode × List (List ℕ))
quoted input =
    if ltb (length input) 2
    then fault
    else done (cword, take (length input - 2) (drop 1 input) ∷ [])

-- What `resolve_input` does with the text of the input: the kind of query, and the list
-- `inputList` that it leaves.
unfoldable pub resolve_text : List ℕ → Run (Mode × List (List ℕ))
resolve_text input =
    if stringcmp (codes "PA1EXIT") input
    then done (exit, [])
    else if deref input == b'"'
    then quoted input
    else elim (issubstring (codes "*") input) [
      | some asterisk ↦ done (regexp, take asterisk input ∷ drop (suc asterisk) input ∷ [])
      | none ↦ elim (issubstring (codes " ") input) [
        | none ↦ done (sword, input ∷ [])
        | some _ ↦ elim (split_words (suc (length input)) input) [
          | done words ↦ done (mword, words)
          | fault ↦ fault
          | out_of_fuel ↦ out_of_fuel
        ]
      ]
    ]

-- The array has BUFSIZE = 4096 bytes, and one `read` takes no more of the bytes that there are; with
-- none of them `input[nbytes - 1]` lies in front of the array.
unfoldable pub resolve_input : List ℕ → Run (Mode × List (List ℕ))
unfolding c_text resolve_text
resolve_input [] = fault
resolve_input (b ∷ bytes) = resolve_text (c_text (drop_last (take 4096 (b ∷ bytes))))

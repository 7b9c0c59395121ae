-- ===== src/Messages/Bytes.antt =====
-- What the bytes of a message of week10/main.c carry.
use systemprogramminglab.Prelude.{
  ℕ, zero, suc, ◌+◌, ◌*◌, ◌/◌, ◌%◌, ◌≤◌, ◌<◌, ◌≡◌, refl, ◌∙◌, ap, some, List, [], ◌∷◌, ◌++◌, ◌>>=◌,
  length, take, drop, Lacks, append_assoc, length-take, lt→ltb, arith, ℤ, pos,
}
use systemprogramminglab.Libc.Texts.{c_text}
use systemprogramminglab.Libc.Decimal.Casts.{int_of, to_int_small}
use systemprogramminglab.Messages.{
  int_bytes, bytes_int, ack_type, string_in, strcpy, message_bytes, read_message, ack_bytes,
  read_ack,
}

-- The sender that a message carries.
bytes_int-int_bytes :
    (n : ℕ) (rest : List ℕ) → n < 2147483648 → bytes_int (int_bytes (pos n) ++ rest) ≡ pos n
unfolding bytes_int int_bytes
bytes_int-int_bytes n rest h =
    let at : n % 4294967296 % 256
          + 256 * (n % 4294967296 / 256 % 256)
          + 65536 * (n % 4294967296 / 65536 % 256)
          + 16777216 * (n % 4294967296 / 16777216 % 256)
        ≡ n =
      omega arith in
    ap int_of at ∙ ground arith

pub c_text-Lacks : (s : List ℕ) → Lacks 0 (c_text s)
unfolding c_text
c_text-Lacks [] = tt
c_text-Lacks (c ∷ s) = ground (arith, c_text-Lacks s)

pub string_in_lem : (s rest : List ℕ) → Lacks 0 s → string_in (s ++ (0 ∷ rest)) ≡ some s
unfolding string_in
string_in_lem [] rest h = refl
string_in_lem (c ∷ s) rest h = ground (arith, string_in_lem s rest h.1)

take-append_long :
    (n : ℕ) (s : List ℕ) (c : ℕ) (rest : List ℕ)
    → length s < n
    → (more : List ℕ) × (take n (s ++ (c ∷ rest)) ≡ s ++ (c ∷ more))
take-append_long zero s c rest h = absurd (omega arith)
take-append_long (suc n) [] c rest h = (take n rest, refl)
take-append_long (suc n) (x ∷ s) c rest h =
    let (more, e) = take-append_long n s c rest (omega arith) in (more, ap (λ t. x ∷ t) e)

take-append_short : (n : ℕ) (s rest : List ℕ) → n ≤ length s → take n (s ++ rest) ≡ take n s
take-append_short zero s rest h = refl
take-append_short (suc n) [] rest h = absurd (omega arith)
take-append_short (suc n) (c ∷ s) rest h =
    ap (λ t. c ∷ t) (take-append_short n s rest (omega arith))

-- A message that prints as `line` from the user `n`, whatever the reader's array held.
abbrev pub Carries : List ℕ → ℤ × List ℕ → Type 0
Carries m message = (stale : List ℕ) → read_message stale m ≡ some message

abbrev pub CarriesTime : List ℕ → List ℕ → Type 0
CarriesTime m time = (stale : List ℕ) → read_ack stale m ≡ some time

pub ack_bytes-CarriesTime :
    (stale now : List ℕ) → Lacks 0 now → CarriesTime (ack_bytes stale now) now
unfolding read_ack ack_bytes
ack_bytes-CarriesTime stale now h old = ap string_in (append_assoc now _ _) ∙ string_in_lem now _ h

-- The bytes of a message after its sender.
abbrev text_bytes : List ℕ → List ℕ → List ℕ
text_bytes stale line = take 508 (line ++ (0 ∷ drop (length line + 1) stale))

message_bytes_lem :
    (stale : List ℕ) (id : ℤ) (line : List ℕ)
    → length line < length stale
    → message_bytes stale id line ≡ some (int_bytes id ++ text_bytes stale line)
unfolding message_bytes strcpy int_bytes
message_bytes_lem stale id line h = rw (lt→ltb (length line) (length stale) h) refl

read_message_lem :
    (old : List ℕ) (n : ℕ) (text : List ℕ)
    → n < 2147483648
    → read_message old (int_bytes (pos n) ++ text)
      ≡ (do shown ← string_in (text ++ drop (length text + 4) old); some (pos n, shown))
unfolding read_message int_bytes
read_message_lem old n text h =
    let rest = drop (suc (suc (suc (suc (length text))))) old in
    ap (λ i. string_in (text ++ rest) >>= (λ shown. some (i, shown)))
      (bytes_int-int_bytes n (text ++ rest) h)
    ∙ ap (λ k. string_in (text ++ drop k old) >>= (λ shown. some (pos n, shown)))
        {x = suc (suc (suc (suc (length text))))} (omega arith)

-- A line of up to 507 bytes.
pub message_bytes-Carries :
    (stale : List ℕ) (n : ℕ) (line : List ℕ)
    → length stale ≡ 512
    → n < 2147483648
    → length line < 508
    → Lacks 0 line
    → (m : List ℕ) × (message_bytes stale (pos n) line ≡ some m) × Carries m (pos n, line)
message_bytes-Carries stale n line full h short lacks =
    let (more, e) = take-append_long 508 line 0 (drop (length line + 1) stale) short in
    (
      int_bytes (pos n) ++ (line ++ (0 ∷ more)),
      message_bytes_lem stale (pos n) line (omega arith) ∙ rw e refl,
      λ old.
          read_message_lem old n (line ++ (0 ∷ more)) h
          ∙ ap (λ o. o >>= (λ shown. some (pos n, shown)))
              (ap string_in (append_assoc line _ _) ∙ string_in_lem line _ lacks),
    )

-- A line of 508 to 511 bytes, from a user with an `int` that is not negative: what is printed on
-- receipt is the first 508 bytes of the line and then what the receiver's array held behind its
-- first 512 bytes, up to a NUL. The array that it is copied into has 512 bytes.
pub text_cut :
    (stale old : List ℕ) (n : ℕ) (line : List ℕ)
    → length stale ≡ 512
    → n < 2147483648
    → 508 ≤ length line
    → length line < 512
    → (m : List ℕ) × (message_bytes stale (pos n) line ≡ some m)
      × (read_message old m
          ≡ (do shown ← string_in (take 508 line ++ drop 512 old); some (pos n, shown)))
text_cut stale old n line full h long short =
    let at : length (take 508 line) + 4 ≡ 512 = omega (arith, length-take 508 line) in
    (
      int_bytes (pos n) ++ take 508 line,
      message_bytes_lem stale (pos n) line (omega arith)
          ∙ ap (λ t. some (int_bytes (pos n) ++ t))
              (take-append_short 508 line (0 ∷ drop (length line + 1) stale) long),
      read_message_lem old n (take 508 line) h
          ∙ ap (λ k. string_in (take 508 line ++ drop k old) >>= (λ shown. some (pos n, shown))) at,
    )

pub ack_type_small : (n : ℕ) → n < 2147483628 → ack_type (pos n) ≡ pos (20 + n)
unfolding ack_type
ack_type_small n h = to_int_small (20 + n) (omega arith)

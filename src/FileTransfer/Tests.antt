-- ===== src/FileTransfer/Tests.antt =====
-- The theorems on week11 for one file.
use systemprogramminglab.Prelude.{
  ℕ, ◌≡◌, Bool, true, false, Option, none, some, List, [], ◌∷◌, ◌++◌, if◌then◌else◌, subst, All,
  Lacks, codes, arith,
}
use systemprogramminglab.Libc.Texts.{same}
use systemprogramminglab.FileTransfer.{Message, file_name, contents, client, naming, serve}
use systemprogramminglab.FileTransfer.Delivery.{Delivered}
use systemprogramminglab.FileTransfer.Session.{
  IsFileName, saved_as, copies, serve-client, serve_nul,
}

abbrev bytes_of : List ℕ → Option (List ℕ)
bytes_of name = if same name (codes "a") then some (codes "hello") else none

hello-Lacks : Lacks 0 (codes "hello")
hello-Lacks = ground arith

abbrev WithoutNul : Option (List ℕ) → Type 0
WithoutNul none = Unit
WithoutNul (some bytes) = Lacks 0 bytes

choice-WithoutNul : (b : Bool) → WithoutNul (if b then some (codes "hello") else none)
choice-WithoutNul true = hello-Lacks
choice-WithoutNul false = tt

bytes_of-Lacks : (name bytes : List ℕ) → bytes_of name ≡ some bytes → Lacks 0 bytes
bytes_of-Lacks name bytes e = subst WithoutNul e (choice-WithoutNul (same name (codes "a")))

some_names : All IsFileName (codes "a" ∷ codes "b" ∷ [])
some_names = ground arith

serve-client_example :
    (ms : List Message) × (client bytes_of (codes "a" ∷ codes "b" ∷ []) ≡ some ms)
    × ((cs : List (List ℕ))
        → Delivered ms cs
        → serve naming cs ≡ some (copies bytes_of (codes "a" ∷ codes "b" ∷ [])))
serve-client_example = serve-client bytes_of (codes "a" ∷ codes "b" ∷ []) some_names bytes_of-Lacks

a_name : IsFileName (codes "a")
a_name = some_names.0

serve_nul_example :
    Delivered
      (file_name (codes "a") ∷ contents (codes "x" ++ (0 ∷ codes "yz")) ∷ [])
      (codes "a" ∷ (codes "x" ++ (0 ∷ [])) ∷ (codes "yz" ++ (0 ∷ [])) ∷ [])
    × (serve naming (codes "a" ∷ (codes "x" ++ (0 ∷ [])) ∷ (codes "yz" ++ (0 ∷ [])) ∷ [])
        ≡ some (saved_as (codes "a") (codes "x") ∷ saved_as (codes "yz") [] ∷ []))
serve_nul_example =
    serve_nul (codes "a") (codes "x") (codes "yz") a_name (ground arith) (omega arith)

-- ===== src/Chat/Client/Started.antt =====
-- How `main` of week13/client.c starts.
use systemprogramminglab.Prelude.{
  ℕ, ◌≡◌, ◌≤◌, ◌<◌, ◌%◌, refl, ◌∙◌, sym, ap, true, none, some, List, [], ◌∷◌, ◌++◌, length,
  drop_last, drop_last-append, append-nil, length-append, take_all, arith, pos,
}
use systemprogramminglab.Libc.Decimal.{decimal, strtol, read_digits, strtol-decimal}
use systemprogramminglab.Libc.Decimal.Casts.{strtol_long, strtol_long-fits}
use systemprogramminglab.Libc.Decimal.Ends.{strtol_end, skip_digits, strtol_end-decimal}
use systemprogramminglab.Chat.Client.Program.{
  Network, connected, refused, getaddrinfo_failure, port, get_port, read_username, start_client,
}

get_port-decimal :
    (program host : List ℕ) (p : ℕ)
    → p < 65536
    → get_port (program ∷ host ∷ decimal p ∷ []) ≡ port (pos p)
unfolding get_port read_digits skip_digits
get_port-decimal program host p small =
    let at : strtol_long (decimal p) ≡ pos p =
      strtol_long-fits (decimal p) p
        (ap strtol (sym (append-nil (decimal p))) ∙ strtol-decimal p []) (omega arith) in
    let end : strtol_end (decimal p) ≡ [] =
      ap strtol_end (sym (append-nil (decimal p))) ∙ strtol_end-decimal p [] in
    rw (end, at) refl

read_username-append :
    (name : List ℕ) → length name ≤ 18 → read_username (name ++ (b'\n' ∷ [])) ≡ some name
unfolding read_username
read_username-append [] h = refl
read_username-append (c ∷ name) h =
    ap (λ t. some (drop_last t))
      (take_all 19 (c ∷ name ++ (b'\n' ∷ []))
        (omega (arith, length-append (c ∷ name) (b'\n' ∷ []))))
    ∙ ap some (drop_last-append (c ∷ name) b'\n')

-- With a host that has an address and a decimal number below 65536 as arguments, a name of at most 18
-- bytes typed, and a connection to that port, the client is connected, under that name.
pub start_client_lem :
    (net : Network) (program host name : List ℕ) (p address : ℕ)
    → p < 65536
    → net.has_socket ≡ true
    → net.get_socket_address (some host) ≡ some address
    → net.connects address p ≡ true
    → length name ≤ 18
    → start_client net (program ∷ host ∷ decimal p ∷ []) (name ++ (b'\n' ∷ []))
      ≡ some (connected name)
unfolding start_client
start_client_lem net program host name p address small s a c short =
    let same : p % 65536 ≡ p = omega arith in
    rw (read_username-append name short, s, a, get_port-decimal program host p small, same, c) refl

-- With no argument the address of the host fails first: the usage is not printed.
pub start_client_bare :
    (net : Network) (program line : List ℕ) (x : ℕ)
    → net.has_socket ≡ true
    → net.get_socket_address none ≡ none
    → start_client net (program ∷ []) (x ∷ line) ≡ some (refused getaddrinfo_failure)
unfolding start_client read_username
start_client_bare net program line x s a = rw (s, a) refl

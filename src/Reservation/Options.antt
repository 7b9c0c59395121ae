-- ===== src/Reservation/Options.antt =====
-- `main` of pa3/pa3_client.c up to the connection: what `getopt` finds, and what is made of it.
use systemprogramminglab.Prelude.{
  ℕ, ◌<◌, ◌-◌, ◌%◌, ◌≡◌, ◌≢◌, ◌∙◌, ap, Bool, true, ◌||◌, Option, none, some, List, [], ◌∷◌, ◌==◌,
  if◌then◌else◌, append-nil, sym, arith, ℤ, pos, negsuc,
}
use systemprogramminglab.Libc.Decimal.{decimal, strtol, read_digits, strtol-decimal}
use systemprogramminglab.Libc.Decimal.Casts.{strtol_long, strtol_long-fits}

-- What `getopt` returns with `optarg`, before -1.
pub data Opt : Type 0 where
  host port_number input_file : List ℕ → Opt
  unknown_option : Opt

-- `server_addr`, with 0 for what is not given, and the file that is standard input.
pub record Settings : Type 0 where
  pub address : ℕ
  pub port : ℕ
  pub input : Option (List ℕ)

-- What the system answers: the address of a host, whether a file can be opened, and whether a
-- connection is made.
pub record Machine : Type 0 where
  pub gethostbyname : List ℕ → Option ℕ
  pub opens : List ℕ → Bool
  pub connects : ℕ → ℕ → Bool

pub data Setup : Type 0 where
  exits : ℕ → Setup
  ready : Settings → Setup

-- `htons`
abbrev pub port_bits : ℤ → ℕ
port_bits (pos n) = n % 65536
port_bits (negsuc n) = 65535 - n % 65536

abbrev pub with_host : Option ℕ → Settings → (Settings → Setup) → Setup
with_host none s next = exits 3
with_host (some address) s next = next (record s { address = address })

-- The loop over the options.
unfoldable pub read_options : Machine → List Opt → Settings → Setup
unfolding strtol_long
read_options m [] s = ready s
read_options m (host name ∷ opts) s =
    with_host (m.gethostbyname name) s (λ t. read_options m opts t)
read_options m (port_number text ∷ opts) s =
    read_options m opts (record s { port = port_bits (strtol_long text) })
read_options m (input_file name ∷ opts) s =
    let later = read_options m opts (record s { input = some name }) in
    if m.opens name then later else exits 1
read_options m (unknown_option ∷ opts) s = exits 2

-- The test of the address and the port, and the connection.
abbrev pub try_connect : Machine → Setup → Setup
try_connect m (exits code) = exits code
try_connect m (ready s) =
    if s.address == 0 || s.port == 0
    then exits 2
    else if m.connects s.address s.port
    then ready s
    else exits 1

unfoldable pub open_connection : Machine → List Opt → Setup
unfolding read_options
open_connection m opts =
    try_connect m (read_options m opts (record { address = 0; port = 0; input = none }))

strtol_long-decimal : (p : ℕ) → p < 65536 → strtol_long (decimal p) ≡ pos p
unfolding read_digits
strtol_long-decimal p small =
    strtol_long-fits (decimal p) p (ap strtol (sym (append-nil (decimal p))) ∙ strtol-decimal p [])
      (omega arith)

-- The settings that a host with an address and a decimal port lead to.
abbrev given : ℕ → ℕ → Settings
given address p = record { address = address; port = p % 65536; input = none }

connect_lem :
    (m : Machine) (address p : ℕ)
    → address ≢ 0
    → p % 65536 ≢ 0
    → m.connects address (p % 65536) ≡ true
    → try_connect m (ready (given address p)) ≡ ready (given address p)
connect_lem m address p ha hp c = ground (arith, c)

-- With a host that has an address and a decimal port below 65536 that is not 0, in either order,
-- the client connects to that address and port, if there is a connection to be had.
pub open_connection_lem :
    (m : Machine) (name : List ℕ) (address p : ℕ)
    → p < 65536
    → m.gethostbyname name ≡ some address
    → address ≢ 0
    → p % 65536 ≢ 0
    → m.connects address (p % 65536) ≡ true
    → (open_connection m (host name ∷ port_number (decimal p) ∷ []) ≡ ready (given address p))
      × (open_connection m (port_number (decimal p) ∷ host name ∷ []) ≡ ready (given address p))
unfolding open_connection read_options
open_connection_lem m name address p small found ha hp c = (
  rw (found, strtol_long-decimal p small) (connect_lem m address p ha hp c),
  rw (strtol_long-decimal p small, found) (connect_lem m address p ha hp c),
)

-- With the port 0 it prints the usage and exits with 2.
pub open_connection_zero :
    (m : Machine) (name : List ℕ) (address p : ℕ)
    → p < 65536
    → m.gethostbyname name ≡ some address
    → p % 65536 ≡ 0
    → open_connection m (host name ∷ port_number (decimal p) ∷ []) ≡ exits 2
unfolding open_connection read_options
open_connection_zero m name address p small found h =
    rw (found, strtol_long-decimal p small) (ground (arith, h))

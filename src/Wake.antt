-- ===== src/Wake.antt =====
-- Wake-on-LAN magic packets (src/wake.rs). A text is the list of its code points, a byte a number
-- below 256. What the network answers is given.
pub mod Packet
pub mod Sending
pub mod Tests
use kube_hardware_autoscaler.Base.{
  ℕ, zero, suc, ◌+◌, ◌-◌, ◌*◌, max, String, Bool, not, ◌&&◌, ◌||◌, Option, none, some, List, [],
  ◌∷◌, ◌++◌, map, ltb, leb, ◌==◌, if◌then◌else◌, length,
}
use kube_hardware_autoscaler.Base.Texts.{split_on}
use kube_hardware_autoscaler.Drivers.Driver.{Result, ok, err}

-- The value of a hexadecimal digit (`char::to_digit(16)`).
abbrev pub hex_digit : ℕ → Option ℕ
hex_digit c =
    if leb b'0' c && leb c b'9'
    then some (c - b'0')
    else if leb b'a' c && leb c b'f'
    then some (c - 87)
    else if leb b'A' c && leb c b'F'
    then some (c - 55)
    else none

abbrev two_digits : Option ℕ → Option ℕ → Option ℕ
two_digits (some a) (some b) = some (16 * a + b)
two_digits _ _ = none

-- `u8::from_str_radix(p, 16)` on a text of two bytes: a leading plus sign is accepted. A text of
-- another length is refused by the caller. A code point above 127 has two bytes in UTF-8, but is no
-- digit, so the text is refused all the same.
abbrev pub from_str_radix : List ℕ → Option ℕ
from_str_radix (c ∷ (d ∷ [])) =
    if c == b'+' then hex_digit d else two_digits (hex_digit c) (hex_digit d)
from_str_radix _ = none

abbrev pub is_separator : ℕ → Bool
is_separator c = c == b':' || c == b'-'

-- The parts between colons and dashes.
abbrev pub split : List ℕ → List (List ℕ)
split s = split_on is_separator s

abbrev pub bytes_of : Option ℕ → Option (List ℕ) → Option (List ℕ)
bytes_of (some b) (some bs) = some (b ∷ bs)
bytes_of _ _ = none

-- The loop over the parts.
parse_parts : List (List ℕ) → Option (List ℕ)
parse_parts [] = some []
parse_parts (p ∷ ps) = bytes_of (from_str_radix p) (parse_parts ps)

unfoldable pub parse_mac : List ℕ → Option (List ℕ)
unfolding parse_parts
parse_mac s = let parts = split s in if length parts == 6 then parse_parts parts else none

-- `packet.extend_from_slice(mac)`, as many times.
repeated : ℕ → List ℕ → List ℕ
repeated zero mac = []
repeated (suc n) mac = mac ++ repeated n mac

unfoldable pub magic_packet : List ℕ → List ℕ
unfolding repeated
magic_packet mac = (255 ∷ 255 ∷ 255 ∷ 255 ∷ 255 ∷ 255 ∷ []) ++ repeated 16 mac

-- What `if_addrs` reports of an interface: whether it is a loopback and up, and the broadcast
-- address of an IPv4 one. An IPv4 address is the number of its 32 bits.
pub record Interface : Type 0 where
  pub loopback : Bool
  pub oper_up : Bool
  pub broadcast : Option ℕ

-- `Ipv4Addr::BROADCAST`, 255.255.255.255.
abbrev pub limited_broadcast : ℕ
limited_broadcast = 4294967295

-- `BTreeSet::insert`.
abbrev pub insert_address : ℕ → List ℕ → List ℕ
insert_address a [] = a ∷ []
insert_address a (b ∷ bs) =
    let rest = insert_address a bs in
    if a == b then b ∷ bs else if ltb a b then a ∷ (b ∷ bs) else b ∷ rest

abbrev insert_some : Option ℕ → List ℕ → List ℕ
insert_some none set = set
insert_some (some a) set = insert_address a set

abbrev is_usable : Interface → Bool
is_usable i = not i.loopback && i.oper_up

-- The loop over the interfaces.
collect : List Interface → List ℕ → List ℕ
collect [] out = out
collect (i ∷ is) out = collect is (if is_usable i then insert_some i.broadcast out else out)

unfoldable pub interface_broadcasts : Option (List Interface) → List ℕ
unfolding collect
interface_broadcasts none = insert_address limited_broadcast []
interface_broadcasts (some is) = insert_address limited_broadcast (collect is [])

pub record SocketAddr : Type 0 where
  pub ip : ℕ
  pub port : ℕ

abbrev at_port : ℕ → ℕ → SocketAddr
at_port port ip = record { ip = ip; port = port }

-- `parse` is `str::parse::<Ipv4Addr>`. An invalid address is the error.
unfoldable pub targets :
    (String → Option ℕ)
    → Option (List Interface)
    → Option String
    → ℕ
    → Result (List SocketAddr) String
unfolding interface_broadcasts
targets parse interfaces (some addr) port = elim (parse addr) [
  | none ↦ err addr
  | some ip ↦ ok (at_port port ip ∷ [])
]
targets parse interfaces none port = ok (map (at_port port) (interface_broadcasts interfaces))

pub data SendError : Type 0 where
  io : String → SendError
  no_targets : SendError

pub record Sent : Type 0 where
  pub count : ℕ
  pub last_err : Option String

abbrev note : Result (Unit {0}) String → Sent → Sent
note (ok u) s = record s { count = s.count + 1 }
note (err e) s = record s { last_err = some e }

-- One pass over the targets. `answer` is what `send_to` returns.
send_round : (SocketAddr → Result (Unit {0}) String) → List SocketAddr → Sent → Sent
send_round answer [] s = s
send_round answer (t ∷ ts) s = send_round answer ts (note (answer t) s)

-- So many passes, counted down.
send_rounds : (ℕ → SocketAddr → Result (Unit {0}) String) → List SocketAddr → ℕ → Sent → Sent
unfolding send_round
send_rounds answer ts zero s = s
send_rounds answer ts (suc n) s = send_rounds answer ts n (send_round (answer n) ts s)

abbrev send_error : Option String → SendError
send_error none = no_targets
send_error (some e) = io e

-- The socket is bound and broadcasts: a failure there is returned before anything is sent.
unfoldable pub send :
    Result (Unit {0}) String
    → (ℕ → SocketAddr → Result (Unit {0}) String)
    → List SocketAddr
    → ℕ
    → Result ℕ SendError
unfolding send_rounds
send (err e) answer ts repeats = err (io e)
send (ok u) answer ts repeats =
    let s = send_rounds answer ts (max repeats 1) (record { count = 0; last_err = none }) in
    if s.count == 0 then err (send_error s.last_err) else ok s.count

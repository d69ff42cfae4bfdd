-- ===== src/Config/Parse.antt =====
-- src/config.rs: the checks on the strings of the configuration. A port range is a list of characters
-- by their code points, names are bytes. What `std::net` parses is a parameter.
mod Tests
pub mod Laws
use next_socks.Prelude.{
  ltb, leb, ◌==◌, if◌then◌else◌, Result, ok, err, ok_or, length, get_or, ℕ, ◌+◌, ◌-◌, ◌*◌, ◌^◌,
  Bool, true, false, ◌&&◌, ◌||◌, not, Option, none, some, List, [], ◌∷◌, ◌>>=◌,
}
use next_socks.Wire.{Str, start}
use next_socks.Net.{IpAddr, ip_v4, ip_v6, SocketAddr, is_unspecified}
use next_socks.Config.{PortRange, AdvertiseHost}

abbrev pub in_between : ℕ → ℕ → ℕ → Bool
in_between lo hi b = leb lo b && leb b hi

abbrev pub is_digit : ℕ → Bool
is_digit c = in_between 0x30 0x39 c

abbrev pub is_alphabetic : ℕ → Bool
is_alphabetic b = in_between 0x41 0x5a b || in_between 0x61 0x7a b

abbrev pub is_alphanumeric : ℕ → Bool
is_alphanumeric b = is_alphabetic b || is_digit b

-- `char::is_whitespace`.
unfoldable pub is_space : ℕ → Bool
is_space c =
    in_between 0x09 0x0d c
    || c == 0x20
    || c == 0x85
    || c == 0xa0
    || c == 0x1680
    || in_between 0x2000 0x200a c
    || in_between 0x2028 0x2029 c
    || c == 0x202f
    || c == 0x205f
    || c == 0x3000

unfoldable pub trim_start : List ℕ → List ℕ
unfolding is_space
trim_start [] = []
trim_start (c ∷ cs) = let rest = trim_start cs in if is_space c then rest else c ∷ cs

-- A character before what is left of the rest once its end is trimmed.
abbrev pub before_trimmed : ℕ → List ℕ → List ℕ
before_trimmed c [] = if is_space c then [] else c ∷ []
before_trimmed c (d ∷ ds) = c ∷ d ∷ ds

unfoldable pub trim_end : List ℕ → List ℕ
unfolding is_space
trim_end [] = []
trim_end (c ∷ cs) = before_trimmed c (trim_end cs)

-- The digits of a `u16`, behind the value so far.
unfoldable pub digits : ℕ → List ℕ → Option ℕ
digits value [] = some value
digits value (c ∷ cs) =
    let next = value * 10 + (c - 0x30) in
    let rest = digits next cs in if is_digit c && ltb next (2 ^ 16) then rest else none

abbrev pub some_digits : List ℕ → Option ℕ
some_digits [] = none
some_digits (c ∷ cs) = digits 0 (c ∷ cs)

-- `u16::from_str`, which lets a plus sign through.
unfoldable pub parse_u16 : List ℕ → Option ℕ
unfolding digits
parse_u16 [] = none
parse_u16 (c ∷ cs) = if c == 0x2b then some_digits cs else some_digits (c ∷ cs)

abbrev pub extend_first : ℕ → Option (List ℕ × List ℕ) → Option (List ℕ × List ℕ)
extend_first c none = none
extend_first c (some (before, after)) = some (c ∷ before, after)

unfoldable pub split_once : ℕ → List ℕ → Option (List ℕ × List ℕ)
split_once d [] = none
split_once d (c ∷ cs) =
    let rest = split_once d cs in if c == d then some ([], cs) else extend_first c rest

pub data RangeError : Type 0 where
  no_dash : RangeError
  invalid_start : RangeError
  invalid_end : RangeError
  zero_start : RangeError
  start_after_end : RangeError

unfoldable pub check_range : ℕ → ℕ → Result PortRange RangeError
check_range first last =
    if first == 0
    then err zero_start
    else if ltb last first
    then err start_after_end
    else ok (record { start = first; end = last })

-- The two numbers around the dash.
unfoldable pub check_parts : Option (List ℕ × List ℕ) → Result PortRange RangeError
unfolding parse_u16 trim_start trim_end check_range
check_parts none = err no_dash
check_parts (some (before, after)) = do
  first ← ok_or (parse_u16 (trim_end (trim_start before))) invalid_start
  last ← ok_or (parse_u16 (trim_end (trim_start after))) invalid_end
  check_range first last

-- `PortRange::parse`.
unfoldable pub parse : List ℕ → Result PortRange RangeError
unfolding split_once check_parts
parse s = check_parts (split_once 0x2d s)

-- `s.strip_suffix('.').unwrap_or(s)`.
unfoldable pub strip_dot : Str → Str
strip_dot [] = []
strip_dot (b ∷ []) = if b == 0x2e then [] else b ∷ []
strip_dot (b ∷ c ∷ cs) = b ∷ strip_dot (c ∷ cs)

abbrev pub prepend : ℕ → List Str → List Str
prepend b [] = (b ∷ []) ∷ []
prepend b (label ∷ labels) = (b ∷ label) ∷ labels

-- `split('.')`.
unfoldable pub labels : Str → List Str
labels [] = [] ∷ []
labels (b ∷ bs) = let rest = labels bs in if b == 0x2e then [] ∷ rest else prepend b rest

abbrev pub allowed : ℕ → Bool
allowed b = is_alphanumeric b || b == 0x2d

abbrev pub all_allowed : Str → Bool
all_allowed [] = true
all_allowed (b ∷ bs) = allowed b && all_allowed bs

abbrev pub ends_well : Str → Bool
ends_well [] = false
ends_well (b ∷ []) = is_alphanumeric b
ends_well (b ∷ c ∷ cs) = ends_well (c ∷ cs)

abbrev pub starts_well : Str → Bool
starts_well [] = false
starts_well (b ∷ bs) = is_alphanumeric b

unfoldable pub is_label : Str → Bool
is_label label = leb (length label) 63 && starts_well label && ends_well label && all_allowed label

abbrev pub all_labels : List Str → Bool
all_labels [] = true
all_labels (label ∷ labels) = is_label label && all_labels labels

abbrev pub any_alphabetic : Str → Bool
any_alphabetic [] = false
any_alphabetic (b ∷ bs) = is_alphabetic b || any_alphabetic bs

abbrev pub last_alphabetic : List Str → Bool
last_alphabetic [] = false
last_alphabetic (label ∷ []) = any_alphabetic label
last_alphabetic (label ∷ next ∷ labels) = last_alphabetic (next ∷ labels)

unfoldable pub is_valid_dns_name : Str → Bool
unfolding strip_dot labels is_label
is_valid_dns_name s =
    let name = strip_dot s in
    ltb 0 (length name)
    && leb (length name) 253
    && last_alphabetic (labels name)
    && all_labels (labels name)

-- `str::parse` to an `IpAddr` and to a `SocketAddr` with its scope.
pub record NetParser : Type 0 where
  pub parse_ip : Str → Option IpAddr
  pub parse_socket : Str → Option (SocketAddr × ℕ)

abbrev pub name_or_refuse : Str → Option AdvertiseHost
name_or_refuse s = if is_valid_dns_name s then some (AdvertiseHost.domain s) else none

abbrev pub socket_or_name : Str → Option (SocketAddr × ℕ) → Option AdvertiseHost
socket_or_name s none = name_or_refuse s
socket_or_name s (some (address, scope)) = some (AdvertiseHost.ip address.ip)

unfoldable pub parse_advertise_host : NetParser → Str → Option AdvertiseHost
unfolding is_valid_dns_name
parse_advertise_host net s = elim (net.parse_ip s) [
  | some a ↦ some (AdvertiseHost.ip a)
  | none ↦ socket_or_name s (net.parse_socket s)
]

-- `IpAddr::is_multicast`.
abbrev pub is_multicast : IpAddr → Bool
is_multicast (ip_v4 o) = in_between 224 239 (get_or o 0 0)
is_multicast (ip_v6 o) = get_or o 0 0 == 0xff

abbrev pub server_address : NetParser → Str → Option (SocketAddr × ℕ)
server_address net s = elim (net.parse_ip s) [
  | some a ↦ some (record { ip = a; port = 53 }, 0)
  | none ↦ net.parse_socket s
]

abbrev pub usable_server : SocketAddr × ℕ → Bool
usable_server (address, scope) =
    scope == 0 && not (address.port == 0 || is_unspecified address.ip || is_multicast address.ip)

-- One server; the scope of an IPv4 address is 0.
abbrev pub check_server : Option (SocketAddr × ℕ) → Option SocketAddr
check_server none = none
check_server (some (address, scope)) = if usable_server (address, scope) then some address else none

abbrev pub add_server : Option SocketAddr → Option (List SocketAddr) → Option (List SocketAddr)
add_server none rest = none
add_server (some address) none = none
add_server (some address) (some addresses) = some (address ∷ addresses)

-- The whole list is refused where one server is.
unfoldable pub deserialize_dns_servers : NetParser → List Str → Option (List SocketAddr)
deserialize_dns_servers net [] = some []
deserialize_dns_servers net (s ∷ rest) =
    add_server (check_server (server_address net s)) (deserialize_dns_servers net rest)

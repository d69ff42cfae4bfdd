-- ===== src/Protocol/Handshake.antt =====
-- src/protocol/handshake.rs: the greeting of RFC 1928, section 3, and the username/password
-- message of RFC 1929.
pub mod Greeting
pub mod Userpass
use next_socks.Prelude.{
  ◌==◌, if◌then◌else◌, Result, ok, err, ok_or, get_elem?, get_range?, ℕ, ◌+◌, Bool, false, ◌||◌,
  not, List, [], ◌∷◌, ◌>>=◌,
}
use next_socks.Wire.{Str, from_utf8}

abbrev pub version : ℕ
version = 0x05

abbrev pub method_no_auth : ℕ
method_no_auth = 0x00

abbrev pub method_userpass : ℕ
method_userpass = 0x02

abbrev pub method_none_acceptable : ℕ
method_none_acceptable = 0xff

abbrev pub userpass_version : ℕ
userpass_version = 0x01

pub data HandshakeError : Type 0 where
  truncated : HandshakeError
  bad_version : ℕ → HandshakeError
  bad_domain : HandshakeError

unfoldable pub parse_greeting : List ℕ → Result (List ℕ) HandshakeError
parse_greeting buf = do
  ver ← ok_or (get_elem? buf 0) truncated
  if not (ver == version) then err (bad_version ver) else do
    nmethods ← ok_or (get_elem? buf 1) truncated
    methods ← ok_or (get_range? 2 (2 + nmethods) buf) truncated
    ok methods

-- `<[u8]>::contains`.
unfoldable pub contains : List ℕ → ℕ → Bool
contains [] b = false
contains (x ∷ xs) b = x == b || contains xs b

unfoldable pub select_method : List ℕ → Bool → ℕ
select_method offered require_userpass =
    let wanted = if require_userpass then method_userpass else method_no_auth in
    if contains offered wanted then wanted else method_none_acceptable

unfoldable pub method_reply : ℕ → List ℕ
method_reply method = version ∷ method ∷ []

unfoldable pub parse_userpass : List ℕ → Result (Str × Str) HandshakeError
parse_userpass buf = do
  ver ← ok_or (get_elem? buf 0) truncated
  if not (ver == userpass_version) then err (bad_version ver) else do
    ulen ← ok_or (get_elem? buf 1) truncated
    uname ← ok_or (get_range? 2 (2 + ulen) buf) truncated
    plen ← ok_or (get_elem? buf (2 + ulen)) truncated
    passwd ← ok_or (get_range? (2 + ulen + 1) (2 + ulen + 1 + plen) buf) truncated
    username ← ok_or (from_utf8 uname) bad_domain
    password ← ok_or (from_utf8 passwd) bad_domain
    ok (username, password)

unfoldable pub userpass_reply : Bool → List ℕ
userpass_reply accepted = userpass_version ∷ (if accepted then 0x00 else 0x01) ∷ []

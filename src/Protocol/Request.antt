-- ===== src/Protocol/Request.antt =====
-- src/protocol/request.rs: the request of RFC 1928, section 4.
pub mod Laws
use next_socks.Prelude.{
  ltb, ◌==◌, if◌then◌else◌, Result, ok, err, map_err, length, get_or, drop, ℕ, not, List, ◌>>=◌,
}
use next_socks.Protocol.Address.{Address, AddrError, decode}

pub data Command : Type 0 where
  connect bind udp_associate : Command

pub record Request : Type 0 where
  pub command : Command
  pub address : Address

pub data RequestError : Type 0 where
  truncated : RequestError
  bad_version : ℕ → RequestError
  bad_command : ℕ → RequestError
  addr : AddrError → RequestError

abbrev pub version : ℕ
version = 0x05

abbrev pub cmd_connect : ℕ
cmd_connect = 0x01

abbrev pub cmd_bind : ℕ
cmd_bind = 0x02

abbrev pub cmd_udp_associate : ℕ
cmd_udp_associate = 0x03

unfoldable pub parse_command : ℕ → Result Command RequestError
parse_command b =
    if b == cmd_connect
    then ok connect
    else if b == cmd_bind
    then ok bind
    else if b == cmd_udp_associate
    then ok udp_associate
    else err (bad_command b)

unfoldable pub parse_request : List ℕ → Result Request RequestError
unfolding parse_command
parse_request buf =
    if ltb (length buf) 4
    then err truncated
    else if not (get_or buf 0 0 == version)
    then err (bad_version (get_or buf 0 0))
    else do
      command ← parse_command (get_or buf 1 0)
      (address, consumed) ← map_err addr (decode (drop 3 buf))
      ok (record { command = command; address = address })

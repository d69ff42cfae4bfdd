-- ===== src/Errors.antt =====
-- src/error.rs: the failures of a request and their RFC 1928 reply codes.

use next_socks.Prelude.{get_elem?, ℕ, ◌-◌, ◌≤◌, ◌≡◌, refl, ap, Option, some, [], ◌∷◌, arith}

pub data Socks5Error : Type 0 where
  general : Socks5Error
  not_allowed : Socks5Error
  network_unreachable : Socks5Error
  host_unreachable : Socks5Error
  connection_refused : Socks5Error
  ttl_expired : Socks5Error
  command_not_supported : Socks5Error
  address_not_supported : Socks5Error

unfoldable pub reply_code : Socks5Error → ℕ
reply_code general = 0x01
reply_code not_allowed = 0x02
reply_code network_unreachable = 0x03
reply_code host_unreachable = 0x04
reply_code connection_refused = 0x05
reply_code ttl_expired = 0x06
reply_code command_not_supported = 0x07
reply_code address_not_supported = 0x08

-- The kinds of `std::io::Error` that the program tells apart; `other` stands for the rest.
pub data IoErrorKind : Type 0 where
  net_unreachable : IoErrorKind
  no_route : IoErrorKind
  refused : IoErrorKind
  timed_out : IoErrorKind
  addr_not_available : IoErrorKind
  addr_in_use : IoErrorKind
  permission_denied : IoErrorKind
  other : IoErrorKind

unfoldable pub from_io : IoErrorKind → Socks5Error
from_io net_unreachable = network_unreachable
from_io no_route = host_unreachable
from_io refused = connection_refused
from_io timed_out = ttl_expired
from_io addr_not_available = host_unreachable
from_io addr_in_use = general
from_io permission_denied = general
from_io other = general

-- The error that a reply code stands for.
abbrev error_of : ℕ → Option Socks5Error
error_of c =
    get_elem?
      (general ∷ not_allowed ∷ network_unreachable ∷ host_unreachable ∷ connection_refused
        ∷ ttl_expired ∷ command_not_supported ∷ address_not_supported ∷ [])
      (c - 1)

error_of-reply_code : (e : Socks5Error) → error_of (reply_code e) ≡ some e
unfolding reply_code
error_of-reply_code general = refl
error_of-reply_code not_allowed = refl
error_of-reply_code network_unreachable = refl
error_of-reply_code host_unreachable = refl
error_of-reply_code connection_refused = refl
error_of-reply_code ttl_expired = refl
error_of-reply_code command_not_supported = refl
error_of-reply_code address_not_supported = refl

-- The reply codes of the errors lie between 1 and 8, so none is the success code and each has a
-- bucket in the metrics.
pub reply_code_bounds : (e : Socks5Error) → (1 ≤ reply_code e) × (reply_code e ≤ 8)
unfolding reply_code
reply_code_bounds e = ground arith

-- Different errors have different reply codes.
pub reply_code-injective : (e f : Socks5Error) → reply_code e ≡ reply_code f → e ≡ f
reply_code-injective e f h = cc (error_of-reply_code e, error_of-reply_code f, ap error_of h)

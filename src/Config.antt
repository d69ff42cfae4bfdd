-- ===== src/Config.antt =====
-- src/config.rs: the configuration, as it stands once it is loaded. Reading the file and the TOML
-- syntax belong to `std::fs` and to the crates `serde` and `toml`.
pub mod Policy
pub mod Parse
pub mod Load
use next_socks.Prelude.{ℕ, Bool, true, false, Option, none, some, List, [], ◌∷◌}
use next_socks.Wire.{Str}
use next_socks.Net.{IpAddr, SocketAddr}

pub record User : Type 0 where
  pub username : Str
  pub password : Str

pub data AuthMethod : Type 0 where
  none_required : AuthMethod
  password_required : AuthMethod

pub record AuthConfig : Type 0 where
  pub method : AuthMethod
  pub users : List User

-- All in milliseconds.
pub record Timeouts : Type 0 where
  pub handshake_ms : ℕ
  pub connect_ms : ℕ
  pub tcp_idle_ms : ℕ
  pub udp_idle_ms : ℕ

pub record PortRange : Type 0 where
  pub start : ℕ
  pub end : ℕ

pub data AdvertiseHost : Type 0 where
  ip : IpAddr → AdvertiseHost
  domain : Str → AdvertiseHost

pub record UdpConfig : Type 0 where
  pub port_range : Option PortRange
  pub advertise : Option AdvertiseHost

pub record DnsConfig : Type 0 where
  pub servers : List SocketAddr

pub record AdminConfig : Type 0 where
  pub enabled : Bool
  pub socket : Option Str

pub record Limits : Type 0 where
  pub max_connections : Option ℕ
  pub max_per_ip : Option ℕ
  pub udp_max_targets : ℕ
  pub udp_rate_pps : Option ℕ

pub record Egress : Type 0 where
  pub block_loopback : Bool
  pub block_link_local : Bool
  pub block_private : Bool

pub record Config : Type 0 where
  pub listen : Str
  pub auth : AuthConfig
  pub timeouts : Timeouts
  pub limits : Limits
  pub udp : UdpConfig
  pub dns : DnsConfig
  pub admin : AdminConfig
  pub egress : Egress

abbrev pub default_handshake_ms : ℕ
default_handshake_ms = 10_000

abbrev pub default_timeouts : Timeouts
default_timeouts = record {
  handshake_ms = default_handshake_ms;
  connect_ms = 10_000;
  tcp_idle_ms = 300_000;
  udp_idle_ms = 60_000;
}

abbrev pub default_auth : AuthConfig
default_auth = record { method = none_required; users = [] }

abbrev pub default_udp : UdpConfig
default_udp = record { port_range = none; advertise = none }

abbrev pub default_admin : AdminConfig
default_admin = record { enabled = true; socket = none }

abbrev pub default_udp_max_targets : ℕ
default_udp_max_targets = 1024

abbrev pub default_limits : Limits
default_limits = record {
  max_connections = none;
  max_per_ip = none;
  udp_max_targets = default_udp_max_targets;
  udp_rate_pps = none;
}

abbrev pub default_egress : Egress
default_egress = record { block_loopback = true; block_link_local = true; block_private = true }

abbrev pub permissive : Egress
permissive = record { block_loopback = false; block_link_local = false; block_private = false }

-- The bytes of "127.0.0.1:1080".
abbrev default_listen : Str
default_listen =
    0x31 ∷ 0x32 ∷ 0x37 ∷ 0x2e ∷ 0x30 ∷ 0x2e ∷ 0x30 ∷ 0x2e ∷ 0x31 ∷ 0x3a ∷ 0x31 ∷ 0x30 ∷ 0x38 ∷ 0x30
    ∷ []

abbrev pub default_config : Config
default_config = record {
  listen = default_listen;
  auth = default_auth;
  timeouts = default_timeouts;
  limits = default_limits;
  udp = default_udp;
  dns = record { servers = [] };
  admin = default_admin;
  egress = default_egress;
}

pub data Command : Type 0 where
  serve : Command
  attach : Option Str → Command

-- The command line, once it is parsed. Paths are strings.
pub record Cli : Type 0 where
  pub command : Option Command
  pub config : Option Str
  pub listen : Option Str
  pub no_tui : Bool
  pub no_admin : Bool
  pub admin_socket : Option Str
  pub mock : Bool

abbrev set_listen : Option Str → Config → Config
set_listen none cfg = cfg
set_listen (some s) cfg = record cfg { listen = s }

abbrev disable_admin : Bool → Config → Config
disable_admin false cfg = cfg
disable_admin true cfg = record cfg { admin = record cfg.admin { enabled = false } }

abbrev set_socket : Option Str → Config → Config
set_socket none cfg = cfg
set_socket (some s) cfg = record cfg { admin = record cfg.admin { socket = some s } }

unfoldable pub apply_overrides : Config → Cli → Config
apply_overrides cfg cli =
    set_socket cli.admin_socket (disable_admin cli.no_admin (set_listen cli.listen cfg))

-- ===== src/Config/Load.antt =====
-- src/config.rs: `Config::load`. What `std::fs` reads and what the crate `toml` makes of it are
-- parameters.
use next_socks.Prelude.{
  Result, ok, ok_or, Result-cases, ok-injective, ◌≡◌, subst, inl, inr, ◌&&◌, not, Option, none,
  some, arith, ◌>>=◌,
}
use next_socks.Wire.{Str}
use next_socks.Config.{Config, default_config, Cli, apply_overrides}

pub data ConfigError : Type 0 where
  io : ConfigError
  malformed : ConfigError

pub record Files : Type 0 where
  pub read_to_string : Str → Option Str
  pub from_toml_str : Str → Option Config

abbrev pub read_config : Files → Option Str → Result Config ConfigError
read_config files none = ok default_config
read_config files (some path) = do
  contents ← ok_or (files.read_to_string path) io
  ok_or (files.from_toml_str contents) malformed

unfoldable pub load : Files → Cli → Result Config ConfigError
unfolding apply_overrides
load files cli = do config ← read_config files cli.config; ok (apply_overrides config cli)

-- An option of the command line, or else the value of the configuration.
abbrev pub overriding {ℓ} : {A : Type ℓ} → Option A → A → A
overriding none a = a
overriding (some b) a = b

abbrev pub either_of {ℓ} : {A : Type ℓ} → Option A → Option A → Option A
either_of none b = b
either_of (some a) b = some a

-- What the command line decides of a loaded configuration, given that of the file; the rest is the
-- file's.
abbrev pub Overrides : Cli → Config → Config → Type 0
Overrides cli base cfg =
    (cfg.listen ≡ overriding cli.listen base.listen)
    × (cfg.admin.enabled ≡ not cli.no_admin && base.admin.enabled)
    × (cfg.admin.socket ≡ either_of cli.admin_socket base.admin.socket)
    × (cfg.auth ≡ base.auth)
    × (cfg.timeouts ≡ base.timeouts)
    × (cfg.limits ≡ base.limits)
    × (cfg.udp ≡ base.udp)
    × (cfg.dns ≡ base.dns)
    × (cfg.egress ≡ base.egress)

apply_overrides-Overrides :
    (base : Config) (cli : Cli) → Overrides cli base (apply_overrides base cli)
unfolding apply_overrides
apply_overrides-Overrides base cli = ground arith

-- A configuration that is loaded is that of the file, or the default one where no file is named, in
-- which exactly the options of the command line are put over its own: the address, the path of the
-- admin socket, and that the admin endpoint is off.
pub load-Overrides :
    (files : Files) (cli : Cli) (cfg : Config)
    → load files cli ≡ ok cfg
    → (base : Config) × (read_config files cli.config ≡ ok base) × Overrides cli base cfg
unfolding load
load-Overrides files cli cfg h = elim (Result-cases (read_config files cli.config)) [
  | inl (base, e) ↦
      let same : apply_overrides base cli ≡ cfg = ok-injective (rw e at h) in
      (base, e, subst (Overrides cli base) same (apply_overrides-Overrides base cli))
  | inr (e, f) ↦ let k = rw f at h in cc
]

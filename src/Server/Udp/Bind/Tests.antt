-- ===== src/Server/Udp/Bind/Tests.antt =====
-- A range of three ports of which one is free.
use next_socks.Prelude.{
  ◌==◌, if◌then◌else◌, ok, err, ℕ, ◌-◌, ◌^◌, ◌≡◌, refl, true, Option, none, some, arith,
}
use next_socks.Errors.{IoErrorKind, addr_in_use}
use next_socks.Config.{PortRange}
use next_socks.Server.Udp.Bind.{retries, bind_with_retry}
use next_socks.Server.Udp.Bind.Ports.{InRange, bind_with_retry-InRange}

abbrev range : PortRange
range = record { start = 5000; end = 5002 }

abbrev only : ℕ → ℕ → Option IoErrorKind
only free port = if port == free then none else some addr_in_use

only-retries : (free port : ℕ) (e : IoErrorKind) → only free port ≡ some e → retries e ≡ true
only-retries free port e h = ground arith

bind_with_retry-InRange_example :
    (port : ℕ) × ((bind_with_retry (only 5002) (some range) 7).0 ≡ ok port)
    × InRange range port
    × (only 5002 port ≡ none)
bind_with_retry-InRange_example =
    bind_with_retry-InRange (only 5002) range 7 5002 (omega arith, omega arith) (omega arith)
      (only-retries 5002) (omega arith, omega arith) refl

-- Where the cursor wraps during the scan, a port that is free may be missed: from the last value of
-- the cursor, the ports tried are 5000, 5000 and 5001.
missed : (bind_with_retry (only 5002) (some range) (2 ^ 32 - 1)).0 ≡ err addr_in_use
unfolding bind_with_retry
missed = refl

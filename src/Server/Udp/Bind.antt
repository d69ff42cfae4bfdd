-- ===== src/Server/Udp/Bind.antt =====
-- src/server/udp.rs: the port and the address that a relay socket gets. Whether a port can be bound
-- is the environment's answer.
mod Tests
pub mod Ports
use next_socks.Prelude.{
  if◌then◌else◌, Result, ok, err, ℕ, zero, suc, ◌+◌, ◌-◌, ◌%◌, ◌^◌, Bool, true, false, Option, none,
  some,
}
use next_socks.Errors.{IoErrorKind, addr_in_use, permission_denied}
use next_socks.Config.{PortRange}

abbrev pub u32_mod : ℕ
u32_mod = 2 ^ 32

-- `(range.end - range.start) as u32 + 1`.
abbrev pub width : PortRange → ℕ
width range = range.end - range.start + 1

-- The port tried at step `i` from the cursor `base`; the offset is cast to a `u16`.
unfoldable pub candidate : PortRange → ℕ → ℕ → ℕ
candidate range base i = range.start + (base + i) % u32_mod % width range % 2 ^ 16

-- Whether the error lets the scan go on.
abbrev pub retries : IoErrorKind → Bool
retries addr_in_use = true
retries permission_denied = true
retries _ = false

-- What the scan makes of the attempt on a port, given the result of the rest of the scan.
abbrev pub try_port : ℕ → Option IoErrorKind → Result ℕ IoErrorKind → Result ℕ IoErrorKind
try_port port none rest = ok port
try_port port (some e) rest = if retries e then rest else err e

-- The loop, with the number of steps left.
unfoldable pub scan : (ℕ → Option IoErrorKind) → PortRange → ℕ → ℕ → ℕ → Result ℕ IoErrorKind
unfolding candidate
scan bind range base i zero = err addr_in_use
scan bind range base i (suc left) =
    let port = candidate range base i in
    try_port port (bind port) (scan bind range base (i + 1) left)

-- `bind_with_retry` with the cursor's value before, and its value after. Port 0 stands for the port
-- that the system chooses, where no range is configured.
unfoldable pub bind_with_retry :
    (ℕ → Option IoErrorKind) → Option PortRange → ℕ → Result ℕ IoErrorKind × ℕ
unfolding scan
bind_with_retry bind none cursor = (elim (bind 0) [ none ↦ ok 0 | some e ↦ err e ], cursor)
bind_with_retry bind (some range) cursor =
    (scan bind range cursor 0 (width range), (cursor + 1) % u32_mod)

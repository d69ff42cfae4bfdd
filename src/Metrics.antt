-- ===== src/Metrics.antt =====
-- src/metrics.rs: the shared counters, the registry of connections and the events.
-- A counter is a `u64` that wraps. Each operation is one step: the counters are atomic and the
-- registry is behind a lock, and no reader depends on the order of two counters.
pub mod Registry
pub mod Entries
pub mod History
mod Tests
use next_socks.Prelude.{
  leb, ◌==◌, if◌then◌else◌, ℕ, zero, suc, ◌+◌, ◌-◌, ◌*◌, ◌%◌, ◌^◌, Bool, Option, none, some, List,
  [], ◌∷◌,
}
use next_socks.Wire.{Str}
use next_socks.Net.{SocketAddr}

pub data ConnKind : Type 0 where
  connect : ConnKind
  udp : ConnKind

pub record ConnInfo : Type 0 where
  pub id : ℕ
  pub src : SocketAddr
  pub target : Str
  pub kind : ConnKind
  pub up : ℕ
  pub down : ℕ

pub record Snapshot : Type 0 where
  pub bytes_up : ℕ
  pub bytes_down : ℕ
  pub total_conns : ℕ
  pub active_conns : ℕ
  pub successes : ℕ
  pub failures : ℕ
  pub error_codes : List ℕ

-- The text of an error or log event is left out: it is formatted for people, and no code reads it.
pub data Event : Type 0 where
  connected : ℕ → SocketAddr → Str → ConnKind → Event
  closed : ℕ → Event
  auth : Bool → Str → Event
  error : ℕ → Event
  log : Event

pub record Metrics : Type 0 where
  pub counters : Snapshot
  pub open counters use *
  pub registry : List ConnInfo
  pub next_id : ℕ

abbrev pub u64_mod : ℕ
u64_mod = 2 ^ 64

-- `fetch_add` and `fetch_sub` on a `u64`.
abbrev pub add_u64 : ℕ → ℕ → ℕ
add_u64 a n = (a + n) % u64_mod

abbrev pub sub_u64 : ℕ → ℕ → ℕ
sub_u64 a n = (a + u64_mod - n) % u64_mod

unfoldable pub new : Metrics
new = record {
  counters = record {
    bytes_up = 0;
    bytes_down = 0;
    total_conns = 0;
    active_conns = 0;
    successes = 0;
    failures = 0;
    error_codes = 0 ∷ 0 ∷ 0 ∷ 0 ∷ 0 ∷ 0 ∷ 0 ∷ 0 ∷ 0 ∷ [];
  };
  registry = [];
  next_id = 1;
}

-- The registry as a `HashMap<u64, ConnInfo>`: one entry for each id, in no order.
abbrev pub remove : ℕ → List ConnInfo → List ConnInfo
remove id [] = []
remove id (c ∷ cs) = let rest = remove id cs in if c.id == id then rest else c ∷ rest

abbrev pub update : (ConnInfo → ConnInfo) → ℕ → List ConnInfo → List ConnInfo
update f id [] = []
update f id (c ∷ cs) = (if c.id == id then f c else c) ∷ update f id cs

abbrev pub find : ℕ → List ConnInfo → Option ConnInfo
find id [] = none
find id (c ∷ cs) = if c.id == id then some c else find id cs

unfoldable pub register : Metrics → SocketAddr → Str → ConnKind → ℕ × Metrics
register m src target kind =
    let id = m.next_id in
    let info : ConnInfo = record {
      id = id;
      src = src;
      target = target;
      kind = kind;
      up = 0;
      down = 0;
    } in
    (
      id,
      record m {
        counters = record m.counters {
          total_conns = add_u64 m.total_conns 1;
          active_conns = add_u64 m.active_conns 1;
        };
        registry = info ∷ remove id m.registry;
        next_id = add_u64 id 1;
      },
    )

unfoldable pub unregister : Metrics → ℕ → Metrics
unregister m id = record m {
  counters = record m.counters { active_conns = sub_u64 m.active_conns 1 };
  registry = remove id m.registry;
}

unfoldable pub add_up : Metrics → ℕ → ℕ → Metrics
add_up m id n = record m {
  counters = record m.counters { bytes_up = add_u64 m.bytes_up n };
  registry = update (λ c. record c { up = add_u64 c.up n }) id m.registry;
}

unfoldable pub add_down : Metrics → ℕ → ℕ → Metrics
add_down m id n = record m {
  counters = record m.counters { bytes_down = add_u64 m.bytes_down n };
  registry = update (λ c. record c { down = add_u64 c.down n }) id m.registry;
}

abbrev pub bump : ℕ → List ℕ → List ℕ
bump i [] = []
bump zero (x ∷ xs) = add_u64 x 1 ∷ xs
bump (suc i) (x ∷ xs) = x ∷ bump i xs

unfoldable pub record_error : Metrics → ℕ → Metrics
record_error m code = record m {
  counters = record m.counters {
    failures = add_u64 m.failures 1;
    error_codes = if leb code 8 then bump code m.error_codes else m.error_codes;
  };
}

unfoldable pub record_success : Metrics → Metrics
record_success m = record m { counters = record m.counters { successes = add_u64 m.successes 1 } }

unfoldable pub snapshot : Metrics → Snapshot
snapshot m = m.counters

unfoldable pub connections : Metrics → List ConnInfo
connections m = m.registry

unfoldable pub active : Metrics → ℕ
active m = m.active_conns

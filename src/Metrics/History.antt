-- ===== src/Metrics/History.antt =====
-- What holds of the counters and the registry after any sequence of operations.
use next_socks.Metrics.Entries.{
  Unique, sum, find-Below, remove-Below, weaken-Below, remove-absent, remove-Unique, length-remove,
  length-update, update-Below, update-Unique, bump-sum,
}
use next_socks.Prelude.{
  leb, le→leb, length, All, ℕ, ◌+◌, ◌%◌, ◌≤◌, ◌<◌, ◌≡◌, refl, ◌≢◌, true, none, List, [], ◌∷◌, arith,
}
use next_socks.Wire.{Str}
use next_socks.Net.{SocketAddr}
use next_socks.Metrics.{
  ConnKind, ConnInfo, Metrics, u64_mod, add_u64, new, find, register, unregister, add_up, add_down,
  record_error, record_success,
}

pub data Op : Type 0 where
  open_conn : SocketAddr → Str → ConnKind → Op
  close_conn : ℕ → Op
  count_up : ℕ → ℕ → Op
  count_down : ℕ → ℕ → Op
  fail_with : ℕ → Op
  succeed : Op

unfoldable pub act : Op → Metrics → Metrics
unfolding register unregister add_up add_down record_error record_success
act (open_conn src target kind) m = (register m src target kind).1
act (close_conn id) m = unregister m id
act (count_up id n) m = add_up m id n
act (count_down id n) m = add_down m id n
act (fail_with code) m = record_error m code
act succeed m = record_success m

unfoldable pub act_all : List Op → Metrics → Metrics
unfolding act
act_all [] m = m
act_all (op ∷ ops) m = act_all ops (act op m)

-- A connection is closed only while it is registered, codes are those of replies, and the next id is
-- below the last.
abbrev pub Proper : Op → Metrics → Type 0
Proper (open_conn src target kind) m = m.next_id + 1 < u64_mod
Proper (close_conn id) m = find id m.registry ≢ none
Proper (count_up id n) m = Unit {0}
Proper (count_down id n) m = Unit {0}
Proper (fail_with code) m = code ≤ 8
Proper succeed m = Unit {0}

abbrev pub ProperAll : List Op → Metrics → Type 0
ProperAll [] m = Unit {0}
ProperAll (op ∷ ops) m = Proper op m × ProperAll ops (act op m)

-- Every entry has an id of its own, below the next; as many connections are active as are
-- registered; the buckets of the errors add up to the failures.
pub record Balanced (m : Metrics) : Type 0 where
  pub below : All (λ (c : ConnInfo). c.id < m.next_id) m.registry
  pub unique : Unique m.registry
  pub active_count : m.active_conns ≡ length m.registry % u64_mod
  pub buckets : length m.error_codes ≡ 9
  pub failed : m.failures ≡ sum m.error_codes % u64_mod

register-Balanced :
    (src : SocketAddr) (target : Str) (kind : ConnKind) (m : Metrics)
    → m.next_id + 1 < u64_mod
    → Balanced m
    → Balanced (register m src target kind).1
unfolding register
register-Balanced src target kind m p h =
    let fresh = find-Below m.next_id m.registry h.below in
    let same = remove-absent m.next_id m.registry fresh in
    let next : add_u64 m.next_id 1 ≡ m.next_id + 1 = omega arith in
    record {
      below = rw same (
        (omega (arith, next)),
        weaken-Below m.next_id (add_u64 m.next_id 1) m.registry (omega (arith, next)) h.below,
      );
      unique = rw same (fresh, h.unique);
      active_count = rw same (omega (arith, h.active_count));
      buckets = h.buckets;
      failed = h.failed;
    }

unregister-Balanced :
    (id : ℕ) (m : Metrics) → find id m.registry ≢ none → Balanced m → Balanced (unregister m id)
unfolding unregister
unregister-Balanced id m there h = record {
  below = remove-Below m.next_id id m.registry h.below;
  unique = remove-Unique id m.registry h.unique;
  active_count = omega (arith, h.active_count, length-remove id m.registry h.unique there);
  buckets = h.buckets;
  failed = h.failed;
}

add_up-Balanced : (id n : ℕ) (m : Metrics) → Balanced m → Balanced (add_up m id n)
unfolding add_up
add_up-Balanced id n m h =
    let f = λ (c : ConnInfo). record c { up = add_u64 c.up n } in
    record {
      below = update-Below f (λ c. refl) m.next_id id m.registry h.below;
      unique = update-Unique f (λ c. refl) id m.registry h.unique;
      active_count = rw (length-update f id m.registry) h.active_count;
      buckets = h.buckets;
      failed = h.failed;
    }

add_down-Balanced : (id n : ℕ) (m : Metrics) → Balanced m → Balanced (add_down m id n)
unfolding add_down
add_down-Balanced id n m h =
    let f = λ (c : ConnInfo). record c { down = add_u64 c.down n } in
    record {
      below = update-Below f (λ c. refl) m.next_id id m.registry h.below;
      unique = update-Unique f (λ c. refl) id m.registry h.unique;
      active_count = rw (length-update f id m.registry) h.active_count;
      buckets = h.buckets;
      failed = h.failed;
    }

record_error-Balanced :
    (code : ℕ) (m : Metrics) → code ≤ 8 → Balanced m → Balanced (record_error m code)
unfolding record_error
record_error-Balanced code m p h =
    let counted = bump-sum code m.error_codes (omega (arith, h.buckets)) in
    let low : leb code 8 ≡ true = le→leb code 8 p in
    record {
      below = h.below;
      unique = h.unique;
      active_count = h.active_count;
      buckets = rw low (omega (arith, counted.0, h.buckets));
      failed = rw low (omega (arith, counted.1, h.failed));
    }

act-Balanced : (op : Op) (m : Metrics) → Proper op m → Balanced m → Balanced (act op m)
unfolding act record_success
act-Balanced (open_conn src target kind) m p h = register-Balanced src target kind m p h
act-Balanced (close_conn id) m p h = unregister-Balanced id m p h
act-Balanced (count_up id n) m p h = add_up-Balanced id n m h
act-Balanced (count_down id n) m p h = add_down-Balanced id n m h
act-Balanced (fail_with code) m p h = record_error-Balanced code m p h
act-Balanced succeed m p h = record {
  below = h.below;
  unique = h.unique;
  active_count = h.active_count;
  buckets = h.buckets;
  failed = h.failed;
}

pub new-Balanced : Balanced new
unfolding new
new-Balanced = record {
  below = tt;
  unique = tt;
  active_count = refl;
  buckets = refl;
  failed = refl;
}

-- From a state in which it is so, and after any operations that close only connections which are
-- registered, record the codes of replies and use up no more ids than there are: every entry of the
-- registry has an id of its own, below the next one to be given; as many connections are counted as
-- active as are registered; and the buckets of the errors add up to the failures.
pub act_all-Balanced :
    (ops : List Op) (m : Metrics) → ProperAll ops m → Balanced m → Balanced (act_all ops m)
unfolding act_all
act_all-Balanced [] m p h = h
act_all-Balanced (op ∷ ops) m p h = act_all-Balanced ops (act op m) p.1 (act-Balanced op m p.0 h)

-- ===== src/Server/Connect/Relay/Counts.antt =====
-- What a relay counts of what it delivers.
use next_socks.Prelude.{length, take, ℕ, ◌+◌, ◌%◌, ◌≡◌, ◌⊎◌, List, [], ◌∷◌, ◌++◌}
use next_socks.Metrics.{Metrics, u64_mod}
use next_socks.Server.Connect.Relay.{
  Direction, upload, download, cut, Activity, chunk, broken, Pair, half,
}

abbrev pub counter : Direction → Metrics → ℕ
counter upload m = m.bytes_up
counter download m = m.bytes_down

-- A pass in which a direction counts what it delivers, or in which its write stops and it delivers
-- some of a chunk that is not counted.
abbrev StepCounts : Direction → Direction × Activity → Pair → Pair → Type 0
StepCounts dir x p p' =
    ((counted : List ℕ) × ((half dir p').delivered ≡ (half dir p).delivered ++ counted)
      × (counter dir p'.metrics ≡ (counter dir p.metrics + length counted) % u64_mod))
    ⊎ ((bytes : List ℕ) × (now : ℕ) × (n : ℕ) × (x ≡ (dir, chunk bytes now (cut n)))
        × ((half dir p').delivered ≡ (half dir p).delivered ++ take n bytes)
        × ((half dir p').status ≡ broken)
        × (counter dir p'.metrics ≡ counter dir p.metrics))

-- What a write that stopped delivered of a chunk of the run.
abbrev pub CutOff : Direction → List (Direction × Activity) → List ℕ → Type 0
CutOff dir run tail =
    (before : List (Direction × Activity)) × (bytes : List ℕ) × (now : ℕ) × (n : ℕ) × (after : List
      (Direction × Activity))
    × (run ≡ before ++ (dir, chunk bytes now (cut n)) ∷ after)
    × (tail ≡ take n bytes)

-- What a direction delivers in a run is what it counts, and where its last write stopped, what that
-- delivered of its chunk.
abbrev pub Counts : Direction → List (Direction × Activity) → Pair → Pair → Type 0
Counts dir run p p' =
    (counted : List ℕ) × (tail : List ℕ) × ((half dir p').delivered
      ≡ (half dir p).delivered ++ (counted ++ tail))
    × (counter dir p'.metrics ≡ (counter dir p.metrics + length counted) % u64_mod)
    × ((tail ≡ []) ⊎ (((half dir p').status ≡ broken) × CutOff dir run tail))

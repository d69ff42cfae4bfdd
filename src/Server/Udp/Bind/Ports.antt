-- ===== src/Server/Udp/Bind/Ports.antt =====
-- Which ports the scan of a range tries.
use native.Mathlib.Nat.{mod-lt, mod-eq_of_lt, mod-add-mod, mod-eq-sub-mod}
use next_socks.Prelude.{
  leb, if◌then◌else◌, Bool-cases, Result, ok, ok-injective, ℕ, zero, suc, ◌+◌, ◌-◌, ◌%◌, ◌^◌, ◌≤◌,
  ◌<◌, ◌≡◌, refl, sym, ap, ◌∙◌, subst, ◌⊎◌, inl, inr, true, Option, none, some, arith, ℕ_discrete,
}
use next_socks.Errors.{IoErrorKind}
use next_socks.Config.{PortRange}
use next_socks.Server.Udp.Bind.{u32_mod, width, candidate, retries, try_port, scan, bind_with_retry}

abbrev pub InRange : PortRange → ℕ → Type 0
InRange range port = (range.start ≤ port) × (port ≤ range.end)

-- What `PortRange::parse` lets through, as 16-bit numbers.
abbrev pub IsRange : PortRange → Type 0
IsRange range = (range.start ≤ range.end) × (range.end < 2 ^ 16)

candidate-InRange :
    (range : PortRange) (base i : ℕ) → IsRange range → InRange range (candidate range base i)
unfolding candidate
candidate-InRange range base i h =
    let offset = (base + i) % u32_mod % width range in
    let small : offset < width range = mod-lt ((base + i) % u32_mod) (omega arith) in
    let cast : offset % 2 ^ 16 ≡ offset = mod-eq_of_lt (omega arith) in omega arith

module _ (bind : ℕ → Option IoErrorKind) (range : PortRange) where
  -- A port that was bound lies in the range, and it is one that could be bound.
  try_port-ok :
      (candidate : ℕ) (result : Option IoErrorKind) (rest : Result ℕ IoErrorKind) (port : ℕ)
      → try_port candidate result rest ≡ ok port
      → ((port ≡ candidate) × (result ≡ none)) ⊎ (rest ≡ ok port)
  try_port-ok candidate none rest port h = inl (sym (ok-injective h), refl)
  try_port-ok candidate (some e) rest port h = ground arith

  scan-InRange :
      (base i left port : ℕ)
      → IsRange range
      → scan bind range base i left ≡ ok port
      → InRange range port × (bind port ≡ none)
  unfolding scan
  scan-InRange base i zero port r h = cc
  scan-InRange base i (suc left) port r h =
      let p = candidate range base i in
      elim (try_port-ok p (bind p) (scan bind range base (i + 1) left) port h) [
        | inl (e, free) ↦
            (subst (InRange range) (sym e) (candidate-InRange range base i r), ap bind e ∙ free)
        | inr later ↦ scan-InRange base (i + 1) left port r later
      ]

  -- The ports of a range that are taken, or need a privilege, are passed over.
  abbrev pub Retried : Type 0
  Retried = (port : ℕ) (e : IoErrorKind) → bind port ≡ some e → retries e ≡ true

  abbrev Bound : Result ℕ IoErrorKind → Type 0
  Bound r = (port : ℕ) × (r ≡ ok port)

  try_port-Bound :
      (candidate : ℕ) (result : Option IoErrorKind) (rest : Result ℕ IoErrorKind)
      → ((e : IoErrorKind) → result ≡ some e → retries e ≡ true)
      → (result ≡ none) ⊎ Bound rest
      → Bound (try_port candidate result rest)
  try_port-Bound candidate none rest retried h = (candidate, refl)
  try_port-Bound candidate (some e) rest retried (inl h) = cc
  try_port-Bound candidate (some e) rest retried (inr h) = rw (retried e refl) h

  scan-Bound :
      (base i left k : ℕ)
      → Retried
      → i ≤ k
      → k < i + left
      → bind (candidate range base k) ≡ none
      → Bound (scan bind range base i left)
  unfolding scan
  scan-Bound base i zero k retried p q free = absurd (omega arith)
  scan-Bound base i (suc left) k retried p q free =
      let c = candidate range base i in
      try_port-Bound c (bind c) (scan bind range base (i + 1) left) (retried c)
        (elim (ℕ_discrete i k) [
          | yes same ↦ inl (ap (λ j. bind (candidate range base j)) same ∙ free)
          | no later ↦ inr (scan-Bound base (i + 1) left k retried (omega arith) (omega arith) free)
        ])

-- The step at which an offset is tried, where the cursor does not wrap during the scan.
abbrev step_of : ℕ → ℕ → ℕ → ℕ
step_of w base offset = if leb (base % w) offset then offset - base % w else offset + w - base % w

step_of-mod :
    (w base offset : ℕ)
    → offset < w
    → (step_of w base offset < w) × ((base + step_of w base offset) % w ≡ offset)
step_of-mod w base offset h =
    let r = base % w in
    let small : r < w = mod-lt base (omega arith) in
    let i = step_of w base offset in
    let split = mod-add-mod base w i in
    let exact = mod-eq_of_lt h in
    elim (Bool-cases (leb r offset)) [
      | inl e ↦
          let sum : r + i ≡ offset = ground arith in
          (ground arith, sym split ∙ ap (λ n. n % w) sum ∙ exact)
      | inr e ↦
          let sum : r + i ≡ offset + w = ground arith in
          let over : (offset + w) % w ≡ offset =
            mod-eq-sub-mod {n = offset + w} {m = w} (omega arith)
            ∙ ap (λ n. n % w) (omega arith)
            ∙ exact in
          (ground arith, sym split ∙ ap (λ n. n % w) sum ∙ over)
    ]

candidate-step_of :
    (range : PortRange) (base port : ℕ)
    → IsRange range
    → InRange range port
    → base + width range ≤ u32_mod
    → let k = step_of (width range) base (port - range.start) in
      (k < width range) × (candidate range base k ≡ port)
unfolding candidate
candidate-step_of range base port h inside fits =
    let w = width range in
    let offset = port - range.start in
    let (early, exact) = step_of-mod w base offset (omega arith) in
    let k = step_of w base offset in
    let whole : (base + k) % u32_mod ≡ base + k = mod-eq_of_lt (omega arith) in
    let cast : offset % 2 ^ 16 ≡ offset = mod-eq_of_lt (omega arith) in
    (
      early,
      ap (λ n. range.start + n % w % 2 ^ 16) whole
          ∙ ap (λ n. range.start + n % 2 ^ 16) exact
          ∙ ap (λ n. range.start + n) cast
          ∙ omega arith,
    )

-- Where some port of the range can be bound and the others fail as taken or privileged, the scan
-- binds one that is free and in the range, as long as the cursor does not wrap during the scan.
pub bind_with_retry-InRange :
    (bind : ℕ → Option IoErrorKind) (range : PortRange) (cursor free : ℕ)
    → IsRange range
    → cursor + width range ≤ u32_mod
    → ((port : ℕ) (e : IoErrorKind) → bind port ≡ some e → retries e ≡ true)
    → InRange range free
    → bind free ≡ none
    → (port : ℕ) × ((bind_with_retry bind (some range) cursor).0 ≡ ok port)
      × InRange range port
      × (bind port ≡ none)
unfolding bind_with_retry
bind_with_retry-InRange bind range cursor free r fits retried inside e =
    let (early, there) = candidate-step_of range cursor free r inside fits in
    let k = step_of (width range) cursor (free - range.start) in
    let (port, found) =
      scan-Bound bind range cursor 0 (width range) k retried (omega arith) (omega arith)
        (ap bind there ∙ e) in
    let (in_range, bound) = scan-InRange bind range cursor 0 (width range) port r found in
    (port, found, in_range, bound)

-- ===== src/Config/Parse/Laws.antt =====
-- What the checks on the configuration let through.
use next_socks.Prelude.{
  ltb, ◌==◌, Bool-cases, Option-cases, some-injective, Result, ok, ok-injective, length, All, ℕ,
  ◌+◌, ◌-◌, ◌*◌, ◌^◌, ◌≤◌, ◌<◌, ◌≡◌, refl, subst, inl, inr, Bool, true, ◌&&◌, Option, none, some,
  List, [], ◌∷◌, arith,
}
use next_socks.Config.{PortRange}
use next_socks.Config.Parse.{
  is_digit, trim_start, trim_end, digits, some_digits, parse_u16, split_once, RangeError,
  check_range, check_parts, parse, strip_dot, prepend, labels, allowed, all_allowed, is_label,
  all_labels, is_valid_dns_name,
}
use next_socks.Wire.{Str}

digits-lt :
    (value : ℕ) (cs : List ℕ) (n : ℕ) → value < 2 ^ 16 → digits value cs ≡ some n → n < 2 ^ 16
unfolding digits
digits-lt value [] n p h = subst (λ k. k < 2 ^ 16) (some-injective h) p
digits-lt value (c ∷ cs) n p h =
    let next = value * 10 + (c - 0x30) in
    elim (Bool-cases (is_digit c && ltb next (2 ^ 16))) [
      | inl e ↦ digits-lt next cs n (ground arith) (rw e at h)
      | inr e ↦ let k = rw e at h in cc
    ]

some_digits-lt : (cs : List ℕ) (n : ℕ) → some_digits cs ≡ some n → n < 2 ^ 16
some_digits-lt [] n h = cc
some_digits-lt (c ∷ cs) n h = digits-lt 0 (c ∷ cs) n (omega arith) h

parse_u16-lt : (cs : List ℕ) (n : ℕ) → parse_u16 cs ≡ some n → n < 2 ^ 16
unfolding parse_u16
parse_u16-lt [] n h = cc
parse_u16-lt (c ∷ cs) n h = elim (Bool-cases (c == 0x2b)) [
  | inl e ↦ some_digits-lt cs n (rw e at h)
  | inr e ↦ some_digits-lt (c ∷ cs) n (rw e at h)
]

abbrev pub Bounds : PortRange → Type 0
Bounds range = (1 ≤ range.start) × (range.start ≤ range.end) × (range.end < 2 ^ 16)

check_range-Bounds :
    (first last : ℕ) (range : PortRange)
    → last < 2 ^ 16
    → check_range first last ≡ ok range
    → Bounds range
unfolding check_range
check_range-Bounds first last range p h = elim (Bool-cases (first == 0)) [
  | inl e ↦ let k = rw e at h in cc
  | inr e ↦ elim (Bool-cases (ltb last first)) [
    | inl f ↦ let k = rw (e, f) at h in cc
    | inr f ↦
        let same : Path (Result PortRange RangeError) (ok (record { start = first; end = last }))
            (ok range) =
          rw (e, f) at h in
        subst Bounds (ok-injective same) (ground arith, ground arith, p)
  ]
]

check_parts-Bounds :
    (parts : Option (List ℕ × List ℕ)) (range : PortRange)
    → check_parts parts ≡ ok range
    → Bounds range
unfolding check_parts
check_parts-Bounds none range h = cc
check_parts-Bounds (some (before, after)) range h =
    let a = parse_u16 (trim_end (trim_start before)) in
    let b = parse_u16 (trim_end (trim_start after)) in
    elim (Option-cases a) [
      | inl e ↦ let k = rw e at h in cc
      | inr (first, e) ↦ elim (Option-cases b) [
        | inl f ↦ let k = rw (e, f) at h in cc
        | inr (last, f) ↦
            check_range-Bounds first last range (parse_u16-lt (trim_end (trim_start after)) last f)
              (rw (e, f) at h)
      ]
    ]

-- A port range that is accepted has a first port of at least 1, which is not above its last port,
-- and both are 16-bit numbers.
pub parse-Bounds : (s : List ℕ) (range : PortRange) → parse s ≡ ok range → Bounds range
unfolding parse
parse-Bounds s range h = check_parts-Bounds (split_once 0x2d s) range h

-- An ASCII byte.
abbrev pub IsAscii : ℕ → Type 0
IsAscii b = b < 128

abbrev all_all : List Str → Bool
all_all [] = true
all_all (l ∷ ls) = all_allowed l && all_all ls

prepend-all_labels :
    (b : ℕ) (ls : List Str)
    → all_all (prepend b ls) ≡ true
    → (allowed b ≡ true) × (all_all ls ≡ true)
prepend-all_labels b [] h = (ground arith, refl)
prepend-all_labels b (l ∷ ls) h = (ground arith, ground arith)

labels-IsAscii : (bs : Str) → all_all (labels bs) ≡ true → All IsAscii bs
unfolding labels
labels-IsAscii [] h = tt
labels-IsAscii (b ∷ bs) h = elim (Bool-cases (b == 0x2e)) [
  | inl e ↦ (ground arith, labels-IsAscii bs (rw e at h))
  | inr e ↦
      let (here, later) = prepend-all_labels b (labels bs) (rw e at h) in
      (ground arith, labels-IsAscii bs later)
]

all_labels-all_all : (ls : List Str) → all_labels ls ≡ true → all_all ls ≡ true
unfolding is_label
all_labels-all_all [] h = refl
all_labels-all_all (l ∷ ls) h = ground (arith, all_labels-all_all ls)

-- What `strip_dot` takes off.
strip_dot-short :
    (s : Str)
    → All IsAscii (strip_dot s)
    → All IsAscii s × (length (strip_dot s) ≤ length s) × (length s ≤ length (strip_dot s) + 1)
unfolding strip_dot
strip_dot-short [] h = (tt, omega arith, omega arith)
strip_dot-short (b ∷ []) h = elim (Bool-cases (b == 0x2e)) [
  | inl e ↦ rw e ((ground arith, tt), omega arith, omega arith)
  | inr e ↦ rw e ((rw e at h), omega arith, omega arith)
]
strip_dot-short (b ∷ c ∷ cs) (p, h) =
    let (q, lower, upper) = strip_dot-short (c ∷ cs) h in ((p, q), omega arith, omega arith)

-- A name that is accepted is ASCII and not empty, and with its closing dot it has at most 254 bytes,
-- so it fits in the length byte of an address.
pub is_valid_dns_name_bounds :
    (s : Str) → is_valid_dns_name s ≡ true → All IsAscii s × (1 ≤ length s) × (length s ≤ 254)
unfolding is_valid_dns_name
is_valid_dns_name_bounds s h =
    let name = strip_dot s in
    let (ascii, lower, upper) =
      strip_dot-short s (labels-IsAscii name (all_labels-all_all (labels name) (ground arith))) in
    (ascii, ground arith, ground arith)

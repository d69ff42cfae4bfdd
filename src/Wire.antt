-- ===== src/Wire.antt =====
-- What the codecs take from Rust's standard library: bytes, big-endian `u16`s and UTF-8.
-- A `u8` is a number below 256, a `&[u8]` or `Vec<u8>` a list of them, and a `String` the list of
-- its bytes; `std::str::from_utf8` accepts the byte sequences of its documented table.
pub mod Bits
pub mod Text
use next_socks.Prelude.{
  ℕ, ◌+◌, ◌*◌, ◌/◌, ◌%◌, ◌<◌, ◌≡◌, refl, Bool, true, false, ◌&&◌, List, [], ◌∷◌, Option, none, some,
  arith, ltb, leb, ◌==◌, if◌then◌else◌, All,
}

abbrev pub IsByte : ℕ → Type 0
IsByte b = b < 256

abbrev pub IsBytes : List ℕ → Type 0
IsBytes = All IsByte

abbrev pub Str : Type 0
Str = List ℕ

-- `u16::from_be_bytes`.
abbrev pub be16 : ℕ → ℕ → ℕ
be16 hi lo = hi * 256 + lo

-- `u16::to_be_bytes`.
abbrev pub to_be_bytes : ℕ → List ℕ
to_be_bytes port = port / 256 ∷ port % 256 ∷ []

-- What the bytes read so far still require.
pub data Utf8 : Type 0 where
  start tail1 tail2 tail3 after_e0 after_ed after_f0 after_f4 bad : Utf8

abbrev within : ℕ → ℕ → ℕ → Bool
within lo hi b = leb lo b && leb b hi

utf8_start : ℕ → Utf8
utf8_start b =
    if ltb b 0x80
    then start
    else if within 0xc2 0xdf b
    then tail1
    else if b == 0xe0
    then after_e0
    else if b == 0xed
    then after_ed
    else if within 0xe1 0xef b
    then tail2
    else if b == 0xf0
    then after_f0
    else if b == 0xf4
    then after_f4
    else if within 0xf1 0xf3 b
    then tail3
    else bad

abbrev expect : Bool → Utf8 → Utf8
expect fits next = if fits then next else bad

utf8_step : Utf8 → ℕ → Utf8
unfolding utf8_start
utf8_step start b = utf8_start b
utf8_step tail1 b = expect (within 0x80 0xbf b) start
utf8_step tail2 b = expect (within 0x80 0xbf b) tail1
utf8_step tail3 b = expect (within 0x80 0xbf b) tail2
utf8_step after_e0 b = expect (within 0xa0 0xbf b) tail1
utf8_step after_ed b = expect (within 0x80 0x9f b) tail1
utf8_step after_f0 b = expect (within 0x90 0xbf b) tail2
utf8_step after_f4 b = expect (within 0x80 0x8f b) tail2
utf8_step bad b = bad

utf8_run : Utf8 → List ℕ → Utf8
utf8_run s [] = s
utf8_run s (b ∷ bs) = utf8_run (utf8_step s b) bs

is_start : Utf8 → Bool
is_start start = true
is_start _ = false

unfoldable pub is_utf8 : List ℕ → Bool
unfolding utf8_step utf8_run is_start
is_utf8 bs = is_start (utf8_run start bs)

-- `std::str::from_utf8`, with the error's details dropped as every caller drops them.
abbrev pub from_utf8 : List ℕ → Option Str
from_utf8 bs = if is_utf8 bs then some bs else none

pub from_utf8_lem : (bs : List ℕ) {s : Str} → from_utf8 bs ≡ some s → (s ≡ bs) × (is_utf8 bs ≡ true)
from_utf8_lem bs h = ground arith

pub div-mod-be16 : (hi lo : ℕ) → lo < 256 → to_be_bytes (be16 hi lo) ≡ hi ∷ lo ∷ []
div-mod-be16 hi lo h = ground arith

pub be16-div-mod : (port : ℕ) → be16 (port / 256) (port % 256) ≡ port
be16-div-mod port = omega arith

utf8_table :
    (is_utf8 (0xe2 ∷ 0x82 ∷ 0xac ∷ 0x61 ∷ []) ≡ true)
    × (is_utf8 (0xff ∷ 0xfe ∷ []) ≡ false)
    × (is_utf8 (0xed ∷ 0xa0 ∷ 0x80 ∷ []) ≡ false)
    × (is_utf8 (0xc3 ∷ []) ≡ false)
unfolding is_utf8
utf8_table = (refl, refl, refl, refl)

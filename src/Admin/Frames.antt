-- ===== src/Admin/Frames.antt =====
-- src/admin/mod.rs: the frames between server and dashboard, four bytes of length and the body that
-- `postcard` makes of the frame. What `postcard` encodes and decodes is a parameter.
pub mod RoundTrip
use next_socks.Prelude.{
  ltb, if◌then◌else◌, Result, ok, err, ok_or, length, take, drop, ℕ, ◌+◌, ◌*◌, ◌/◌, ◌%◌, ◌^◌,
  Option, List, [], ◌∷◌, ◌++◌, ◌>>=◌,
}
use next_socks.Wire.{Str}
use next_socks.Metrics.{ConnInfo, Snapshot, Event}

abbrev pub proto_version : ℕ
proto_version = 1

abbrev pub max_frame_len : ℕ
max_frame_len = 2 ^ 20

pub data Frame : Type 0 where
  hello : ℕ → Option Str → Frame
  stats : Snapshot → List ConnInfo → Frame
  frame_event : Event → Frame

pub data FrameError : Type 0 where
  io : FrameError
  too_large : ℕ → FrameError
  malformed : FrameError

-- `postcard::to_allocvec` and `postcard::from_bytes`.
pub record Codec : Type 0 where
  pub to_bytes : Frame → Option (List ℕ)
  pub from_bytes : List ℕ → Option Frame

-- `u32::to_be_bytes` and `u32::from_be_bytes`.
abbrev pub be32_bytes : ℕ → List ℕ
be32_bytes n = n / 2 ^ 24 ∷ n / 2 ^ 16 % 256 ∷ n / 2 ^ 8 % 256 ∷ n % 256 ∷ []

abbrev pub be32 : ℕ → ℕ → ℕ → ℕ → ℕ
be32 a b c d = a * 2 ^ 24 + b * 2 ^ 16 + c * 2 ^ 8 + d

-- The length is cast to a `u32`, which drops its higher bits.
unfoldable pub frame_bytes : List ℕ → Result (List ℕ) FrameError
frame_bytes body =
    let len = length body % 2 ^ 32 in
    if ltb max_frame_len len then err (too_large len) else ok (be32_bytes len ++ body)

-- What `write_frame` puts on the stream where the writes succeed.
unfoldable pub write_frame : Codec → Frame → Result (List ℕ) FrameError
unfolding frame_bytes
write_frame codec frame = do body ← ok_or (codec.to_bytes frame) malformed; frame_bytes body

-- `read_exact` of the body, with the stream behind it.
unfoldable pub read_body : Codec → ℕ → List ℕ → Result (Frame × List ℕ) FrameError
read_body codec len rest =
    if ltb max_frame_len len
    then err (too_large len)
    else if ltb (length rest) len
    then err io
    else do frame ← ok_or (codec.from_bytes (take len rest)) malformed; ok (frame, drop len rest)

unfoldable pub read_frame : Codec → List ℕ → Result (Frame × List ℕ) FrameError
unfolding read_body
read_frame codec (a ∷ b ∷ c ∷ d ∷ rest) = read_body codec (be32 a b c d) rest
read_frame codec _ = err io

-- ===== src/Admin/Frames/RoundTrip.antt =====
-- What is written is read back, one frame at a time, and the dashboard's loop over a stream.
use next_socks.Prelude.{
  ltb, if◌then◌else◌, Bool-cases, ok, err, ok-injective, length, length-append, take-length_append,
  drop-length_append, ℕ, ◌/◌, ◌%◌, ◌^◌, ◌≤◌, ◌<◌, ◌≡◌, sym, ap, ◌∙◌, subst, inl, inr, some, List,
  ◌++◌, arith,
}
use next_socks.Admin.Frames.{
  max_frame_len, Frame, too_large, Codec, be32_bytes, be32, frame_bytes, write_frame, read_body,
  read_frame,
}

-- What the program relies on: decoding gives back what was encoded.
abbrev pub Faithful : Codec → Type 0
Faithful codec =
    (frame : Frame) (body : List ℕ)
    → codec.to_bytes frame ≡ some body
    → codec.from_bytes body ≡ some frame

be32-be32_bytes : (n : ℕ) → be32 (n / 2 ^ 24) (n / 2 ^ 16 % 256) (n / 2 ^ 8 % 256) (n % 256) ≡ n
be32-be32_bytes n = omega arith

read_body-some :
    (codec : Codec) (frame : Frame) (body rest : List ℕ)
    → codec.from_bytes body ≡ some frame
    → length body ≤ max_frame_len
    → read_body codec (length body) (body ++ rest) ≡ ok (frame, rest)
unfolding read_body
read_body-some codec frame body rest e p =
    ground
      (arith, length-append body rest, take-length_append body rest, drop-length_append body rest)

frame_bytes-ok :
    (body bytes : List ℕ)
    → length body < 2 ^ 32
    → frame_bytes body ≡ ok bytes
    → (length body ≤ max_frame_len) × (bytes ≡ be32_bytes (length body) ++ body)
unfolding frame_bytes
frame_bytes-ok body bytes short h =
    let same : length body % 2 ^ 32 ≡ length body = omega arith in
    let h' =
      subst
        (λ n.
          (if ltb max_frame_len n then err (too_large n) else ok (be32_bytes n ++ body)) ≡ ok bytes)
        same h in
    elim (Bool-cases (ltb max_frame_len (length body))) [
      | inl big ↦ absurd (let k = rw big at h' in cc)
      | inr fits ↦ (ground arith, sym (ok-injective (rw fits at h')))
    ]

-- With a codec that decodes what it encoded, a frame that was written is read back from the front of
-- any stream that starts with it, and the stream behind it is left. The encoding must be shorter than
-- 4 GiB, where its length would be cut.
pub read_frame-write_frame :
    (codec : Codec) (frame : Frame) (body bytes rest : List ℕ)
    → Faithful codec
    → codec.to_bytes frame ≡ some body
    → length body < 2 ^ 32
    → write_frame codec frame ≡ ok bytes
    → read_frame codec (bytes ++ rest) ≡ ok (frame, rest)
unfolding write_frame read_frame
read_frame-write_frame codec frame body bytes rest faithful e short h =
    let n = length body in
    let (fits, same) = frame_bytes-ok body bytes short (rw e at h) in
    let length_read = ap (λ k. read_body codec k (body ++ rest)) (be32-be32_bytes n) in
    ap (λ t. read_frame codec (t ++ rest)) same
    ∙ length_read
    ∙ read_body-some codec frame body rest (faithful frame body e) fits

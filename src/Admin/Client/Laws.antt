-- ===== src/Admin/Client/Laws.antt =====
-- The dashboard's loop ends, and shows what was sent.
use next_socks.Prelude.{
  Result, ok, err, Result-cases, length, length-drop, ℕ, zero, suc, ◌^◌, ◌≤◌, ◌<◌, ◌≡◌, refl, ap,
  ◌∙◌, inl, inr, true, some, List, [], ◌∷◌, ◌++◌, arith,
}
use next_socks.Admin.Frames.{Frame, FrameError, io, Codec, be32, write_frame, read_body, read_frame}
use next_socks.Admin.Frames.RoundTrip.{Faithful, read_frame-write_frame}
use next_socks.Admin.Client.{Remote, apply_frame, lose, decode_loop}

read_body-lt :
    (codec : Codec) (len : ℕ) (rest : List ℕ) (x : Frame × List ℕ)
    → read_body codec len rest ≡ ok x
    → length x.1 ≤ length rest
unfolding read_body
read_body-lt codec len rest x h = ground (arith, length-drop len rest)

read_frame-nil : (codec : Codec) → read_frame codec [] ≡ err io
unfolding read_frame
read_frame-nil codec = refl

-- A frame takes bytes off the stream.
read_frame-lt :
    (codec : Codec) (stream : List ℕ) (x : Frame × List ℕ)
    → read_frame codec stream ≡ ok x
    → length x.1 < length stream
unfolding read_frame
read_frame-lt codec [] x h = cc
read_frame-lt codec (a ∷ []) x h = cc
read_frame-lt codec (a ∷ b ∷ []) x h = cc
read_frame-lt codec (a ∷ b ∷ c ∷ []) x h = cc
read_frame-lt codec (a ∷ b ∷ c ∷ d ∷ rest) x h =
    omega (arith, read_body-lt codec (be32 a b c d) rest x h)

decode_loop-step :
    (fuel : ℕ) (codec : Codec) (stream : List ℕ) (r r' : Remote)
    (read : Result (Frame × List ℕ) FrameError)
    → read_frame codec stream ≡ read
    → elim read as (λ x. Remote) [
      | ok x ↦ decode_loop fuel codec x.1 (apply_frame x.0 r)
      | err e ↦ lose r
    ]
      ≡ r'
    → decode_loop (suc fuel) codec stream r ≡ r'
unfolding decode_loop
decode_loop-step fuel codec stream r r' read e h =
    ap
      (λ x. elim x as (λ x. Remote) [
        | ok y ↦ decode_loop fuel codec y.1 (apply_frame y.0 r)
        | err e ↦ lose r
      ])
      e
    ∙ h

-- The loop over a stream that ends always ends, by losing the connection: a fuel above the length of
-- the stream is enough.
pub decode_loop_ends :
    (fuel : ℕ) (codec : Codec) (stream : List ℕ) (r : Remote)
    → length stream < fuel
    → (decode_loop fuel codec stream r).lost ≡ true
unfolding decode_loop lose
decode_loop_ends zero codec stream r p = absurd (omega arith)
decode_loop_ends (suc fuel) codec stream r p = elim (Result-cases (read_frame codec stream)) [
  | inl (x, e) ↦
      let next = decode_loop fuel codec x.1 (apply_frame x.0 r) in
      ap (λ (y : Remote). y.lost) (decode_loop-step fuel codec stream r next (ok x) e refl)
      ∙ decode_loop_ends fuel codec x.1 (apply_frame x.0 r)
          (omega (arith, read_frame-lt codec stream x e))
  | inr (e, h) ↦
      ap (λ (y : Remote). y.lost) (decode_loop-step fuel codec stream r (lose r) (err e) h refl)
]

abbrev pub apply_frames : List Frame → Remote → Remote
apply_frames [] r = r
apply_frames (f ∷ fs) r = apply_frames fs (apply_frame f r)

-- A stream is the frames in this order, each with its body's bytes.
abbrev pub Carries : Codec → List Frame → List ℕ → Type 0
Carries codec [] stream = stream ≡ []
Carries codec (f ∷ fs) stream =
    (body : List ℕ) × (bytes : List ℕ) × (rest : List ℕ) × (codec.to_bytes f ≡ some body)
    × (length body < 2 ^ 32)
    × (write_frame codec f ≡ ok bytes)
    × (stream ≡ bytes ++ rest)
    × Carries codec fs rest

-- With a codec that decodes what it encoded, and a fuel above the number of frames, the loop over a
-- stream of frames that were written, each shorter than 4 GiB, ends with the state that these frames
-- make up in their order, and with the connection lost.
pub decode_loop-Carries :
    (fuel : ℕ) (codec : Codec) (frames : List Frame) (stream : List ℕ) (r : Remote)
    → Faithful codec
    → Carries codec frames stream
    → length frames < fuel
    → decode_loop fuel codec stream r ≡ lose (apply_frames frames r)
unfolding decode_loop
decode_loop-Carries zero codec frames stream r faithful carries p = absurd (omega arith)
decode_loop-Carries (suc fuel) codec [] stream r faithful carries p =
    decode_loop-step fuel codec stream r (lose r) (err io)
      (ap (read_frame codec) carries ∙ read_frame-nil codec) refl
decode_loop-Carries (suc fuel) codec (f ∷ fs) stream r faithful carries p =
    let (body, bytes, rest, e, short, written, split, later) = carries in
    decode_loop-step fuel codec stream r (lose (apply_frames fs (apply_frame f r))) (ok (f, rest))
      (ap (read_frame codec) split
        ∙ read_frame-write_frame codec f body bytes rest faithful e short written)
      (decode_loop-Carries fuel codec fs rest (apply_frame f r) faithful later (omega arith))

-- ===== src/Admin/Server/Arrival.antt =====
-- What the server sends to a dashboard, and which of its frames arrive.
use mathlib.Core.Path.{fun_ext}
use next_socks.Prelude.{
  Option-cases, Result, ok, err, length, take, ℕ, zero, suc, ◌^◌, ◌<◌, ◌≡◌, refl, sym, ap, ◌∙◌,
  subst, inl, inr, Bool, true, false, Option, some, List, [], ◌∷◌, ◌++◌, append-nil, append_assoc,
}
use next_socks.Wire.{Str}
use next_socks.Metrics.{Event}
use next_socks.Admin.Ring.{event, lagged, channel_closed}
use next_socks.Admin.Frames.{
  proto_version, Frame, hello, stats, frame_event, FrameError, Codec, write_frame,
}
use next_socks.Admin.Server.{
  Outlet, Happening, tick, received, shutdown_changed, Sending, deliver, send_frame, and_then,
  replay_events, push_loop, handle_client,
}
use next_socks.Admin.Client.Laws.{Carries}

-- The frames behind the greeting: the events replayed, then what happens until the loop ends.
abbrev pub live : List Happening → List Frame
live [] = []
live (tick figures entries ∷ rest) = stats figures entries ∷ live rest
live (received (event ev) ∷ rest) = frame_event ev ∷ live rest
live (received (lagged n) ∷ rest) = live rest
live (received channel_closed ∷ rest) = []
live (shutdown_changed true ∷ rest) = []
live (shutdown_changed false ∷ rest) = live rest

abbrev pub updates : List Event → List Happening → List Frame
updates [] happenings = live happenings
updates (ev ∷ rest) happenings = frame_event ev ∷ updates rest happenings

unfoldable pub send_all : Codec → List Frame → Outlet → Sending
unfolding send_frame
send_all codec [] o = (ok tt, o)
send_all codec (f ∷ fs) o = and_then (send_frame codec f o) (send_all codec fs)

pub push_loop-live :
    (codec : Codec) (hs : List Happening) (o : Outlet)
    → push_loop codec hs o ≡ send_all codec (live hs) o
unfolding push_loop send_all
push_loop-live codec [] o = refl
push_loop-live codec (tick figures entries ∷ rest) o =
    ap (and_then (send_frame codec (stats figures entries) o)) (fun_ext (push_loop-live codec rest))
push_loop-live codec (received (event ev) ∷ rest) o =
    ap (and_then (send_frame codec (frame_event ev) o)) (fun_ext (push_loop-live codec rest))
push_loop-live codec (received (lagged n) ∷ rest) o = push_loop-live codec rest o
push_loop-live codec (received channel_closed ∷ rest) o = refl
push_loop-live codec (shutdown_changed true ∷ rest) o = refl
push_loop-live codec (shutdown_changed false ∷ rest) o = push_loop-live codec rest o

pub and_then_assoc :
    (x : Sending) (f g : Outlet → Sending)
    → and_then (and_then x f) g ≡ and_then x (λ o. and_then (f o) g)
and_then_assoc (ok u, o) f g = refl
and_then_assoc (err e, o) f g = refl

pub replay-updates :
    (codec : Codec) (history : List Event) (hs : List Happening) (o : Outlet)
    → and_then (replay_events codec history o) (push_loop codec hs)
      ≡ send_all codec (updates history hs) o
unfolding replay_events send_all
replay-updates codec [] hs o = push_loop-live codec hs o
replay-updates codec (ev ∷ rest) hs o =
    and_then_assoc (send_frame codec (frame_event ev) o) (replay_events codec rest)
      (push_loop codec hs)
    ∙ ap (and_then (send_frame codec (frame_event ev) o)) (fun_ext (replay-updates codec rest hs))

pub handle_client-send_all :
    (codec : Codec) (listen_addr : Option Str) (history : List Event) (hs : List Happening)
    (o : Outlet)
    → handle_client codec listen_addr history hs o
      ≡ send_all codec (hello proto_version listen_addr ∷ updates history hs) o
unfolding handle_client send_all
handle_client-send_all codec listen_addr history hs o =
    ap (and_then (send_frame codec (hello proto_version listen_addr) o))
      (fun_ext (replay-updates codec history hs))

-- The frames before the first that cannot be written as one.
abbrev pub if_written : Result (List ℕ) FrameError → Frame → List Frame → List Frame
if_written (ok bytes) f later = f ∷ later
if_written (err e) f later = []

abbrev pub sendable : Codec → List Frame → List Frame
sendable codec [] = []
sendable codec (f ∷ fs) = if_written (write_frame codec f) f (sendable codec fs)

pub sendable-written :
    (codec : Codec) (f : Frame) (fs : List Frame) (r : Result (List ℕ) FrameError)
    → write_frame codec f ≡ r
    → sendable codec (f ∷ fs) ≡ if_written r f (sendable codec fs)
sendable-written codec f fs r h = ap (λ x. if_written x f (sendable codec fs)) h

-- How many writes come before the first that fails.
abbrev pub successes : List Bool → ℕ
successes [] = 0
successes (true ∷ ws) = suc (successes ws)
successes (false ∷ ws) = 0

-- Of the frames given, those that a client gets: one for each write until one fails.
abbrev pub arriving : Codec → List Bool → List Frame → List Frame
arriving codec writes frames = take (successes writes) (sendable codec frames)

-- The frames that arrive, and no others, make up what was added to the stream.
abbrev pub Sent : Codec → List Frame → Outlet → Outlet → Type 0
Sent codec frames before after =
    (stream : List ℕ) × (after.sent ≡ before.sent ++ stream)
    × Carries codec (arriving codec before.writes frames) stream

-- Every encoding is shorter than 4 GiB.
abbrev pub Short : Codec → Type 0
Short codec =
    (frame : Frame) (body : List ℕ) → codec.to_bytes frame ≡ some body → length body < 2 ^ 32

pub write_frame-body :
    (codec : Codec) (frame : Frame) (bytes : List ℕ)
    → write_frame codec frame ≡ ok bytes
    → (body : List ℕ) × (codec.to_bytes frame ≡ some body)
unfolding write_frame
write_frame-body codec frame bytes h = elim (Option-cases (codec.to_bytes frame)) [
  | inl e ↦ let k = rw e at h in cc
  | inr x ↦ x
]

pub Sent-none :
    (codec : Codec) (frames : List Frame) (o : Outlet)
    → arriving codec o.writes frames ≡ []
    → Sent codec frames o o
Sent-none codec frames o e =
    ([], sym (append-nil o.sent), subst (λ fs. Carries codec fs []) (sym e) refl)

pub take-nil : (n : ℕ) → Path (List Frame) (take n []) []
take-nil zero = refl
take-nil (suc n) = refl

module _ (codec : Codec) (short : Short codec) where
  pub deliver-Sent :
      (frame : Frame) (frames : List Frame) (written : Result (List ℕ) FrameError) (sent : List ℕ)
      (writes : List Bool)
      → write_frame codec frame ≡ written
      → ((x : Outlet) → Sent codec frames x (send_all codec frames x).1)
      → let o : Outlet = record { sent = sent; writes = writes } in
        Sent codec
          (frame ∷ frames)
          o
          (and_then (deliver writes written o) (send_all codec frames)).1
  deliver-Sent frame frames (err e) sent writes h later =
      Sent-none codec (frame ∷ frames) (record { sent = sent; writes = writes })
        (ap (take (successes writes)) (sendable-written codec frame frames (err e) h)
          ∙ take-nil (successes writes))
  deliver-Sent frame frames (ok bytes) sent [] h later =
      Sent-none codec (frame ∷ frames) (record { sent = sent; writes = [] }) refl
  deliver-Sent frame frames (ok bytes) sent (false ∷ ws) h later = ([], sym (append-nil sent), refl)
  deliver-Sent frame frames (ok bytes) sent (true ∷ ws) h later =
      let (stream, added, carries) = later (record { sent = sent ++ bytes; writes = ws }) in
      let (body, b) = write_frame-body codec frame bytes h in
      (
        bytes ++ stream,
        added ∙ append_assoc sent bytes stream,
        subst (λ fs. Carries codec (take (suc (successes ws)) fs) (bytes ++ stream))
            (sym (sendable-written codec frame frames (ok bytes) h))
            (body, bytes, stream, b, short frame body b, h, refl, carries),
      )

  pub send_all-Sent :
      (frames : List Frame) (o : Outlet) → Sent codec frames o (send_all codec frames o).1
  unfolding send_all send_frame
  send_all-Sent [] o = Sent-none codec [] o (take-nil (successes o.writes))
  send_all-Sent (frame ∷ frames) o =
      deliver-Sent frame frames (write_frame codec frame) o.sent o.writes refl
        (send_all-Sent frames)

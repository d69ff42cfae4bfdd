-- ===== src/Admin/Server/Attach.antt =====
-- What a dashboard shows that attaches to the server.
use next_socks.Admin.Server.Arrival.{
  updates, handle_client-send_all, if_written, sendable, successes, arriving, Short, send_all-Sent,
}
use mathlib.Core.Path.{}
use next_socks.Prelude.{
  Result, ok, err, length, take, ℕ, zero, suc, ◌≤◌, ◌<◌, ◌≡◌, refl, sym, ap, ◌∙◌, subst, Bool,
  Option, some, List, [], ◌∷◌, arith,
}
use next_socks.Wire.{Str}
use next_socks.Metrics.{Event}
use next_socks.Admin.Frames.{
  proto_version, Frame, hello, FrameError, Codec, write_frame, read_frame,
}
use next_socks.Admin.Server.{fresh_outlet, Happening, Sending, handle_client}
use next_socks.Admin.Client.Laws.{apply_frames, Carries, decode_loop-Carries}
use next_socks.Admin.Frames.RoundTrip.{Faithful, read_frame-write_frame}
use next_socks.Admin.Client.{remote_start, lose, running, greet, attach}

abbrev first_or : Frame → List Frame → Frame
first_or d [] = d
first_or d (f ∷ fs) = f

attach-Carries :
    (fuel : ℕ) (codec : Codec) (listen_addr : Option Str) (fs : List Frame) (stream : List ℕ)
    → Faithful codec
    → Carries codec (hello proto_version listen_addr ∷ fs) stream
    → length fs < fuel
    → attach fuel codec (some stream) ≡ running listen_addr (lose (apply_frames fs remote_start))
unfolding attach greet
attach-Carries fuel codec listen_addr fs stream faithful carries p =
    let first = hello proto_version listen_addr in
    let (body, bytes, rest, e, short, written, split, later) = carries in
    ap (greet fuel codec) (
      ap (read_frame codec) split
      ∙ read_frame-write_frame codec first body bytes rest faithful e short written)
    ∙ ap (running listen_addr)
        (decode_loop-Carries fuel codec fs rest remote_start faithful later p)

-- What a dashboard that attaches shows of the frames that arrive: none where not even the greeting
-- does, and otherwise the state that all of those behind it make up, in their order.
abbrev pub Shows : ℕ → Codec → Option Str → List Frame → List ℕ → Type 0
Shows fuel codec listen_addr [] sent = sent ≡ []
Shows fuel codec listen_addr (first ∷ fs) sent =
    attach fuel codec (some sent) ≡ running listen_addr (lose (apply_frames fs remote_start))

length-take_le : (n : ℕ) (xs : List Frame) → length (take n xs) ≤ length xs
length-take_le zero xs = omega arith
length-take_le (suc n) [] = omega arith
length-take_le (suc n) (x ∷ xs) = omega (arith, length-take_le n xs)

length-if_written :
    (r : Result (List ℕ) FrameError) (f : Frame) (later : List Frame)
    → length (if_written r f later) ≤ suc (length later)
length-if_written (ok bytes) f later = omega arith
length-if_written (err e) f later = omega arith

length-sendable :
    (codec : Codec) (frames : List Frame) → length (sendable codec frames) ≤ length frames
length-sendable codec [] = omega arith
length-sendable codec (f ∷ fs) =
    omega (
      arith,
      length-if_written (write_frame codec f) f (sendable codec fs),
      length-sendable codec fs,
    )

first_if_written :
    (n : ℕ) (r : Result (List ℕ) FrameError) (f g : Frame) (later fs : List Frame)
    → take n (if_written r f later) ≡ g ∷ fs
    → g ≡ f
first_if_written zero r f g later fs h = cc
first_if_written (suc n) (ok bytes) f g later fs h = sym (ap (first_or f) h)
first_if_written (suc n) (err e) f g later fs h = cc

Carries-Shows :
    (fuel : ℕ) (codec : Codec) (listen_addr : Option Str) (frames got : List Frame)
    (writes : List Bool) (stream : List ℕ)
    → Faithful codec
    → length got ≤ fuel
    → arriving codec writes (hello proto_version listen_addr ∷ frames) ≡ got
    → Carries codec got stream
    → Shows fuel codec listen_addr got stream
Carries-Shows fuel codec listen_addr frames [] writes stream faithful p e carries = carries
Carries-Shows fuel codec listen_addr frames (g ∷ fs) writes stream faithful p e carries =
    let first = hello proto_version listen_addr in
    let same : g ≡ first =
      first_if_written (successes writes) (write_frame codec first) first g (sendable codec frames)
        fs e in
    attach-Carries fuel codec listen_addr fs stream faithful
      (subst (λ x. Carries codec (x ∷ fs) stream) same carries) (omega (arith, p))

-- A fuel as high as the number of the frames that arrive is enough.
pub handle_client-arriving :
    (fuel : ℕ) (codec : Codec) (listen_addr : Option Str) (history : List Event)
    (happenings : List Happening) (writes : List Bool)
    → Faithful codec
    → Short codec
    → let got =
        arriving codec writes (hello proto_version listen_addr ∷ updates history happenings) in
      length got ≤ fuel
      → Shows fuel codec listen_addr got
          (handle_client codec listen_addr history happenings (fresh_outlet writes)).1.sent
handle_client-arriving fuel codec listen_addr history happenings writes faithful short p =
    let o = fresh_outlet writes in
    let frames = updates history happenings in
    let whole = hello proto_version listen_addr ∷ frames in
    let got = arriving codec writes whole in
    let (stream, added, carries) = send_all-Sent codec short whole o in
    let sent : (handle_client codec listen_addr history happenings o).1.sent ≡ stream =
      ap (λ (x : Sending). x.1.sent) (handle_client-send_all codec listen_addr history happenings o)
      ∙ added in
    subst (Shows fuel codec listen_addr got) (sym sent)
      (Carries-Shows fuel codec listen_addr frames got writes stream faithful p refl carries)

-- With a codec that decodes what it encoded and whose encodings are shorter than 4 GiB, and with a
-- fuel above the number of updates, a dashboard that attaches reads the greeting of the server and
-- then shows exactly the state that the updates which arrive make up, in their order: the events
-- replayed, then the figures and events that the server met until it stopped, one for each write
-- until one fails or a frame cannot be encoded. So where nothing fails it shows all of them; it shows
-- none, and nothing was sent, only where the greeting does not arrive.
pub handle_client-Shows :
    (fuel : ℕ) (codec : Codec) (listen_addr : Option Str) (history : List Event)
    (happenings : List Happening) (writes : List Bool)
    → Faithful codec
    → Short codec
    → length (updates history happenings) < fuel
    → Shows fuel codec listen_addr
        (arriving codec writes (hello proto_version listen_addr ∷ updates history happenings))
        (handle_client codec listen_addr history happenings (fresh_outlet writes)).1.sent
handle_client-Shows fuel codec listen_addr history happenings writes faithful short p =
    let whole = hello proto_version listen_addr ∷ updates history happenings in
    handle_client-arriving fuel codec listen_addr history happenings writes faithful short (
      omega (
        arith,
        length-take_le (successes writes) (sendable codec whole),
        length-sendable codec whole,
      ))

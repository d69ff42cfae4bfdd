-- ===== src/Admin/Serve.antt =====
-- src/admin/server.rs: `serve`, with the task of src/admin/ring.rs that fills the ring. Each client is
-- served by a task of its own, so what happens while it is served comes with it.
use next_socks.Prelude.{
  if◌then◌else◌, Result, ok, err, length, latest, push_bounded-latest, ℕ, ◌≡◌, refl, sym, ap, ◌∙◌,
  subst, Bool, true, false, Option, none, some, List, [], ◌∷◌, ◌++◌, arith,
}
use next_socks.Wire.{Str}
use next_socks.Metrics.{Event}
use next_socks.Admin.Ring.{admin_event_ring_capacity, EventRing, empty_ring, push, replay}
use next_socks.Admin.Frames.{proto_version, Frame, hello, Codec}
use next_socks.Admin.Frames.RoundTrip.{Faithful}
use next_socks.Admin.Socket.{ClaimError, Effect, removed_file, World, claim_socket}
use next_socks.Admin.Server.{fresh_outlet, Happening, handle_client}
use next_socks.Admin.Server.Arrival.{updates, arriving, Short}
use next_socks.Admin.Server.Attach.{Shows, handle_client-arriving}

-- What the loop meets: a client, with what happens while it is served and whether each write to it
-- succeeds; an `accept` that fails; a change of the shutdown signal. And what the ring takes meanwhile.
pub data Moment : Type 0 where
  client_came : List Happening → List Bool → Moment
  accept_failed : Moment
  ring_filled : Event → Moment
  stop_changed : Bool → Moment

-- The loop: whether it has ended, and what each client was sent, in their order.
unfoldable pub serve_clients : Codec → Option Str → List Moment → EventRing → Bool × List (List ℕ)
unfolding handle_client replay push
serve_clients codec listen_addr [] ring = (false, [])
serve_clients codec listen_addr (client_came happenings writes ∷ rest) ring =
    let client = handle_client codec listen_addr (replay ring) happenings (fresh_outlet writes) in
    let others = serve_clients codec listen_addr rest ring in (others.0, client.1.sent ∷ others.1)
serve_clients codec listen_addr (accept_failed ∷ rest) ring =
    serve_clients codec listen_addr rest ring
serve_clients codec listen_addr (ring_filled ev ∷ rest) ring =
    serve_clients codec listen_addr rest (push ev ring)
serve_clients codec listen_addr (stop_changed true ∷ rest) ring = (true, [])
serve_clients codec listen_addr (stop_changed false ∷ rest) ring =
    serve_clients codec listen_addr rest ring

-- The result, where it has ended; what it did to the file system; and what its clients were sent.
pub record Served : Type 0 where
  pub result : Option (Result (Unit {0}) ClaimError)
  pub effects : List Effect
  pub streams : List (List ℕ)

abbrev pub clean_up : List Effect → Bool × List (List ℕ) → Served
clean_up effects (false, streams) = record { result = none; effects = effects; streams = streams }
clean_up effects (true, streams) = record {
  result = some (ok tt);
  effects = effects ++ removed_file ∷ [];
  streams = streams;
}

abbrev pub after_claim : Result (Unit {0}) ClaimError × List Effect → Bool × List (List ℕ) → Served
after_claim (err e, effects) served = record {
  result = some (err e);
  effects = effects;
  streams = [];
}
after_claim (ok u, effects) served = clean_up effects served

unfoldable pub serve : World → Codec → Option Str → List Moment → EventRing → Served
unfolding claim_socket serve_clients
serve w codec listen_addr moments ring =
    after_claim (claim_socket w) (serve_clients codec listen_addr moments ring)

-- The frames that arrive at each client that comes before the end, given the events so far: the
-- greeting, the last 500 events, and what happens while it is served, one for each write until one
-- fails or a frame cannot be encoded.
abbrev pub due : Codec → Option Str → List Event → List Moment → List (List Frame)
due codec listen_addr history [] = []
due codec listen_addr history (client_came happenings writes ∷ rest) =
    arriving codec writes (
      hello proto_version listen_addr
      ∷ updates (latest admin_event_ring_capacity history) happenings)
    ∷ due codec listen_addr history rest
due codec listen_addr history (accept_failed ∷ rest) = due codec listen_addr history rest
due codec listen_addr history (ring_filled ev ∷ rest) =
    due codec listen_addr (history ++ ev ∷ []) rest
due codec listen_addr history (stop_changed true ∷ rest) = []
due codec listen_addr history (stop_changed false ∷ rest) = due codec listen_addr history rest

-- Each client's dashboard shows what is due to it, with a fuel as high as the number of its frames.
pub data EachShows (codec : Codec) (listen_addr : Option Str)
    : List (List Frame) → List (List ℕ) → Type 0 where
  none_shows : EachShows codec listen_addr [] []
  also_shows :
      {frames : List Frame} {sent : List ℕ} {others : List (List Frame)} {streams : List (List ℕ)}
      → Shows (length frames) codec listen_addr frames sent
      → EachShows codec listen_addr others streams
      → EachShows codec listen_addr (frames ∷ others) (sent ∷ streams)

module _ (codec : Codec) (listen_addr : Option Str) (faithful : Faithful codec)
    (short : Short codec) where
  serve_clients-EachShows :
      (history : List Event) (moments : List Moment)
      → EachShows codec listen_addr
          (due codec listen_addr history moments)
          (serve_clients codec listen_addr moments
            (record { inner = latest admin_event_ring_capacity history })).1
  unfolding serve_clients replay push
  serve_clients-EachShows history [] = none_shows
  serve_clients-EachShows history (client_came happenings writes ∷ rest) =
      let last = latest admin_event_ring_capacity history in
      also_shows
        (handle_client-arriving
          (length
            (arriving codec writes (hello proto_version listen_addr ∷ updates last happenings)))
          codec listen_addr last happenings writes faithful short (omega arith))
        (serve_clients-EachShows history rest)
  serve_clients-EachShows history (accept_failed ∷ rest) = serve_clients-EachShows history rest
  serve_clients-EachShows history (ring_filled ev ∷ rest) =
      let pushed = push_bounded-latest admin_event_ring_capacity ev history (omega arith) in
      subst
        (λ xs.
          EachShows codec listen_addr (due codec listen_addr (history ++ ev ∷ []) rest)
            (serve_clients codec listen_addr rest (record { inner = xs })).1)
        (sym pushed) (serve_clients-EachShows (history ++ ev ∷ []) rest)
  serve_clients-EachShows history (stop_changed true ∷ rest) = none_shows
  serve_clients-EachShows history (stop_changed false ∷ rest) = serve_clients-EachShows history rest

-- Whether the shutdown is asked for.
abbrev pub stops : List Moment → Bool
stops [] = false
stops (stop_changed true ∷ rest) = true
stops (stop_changed false ∷ rest) = stops rest
stops (client_came happenings writes ∷ rest) = stops rest
stops (accept_failed ∷ rest) = stops rest
stops (ring_filled ev ∷ rest) = stops rest

serve_clients-stops :
    (codec : Codec) (listen_addr : Option Str) (moments : List Moment) (ring : EventRing)
    → (serve_clients codec listen_addr moments ring).0 ≡ stops moments
unfolding serve_clients
serve_clients-stops codec listen_addr [] ring = refl
serve_clients-stops codec listen_addr (client_came happenings writes ∷ rest) ring =
    serve_clients-stops codec listen_addr rest ring
serve_clients-stops codec listen_addr (accept_failed ∷ rest) ring =
    serve_clients-stops codec listen_addr rest ring
serve_clients-stops codec listen_addr (ring_filled ev ∷ rest) ring =
    serve_clients-stops codec listen_addr rest (push ev ring)
serve_clients-stops codec listen_addr (stop_changed true ∷ rest) ring = refl
serve_clients-stops codec listen_addr (stop_changed false ∷ rest) ring =
    serve_clients-stops codec listen_addr rest ring

claimed :
    (x : Result (Unit {0}) ClaimError × List Effect) (served : Bool × List (List ℕ))
    → x.0 ≡ ok tt
    → ((after_claim x served).streams ≡ served.1)
      × ((after_claim x served).result ≡ (if served.0 then some (ok tt) else none))
claimed (err e, effects) served h = absurd (cc)
claimed (ok u, effects) (false, streams) h = (refl, refl)
claimed (ok u, effects) (true, streams) h = (refl, refl)

-- Over a codec that decodes what it encoded and whose encodings are shorter than 4 GiB, a server that
-- claimed its path shows to each dashboard that comes before the shutdown, in their order, exactly what
-- arrives of this: the last 500 of the events that the ring took until then, and what happens
-- afterwards. All of it arrives unless a write to that dashboard fails or a frame cannot be encoded,
-- and then what comes before that; failing writes to others and failing accepts make no difference.
-- The server returns, without an error, exactly where the shutdown is asked for.
pub serve-EachShows :
    (w : World) (codec : Codec) (listen_addr : Option Str) (moments : List Moment)
    → Faithful codec
    → Short codec
    → (claim_socket w).0 ≡ ok tt
    → let s = serve w codec listen_addr moments empty_ring in
      EachShows codec listen_addr (due codec listen_addr [] moments) s.streams
      × (s.result ≡ (if stops moments then some (ok tt) else none))
unfolding serve
serve-EachShows w codec listen_addr moments faithful short h =
    let served = serve_clients codec listen_addr moments empty_ring in
    let (streams, result) = claimed (claim_socket w) served h in
    (
      subst (EachShows codec listen_addr (due codec listen_addr [] moments)) (sym streams)
          (serve_clients-EachShows codec listen_addr faithful short [] moments),
      result
          ∙ ap (λ b. if b then some (ok tt) else none)
              (serve_clients-stops codec listen_addr moments empty_ring),
    )

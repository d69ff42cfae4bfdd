-- ===== src/Admin/Tests.antt =====
-- The admin endpoint on a codec of two frames, and a claim of a path with a stale socket.
use next_socks.Prelude.{
  ◌==◌, if◌then◌else◌, Bool-cases, some-injective, ok, length, latest, ℕ, ◌^◌, ◌<◌, ◌≡◌, refl, sym,
  ap, subst, inl, inr, true, false, Option, none, some, List, [], ◌∷◌, ◌++◌, arith,
}
use next_socks.Metrics.{connected, closed, auth, error, log}
use next_socks.Admin.Ring.{
  admin_event_ring_capacity, empty_ring, replay, event, lagged, filler, events_of, replay-filler,
}
use next_socks.Admin.Frames.{proto_version, Frame, hello, stats, frame_event, Codec, write_frame}
use next_socks.Admin.Frames.RoundTrip.{Faithful}
use next_socks.Admin.Client.{remote_start, decode_loop}
use next_socks.Admin.Client.Laws.{decode_loop_ends}
use next_socks.Admin.Serve.{
  Moment, client_came, accept_failed, ring_filled, stop_changed, serve_clients, serve, due,
  EachShows, stops, serve-EachShows,
}
use next_socks.Admin.Socket.Laws.{UnlinksNoLive, Refused, claim_socket-UnlinksNoLive}
use next_socks.Admin.Socket.{
  live_socket, stale_socket, creatable, created_parent, lock_file, locked, unlinked, bound,
  restricted, socket_is_live, free, acquire_lock, unlink_if_socket, ensure_parent_dir, World,
  claim_socket,
}
use next_socks.Admin.Server.{fresh_outlet, Happening, received, shutdown_changed, handle_client}
use next_socks.Admin.Server.Arrival.{updates, arriving, Short}
use next_socks.Admin.Server.Attach.{Shows, handle_client-Shows}

replay-filler_example :
    replay (filler (event (closed 1) ∷ lagged 3 ∷ event log ∷ []) empty_ring)
    ≡ latest admin_event_ring_capacity (events_of (event (closed 1) ∷ lagged 3 ∷ event log ∷ []))
replay-filler_example = replay-filler (event (closed 1) ∷ lagged 3 ∷ event log ∷ [])

-- A codec that knows the log event and one greeting.
abbrev encode_log : Frame → Option (List ℕ)
encode_log (frame_event log) = some (7 ∷ [])
encode_log (hello proto none) = if proto == proto_version then some (1 ∷ []) else none
encode_log _ = none

abbrev decode_log : List ℕ → Option Frame
decode_log (b ∷ []) =
    if b == 7
    then some (frame_event log)
    else if b == 1
    then some (hello proto_version none)
    else none
decode_log _ = none

abbrev codec : Codec
codec = record { to_bytes = encode_log; from_bytes = decode_log }

codec-Faithful : Faithful codec
codec-Faithful (frame_event log) body h = rw (sym (some-injective h)) refl
codec-Faithful (frame_event (connected id src target kind)) body h = cc
codec-Faithful (frame_event (closed id)) body h = cc
codec-Faithful (frame_event (auth good user)) body h = cc
codec-Faithful (frame_event (error code)) body h = cc
codec-Faithful (hello proto (some addr)) body h = cc
codec-Faithful (hello proto none) body h = elim (Bool-cases (proto == proto_version)) [
  | inl e ↦
      let version : proto_version ≡ proto = ground arith in
      subst (λ b. decode_log b ≡ some (hello proto none)) (some-injective (rw e at h))
        (ap (λ p. some (hello p none)) version)
  | inr e ↦ let k = rw e at h in cc
]
codec-Faithful (stats figures entries) body h = cc

abbrev framed : List ℕ
framed = 0 ∷ 0 ∷ 0 ∷ 1 ∷ 7 ∷ []

written : write_frame codec (frame_event log) ≡ ok framed
unfolding write_frame
written = refl

decode_loop_ends_example : (decode_loop 8 codec (framed ++ (9 ∷ [])) remote_start).lost ≡ true
decode_loop_ends_example = decode_loop_ends 8 codec (framed ++ (9 ∷ [])) remote_start (omega arith)

abbrev world : World
world = record {
  parent = creatable;
  first = stale_socket;
  lock = free;
  second = stale_socket;
  third = stale_socket;
  removes = true;
  binds = true;
  restricts = true;
}

claimed :
    claim_socket world
    ≡ (ok tt, created_parent ∷ lock_file ∷ locked ∷ unlinked stale_socket ∷ bound ∷ restricted ∷ [])
unfolding claim_socket socket_is_live unlink_if_socket acquire_lock ensure_parent_dir
claimed = refl

claim_socket-UnlinksNoLive_example :
    UnlinksNoLive (claim_socket world).1
    × (world.first ≡ live_socket → Refused (claim_socket world))
claim_socket-UnlinksNoLive_example = claim_socket-UnlinksNoLive world (λ f e. e)

codec-Short : Short codec
codec-Short (frame_event log) body h = rw (sym (some-injective h)) (omega arith)
codec-Short (frame_event (connected id src target kind)) body h = cc
codec-Short (frame_event (closed id)) body h = cc
codec-Short (frame_event (auth good user)) body h = cc
codec-Short (frame_event (error code)) body h = cc
codec-Short (hello proto (some addr)) body h = cc
codec-Short (hello proto none) body h = elim (Bool-cases (proto == proto_version)) [
  | inl e ↦ subst (λ b. length b < 2 ^ 32) (some-injective (rw e at h)) (omega arith)
  | inr e ↦ let k = rw e at h in cc
]
codec-Short (stats figures entries) body h = cc

abbrev happenings : List Happening
happenings =
    received (lagged 2) ∷ received (event log) ∷ received (event log) ∷ shutdown_changed true ∷ []

-- The third frame cannot be written.
sent :
    (handle_client codec none
      (log ∷ [])
      happenings
      (fresh_outlet (true ∷ true ∷ false ∷ []))).1.sent
    ≡ 0 ∷ 0 ∷ 0 ∷ 1 ∷ 1 ∷ 0 ∷ 0 ∷ 0 ∷ 1 ∷ 7 ∷ []
unfolding handle_client write_frame
sent = refl

-- Of the greeting and three updates, the greeting and the event replayed arrive.
arrived :
    arriving codec
      (true ∷ true ∷ false ∷ [])
      (hello proto_version none ∷ updates (log ∷ []) happenings)
    ≡ hello proto_version none ∷ frame_event log ∷ []
unfolding write_frame
arrived = refl

handle_client-Shows_example :
    Shows 4 codec none
      (arriving codec
        (true ∷ true ∷ false ∷ [])
        (hello proto_version none ∷ updates (log ∷ []) happenings))
      (handle_client codec none
        (log ∷ [])
        happenings
        (fresh_outlet (true ∷ true ∷ false ∷ []))).1.sent
handle_client-Shows_example =
    handle_client-Shows 4 codec none (log ∷ []) happenings (true ∷ true ∷ false ∷ []) codec-Faithful
      codec-Short (omega arith)

abbrev moments : List Moment
moments =
    client_came [] (false ∷ [])
    ∷ ring_filled log
    ∷ accept_failed
    ∷ client_came happenings (true ∷ true ∷ true ∷ [])
    ∷ stop_changed true
    ∷ client_came [] (true ∷ [])
    ∷ []

claimed_world : (claim_socket world).0 ≡ ok tt
unfolding claim_socket socket_is_live unlink_if_socket acquire_lock ensure_parent_dir
claimed_world = refl

-- The first client could not be greeted, and the last comes too late.
served_streams : length (serve world codec none moments empty_ring).streams ≡ 2
unfolding serve serve_clients claim_socket socket_is_live unlink_if_socket acquire_lock
    ensure_parent_dir
served_streams = refl

serve-EachShows_example :
    let s = serve world codec none moments empty_ring in
    EachShows codec none (due codec none [] moments) s.streams
    × (s.result ≡ (if stops moments then some (ok tt) else none))
serve-EachShows_example =
    serve-EachShows world codec none moments codec-Faithful codec-Short claimed_world

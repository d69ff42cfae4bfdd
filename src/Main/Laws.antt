-- ===== src/Main/Laws.antt =====
-- When the program does what, and when it stops.
use next_socks.Prelude.{
  leb, if◌then◌else◌, if_elim, Result, ok, err, All, All-append, ◌≡◌, refl, true, false, ◌&&◌, not,
  Option, none, some, List, [], ◌∷◌, ◌++◌, arith,
}
use next_socks.Config.{Config, Command, serve, attach, Cli}
use next_socks.Config.Load.{ConfigError, load, load-Overrides}
use next_socks.Main.{
  Deed, attach_to, print_usage, bind_listener, start_server, start_admin, start_mock, run_dashboard,
  stream_events, request_shutdown, await_server, Task, server_task, admin_task, mock_task, Holder,
  main_scope, held_by, World, End, exited, waiting, or_default, let_go, let_all_go, admin_deeds,
  mock_deeds, holders, no_holder, run_headless, front_end, start_with, start_loaded, attach_at,
  serve_or_help, main,
}

-- What must hold for a deed to be done.
abbrev pub Justified : World → Cli → Deed → Type 0
Justified w cli (start_server cfg) =
    (load w.files cli ≡ ok cfg) × (w.resolves cfg.dns ≡ true) × (w.binds cfg.listen ≡ true)
Justified w cli (start_admin path) =
    (cfg : Config) × (load w.files cli ≡ ok cfg)
    × (cfg.admin.enabled ≡ true)
    × (path ≡ or_default cfg.admin.socket)
    × (cli.no_admin ≡ false)
Justified w cli start_mock = cli.mock ≡ true
Justified w cli run_dashboard = (w.tui ≡ true) × (cli.no_tui ≡ false)
Justified w cli (attach_to path) = w.tui ≡ true
Justified w cli _ = Unit {0}

module _ (w : World) (cli : Cli) where
  admin_deeds-Justified :
      (cfg : Config) → load w.files cli ≡ ok cfg → All (Justified w cli) (admin_deeds cfg)
  admin_deeds-Justified cfg h =
      let (base, e, over) = load-Overrides w.files cli cfg h in
      if_elim (All (Justified w cli)) cfg.admin.enabled
        (start_admin (or_default cfg.admin.socket) ∷ []) []
        (λ b. ((cfg, h, b, refl, ground arith), tt)) (λ b. tt)

  mock_deeds-Justified : All (Justified w cli) (mock_deeds cli)
  mock_deeds-Justified =
      if_elim (All (Justified w cli)) cli.mock (start_mock ∷ []) [] (λ b. (b, tt)) (λ b. tt)

  run_headless-Justified :
      (endings : List Task) (senders : List Holder) (before : List Deed)
      → All (Justified w cli) before
      → All (Justified w cli) (run_headless endings senders before).1
  unfolding run_headless
  run_headless-Justified endings senders before h =
      if_elim (λ (x : End × List Deed). All (Justified w cli) x.1)
        (no_holder (let_all_go endings senders))
        (exited 0, before ++ request_shutdown ∷ await_server ∷ []) (waiting, before)
        (λ b.
          All-append (Justified w cli) before (request_shutdown ∷ await_server ∷ []) h
            (tt, (tt, tt)))
        (λ b. h)

  front_end-Justified :
      (cfg : Config) (before : List Deed)
      → All (Justified w cli) before
      → All (Justified w cli) (front_end w cli cfg before).1
  unfolding front_end
  front_end-Justified cfg before h =
      if_elim (λ (x : End × List Deed). All (Justified w cli) x.1) (w.tui && not cli.no_tui)
        (exited 0, before ++ run_dashboard ∷ request_shutdown ∷ await_server ∷ [])
        (run_headless w.endings (holders cfg cli) (before ++ stream_events ∷ request_shutdown ∷ []))
        (λ b.
          All-append (Justified w cli) before (run_dashboard ∷ request_shutdown ∷ await_server ∷ [])
            h ((ground arith), (tt, (tt, tt))))
        (λ b.
          run_headless-Justified w.endings (holders cfg cli)
            (before ++ stream_events ∷ request_shutdown ∷ [])
            (All-append (Justified w cli) before (stream_events ∷ request_shutdown ∷ []) h
              (tt, (tt, tt))))

  start_with-Justified :
      (cfg : Config) → load w.files cli ≡ ok cfg → All (Justified w cli) (start_with w cli cfg).1
  unfolding start_with
  start_with-Justified cfg h =
      let begun =
        bind_listener cfg.listen ∷ start_server cfg ∷ (admin_deeds cfg ++ mock_deeds cli) in
      let P = λ (x : End × List Deed). All (Justified w cli) x.1 in
      if_elim P (not (w.resolves cfg.dns)) (exited 1, [])
        (if not (w.binds cfg.listen) then (exited 1, []) else front_end w cli cfg begun) (λ b. tt)
        (λ b.
          if_elim P (not (w.binds cfg.listen)) (exited 1, []) (front_end w cli cfg begun) (λ c. tt)
            (λ c. front_end-Justified cfg begun (
              tt,
              (
                (h, ground arith, ground arith),
                All-append (Justified w cli) (admin_deeds cfg) (mock_deeds cli)
                    (admin_deeds-Justified cfg h) mock_deeds-Justified,
              ),
            )))

  start_loaded-Justified :
      (r : Result Config ConfigError)
      → load w.files cli ≡ r
      → All (Justified w cli) (start_loaded w cli r).1
  start_loaded-Justified (err e) h = tt
  start_loaded-Justified (ok cfg) h = start_with-Justified cfg h

  serve_or_help-Justified :
      (command : Option Command) → All (Justified w cli) (serve_or_help w cli command).1
  serve_or_help-Justified (some (attach path)) =
      if_elim (λ (x : End × List Deed). All (Justified w cli) x.1) w.tui
        (attach_at w (or_default path)) (exited 1, []) (λ b. (b, tt)) (λ b. tt)
  serve_or_help-Justified (some serve) = start_loaded-Justified (load w.files cli) refl
  serve_or_help-Justified none =
      if_elim (λ (x : End × List Deed). All (Justified w cli) x.1) (leb w.arguments 1)
        (exited 0, print_usage ∷ []) (start_loaded w cli (load w.files cli)) (λ b. (tt, tt))
        (λ b. start_loaded-Justified (load w.files cli) refl)

-- The server is started only with the configuration that was loaded, once a resolver was built for
-- it and its address was bound; the admin endpoint only where that configuration enables it, at
-- its path or the default one, and never under `--no-admin`; mock data only under `--mock`, and
-- the dashboard only in a build that has it and without `--no-tui`.
pub main-Justified : (w : World) (cli : Cli) → All (Justified w cli) (main w cli).1
unfolding main
main-Justified w cli = serve_or_help-Justified w cli cli.command

-- The sender of `main` is never let go.
let_all_go-main :
    (endings : List Task) (rest : List Holder)
    → no_holder (let_all_go endings (main_scope ∷ rest)) ≡ false
unfolding let_all_go
let_all_go-main [] rest = refl
let_all_go-main (t ∷ endings) rest = let_all_go-main endings (let_go t rest)

-- A server that runs without the dashboard never exits after Ctrl-C, whichever of its tasks end and
-- in whatever order: it waits for the channel of events to close, and `main` itself holds a sender.
pub main_waits :
    (w : World) (cli : Cli) (cfg : Config)
    → cli.command ≡ some serve
    → (w.tui && not cli.no_tui) ≡ false
    → load w.files cli ≡ ok cfg
    → w.resolves cfg.dns ≡ true
    → w.binds cfg.listen ≡ true
    → (main w cli).0 ≡ waiting
unfolding main start_with front_end run_headless
main_waits w cli cfg command headless loaded resolves binds =
    let others =
      held_by server_task
      ∷ ((if cfg.admin.enabled then held_by admin_task ∷ [] else [])
          ++ (if cli.mock then held_by mock_task ∷ [] else [])) in
    let open_still = let_all_go-main w.endings others in
    rw (command, loaded) (rw (resolves, binds, headless) (rw open_still refl))

-- ===== src/Main.antt =====
-- src/main.rs: what the program starts, in which order, and how it stops. What the command line, the
-- files, the operating system and the tasks answer is an input; what is printed is left out.
pub mod Laws
mod Tests
use next_socks.Prelude.{
  leb, if◌then◌else◌, Result, ok, err, ℕ, Bool, true, false, ◌&&◌, not, Option, none, some, List,
  [], ◌∷◌, ◌++◌,
}
use next_socks.Wire.{Str}
use next_socks.Wire.Text.{codes}
use next_socks.Config.{DnsConfig, Config, Command, serve, attach, Cli}
use next_socks.Config.Load.{ConfigError, Files, load}

abbrev pub default_admin_socket : Str
default_admin_socket = codes "/run/next-socks5/admin.sock"

-- What the program does besides printing.
pub data Deed : Type 0 where
  attach_to : Str → Deed
  print_usage : Deed
  bind_listener : Str → Deed
  start_server : Config → Deed
  start_admin : Str → Deed
  start_mock : Deed
  run_dashboard : Deed
  stream_events : Deed
  request_shutdown : Deed
  await_server : Deed

-- The tasks that hold a sender of the event channel.
pub data Task : Type 0 where
  server_task : Task
  admin_task : Task
  mock_task : Task

-- `main` holds one itself until it returns.
pub data Holder : Type 0 where
  main_scope : Holder
  held_by : Task → Holder

-- Whether the build has the feature `tui`, the number of arguments, whether attaching ends well, the
-- files, whether the resolver can be built and an address can be bound, and the tasks that end after
-- Ctrl-C, in their order.
pub record World : Type 0 where
  pub tui : Bool
  pub arguments : ℕ
  pub attaches : Bool
  pub files : Files
  pub resolves : DnsConfig → Bool
  pub binds : Str → Bool
  pub endings : List Task

-- How `main` ends: with an exit code, or not at all.
pub data End : Type 0 where
  exited : ℕ → End
  waiting : End

abbrev pub or_default : Option Str → Str
or_default none = default_admin_socket
or_default (some path) = path

abbrev pub same_task : Task → Task → Bool
same_task server_task server_task = true
same_task admin_task admin_task = true
same_task mock_task mock_task = true
same_task _ _ = false

abbrev pub let_go : Task → List Holder → List Holder
let_go t [] = []
let_go t (main_scope ∷ rest) = main_scope ∷ let_go t rest
let_go t (held_by u ∷ rest) =
    let kept = let_go t rest in if same_task t u then kept else held_by u ∷ kept

-- The senders that are left when the tasks given have ended.
unfoldable pub let_all_go : List Task → List Holder → List Holder
let_all_go [] holders = holders
let_all_go (t ∷ rest) holders = let_all_go rest (let_go t holders)

abbrev pub admin_deeds : Config → List Deed
admin_deeds cfg = if cfg.admin.enabled then start_admin (or_default cfg.admin.socket) ∷ [] else []

abbrev pub mock_deeds : Cli → List Deed
mock_deeds cli = if cli.mock then start_mock ∷ [] else []

abbrev pub holders : Config → Cli → List Holder
holders cfg cli =
    main_scope
    ∷ held_by server_task
    ∷ ((if cfg.admin.enabled then held_by admin_task ∷ [] else [])
        ++ (if cli.mock then held_by mock_task ∷ [] else []))

abbrev pub no_holder : List Holder → Bool
no_holder [] = true
no_holder (h ∷ hs) = false

-- `run_headless`, after Ctrl-C: it waits until the channel of events is closed, which it is once
-- nobody holds a sender of it. Then the rest of `main` follows.
unfoldable pub run_headless : List Task → List Holder → List Deed → End × List Deed
unfolding let_all_go
run_headless endings senders before =
    if no_holder (let_all_go endings senders)
    then (exited 0, before ++ request_shutdown ∷ await_server ∷ [])
    else (waiting, before)

-- The front end, and the end of `main`.
unfoldable pub front_end : World → Cli → Config → List Deed → End × List Deed
unfolding run_headless
front_end w cli cfg before =
    if w.tui && not cli.no_tui
    then (exited 0, before ++ run_dashboard ∷ request_shutdown ∷ await_server ∷ [])
    else run_headless w.endings (holders cfg cli) (before ++ stream_events ∷ request_shutdown ∷ [])

unfoldable pub start_with : World → Cli → Config → End × List Deed
unfolding front_end
start_with w cli cfg =
    if not (w.resolves cfg.dns)
    then (exited 1, [])
    else if not (w.binds cfg.listen)
    then (exited 1, [])
    else front_end w cli cfg
        (bind_listener cfg.listen ∷ start_server cfg ∷ (admin_deeds cfg ++ mock_deeds cli))

abbrev pub start_loaded : World → Cli → Result Config ConfigError → End × List Deed
start_loaded w cli (err e) = (exited 1, [])
start_loaded w cli (ok cfg) = start_with w cli cfg

abbrev pub attach_at : World → Str → End × List Deed
attach_at w path = (exited (if w.attaches then 0 else 1), attach_to path ∷ [])

abbrev pub serve_or_help : World → Cli → Option Command → End × List Deed
serve_or_help w cli (some (attach path)) =
    if w.tui then attach_at w (or_default path) else (exited 1, [])
serve_or_help w cli (some serve) = start_loaded w cli (load w.files cli)
serve_or_help w cli none =
    if leb w.arguments 1
    then (exited 0, print_usage ∷ [])
    else start_loaded w cli (load w.files cli)

unfoldable pub main : World → Cli → End × List Deed
unfolding start_with load
main w cli = serve_or_help w cli cli.command

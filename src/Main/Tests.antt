-- ===== src/Main/Tests.antt =====
-- A headless server whose configuration file names an address, and which is sent Ctrl-C.
use next_socks.Prelude.{ok, All, ◌≡◌, refl, true, false, none, some, [], ◌∷◌}
use next_socks.Wire.{Str}
use next_socks.Wire.Text.{codes}
use next_socks.Config.{Config, default_config, serve, Cli, apply_overrides}
use next_socks.Config.Load.{load}
use next_socks.Main.{
  default_admin_socket, bind_listener, start_server, start_admin, start_mock, stream_events,
  request_shutdown, server_task, admin_task, mock_task, World, waiting, let_all_go, run_headless,
  front_end, start_with, main,
}
use next_socks.Main.Laws.{Justified, main-Justified, main_waits}

abbrev address : Str
address = codes "0.0.0.0:1080"

abbrev cli : Cli
cli = record {
  command = some serve;
  config = some (codes "/etc/socks.toml");
  listen = none;
  no_tui = true;
  no_admin = false;
  admin_socket = none;
  mock = true;
}

abbrev file : Config
file = record default_config { listen = address }

abbrev world : World
world = record {
  tui = true;
  arguments = 4;
  attaches = true;
  files = record { read_to_string = λ path. some []; from_toml_str = λ text. some file };
  resolves = λ dns. true;
  binds = λ at. true;
  endings = server_task ∷ mock_task ∷ admin_task ∷ [];
}

load-cli : load world.files cli ≡ ok file
unfolding load apply_overrides
load-cli = refl

-- All tasks end, and yet the program waits.
main_run : main world cli ≡ (
  waiting,
  bind_listener address
      ∷ start_server file
      ∷ start_admin default_admin_socket
      ∷ start_mock
      ∷ stream_events
      ∷ request_shutdown
      ∷ [],
)
unfolding main start_with front_end run_headless let_all_go load apply_overrides
main_run = refl

main-Justified_example : All (Justified world cli) (main world cli).1
main-Justified_example = main-Justified world cli

main_waits_example : (main world cli).0 ≡ waiting
main_waits_example = main_waits world cli file refl refl load-cli refl refl

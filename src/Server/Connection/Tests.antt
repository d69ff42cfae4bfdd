-- ===== src/Server/Connection/Tests.antt =====
-- A whole session of an authenticated client, cut into two chunks, and one of an open server.
use next_socks.Protocol.Request.{Command, Request, parse_request}
use next_socks.Prelude.{ℕ, ◌≡◌, refl, true, some, List, [], ◌∷◌, ◌++◌, Mem, mem-cons, or_inl, arith}
use next_socks.Server.Connection.Complete.{Serves, negotiate-Serves}
use next_socks.Wire.{IsBytes, Str, is_utf8}
use next_socks.Config.{password_required, Config, default_config}
use next_socks.Auth.{ct_eq, verify_credentials}
use next_socks.Metrics.{auth}
use next_socks.Protocol.Address.{v4, decode, encode, IsAddress}
use next_socks.Protocol.Handshake.{
  method_no_auth, method_userpass, parse_greeting, contains, select_method, method_reply,
  parse_userpass, userpass_reply,
}
use next_socks.Protocol.Handshake.Greeting.{greeting}
use next_socks.Protocol.Handshake.Userpass.{credentials}
use next_socks.Protocol.Request.Laws.{message}
use next_socks.Server.Connection.{
  Conn, greeting_attempt, userpass_attempt, request_attempt, negotiate,
}
use next_socks.Server.Connection.Attempts.{Single, read_loop-Single}
use next_socks.Server.Connection.Messages.{incoming}
use next_socks.Server.Connection.Session.{negotiate-authenticated, negotiate-open}

abbrev guarded : Config
guarded = record default_config {
  auth = record {
    method = password_required;
    users = record { username = 0x75 ∷ []; password = 0x70 ∷ [] } ∷ [];
  };
}

abbrev chunks : List (List ℕ)
chunks =
    (5 ∷ 1 ∷ 2 ∷ 1 ∷ 1 ∷ [])
    ∷ (0x75 ∷ 1 ∷ 0x70 ∷ 5 ∷ 1 ∷ 0 ∷ 1 ∷ 9 ∷ 8 ∷ 7 ∷ 6 ∷ 0 ∷ 80 ∷ 0x47 ∷ [])
    ∷ []

abbrev client : Conn
client = record {
  stream = record { reads = chunks; writes = true ∷ true ∷ []; sent = [] };
  events = [];
}

abbrev open_client : Conn
open_client = record {
  stream = record {
    reads = (5 ∷ 1 ∷ 0 ∷ []) ∷ (5 ∷ 1 ∷ 0 ∷ 1 ∷ 9 ∷ 8 ∷ 7 ∷ 6 ∷ 0 ∷ 80 ∷ []) ∷ [];
    writes = true ∷ [];
    sent = [];
  };
  events = [];
}

abbrev target : Request
target = record { command = Command.connect; address = v4 (9 ∷ 8 ∷ 7 ∷ 6 ∷ []) 80 }

abbrev client_after : Conn
client_after = record {
  stream = record { reads = []; writes = []; sent = 5 ∷ 2 ∷ 1 ∷ 0 ∷ [] };
  events = auth true (0x75 ∷ []) ∷ [];
}

abbrev open_after : Conn
open_after = record { stream = record { reads = []; writes = []; sent = 5 ∷ 0 ∷ [] }; events = [] }

negotiate_client : negotiate guarded client ≡ (some (target, 0x47 ∷ []), client_after)
unfolding negotiate is_utf8 verify_credentials ct_eq parse_greeting select_method contains
    parse_userpass parse_request decode encode method_reply userpass_reply
negotiate_client = refl

negotiate-open_client : negotiate default_config open_client ≡ (some (target, []), open_after)
unfolding negotiate parse_greeting select_method contains parse_request decode encode method_reply
negotiate-open_client = refl

client-IsBytes : IsBytes (incoming client)
client-IsBytes = ground arith

open_client-IsBytes : IsBytes (incoming open_client)
open_client-IsBytes = ground arith

negotiate-authenticated_example :
    (methods : List ℕ) × (user : Str) × (pass : Str) × (rsv : ℕ) × Mem method_userpass methods
    × Mem (record { username = user; password = pass }) guarded.auth.users
    × (incoming client
        ≡ greeting methods
          ++ (credentials user pass
              ++ (message target rsv ++ ((0x47 ∷ []) ++ incoming client_after))))
    × (client_after.stream.sent
        ≡ (client.stream.sent ++ method_reply method_userpass) ++ userpass_reply true)
negotiate-authenticated_example =
    negotiate-authenticated guarded client client_after target (0x47 ∷ []) refl client-IsBytes
      negotiate_client

negotiate-open_example :
    (methods : List ℕ) × (rsv : ℕ) × Mem method_no_auth methods
    × (incoming open_client
        ≡ greeting methods ++ (message target rsv ++ ([] ++ incoming open_after)))
    × (open_after.stream.sent ≡ open_client.stream.sent ++ method_reply method_no_auth)
negotiate-open_example =
    negotiate-open default_config open_client open_after target [] refl open_client-IsBytes
      negotiate-open_client

abbrev halves : List (List ℕ)
halves = (1 ∷ 0x75 ∷ []) ∷ (1 ∷ 0x70 ∷ 9 ∷ []) ∷ []

read_loop-Single_example :
    Single greeting_attempt (1 ∷ []) halves
    × Single userpass_attempt (1 ∷ []) halves
    × Single request_attempt (1 ∷ []) halves
read_loop-Single_example = read_loop-Single (1 ∷ []) halves (ground arith)

utf8_user : is_utf8 (0x75 ∷ []) ≡ true
unfolding is_utf8
utf8_user = refl

utf8_pass : is_utf8 (0x70 ∷ []) ≡ true
unfolding is_utf8
utf8_pass = refl

target-IsAddress : IsAddress target.address
target-IsAddress = (ground arith, refl, ground arith)

negotiate-Serves_example :
    Serves guarded client target
      (0x47 ∷ [])
      []
      (([] ++ method_reply method_userpass) ++ userpass_reply true)
      ([] ++ auth true (0x75 ∷ []) ∷ [])
unfolding method_reply userpass_reply encode
negotiate-Serves_example =
    negotiate-Serves guarded client (method_userpass ∷ []) (0x75 ∷ []) (0x70 ∷ []) target 0
      (0x47 ∷ []) [] refl client-IsBytes refl (mem-cons.1 (or_inl refl)) utf8_user utf8_pass
      (mem-cons.1 (or_inl refl)) target-IsAddress refl

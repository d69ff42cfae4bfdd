-- ===== src/Lib.antt =====
-- Verification of next-socks, a SOCKS5 server.
--
-- A client connects over TCP; the server admits the connection under its caps
-- (src/server/admission.rs), negotiates a method, authenticates and reads a request
-- (src/server/connection.rs) with the codecs of src/protocol, and then relays either a TCP stream
-- or UDP datagrams (src/server/udp.rs), each checked against the egress policy of src/config.rs.
-- Counters and events go to src/metrics.rs.
--
-- Prelude (Tests, Results, Lists, Rings)  shared names, Boolean tests, Result, lists, and queues of
--                  bounded length.
-- Wire             bytes, big-endian ports and UTF-8, an automaton over bytes; Wire/Bits has the
--                  facts on `|` and `^`, Wire/Text text literals.
-- Net              what the program takes from std::net, on octets; Net/Sets has sets as lists.
-- Errors           src/error.rs: Socks5Error, reply_code, from_io.
-- Auth             src/auth.rs: ct_eq and verify_credentials; Auth/Laws.
-- Config           src/config.rs: the configuration and apply_overrides; Config/Policy is
--                  Egress::is_blocked, Config/Parse the checks on ranges, names and servers,
--                  Config/Load what is read and what the command line overrides.
-- Metrics          src/metrics.rs: the counters, the registry and the events; Metrics/Registry has
--                  what a registration and its end do together, Metrics/Entries the lists,
--                  Metrics/History sequences of operations.
-- Dns              src/dns.rs: lookup and query.
-- Protocol/Address, Handshake, Request, Reply, Udp  src/protocol: one file for each, with the
--                  theorems in the modules below it.
-- Server/Connection  src/server/connection.rs: negotiate. The stream is a script of reads and
--                  writes; a handler returns no value where the source closes the connection.
--                  Loop is about the read loop, Attempts about the three parsers that it runs,
--                  Messages about one message, Session about the whole of negotiate, Reading and
--                  Complete about the sessions that are served.
-- Server/Handle    src/server/connection.rs: handle, which dispatches on the request; Handle/Answers
--                  follows a valid CONNECT to its reply, Handle/Leaves is about the registry.
-- Server/Admission  src/server/admission.rs: try_admit and the drop of a permit. Laws is about the
--                  counts, History about sequences of arrivals and departures.
-- Server/Accept    src/server/mod.rs: the accept loop, as steps on what is ready.
-- Server/Connect   src/server/connect.rs: run. Connect/Dial is establish, whose loop is cut into
--                  turns: Candidates is about the addresses dialled, Outcomes about the errors, Ends
--                  about the end of the search. Connect/Relay is copy_bidirectional_counted, with
--                  Relay/Counts about the counters.
-- Server/Udp       src/server/udp.rs: the relay loop as a step on what arrives. Filter is about who
--                  is heard and who is sent to, Targets about the known targets, Budget and Rate
--                  about how much is sent in a window, Quiet about the registry. Udp/Bind is
--                  bind_with_retry, Udp/Advertise the start of an association.
-- Admin/Ring, Frames, Client, Socket, Server, Serve  src/admin: ring.rs, the frames of mod.rs,
--                  client.rs, and claim_socket, handle_client and serve of server.rs. Server/Arrival
--                  is about the frames sent, Server/Attach puts both ends together.
-- Tui/Log, View, Sort, Loop, Input  src/tui: the log and its events; scrolling, keys and figures; the
--                  order of the connections table, with Sort/Order about the figures shown; the loop of mod.rs, with Loop/Ages about the times
--                  of first sight; the thread that reads keys.
-- Mock             src/mock.rs: the generator. Removal is about the registry without its connections,
--                  Cleanup about one change of the registry, Draws about the numbers drawn, Run about
--                  the whole.
-- Main             src/main.rs: what the program starts and how it ends, as a list of deeds; Main/Laws.
--
-- Correspondence. Functions keep their names; `run` of src/server/udp.rs is cut at its branches
-- (`on_datagram`, `from_client`, `from_target`, `track`, `tear_down`). Every byte is a number below
-- 256 where a theorem says so (`IsBytes`); `u64` counters wrap (`% 2 ^ 64`); the length byte of a
-- domain wraps as its cast does. Mutexes and atomics make each operation one step. The loops recurse on
-- lists: the script of reads, the inputs of the UDP relay, the turns of establish, the activity of
-- the TCP relay, what the accept loop and the dashboard meet, the turns of the generator. Only
-- `decode_loop` of src/admin/client.rs runs on fuel: a frame takes four bytes at least, so that a
-- fuel above the length of the stream is enough.
--
-- Parameters. What the rest of the world does is an argument: the resolver's answers, the ends of
-- connection attempts, the clock, the success of a send, a bind or a write, the entries that a path
-- leads to. The codec of src/admin/mod.rs, the crate postcard, and the parsing of addresses by
-- std::net are records of functions; that the codec decodes what it encoded is a hypothesis.
--
-- Not modelled: the sockets and the runtime themselves, what was sent before a handshake misses its
-- deadline, what a frame's write had sent to a dashboard before it failed, the texts of events and
-- errors, the resolver's cache, drawing and floating-point rates, and what the program prints. The reading of TOML belongs to the crates serde and toml.
mod Prelude
pub mod Wire
pub mod Protocol
pub mod Net
pub mod Config
pub mod Auth
pub mod Errors
pub mod Metrics
pub mod Server
pub mod Admin
pub mod Tui
pub mod Dns
pub mod Main
pub mod Mock

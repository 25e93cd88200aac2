-- ===== src/Lib.antt =====
-- OpenTunnel: a service that routes public TLS connections, by server name and without terminating
-- TLS, to clients that hold a WebSocket session (a bridge) open. crates/opentunnel-server is the
-- service, crates/opentunnel the client library with the protocol that both share.
--
-- A public connection arrives, its server name gives a tunnel (Names), the tunnel's entry on the machine
-- picks a bridge and puts the connection on it (Service), and the connection's data travels in frames on
-- the bridge until one side ends it. A client attaches its bridge with a token and a list of routes.
--
-- Prelude     shared notation, Boolean tests and lists over the native numbers, bytes, options.
-- Names       protocol/names.rs (Targets: parse_target), and tunnel_id and route_name
--             of the server's relay.rs. Texts are lists of byte codes. Labels, Split, Hosts: lemmas on
--             labels, on split, and on the hostnames of a tunnel. Ports: lemmas on targets.
-- Record      record.rs and the certificate types of protocol/api.rs; times are the texts stored.
-- Service     service.rs, one tunnel on one machine. Bridge: Finish, Bridge, ChannelHandle. Entry:
--             EntryState, retire_stale, register_bridge. Attach: attach. Route: route. Ends:
--             bridge_closed, close_deleted, held_routes, the end and reset messages of bridge.rs and
--             the end of relay.rs's route_tunnel. Each handler runs under the entry's lock in the
--             program, so it is one function from state to state here; Run has them as a step
--             relation, with the environment's choices as arguments. Views: what bridges hold, without the
--             program's searches. Apart, Numbers, Endings, Claims, Admission, Routing, Invariant, Carried,
--             Served, Granted, Attached, Finished: lemmas on these.
-- Store       store.rs. Jobs: the table of jobs and a function for each statement. Rows, Leases, Claims,
--             Requeues: rows under updates, leases while other processes work, claims, requeueing under
--             all statements.
--             Tunnels: the table of tunnels, its alarms and imports. Revisions, Saves, Alarms: what
--             statements of all machines do to revisions, saves, alarms.
-- WebSocket   websocket.rs. Unmask: unmask, with bytes as words of 64 bits. Reader: frame and
--             parse, on a buffer. Connection: next, on a list of what the reads return. Stable, Loop,
--             Divided: lemmas on bytes that come later. Sizes, Bounded: on lengths. Masked: frames as
--             clients send them. Writer: the frames that the server writes. Sent: lemmas on these.
-- Limits      Rate and Verdict of limits.rs, take_rate and prune_rate_limits of store.rs. Budget: all
--             interleavings of statements as a relation. Verdicts: one call.
-- Proxy       Write: protocol/proxy.rs. Parse: the server's proxy_protocol.rs. Version2, Pieces:
--             headers of version 2, and headers that more bytes follow.
-- Retry       retry.rs: the classes of failures, backoff, next_attempt. Bounds: lemmas on these. Requests:
--             the client's retries, protocol/api.rs.
-- Cooldown    Cooldown of jobs.rs. Pauses: lemmas on it.
-- Frames      data frames on a bridge, protocol/bridge.rs.
--
-- Lifecycle   service.rs, all tunnels of one machine, their records and certificates, line 515 to
--             1436 and 1568 to 1620. World: the state of the machine with its cached records, the table
--             of tunnels and the table of jobs, the clock, and a small monad of handlers; before each
--             statement on the database other machines act and time passes, and each statement can
--             be refused, or fail after it had its effect. Cache, Reread: lock_routable, lock_fresh,
--             refresh and the rest of the cache. Saves: save. Issuance: ensure_issuance. Api: create,
--             info, certificate, remove. Bind: bind_certificate. Renewals: alarm and start_renewal.
--             Reports: update_certificate. Recovery: resume_tunnel and the retries of a certificate's
--             job. Sweeps: the loops over all entries and due alarms. Triples, Steps, Statements: rules
--             for handlers and their statements. Spec: the predicates. The other files hold lemmas on
--             one part each; Tests/Codec has a text for each record, which the tests use.
--
-- The heap of Finish cells is a list, a channel holds an index into it. A HashMap is an association list, an
-- atomic counter a number with its wrap-around. route's search for a connection number is recursion on
-- fuel, two more than the connections open: as many numbers are in use or 0 at most.
-- parse's loop is recursion on fuel, one more than the bytes in the buffer: each round takes a frame off it.
-- The clock, the token comparison, the other machines' answer to an attach, the JSON text of a record,
-- the names in a signing request, times as text, the ID and the random choices of a new certificate, the
-- verdicts of the rate limits, and the rows that the sweeps' queries return are arguments. Where a theorem
-- needs it of the JSON text, reading what was written gives the record back.
--
-- Times, intervals and delays are unbounded numbers where store.rs casts to i64 and retry.rs adds u64: no
-- configured rate and no clock gets near these. claim_job's UPDATE and SELECT are one step. A bridge's
-- limit of no connections is 0 here, where the code's clamp panics. The cool-down follows the code, which cuts a
-- Retry-After at an hour, and not the documentation, which does not.
--
-- Not modelled: sockets, TLS, HTTP, SQL, ACME, DNS, analytics, metrics, logs, byte budgets and timers,
-- the client's daemon and command line.
mod Prelude
pub mod Names
pub mod Record
pub mod Service
pub mod Lifecycle
pub mod Store
pub mod WebSocket
pub mod Limits
pub mod Proxy
pub mod Retry
pub mod Frames
pub mod Cooldown

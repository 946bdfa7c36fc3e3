-- ===== src/Lib.antt =====
-- FreeTetra, a federated server for TETRA base stations. Base stations speak Brew over a websocket,
-- servers speak to each other over gRPC streams, and the service routes calls and short data (SDS)
-- between the two. This library models the message codec of Brew, the federation between servers,
-- the SDS codec, the mailboxes and callouts of the service, the bridge to a netstack and the limit
-- on failed logins, as functions on explicit states.
--
-- Files and what they model:
--   Brew          internal/brew/protocol.go. Brew/Message holds the constants and message types,
--                 Brew/Payload and Brew/Parse parse call control (parseCallControl, ParseMessage),
--                 Brew/FrameData the frames (parseFrame, validateFramePayload), Brew/Build and
--                 Brew/BuildFrame what builds packets (BuildCallControlFromMessage, BuildFrame).
--                 Brew/Client is internal/brew/client.go, the subscribers of a base station and its
--                 queue; Brew/Server is internal/brew/server.go, the nonces and tokens and the
--                 broadcasts to clients.
--   Federation    Federation/Mesh is internal/federation/mesh.go (PrepareOutgoing, ShouldProcess,
--                 PrepareRelay, cleanupLoop); Federation/Peer is internal/federation/peer.go, the
--                 tables of subscribers and the send queue of one connection; Federation/Hub is
--                 internal/federation/hub.go: Hub/Calls what the Brew service sends and the routes of
--                 private calls, Hub/Handle the handlers of messages from peers, Hub/Registry how
--                 connections come, go and are redeemed. The hub asks the mesh router whether a
--                 message is processed and relayed, and sends it through the peers' queues.
--                 Hub/Events is any of its operations as one event, for the histories of theorems.
--   Service       Service/Sds and Service/Sds/Callout are internal/service/sds_codec.go;
--                 Service/RateLimit is internal/service/ratelimit.go, which the server's callbacks
--                 on authentication use; Service/LastHeard is internal/service/last_heard.go.
--                 Service/Netstack is internal/service/netstack_bridge.go: the calls of a bridge and
--                 the locks of their routes (registerPendingCall, onTrafficFrame), with
--                 Netstack/Messages the call and traffic messages and the eviction, each one step,
--                 and Netstack/Codec the frames of a payload. Service/VirtualSds is
--                 internal/service/virtual_sds.go: VirtualSds/Messages the mailboxes of endpoints,
--                 VirtualSds/Groups the numbers of groups in callouts. Service/Callouts is
--                 internal/service/callout_manager.go, the threads and numbers of callouts, whose
--                 messages Service/Sds/Callout builds and parses; Callouts/Managed has the replies of
--                 internal/service/callout_managed.go, and Callouts/States is
--                 internal/service/callout_state.go, the table that is written after each call of
--                 the manager.
--   Prelude       Lists, results, byte orders and maps that the parts share.
--
-- Conventions. A byte slice or a text of bytes is a list of numbers, and a function that indexes it
-- gives an Outcome: a value, one of Go's errors, or `panic` for an access out of range. Numbers keep
-- the wrap-around of their width (% 2 ^ w). Names and ids that are only compared are native strings. A
-- Go map is an association list, and a loop over it takes the entries in the list's order. Pointers to
-- peers are numbers into a heap. The clock, new message ids, uuid.FromBytes and the choice that Go
-- makes in a `select` are arguments. Every loop is structural recursion, so there is no fuel. Locks
-- are left out: each operation is one step, but ShouldProcess, which takes its lock twice, has its
-- steps apart in Mesh/Readers. A duration stops at 0: the clock is taken not to run back.
--
-- Not modelled: builders in protocol.go that marshal JSON or fix one argument of another builder; the
-- handlers of Hello, of peer exchange and of the users database, and the gRPC connections of hub.go;
-- the parts of sds_codec.go that work on Unicode text (detectSDSKind, buildSDSPayload); the digest
-- authorisation and the HTTP and websocket loops of server.go; the routes of numbers in
-- netstack_bridge.go and its MQTT client; the target groups of replies in callout_managed.go; the
-- rest of the service, the other bridges, the dashboard, the databases and the configuration, of
-- which much is I/O; and generated code.
pub mod Prelude
pub mod Brew
pub mod Federation
pub mod Service

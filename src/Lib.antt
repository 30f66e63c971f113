-- ===== src/Lib.antt =====
-- A model of FlowSplice: services behind a Home are reached from a Travel device over several Relay
-- Carriers, of which any may fail while a TCP flow goes on.
--
-- The parts and their files. A `Uuid` is its 128-bit value, a `u64` a number with its saturating
-- operations written out, a `String` and a byte vector the list of its bytes.
--   Prelude and its children: tests, lists, results, machine numbers, big-endian bytes, texts, and
--     hash maps as association lists.
--   Protocol: the constants and the `DataFrame` of internal/flowsplice-core/src/protocol.rs.
--   Frame: internal/flowsplice-core/src/frame.rs. `write_data_frame` and `write_json` act on the bytes
--     that the destination holds, and a `Transport` says whether it takes all of them before the
--     write deadline; Frame/Reader has `LengthPrefixedReader` with `read_payload` as a function of
--     the reader's state and the chunks that the transport has, so that a dropped future is a
--     result of its own (`pending`) with the state it leaves. `serde_json` is the parameter `Json`.
--   Flow: `run_flow` of crates/flowsplice-home-core/src/tcp_flow.rs. Its local variables are the
--     record `Flow`, what `select!` delivers is an `Event`, one turn of the loop is `step`, which
--     returns the next state with the effects (frames queued on Carriers, bytes for the target,
--     metrics) or the error that ends the flow with what the turn did before (a front of a write that
--     failed), and `run` is the loop over a sequence of events.
--     Flow/Frames has the arms for a Carrier's frames with `acknowledge`, `retransmit` and
--     `send_to`. The target's answers and the clock come with the events. Flow/Registry has
--     `TcpFlowRegistry`, which hands Carriers to flows.
--   Authorization: internal/flowsplice-core/src/authorization.rs with the identity and the pins of
--     tls.rs and the tokens of business.rs. Scope has what a credential permits and an authority may
--     sign, Credential the signatures, Snapshot `VerifiedAuthorization::verify` and
--     `AuthorizationCache::accept`, Access the decisions for an identity. `hex`, ECDSA, SHA-256 and
--     `serde_json` are parameters, without hypotheses.
--   Route: internal/flowsplice-core/src/route.rs, with HMAC-SHA256 as a parameter whose `verify`
--     accepts exactly what `sign` gives.
--   Carrier: `run_data_carrier` of internal/flowsplice-core/src/carrier.rs, the pump between a
--     Carrier's socket and a flow: a step function over the branches of its `select!`.
--   Travel: crates/flowsplice-travel-core/src/tcp_flow.rs. Travel/Frames has `handle_event` with
--     `acknowledge` and `retransmit`, Travel/Racing `perform_race` and the schedule of races, Travel
--     the loop of `run_inner`: a phase says where the loop stands, and `step` takes what it waits
--     for there. `Stop` is an error with the counters that `run_io` reports.
--   EndToEnd: the Home flow and the Travel flow with everything ever sent between them. A turn of
--     either end may take any frame that was sent, at any time, any number of times; what opens a
--     Carrier on Travel is an `OpenOk` of Home. Nothing is forged, since Carriers are encrypted;
--     nothing is read from a connection after its end, and the streams stay within u64.
--   Server: the calls of server/src/authorization.rs that import a credential and revoke one. Each
--     verifies a proposed snapshot, stores it and only then serves it; the size of the encoded state
--     and the outcome of its storage are the parameter `Store`. Server/Cuts follows a revocation to the
--     flows that a Home ends for it.
-- How they interact: the Home's flow receives frames that Frame decodes and writes frames that it
-- encodes; Carrier moves them in order; a route's preface precedes them; whether a flow may start at
-- all is Authorization's, whose snapshots the Server publishes.
--
-- Bounds: no loop needs fuel. The loops recurse on the list that they consume: the chunks, the
-- segments, the races, the events, the credentials. A proof about u64 offsets asks that the stream's
-- length is within u64.
--
-- Not modelled: the tasks around the pump (opening, cancelling, joining), the waiting for room in a
-- full channel, the sleep between two races that found no Carrier (`jittered_retry_delay`), the drain
-- of the Carriers at the end of a flow, logging and the sinks of the statistics, and the other
-- programs of the repository (the rest of the server, relay, enrollment, deployment trust, the user
-- interfaces).
pub mod Prelude
pub mod Protocol
pub mod Frame
pub mod Flow
pub mod Authorization
pub mod Route
pub mod Carrier
pub mod Travel
pub mod Server
pub mod EndToEnd

-- ===== src/Lib.antt =====
-- T2D carries UDP datagrams over TCP lanes: a client takes datagrams from local applications, frames
-- and encrypts them, and sends them over its upstream lanes; a server passes them to a UDP backend
-- and sends the replies back over the downstream lanes that the client has opened.
--
-- The parts, their sources and their files:
-- - internal/protocol/packet.go, the 20-byte header: Protocol/Packet. Marshal, MarshalTo, AppendTo,
--   Unmarshal and Validate keep their names, in small letters. `assemble` of Protocol/Packet/Assembly
--   is the header and payload that client and server put into one slice.
-- - internal/protocol/control.go, the lane control payload: Protocol/Control.
-- - internal/protocol/stream.go, StreamBuffer: Protocol/Stream. The capacity that append chooses is
--   the parameter `grow`. The framing of every lane rests on NextRef (`next_ref`).
-- - internal/crypto, the ciphers: Crypto. The AEAD constructions, SHA-256 and the random source are
--   the parameters of Crypto/Primitives.
-- - internal/client/client.go:
--   - the read loop of handleDownstream: Client/Receive. What is done with a frame is the record
--     `Sink`.
--   - getOrCreateSession, handleDownstreamPacket, cleanupSessions: Client/Sessions. The maps hold
--     pointers into a store of session objects; Unmap, the cipher and the writes to the socket are
--     parameters.
--   - manageUpstreamConnection, watchUpstreamConn and writeUpstreamBatch: Client/Upstream, as the
--     steps of their goroutines in any order; reconnectDelay: Client/Backoff, with the random source
--     as a parameter.
--   - sendLaneControl and downstreamControlLoop: Client/LaneControl.
--   - manageDownstreamConnection and the set-up and tear-down of handleDownstream: Client/Downlink, as
--     steps of goroutines. handleUpstreamWrites with its limits and its flush: Client/Writes.
--   - handleUDP, handleUDPZeroCopy and sendToUpstream: Client/Send, up to the packet for a lane's
--     ring. What the socket returns, and the nonce of each encryption, are part of a read.
--   - handleDownstream with handleDownstreamPacket: Client/Downstream, the read loop with the sessions.
-- - internal/client/upstream_ring.go: Client/Ring, a packet named by its slot. A loop that waits is
--   one round of it. Client/Ring/System has the producer (sendToUpstream) and the consumer
--   (handleUpstreamWrites) as steps in any order.
-- - internal/server/server.go, writeBackendPacket: Server/Backend; writeUpstreamToBackend and
--   forceDrainReorderLocked: Server/Reorder. Which writes succeed is the parameter `accepts`.
-- - internal/server/handlers.go, OnTraffic: Server/Traffic, over the interface `GnetConn` of gnet's
--   connection. Server/Traffic/Arrivals calls it after each chunk that arrives, as the event loop does;
--   how a connection takes up bytes is the parameter `arrive`.
-- - Stop and closeSessions of server.go, OnBoot and OnShutdown of handlers.go: Server/Life.
-- - internal/server/handlers.go, handleLaneControl, and server.go, laneForSession and
--   sendToDownstream: Server/Lanes. The cipher is the parameter `encrypt`; Server/Lanes/Replies has
--   the replies of all sessions with the program's ciphers.
--   downstreamWriter's run and adaptiveDelay: Server/Writer, as the steps of its goroutine among
--   others. handleUpstreamPacket, handleBackendData and cleanupSessions: Server/Sessions, one call at
--   a time; whether a dial succeeds is part of a call.
-- - internal/session/session.go: Session. internal/config/config.go: Config.
--   internal/stats/stats.go: Stats.
-- - New of client.go and server.go: Setup, from a configuration to lanes, rings, limits and ciphers.
-- - EndToEnd: what the client's sendLaneControl and sendToUpstream write, read by the server's
--   OnTraffic, and what the server's sendToDownstream puts into a channel, read by handleDownstream.
-- - Base: tests, lists, words, texts, the signed integers and maps that these share.
--
-- Numbers are natural numbers, with Go's wrap-around written out as a remainder; int is ℤ. Bytes are
-- numbers in lists. Times are nanoseconds on a clock that does not go back.
--
-- Fuel: `drain` of Client/Receive runs on one round more than the buffer has bytes, and each round
-- but the last takes at least 20 of them, and so does `read_frames` of Server/Traffic; `drain` of
-- Server/Reorder on one round more than the map has entries, each of which takes one; `double_until`
-- on as many rounds as the number, which doubling from 1 reaches sooner up to 2⁶²; beyond that Go's
-- loop does not end, and a ring has no such size.
--
-- Not modelled: sockets, timers and log lines, the starting of client and server (which starts
-- goroutines and engines), the race of two lanes that bring the first packets of one session, the
-- sharing of a returned payload with the buffer it stands in, the pool of payloads, which nothing
-- calls, the operating system's TCP options, and the command line.
pub mod Base
pub mod Protocol
pub mod Config
pub mod Crypto
pub mod Session
pub mod Stats
pub mod Setup
pub mod Client
pub mod Server
pub mod EndToEnd

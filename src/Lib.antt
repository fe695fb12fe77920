-- ===== src/Lib.antt =====
-- The RSocket protocol of rsocket-go: its frames as bytes, how payloads are cut into fragments and joined
-- again, how frames travel over a byte stream, the ids of streams, the connection that makes and answers
-- requests, its read and write loops, leases, the round robin balancer, and the formats of metadata.
--
-- The program. A requester or responder (internal/socket) hands payloads to a connection
-- (internal/socket/duplex.go), which keeps an entry for each stream, a queue of frames to send and a backlog
-- of those that could not be sent. A payload that is too long for the fragment size is split
-- (internal/fragmentation/splitter.go); each part becomes a frame (core/framing), a six-byte header
-- (core/header.go) and a body. The transport (core/transport) puts three bytes with the length (internal/u24)
-- in front of it. The other side cuts the frames out of the stream, wraps the bytes (FromBytes), validates
-- them, puts the frames of odd and even streams into two unbounded buffers (internal/buffer), dispatches
-- them from there by type to the handlers of its connection, and joins the fragments of each stream in the
-- table of the connection. A whole payload calls the responder's handler, or goes to the entry of its stream.
--
-- The parts and their files.
--   U24, BigEndian, Common     internal/u24/u24.go; the byte order of encoding/binary; ToMilliseconds and
--                              CloneBytes of internal/common/common.go
--   Core/FrameType, Core/Flag, Core/Types, Core/Header, Core/Version
--                              core/types.go, core/header.go, core/version.go
--   Framing/Buffered           core/framing/buffered.go: a received frame, with its references
--                              (Framing/Buffered/Refs, and shared by goroutines, Framing/Buffered/Shared)
--                              and what its readers find in a framed payload
--                              (Framing/Buffered/Laws)
--   Framing/Program            what a WriteTo method does with its io.Writer; the writer is a parameter
--   Framing/Parts, Framing/Shape
--                              writePayload of core/framing/misc.go, CalcPayloadFrameSize of
--                              core/framing/frame.go, and the metadata and data that frames share
--   Framing/Convert            FromBytes of core/framing/frame.go and convert of core/framing/misc.go, and
--                              what they make of written frames (Framing/Convert/Written)
--   Framing/<Kind>             one file for each kind of frame: the builder NewXFrame and the readers of
--                              core/framing/<kind>.go, the writeable form of writeable_<kind>.go
--   Fragmentation/Splitter     internal/fragmentation/splitter.go; Cursors and Correct are its proofs,
--                              Sizes the lengths of its frames
--   Fragmentation/Joiner       internal/fragmentation/joiner.go and doFragment; Reassembly, Delivery
--                              and Payloads are its proofs, over arrivals that interleave
--   Transport/Decoder, Transport/Stream
--                              core/transport/decoder.go and the writes of core/transport/tcp_conn.go
--   Socket/StreamIds           internal/socket/stream_id.go and nextStreamID
--   Buffers/Unbounded          internal/buffer/unbounded.go; Fifo is its proof
--   Transport/Start            Start and loopReadBuffer of core/transport/transport.go as interleaved steps;
--                              Lanes and Order are its proofs
--   Transport/Dispatch         DispatchFrame and SetLifetime, and SetTransport of internal/socket/duplex.go
--   Socket/Duplex              the state of a connection, its callbacks (internal/socket/callback.go),
--                              sendFrame, writeError, register and unregister
--   Socket/Duplex/Sending, Socket/Duplex/Requests
--                              FireAndForget, MetadataPush, RequestResponse and sendPayload; RequestStream
--                              and RequestChannel, with the hooks that they give to the reactive library
--   Socket/Duplex/Receiving, Socket/Duplex/Arrival
--                              the handlers of frames and the calls of the responder; the handler of each type
--   Socket/Duplex/Subscribers  the four subscribers, internal/socket/subscriber_*.go
--   Socket/Duplex/Closing, Socket/Duplex/Writing
--                              Close and what it destroys; drain, drainOne and drainBacklog. Their proofs are
--                              Closing/Order, Writing/Accounts and Writing/Backlog
--   Socket/Duplex/Wire, Socket/Duplex/Delivery
--                              the frames of a connection as bytes; what the frames that one connection
--                              queues do to another (Flags, Request, Calls, PayloadFlags, Response,
--                              Payloads, and Stream for many payloads)
--   Socket/Duplex/Isolation, Socket/Duplex/Cancel
--                              proofs about the handlers
--   Socket/Leaser              internal/socket/leaser.go
--   Extension/Routing          extension/routing.go
--   Extension/Mime, Extension/Composite, Extension/Authentication
--                              extension/mime.go, composite_metadata.go (Composite/RoundTrip is its proof)
--                              and authentication.go
--   Balancer                   balancer/round_robin.go; Turns is its proof
--   Examples                   concrete runs
--
-- How the code is modelled. Bytes are lists of natural numbers; an integer of w bits keeps its
-- wrap-around where the code can reach it (the uint16 offsets of the resume and setup frames, the uint64
-- counter of stream ids). An index or a slice out of range, or a call of panic, is the outcome `panic`;
-- a slice past the length of its bytes counts as out of range, whatever capacity lies behind them.
-- A method that writes is a program of writes, so that what it writes, what it counts and what it does
-- when the writer fails are all there. The buffer pool is a count of how often a buffer was given back; the atomic operations of
-- IncRef and Release are steps of their own where goroutines share a frame, and the counter does not wrap.
-- The callback of the splitter is the list of its calls. A duration is a number of nanoseconds, zero or
-- more. What `bufio.Scanner` does with its split function is the relation Transport.Stream.Scans.
--
-- What a connection does to the outside (calls of handlers, sinks, processors and subscriptions, released
-- payloads, ended frames) is a list of events in its state; sinks, processors and subscriptions are numbers.
-- The handlers of the responder are a parameter: what each of them answers. rx.RequestMax, of the reactive
-- library, and the success of a transport's Send and of its SetDeadline are parameters; so is the order in
-- which Range visits a sync.Map, as a list of its keys. The queue of 64 frames is a list: its bound delays a
-- sender and loses nothing. A scheduler runs what it is given at once.
--
-- Fuel. The splitter's loop has two more rounds than the payload has bytes: each frame but the first
-- takes one byte at least where the fragment size is valid. The parser of routing tags has one more round
-- than there are bytes. `Next` of a client needs one round, of a server one for the first half of the
-- counter's values; nextStreamID takes as many rounds as the caller's ids are in use.
-- The scanner of composite metadata needs one round more than there are entries. The rounds of drain are a
-- list of what is ready in each.
--
-- Not modelled: logging and the printing of frames, the pools of frames and subscribers, the traffic counter,
-- network I/O and WebSocket, the reactive library and its wrappers in rx, the command line, the builders of
-- client.go and server.go, and, so far, the keepalive and lease variants of the write loop, the lock-free
-- queue, sessions and resumption, setup, the payload types and the balancer group.
pub mod Base
pub mod BigEndian
pub mod Common
pub mod U24
pub mod Core
pub mod Framing
pub mod Fragmentation
pub mod Transport
pub mod Socket
pub mod Extension
pub mod Balancer
pub mod Buffers
pub mod Examples

-- ===== src/Lib.antt =====
-- Verification of the QUIC library: the wire format of its frames, packet headers and transport
-- parameters, and the state that a connection keeps for paths, streams, connection identifiers,
-- ranges, flow control, round-trip times, duplicates, timers, buffered frames and the path MTU.
--
-- The parts, from the bottom up. A frame is read and written through the codec; an ACK frame carries
-- a range set, and a NEW_CONNECTION_ID frame an identifier. A connection keeps the other parts, and
-- calls each when packets are sent, acknowledged, lost or received.
--
-- * Error models src/error.rs: the type `Error`, `to_wire` and `to_errno`. `Result` has a third
--   constructor, `panic`, for `unwrap`, `unreachable!`, and the operations of `Bytes` that cut a
--   buffer (`slice`, `advance`, `split_off`, `split_to` of a chunk) beyond its end.
-- * Codec models src/codec.rs. Codec.Encoder is the trait `Encoder` on `&mut [u8]`: a writer holds
--   what it wrote and the room left. Codec.Decoder is the trait `Decoder` on `&[u8]`. Codec.Bytes,
--   Codec.VarintBytes, Codec.Emitting, Codec.Reading, Codec.RoundTrip and Codec.Safety hold the proofs.
-- * Ranges models src/ranges.rs, with the `BTreeMap` as the list of its entries in the order of the
--   keys (Ranges.Entries). Ranges.Merge is the abstract view: what a set holds, and insertion in one
--   pass; Ranges.Absorb and Ranges.Insert show that the code does the same, Ranges.Subtract,
--   Ranges.Remove and Ranges.Until do so for removal and lookup.
-- * Cid models `ConnectionId` of src/lib.rs.
-- * CidManager models src/connection/cid.rs: CidManager.Deque the bounded queue `ConnectionIdDeque`,
--   CidManager itself `ConnectionIdMgr`. CidManager.Destinations is about the identifiers that the
--   peer issued, CidManager.Sources and CidManager.Retirement about those issued to the peer. An
--   operation that fails returns the state that it leaves too.
-- * Frame models src/frame.rs: Frame.Encode is `Frame::to_bytes`, Frame.Wire `Frame::wire_len`,
--   Frame.Decode `Frame::from_bytes`, each with the helpers it calls. Frame.Format describes the
--   format on its own; Frame.Writes, Frame.Size, Frame.Reads, Frame.Ack, Frame.AckReads and
--   Frame.RoundTrip relate the code to it. Frame.Readers and Frame.Safety are about any bytes.
-- * Packet models src/packet.rs: Packet.Number the truncation of packet numbers, and Packet.Header
--   `PacketHeader` with `to_bytes`, `from_bytes` and `header_info`. Packet.Layout describes the layout
--   on its own; Packet.Truncation, Packet.Info, Packet.RoundTrip and Packet.Safety hold the
--   theorems. The length of the tag that ends a Retry packet is an argument.
-- * TransParam models src/trans_param.rs: the records, TransParam.Preferred the preferred address,
--   TransParam.Encode and TransParam.Decode the two directions. TransParam.Format is the format on its
--   own, TransParam.Writes and TransParam.Written are about the encoder, TransParam.Reads, Numbers,
--   Applies and Loop about the decoder, RoundTrip about both, and Accepted about any bytes.
-- * Path models `Path` of src/connection/path.rs, and the operations of `PathMap` on the
--   anti-amplification limit of a path. Path.Validation is about runs of challenges and responses,
--   Path.Timeout about the timer, Path.Unmatched about other responses, and Path.Amplification about runs
--   of datagrams.
-- * Space models the `BufferQueue` of src/connection/space.rs, and MinMax the windowed filter of
--   src/congestion_control/minmax.rs; Space.Order, MinMax.Window and MinMax.Minimum hold the
--   theorems.
-- * Stream models the buffers and the limits of src/connection/stream.rs. Stream.RangeBuf is
--   `RangeBuf`, a chunk of bytes at an offset. Stream.Recv is `RecvBuf`: Stream.Recv.Chunks sees
--   its `BTreeMap` of chunks as a function from offsets to bytes, Stream.Recv.Scanning, Write,
--   Limits and Accept are about `write`, Read about `read`, Stop about `reset` and `shutdown`,
--   and Delivery about runs of both. Stream.Send is `SendBuf`, with Loss for what it does on
--   acknowledgement and loss, Acknowledge and Retransmit about that, Write about `write`, and Chunks, Copy
--   and Read about `read`.
--   Stream.Kind is `is_local` and `is_bidi`, Stream.Concurrency `ConcurrencyControl` (Side for
--   one of its four limits, Limits for all), and Stream.Capacity `SendCapacity`.
-- * FlowControl, Rtt, Timer and Pmtu model src/connection/flowcontrol.rs, rtt.rs, timer.rs and
--   pmtu.rs; Window models src/window.rs. Each has a child with its theorems.
-- * Examples applies the theorems to concrete inputs.
--
-- Conventions. Integers are natural numbers; arithmetic on u64 and usize wraps where the source may
-- leave the range (`add64`, `sub64`), as in a release build. Bytes are numbers, slices are lists.
-- Durations and instants are numbers of nanoseconds, and the difference of two instants stops at 0.
-- The `u128` of the window is a function from bit positions. The two loops of the range set run on
-- fuel, the number of entries: each round removes one. The loop of `Frame::from_bytes` over the
-- blocks of an ACK frame runs on the count that the frame declares, the one over zeros on the bytes. The
-- loop of `TransportParams::decode` runs on a round for each byte and one more.
-- Stream offsets are below 2 ^ 62, as the varints of a frame are, so their sums do not wrap. The outer
-- loop of `RecvBuf::write` runs on a round for each byte of the frame and one more, since each piece is
-- shorter than the one it comes from; the loops of `SendBuf::read` on the bytes asked for. Where that
-- fuel ran out the models answer `panic`, and the theorems show that it does not. The arrival times of
-- chunks and the trace identifiers are left out.
--
-- Not modelled: the connection itself, the map of its streams with their priorities, packet
-- protection and the packets that rest on it (Retry, Version Negotiation, stateless reset),
-- recovery, the congestion controllers, the endpoint, HTTP/3, TLS, qlog and the C interface,
-- large parts of which are input and output, floating-point learning, or bindings to other
-- libraries; the Flatten iterator of range sets; the conversion of frames to qlog events.

pub mod Prelude
pub mod Error
pub mod Codec
pub mod Ranges
pub mod Cid
pub mod Frame
pub mod Packet
pub mod CidManager
pub mod Space
pub mod MinMax
pub mod Stream
pub mod FlowControl
pub mod Rtt
pub mod Window
pub mod Timer
pub mod Pmtu
pub mod TransParam
pub mod Path
mod Examples

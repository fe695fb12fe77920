-- ===== src/Socket/Duplex/Wire.antt =====
-- The frames that carry payloads between two connections: what the writeable frames of a sender are as
-- bytes (core/framing), and what the handlers of the receiver are given for those bytes.
use rsocket_go.Base.{ℕ, ◌^◌, ◌<◌, ◌≤◌, ◌≡◌, refl, arith, ◌==◌, length, Option, none, some}
use rsocket_go.Base.{if◌then◌else◌, ◌∙◌}
use rsocket_go.Base.Outcome.{Outcome, done, panic, ◌>>=◌}
use rsocket_go.BigEndian.{Bytes}
use rsocket_go.U24.{max_uint24}
use rsocket_go.Core.FrameType
use rsocket_go.Core.Types.{IsFlag}
use rsocket_go.Core.Header.{
  new_frame_header, type, flag, stream_id, stream_id-new, type-new, flag-new,
}
use rsocket_go.Framing.Program.{Program, emit}
use rsocket_go.Framing.Parts.{mark_metadata, Allows, mark_metadata-IsFlag}
use rsocket_go.Framing.Shape.{reported}
use rsocket_go.Framing.Buffered.{BufferedFrame, new_buffered_frame, header}
use rsocket_go.Framing.RequestResponse
use rsocket_go.Framing.FireAndForget
use rsocket_go.Framing.RequestStream
use rsocket_go.Framing.RequestChannel
use rsocket_go.Framing.Payload
use rsocket_go.Framing.RequestN
use rsocket_go.Framing.Cancel
use rsocket_go.Framing.Error
use rsocket_go.Framing.Keepalive
use rsocket_go.Framing.Lease
use rsocket_go.Framing.MetadataPush
use rsocket_go.Fragmentation.Joiner.{Fragment}
use rsocket_go.Socket.Duplex.{
  OutFrame, request_response_frame, fire_and_forget_frame, request_stream_frame,
  request_channel_frame, payload_frame, request_n_frame, cancel_frame, error_frame, keepalive_frame,
  lease_frame, metadata_push_frame,
}

-- WriteTo of the frame that the call makes.
unfoldable pub program : OutFrame → Program
program (request_response_frame sid d m fg) =
    RequestResponse.write_to (RequestResponse.new_writeable_request_response_frame sid d m fg)
program (fire_and_forget_frame sid d m fg) =
    FireAndForget.write_to (FireAndForget.new_writeable_fire_and_forget_frame sid d m fg)
program (request_stream_frame sid n d m fg) =
    RequestStream.write_to (RequestStream.new_writeable_request_stream_frame sid n d m fg)
program (request_channel_frame sid n d m fg) =
    RequestChannel.write_to (RequestChannel.new_writeable_request_channel_frame sid n d m fg)
program (payload_frame sid d m fg) =
    Payload.write_to (Payload.new_writeable_payload_frame sid d m fg)
program (request_n_frame sid n fg) =
    RequestN.write_to (RequestN.new_writeable_request_n_frame sid n fg)
program (cancel_frame sid) = Cancel.write_to (Cancel.new_writeable_cancel_frame sid)
program (error_frame sid code d) = Error.write_to (Error.new_writeable_error_frame sid code d)
program (keepalive_frame position d respond) =
    Keepalive.write_to (Keepalive.new_writeable_keepalive_frame position d respond)
program (lease_frame ttl n m) = Lease.write_to (Lease.new_writeable_lease_frame ttl n m)
program (metadata_push_frame m) =
    MetadataPush.write_to (MetadataPush.new_writeable_metadata_push_frame m)

-- The frame as the handlers see it, with its stream; none for the kinds with no payload.
unfoldable pub fragment_of : OutFrame → Option (ℕ × Fragment)
fragment_of (request_response_frame sid d m fg) = some (
  sid,
  record {
    frame_type = FrameType.request_response;
    initial_n = 0;
    flag = mark_metadata m fg;
    metadata = reported m;
    data_bytes = d;
  },
)
fragment_of (fire_and_forget_frame sid d m fg) = some (
  sid,
  record {
    frame_type = FrameType.request_fnf;
    initial_n = 0;
    flag = mark_metadata m fg;
    metadata = reported m;
    data_bytes = d;
  },
)
fragment_of (request_stream_frame sid n d m fg) = some (
  sid,
  record {
    frame_type = FrameType.request_stream;
    initial_n = n;
    flag = mark_metadata m fg;
    metadata = reported m;
    data_bytes = d;
  },
)
fragment_of (request_channel_frame sid n d m fg) = some (
  sid,
  record {
    frame_type = FrameType.request_channel;
    initial_n = n;
    flag = mark_metadata m fg;
    metadata = reported m;
    data_bytes = d;
  },
)
fragment_of (payload_frame sid d m fg) = some (
  sid,
  record {
    frame_type = FrameType.payload;
    initial_n = 0;
    flag = mark_metadata m fg;
    metadata = reported m;
    data_bytes = d;
  },
)
fragment_of other = none

abbrev read_fragment :
    ℕ → ℕ → ℕ → Outcome ℕ → Outcome (Option Bytes) → Outcome Bytes → Outcome (ℕ × Fragment)
read_fragment sid t fg count m d = do
  count' ← count
  m' ← m
  d' ← d
  done (
    sid,
    record { frame_type = t; initial_n = count'; flag = fg; metadata = m'; data_bytes = d' },
  )

-- The readers of each kind; a frame of another kind is no fragment, and its assertion to one panics.
unfoldable pub read_as : ℕ → ℕ → ℕ → BufferedFrame → Outcome (ℕ × Fragment)
read_as t sid fg f =
    if t == FrameType.request_response
    then read_fragment sid t fg (done 0) (RequestResponse.metadata f) (RequestResponse.data_bytes f)
    else if t == FrameType.request_fnf
    then read_fragment sid t fg (done 0) (FireAndForget.metadata f) (FireAndForget.data_bytes f)
    else if t == FrameType.request_stream
    then read_fragment sid t fg (RequestStream.initial_request_n f) (RequestStream.metadata f)
        (RequestStream.data_bytes f)
    else if t == FrameType.request_channel
    then read_fragment sid t fg (RequestChannel.initial_request_n f) (RequestChannel.metadata f)
        (RequestChannel.data_bytes f)
    else if t == FrameType.payload
    then read_fragment sid t fg (done 0) (Payload.metadata f) (Payload.data_bytes f)
    else panic

unfoldable pub received : Bytes → Outcome (ℕ × Fragment)
received bs =
    let f = new_buffered_frame bs in header f >>= λ h. read_as (type h) (stream_id h) (flag h) f

received-header :
    (bs : Bytes) (sid t fg : ℕ)
    → sid < 2 ^ 32
    → t < 2 ^ 6
    → IsFlag fg
    → header (new_buffered_frame bs) ≡ done (new_frame_header sid t fg)
    → received bs ≡ read_as t sid fg (new_buffered_frame bs)
unfolding received
received-header bs sid t fg hs ht hf e =
    rw (e, type-new sid t fg hs ht hf, stream_id-new sid t fg hs ht hf, flag-new sid t fg hs ht hf)
      refl

-- The bounds within which a frame with a payload can be written.
unfoldable pub Fits : OutFrame → Type 0
Fits (request_response_frame sid d m fg) =
    (sid < 2 ^ 32) × IsFlag fg × Allows m fg × (length m ≤ max_uint24)
Fits (fire_and_forget_frame sid d m fg) =
    (sid < 2 ^ 32) × IsFlag fg × Allows m fg × (length m ≤ max_uint24)
Fits (request_stream_frame sid n d m fg) =
    (sid < 2 ^ 32) × (n < 2 ^ 32) × IsFlag fg × Allows m fg × (length m ≤ max_uint24)
Fits (request_channel_frame sid n d m fg) =
    (sid < 2 ^ 32) × (n < 2 ^ 32) × IsFlag fg × Allows m fg × (length m ≤ max_uint24)
Fits (payload_frame sid d m fg) = (sid < 2 ^ 32) × IsFlag fg × Allows m fg × (length m ≤ max_uint24)
Fits other = ⊥

abbrev Received : OutFrame → Type 0
Received f =
    (x : ℕ × Fragment) × (bs : Bytes) × (fragment_of f ≡ some x)
    × (emit (program f) ≡ done bs)
    × (received bs ≡ done x)

-- For a request or a payload frame with a stream id and an initial request count of 32 bits, a
-- flag of ten bits that announces metadata only where there is some and metadata of at most
-- 16777215 bytes, the bytes that the connection's writeable frame writes are received, by the
-- header and the readers of the frame's type, as the stream id, the type, the flag, the count, the
-- metadata (absent where empty) and the data of the frame.
pub received-program : (f : OutFrame) → Fits f → Received f
unfolding Fits program fragment_of read_as RequestResponse.new_writeable_request_response_frame
    FireAndForget.new_writeable_fire_and_forget_frame Payload.new_writeable_payload_frame
    RequestStream.new_writeable_request_stream_frame
    RequestChannel.new_writeable_request_channel_frame
received-program (request_response_frame sid d m fg) (hs, hf, allows, hm) =
    let (bs, e, eh, ev, em, ed) =
      RequestResponse.request_response_round_trip sid d m fg hs hf allows hm in
    (
      _,
      bs,
      refl,
      e,
      received-header bs sid FrameType.request_response (mark_metadata m fg) hs (omega arith)
            (mark_metadata-IsFlag m fg hf) eh
          ∙ rw (em, ed) refl,
    )
received-program (fire_and_forget_frame sid d m fg) (hs, hf, allows, hm) =
    let (bs, e, eh, ev, em, ed) =
      FireAndForget.fire_and_forget_round_trip sid d m fg hs hf allows hm in
    (
      _,
      bs,
      refl,
      e,
      received-header bs sid FrameType.request_fnf (mark_metadata m fg) hs (omega arith)
            (mark_metadata-IsFlag m fg hf) eh
          ∙ rw (em, ed) refl,
    )
received-program (request_stream_frame sid n d m fg) (hs, hn, hf, allows, hm) =
    let (bs, e, eh, ev, en, em, ed) =
      RequestStream.request_stream_round_trip sid n d m fg hs hn hf allows hm in
    (
      _,
      bs,
      refl,
      e,
      received-header bs sid FrameType.request_stream (mark_metadata m fg) hs (omega arith)
            (mark_metadata-IsFlag m fg hf) eh
          ∙ rw (en, em, ed) refl,
    )
received-program (request_channel_frame sid n d m fg) (hs, hn, hf, allows, hm) =
    let (bs, e, eh, ev, en, em, ed) =
      RequestChannel.request_channel_round_trip sid n d m fg hs hn hf allows hm in
    (
      _,
      bs,
      refl,
      e,
      received-header bs sid FrameType.request_channel (mark_metadata m fg) hs (omega arith)
            (mark_metadata-IsFlag m fg hf) eh
          ∙ rw (en, em, ed) refl,
    )
received-program (payload_frame sid d m fg) (hs, hf, allows, hm) =
    let (bs, e, eh, ev, em, ed) = Payload.payload_round_trip sid d m fg hs hf allows hm in
    (
      _,
      bs,
      refl,
      e,
      received-header bs sid FrameType.payload (mark_metadata m fg) hs (omega arith)
            (mark_metadata-IsFlag m fg hf) eh
          ∙ rw (em, ed) refl,
    )
received-program (request_n_frame sid n fg) h = absurd h
received-program (cancel_frame sid) h = absurd h
received-program (error_frame sid code d) h = absurd h
received-program (keepalive_frame position d respond) h = absurd h
received-program (lease_frame ttl n m) h = absurd h
received-program (metadata_push_frame m) h = absurd h

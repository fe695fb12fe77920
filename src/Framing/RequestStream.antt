-- ===== src/Framing/RequestStream.antt =====
-- core/framing/request_stream.go and writeable_request_stream.go.
use rsocket_go.Base.{ℕ, ◌+◌, ◌^◌, ◌<◌, ◌≤◌, ◌≡◌, arith}
use rsocket_go.Base.{◌&&◌, ◌++◌, length, Option, none, some}
use rsocket_go.Base.{if◌then◌else◌, ltb, ltb-false_iff}
use rsocket_go.Base.Outcome.{Outcome, done, ◌>>=◌}
use rsocket_go.BigEndian.{Bytes, put_uint32, uint32, uint32-put, length-put_uint32}
use rsocket_go.U24.{max_uint24}
use rsocket_go.Core.FrameType
use rsocket_go.Core.Flag
use rsocket_go.Core.Types.{IsFlag}
use rsocket_go.Core.Header.{FrameHeader, write_frame_header, new_frame_header}
use rsocket_go.Core.Header
use rsocket_go.Framing.Program.{Program, chunk, ◌⨟◌, emit}
use rsocket_go.Framing.Parts.{
  payload_field, write_payload, append_payload, mark_metadata, Allows, calc_payload_frame_size,
}
use rsocket_go.Framing.Buffered.{
  BufferedFrame, FrameError, incomplete_frame, incomplete_if, new_buffered_frame, has_flag, body,
  body_len, try_slice_metadata, try_slice_data, header,
}
use rsocket_go.Framing.Buffered.Laws.{header-framed, body-framed}
use rsocket_go.Framing.Shape.{
  shape, reported, payload_complete, has_metadata-shape, metadata-shape, data-shape, body_len-shape,
  emit-header_fields_payload, length-emit_header_fields_payload, built-header_fields_payload,
}

unfoldable pub new_request_stream_frame : ℕ → ℕ → Bytes → Bytes → ℕ → Outcome BufferedFrame
new_request_stream_frame id n d m flag = do
  payload ← append_payload d m
  let head = write_frame_header id FrameType.request_stream (mark_metadata m flag)
  done (new_buffered_frame ((head ++ put_uint32 n) ++ payload))

unfoldable pub validate : BufferedFrame → Outcome (Option FrameError)
validate f =
    let l = body_len f in
    if ltb l 4
    then done (some incomplete_frame)
    else (do has ← has_flag f Flag.metadata; done (incomplete_if (has && ltb l (4 + 3))))

unfoldable pub initial_request_n : BufferedFrame → Outcome ℕ
initial_request_n f = do b ← body f; uint32 b

unfoldable pub metadata : BufferedFrame → Outcome (Option Bytes)
metadata f = try_slice_metadata f 4

unfoldable pub data_bytes : BufferedFrame → Outcome Bytes
data_bytes f = try_slice_data f 4

pub record WriteableRequestStreamFrame : Type 0 where
  pub head : FrameHeader
  pub n : Bytes
  pub metadata : Bytes
  pub data_bytes : Bytes

unfoldable pub new_writeable_request_stream_frame :
    ℕ → ℕ → Bytes → Bytes → ℕ → WriteableRequestStreamFrame
new_writeable_request_stream_frame id n d m flag = record {
  head = new_frame_header id FrameType.request_stream (mark_metadata m flag);
  n = put_uint32 n;
  metadata = m;
  data_bytes = d;
}

unfoldable pub write_to : WriteableRequestStreamFrame → Program
write_to f = chunk (Header.bytes f.head) ⨟ chunk f.n ⨟ write_payload f.data_bytes f.metadata

unfoldable pub len : WriteableRequestStreamFrame → ℕ
len f = calc_payload_frame_size f.data_bytes f.metadata + 4

-- The count that the transport puts in front of the frame is the number of its bytes, the
-- request count being the four bytes of an array.
pub length-request_stream_write_to :
    (f : WriteableRequestStreamFrame) (bs : Bytes)
    → length f.n ≡ 4
    → emit (write_to f) ≡ done bs
    → length bs ≡ len f
unfolding write_to len
length-request_stream_write_to f bs four e =
    omega (arith, four, length-emit_header_fields_payload f.head f.n f.data_bytes f.metadata bs e)

-- The frame built in a buffer has the bytes of the writeable one, or both panic.
pub new_request_stream_frame-write_to :
    (id n : ℕ) (d m : Bytes) (flag : ℕ)
    → new_request_stream_frame id n d m flag ≡ (
        emit (write_to (new_writeable_request_stream_frame id n d m flag)) >>= λ bs.
        done (new_buffered_frame bs))
unfolding new_request_stream_frame write_to new_writeable_request_stream_frame
new_request_stream_frame-write_to id n d m flag =
    built-header_fields_payload id FrameType.request_stream (mark_metadata m flag) (put_uint32 n) d
      m

module _ (id n : ℕ) (d m : Bytes) (flag : ℕ) (hid : id < 2 ^ 32) (hn : n < 2 ^ 32)
    (hf : IsFlag flag) (allows : Allows m flag) (hm : length m ≤ max_uint24) where
  abbrev frame : BufferedFrame
  frame = shape id FrameType.request_stream flag (put_uint32 n) d m (omega arith) hf allows hm

  size : body_len frame ≡ 4 + length (payload_field d m)
  size = omega (
    arith,
    body_len-shape id FrameType.request_stream flag (put_uint32 n) d m (omega arith) hf allows hm,
    length-put_uint32 n,
  )

  validate-frame : validate frame ≡ done none
  unfolding validate
  validate-frame = rw (
    (ltb-false_iff (body_len frame) 4).1 (omega (arith, size)),
    has_metadata-shape id FrameType.request_stream flag (put_uint32 n) d m (omega arith) hf allows
        hm,
    payload_complete d m 4 (body_len frame) size,
  )

  request_n-frame : initial_request_n frame ≡ done n
  unfolding initial_request_n
  request_n-frame =
      rw
        (body-framed id FrameType.request_stream (mark_metadata m flag)
          (put_uint32 n ++ payload_field d m))
        (uint32-put n (payload_field d m) hn)

  metadata-frame : metadata frame ≡ done (reported m)
  unfolding metadata put_uint32
  metadata-frame =
      metadata-shape id FrameType.request_stream flag (put_uint32 n) d m (omega arith) hf allows hm

  data-frame : data_bytes frame ≡ done d
  unfolding data_bytes put_uint32
  data-frame =
      data-shape id FrameType.request_stream flag (put_uint32 n) d m (omega arith) hf allows hm

  -- For a stream id and an initial request count of 32 bits, a flag of ten bits that announces
  -- metadata only where there is some, and metadata of at most 16777215 bytes, a request stream
  -- frame is written as bytes from which the header, the count, the metadata (absent where empty)
  -- and the data are read back; the bytes validate and no step panics.
  pub request_stream_round_trip :
      (bs : Bytes) × (emit (write_to (new_writeable_request_stream_frame id n d m flag)) ≡ done bs)
      × (header (new_buffered_frame bs)
          ≡ done (new_writeable_request_stream_frame id n d m flag).head)
      × (validate (new_buffered_frame bs) ≡ done none)
      × (initial_request_n (new_buffered_frame bs) ≡ done n)
      × (metadata (new_buffered_frame bs) ≡ done (reported m))
      × (data_bytes (new_buffered_frame bs) ≡ done d)
  unfolding write_to new_writeable_request_stream_frame
  request_stream_round_trip = (
    write_frame_header id FrameType.request_stream (mark_metadata m flag)
        ++ (put_uint32 n ++ payload_field d m),
    emit-header_fields_payload id FrameType.request_stream (mark_metadata m flag) d m hm
        (put_uint32 n),
    header-framed id FrameType.request_stream (mark_metadata m flag)
        (put_uint32 n ++ payload_field d m),
    validate-frame,
    request_n-frame,
    metadata-frame,
    data-frame,
  )

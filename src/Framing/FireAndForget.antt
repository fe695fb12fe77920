-- ===== src/Framing/FireAndForget.antt =====
-- core/framing/fnf.go and writeable_fnf.go.
use rsocket_go.Base.{ℕ, ◌^◌, ◌<◌, ◌≤◌, ◌≡◌, arith}
use rsocket_go.Base.{◌&&◌, [], ◌++◌, length, Option, none}
use rsocket_go.Base.{ltb}
use rsocket_go.Base.Outcome.{Outcome, done, ◌>>=◌}
use rsocket_go.BigEndian.{Bytes}
use rsocket_go.U24.{max_uint24}
use rsocket_go.Core.FrameType
use rsocket_go.Core.Flag
use rsocket_go.Core.Types.{IsFlag}
use rsocket_go.Core.Header.{FrameHeader, write_frame_header, new_frame_header}
use rsocket_go.Core.Header
use rsocket_go.Framing.Program.{Program, chunk, ◌⨟◌, emit}
use rsocket_go.Framing.Parts.{
  payload_field, write_payload, append_payload, mark_metadata, Allows, calc_payload_frame_size,
}
use rsocket_go.Framing.Buffered.{
  BufferedFrame, FrameError, incomplete_if, new_buffered_frame, has_flag, body_len,
  try_slice_metadata, try_slice_data, header,
}
use rsocket_go.Framing.Buffered.Laws.{header-framed}
use rsocket_go.Framing.Shape.{
  reported, payload_complete, has_metadata-shape, metadata-shape, data-shape, body_len-shape,
  emit-header_payload, length-emit_header_payload, built-header_payload,
}

unfoldable pub new_fire_and_forget_frame : ℕ → Bytes → Bytes → ℕ → Outcome BufferedFrame
new_fire_and_forget_frame sid d m flag = do
  payload ← append_payload d m
  let head = write_frame_header sid FrameType.request_fnf (mark_metadata m flag)
  done (new_buffered_frame (head ++ payload))

unfoldable pub validate : BufferedFrame → Outcome (Option FrameError)
validate f = do has ← has_flag f Flag.metadata; done (incomplete_if (has && ltb (body_len f) 3))

unfoldable pub metadata : BufferedFrame → Outcome (Option Bytes)
metadata f = try_slice_metadata f 0

unfoldable pub data_bytes : BufferedFrame → Outcome Bytes
data_bytes f = try_slice_data f 0

pub record WriteableFireAndForgetFrame : Type 0 where
  pub head : FrameHeader
  pub metadata : Bytes
  pub data_bytes : Bytes

unfoldable pub new_writeable_fire_and_forget_frame :
    ℕ → Bytes → Bytes → ℕ → WriteableFireAndForgetFrame
new_writeable_fire_and_forget_frame sid d m flag = record {
  head = new_frame_header sid FrameType.request_fnf (mark_metadata m flag);
  metadata = m;
  data_bytes = d;
}

unfoldable pub write_to : WriteableFireAndForgetFrame → Program
write_to f = chunk (Header.bytes f.head) ⨟ write_payload f.data_bytes f.metadata

unfoldable pub len : WriteableFireAndForgetFrame → ℕ
len f = calc_payload_frame_size f.data_bytes f.metadata

-- The count that the transport puts in front of the frame is the number of its bytes.
pub length-fire_and_forget_write_to :
    (f : WriteableFireAndForgetFrame) (bs : Bytes) → emit (write_to f) ≡ done bs → length bs ≡ len f
unfolding write_to len
length-fire_and_forget_write_to f bs e =
    length-emit_header_payload f.head f.data_bytes f.metadata bs e

-- The frame built in a buffer has the bytes of the writeable one, or both panic.
pub new_fire_and_forget_frame-write_to :
    (sid : ℕ) (d m : Bytes) (flag : ℕ)
    → new_fire_and_forget_frame sid d m flag ≡ (
        emit (write_to (new_writeable_fire_and_forget_frame sid d m flag)) >>= λ bs.
        done (new_buffered_frame bs))
unfolding new_fire_and_forget_frame write_to new_writeable_fire_and_forget_frame
new_fire_and_forget_frame-write_to sid d m flag =
    built-header_payload sid FrameType.request_fnf (mark_metadata m flag) d m

-- For a stream id of 32 bits, a flag of ten bits that announces metadata only where there is some,
-- and metadata of at most 16777215 bytes, a fire and forget frame is written as bytes from which
-- the header, the metadata (absent where empty) and the data are read back; the bytes validate and
-- no step panics.
pub fire_and_forget_round_trip :
    (sid : ℕ) (d m : Bytes) (flag : ℕ)
    → sid < 2 ^ 32
    → IsFlag flag
    → Allows m flag
    → length m ≤ max_uint24
    → (bs : Bytes) × (emit (write_to (new_writeable_fire_and_forget_frame sid d m flag)) ≡ done bs)
      × (header (new_buffered_frame bs)
          ≡ done (new_writeable_fire_and_forget_frame sid d m flag).head)
      × (validate (new_buffered_frame bs) ≡ done none)
      × (metadata (new_buffered_frame bs) ≡ done (reported m))
      × (data_bytes (new_buffered_frame bs) ≡ done d)
unfolding write_to new_writeable_fire_and_forget_frame validate metadata data_bytes
fire_and_forget_round_trip sid d m flag hid hf allows hm = (
  write_frame_header sid FrameType.request_fnf (mark_metadata m flag) ++ payload_field d m,
  emit-header_payload sid FrameType.request_fnf (mark_metadata m flag) d m hm,
  header-framed sid FrameType.request_fnf (mark_metadata m flag) (payload_field d m),
  rw (
    has_metadata-shape sid FrameType.request_fnf flag [] d m (omega arith) hf allows hm,
    payload_complete d m 0 _
        (body_len-shape sid FrameType.request_fnf flag [] d m (omega arith) hf allows hm),
  ),
  metadata-shape sid FrameType.request_fnf flag [] d m (omega arith) hf allows hm,
  data-shape sid FrameType.request_fnf flag [] d m (omega arith) hf allows hm,
)

-- ===== src/Framing/MetadataPush.antt =====
-- core/framing/metadata_push.go and writeable_metadata_push.go.
use rsocket_go.Base.{ℕ, ◌+◌, ◌≡◌, arith}
use rsocket_go.Base.{◌++◌, length, Option, none, some}
use rsocket_go.Base.{length-append}
use rsocket_go.Base.Outcome.{Outcome, done, ◌>>=◌}
use rsocket_go.BigEndian.{Bytes}
use rsocket_go.Core.FrameType
use rsocket_go.Core.Flag
use rsocket_go.Core.Header.{FrameHeader, frame_header_len, write_frame_header, new_frame_header}
use rsocket_go.Core.Header
use rsocket_go.Framing.Program.{Program, chunk, ◌⨟◌, emit}
use rsocket_go.Framing.Buffered.{BufferedFrame, FrameError, new_buffered_frame, body, header}
use rsocket_go.Framing.Buffered.Laws.{header-framed, body-framed, length-header}

-- _metadataPushHeader
unfoldable pub metadata_push_header : FrameHeader
metadata_push_header = new_frame_header 0 FrameType.metadata_push Flag.metadata

unfoldable pub new_metadata_push_frame : Bytes → BufferedFrame
new_metadata_push_frame metadata =
    new_buffered_frame (Header.bytes metadata_push_header ++ metadata)

unfoldable pub validate : BufferedFrame → Option FrameError
validate f = none

-- The second result is always true.
unfoldable pub metadata : BufferedFrame → Outcome (Option Bytes)
metadata f = do b ← body f; done (some b)

pub record WriteableMetadataPushFrame : Type 0 where
  pub head : FrameHeader
  pub metadata : Bytes

unfoldable pub new_writeable_metadata_push_frame : Bytes → WriteableMetadataPushFrame
new_writeable_metadata_push_frame metadata = record {
  head = metadata_push_header;
  metadata = metadata;
}

unfoldable pub write_to : WriteableMetadataPushFrame → Program
write_to f = chunk (Header.bytes f.head) ⨟ chunk f.metadata

unfoldable pub len : WriteableMetadataPushFrame → ℕ
len f = frame_header_len + length f.metadata

-- The bytes written for a metadata push frame are those of the frame built in a buffer, as many as
-- Len says, and the header and the metadata, also where it is empty, are read back from them.
pub metadata_push_round_trip :
    (m : Bytes)
    → (bs : Bytes) × (emit (write_to (new_writeable_metadata_push_frame m)) ≡ done bs)
      × (new_metadata_push_frame m ≡ new_buffered_frame bs)
      × (length bs ≡ len (new_writeable_metadata_push_frame m))
      × (header (new_buffered_frame bs) ≡ done metadata_push_header)
      × (metadata (new_buffered_frame bs) ≡ done (some m))
unfolding write_to len new_writeable_metadata_push_frame new_metadata_push_frame metadata
    metadata_push_header emit
metadata_push_round_trip m = (
  write_frame_header 0 FrameType.metadata_push Flag.metadata ++ m,
  rw (Header.bytes-new_frame_header 0 FrameType.metadata_push Flag.metadata),
  rw (Header.bytes-new_frame_header 0 FrameType.metadata_push Flag.metadata),
  omega (
    arith,
    length-append (write_frame_header 0 FrameType.metadata_push Flag.metadata) m,
    length-header 0 FrameType.metadata_push Flag.metadata,
  ),
  header-framed 0 FrameType.metadata_push Flag.metadata m,
  rw (body-framed 0 FrameType.metadata_push Flag.metadata m),
)

-- ===== src/Framing/Cancel.antt =====
-- core/framing/cancel.go and writeable_cancel.go.
use rsocket_go.Base.{ℕ, ◌≡◌, refl, ap}
use rsocket_go.Base.{[], length, Option, none, append-nil}
use rsocket_go.Base.{ltb}
use rsocket_go.Base.Outcome.{done}
use rsocket_go.BigEndian.{Bytes}
use rsocket_go.Core.FrameType
use rsocket_go.Core.Header.{FrameHeader, frame_header_len, write_frame_header, new_frame_header}
use rsocket_go.Core.Header
use rsocket_go.Framing.Program.{Program, chunk, emit}
use rsocket_go.Framing.Buffered.{
  BufferedFrame, FrameError, incomplete_if, new_buffered_frame, body_len, header,
}
use rsocket_go.Framing.Buffered.Laws.{header-framed, body_len-framed, length-header}

unfoldable pub validate : BufferedFrame → Option FrameError
validate f = incomplete_if (ltb 0 (body_len f))

unfoldable pub new_cancel_frame : ℕ → BufferedFrame
new_cancel_frame sid = new_buffered_frame (write_frame_header sid FrameType.cancel 0)

pub record WriteableCancelFrame : Type 0 where
  pub head : FrameHeader

unfoldable pub new_writeable_cancel_frame : ℕ → WriteableCancelFrame
new_writeable_cancel_frame id = record { head = new_frame_header id FrameType.cancel 0 }

unfoldable pub write_to : WriteableCancelFrame → Program
write_to f = chunk (Header.bytes f.head)

unfoldable pub len : WriteableCancelFrame → ℕ
len f = frame_header_len

-- The bytes written for a cancel frame are those of the frame built in a buffer, as many as Len
-- says; they validate, and the header is read back from them.
pub cancel_round_trip :
    (id : ℕ)
    → (bs : Bytes) × (emit (write_to (new_writeable_cancel_frame id)) ≡ done bs)
      × (new_cancel_frame id ≡ new_buffered_frame bs)
      × (length bs ≡ len (new_writeable_cancel_frame id))
      × (header (new_buffered_frame bs) ≡ done (new_writeable_cancel_frame id).head)
      × (validate (new_buffered_frame bs) ≡ none)
unfolding write_to len new_writeable_cancel_frame new_cancel_frame validate emit
cancel_round_trip id = (
  write_frame_header id FrameType.cancel 0,
  rw (Header.bytes-new_frame_header id FrameType.cancel 0),
  refl,
  length-header id FrameType.cancel 0,
  rw (← append-nil (write_frame_header id FrameType.cancel 0))
      (header-framed id FrameType.cancel 0 []),
  rw (← append-nil (write_frame_header id FrameType.cancel 0))
      (ap (λ k. incomplete_if (ltb 0 k)) (body_len-framed id FrameType.cancel 0 [])),
)

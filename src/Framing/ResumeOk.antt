-- ===== src/Framing/ResumeOk.antt =====
-- core/framing/resume_ok.go and writeable_resume_ok.go.
use rsocket_go.Base.{ℕ, ◌+◌, ◌^◌, ◌<◌, ◌≡◌, refl, arith}
use rsocket_go.Base.{not, [], ◌++◌, length, Option, none, append-nil}
use rsocket_go.Base.{◌==◌, length-append}
use rsocket_go.Base.Outcome.{Outcome, done, ◌>>=◌}
use rsocket_go.BigEndian.{Bytes, put_uint64, uint64, uint64-put, length-put_uint64}
use rsocket_go.Core.FrameType
use rsocket_go.Core.Header.{FrameHeader, frame_header_len, write_frame_header, new_frame_header}
use rsocket_go.Core.Header
use rsocket_go.Framing.Program.{Program, chunk, ◌⨟◌, emit}
use rsocket_go.Framing.Buffered.{
  BufferedFrame, FrameError, incomplete_if, new_buffered_frame, body, body_len,
}
use rsocket_go.Framing.Buffered.Laws.{body-framed, body_len-framed, length-header}

unfoldable pub new_resume_ok_frame : ℕ → BufferedFrame
new_resume_ok_frame position =
    new_buffered_frame (write_frame_header 0 FrameType.resume_ok 0 ++ put_uint64 position)

unfoldable pub validate : BufferedFrame → Option FrameError
validate f = incomplete_if (not (body_len f == 8))

unfoldable pub last_received_client_position : BufferedFrame → Outcome ℕ
last_received_client_position f = do b ← body f; uint64 b

pub record WriteableResumeOkFrame : Type 0 where
  pub head : FrameHeader
  pub position : Bytes

unfoldable pub new_writeable_resume_ok_frame : ℕ → WriteableResumeOkFrame
new_writeable_resume_ok_frame position = record {
  head = new_frame_header 0 FrameType.resume_ok 0;
  position = put_uint64 position;
}

unfoldable pub write_to : WriteableResumeOkFrame → Program
write_to f = chunk (Header.bytes f.head) ⨟ chunk f.position

unfoldable pub len : WriteableResumeOkFrame → ℕ
len f = frame_header_len + 8

-- For a position of 64 bits, the bytes written for a resume ok frame are those of the frame built
-- in a buffer, as many as Len says; they validate, and the position is read back from them.
pub resume_ok_round_trip :
    (position : ℕ)
    → position < 2 ^ 64
    → (bs : Bytes) × (emit (write_to (new_writeable_resume_ok_frame position)) ≡ done bs)
      × (new_resume_ok_frame position ≡ new_buffered_frame bs)
      × (length bs ≡ len (new_writeable_resume_ok_frame position))
      × (validate (new_buffered_frame bs) ≡ none)
      × (last_received_client_position (new_buffered_frame bs) ≡ done position)
unfolding write_to len new_writeable_resume_ok_frame new_resume_ok_frame validate
    last_received_client_position emit
resume_ok_round_trip position hp = (
  write_frame_header 0 FrameType.resume_ok 0 ++ put_uint64 position,
  rw (Header.bytes-new_frame_header 0 FrameType.resume_ok 0),
  refl,
  omega (
    arith,
    length-append (write_frame_header 0 FrameType.resume_ok 0) (put_uint64 position),
    length-header 0 FrameType.resume_ok 0,
    length-put_uint64 position,
  ),
  rw (body_len-framed 0 FrameType.resume_ok 0 (put_uint64 position), length-put_uint64 position),
  rw (body-framed 0 FrameType.resume_ok 0 (put_uint64 position), ← append-nil (put_uint64 position))
      (uint64-put position [] hp),
)

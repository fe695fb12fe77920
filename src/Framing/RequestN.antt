-- ===== src/Framing/RequestN.antt =====
-- core/framing/request_n.go and writeable_request_n.go.
use rsocket_go.Base.{ℕ, ◌+◌, ◌^◌, ◌<◌, ◌≡◌, refl, arith}
use rsocket_go.Base.{not, [], ◌++◌, length, Option, none, append-nil}
use rsocket_go.Base.{◌==◌, length-append}
use rsocket_go.Base.Outcome.{Outcome, done, ◌>>=◌}
use rsocket_go.BigEndian.{Bytes, put_uint32, uint32, uint32-put, length-put_uint32}
use rsocket_go.Core.FrameType
use rsocket_go.Core.Header.{FrameHeader, frame_header_len, write_frame_header, new_frame_header}
use rsocket_go.Core.Header
use rsocket_go.Framing.Program.{Program, chunk, ◌⨟◌, emit}
use rsocket_go.Framing.Buffered.{
  BufferedFrame, FrameError, incomplete_if, new_buffered_frame, body, body_len, header,
}
use rsocket_go.Framing.Buffered.Laws.{header-framed, body-framed, body_len-framed, length-header}

unfoldable pub new_request_n_frame : ℕ → ℕ → ℕ → BufferedFrame
new_request_n_frame sid n fg =
    new_buffered_frame (write_frame_header sid FrameType.request_n fg ++ put_uint32 n)

unfoldable pub validate : BufferedFrame → Option FrameError
validate f = incomplete_if (not (body_len f == 4))

unfoldable pub n : BufferedFrame → Outcome ℕ
n f = do b ← body f; uint32 b

pub record WriteableRequestNFrame : Type 0 where
  pub head : FrameHeader
  pub count : Bytes

unfoldable pub new_writeable_request_n_frame : ℕ → ℕ → ℕ → WriteableRequestNFrame
new_writeable_request_n_frame id n fg = record {
  head = new_frame_header id FrameType.request_n fg;
  count = put_uint32 n;
}

unfoldable pub write_to : WriteableRequestNFrame → Program
write_to f = chunk (Header.bytes f.head) ⨟ chunk f.count

unfoldable pub len : WriteableRequestNFrame → ℕ
len f = frame_header_len + 4

-- For a count of 32 bits, the bytes written for a request n frame are those of the frame built in
-- a buffer, as many as Len says; they validate, and the header and the count are read back from
-- them.
pub request_n_round_trip :
    (id k fg : ℕ)
    → k < 2 ^ 32
    → (bs : Bytes) × (emit (write_to (new_writeable_request_n_frame id k fg)) ≡ done bs)
      × (new_request_n_frame id k fg ≡ new_buffered_frame bs)
      × (length bs ≡ len (new_writeable_request_n_frame id k fg))
      × (header (new_buffered_frame bs) ≡ done (new_writeable_request_n_frame id k fg).head)
      × (validate (new_buffered_frame bs) ≡ none)
      × (n (new_buffered_frame bs) ≡ done k)
unfolding write_to len new_writeable_request_n_frame new_request_n_frame validate n emit
request_n_round_trip id k fg hk = (
  write_frame_header id FrameType.request_n fg ++ put_uint32 k,
  rw (Header.bytes-new_frame_header id FrameType.request_n fg),
  refl,
  omega (
    arith,
    length-append (write_frame_header id FrameType.request_n fg) (put_uint32 k),
    length-header id FrameType.request_n fg,
    length-put_uint32 k,
  ),
  header-framed id FrameType.request_n fg (put_uint32 k),
  rw (body_len-framed id FrameType.request_n fg (put_uint32 k), length-put_uint32 k),
  rw (body-framed id FrameType.request_n fg (put_uint32 k), ← append-nil (put_uint32 k))
      (uint32-put k [] hk),
)

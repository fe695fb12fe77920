-- ===== src/Framing/Error.antt =====
-- core/framing/error.go and writeable_error.go, with frozenError of misc.go.
use rsocket_go.Base.{ℕ, ◌+◌, ◌^◌, ◌<◌, ◌≡◌, ap, arith, sym}
use rsocket_go.Base.{◌++◌, length, Option, none, append_assoc}
use rsocket_go.Base.{ltb, ltb-false_iff, length-append}
use rsocket_go.Base.Outcome.{Outcome, done, ◌>>=◌, slice_from, slice_from-append}
use rsocket_go.BigEndian.{Bytes, put_uint32, uint32, uint32-put, length-put_uint32}
use rsocket_go.Core.FrameType
use rsocket_go.Core.Header.{FrameHeader, frame_header_len, write_frame_header, new_frame_header}
use rsocket_go.Core.Header
use rsocket_go.Framing.Program.{Program, chunk, word, ◌⨟◌, emit}
use rsocket_go.Framing.Buffered.{
  BufferedFrame, FrameError, incomplete_if, new_buffered_frame, body, body_len, header,
}
use rsocket_go.Framing.Buffered.Laws.{header-framed, body-framed, body_len-framed, length-header}

-- frozenError
pub record FrozenError : Type 0 where
  pub code : ℕ
  pub data_bytes : Bytes

unfoldable pub new_error_frame : ℕ → ℕ → Bytes → BufferedFrame
new_error_frame sid code d =
    new_buffered_frame ((write_frame_header sid FrameType.error 0 ++ put_uint32 code) ++ d)

unfoldable pub validate : BufferedFrame → Option FrameError
validate f = incomplete_if (ltb (body_len f) 4)

unfoldable pub error_code : BufferedFrame → Outcome ℕ
error_code f = do b ← body f; uint32 b

unfoldable pub error_data : BufferedFrame → Outcome Bytes
error_data f = do b ← body f; slice_from b 4

unfoldable pub to_error : BufferedFrame → Outcome FrozenError
unfolding error_code error_data
to_error f = do code ← error_code f; d ← error_data f; done (record { code = code; data_bytes = d })

pub record WriteableErrorFrame : Type 0 where
  pub head : FrameHeader
  pub frozen : FrozenError

unfoldable pub new_writeable_error_frame : ℕ → ℕ → Bytes → WriteableErrorFrame
new_writeable_error_frame id code d = record {
  head = new_frame_header id FrameType.error 0;
  frozen = record { code = code; data_bytes = d };
}

unfoldable pub write_to : WriteableErrorFrame → Program
write_to f =
    chunk (Header.bytes f.head) ⨟ word (put_uint32 f.frozen.code) ⨟ chunk f.frozen.data_bytes

unfoldable pub len : WriteableErrorFrame → ℕ
len f = frame_header_len + 4 + length f.frozen.data_bytes

-- For a code of 32 bits, the bytes written for an error frame are those of the frame built in a
-- buffer, as many as Len says; they validate, the header is read back, and ToError gives the error
-- that was written.
pub error_round_trip :
    (id code : ℕ) (d : Bytes)
    → code < 2 ^ 32
    → (bs : Bytes) × (emit (write_to (new_writeable_error_frame id code d)) ≡ done bs)
      × (new_error_frame id code d ≡ new_buffered_frame bs)
      × (length bs ≡ len (new_writeable_error_frame id code d))
      × (header (new_buffered_frame bs) ≡ done (new_writeable_error_frame id code d).head)
      × (validate (new_buffered_frame bs) ≡ none)
      × (to_error (new_buffered_frame bs) ≡ done (new_writeable_error_frame id code d).frozen)
unfolding write_to len new_writeable_error_frame new_error_frame validate to_error emit
error_round_trip id code d hc = (
  write_frame_header id FrameType.error 0 ++ (put_uint32 code ++ d),
  rw (Header.bytes-new_frame_header id FrameType.error 0, append_assoc),
  rw append_assoc,
  omega (
    arith,
    length-append (write_frame_header id FrameType.error 0) (put_uint32 code ++ d),
    length-append (put_uint32 code) d,
    length-header id FrameType.error 0,
    length-put_uint32 code,
  ),
  header-framed id FrameType.error 0 (put_uint32 code ++ d),
  rw (body_len-framed id FrameType.error 0 (put_uint32 code ++ d)) (
      ap incomplete_if (
        (ltb-false_iff _ _).1
          (omega (arith, length-append (put_uint32 code) d, length-put_uint32 code)))),
  rw (
    body-framed id FrameType.error 0 (put_uint32 code ++ d),
    uint32-put code d hc,
    slice_from-append (put_uint32 code) d 4 (sym (length-put_uint32 code)),
  ),
)

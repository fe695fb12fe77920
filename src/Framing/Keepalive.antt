-- ===== src/Framing/Keepalive.antt =====
-- core/framing/keepalive.go and writeable_keepalive.go.
use rsocket_go.Base.{ℕ, ◌+◌, ◌^◌, ◌<◌, ◌≡◌, refl, ap, arith, ◌∙◌, sym, bit_or}
use rsocket_go.Base.{Bool, true, false, [], ◌∷◌, ◌++◌, length, Option, none, append_assoc}
use rsocket_go.Base.{if◌then◌else◌, ltb, ltb-false_iff, nonempty, length-append}
use rsocket_go.Base.Outcome.{Outcome, done, ◌>>=◌, slice_from, slice_from-append}
use rsocket_go.BigEndian.{Bytes, put_uint64, uint64, uint64-put, length-put_uint64}
use rsocket_go.Core.FrameType
use rsocket_go.Core.Flag
use rsocket_go.Core.Types.{IsFlag, check}
use rsocket_go.Core.Header.{FrameHeader, frame_header_len, write_frame_header, new_frame_header}
use rsocket_go.Core.Header
use rsocket_go.Framing.Program.{Program, chunk, ◌⨟◌, emit}
use rsocket_go.Framing.Buffered.{
  BufferedFrame, FrameError, incomplete_if, new_buffered_frame, has_flag, body, body_len,
}
use rsocket_go.Framing.Buffered.Laws.{body-framed, body_len-framed, has_flag-framed, length-header}

abbrev pub respond_flag : Bool → ℕ
respond_flag respond = if respond then bit_or 0 Flag.respond else 0

unfoldable pub new_keepalive_frame : ℕ → Bytes → Bool → BufferedFrame
new_keepalive_frame position d respond = new_buffered_frame (
    (write_frame_header 0 FrameType.keepalive (respond_flag respond) ++ put_uint64 position)
    ++ (if nonempty d then d else []))

unfoldable pub validate : BufferedFrame → Option FrameError
validate f = incomplete_if (ltb (body_len f) 8)

unfoldable pub last_received_position : BufferedFrame → Outcome ℕ
last_received_position f = do b ← body f; uint64 b

unfoldable pub data_bytes : BufferedFrame → Outcome Bytes
data_bytes f = do b ← body f; slice_from b 8

pub record WriteableKeepaliveFrame : Type 0 where
  pub head : FrameHeader
  pub position : Bytes
  pub data_bytes : Bytes

unfoldable pub new_writeable_keepalive_frame : ℕ → Bytes → Bool → WriteableKeepaliveFrame
new_writeable_keepalive_frame position d respond = record {
  head = new_frame_header 0 FrameType.keepalive (respond_flag respond);
  position = put_uint64 position;
  data_bytes = d;
}

unfoldable pub write_to : WriteableKeepaliveFrame → Program
write_to f = chunk (Header.bytes f.head) ⨟ chunk f.position ⨟ chunk f.data_bytes

unfoldable pub len : WriteableKeepaliveFrame → ℕ
len f = frame_header_len + 8 + length f.data_bytes

data_if : (d : Bytes) → (if nonempty d then d else []) ≡ d
data_if [] = refl
data_if (x ∷ xs) = refl

pub respond_flag-IsFlag : (respond : Bool) → IsFlag (respond_flag respond)
respond_flag-IsFlag true = omega arith
respond_flag-IsFlag false = omega arith

check-respond_flag : (respond : Bool) → check (respond_flag respond) Flag.respond ≡ respond
unfolding check
check-respond_flag true = refl
check-respond_flag false = refl

-- For a position of 64 bits, the bytes written for a keepalive frame are those of the frame built
-- in a buffer, as many as Len says; they validate, and the respond flag, the position and the data
-- are read back from them.
pub keepalive_round_trip :
    (position : ℕ) (d : Bytes) (respond : Bool)
    → position < 2 ^ 64
    → (bs : Bytes) × (emit (write_to (new_writeable_keepalive_frame position d respond)) ≡ done bs)
      × (new_keepalive_frame position d respond ≡ new_buffered_frame bs)
      × (length bs ≡ len (new_writeable_keepalive_frame position d respond))
      × (validate (new_buffered_frame bs) ≡ none)
      × (has_flag (new_buffered_frame bs) Flag.respond ≡ done respond)
      × (last_received_position (new_buffered_frame bs) ≡ done position)
      × (data_bytes (new_buffered_frame bs) ≡ done d)
unfolding write_to len new_writeable_keepalive_frame new_keepalive_frame validate
    last_received_position data_bytes emit
keepalive_round_trip position d respond hp =
    let fg = respond_flag respond in
    let rest = put_uint64 position ++ d in
    (
      write_frame_header 0 FrameType.keepalive fg ++ rest,
      rw (Header.bytes-new_frame_header 0 FrameType.keepalive fg, append_assoc),
      rw (data_if d, append_assoc),
      omega (
        arith,
        length-append (write_frame_header 0 FrameType.keepalive fg) rest,
        length-append (put_uint64 position) d,
        length-header 0 FrameType.keepalive fg,
        length-put_uint64 position,
      ),
      rw (body_len-framed 0 FrameType.keepalive fg rest) (
          ap incomplete_if (
            (ltb-false_iff _ _).1
              (omega (arith, length-append (put_uint64 position) d, length-put_uint64 position)))),
      has_flag-framed 0 FrameType.keepalive fg rest Flag.respond (omega arith)
            (respond_flag-IsFlag respond)
          ∙ ap done (check-respond_flag respond),
      rw (body-framed 0 FrameType.keepalive fg rest) (uint64-put position d hp),
      rw (body-framed 0 FrameType.keepalive fg rest)
          (slice_from-append (put_uint64 position) d 8 (sym (length-put_uint64 position))),
    )

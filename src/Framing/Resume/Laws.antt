-- ===== src/Framing/Resume/Laws.antt =====
-- A resume frame is read back as it was written, as far as its token leaves room in a uint16.
use rsocket_go.Base.{ℕ, ◌+◌, ◌%◌, ◌^◌, ◌<◌, ◌≤◌, ◌≡◌, ap, arith, ◌∙◌, sym}
use rsocket_go.Base.{[], ◌++◌, length, none, append_assoc, append-nil}
use rsocket_go.Base.{ltb-false_iff, length-append}
use rsocket_go.Base.Outcome.{
  done, panic, slice, slice_from, slice-append, slice_from-append, slice_reversed,
}
use rsocket_go.BigEndian.{
  Bytes, put_uint16, put_uint64, uint16-put, uint64-put, length-put_uint16, length-put_uint64,
}
use rsocket_go.Core.FrameType
use rsocket_go.Core.Header.{FrameHeader, frame_header_len, write_frame_header, new_frame_header}
use rsocket_go.Core.Header
use rsocket_go.Core.Version
use rsocket_go.Core.Version.{Version}
use rsocket_go.Framing.Resume.{
  resume_body, new_resume_frame, validate, version, token, token_len, last_received_server_position,
  first_available_client_position, new_writeable_resume_frame, write_to, len,
}
use rsocket_go.Framing.Program.{emit}
use rsocket_go.Framing.Buffered.{BufferedFrame, incomplete_if, new_buffered_frame}
use rsocket_go.Framing.Buffered.Laws.{framed, body-framed, body_len-framed, length-header}

length-version : (v : Version) → length (Version.bytes v) ≡ 4
unfolding Version.bytes
length-version v = omega (
  arith,
  length-append (put_uint16 v.major) (put_uint16 v.minor),
  length-put_uint16 v.major,
  length-put_uint16 v.minor,
)

module _ (v : Version) (t : Bytes) (first last : ℕ) where
  abbrev raw : Bytes
  raw = resume_body v t first last

  abbrev field : Bytes
  field = put_uint16 (length t % 2 ^ 16)

  abbrev positions : Bytes
  positions = put_uint64 last ++ put_uint64 first

  abbrev frame : BufferedFrame
  frame = framed 0 FrameType.resume 0 raw

  length-raw : length raw ≡ 22 + length t
  length-raw = omega (
    arith,
    length-append (Version.bytes v) (field ++ (t ++ positions)),
    length-append field (t ++ positions),
    length-append t positions,
    length-append (put_uint64 last) (put_uint64 first),
    length-version v,
    length-put_uint16 (length t % 2 ^ 16),
    length-put_uint64 last,
    length-put_uint64 first,
  )

  -- What stands in front of the token, and in front of the positions.
  before_token : Bytes
  before_token = Version.bytes v ++ field

  length-before_token : length before_token ≡ 6
  unfolding before_token
  length-before_token = omega (
    arith,
    length-append (Version.bytes v) field,
    length-version v,
    length-put_uint16 (length t % 2 ^ 16),
  )

  raw_at_token : raw ≡ before_token ++ (t ++ positions)
  unfolding before_token
  raw_at_token = sym (append_assoc (Version.bytes v) field (t ++ positions))

  raw_at_last : raw ≡ (before_token ++ t) ++ positions
  raw_at_last = raw_at_token ∙ sym (append_assoc before_token t positions)

  raw_at_first : raw ≡ ((before_token ++ t) ++ put_uint64 last) ++ put_uint64 first
  raw_at_first =
      raw_at_last ∙ sym (append_assoc (before_token ++ t) (put_uint64 last) (put_uint64 first))

  token_len-raw : length t < 2 ^ 16 → token_len raw ≡ done (length t)
  unfolding token_len
  token_len-raw h =
      rw
        (
          slice-append (Version.bytes v) field (t ++ positions) 4 6
              (omega (arith, length-version v))
              (omega (arith, length-version v, length-put_uint16 (length t % 2 ^ 16))),
          ← append-nil field,
          uint16-put (length t % 2 ^ 16) [] (omega arith),
        )
        (ap done (omega arith))

  length-before_last : length (before_token ++ t) ≡ 6 + length t
  length-before_last = omega (arith, length-append before_token t, length-before_token)

  length-before_first : length ((before_token ++ t) ++ put_uint64 last) ≡ 14 + length t
  length-before_first = omega (
    arith,
    length-append (before_token ++ t) (put_uint64 last),
    length-before_last,
    length-put_uint64 last,
  )

  version-frame : v.major < 2 ^ 16 → v.minor < 2 ^ 16 → version frame ≡ done v
  unfolding version Version.bytes
  version-frame hmaj hmin = rw (
    body-framed 0 FrameType.resume 0 raw,
    append_assoc (put_uint16 v.major),
    uint16-put v.major (put_uint16 v.minor ++ (field ++ (t ++ positions))) hmaj,
    slice_from-append (put_uint16 v.major) (put_uint16 v.minor ++ (field ++ (t ++ positions))) 2
        (sym (length-put_uint16 v.major)),
    uint16-put v.minor (field ++ (t ++ positions)) hmin,
  )

  token-frame : length t < 65530 → token frame ≡ done t
  unfolding token
  token-frame h =
      rw (body-framed 0 FrameType.resume 0 raw, token_len-raw (omega arith))
        (ap (λ b. slice b 6 ((6 + length t) % 65536)) raw_at_token
          ∙ slice-append before_token t positions 6 ((6 + length t) % 65536)
              (sym length-before_token) (omega (arith, length-before_token)))

  last-frame : length t < 65530 → last < 2 ^ 64 → last_received_server_position frame ≡ done last
  unfolding last_received_server_position
  last-frame h hl =
      rw (body-framed 0 FrameType.resume 0 raw, token_len-raw (omega arith), sliced)
        (uint64-put last (put_uint64 first) hl)
    where
      sliced : slice_from raw ((6 + length t) % 65536) ≡ done positions
      sliced =
          ap (λ b. slice_from b ((6 + length t) % 65536)) raw_at_last
          ∙ slice_from-append (before_token ++ t) positions ((6 + length t) % 65536)
              (omega (arith, length-before_last))

  first-frame :
      length t < 65522 → first < 2 ^ 64 → first_available_client_position frame ≡ done first
  unfolding first_available_client_position
  first-frame h hl =
      rw (body-framed 0 FrameType.resume 0 raw, token_len-raw (omega arith), sliced)
        (rw append-nil at (uint64-put first [] hl))
    where
      sliced : slice_from raw (((6 + length t) % 65536 + 8) % 65536) ≡ done (put_uint64 first)
      sliced =
          ap (λ b. slice_from b (((6 + length t) % 65536 + 8) % 65536)) raw_at_first
          ∙ slice_from-append ((before_token ++ t) ++ put_uint64 last) (put_uint64 first)
              (((6 + length t) % 65536 + 8) % 65536) (omega (arith, length-before_first))

  -- For version numbers of 16 bits, a token of less than 65522 bytes and positions of 64 bits, the
  -- bytes written for a resume frame are those of the frame built in a buffer, as many as Len
  -- says; they validate, and the version, the token and both positions are read back from them.
  pub resume_round_trip :
      v.major < 2 ^ 16
      → v.minor < 2 ^ 16
      → length t < 65522
      → first < 2 ^ 64
      → last < 2 ^ 64
      → (bs : Bytes) × (emit (write_to (new_writeable_resume_frame v t first last)) ≡ done bs)
        × (new_resume_frame v t first last ≡ done (new_buffered_frame bs))
        × (length bs ≡ len (new_writeable_resume_frame v t first last))
        × (validate (new_buffered_frame bs) ≡ none)
        × (version (new_buffered_frame bs) ≡ done v)
        × (token (new_buffered_frame bs) ≡ done t)
        × (last_received_server_position (new_buffered_frame bs) ≡ done last)
        × (first_available_client_position (new_buffered_frame bs) ≡ done first)
  unfolding write_to len new_writeable_resume_frame new_resume_frame validate emit
  resume_round_trip hmaj hmin ht hfirst hlast = (
    write_frame_header 0 FrameType.resume 0 ++ raw,
    rw (
      Header.bytes-new_frame_header 0 FrameType.resume 0,
      append_assoc,
      append_assoc,
      append_assoc,
      append_assoc,
    ),
    rw ((ltb-false_iff 65535 (length t)).1 (omega arith)),
    omega (
      arith,
      length-append (write_frame_header 0 FrameType.resume 0) raw,
      length-header 0 FrameType.resume 0,
      length-raw,
    ),
    rw (body_len-framed 0 FrameType.resume 0 raw)
        (ap incomplete_if ((ltb-false_iff _ _).1 (omega (arith, length-raw)))),
    version-frame hmaj hmin,
    token-frame (omega arith),
    last-frame (omega arith) hlast,
    first-frame ht hfirst,
  )

  -- For a token of 65530 to 65535 bytes the resume frame is built and validates, and reading its
  -- token panics.
  pub token_overflow :
      65530 ≤ length t
      → length t ≤ 65535
      → (f : BufferedFrame) × (new_resume_frame v t first last ≡ done f)
        × (validate f ≡ none)
        × (token f ≡ panic)
  unfolding new_resume_frame validate token
  token_overflow lo hi = (
    frame,
    rw ((ltb-false_iff 65535 (length t)).1 (omega arith)),
    rw (body_len-framed 0 FrameType.resume 0 raw)
        (ap incomplete_if ((ltb-false_iff _ _).1 (omega (arith, length-raw)))),
    rw (body-framed 0 FrameType.resume 0 raw, token_len-raw (omega arith))
        (slice_reversed raw 6 ((6 + length t) % 65536) (omega arith)),
  )

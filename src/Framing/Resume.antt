-- ===== src/Framing/Resume.antt =====
-- core/framing/resume.go and writeable_resume.go. Offsets behind the token are uint16 in the source, and
-- wrap.
pub mod Laws
use rsocket_go.Base.{
  ℕ, ◌+◌, ◌-◌, ◌*◌, ◌/◌, ◌%◌, ◌^◌, ◌<◌, ◌≤◌, ◌≡◌, refl, ap, arith, ◌∙◌, sym, bit_or,
}
use rsocket_go.Base.{
  Bool, true, false, not, List, [], ◌∷◌, ◌++◌, length, Option, none, some, append_assoc, append-nil,
}
use rsocket_go.Base.{if◌then◌else◌, ltb, leb, ltb-false_iff, ◌==◌, ==-refl, nonempty, length-append}
use rsocket_go.Base.Outcome.{
  Outcome, done, panic, ◌>>=◌, slice, slice_from, slice-append, slice_from-append,
}
use rsocket_go.BigEndian.{
  Bytes, put_uint16, put_uint32, put_uint64, uint16, uint32, uint64, uint16-put, uint32-put,
  uint64-put, length-put_uint16, length-put_uint32, length-put_uint64,
}
use rsocket_go.Core.FrameType
use rsocket_go.Core.Flag
use rsocket_go.Core.Types.{IsFlag, check}
use rsocket_go.Core.Header.{FrameHeader, frame_header_len, write_frame_header, new_frame_header}
use rsocket_go.Core.Header
use rsocket_go.Core.Version
use rsocket_go.Core.Version.{Version}
use rsocket_go.Framing.Program.{Program, chunk, word, ◌⨟◌, emit}
use rsocket_go.Framing.Buffered.{
  BufferedFrame, FrameError, incomplete_if, new_buffered_frame, has_flag, body, body_len, header,
}
use rsocket_go.Framing.Buffered.Laws.{
  framed, header-framed, body-framed, body_len-framed, has_flag-framed, length-header,
}

-- What follows the header: the version, the token with its length, and the two positions, the
-- server's first.
abbrev pub resume_body : Version → Bytes → ℕ → ℕ → Bytes
resume_body version token first last =
    Version.bytes version
    ++ (put_uint16 (length token % 2 ^ 16) ++ (token ++ (put_uint64 last ++ put_uint64 first)))

-- A token of more than 65535 bytes is a panic.
unfoldable pub new_resume_frame : Version → Bytes → ℕ → ℕ → Outcome BufferedFrame
new_resume_frame version token first last =
    if ltb 65535 (length token)
    then panic
    else done (
        new_buffered_frame
          (write_frame_header 0 FrameType.resume 0 ++ resume_body version token first last))

unfoldable pub validate : BufferedFrame → Option FrameError
validate f = incomplete_if (ltb (body_len f) 22)

unfoldable pub version : BufferedFrame → Outcome Version
version f = do
  raw ← body f
  major ← uint16 raw
  rest ← slice_from raw 2
  minor ← uint16 rest
  done (record { major = major; minor = minor })

unfoldable pub token_len : Bytes → Outcome ℕ
token_len raw = do field ← slice raw 4 6; uint16 field

unfoldable pub token : BufferedFrame → Outcome Bytes
unfolding token_len
token f = do raw ← body f; n ← token_len raw; slice raw 6 ((6 + n) % 2 ^ 16)

unfoldable pub last_received_server_position : BufferedFrame → Outcome ℕ
unfolding token_len
last_received_server_position f = do
  raw ← body f
  n ← token_len raw
  rest ← slice_from raw ((6 + n) % 2 ^ 16)
  uint64 rest

unfoldable pub first_available_client_position : BufferedFrame → Outcome ℕ
unfolding token_len
first_available_client_position f = do
  raw ← body f
  n ← token_len raw
  rest ← slice_from raw (((6 + n) % 2 ^ 16 + 8) % 2 ^ 16)
  uint64 rest

pub record WriteableResumeFrame : Type 0 where
  pub head : FrameHeader
  pub version : Version
  pub token : Bytes
  pub pos_first : Bytes
  pub pos_last : Bytes

unfoldable pub new_writeable_resume_frame : Version → Bytes → ℕ → ℕ → WriteableResumeFrame
new_writeable_resume_frame version token first last = record {
  head = new_frame_header 0 FrameType.resume 0;
  version = version;
  token = token;
  pos_first = put_uint64 first;
  pos_last = put_uint64 last;
}

unfoldable pub write_to : WriteableResumeFrame → Program
write_to f =
    chunk (Header.bytes f.head)
    ⨟ chunk (Version.bytes f.version)
    ⨟ word (put_uint16 (length f.token % 2 ^ 16))
    ⨟ chunk f.token
    ⨟ chunk f.pos_last
    ⨟ chunk f.pos_first

unfoldable pub len : WriteableResumeFrame → ℕ
len f = frame_header_len + 2 + 8 + 8 + 4 + length f.token

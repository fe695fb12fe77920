-- ===== src/Framing/Setup.antt =====
-- core/framing/setup.go and writeable_setup.go. Durations are numbers of nanoseconds. Offsets behind the
-- token are an int in `seekMIME` and a uint16, which wraps, in `Token`.
pub mod Fields
pub mod Reading
pub mod RoundTrip
use rsocket_go.Base.{
  ℕ, ◌+◌, ◌-◌, ◌*◌, ◌/◌, ◌%◌, ◌^◌, ◌<◌, ◌≤◌, ◌≡◌, refl, ap, arith, ◌∙◌, sym, bit_or,
}
use rsocket_go.Base.{
  Bool, true, false, not, List, [], ◌∷◌, ◌++◌, length, Option, none, some, append_assoc, append-nil,
}
use rsocket_go.Base.{if◌then◌else◌, ltb, leb, ltb-false_iff, ◌==◌, ==-refl, nonempty, length-append}
use rsocket_go.Base.Outcome.{
  Outcome, done, panic, ◌>>=◌, slice, slice_from, index, slice-append, slice_from-append,
}
use rsocket_go.BigEndian.{
  Bytes, put_uint16, put_uint32, put_uint64, uint16, uint32, uint64, uint16-put, uint32-put,
  uint64-put, length-put_uint16, length-put_uint32, length-put_uint64,
}
use rsocket_go.Common.{uint32_milliseconds}
use rsocket_go.Core.FrameType
use rsocket_go.Core.Flag
use rsocket_go.Core.Types.{IsFlag, check}
use rsocket_go.Core.Header.{FrameHeader, frame_header_len, write_frame_header, new_frame_header}
use rsocket_go.Core.Header
use rsocket_go.Core.Version
use rsocket_go.Core.Version.{Version}
use rsocket_go.Framing.Program.{Program, chunk, word, nothing, ◌⨟◌, emit}
use rsocket_go.Framing.Buffered.{
  BufferedFrame, FrameError, incomplete_if, new_buffered_frame, has_flag, body, body_len, header,
  len as frame_len, try_slice_metadata, try_slice_data,
}
use rsocket_go.Framing.Parts.{mark_metadata, write_payload, append_payload, calc_payload_frame_size}
use rsocket_go.BigEndian.{byte}
use rsocket_go.Framing.Buffered.Laws.{
  framed, header-framed, body-framed, body_len-framed, has_flag-framed, length-header,
}

-- if test { flag |= bit }
unfoldable pub mark : Bool → ℕ → ℕ → ℕ
mark test bit flag = if test then bit_or flag bit else flag

-- The two forms of a frame set the flags of resume and lease in different orders.
unfoldable pub built_flag : Bytes → Bool → ℕ
built_flag token lease = mark (nonempty token) Flag.resume (mark lease Flag.lease 0)

unfoldable pub written_flag : Bytes → Bool → ℕ
written_flag token lease = mark lease Flag.lease (mark (nonempty token) Flag.resume 0)

unfoldable pub token_field : Bytes → Bytes
token_field token = if nonempty token then put_uint16 (length token % 2 ^ 16) ++ token else []

-- The version, the two times and the token.
abbrev pub fixed_fields : Version → ℕ → ℕ → Bytes → Bytes
fixed_fields version keepalive lifetime token =
    Version.bytes version
    ++ (put_uint32 (uint32_milliseconds keepalive)
        ++ (put_uint32 (uint32_milliseconds lifetime) ++ token_field token))

abbrev pub mime_fields : Bytes → Bytes → Bytes
mime_fields mime_metadata mime_data =
    byte (length mime_metadata) ∷ (mime_metadata ++ (byte (length mime_data) ∷ mime_data))

unfoldable pub new_setup_frame :
    Version → ℕ → ℕ → Bytes → Bytes → Bytes → Bytes → Bytes → Bool → Outcome BufferedFrame
new_setup_frame version keepalive lifetime token mime_metadata mime_data d m lease = do
  payload ← append_payload d m
  let head = write_frame_header 0 FrameType.setup (mark_metadata m (built_flag token lease))
  let fields = fixed_fields version keepalive lifetime token ++ mime_fields mime_metadata mime_data
  done (new_buffered_frame ((head ++ fields) ++ payload))

-- The bound of 14 is held against the whole frame, header included.
unfoldable pub validate : BufferedFrame → Option FrameError
validate f = incomplete_if (ltb (frame_len f) 14)

unfoldable pub version : BufferedFrame → Outcome Version
version f = do
  raw ← body f
  major ← uint16 raw
  rest ← slice_from raw 2
  minor ← uint16 rest
  done (record { major = major; minor = minor })

unfoldable pub time_between_keepalive : BufferedFrame → Outcome ℕ
time_between_keepalive f = do
  raw ← body f
  rest ← slice_from raw 4
  v ← uint32 rest
  done (1_000_000 * v)

unfoldable pub max_lifetime : BufferedFrame → Outcome ℕ
max_lifetime f = do raw ← body f; rest ← slice_from raw 8; v ← uint32 rest; done (1_000_000 * v)

token_if : Bool → BufferedFrame → Outcome Bytes
token_if false f = done []
token_if true f = do
  raw ← body f
  rest ← slice_from raw 12
  n ← uint16 rest
  slice raw 14 ((14 + n) % 2 ^ 16)

unfoldable pub token : BufferedFrame → Outcome Bytes
unfolding token_if
token f = do has ← has_flag f Flag.resume; token_if has f

seek_if : Bool → BufferedFrame → Outcome ℕ
seek_if false f = done 12
seek_if true f = do raw ← body f; rest ← slice_from raw 12; l ← uint16 rest; done (14 + l)

unfoldable pub seek_mime : BufferedFrame → Outcome ℕ
unfolding seek_if
seek_mime f = do has ← has_flag f Flag.resume; seek_if has f

-- The MIME types of metadata and data.
unfoldable pub mime : BufferedFrame → Outcome (Bytes × Bytes)
unfolding seek_mime
mime f = do
  offset ← seek_mime f
  raw ← body f
  l1 ← index raw offset
  m1 ← slice raw (offset + 1) (offset + 1 + l1)
  l2 ← index raw (offset + 1 + l1)
  m2 ← slice raw (offset + 1 + l1 + 1) (offset + 1 + l1 + 1 + l2)
  done (m1, m2)

-- The offset behind both MIME types.
payload_offset : BufferedFrame → Outcome ℕ
payload_offset f = do
  offset ← seek_mime f
  (m1, m2) ← mime f
  done (offset + (2 + length m1 + length m2))

metadata_if : Bool → BufferedFrame → Outcome (Option Bytes)
unfolding payload_offset
metadata_if false f = done none
metadata_if true f = do offset ← payload_offset f; try_slice_metadata f offset

unfoldable pub metadata : BufferedFrame → Outcome (Option Bytes)
unfolding metadata_if
metadata f = do has ← has_flag f Flag.metadata; metadata_if has f

data_if : Bool → BufferedFrame → ℕ → Outcome Bytes
data_if false f offset = do raw ← body f; slice_from raw offset
data_if true f offset = try_slice_data f offset

unfoldable pub data_bytes : BufferedFrame → Outcome Bytes
unfolding payload_offset data_if
data_bytes f = do offset ← payload_offset f; has ← has_flag f Flag.metadata; data_if has f offset

pub record WriteableSetupFrame : Type 0 where
  pub head : FrameHeader
  pub version : Version
  pub keepalive : Bytes
  pub lifetime : Bytes
  pub token : Bytes
  pub mime_metadata : Bytes
  pub mime_data : Bytes
  pub metadata : Bytes
  pub data_bytes : Bytes

unfoldable pub new_writeable_setup_frame :
    Version → ℕ → ℕ → Bytes → Bytes → Bytes → Bytes → Bytes → Bool → WriteableSetupFrame
new_writeable_setup_frame version keepalive lifetime token mime_metadata mime_data d m lease =
    record {
      head = new_frame_header 0 FrameType.setup (mark_metadata m (written_flag token lease));
      version = version;
      keepalive = put_uint32 (uint32_milliseconds keepalive);
      lifetime = put_uint32 (uint32_milliseconds lifetime);
      token = token;
      mime_metadata = mime_metadata;
      mime_data = mime_data;
      metadata = m;
      data_bytes = d;
    }

-- Version.WriteTo
unfoldable pub write_version : Version → Program
write_version v = word (put_uint16 v.major) ⨟ word (put_uint16 v.minor)

unfoldable pub write_to : WriteableSetupFrame → Program
unfolding write_version
write_to s =
    chunk (Header.bytes s.head)
    ⨟ write_version s.version
    ⨟ chunk s.keepalive
    ⨟ chunk s.lifetime
    ⨟ (if check (Header.flag s.head) Flag.resume
        then word (put_uint16 (length s.token % 2 ^ 16)) ⨟ chunk s.token
        else nothing)
    ⨟ chunk (byte (length s.mime_metadata) ∷ [])
    ⨟ chunk s.mime_metadata
    ⨟ chunk (byte (length s.mime_data) ∷ [])
    ⨟ chunk s.mime_data
    ⨟ write_payload s.data_bytes s.metadata

unfoldable pub len : WriteableSetupFrame → ℕ
len s =
    let n =
      14
      + calc_payload_frame_size s.data_bytes s.metadata
      + length s.mime_data
      + length s.mime_metadata in
    if nonempty s.token then n + (2 + length s.token) else n

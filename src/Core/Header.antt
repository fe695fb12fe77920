-- ===== src/Core/Header.antt =====
-- core/header.go: the six bytes in front of every frame.
use rsocket_go.Base.{ℕ, ◌+◌, ◌*◌, ◌/◌, ◌%◌, ◌^◌, ◌<◌, ◌≡◌, refl, arith}
use rsocket_go.Base.{Bool, ◌||◌, [], ◌∷◌, ◌++◌, length, ◌==◌, bit_and, bit_or}
use rsocket_go.Base.Bits.{bit_and-ones, bit_and_shifted, bit_or_shifted}
use rsocket_go.Base.Outcome.{Outcome, done, panic}
use rsocket_go.BigEndian.{Bytes, byte, put_uint16, put_uint32}
use rsocket_go.Core.FrameType
use rsocket_go.Core.Types.{IsFlag}

abbrev pub frame_header_len : ℕ
frame_header_len = 6

-- [6]byte
pub record FrameHeader : Type 0 where
  pub h0 : ℕ
  pub h1 : ℕ
  pub h2 : ℕ
  pub h3 : ℕ
  pub h4 : ℕ
  pub h5 : ℕ

unfoldable pub bytes : FrameHeader → Bytes
bytes h = h.h0 ∷ h.h1 ∷ h.h2 ∷ h.h3 ∷ h.h4 ∷ h.h5 ∷ []

unfoldable pub stream_id : FrameHeader → ℕ
stream_id h = h.h0 * 2 ^ 24 + h.h1 * 2 ^ 16 + h.h2 * 2 ^ 8 + h.h3

-- The last two bytes as a word: six bits of type, then ten of flags.
unfoldable pub n : FrameHeader → ℕ
n h = h.h4 * 2 ^ 8 + h.h5

unfoldable pub type : FrameHeader → ℕ
unfolding n
type h = byte (bit_and (n h) 0xFC00 / 2 ^ 10)

unfoldable pub flag : FrameHeader → ℕ
unfolding n
flag h = bit_and (n h) 0x03FF

resumable_type : ℕ → Bool
resumable_type t =
    t == FrameType.request_channel
    || t == FrameType.request_stream
    || t == FrameType.request_response
    || t == FrameType.request_fnf
    || t == FrameType.request_n
    || t == FrameType.cancel
    || t == FrameType.error
    || t == FrameType.payload

unfoldable pub resumable : FrameHeader → Bool
unfolding resumable_type
resumable h = resumable_type (type h)

-- uint16(frameType)<<10 | uint16(fg)
unfoldable pub type_and_flags : ℕ → ℕ → ℕ
type_and_flags t fg = bit_or (t * 2 ^ 10 % 2 ^ 16) fg

unfoldable pub new_frame_header : ℕ → ℕ → ℕ → FrameHeader
unfolding type_and_flags
new_frame_header sid t fg =
    let w = type_and_flags t fg in
    record {
      h0 = byte (sid / 2 ^ 24);
      h1 = byte (sid / 2 ^ 16);
      h2 = byte (sid / 2 ^ 8);
      h3 = byte sid;
      h4 = byte (w / 2 ^ 8);
      h5 = byte w;
    }

-- Both words go to the writer one after the other.
unfoldable pub write_frame_header : ℕ → ℕ → ℕ → Bytes
unfolding type_and_flags
write_frame_header sid t fg = put_uint32 sid ++ put_uint16 (type_and_flags t fg)

unfoldable pub parse_frame_header : Bytes → Outcome FrameHeader
parse_frame_header (a ∷ b ∷ c ∷ d ∷ e ∷ f ∷ rest) =
    done (record { h0 = a; h1 = b; h2 = c; h3 = d; h4 = e; h5 = f })
parse_frame_header _ = panic

-- The type word is a sum where type and flags fit their fields.
pub type_and_flags_sum : (t fg : ℕ) → t < 2 ^ 6 → IsFlag fg → type_and_flags t fg ≡ t * 2 ^ 10 + fg
unfolding type_and_flags
type_and_flags_sum t fg ht hf = rw (fits) (bit_or_shifted 10 t fg hf)
  where
    fits : t * 2 ^ 10 % 2 ^ 16 ≡ t * 2 ^ 10
    fits = omega arith

type_mask : (w : ℕ) → w < 2 ^ 16 → bit_and w 0xFC00 / 2 ^ 10 ≡ w / 2 ^ 10
type_mask w h = omega (arith, bit_and_shifted 10 w 63, bit_and-ones 6 (w / 2 ^ 10))

module _ (sid t fg : ℕ) (sid_fits : sid < 2 ^ 32) (t_fits : t < 2 ^ 6) (fg_fits : IsFlag fg) where
  pub stream_id-new : stream_id (new_frame_header sid t fg) ≡ sid
  unfolding stream_id new_frame_header
  stream_id-new = omega arith

  n-new : n (new_frame_header sid t fg) ≡ t * 2 ^ 10 + fg
  unfolding n new_frame_header
  n-new = rw (type_and_flags_sum t fg t_fits fg_fits) (omega arith)

  pub type-new : type (new_frame_header sid t fg) ≡ t
  type-new = unfold type in rw (n-new, type_mask (t * 2 ^ 10 + fg) (omega arith)) (omega arith)

  pub flag-new : flag (new_frame_header sid t fg) ≡ fg
  flag-new = unfold flag in rw (n-new, bit_and-ones 10 (t * 2 ^ 10 + fg)) (omega arith)

-- The header as an array and as two words on a writer are the same six bytes.
pub bytes-new_frame_header :
    (sid t fg : ℕ) → bytes (new_frame_header sid t fg) ≡ write_frame_header sid t fg
unfolding bytes new_frame_header write_frame_header put_uint32 put_uint16
bytes-new_frame_header sid t fg = refl

pub parse-bytes : (h : FrameHeader) (rest : Bytes) → parse_frame_header (bytes h ++ rest) ≡ done h
unfolding parse_frame_header bytes
parse-bytes h rest = refl

pub length-bytes : (h : FrameHeader) → length (bytes h) ≡ frame_header_len
unfolding bytes
length-bytes h = refl

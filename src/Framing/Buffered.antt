-- ===== src/Framing/Buffered.antt =====
-- core/framing/buffered.go: a received frame over a pooled buffer, counted by references.
pub mod Laws
pub mod Refs
pub mod Shared
use rsocket_go.Base.{ℕ, zero, suc, ◌+◌, ◌-◌, ◌*◌, ◌%◌, ◌^◌, ◌<◌, ◌≤◌, ◌≡◌, refl, ap, arith, bit_and}
use rsocket_go.Base.{Bool, true, false, ◌&&◌, List, [], ◌∷◌, ◌++◌, length, Option, none, some}
use rsocket_go.Base.{ltb, leb, ◌==◌, if◌then◌else◌}
use rsocket_go.Base.Int.{ℤ, pos, negsuc, pred_ℤ, suc_ℤ, is_positive}
use rsocket_go.Base.Outcome.{Outcome, done, panic, ◌>>=◌, slice, slice_from}
use rsocket_go.BigEndian.{Bytes, uint16, uint32}
use rsocket_go.U24.{Uint24, as_int, new_uint24_bytes}
use rsocket_go.Core.Flag
use rsocket_go.Core.Header.{FrameHeader, frame_header_len, parse_frame_header}

-- errIncompleteFrame of core/framing/frame.go and ErrInvalidFrame of core/errors.go
pub data FrameError : Type 0 where
  incomplete_frame invalid_frame : FrameError

-- if test { err = errIncompleteFrame }
abbrev pub incomplete_if : Bool → Option FrameError
incomplete_if true = some incomplete_frame
incomplete_if false = none

abbrev pub metadata_length_field_size : ℕ
metadata_length_field_size = 3

-- `inner` is `none` once the buffer went back to its pool; `returned` counts how often it did.
pub record BufferedFrame : Type 0 where
  pub inner : Option Bytes
  pub refs : ℤ
  pub returned : ℕ

unfoldable pub new_buffered_frame : Bytes → BufferedFrame
new_buffered_frame inner = record { inner = some inner; refs = pos 1; returned = 0 }

unfoldable pub inc_ref : BufferedFrame → BufferedFrame
inc_ref f = record f { refs = suc_ℤ f.refs }

-- The buffer returns to the pool once: the swap of `innerPtr` leaves none for a later call.
unfoldable pub give_back : Option Bytes → BufferedFrame → BufferedFrame
give_back none f = f
give_back (some b) f = record f { inner = none; returned = suc f.returned }

unfoldable pub release : BufferedFrame → BufferedFrame
unfolding give_back
release f =
    let g = record f { refs = pred_ℤ f.refs } in
    if is_positive g.refs then g else give_back g.inner g

unfoldable pub or_released : Option Bytes → Outcome Bytes
or_released none = panic
or_released (some b) = done b

unfoldable pub header : BufferedFrame → Outcome FrameHeader
unfolding or_released
header f = do b ← or_released f.inner; parse_frame_header b

unfoldable pub has_flag : BufferedFrame → ℕ → Outcome Bool
unfolding or_released
has_flag f flag = do
  b ← or_released f.inner
  word ← slice b 4 6
  n ← uint16 word
  done (bit_and (bit_and n 0x03FF) flag == flag)

unfoldable pub stream_id : BufferedFrame → Outcome ℕ
unfolding or_released
stream_id f = do b ← or_released f.inner; uint32 b

-- A released frame has no body; one below the header's length is an index out of range.
body_of : Option Bytes → Outcome Bytes
body_of none = done []
body_of (some b) = slice_from b frame_header_len

unfoldable pub body : BufferedFrame → Outcome Bytes
unfolding body_of
body f = body_of f.inner

len_of : Option Bytes → ℕ
len_of none = 0
len_of (some b) = length b

unfoldable pub len : BufferedFrame → ℕ
unfolding len_of
len f = len_of f.inner

unfoldable pub body_len : BufferedFrame → ℕ
unfolding len
body_len f = if ltb frame_header_len (len f) then len f - frame_header_len else 0

-- The length field's value, or -1, and whether there is metadata.
metadata_len : Bool → Bytes → Outcome (ℤ × Bool)
metadata_len false raw = done (pos 0, false)
metadata_len true raw =
    if ltb (length raw) metadata_length_field_size
    then done (negsuc 0, true)
    else (do u ← new_uint24_bytes raw; done (pos (as_int u), true))

unfoldable pub try_seek_metadata_len : BufferedFrame → ℕ → Outcome (ℤ × Bool)
unfolding metadata_len
try_seek_metadata_len f offset = do
  raw ← body f
  if leb (length raw) offset
      then done (negsuc 0, false)
      else (do rest ← slice_from raw offset; has ← has_flag f Flag.metadata; metadata_len has rest)

-- A nil slice with `false` is `none`.
slice_metadata : BufferedFrame → ℕ → ℤ × Bool → Outcome (Option Bytes)
slice_metadata f offset (n, false) = done none
slice_metadata f offset (negsuc n, true) = done none
slice_metadata f offset (pos n, true) = do
  b ← body f
  let start = offset + metadata_length_field_size
  if ltb (length b) (start + n)
      then done none
      else (do m ← slice b start (start + n); done (some m))

unfoldable pub try_slice_metadata : BufferedFrame → ℕ → Outcome (Option Bytes)
unfolding slice_metadata
try_slice_metadata f offset = do
  found ← try_seek_metadata_len f offset
  slice_metadata f offset found

-- A nil slice and an empty one are the same list.
slice_data : BufferedFrame → ℕ → ℤ × Bool → Outcome Bytes
slice_data f offset (n, false) = do
  b ← body f
  if ltb (length b) offset then done [] else slice_from b offset
slice_data f offset (negsuc n, true) = done []
slice_data f offset (pos n, true) = do
  b ← body f
  let start = offset + metadata_length_field_size
  if ltb (length b) (start + n) then done [] else slice_from b (start + n)

unfoldable pub try_slice_data : BufferedFrame → ℕ → Outcome Bytes
unfolding slice_data
try_slice_data f offset = do found ← try_seek_metadata_len f offset; slice_data f offset found

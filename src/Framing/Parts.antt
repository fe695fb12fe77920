-- ===== src/Framing/Parts.antt =====
-- What the frame types share: metadata and data behind a header, as received and as written.
-- core/framing/misc.go (writePayload), core/framing/frame.go (CalcPayloadFrameSize).
use rsocket_go.Base.{ℕ, ◌+◌, ◌≤◌, ◌<◌, ◌≡◌, refl, ap, arith, bit_or, ◌∙◌, sym}
use rsocket_go.Base.{false, [], ◌∷◌, ◌++◌, length, Option, none, some}
use rsocket_go.Base.{nonempty, if◌then◌else◌, length-append}
use native.Mathlib.Decide.{dec_le}
use rsocket_go.Base.Int.{pos}
use rsocket_go.Base.Outcome.{Outcome, done, panic, ◌>>=◌}
use rsocket_go.BigEndian.{Bytes}
use rsocket_go.U24.{
  Uint24, Error, max_uint24, must_new_uint24, write_uint24, length_field, must_new_uint24_fits,
  must_new_uint24_exceeds, write_uint24_fits, write_uint24_exceeds, length-length_field,
}
use rsocket_go.U24
use rsocket_go.Core.Flag
use rsocket_go.Core.Types.{check, IsFlag, check-set_metadata, set_metadata-IsFlag}
use rsocket_go.Core.Header.{frame_header_len}
use rsocket_go.Framing.Program.{Program, nothing, chunk, ◌⨟◌, crash, emit}

-- if len(metadata) > 0 { flag |= core.FlagMetadata }
unfoldable pub mark_metadata : Bytes → ℕ → ℕ
mark_metadata metadata flag = if nonempty metadata then bit_or flag Flag.metadata else flag

unfoldable pub calc_payload_frame_size : Bytes → Bytes → ℕ
calc_payload_frame_size data' metadata =
    let size = frame_header_len + length data' in
    if nonempty metadata then size + (3 + length metadata) else size

-- `Uint24.WriteTo`, behind the panic of `MustNewUint24`.
unfoldable pub write_length : Outcome Uint24 → Program
write_length (done u) = chunk (U24.bytes u)
write_length panic = crash

unfoldable pub write_payload : Bytes → Bytes → Program
unfolding write_length
write_payload data' metadata =
    (if nonempty metadata
      then write_length (must_new_uint24 (pos (length metadata))) ⨟ chunk metadata
      else nothing)
    ⨟ (if nonempty data' then chunk data' else nothing)

-- In a buffer nothing fails but the length, and that panics.
append_metadata : Bytes × Option Error → Bytes → Outcome Bytes
append_metadata (field, none) metadata = done (field ++ metadata)
append_metadata (field, some e) metadata = panic

unfoldable pub append_payload : Bytes → Bytes → Outcome Bytes
unfolding append_metadata
append_payload data' metadata = do
  front ←
      if nonempty metadata
      then append_metadata (write_uint24 (pos (length metadata))) metadata
      else done []
  done (front ++ (if nonempty data' then data' else []))

-- The layout: the metadata's length, the metadata, the data.
unfoldable pub metadata_field : Bytes → Bytes
metadata_field [] = []
metadata_field (m ∷ ms) = length_field (length (m ∷ ms)) ++ (m ∷ ms)

abbrev pub payload_field : Bytes → Bytes → Bytes
payload_field data' metadata = metadata_field metadata ++ data'

data_part : (d : Bytes) → (if nonempty d then d else []) ≡ d
data_part [] = refl
data_part (x ∷ xs) = refl

emit_data : (d : Bytes) → emit (if nonempty d then chunk d else nothing) ≡ done d
unfolding emit
emit_data [] = refl
emit_data (x ∷ xs) = refl

emit-write_length :
    (o : Outcome Uint24) (metadata : Bytes)
    → emit (write_length o ⨟ chunk metadata)
      ≡ ((o >>= λ u. done (U24.bytes u)) >>= λ field. done (field ++ metadata))
unfolding emit write_length
emit-write_length (done u) metadata = refl
emit-write_length panic metadata = refl

pub emit-write_payload :
    (d m : Bytes) → length m ≤ max_uint24 → emit (write_payload d m) ≡ done (payload_field d m)
unfolding write_payload emit metadata_field
emit-write_payload d [] h = rw (emit_data d)
emit-write_payload d (x ∷ xs) h = rw (
  emit_data d,
  emit-write_length (must_new_uint24 (pos (length (x ∷ xs)))) (x ∷ xs),
  must_new_uint24_fits (length (x ∷ xs)) h,
)

pub emit-write_payload_exceeds :
    (d m : Bytes) → max_uint24 < length m → emit (write_payload d m) ≡ panic
unfolding write_payload emit write_length
emit-write_payload_exceeds d [] h = absurd (omega arith)
emit-write_payload_exceeds d (x ∷ xs) h = rw (must_new_uint24_exceeds (length (x ∷ xs)) h)

append_payload_fits :
    (d m : Bytes) → length m ≤ max_uint24 → append_payload d m ≡ done (payload_field d m)
unfolding append_payload metadata_field
append_payload_fits d [] h = ap done (data_part d)
append_payload_fits d (x ∷ xs) h =
    rw (write_uint24_fits (length (x ∷ xs)) h)
      (ap (λ e. done (metadata_field (x ∷ xs) ++ e)) (data_part d))

append_payload_exceeds : (d m : Bytes) → max_uint24 < length m → append_payload d m ≡ panic
unfolding append_payload
append_payload_exceeds d [] h = absurd (omega arith)
append_payload_exceeds d (x ∷ xs) h = rw (write_uint24_exceeds (length (x ∷ xs)) h)

-- A frame built in a buffer and one that is written carry the same payload, also where the
-- metadata is too long for its length field and both panic.
pub append-write_payload : (d m : Bytes) → append_payload d m ≡ emit (write_payload d m)
append-write_payload d m = elim (dec_le (length m) max_uint24) [
  | yes h ↦ append_payload_fits d m h ∙ sym (emit-write_payload d m h)
  | no h ↦
      append_payload_exceeds d m (omega arith) ∙ sym (emit-write_payload_exceeds d m (omega arith))
]

pub length-payload_field :
    (d m : Bytes) → frame_header_len + length (payload_field d m) ≡ calc_payload_frame_size d m
unfolding metadata_field calc_payload_frame_size
length-payload_field d [] = omega arith
length-payload_field d (x ∷ xs) = omega (
  arith,
  length-append (length_field (length (x ∷ xs)) ++ (x ∷ xs)) d,
  length-append (length_field (length (x ∷ xs))) (x ∷ xs),
  length-length_field (length (x ∷ xs)),
)

-- The flag of a frame that `payload_field d m` follows: metadata is announced exactly when there is
-- some, given that the caller announces none by itself.
abbrev pub Announces : Bytes → ℕ → Type 0
Announces m flag = check flag Flag.metadata ≡ nonempty m

abbrev pub Allows : Bytes → ℕ → Type 0
Allows m flag = (nonempty m ≡ false) → check flag Flag.metadata ≡ false

pub mark_metadata-Announces :
    (m : Bytes) (flag : ℕ) → IsFlag flag → Allows m flag → Announces m (mark_metadata m flag)
unfolding mark_metadata
mark_metadata-Announces [] flag h none_set = none_set refl
mark_metadata-Announces (x ∷ xs) flag h none_set = check-set_metadata flag h

pub mark_metadata-IsFlag : (m : Bytes) (flag : ℕ) → IsFlag flag → IsFlag (mark_metadata m flag)
unfolding mark_metadata
mark_metadata-IsFlag [] flag h = h
mark_metadata-IsFlag (x ∷ xs) flag h = set_metadata-IsFlag flag h

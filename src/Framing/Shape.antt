-- ===== src/Framing/Shape.antt =====
-- What the frame types with metadata and data have in common, for a frame type `t` with its own
-- `fields` between header and payload.
use rsocket_go.Base.{ℕ, ◌+◌, ◌^◌, ◌<◌, ◌≤◌, ◌≡◌, refl, ap, arith, ◌∙◌, sym}
use rsocket_go.Base.{true, false, ◌&&◌, [], ◌∷◌, ◌++◌, length, Option, none, some, nonempty}
use rsocket_go.Base.{if◌then◌else◌, length-append, append_assoc, ltb, ltb-false_iff}
use rsocket_go.Base.Outcome.{Outcome, done, panic, ◌>>=◌}
use rsocket_go.BigEndian.{Bytes}
use rsocket_go.U24.{max_uint24, length_field, length-length_field}
use rsocket_go.Core.Flag
use rsocket_go.Core.Types.{IsFlag}
use rsocket_go.Core.Header.{FrameHeader, frame_header_len, write_frame_header, new_frame_header}
use rsocket_go.Core.Header
use rsocket_go.Framing.Program.{chunk, ◌⨟◌, emit, emit-⨟, length-emit-⨟, length-emit_chunk}
use native.Mathlib.Decide.{dec_le}
use rsocket_go.Framing.Parts.{
  payload_field, metadata_field, write_payload, append_payload, mark_metadata, Allows,
  mark_metadata-Announces, mark_metadata-IsFlag, emit-write_payload, emit-write_payload_exceeds,
  append-write_payload, calc_payload_frame_size, length-payload_field,
}
use rsocket_go.Framing.Buffered.{
  BufferedFrame, new_buffered_frame, has_flag, body_len, try_slice_metadata, try_slice_data,
}
use rsocket_go.Framing.Buffered.Laws.{
  framed, has_flag-framed, body_len-framed, try_slice_metadata-framed, try_slice_data-framed,
}

-- The metadata that a reader reports: absent where it is empty.
abbrev pub reported : Bytes → Option Bytes
reported m = if nonempty m then some m else none

pub payload_field_long : (d m : Bytes) → nonempty m ≡ true → 3 ≤ length (payload_field d m)
unfolding metadata_field
payload_field_long d [] h = cc
payload_field_long d (x ∷ xs) h = omega (
  arith,
  length-append (length_field (length (x ∷ xs)) ++ (x ∷ xs)) d,
  length-append (length_field (length (x ∷ xs))) (x ∷ xs),
  length-length_field (length (x ∷ xs)),
)

-- No frame that announces its metadata is too short for the length field.
pub payload_complete :
    (d m : Bytes) (k n : ℕ)
    → n ≡ k + length (payload_field d m)
    → (nonempty m && ltb n (k + 3)) ≡ false
payload_complete d [] k n e = refl
payload_complete d (x ∷ xs) k n e =
    (ltb-false_iff _ _).1 (omega (arith, payload_field_long d (x ∷ xs) refl))

module _ (sid t flag : ℕ) (fields d m : Bytes) (ht : t < 2 ^ 6) (hf : IsFlag flag)
    (allows : Allows m flag) (hm : length m ≤ max_uint24) where
  abbrev pub shape : BufferedFrame
  shape = framed sid t (mark_metadata m flag) (fields ++ payload_field d m)

  pub has_metadata-shape : has_flag shape Flag.metadata ≡ done (nonempty m)
  has_metadata-shape =
      has_flag-framed sid t (mark_metadata m flag) (fields ++ payload_field d m) Flag.metadata ht
        (mark_metadata-IsFlag m flag hf)
      ∙ ap done (mark_metadata-Announces m flag hf allows)

  pub metadata-shape : try_slice_metadata shape (length fields) ≡ done (reported m)
  metadata-shape =
      try_slice_metadata-framed sid t (mark_metadata m flag) fields d ht
        (mark_metadata-IsFlag m flag hf) m (mark_metadata-Announces m flag hf allows) hm

  pub data-shape : try_slice_data shape (length fields) ≡ done d
  data-shape =
      try_slice_data-framed sid t (mark_metadata m flag) fields d ht
        (mark_metadata-IsFlag m flag hf) m (mark_metadata-Announces m flag hf allows) hm

  pub body_len-shape : body_len shape ≡ length fields + length (payload_field d m)
  body_len-shape =
      body_len-framed sid t (mark_metadata m flag) (fields ++ payload_field d m)
      ∙ length-append fields (payload_field d m)

-- What a `WriteTo` emits that writes its header and then the payload, or its fields in between.
module _ (sid t flag : ℕ) (d m : Bytes) (hm : length m ≤ max_uint24) where
  pub emit-header_payload :
      emit (chunk (Header.bytes (new_frame_header sid t flag)) ⨟ write_payload d m)
      ≡ done (write_frame_header sid t flag ++ payload_field d m)
  unfolding emit
  emit-header_payload = rw (emit-write_payload d m hm, Header.bytes-new_frame_header sid t flag)

  pub emit-header_fields_payload :
      (fields : Bytes)
      → emit (chunk (Header.bytes (new_frame_header sid t flag)) ⨟ chunk fields ⨟ write_payload d m)
        ≡ done (write_frame_header sid t flag ++ (fields ++ payload_field d m))
  unfolding emit
  emit-header_fields_payload fields =
      rw (emit-write_payload d m hm, Header.bytes-new_frame_header sid t flag, append_assoc)

-- The payload that is written is as long as the frame size says, header apart.
pub length-emit-write_payload :
    (d m bs : Bytes)
    → emit (write_payload d m) ≡ done bs
    → frame_header_len + length bs ≡ calc_payload_frame_size d m
length-emit-write_payload d m bs e = elim (dec_le (length m) max_uint24) [
  | yes fits ↦
      let same : done bs ≡ done (payload_field d m) = sym e ∙ emit-write_payload d m fits in
      ground (arith, same, length-payload_field d m)
  | no exceeds ↦ cc (e, emit-write_payload_exceeds d m (omega arith))
]

pub length-emit_header_payload :
    (h : FrameHeader) (d m bs : Bytes)
    → emit (chunk (Header.bytes h) ⨟ write_payload d m) ≡ done bs
    → length bs ≡ calc_payload_frame_size d m
length-emit_header_payload h d m bs e =
    let (a, b, ep, eq, es) = emit-⨟ (chunk (Header.bytes h)) (write_payload d m) e in
    rw (es, length-append a b)
      (omega (
        arith,
        length-emit_chunk (Header.bytes h) a ep,
        Header.length-bytes h,
        length-emit-write_payload d m b eq,
      ))

pub length-emit_header_fields_payload :
    (h : FrameHeader) (fields d m bs : Bytes)
    → emit (chunk (Header.bytes h) ⨟ chunk fields ⨟ write_payload d m) ≡ done bs
    → length bs ≡ length fields + calc_payload_frame_size d m
length-emit_header_fields_payload h fields d m bs e =
    let (a, b, ep, eq, es) = emit-⨟ (chunk (Header.bytes h) ⨟ chunk fields) (write_payload d m) e in
    rw (es, length-append a b)
      (omega (
        arith,
        length-emit-⨟ (chunk (Header.bytes h)) (chunk fields) 6 (length fields)
            (λ x ex. length-emit_chunk (Header.bytes h) x ex ∙ Header.length-bytes h)
            (λ x ex. length-emit_chunk fields x ex) ep,
        length-emit-write_payload d m b eq,
      ))

-- A frame built in a buffer is the frame of the bytes that are written, or both panic.
both_ways :
    (head : Bytes) (o : Outcome Bytes)
    → (o >>= λ p. done (new_buffered_frame (head ++ p)))
      ≡ ((o >>= λ p. done (head ++ p)) >>= λ bs. done (new_buffered_frame bs))
both_ways head (done p) = refl
both_ways head panic = refl

pub built-header_payload :
    (sid t flag : ℕ) (d m : Bytes)
    → (append_payload d m >>= λ p. done (new_buffered_frame (write_frame_header sid t flag ++ p)))
      ≡ (emit (chunk (Header.bytes (new_frame_header sid t flag)) ⨟ write_payload d m) >>= λ bs.
          done (new_buffered_frame bs))
unfolding emit
built-header_payload sid t flag d m =
    rw (append-write_payload d m, Header.bytes-new_frame_header sid t flag)
      (both_ways (write_frame_header sid t flag) (emit (write_payload d m)))

pub built-header_fields_payload :
    (sid t flag : ℕ) (fields d m : Bytes)
    → (append_payload d m >>= λ p.
        done (new_buffered_frame ((write_frame_header sid t flag ++ fields) ++ p)))
      ≡ (emit
            (chunk (Header.bytes (new_frame_header sid t flag)) ⨟ chunk fields ⨟ write_payload d m)
          >>= λ bs. done (new_buffered_frame bs))
unfolding emit
built-header_fields_payload sid t flag fields d m =
    rw (append-write_payload d m, Header.bytes-new_frame_header sid t flag)
      (both_ways (write_frame_header sid t flag ++ fields) (emit (write_payload d m)))

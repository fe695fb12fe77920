-- ===== src/Framing/Convert.antt =====
-- core/framing/frame.go (FromBytes) and convert of core/framing/misc.go.
pub mod Written
use rsocket_go.Base.{ℕ, ◌^◌, ◌≤◌, ◌<◌, ◌≡◌, refl, ap, arith, ◌∙◌}
use rsocket_go.Base.{◌∷◌, ◌++◌, length, Option, none, some, length-append}
use rsocket_go.Base.{ltb, ltb-false_iff, ◌==◌, if◌then◌else◌, Bool-cases, inl, inr}
use rsocket_go.Base.Outcome.{Outcome, done, ◌>>=◌}
use rsocket_go.BigEndian.{Bytes}
use rsocket_go.Core.FrameType
use rsocket_go.Core.Header
use rsocket_go.Core.Header.{
  FrameHeader, frame_header_len, write_frame_header, parse_frame_header, type-new,
}
use rsocket_go.Framing.Buffered.{
  BufferedFrame, FrameError, incomplete_frame, invalid_frame, new_buffered_frame, header,
}
use rsocket_go.Framing.Buffered.Laws.{header-framed, length-header}
use rsocket_go.Core.Types.{IsFlag}

-- The frame type that wraps the buffer.
pub data Kind : Type 0 where
  setup_frame keepalive_frame request_response_frame fire_and_forget_frame : Kind
  request_stream_frame request_channel_frame cancel_frame payload_frame : Kind
  metadata_push_frame error_frame request_n_frame lease_frame resume_frame resume_ok_frame : Kind

unfoldable pub kind_of : ℕ → Option Kind
kind_of t =
    if t == FrameType.setup
    then some setup_frame
    else if t == FrameType.keepalive
    then some keepalive_frame
    else if t == FrameType.request_response
    then some request_response_frame
    else if t == FrameType.request_fnf
    then some fire_and_forget_frame
    else if t == FrameType.request_stream
    then some request_stream_frame
    else if t == FrameType.request_channel
    then some request_channel_frame
    else if t == FrameType.cancel
    then some cancel_frame
    else if t == FrameType.payload
    then some payload_frame
    else if t == FrameType.metadata_push
    then some metadata_push_frame
    else if t == FrameType.error
    then some error_frame
    else if t == FrameType.request_n
    then some request_n_frame
    else if t == FrameType.lease
    then some lease_frame
    else if t == FrameType.resume
    then some resume_frame
    else if t == FrameType.resume_ok
    then some resume_ok_frame
    else none

pub data Received : Type 0 where
  frame : Kind → BufferedFrame → Received
  failed : FrameError → Received

abbrev wrap : Option Kind → BufferedFrame → Received
wrap none f = failed invalid_frame
wrap (some k) f = frame k f

unfoldable pub convert : BufferedFrame → Outcome Received
convert f = do h ← header f; done (wrap (kind_of (Header.type h)) f)

-- The pooled buffer takes every write; where there is an error it goes back to its pool.
unfoldable pub from_bytes : Bytes → Outcome Received
unfolding convert
from_bytes b =
    if ltb (length b) frame_header_len
    then done (failed incomplete_frame)
    else convert (new_buffered_frame b)

-- A header and any bytes behind it.
pub from_bytes-kind :
    (sid t flag : ℕ) (body : Bytes) (k : Kind)
    → sid < 2 ^ 32
    → t < 2 ^ 6
    → IsFlag flag
    → kind_of t ≡ some k
    → from_bytes (write_frame_header sid t flag ++ body)
      ≡ done (frame k (new_buffered_frame (write_frame_header sid t flag ++ body)))
unfolding from_bytes convert
from_bytes-kind sid t flag body k hs ht hf e =
    ap (λ b. if b then done (failed incomplete_frame) else convert (new_buffered_frame bs))
      ((ltb-false_iff (length bs) frame_header_len).1 (
        omega
          (arith, length-append (write_frame_header sid t flag) body, length-header sid t flag)))
    ∙ ap (λ o. o >>= λ h. done (wrap (kind_of (Header.type h)) (new_buffered_frame bs)))
        (header-framed sid t flag body)
    ∙ ap (λ u. done (wrap (kind_of u) (new_buffered_frame bs))) (type-new sid t flag hs ht hf)
    ∙ ap (λ o. done (wrap o (new_buffered_frame bs))) e
  where
    bs : Bytes
    bs = write_frame_header sid t flag ++ body

header_total :
    (b : Bytes)
    → frame_header_len ≤ length b
    → (h : FrameHeader) × (header (new_buffered_frame b) ≡ done h)
unfolding header new_buffered_frame parse_frame_header
header_total (x0 ∷ x1 ∷ x2 ∷ x3 ∷ x4 ∷ x5 ∷ rest) h =
    (record { h0 = x0; h1 = x1; h2 = x2; h3 = x3; h4 = x4; h5 = x5 }, refl)
header_total _ h = absurd (omega arith)

-- On any bytes FromBytes returns a frame or an error and does not panic.
pub from_bytes_total : (b : Bytes) → (r : Received) × (from_bytes b ≡ done r)
unfolding from_bytes convert
from_bytes_total b = elim (Bool-cases (ltb (length b) frame_header_len)) [
  | inl short ↦ (
    failed incomplete_frame,
    ap (λ c. if c then done (failed incomplete_frame) else convert (new_buffered_frame b)) short,
  )
  | inr long ↦
      let (h, e) = header_total b ((ltb-false_iff (length b) frame_header_len).0 long) in
      (
        wrap (kind_of (Header.type h)) (new_buffered_frame b),
        ap (λ c. if c then done (failed incomplete_frame) else convert (new_buffered_frame b)) long
            ∙ ap (λ o. o >>= λ h. done (wrap (kind_of (Header.type h)) (new_buffered_frame b))) e,
      )
]

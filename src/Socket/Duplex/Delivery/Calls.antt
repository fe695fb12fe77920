-- ===== src/Socket/Duplex/Delivery/Calls.antt =====
-- The calls of a requester and what the responder of the other side is called with.
use rsocket_go.Base.{ℕ, ◌+◌, ◌≡◌, refl, sym, arith}
use rsocket_go.Base.{true, false, Option, none, suc}
use rsocket_go.Base.{◌≤◌, ltb-false_iff}
use mathlib.Core.Path.{subst}
use rsocket_go.Base.Outcome.{done}
use rsocket_go.Core.FrameType
use rsocket_go.Core.Types.{check}
use rsocket_go.Framing.Parts.{calc_payload_frame_size}
use rsocket_go.Fragmentation.Splitter.{is_valid_fragment}
use rsocket_go.Socket.Duplex.{
  call_request_stream, emits, request_stream_frame, request_response_frame, Hook, Payload,
  request_response_callback, Responder, DuplexConnection, register,
}
use rsocket_go.Socket.Duplex.Sending.{
  metadata_bytes, inc_payload, release_hook, send_request, request_response_on,
}
use rsocket_go.Socket.Duplex.Receiving.{route, respond_request_response}
use rsocket_go.Socket.Duplex.Wire.{fragment_of}
use rsocket_go.Socket.Duplex.Delivery.Flags.{plain-Keeps}
use rsocket_go.Base.Int.{pos}
use rsocket_go.Socket.Duplex.Requests.{Hooks, to_uint32_request_n, stream_requested}
use rsocket_go.Socket.Duplex.Receiving.{
  respond_request_stream, extract_request_stream_init_n, answer_request_stream,
}
use rsocket_go.Socket.Duplex.Delivery.Request.{
  Requested, send_request-Requested, inc_payload_events, Answered, Requested-Answered,
}

-- On an open connection with a valid fragment size, RequestResponse queues frames, one or many,
-- and returns with the connection as open and its fragment size as they were; another connection,
-- with no unfinished payload for the stream, that receives those frames in their order does
-- exactly what one call of its RequestResponse handler does, given one payload with the metadata
-- (absent where empty) and the data of the request, and its table of fragments is as before.
pub request_response-Answered :
    (r : Responder) (sid : ℕ) (req : Payload) (dc peer : DuplexConnection)
    → dc.closed ≡ false
    → is_valid_fragment dc.mtu ≡ true
    → peer.fragments sid ≡ none
    → Answered sid dc peer
        (metadata_bytes req)
        req.data_bytes
        (request_response_on req sid dc)
        r
        (λ w p. done (respond_request_response r sid w p))
unfolding request_response_on register fragment_of route check
request_response-Answered r sid req dc peer is_open valid free =
    let registered =
      register sid (request_response_callback dc.fresh none) (record dc { fresh = suc dc.fresh }) in
    let (es, e) = inc_payload_events req.releasable registered in
    Requested-Answered r sid FrameType.request_response 0 dc (record registered { events = es })
      peer (metadata_bytes req) req.data_bytes (request_response_on req sid dc)
      (λ w p. done (respond_request_response r sid w p)) (refl, refl, refl)
      (λ h w p k c f. rw k refl)
      (subst
        (λ s.
          Requested r sid FrameType.request_response 0 (record registered { events = es }) peer
            (metadata_bytes req) req.data_bytes
            (send_request sid (calc_payload_frame_size req.data_bytes (metadata_bytes req)) 0
              (release_hook req.releasable) req.data_bytes (metadata_bytes req)
              (request_response_frame sid) s))
        (sym e)
        (send_request-Requested r sid FrameType.request_response 0 (request_response_frame sid)
          (λ g. g) plain-Keeps (omega arith, refl, refl) (λ q g. refl) _ 0
          (release_hook req.releasable) (metadata_bytes req) req.data_bytes
          (record registered { events = es }) peer is_open valid free))

-- A count within the bound is sent as it is.
requested_n :
    (request_max n : ℕ) → n ≤ request_max → to_uint32_request_n request_max (pos n) ≡ done n
unfolding to_uint32_request_n
requested_n request_max n h = rw ((ltb-false_iff request_max n).1 h) refl

-- On an open connection with a valid fragment size, the first request of n payloads, at most
-- rx.RequestMax, for a requested stream queues frames, one or many, and returns with the
-- connection as open and its fragment size as they were; another connection, with no unfinished
-- payload for the stream, that receives them in their order calls its RequestStream handler once,
-- with the metadata (absent where empty) and the data of the request, and answers as for n.
pub stream_requested-Answered :
    (r : Responder) (request_max n sid : ℕ) (req : Payload) (h : Hooks) (dc peer : DuplexConnection)
    → n ≤ request_max
    → h.requested ≡ false
    → dc.closed ≡ false
    → is_valid_fragment dc.mtu ≡ true
    → peer.fragments sid ≡ none
    → (result : Option DuplexConnection) × (stream_requested request_max sid req (pos n) h dc
        ≡ done (result, record h { requested = true }))
      × Answered sid dc peer (metadata_bytes req) req.data_bytes result r (λ w p.
        done (answer_request_stream sid n w (r.request_stream w) (emits (call_request_stream w) p)))
unfolding stream_requested fragment_of route respond_request_stream extract_request_stream_init_n
    check
stream_requested-Answered r request_max n sid req h dc peer within unasked is_open valid free =
    let (es, e) = inc_payload_events req.releasable dc in
    (
      send_request sid size 4 hook req.data_bytes (metadata_bytes req) (request_stream_frame sid n)
          (inc_payload req.releasable dc),
      rw (requested_n request_max n within, unasked) refl,
      Requested-Answered r sid FrameType.request_stream n dc (record dc { events = es }) peer
          (metadata_bytes req) req.data_bytes _ _ (refl, refl, refl)
          (λ h w p k c f. rw (k) (rw (f) (rw (k, c) refl)))
          (subst
            (λ s.
              Requested r sid FrameType.request_stream n (record dc { events = es }) peer
                (metadata_bytes req) req.data_bytes
                (send_request sid size 4 hook req.data_bytes (metadata_bytes req)
                  (request_stream_frame sid n) s))
            (sym e)
            (send_request-Requested r sid FrameType.request_stream n (request_stream_frame sid n)
              (λ g. g) plain-Keeps (omega arith, refl, refl) (λ q g. refl) size 4 hook
              (metadata_bytes req) req.data_bytes (record dc { events = es }) peer is_open valid
              free)),
    )
  where
    size : ℕ
    size = calc_payload_frame_size req.data_bytes (metadata_bytes req) + 4

    hook : Option Hook
    hook = release_hook req.releasable

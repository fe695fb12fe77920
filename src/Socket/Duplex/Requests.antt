-- ===== src/Socket/Duplex/Requests.antt =====
-- RequestStream and RequestChannel of internal/socket/duplex.go: what their hooks (DoOnRequest, DoOnNext,
-- DoFinally) do, and ToUint32RequestN and ToIntRequestN of misc.go.
use rsocket_go.Base.{ℕ, ◌+◌, Bool, true, false, List, [], ◌∷◌, ◌++◌, Option, none, some, bit_or}
use rsocket_go.Base.{if◌then◌else◌, ltb, suc}
use rsocket_go.Base.Int.{ℤ, pos, negsuc}
use rsocket_go.Base.Outcome.{Outcome, done, panic, ◌>>=◌}
use rsocket_go.Core.Flag
use rsocket_go.Framing.Parts.{calc_payload_frame_size}
use rsocket_go.Fragmentation.Joiner.{Whole}
use rsocket_go.Socket.Duplex.{
  request_stream_frame, request_channel_frame, request_n_frame, close_done, Queued, Payload,
  request_stream_callback, request_channel_subscriber, whole_released, subscribed, DuplexConnection,
  emits, register, unregister, take_stream_id,
}
use rsocket_go.Socket.Duplex.Sending.{
  metadata_bytes, inc_payload, release_hook, sends, send_request, with_id, Signal, tell_cancel,
}

-- The largest count, rx.RequestMax, is the reactive library's.
module _ (request_max : ℕ) where
  unfoldable pub to_int_request_n : ℕ → ℕ
  to_int_request_n n = if ltb request_max n then request_max else n

  unfoldable pub to_uint32_request_n : ℤ → Outcome ℕ
  to_uint32_request_n (negsuc k) = panic
  to_uint32_request_n (pos n) = done (if ltb request_max n then request_max else n)

-- What the hooks of one request share: whether it was requested before, and the payloads still to be
-- released.
pub record Hooks : Type 0 where
  pub requested : Bool
  pub to_be_released : List Whole

unfoldable pub request_stream_on : ℕ → DuplexConnection → Option DuplexConnection
request_stream_on sid dc =
    some (register sid (request_stream_callback dc.fresh) (record dc { fresh = suc dc.fresh }))

unfoldable pub request_stream : ℕ → DuplexConnection → Option DuplexConnection
request_stream fuel dc =
    if dc.closed then some dc else with_id (take_stream_id fuel dc) request_stream_on

-- The entry of a channel is made when the sending flux is subscribed to.
unfoldable pub request_channel_on : ℕ → DuplexConnection → Option DuplexConnection
request_channel_on sid dc = some (record dc { fresh = suc dc.fresh })

unfoldable pub request_channel : ℕ → DuplexConnection → Option DuplexConnection
request_channel fuel dc =
    if dc.closed then some dc else with_id (take_stream_id fuel dc) request_channel_on

-- DoOnNext: the payload before is released, this one is kept.
unfoldable pub on_next : Whole → Hooks → DuplexConnection → DuplexConnection × Hooks
on_next input h dc = by_queue h.to_be_released
  where
    by_queue : List Whole → DuplexConnection × Hooks
    by_queue [] = (dc, record h { to_be_released = input ∷ [] })
    by_queue (w ∷ ws) =
        (emits (whole_released w) dc, record h { to_be_released = ws ++ (input ∷ []) })

abbrev pub release_all : List Whole → DuplexConnection → DuplexConnection
release_all [] dc = dc
release_all (w ∷ ws) dc = release_all ws (emits (whole_released w) dc)

unfoldable pub stream_finally : ℕ → Signal → Hooks → DuplexConnection → DuplexConnection
stream_finally sid sig h dc = release_all h.to_be_released (unregister sid (tell_cancel sig sid dc))

-- A requested channel sends no CANCEL.
unfoldable pub channel_finally : ℕ → Hooks → DuplexConnection → DuplexConnection
channel_finally sid h dc = release_all h.to_be_released (unregister sid dc)

-- The frame that a request waits for.
abbrev pub request_n_queued : ℕ → ℕ → Queued
request_n_queued sid n = record { frame = request_n_frame sid n 0; hook = some close_done }

module _ (request_max : ℕ) where
  -- DoOnRequest of RequestStream: the first request sends the request, a later one REQUEST_N.
  unfoldable pub stream_requested :
      ℕ → Payload → ℤ → Hooks → DuplexConnection → Outcome (Option DuplexConnection × Hooks)
  stream_requested sid sending n h dc = do
    n32 ← to_uint32_request_n request_max n
    done (
      if h.requested
          then some (sends (request_n_queued sid n32) dc)
          else send_request sid
              (calc_payload_frame_size sending.data_bytes (metadata_bytes sending) + 4) 4
              (release_hook sending.releasable) sending.data_bytes (metadata_bytes sending)
              (request_stream_frame sid n32) (inc_payload sending.releasable dc),
      record h { requested = true },
    )

  abbrev subscribes : ℕ → ℕ → ℕ → Option DuplexConnection → Option DuplexConnection
  subscribes sid sending receiving none = none
  subscribes sid sending receiving (some dc) =
      some (emits (subscribed sending (request_channel_subscriber sid receiving)) dc)

  -- A single frame that was not sent ends the request; frames of a split do not.
  abbrev subscribes_if : Bool → ℕ → ℕ → ℕ → Option DuplexConnection → Option DuplexConnection
  subscribes_if true sid sending receiving o = subscribes sid sending receiving o
  subscribes_if false sid sending receiving o = o

  -- DoOnRequest of RequestChannel; `sending` is the flux of the application, `receiving` the processor.
  unfoldable pub channel_requested :
      ℕ → Payload → ℕ → ℕ → ℤ → Hooks → DuplexConnection → Outcome (Option DuplexConnection × Hooks)
  channel_requested sid request sending receiving initial h dc = do
    n ← to_uint32_request_n request_max initial
    let d = request.data_bytes
    let m = metadata_bytes request
    let size = calc_payload_frame_size d m + 4
    let counted = inc_payload request.releasable dc
    done (
      if h.requested
          then some (sends (request_n_queued sid n) dc)
          else subscribes_if
              (if ltb counted.mtu size then true else if counted.closed then false else true) sid
              sending receiving
              (send_request sid size 4 (release_hook request.releasable) d m
                (λ d m flag. request_channel_frame sid n d m (bit_or flag Flag.next)) counted),
      record h { requested = true },
    )

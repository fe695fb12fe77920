-- ===== src/Socket/Duplex/Subscribers.antt =====
-- The subscribers of internal/socket: subscriber_request_response.go, subscriber_request_stream.go and
-- subscriber_request_channel.go. A subscription to a context that has ended is the error `cancelled`.
use rsocket_go.Base.{ℕ, ◌+◌, ◌==◌, Bool, true, false, [], Option, none, some, bit_or}
use rsocket_go.Base.{if◌then◌else◌}
use rsocket_go.Core.Flag
use rsocket_go.Fragmentation.Joiner.{Whole}
use rsocket_go.Socket.Duplex.{
  request_channel_callback, request_response_callback_reverse, request_stream_callback_reverse,
  respond_channel_callback, payload_frame, Queued, close_done, Payload, Failure,
  subscription_request, whole_released, DuplexConnection, emits, register, unregister, write_error,
}
use rsocket_go.Socket.Duplex.Sending.{sends, plain, send_payload}
use rsocket_go.Socket.Duplex.Requests.{to_int_request_n}

abbrev pub complete_frame : ℕ → Queued
complete_frame sid = plain (payload_frame sid [] [] Flag.complete)

-- The sender waits for it.
abbrev pub awaited_complete : ℕ → Queued
awaited_complete sid = record {
  frame = payload_frame sid [] [] Flag.complete;
  hook = some close_done;
}

-- payload.Empty()
abbrev pub empty_payload : Payload
empty_payload = record { metadata = none; data_bytes = []; releasable = none; final = false }

-- A subscriber of a response ends: its entry goes, what was received is released.
abbrev finish : ℕ → Whole → DuplexConnection → DuplexConnection
finish sid receiving dc = emits (whole_released receiving) (unregister sid dc)

abbrev finishes : ℕ → Whole → Option DuplexConnection → Option DuplexConnection
finishes sid receiving none = none
finishes sid receiving (some dc) = some (finish sid receiving dc)

-- requestResponseSubscriber; the number is sndCnt.
unfoldable pub response_on_next : ℕ → Payload → ℕ → DuplexConnection → Option DuplexConnection × ℕ
response_on_next sid next snd_cnt dc =
    (send_payload sid next (bit_or Flag.next Flag.complete) dc, snd_cnt + 1)

unfoldable pub response_on_error : ℕ → Whole → Failure → DuplexConnection → DuplexConnection
response_on_error sid receiving err dc = finish sid receiving (write_error sid err dc)

unfoldable pub response_on_complete : ℕ → Whole → ℕ → DuplexConnection → Option DuplexConnection
response_on_complete sid receiving snd_cnt dc =
    finishes sid receiving
      (if snd_cnt + 1 == 1 then send_payload sid empty_payload Flag.complete dc else some dc)

unfoldable pub stream_on_next : ℕ → Payload → DuplexConnection → Option DuplexConnection
stream_on_next sid p dc = send_payload sid p Flag.next dc

unfoldable pub stream_on_error : ℕ → Whole → Failure → DuplexConnection → DuplexConnection
stream_on_error sid receiving err dc = finish sid receiving (write_error sid err dc)

unfoldable pub stream_on_complete : ℕ → Whole → DuplexConnection → DuplexConnection
stream_on_complete sid receiving dc = finish sid receiving (sends (complete_frame sid) dc)

unfoldable pub channel_on_next : ℕ → Payload → DuplexConnection → Option DuplexConnection
channel_on_next sid item dc = send_payload sid item Flag.next dc

unfoldable pub channel_on_error : ℕ → Failure → DuplexConnection → DuplexConnection
channel_on_error sid err dc = write_error sid err dc

unfoldable pub channel_on_complete : ℕ → DuplexConnection → DuplexConnection
channel_on_complete sid dc = sends (awaited_complete sid) dc

-- respondChannelSubscriber: how many of its two sides have ended, and whether it sent a final payload.
pub record Ends : Type 0 where
  pub calls : ℕ
  pub sent_final_next : Bool

-- The second end takes the entry out.
abbrev pub count_end : ℕ → ℕ → DuplexConnection → DuplexConnection
count_end sid calls dc = if calls + 1 == 2 then unregister sid dc else dc

unfoldable pub respond_on_complete : ℕ → Ends → DuplexConnection → DuplexConnection × Ends
respond_on_complete sid ends dc =
    let ended = count_end sid ends.calls dc in
    (
      if ends.sent_final_next then ended else sends (awaited_complete sid) ended,
      record ends { calls = ends.calls + 1 },
    )

unfoldable pub respond_on_next :
    ℕ → Payload → Ends → DuplexConnection → Option DuplexConnection × Ends
respond_on_next sid next ends dc =
    let (completed, ends1) = respond_on_complete sid (record ends { sent_final_next = true }) dc in
    if next.final
    then (send_payload sid next (bit_or Flag.next Flag.complete) completed, ends1)
    else (send_payload sid next Flag.next dc, ends)

unfoldable pub respond_on_error : ℕ → Failure → Ends → DuplexConnection → DuplexConnection × Ends
respond_on_error sid err ends dc =
    (write_error sid err (count_end sid ends.calls dc), record ends { calls = ends.calls + 1 })

-- OnSubscribe: the entry, then a first request; or the error of an ended context.
module _ (request_max : ℕ) where
  unfoldable pub response_on_subscribe :
      ℕ → Whole → ℕ → Option Failure → DuplexConnection → DuplexConnection
  response_on_subscribe sid receiving su none dc =
      emits (subscription_request su request_max)
        (register sid (request_response_callback_reverse su) dc)
  response_on_subscribe sid receiving su (some cancelled) dc =
      response_on_error sid receiving cancelled dc

  unfoldable pub stream_on_subscribe :
      ℕ → ℕ → Whole → ℕ → Option Failure → DuplexConnection → DuplexConnection
  stream_on_subscribe sid n receiving su none dc =
      emits (subscription_request su n) (register sid (request_stream_callback_reverse su) dc)
  stream_on_subscribe sid n receiving su (some cancelled) dc =
      stream_on_error sid receiving cancelled dc

  unfoldable pub channel_on_subscribe :
      ℕ → ℕ → ℕ → Option Failure → DuplexConnection → DuplexConnection
  channel_on_subscribe sid rcv su none dc =
      emits (subscription_request su 1) (register sid (request_channel_callback su rcv) dc)
  channel_on_subscribe sid rcv su (some cancelled) dc = channel_on_error sid cancelled dc

  unfoldable pub respond_on_subscribe :
      ℕ → ℕ → ℕ → ℕ → Option Failure → Ends → DuplexConnection → DuplexConnection × Ends
  respond_on_subscribe sid n rcv su none ends dc = (
    emits (subscription_request su (to_int_request_n request_max n))
        (register sid (respond_channel_callback su rcv) dc),
    ends,
  )
  respond_on_subscribe sid n rcv su (some cancelled) ends dc =
      respond_on_error sid cancelled ends dc

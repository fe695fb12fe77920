-- ===== src/Examples/Sockets.antt =====
-- Connections at concrete values.
use rsocket_go.Base.{ℕ, ◌+◌, ◌≡◌, ◌≢◌, refl, arith, Bool, true, false, List, [], ◌∷◌, ◌++◌}
use rsocket_go.Base.{Option, none, some, ◌⊎◌, if◌then◌else◌, ◌==◌}
use rsocket_go.Base.Int.{pos}
use rsocket_go.Base.Outcome.{done, panic}
use rsocket_go.BigEndian.{Bytes}
use rsocket_go.Core.Flag
use rsocket_go.Core.Types.{check}
use rsocket_go.Framing.Program.{emit}
use rsocket_go.Fragmentation.Splitter.{is_valid_fragment}
use rsocket_go.Fragmentation.Joiner.{Fragment}
use rsocket_go.Socket.StreamIds.{client_next}
use rsocket_go.Socket.Duplex.{
  OutFrame, payload_frame, cancel_frame, Queued, release_payload, Payload, Failure,
  request_stream_callback, processor_error, custom, frame_released, call_request_stream, Responder,
  publishes, no_publisher, DuplexConnection, emits, run_hook, send_frame,
}
use rsocket_go.Socket.Duplex.Sending.{request_response_on, send_payload}
use rsocket_go.Socket.Duplex.Requests.{Hooks, stream_requested}
use rsocket_go.Socket.Duplex.Receiving.{
  on_frame_error, error_entry, respond_request_response, answer_request_stream, to_callback,
  on_frame_cancel,
}
use rsocket_go.Socket.Duplex.Arrival.{cancels, fails, handle}
use rsocket_go.Socket.Duplex.Wire.{program, fragment_of, received, Fits}
use rsocket_go.Socket.Duplex.Wire
use rsocket_go.Socket.Duplex.Delivery.Request.{Answered}
use rsocket_go.Socket.Duplex.Delivery.Calls
use rsocket_go.Socket.Duplex.Delivery.PayloadFlags.{next_and_complete, flags}
use rsocket_go.Socket.Duplex.Delivery.Response.{is_cut}
use rsocket_go.Socket.Duplex.Delivery.Payloads
use rsocket_go.Socket.Duplex.Isolation
use rsocket_go.Socket.Duplex.Cancel.{GivesUp, Cancelled, gives_up, on_subscribe, to_response}
use rsocket_go.Socket.Duplex.Delivery.Stream
use rsocket_go.Socket.Duplex.Delivery.Stream.{Streamed, streams, complete_whole}
use rsocket_go.Socket.Duplex.Writing.Backlog
use rsocket_go.Socket.Duplex.Writing.Backlog.{taken}
use rsocket_go.Socket.Duplex.Closing.Order.{done_events}
use rsocket_go.Base.{◌+◌, nonempty, ◌⊎◌, List, [], ◌++◌, if◌then◌else◌}
use rsocket_go.Socket.Duplex.Cancel
use rsocket_go.Socket.Duplex.Closing.{close}
use rsocket_go.Socket.Duplex.Closing.Order.{final_failure, close_events}
use rsocket_go.Socket.Duplex.Closing.Order as Closing
use rsocket_go.Socket.Duplex.Writing.{Writer, drain_rounds, drain_backlog}
use rsocket_go.Socket.Duplex.Writing.Accounts.{Merge, frames, Drained, rounds}
use rsocket_go.Socket.Duplex.Writing.Accounts
use rsocket_go.Transport.Dispatch.{
  Transport, Body, stream, dispatch_frame, after_handler, set_transport, refreshed, cancel_kind,
}
use rsocket_go.Transport.Dispatch

abbrev small_payload : Payload
small_payload = record {
  metadata = some (9 ∷ []);
  data_bytes = 1 ∷ 2 ∷ [];
  releasable = some 5;
  final = false;
}

-- With fragments of eleven bytes it is cut into two.
abbrev connection : DuplexConnection
connection = record {
  mtu = 11;
  closed = false;
  next = client_next 1;
  cur = 0;
  messages = λ sid. if sid == 1 then some (request_stream_callback 4) else none;
  fragments = λ sid. none;
  snd_queue = record { frame = cancel_frame 3; hook = some (release_payload 6) } ∷ [];
  snd_backlog = record { frame = cancel_frame 7; hook = none } ∷ [];
  failure = none;
  events = [];
  fresh = 8;
}

abbrev responder : Responder
responder = record {
  request_response = λ w. publishes 1;
  request_stream = λ w. no_publisher;
  request_channel = λ w rcv. publishes 2;
}

valid_11 : is_valid_fragment connection.mtu ≡ true
unfolding is_valid_fragment
valid_11 = refl

fits : Fits (payload_frame 1 (1 ∷ 2 ∷ []) (9 ∷ []) 0x20)
unfolding Fits check
fits = (omega arith, omega arith, λ e. refl, omega arith)

received-program_example :
    (x : ℕ × Fragment) × (bs : Bytes) × (fragment_of (payload_frame 1 (1 ∷ 2 ∷ []) (9 ∷ []) 0x20)
      ≡ some x)
    × (emit (program (payload_frame 1 (1 ∷ 2 ∷ []) (9 ∷ []) 0x20)) ≡ done bs)
    × (received bs ≡ done x)
received-program_example = Wire.received-program (payload_frame 1 (1 ∷ 2 ∷ []) (9 ∷ []) 0x20) fits

request_response-Answered_example :
    Answered 1 connection connection
      (9 ∷ [])
      (1 ∷ 2 ∷ [])
      (request_response_on small_payload 1 connection)
      responder
      (λ w p. done (respond_request_response responder 1 w p))
request_response-Answered_example =
    Calls.request_response-Answered responder 1 small_payload connection connection refl valid_11
      refl

abbrev unrequested : Hooks
unrequested = record { requested = false; to_be_released = [] }

stream_requested-Answered_example :
    (result : Option DuplexConnection) × (stream_requested 100 1 small_payload
        (pos 16)
        unrequested
        connection
      ≡ done (result, record unrequested { requested = true }))
    × Answered 1 connection connection (9 ∷ []) (1 ∷ 2 ∷ []) result responder (λ w p.
      done (
        answer_request_stream 1 16 w
          (responder.request_stream w)
          (emits (call_request_stream w) p)))
stream_requested-Answered_example =
    Calls.stream_requested-Answered responder 100 16 1 small_payload unrequested connection
      connection (omega arith) refl refl valid_11 refl

send_payload-Answered_example :
    (flag : ℕ) × (a : Answered 1 connection connection
      (9 ∷ [])
      (1 ∷ 2 ∷ [])
      (send_payload 1 small_payload (flags next_and_complete) connection)
      responder
      (λ w q. done (to_callback (q.messages 1) 1 w flag q)))
    × (check flag Flag.next ≡ check (flags next_and_complete) Flag.next)
    × (check flag Flag.complete
        ≡ (if is_cut a.sent then false else check (flags next_and_complete) Flag.complete))
send_payload-Answered_example =
    Payloads.send_payload-Answered responder 1 next_and_complete small_payload connection connection
      refl valid_11 refl

abbrev told_error : DuplexConnection
told_error = record connection {
  events = processor_error 4 (custom (record { code = 2; data_bytes = [] })) ∷ frame_released ∷ [];
}

handled_error :
    handle 100 responder 1 (fails (record { code = 2; data_bytes = [] })) connection
    ≡ done (told_error, false)
unfolding handle on_frame_error error_entry
handled_error = refl

three_not_one : ◌≢◌ {A = ℕ} 3 1
three_not_one e = omega (arith, e)

handle-Apart_example :
    (told_error.messages 3 ≡ connection.messages 3)
    × (told_error.fragments 3 ≡ connection.fragments 3)
handle-Apart_example =
    Isolation.handle-Apart 100 responder 1 3 (fails (record { code = 2; data_bytes = [] }))
      connection told_error false three_not_one handled_error

close_lem_example :
    (dc' : DuplexConnection) × (close (1 ∷ []) [] (some none) connection
      ≡ (dc', final_failure (some none) connection.failure))
    × (dc' ≡ record connection {
      closed = true;
      snd_queue = [];
      snd_backlog = [];
      failure = final_failure (some none) connection.failure;
      events = connection.events ++ close_events (1 ∷ []) [] (some none) connection;
    })
    × ((streams' fragments' : List ℕ) (tp' : Option (Option Failure))
        → close streams' fragments' tp' dc' ≡ (dc', none))
    × ((q : Queued) → send_frame q dc' ≡ (run_hook q.hook dc', false))
close_lem_example = Closing.close_lem (1 ∷ []) [] (some none) connection refl

-- A transport that sends the first frame alone.
abbrev first_only : List OutFrame → OutFrame → Bool
first_only [] f = true
first_only (g ∷ gs) f = false

abbrev writer : Writer
writer = record { dc = connection; wire = record { connected = true; sent = []; flushed = 0 } }

drain_rounds-Drained_example :
    Drained first_only writer (drain_rounds first_only (rounds first_only 2) false writer)
drain_rounds-Drained_example = Accounts.drain_rounds-Drained first_only 2 false writer

abbrev transport : Transport
transport = record {
  max_lifetime = 90;
  last_rcv_pos = 0;
  handlers = set_transport 100 responder true;
  deadline = none;
}

dispatch_frame-handle_example :
    dispatch_frame true 1000 3 (stream cancels) transport connection
    ≡ after_handler
        (record transport { deadline = some (1000 + 90) })
        (handle 100 responder 3 cancels connection)
dispatch_frame-handle_example =
    Dispatch.dispatch_frame-handle 100 responder 1000 transport refl 3 cancels connection
      cancel_kind refl

streams-Streamed_example :
    Streamed responder 4
      (small_payload ∷ small_payload ∷ [])
      connection
      connection
      (streams 1 complete_whole (small_payload ∷ small_payload ∷ []) connection)
streams-Streamed_example =
    Stream.streams-Streamed responder 1 4 complete_whole (small_payload ∷ small_payload ∷ [])
      connection connection refl valid_11 refl refl

cancel_lem_example :
    GivesUp 1 connection (gives_up (Cancel.stream 4 unrequested) 1 connection)
    × ((after : DuplexConnection) × (on_frame_cancel 1
            (on_subscribe 100 (to_response complete_whole) 1 8 connection)
          ≡ done (after, false))
        × Cancelled 1 8 (on_subscribe 100 (to_response complete_whole) 1 8 connection) after)
    × (on_frame_cancel 1 connection ≡ panic)
cancel_lem_example =
    Cancel.cancel_lem 100 1 8 (Cancel.stream 4 unrequested) (to_response complete_whole) connection
      connection refl refl

drain_backlog_lem_example :
    ((writer.wire.connected ≡ true)
      × (drain_backlog first_only writer ≡ record {
        dc = record writer.dc {
          snd_backlog = [];
          events = writer.dc.events ++ done_events writer.dc.snd_backlog;
        };
        wire = record writer.wire {
          sent =
              writer.wire.sent ++ taken first_only writer.wire.sent (frames writer.dc.snd_backlog);
          flushed = writer.wire.flushed + (if nonempty writer.dc.snd_backlog then 1 else 0);
        };
      }))
    ⊎ ((writer.wire.connected ≡ false)
        × (drain_backlog first_only writer
            ≡ record writer { dc = record writer.dc { snd_backlog = [] } }))
drain_backlog_lem_example = Backlog.drain_backlog_lem first_only writer

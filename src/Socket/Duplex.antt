-- ===== src/Socket/Duplex.antt =====
-- internal/socket/duplex.go, callback.go and misc.go: the state of a connection, what a call on it does to
-- the world, and the operations that its other parts share. The channel of frames to send is a list:
-- the bound of its buffer only delays a sender. What happens outside (sinks, processors, subscriptions, the
-- responder, releases) is the list `events`, in order; its parties are known by numbers.
pub mod Sending
pub mod Requests
pub mod Receiving
pub mod Subscribers
pub mod Closing
pub mod Writing
pub mod Wire
pub mod Delivery
pub mod Arrival
pub mod Isolation
pub mod Cancel
use rsocket_go.Base.{
  ℕ, suc, ◌+◌, ◌*◌, ◌==◌, Bool, true, false, List, [], ◌∷◌, ◌++◌, Option, none, some,
}
use rsocket_go.Base.{if◌then◌else◌, ltb, map, not}
use rsocket_go.Base.Outcome.{Outcome, done, panic}
use rsocket_go.BigEndian.{Bytes}
use rsocket_go.Framing.Error.{FrozenError}
use rsocket_go.Fragmentation.Joiner.{Fragment, Joiner, Whole, single, joined, Fragments, store}
use rsocket_go.Socket.StreamIds.{next_stream_id}

-- A writeable frame, by the call that makes it, with the arguments in the order of that call.
pub data OutFrame : Type 0 where
  request_response_frame : ℕ → Bytes → Bytes → ℕ → OutFrame
  fire_and_forget_frame : ℕ → Bytes → Bytes → ℕ → OutFrame
  request_stream_frame : ℕ → ℕ → Bytes → Bytes → ℕ → OutFrame
  request_channel_frame : ℕ → ℕ → Bytes → Bytes → ℕ → OutFrame
  payload_frame : ℕ → Bytes → Bytes → ℕ → OutFrame
  request_n_frame : ℕ → ℕ → ℕ → OutFrame
  cancel_frame : ℕ → OutFrame
  error_frame : ℕ → ℕ → Bytes → OutFrame
  keepalive_frame : ℕ → Bytes → Bool → OutFrame
  lease_frame : ℕ → ℕ → Bytes → OutFrame
  metadata_push_frame : Bytes → OutFrame

-- What HandleDone was given: the release of a payload, or the end of a wait.
pub data Hook : Type 0 where
  release_payload : ℕ → Hook
  close_done : Hook

pub record Queued : Type 0 where
  pub frame : OutFrame
  pub hook : Option Hook

-- A payload of the application; a releasable one has a number, `final` is a FinalPayload.
pub record Payload : Type 0 where
  pub metadata : Option Bytes
  pub data_bytes : Bytes
  pub releasable : Option ℕ
  pub final : Bool

pub data Failure : Type 0 where
  socket_closed : Failure
  -- a *framing.WriteableErrorFrame
  writeable_error : ℕ → ℕ → Bytes → Failure
  -- a core.CustomError
  custom : FrozenError → Failure
  -- any other error, by its text
  other : Bytes → Failure

-- callback.go
pub data Callback : Type 0 where
  request_response_callback : (sink : ℕ) → (cache : Option Whole) → Callback
  request_stream_callback : (pc : ℕ) → Callback
  request_channel_callback : (snd rcv : ℕ) → Callback
  request_response_callback_reverse : (su : ℕ) → Callback
  request_stream_callback_reverse : (su : ℕ) → Callback
  respond_channel_callback : (snd rcv : ℕ) → Callback

pub data Subscriber : Type 0 where
  request_response_subscriber : (sid : ℕ) → (receiving : Whole) → Subscriber
  request_stream_subscriber : (sid n : ℕ) → (receiving : Whole) → Subscriber
  request_channel_subscriber : (sid rcv : ℕ) → Subscriber
  respond_channel_subscriber : (sid n rcv : ℕ) → Subscriber

pub data Event : Type 0 where
  sink_success : ℕ → Whole → Event
  sink_error : ℕ → Failure → Event
  processor_next : ℕ → Whole → Event
  processor_complete : ℕ → Event
  processor_error : ℕ → Failure → Event
  processor_close : ℕ → Event
  subscription_cancel : ℕ → Event
  subscription_request : ℕ → ℕ → Event
  -- a releasable payload's IncRef and Release
  inc_ref : ℕ → Event
  payload_released : ℕ → Event
  -- the end of a wait for a frame
  wait_ended : Event
  -- Release of what was received
  whole_released : Whole → Event
  joiner_released : Joiner → Event
  frame_released : Event
  -- calls of the responder
  call_fire_and_forget : Whole → Event
  call_metadata_push : Option Bytes → Event
  call_request_response : Whole → Event
  call_request_stream : Whole → Event
  call_request_channel : Whole → ℕ → Event
  -- a publisher is subscribed
  subscribed : ℕ → Subscriber → Event
  transport_closed : Event

-- What the responder's call comes to: a publisher, nil, or a panic with its text.
pub data Answer : Type 0 where
  publishes : ℕ → Answer
  no_publisher : Answer
  panicked : Bytes → Answer

pub record Responder : Type 0 where
  pub request_response : Whole → Answer
  pub request_stream : Whole → Answer
  pub request_channel : Whole → ℕ → Answer

pub record DuplexConnection : Type 0 where
  pub mtu : ℕ
  pub closed : Bool
  -- dc.sids: its Next and its counter
  pub next : ℕ → Option (ℕ × ℕ × Bool)
  pub cur : ℕ
  pub messages : ℕ → Option Callback
  pub fragments : Fragments
  pub snd_queue : List Queued
  pub snd_backlog : List Queued
  pub failure : Option Failure
  pub events : List Event
  -- the next number for a sink or a processor
  pub fresh : ℕ

-- "rsocket: send request failed"
abbrev pub request_failed : Failure
request_failed = other (
    114 ∷ 115 ∷ 111 ∷ 99 ∷ 107 ∷ 101 ∷ 116 ∷ 58 ∷ 32 ∷ 115 ∷ 101 ∷ 110 ∷ 100 ∷ 32 ∷ 114 ∷ 101 ∷ 113
    ∷ 117 ∷ 101 ∷ 115 ∷ 116 ∷ 32 ∷ 102 ∷ 97 ∷ 105 ∷ 108 ∷ 101 ∷ 100 ∷ [])

abbrev pub application_error : ℕ
application_error = 0x201

abbrev pub emits : Event → DuplexConnection → DuplexConnection
emits ev dc = record dc { events = dc.events ++ (ev ∷ []) }

-- common.TryRelease of what doFragment gave; a nil is none.
abbrev pub try_release : Option Whole → DuplexConnection → DuplexConnection
try_release none dc = dc
try_release (some w) dc = emits (whole_released w) dc

abbrev pub put_message : (ℕ → Option Callback) → ℕ → Option Callback → ℕ → Option Callback
put_message messages sid v k = if k == sid then v else messages k

unfoldable pub register : ℕ → Callback → DuplexConnection → DuplexConnection
register sid msg dc = record dc { messages = put_message dc.messages sid (some msg) }

-- The joiner is taken out of the table and released.
abbrev pub deleted : Option Joiner → ℕ → DuplexConnection → DuplexConnection
deleted none sid dc = dc
deleted (some joiner) sid dc =
    emits (joiner_released joiner) (record dc { fragments = store dc.fragments sid none })

unfoldable pub delete_fragment : ℕ → DuplexConnection → DuplexConnection
delete_fragment sid dc = deleted (dc.fragments sid) sid dc

unfoldable pub unregister : ℕ → DuplexConnection → DuplexConnection
unregister sid dc = delete_fragment sid (record dc { messages = put_message dc.messages sid none })

-- f.Done()
abbrev pub run_hook : Option Hook → DuplexConnection → DuplexConnection
run_hook none dc = dc
run_hook (some (release_payload p)) dc = emits (payload_released p) dc
run_hook (some close_done) dc = emits wait_ended dc

unfoldable pub send_frame : Queued → DuplexConnection → DuplexConnection × Bool
send_frame f dc =
    if dc.closed
    then (run_hook f.hook dc, false)
    else (record dc { snd_queue = dc.snd_queue ++ (f ∷ []) }, true)

-- `stopWithError` of each callback.
unfoldable pub stop_with_error : Callback → Failure → DuplexConnection → DuplexConnection
stop_with_error (request_response_callback sink cache) err dc =
    try_release cache (emits (sink_error sink err) dc)
stop_with_error (request_stream_callback pc) err dc =
    emits (processor_error pc err) (emits (processor_close pc) dc)
stop_with_error (request_channel_callback snd rcv) err dc =
    emits (processor_error rcv err)
      (emits (processor_close rcv) (emits (subscription_cancel snd) dc))
stop_with_error (request_response_callback_reverse su) err dc = emits (subscription_cancel su) dc
stop_with_error (request_stream_callback_reverse su) err dc = emits (subscription_cancel su) dc
stop_with_error (respond_channel_callback snd rcv) err dc =
    emits (subscription_cancel snd)
      (emits (processor_error rcv err) (emits (processor_close rcv) dc))

abbrev pub stop_entry : Option Callback → Failure → DuplexConnection → DuplexConnection
stop_entry none err dc = dc
stop_entry (some cb) err dc = stop_with_error cb err dc

unfoldable pub kill_callback : ℕ → DuplexConnection → DuplexConnection
kill_callback sid dc = stop_entry (dc.messages sid) request_failed dc

-- The frames to send for an error.
unfoldable pub write_error : ℕ → Failure → DuplexConnection → DuplexConnection
write_error sid socket_closed dc = dc
write_error sid (writeable_error id code d) dc =
    (send_frame (record { frame = error_frame id code d; hook = none }) dc).0
write_error sid (custom e) dc =
    (send_frame (record { frame = error_frame sid e.code e.data_bytes; hook = none }) dc).0
write_error sid (other text) dc =
    (send_frame (record { frame = error_frame sid application_error text; hook = none }) dc).0

-- size > dc.mtu
unfoldable pub should_split : ℕ → DuplexConnection → Bool
should_split size dc = ltb dc.mtu size

abbrev is_used : Option Callback → Bool
is_used none = false
is_used (some cb) = true

-- dc.nextStreamID(), on fuel.
unfoldable pub take_stream_id : ℕ → DuplexConnection → Option (DuplexConnection × ℕ)
take_stream_id fuel dc =
    taken (next_stream_id dc.next (λ sid. is_used (dc.messages sid)) fuel dc.cur)
  where
    taken : Option (ℕ × ℕ) → Option (DuplexConnection × ℕ)
    taken none = none
    taken (some (cur, sid)) = some (record dc { cur = cur }, sid)

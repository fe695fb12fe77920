-- ===== src/Socket/Duplex/Receiving.antt =====
-- The handlers of received frames in internal/socket/duplex.go. A handler gives the new state and whether
-- it returns an error, or panics. What the scheduler runs later is done at once.
use rsocket_go.Base.{ℕ, ◌==◌, Bool, true, false, [], ◌∷◌, Option, none, some}
use rsocket_go.Base.{if◌then◌else◌, suc, ◌||◌}
use rsocket_go.Base.Outcome.{Outcome, done, panic, ◌>>=◌}
use rsocket_go.BigEndian.{Bytes}
use rsocket_go.Common.{clone_bytes}
use rsocket_go.Core.Flag
use rsocket_go.Core.FrameType
use rsocket_go.Core.Types.{check}
use rsocket_go.Framing.Error.{FrozenError}
use rsocket_go.Fragmentation.Joiner.{Fragment, Joiner, Whole, single, joined, do_fragment}
use rsocket_go.Socket.Duplex.{
  Callback, request_response_callback, request_stream_callback, request_channel_callback,
  request_response_callback_reverse, request_stream_callback_reverse, respond_channel_callback,
  keepalive_frame, Failure, writeable_error, custom, other, request_response_subscriber,
  request_stream_subscriber, respond_channel_subscriber, sink_success, sink_error, processor_next,
  processor_complete, processor_error, subscription_cancel, subscription_request, whole_released,
  frame_released, call_fire_and_forget, call_metadata_push, call_request_response,
  call_request_stream, call_request_channel, subscribed, Answer, publishes, no_publisher, panicked,
  Responder, DuplexConnection, application_error, emits, register, delete_fragment, write_error,
}
use rsocket_go.Socket.Duplex.Sending.{sends, plain}
use rsocket_go.Socket.Duplex.Requests.{to_int_request_n}

-- `Header()` of what doFragment hands on: that of its first frame.
unfoldable pub first : Whole → Outcome Fragment
first (single f) = done f
first (joined []) = panic
first (joined (f ∷ fs)) = done f

-- By the type of the first frame; zero where it has no count.
abbrev pub init_n : Fragment → ℕ
init_n f =
    if f.frame_type == FrameType.request_stream || f.frame_type == FrameType.request_channel
    then f.initial_n
    else 0

unfoldable pub extract_request_stream_init_n : Whole → Outcome ℕ
extract_request_stream_init_n receiving = do f ← first receiving; done (init_n f)

-- What the unsupported requests are answered with: "Request-Response not implemented." and so on.
abbrev pub unsupported_request_response : Bytes
unsupported_request_response =
    82 ∷ 101 ∷ 113 ∷ 117 ∷ 101 ∷ 115 ∷ 116 ∷ 45 ∷ 82 ∷ 101 ∷ 115 ∷ 112 ∷ 111 ∷ 110 ∷ 115 ∷ 101 ∷ 32
    ∷ 110 ∷ 111 ∷ 116 ∷ 32 ∷ 105 ∷ 109 ∷ 112 ∷ 108 ∷ 101 ∷ 109 ∷ 101 ∷ 110 ∷ 116 ∷ 101 ∷ 100 ∷ 46
    ∷ []

abbrev pub unsupported_request_stream : Bytes
unsupported_request_stream =
    82 ∷ 101 ∷ 113 ∷ 117 ∷ 101 ∷ 115 ∷ 116 ∷ 45 ∷ 83 ∷ 116 ∷ 114 ∷ 101 ∷ 97 ∷ 109 ∷ 32 ∷ 110 ∷ 111
    ∷ 116 ∷ 32 ∷ 105 ∷ 109 ∷ 112 ∷ 108 ∷ 101 ∷ 109 ∷ 101 ∷ 110 ∷ 116 ∷ 101 ∷ 100 ∷ 46 ∷ []

abbrev pub unsupported_request_channel : Bytes
unsupported_request_channel =
    82 ∷ 101 ∷ 113 ∷ 117 ∷ 101 ∷ 115 ∷ 116 ∷ 45 ∷ 67 ∷ 104 ∷ 97 ∷ 110 ∷ 110 ∷ 101 ∷ 108 ∷ 32 ∷ 110
    ∷ 111 ∷ 116 ∷ 32 ∷ 105 ∷ 109 ∷ 112 ∷ 108 ∷ 101 ∷ 109 ∷ 101 ∷ 110 ∷ 116 ∷ 101 ∷ 100 ∷ 46 ∷ []

abbrev pub Handled : Type 0
Handled = Outcome (DuplexConnection × Bool)

abbrev pub handled : DuplexConnection → Handled
handled dc = done (dc, false)

-- The error of a responder's call: what was received is released and the error sent.
abbrev refuse : ℕ → Whole → Failure → DuplexConnection → DuplexConnection
refuse sid receiving err dc = write_error sid err (emits (whole_released receiving) dc)

-- A panic's error is wrapped with its stack, so that only its text is left of it.
abbrev pub answer_request_response : ℕ → Whole → Answer → DuplexConnection → DuplexConnection
answer_request_response sid w (publishes p) dc =
    emits (subscribed p (request_response_subscriber sid w)) dc
answer_request_response sid w no_publisher dc =
    refuse sid w (writeable_error sid application_error unsupported_request_response) dc
answer_request_response sid w (panicked text) dc = refuse sid w (other text) dc

unfoldable pub respond_request_response :
    Responder → ℕ → Whole → DuplexConnection → DuplexConnection
respond_request_response r sid w dc =
    answer_request_response sid w (r.request_response w) (emits (call_request_response w) dc)

abbrev pub answer_request_stream : ℕ → ℕ → Whole → Answer → DuplexConnection → DuplexConnection
answer_request_stream sid n w (publishes p) dc =
    emits (subscribed p (request_stream_subscriber sid n w)) dc
answer_request_stream sid n w no_publisher dc =
    refuse sid w (writeable_error sid application_error unsupported_request_stream) dc
answer_request_stream sid n w (panicked text) dc = refuse sid w (other text) dc

unfoldable pub respond_request_stream :
    Responder → ℕ → Whole → DuplexConnection → Outcome DuplexConnection
respond_request_stream r sid w dc = do
  n ← extract_request_stream_init_n w
  done (answer_request_stream sid n w (r.request_stream w) (emits (call_request_stream w) dc))

-- On an error it is the new flux that TryRelease is called with, which releases nothing.
abbrev pub answer_request_channel : ℕ → ℕ → ℕ → Answer → DuplexConnection → DuplexConnection
answer_request_channel sid n rcv (publishes p) dc =
    emits (subscribed p (respond_channel_subscriber sid n rcv)) dc
answer_request_channel sid n rcv no_publisher dc =
    write_error sid (writeable_error sid application_error unsupported_request_channel) dc
answer_request_channel sid n rcv (panicked text) dc = write_error sid (other text) dc

-- The processor gets the next number.
unfoldable pub respond_request_channel :
    Responder → ℕ → Whole → DuplexConnection → Outcome DuplexConnection
respond_request_channel r sid w dc = do
  n ← extract_request_stream_init_n w
  let rcv = dc.fresh
  done (
      answer_request_channel sid n rcv (r.request_channel w rcv)
        (emits (call_request_channel w rcv) (record dc { fresh = suc dc.fresh })))

-- A panic of the responder is logged.
unfoldable pub respond_fire_and_forget : Whole → DuplexConnection → DuplexConnection
respond_fire_and_forget w dc = emits (whole_released w) (emits (call_fire_and_forget w) dc)

unfoldable pub respond_metadata_push : Option Bytes → DuplexConnection → Handled
respond_metadata_push m dc = handled (emits frame_released (emits (call_metadata_push m) dc))

-- `doFragment` on the connection, and what is done with a whole.
abbrev pub with_whole_result :
    (Whole → DuplexConnection → Handled)
    → DuplexConnection
    → (ℕ → Option Joiner) × Option Whole
    → Handled
with_whole_result go dc (fragments, none) = handled (record dc { fragments = fragments })
with_whole_result go dc (fragments, some w) = go w (record dc { fragments = fragments })

abbrev pub with_whole :
    ℕ → Fragment → (Whole → DuplexConnection → Handled) → DuplexConnection → Handled
with_whole sid f go dc = with_whole_result go dc (do_fragment dc.fragments sid f)

abbrev pub then_handled : Outcome DuplexConnection → Handled
then_handled o = do dc ← o; handled dc

unfoldable pub on_frame_request_response : Responder → ℕ → Fragment → DuplexConnection → Handled
on_frame_request_response r sid f dc =
    with_whole sid f (λ w dc. handled (respond_request_response r sid w dc)) dc

unfoldable pub on_frame_request_stream : Responder → ℕ → Fragment → DuplexConnection → Handled
on_frame_request_stream r sid f dc =
    with_whole sid f (λ w dc. then_handled (respond_request_stream r sid w dc)) dc

unfoldable pub on_frame_request_channel : Responder → ℕ → Fragment → DuplexConnection → Handled
on_frame_request_channel r sid f dc =
    with_whole sid f (λ w dc. then_handled (respond_request_channel r sid w dc)) dc

unfoldable pub on_frame_fnf : ℕ → Fragment → DuplexConnection → Handled
on_frame_fnf sid f dc = with_whole sid f (λ w dc. handled (respond_fire_and_forget w dc)) dc

-- A processor gets the payload with the next flag and the end with the complete flag.
unfoldable pub to_processor : ℕ → Whole → ℕ → DuplexConnection → DuplexConnection
to_processor pc w flag dc =
    let is_next = check flag Flag.next in
    let dc1 = if is_next then emits (processor_next pc w) dc else dc in
    if check flag Flag.complete
    then emits (processor_complete pc) (if is_next then dc1 else emits (whole_released w) dc1)
    else dc1

unfoldable pub to_callback : Option Callback → ℕ → Whole → ℕ → DuplexConnection → DuplexConnection
to_callback none sid w flag dc = emits (whole_released w) dc
to_callback (some (request_response_callback sink cache)) sid w flag dc =
    emits (sink_success sink w) (register sid (request_response_callback sink (some w)) dc)
to_callback (some (request_stream_callback pc)) sid w flag dc = to_processor pc w flag dc
to_callback (some (request_channel_callback snd rcv)) sid w flag dc = to_processor rcv w flag dc
to_callback (some (respond_channel_callback snd rcv)) sid w flag dc = to_processor rcv w flag dc
to_callback (some (request_response_callback_reverse su)) sid w flag dc = dc
to_callback (some (request_stream_callback_reverse su)) sid w flag dc = dc

-- A whole whose first frame is a request is the request; any other goes to the entry of its stream.
unfoldable pub route : Responder → ℕ → Whole → Fragment → DuplexConnection → Handled
route r sid w h dc =
    if h.frame_type == FrameType.request_fnf
    then handled (respond_fire_and_forget w dc)
    else if h.frame_type == FrameType.request_response
    then handled (respond_request_response r sid w dc)
    else if h.frame_type == FrameType.request_stream
    then then_handled (respond_request_stream r sid w dc)
    else if h.frame_type == FrameType.request_channel
    then then_handled (respond_request_channel r sid w dc)
    else handled (to_callback (dc.messages sid) sid w h.flag dc)

unfoldable pub on_whole : Responder → ℕ → Whole → DuplexConnection → Handled
on_whole r sid w dc = do h ← first w; route r sid w h dc

unfoldable pub on_frame_payload : Responder → ℕ → Fragment → DuplexConnection → Handled
on_frame_payload r sid f dc = with_whole sid f (on_whole r sid) dc

-- The answer has the position and the data of the question.
unfoldable pub on_frame_keepalive : Bool → ℕ → Bytes → DuplexConnection → Handled
on_frame_keepalive respond position d dc = handled (
    emits frame_released
      (if respond then sends (plain (keepalive_frame position (clone_bytes d) false)) dc else dc))

-- The entry of a requester is a panic.
unfoldable pub cancel_entry : Option Callback → DuplexConnection → Outcome DuplexConnection
cancel_entry none dc = done dc
cancel_entry (some (request_response_callback_reverse su)) dc =
    done (emits (subscription_cancel su) dc)
cancel_entry (some (request_stream_callback_reverse su)) dc =
    done (emits (subscription_cancel su) dc)
cancel_entry (some (respond_channel_callback snd rcv)) dc =
    done (emits (subscription_cancel snd) dc)
cancel_entry (some (request_response_callback sink cache)) dc = panic
cancel_entry (some (request_stream_callback pc)) dc = panic
cancel_entry (some (request_channel_callback snd rcv)) dc = panic

unfoldable pub on_frame_cancel : ℕ → DuplexConnection → Handled
on_frame_cancel sid dc = do
  dc1 ← cancel_entry (dc.messages sid) (emits frame_released dc)
  handled (delete_fragment sid dc1)

-- The entry of a responder, but for a channel, is an error of the handler.
unfoldable pub error_entry :
    Option Callback → ℕ → FrozenError → DuplexConnection → DuplexConnection × Bool
error_entry none sid e dc = (delete_fragment sid dc, false)
error_entry (some (request_response_callback sink cache)) sid e dc =
    (emits (sink_error sink (custom e)) dc, false)
error_entry (some (request_stream_callback pc)) sid e dc =
    (emits (processor_error pc (custom e)) dc, false)
error_entry (some (request_channel_callback snd rcv)) sid e dc =
    (emits (processor_error rcv (custom e)) dc, false)
error_entry (some (respond_channel_callback snd rcv)) sid e dc =
    (emits (processor_error rcv (custom e)) dc, false)
error_entry (some (request_response_callback_reverse su)) sid e dc = (dc, true)
error_entry (some (request_stream_callback_reverse su)) sid e dc = (dc, true)

unfoldable pub on_frame_error : ℕ → FrozenError → DuplexConnection → Handled
on_frame_error sid e dc =
    let (dc1, failed) = error_entry (dc.messages sid) sid e dc in
    done (emits frame_released dc1, failed)

unfoldable pub request_entry : Option Callback → ℕ → ℕ → DuplexConnection → DuplexConnection
request_entry none sid n dc = delete_fragment sid dc
request_entry (some (request_stream_callback_reverse su)) sid n dc =
    emits (subscription_request su n) dc
request_entry (some (request_channel_callback snd rcv)) sid n dc =
    emits (subscription_request snd n) dc
request_entry (some (respond_channel_callback snd rcv)) sid n dc =
    emits (subscription_request snd n) dc
request_entry (some (request_response_callback sink cache)) sid n dc = dc
request_entry (some (request_stream_callback pc)) sid n dc = dc
request_entry (some (request_response_callback_reverse su)) sid n dc = dc

unfoldable pub on_frame_request_n : ℕ → ℕ → ℕ → DuplexConnection → Handled
on_frame_request_n request_max sid n dc =
    handled (
      emits frame_released
        (request_entry (dc.messages sid) sid (to_int_request_n request_max n) dc))

-- ===== src/Transport/Dispatch.antt =====
-- DispatchFrame of core/transport/transport.go, with the handlers that SetTransport of
-- internal/socket/duplex.go registers. The connection under the transport is a parameter: whether
-- SetDeadline succeeds.
use rsocket_go.Base.{ℕ, ◌+◌, ◌==◌, ◌≡◌, refl, Bool, true, false, Option, none, some, ltb}
use rsocket_go.Base.{if◌then◌else◌, ◌⊎◌, inl, inr}
use rsocket_go.Base.Outcome.{Outcome, done, panic, ◌>>=◌}
use rsocket_go.BigEndian.{Bytes}
use rsocket_go.Core.FrameType
use rsocket_go.Framing.Error.{FrozenError}
use rsocket_go.Fragmentation.Joiner.{Fragment}
use rsocket_go.Socket.Duplex.{DuplexConnection, Responder}
use rsocket_go.Socket.Duplex.Receiving.{
  Handled, on_frame_request_response, on_frame_request_stream, on_frame_request_channel,
  on_frame_fnf, on_frame_payload, respond_metadata_push, on_frame_keepalive, on_frame_cancel,
  on_frame_error, on_frame_request_n,
}
use rsocket_go.Socket.Duplex.Arrival.{StreamFrame, with_payload, cancels, fails, requests, handle}
use rsocket_go.Socket.Duplex.Delivery.{receive}

pub data EventType : Type 0 where
  on_setup on_resume on_lease on_resume_ok on_fire_and_forget on_metadata_push : EventType
  on_request_response on_request_stream on_request_channel on_payload on_request_n : EventType
  on_error on_error_with_zero_stream_id on_cancel on_keepalive : EventType

-- A frame as its readers give it: MaxLifetime of a setup frame, LastReceivedClientPosition of RESUME_OK, the
-- respond flag, LastReceivedPosition and Data of a keepalive frame.
pub data Body : Type 0 where
  stream : StreamFrame → Body
  setup : ℕ → Body
  resume lease : Body
  resume_ok : ℕ → Body
  metadata_push : Option Bytes → Body
  keepalive : Bool → ℕ → Bytes → Body
  -- a type that no frame of this protocol version has
  unknown : ℕ → Body

abbrev pub type_of : Body → ℕ
type_of (stream (with_payload f)) = f.frame_type
type_of (stream cancels) = FrameType.cancel
type_of (stream (fails e)) = FrameType.error
type_of (stream (requests n)) = FrameType.request_n
type_of (setup lifetime) = FrameType.setup
type_of resume = FrameType.resume
type_of lease = FrameType.lease
type_of (resume_ok position) = FrameType.resume_ok
type_of (metadata_push m) = FrameType.metadata_push
type_of (keepalive respond position d) = FrameType.keepalive
type_of (unknown t) = t

abbrev pub Handler : Type 0
Handler = ℕ → Body → DuplexConnection → Handled

pub record Transport : Type 0 where
  pub max_lifetime : ℕ
  pub last_rcv_pos : ℕ
  pub handlers : EventType → Option Handler
  -- the last deadline that was set
  pub deadline : Option ℕ

pub data DispatchError : Type 0 where
  no_error : DispatchError
  -- the peer's error for the connection
  peer_error : FrozenError → DispatchError
  deadline_failed : DispatchError
  no_handler : DispatchError
  handler_failed : DispatchError

-- SetLifetime
unfoldable pub set_lifetime : ℕ → Transport → Transport
set_lifetime lifetime p = if ltb lifetime 1 then p else record p { max_lifetime = lifetime }

-- What the switch on the type chooses.
pub data Choice : Type 0 where
  event : EventType → Choice
  -- METADATA_PUSH on a stream
  skipped : Choice
  -- ERROR on the connection
  connection_error : Choice
  -- no case of the switch
  unmatched : Choice

unfoldable pub choose : ℕ → ℕ → Choice
choose t sid =
    if t == FrameType.setup
    then event on_setup
    else if t == FrameType.resume
    then event on_resume
    else if t == FrameType.resume_ok
    then event on_resume_ok
    else if t == FrameType.request_fnf
    then event on_fire_and_forget
    else if t == FrameType.metadata_push
    then (if sid == 0 then event on_metadata_push else skipped)
    else if t == FrameType.request_response
    then event on_request_response
    else if t == FrameType.request_stream
    then event on_request_stream
    else if t == FrameType.request_channel
    then event on_request_channel
    else if t == FrameType.payload
    then event on_payload
    else if t == FrameType.request_n
    then event on_request_n
    else if t == FrameType.error
    then (if sid == 0 then connection_error else event on_error)
    else if t == FrameType.cancel
    then event on_cancel
    else if t == FrameType.keepalive
    then event on_keepalive
    else if t == FrameType.lease
    then event on_lease
    else unmatched

-- The fields that the switch sets from the frame.
abbrev pub noted : Body → Transport → Transport
noted (setup lifetime) p = record p { max_lifetime = lifetime }
noted (resume_ok position) p = record p { last_rcv_pos = position }
noted (keepalive respond position d) p = record p { last_rcv_pos = position }
noted _ p = p

abbrev pub Dispatched : Type 0
Dispatched = Outcome (Transport × DuplexConnection × DispatchError)

abbrev pub after_handler : Transport → Handled → Dispatched
after_handler p panic = panic
after_handler p (done (dc, true)) = done (p, dc, handler_failed)
after_handler p (done (dc, false)) = done (p, dc, no_error)

abbrev pub runs : Option Handler → ℕ → Body → Transport → DuplexConnection → Dispatched
runs none sid b p dc = done (p, dc, no_handler)
runs (some h) sid b p dc = after_handler p (h sid b dc)

-- The deadline comes before the handler is looked at.
abbrev pub with_deadline :
    Bool → ℕ → Option Handler → ℕ → Body → Transport → DuplexConnection → Dispatched
with_deadline false now h sid b p dc = done (p, dc, deadline_failed)
with_deadline true now h sid b p dc =
    runs h sid b (record p { deadline = some (now + p.max_lifetime) }) dc

-- The handler's own error is dropped; the peer's is returned.
abbrev pub tells :
    Option Handler → ℕ → Body → FrozenError → Transport → DuplexConnection → Dispatched
tells none sid b e p dc = done (p, dc, peer_error e)
tells (some h) sid b e p dc = h sid b dc >>= λ x. done (p, x.0, peer_error e)

abbrev pub connection_failed : ℕ → Body → Transport → DuplexConnection → Dispatched
connection_failed sid (stream (fails e)) p dc =
    tells (p.handlers on_error_with_zero_stream_id) sid (stream (fails e)) e p dc
connection_failed sid b p dc = panic

abbrev pub dispatch_choice :
    Choice → Bool → ℕ → ℕ → Body → Transport → DuplexConnection → Dispatched
dispatch_choice skipped ok now sid b p dc = done (p, dc, no_error)
dispatch_choice connection_error ok now sid b p dc = connection_failed sid b p dc
dispatch_choice (event e) ok now sid b p dc =
    with_deadline ok now (p.handlers e) sid b (noted b p) dc
dispatch_choice unmatched ok now sid b p dc = with_deadline ok now none sid b (noted b p) dc

unfoldable pub dispatch_frame : Bool → ℕ → ℕ → Body → Transport → DuplexConnection → Dispatched
dispatch_frame ok now sid b p dc = dispatch_choice (choose (type_of b) sid) ok now sid b p dc

-- The handlers assert the type of their frame.
abbrev as_fragment : (ℕ → Fragment → DuplexConnection → Handled) → Handler
as_fragment go sid (stream (with_payload f)) dc = go sid f dc
as_fragment go sid b dc = panic

abbrev as_error : Handler
as_error sid (stream (fails e)) dc = on_frame_error sid e dc
as_error sid b dc = panic

abbrev as_request_n : ℕ → Handler
as_request_n request_max sid (stream (requests n)) dc = on_frame_request_n request_max sid n dc
as_request_n request_max sid b dc = panic

abbrev as_keepalive : Handler
as_keepalive sid (keepalive respond position d) dc = on_frame_keepalive respond position d dc
as_keepalive sid b dc = panic

abbrev as_metadata_push : Handler
as_metadata_push sid (metadata_push m) dc = respond_metadata_push m dc
as_metadata_push sid b dc = panic

abbrev if_some : Bool → Handler → Option Handler
if_some true h = some h
if_some false h = none

-- The table after SetTransport, with or without a responder.
unfoldable pub set_transport : ℕ → Responder → Bool → EventType → Option Handler
set_transport request_max r has on_cancel = some (λ sid b dc. on_frame_cancel sid dc)
set_transport request_max r has on_error = some as_error
set_transport request_max r has on_request_n = some (as_request_n request_max)
set_transport request_max r has on_payload = some (as_fragment (on_frame_payload r))
set_transport request_max r has on_keepalive = some as_keepalive
set_transport request_max r has on_request_response =
    if_some has (as_fragment (on_frame_request_response r))
set_transport request_max r has on_metadata_push = if_some has as_metadata_push
set_transport request_max r has on_fire_and_forget = if_some has (as_fragment on_frame_fnf)
set_transport request_max r has on_request_stream =
    if_some has (as_fragment (on_frame_request_stream r))
set_transport request_max r has on_request_channel =
    if_some has (as_fragment (on_frame_request_channel r))
set_transport request_max r has _ = none

-- The types of frames with a payload, and the same for every other frame of a stream.
pub data Kind : StreamFrame → Type 0 where
  payload_kind :
      (f : Fragment)
      → (f.frame_type ≡ FrameType.request_fnf)
        ⊎ ((f.frame_type ≡ FrameType.request_response)
            ⊎ ((f.frame_type ≡ FrameType.request_stream)
                ⊎ ((f.frame_type ≡ FrameType.request_channel)
                    ⊎ (f.frame_type ≡ FrameType.payload))))
      → Kind (with_payload f)
  cancel_kind : Kind cancels
  error_kind : (e : FrozenError) → Kind (fails e)
  request_n_kind : (n : ℕ) → Kind (requests n)

module _ (request_max : ℕ) (r : Responder) (now : ℕ) (p : Transport)
    (registered : p.handlers ≡ set_transport request_max r true) where
  abbrev pub refreshed : Transport
  refreshed = record p { deadline = some (now + p.max_lifetime) }

  -- With the handlers that the connection registers, no transport error and a deadline that can be
  -- set, dispatching a request, payload, cancel, error or request n frame of a stream other than 0
  -- sets the deadline and does what the connection's handler for frames of that type does, an
  -- error of it included.
  pub dispatch_frame-handle :
      (sid : ℕ) (f : StreamFrame) (dc : DuplexConnection)
      → Kind f
      → sid == 0 ≡ false
      → dispatch_frame true now sid (stream f) p dc
        ≡ after_handler refreshed (handle request_max r sid f dc)
  unfolding dispatch_frame choose set_transport handle receive
  dispatch_frame-handle sid (with_payload f) dc (payload_kind _ (inl e)) nz =
      rw (e, registered) refl
  dispatch_frame-handle sid (with_payload f) dc (payload_kind _ (inr (inl e))) nz =
      rw (e, registered) refl
  dispatch_frame-handle sid (with_payload f) dc (payload_kind _ (inr (inr (inl e)))) nz =
      rw (e, registered) refl
  dispatch_frame-handle sid (with_payload f) dc (payload_kind _ (inr (inr (inr (inl e))))) nz =
      rw (e, registered) refl
  dispatch_frame-handle sid (with_payload f) dc (payload_kind _ (inr (inr (inr (inr e))))) nz =
      rw (e, registered) refl
  dispatch_frame-handle sid cancels dc cancel_kind nz = rw (registered) refl
  dispatch_frame-handle sid (fails x) dc (error_kind _) nz = rw (nz, registered) refl
  dispatch_frame-handle sid (requests n) dc (request_n_kind _) nz = rw (registered) refl

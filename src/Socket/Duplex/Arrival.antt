-- ===== src/Socket/Duplex/Arrival.antt =====
-- SetTransport of internal/socket/duplex.go: the handlers that a connection with a responder has for the
-- frames of its streams.
use rsocket_go.Base.{ℕ}
use rsocket_go.Framing.Error.{FrozenError}
use rsocket_go.Fragmentation.Joiner.{Fragment}
use rsocket_go.Socket.Duplex.{DuplexConnection, Responder}
use rsocket_go.Socket.Duplex.Receiving.{
  Handled, on_frame_cancel, on_frame_error, on_frame_request_n,
}
use rsocket_go.Socket.Duplex.Delivery.{receive}

-- A frame of a stream, as its handler reads it.
pub data StreamFrame : Type 0 where
  with_payload : Fragment → StreamFrame
  cancels : StreamFrame
  fails : FrozenError → StreamFrame
  requests : ℕ → StreamFrame

unfoldable pub handle : ℕ → Responder → ℕ → StreamFrame → DuplexConnection → Handled
handle request_max r sid (with_payload f) dc = receive r sid f dc
handle request_max r sid cancels dc = on_frame_cancel sid dc
handle request_max r sid (fails e) dc = on_frame_error sid e dc
handle request_max r sid (requests n) dc = on_frame_request_n request_max sid n dc

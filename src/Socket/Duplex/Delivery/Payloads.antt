-- ===== src/Socket/Duplex/Delivery/Payloads.antt =====
-- A payload from sendPayload to the entry of its stream on the other side. The flags of a payload are
-- those of its first frame.
use rsocket_go.Base.{ℕ, ◌≡◌, refl, ap, ◌∙◌, sym, List}
use rsocket_go.Base.{true, false, Option, none, some, if◌then◌else◌}
use mathlib.Core.Path.{subst}
use rsocket_go.Base.Outcome.{done}
use rsocket_go.Core.Flag
use rsocket_go.Core.FrameType
use rsocket_go.Core.Types.{check}
use rsocket_go.Framing.Parts.{calc_payload_frame_size}
use rsocket_go.Fragmentation.Splitter.{is_valid_fragment}
use rsocket_go.Fragmentation.Joiner.{Fragment, Whole}
use rsocket_go.Socket.Duplex.{
  payload_frame, Payload, Responder, Event, DuplexConnection, should_split,
}
use rsocket_go.Socket.Duplex.Sending.{metadata_bytes, release_hook, and_sends}
use rsocket_go.Socket.Duplex.Receiving.{route}
use rsocket_go.Socket.Duplex.Delivery.{settled}
use rsocket_go.Fragmentation.Splitter.{split}
use rsocket_go.Socket.Duplex.Sending.{sends, payload_frames, send_payload}
use rsocket_go.Socket.Duplex.Receiving.{to_callback}
use rsocket_go.Socket.Duplex.Delivery.Request.{
  inc_payload_events, Answered, Requested-Answered_head,
}
use rsocket_go.Socket.Duplex.Delivery.PayloadFlags.{PayloadKind, flags}
use rsocket_go.Socket.Duplex.Delivery.Response.{is_cut, Paid, send_payload-Paid}

-- On an open connection with a valid fragment size, sendPayload with NEXT, COMPLETE or both queues
-- frames and returns with the connection as open and its fragment size as they were; another
-- connection, with no unfinished payload for the stream, that receives them in their order does
-- exactly what its entry for the stream does with one payload with the metadata (absent where
-- empty) and the data; the flags that it goes by have NEXT as sent, and COMPLETE as sent unless
-- the payload was cut, where COMPLETE is missing.
pub send_payload-Answered :
    (r : Responder) (sid : ℕ) (k : PayloadKind) (p : Payload) (dc peer : DuplexConnection)
    → dc.closed ≡ false
    → is_valid_fragment dc.mtu ≡ true
    → peer.fragments sid ≡ none
    → (flag : ℕ) × (a : Answered sid dc peer
        (metadata_bytes p)
        p.data_bytes
        (send_payload sid p (flags k) dc)
        r
        (λ w q. done (to_callback (q.messages sid) sid w flag q)))
      × (check flag Flag.next ≡ check (flags k) Flag.next)
      × (check flag Flag.complete
          ≡ (if is_cut a.sent then false else check (flags k) Flag.complete))
unfolding send_payload route
send_payload-Answered r sid k p dc peer is_open valid free =
    let (es, e) = inc_payload_events p.releasable dc in
    answered (
      subst
        (λ s.
          Paid r sid k (record dc { events = es }) peer (metadata_bytes p) p.data_bytes
            (if should_split (calc_payload_frame_size p.data_bytes (metadata_bytes p)) s
              then and_sends sends (payload_frames sid (flags k) (release_hook p.releasable))
                  (split s.mtu p.data_bytes (metadata_bytes p)) s
              else some (
                  sends
                    (record {
                      frame = payload_frame sid p.data_bytes (metadata_bytes p) (flags k);
                      hook = release_hook p.releasable;
                    })
                    s)))
        (sym e) (send_payload-Paid r sid k p (record dc { events = es }) peer is_open valid free))
  where
    routed :
        (flag : ℕ) (h : Fragment) (w : Whole) (q : DuplexConnection)
        → h.frame_type ≡ FrameType.payload
        → h.flag ≡ flag
        → settled (route r sid w h q) ≡ done (to_callback (q.messages sid) sid w flag q)
    routed flag h w q kind e = rw (kind, e) refl

    answered :
        {es : List Event} {result : Option DuplexConnection}
        → Paid r sid k (record dc { events = es }) peer (metadata_bytes p) p.data_bytes result
        → (flag : ℕ) × (a : Answered sid dc peer
            (metadata_bytes p)
            p.data_bytes
            result
            r
            (λ w q. done (to_callback (q.messages sid) sid w flag q)))
          × (check flag Flag.next ≡ check (flags k) Flag.next)
          × (check flag Flag.complete
              ≡ (if is_cut a.sent then false else check (flags k) Flag.complete))
    answered {es} {result} paid =
        let head = paid.requested.head in
        let (a, same) =
          Requested-Answered_head r sid FrameType.payload 0 dc (record dc { events = es }) peer
            (metadata_bytes p) p.data_bytes result
            (λ w q. done (to_callback (q.messages sid) sid w head.flag q)) (refl, refl, refl)
            paid.requested (λ w q f. routed head.flag head w q paid.requested.kind refl) in
        (
          head.flag,
          a,
          paid.head_flags.0,
          paid.head_flags.1
              ∙ ap (λ x. if is_cut x then false else check (flags k) Flag.complete) (sym same),
        )

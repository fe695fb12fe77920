-- ===== src/Socket/Duplex/Sending.antt =====
-- The requester's side of internal/socket/duplex.go, and sendPayload: frames for the queue. A split is on
-- fuel, hence the Option; with a valid fragment size it always ends.
use rsocket_go.Base.{ℕ, ◌+◌, ◌-◌, Bool, List, [], ◌∷◌, Option, none, some, bit_or}
use rsocket_go.Base.{if◌then◌else◌, length, not, ◌&&◌, map, suc}
use rsocket_go.BigEndian.{Bytes}
use rsocket_go.Core.Flag
use rsocket_go.Core.Types.{check}
use rsocket_go.Core.Header.{frame_header_len}
use rsocket_go.Framing.Parts.{calc_payload_frame_size}
use rsocket_go.Fragmentation.Splitter.{SplitResult, split, split_skip}
use rsocket_go.Fragmentation.Joiner.{Whole}
use rsocket_go.Socket.Duplex.{
  OutFrame, request_response_frame, fire_and_forget_frame, payload_frame, cancel_frame,
  metadata_push_frame, Hook, release_payload, Queued, Payload, Callback, request_response_callback,
  inc_ref, payload_released, DuplexConnection, emits, try_release, register, unregister, send_frame,
  kill_callback, should_split, take_stream_id,
}

-- `metadata, _ := p.Metadata()`
abbrev pub metadata_bytes : Payload → Bytes
metadata_bytes p = from p.metadata
  where
    from : Option Bytes → Bytes
    from none = []
    from (some m) = m

abbrev pub inc_payload : Option ℕ → DuplexConnection → DuplexConnection
inc_payload none dc = dc
inc_payload (some p) dc = emits (inc_ref p) dc

abbrev pub release_hook : Option ℕ → Option Hook
release_hook none = none
release_hook (some p) = some (release_payload p)

-- A frame with no hook, or whose failure is not asked for.
abbrev pub sends : Queued → DuplexConnection → DuplexConnection
sends q dc = (send_frame q dc).0

abbrev pub plain : OutFrame → Queued
plain f = record { frame = f; hook = none }

-- if ok := dc.sendFrame(toBeSent); !ok { dc.killCallback(sid) }
unfoldable pub send_or_kill : ℕ → Queued → DuplexConnection → DuplexConnection
send_or_kill sid q dc =
    let (sent, ok) = send_frame q dc in if ok then sent else kill_callback sid sent

unfoldable pub send_each :
    (Queued → DuplexConnection → DuplexConnection)
    → List Queued
    → DuplexConnection
    → DuplexConnection
send_each send [] dc = dc
send_each send (q ∷ qs) dc = send_each send qs (send q dc)

abbrev pub is_last : SplitResult → Bool
is_last r = not (check r.flag Flag.follow)

-- The frame of each result, with the hook at the last one.
abbrev pub hooked : (SplitResult → OutFrame) → Option Hook → SplitResult → Queued
hooked frame hook r = record { frame = frame r; hook = if is_last r then hook else none }

abbrev pub later_frame : ℕ → SplitResult → OutFrame
later_frame sid r = payload_frame sid r.data_bytes r.metadata (bit_or r.flag Flag.next)

-- The first result makes a frame of the request, the others payload frames with the next flag.
unfoldable pub request_frames :
    (SplitResult → OutFrame) → ℕ → Option Hook → List SplitResult → List Queued
request_frames first sid hook [] = []
request_frames first sid hook (r ∷ rs) =
    hooked first hook r ∷ map (hooked (later_frame sid) hook) rs

abbrev pub and_sends :
    (Queued → DuplexConnection → DuplexConnection)
    → (List SplitResult → List Queued)
    → Option (List SplitResult)
    → DuplexConnection
    → Option DuplexConnection
and_sends send frames none dc = none
and_sends send frames (some rs) dc = some (send_each send (frames rs) dc)

-- One request: a single frame, or the frames of a split that leaves out `skip` bytes of the first.
unfoldable pub send_request :
    ℕ
    → ℕ
    → ℕ
    → Option Hook
    → Bytes
    → Bytes
    → (Bytes → Bytes → ℕ → OutFrame)
    → DuplexConnection
    → Option DuplexConnection
send_request sid size skip hook d m frame dc =
    if should_split size dc
    then and_sends (send_or_kill sid)
        (request_frames (λ r. frame r.data_bytes r.metadata r.flag) sid hook)
        (split_skip dc.mtu skip d m) dc
    else some (send_or_kill sid (record { frame = frame d m 0; hook = hook }) dc)

-- The release comes before the last frame is sent, not after it is written.
abbrev pub fire_and_forget_send : Option ℕ → Queued → DuplexConnection → DuplexConnection
fire_and_forget_send none q dc = sends q dc
fire_and_forget_send (some p) q dc = by_hook q.hook
  where
    by_hook : Option Hook → DuplexConnection
    by_hook none = sends q dc
    by_hook (some h) = sends (plain q.frame) (emits (payload_released p) dc)

abbrev metadata_size : Option Bytes → ℕ
metadata_size none = 0
metadata_size (some m) = 3 + length m

abbrev pub with_id :
    Option (DuplexConnection × ℕ)
    → (ℕ → DuplexConnection → Option DuplexConnection)
    → Option DuplexConnection
with_id none go = none
with_id (some (dc, sid)) go = go sid dc

unfoldable pub fire_and_forget_on : Payload → ℕ → DuplexConnection → Option DuplexConnection
fire_and_forget_on req sid dc =
    let d = req.data_bytes in
    let m = metadata_bytes req in
    let counted = inc_payload req.releasable dc in
    if should_split (frame_header_len + length d + metadata_size req.metadata) counted
    then and_sends (fire_and_forget_send req.releasable)
        (request_frames (λ r. fire_and_forget_frame sid r.data_bytes r.metadata r.flag) sid
          (release_hook req.releasable))
        (split counted.mtu d m) counted
    else some (
        sends
          (record { frame = fire_and_forget_frame sid d m 0; hook = release_hook req.releasable })
          counted)

unfoldable pub fire_and_forget : ℕ → Payload → DuplexConnection → Option DuplexConnection
fire_and_forget fuel req dc = with_id (take_stream_id fuel dc) (fire_and_forget_on req)

unfoldable pub metadata_push : Payload → DuplexConnection → DuplexConnection
metadata_push p dc =
    if dc.closed then dc else sends (plain (metadata_push_frame (metadata_bytes p))) dc

-- Behind the stream id; the sink gets the next number.
unfoldable pub request_response_on : Payload → ℕ → DuplexConnection → Option DuplexConnection
request_response_on req sid dc =
    let handler = request_response_callback dc.fresh none in
    let registered = register sid handler (record dc { fresh = suc dc.fresh }) in
    send_request sid (calc_payload_frame_size req.data_bytes (metadata_bytes req)) 0
      (release_hook req.releasable) req.data_bytes (metadata_bytes req) (request_response_frame sid)
      (inc_payload req.releasable registered)

-- A closed connection gives mono.Error, and nothing changes.
unfoldable pub request_response : ℕ → Payload → DuplexConnection → Option DuplexConnection
request_response fuel req dc =
    if dc.closed then some dc else with_id (take_stream_id fuel dc) (request_response_on req)

pub data Signal : Type 0 where
  signal_cancel signal_error signal_complete : Signal

-- The sender tells its peer of a cancellation.
abbrev pub tell_cancel : Signal → ℕ → DuplexConnection → DuplexConnection
tell_cancel signal_cancel sid dc = sends (plain (cancel_frame sid)) dc
tell_cancel signal_error sid dc = dc
tell_cancel signal_complete sid dc = dc

abbrev pub cache_of : Option Callback → Option Whole
cache_of (some (request_response_callback sink cache)) = cache
cache_of other = none

-- onFinally of RequestResponse; the handler is the entry of the table, that nothing else takes out.
unfoldable pub request_response_finally : ℕ → Signal → DuplexConnection → DuplexConnection
request_response_finally sid sig dc =
    unregister sid (tell_cancel sig sid (try_release (cache_of (dc.messages sid)) dc))

-- What sendPayload makes of the flag at each frame: (C)omplete is for the last one.
unfoldable pub first_payload_flag : ℕ → SplitResult → ℕ
first_payload_flag frame_flag r =
    let flag = bit_or r.flag frame_flag in
    if is_last r then flag else if check flag Flag.complete then flag - Flag.complete else flag

unfoldable pub later_payload_flag : ℕ → SplitResult → ℕ
later_payload_flag frame_flag r =
    let flag = bit_or r.flag Flag.next in
    if is_last r && check frame_flag Flag.complete then bit_or flag Flag.complete else flag

unfoldable pub payload_frames : ℕ → ℕ → Option Hook → List SplitResult → List Queued
payload_frames sid frame_flag hook [] = []
payload_frames sid frame_flag hook (r ∷ rs) =
    hooked (λ r. payload_frame sid r.data_bytes r.metadata (first_payload_flag frame_flag r)) hook r
    ∷ map
        (hooked (λ r. payload_frame sid r.data_bytes r.metadata (later_payload_flag frame_flag r))
          hook)
        rs

unfoldable pub send_payload : ℕ → Payload → ℕ → DuplexConnection → Option DuplexConnection
send_payload sid sending frame_flag dc =
    let d = sending.data_bytes in
    let m = metadata_bytes sending in
    let hook = release_hook sending.releasable in
    let counted = inc_payload sending.releasable dc in
    if should_split (calc_payload_frame_size d m) counted
    then and_sends sends (payload_frames sid frame_flag hook) (split counted.mtu d m) counted
    else some (sends (record { frame = payload_frame sid d m frame_flag; hook = hook }) counted)

-- ===== src/Socket/Duplex/Delivery/Request.antt =====
-- A request from the call of the requester to the responder of the other side.
use rsocket_go.Base.{ℕ, ◌≡◌, refl, ap, ◌∙◌, sym, List, [], ◌∷◌, ◌++◌, append-nil, append_assoc}
use rsocket_go.Base.{
  true, false, Option, none, some, bit_or, map, All, if◌then◌else◌, Bool-cases, inl, inr,
}
use rsocket_go.Base.{nonempty}
use mathlib.Core.Path.{subst}
use rsocket_go.Base.Outcome.{Outcome, done}
use rsocket_go.BigEndian.{Bytes}
use rsocket_go.Core.Flag
use rsocket_go.Core.FrameType
use rsocket_go.Core.Types.{check, IsFlag}
use rsocket_go.Framing.Shape.{reported}
use rsocket_go.Fragmentation.Splitter.{SplitResult, split_skip, is_valid_fragment}
use rsocket_go.Fragmentation.Splitter.Correct.{Splits, split_skip-Splits}
use rsocket_go.Fragmentation.Joiner.{Fragment, Fragments, Whole, whole_metadata, whole_data}
use rsocket_go.Fragmentation.Joiner.Reassembly.{AllCarry}
use rsocket_go.Socket.Duplex.{
  OutFrame, Hook, Queued, Responder, Event, inc_ref, DuplexConnection, send_frame, should_split,
}
use rsocket_go.Socket.Duplex.Sending.{
  inc_payload, hooked, later_frame, send_or_kill, send_each, request_frames, and_sends,
  send_request,
}
use rsocket_go.Socket.Duplex.Receiving.{first, route}
use rsocket_go.Socket.Duplex.Wire.{fragment_of}
use rsocket_go.Socket.Duplex.Delivery.{
  receive_all, settled, on_stream, IsPayload, Delivered, receive_all-payload,
}
use rsocket_go.Socket.Duplex.Delivery.Flags.{
  fragment, Keeps, next-Keeps, fragment-Carries, fragments-AllCarry, uncut, uncut-Splits,
  uncut-Carries,
}

-- What the frames of a queue are for their receiver.
abbrev pub read : Queued → Option (ℕ × Fragment)
read q = fragment_of q.frame

abbrev pub later_fragments : (ℕ → ℕ) → List SplitResult → List Fragment
later_fragments change rs = map (λ r. fragment FrameType.payload 0 (change r.flag) r) rs

pub later_fragments-IsPayload :
    (r : Responder) (sid : ℕ) (change : ℕ → ℕ) (rs : List SplitResult)
    → All (IsPayload r sid) (later_fragments change rs)
later_fragments-IsPayload r sid change [] = tt
later_fragments-IsPayload r sid change (q ∷ rs) = (refl, later_fragments-IsPayload r sid change rs)

-- An open connection takes every frame.
pub send_each-open :
    (send : Queued → DuplexConnection → DuplexConnection) (qs : List Queued) (dc : DuplexConnection)
    → ((q : Queued) (dc : DuplexConnection)
        → dc.closed ≡ false
        → send q dc ≡ record dc { snd_queue = dc.snd_queue ++ (q ∷ []) })
    → dc.closed ≡ false
    → send_each send qs dc ≡ record dc { snd_queue = dc.snd_queue ++ qs }
unfolding send_each
send_each-open send [] dc takes is_open =
    ap (λ x. record dc { snd_queue = x }) (sym (append-nil dc.snd_queue))
send_each-open send (q ∷ qs) dc takes is_open =
    ap (send_each send qs) (takes q dc is_open)
    ∙ send_each-open send qs (record dc { snd_queue = dc.snd_queue ++ (q ∷ []) }) takes is_open
    ∙ ap (λ x. record dc { snd_queue = x }) (append_assoc dc.snd_queue (q ∷ []) qs)

send_or_kill-open :
    (sid : ℕ) (q : Queued) (dc : DuplexConnection)
    → dc.closed ≡ false
    → send_or_kill sid q dc ≡ record dc { snd_queue = dc.snd_queue ++ (q ∷ []) }
unfolding send_or_kill send_frame
send_or_kill-open sid q dc e = rw e refl

read-later :
    (sid : ℕ) (hook : Option Hook) (rs : List SplitResult)
    → map read (map (hooked (later_frame sid) hook) rs)
      ≡ map (λ f. some (sid, f)) (later_fragments (λ g. bit_or g Flag.next) rs)
unfolding fragment_of
read-later sid hook [] = refl
read-later sid hook (r ∷ rs) =
    ap (λ x. read (hooked (later_frame sid) hook r) ∷ x) (read-later sid hook rs)

-- What the sender has put in the queue, and what the receiver makes of it.
pub record Requested (r : Responder) (sid t n : ℕ) (dc : DuplexConnection) (peer : DuplexConnection)
    (m d : Bytes) (result : Option DuplexConnection) : Type 0 where
  pub sent : List Queued
  pub head : Fragment
  pub tail : List Fragment
  pub queued : result ≡ some (record dc { snd_queue = dc.snd_queue ++ sent })
  pub kind : head.frame_type ≡ t
  pub count : head.initial_n ≡ n
  pub reads : map read sent ≡ map (λ f. some (sid, f)) (head ∷ tail)
  pub delivered :
      Delivered r sid head peer m d (receive_all r (map (on_stream r sid) (head ∷ tail)) peer)

module _ (r : Responder) (sid t n : ℕ) (frame : Bytes → Bytes → ℕ → OutFrame) (change : ℕ → ℕ)
    (keeps : Keeps change)
    (bare : IsFlag (change 0)
      × (check (change 0) Flag.metadata ≡ false)
      × (check (change 0) Flag.follow ≡ false))
    (reads : (q : SplitResult) (g : ℕ)
      → fragment_of (frame q.data_bytes q.metadata g) ≡ some (sid, fragment t n (change g) q)) where
  cut :
      (rs : List SplitResult) (hook : Option Hook) (m d : Bytes) (dc peer : DuplexConnection)
      → dc.closed ≡ false
      → peer.fragments sid ≡ none
      → Splits rs m d
      → nonempty rs ≡ true
      → Requested r sid t n dc peer m d (
          some (
            send_each
              (send_or_kill sid)
              (request_frames (λ q. frame q.data_bytes q.metadata q.flag) sid hook rs)
              dc))
  unfolding request_frames Splits AllCarry
  cut [] hook m d dc peer is_open free s ne = cc
  cut (q ∷ rs) hook m d dc peer is_open free s ne =
      let (m', d', em, ed, ef, rest) = s in
      record {
        sent = request_frames (λ q. frame q.data_bytes q.metadata q.flag) sid hook (q ∷ rs);
        head = fragment t n (change q.flag) q;
        tail = later_fragments (λ g. bit_or g Flag.next) rs;
        queued = ap some (send_each-open (send_or_kill sid) _ dc (send_or_kill-open sid) is_open);
        kind = refl;
        count = refl;
        reads = (λ i. reads q q.flag i ∷ read-later sid hook rs i);
        delivered =
            receive_all-payload r sid (q ∷ rs) (fragment t n (change q.flag) q)
              (later_fragments (λ g. bit_or g Flag.next) rs) m d peer free
              (
                fragment-Carries t n change q (nonempty rs) m m' keeps ef em,
                fragments-AllCarry FrameType.payload 0 (λ g. bit_or g Flag.next) rs m' d' next-Keeps
                    rest,
              )
              (later_fragments-IsPayload r sid (λ g. bit_or g Flag.next) rs) s;
      }

  whole_sent :
      (hook : Option Hook) (m d : Bytes) (dc peer : DuplexConnection)
      → dc.closed ≡ false
      → peer.fragments sid ≡ none
      → Requested r sid t n dc peer m d
          (some (send_or_kill sid (record { frame = frame d m 0; hook = hook }) dc))
  unfolding AllCarry
  whole_sent hook m d dc peer is_open free = record {
    sent = record { frame = frame d m 0; hook = hook } ∷ [];
    head = fragment t n (change 0) (uncut d m);
    tail = [];
    queued = ap some (send_or_kill-open sid _ dc is_open);
    kind = refl;
    count = refl;
    reads = ap (λ x. x ∷ []) (reads (uncut d m) 0);
    delivered =
        receive_all-payload r sid (uncut d m ∷ []) (fragment t n (change 0) (uncut d m)) [] m d peer
          free (uncut-Carries t n (change 0) d m bare.0 bare.1 bare.2, tt) tt (uncut-Splits d m);
  }

  pub send_request-Requested :
      (size skip : ℕ) (hook : Option Hook) (m d : Bytes) (dc peer : DuplexConnection)
      → dc.closed ≡ false
      → is_valid_fragment dc.mtu ≡ true
      → peer.fragments sid ≡ none
      → Requested r sid t n dc peer m d (send_request sid size skip hook d m frame dc)
  unfolding send_request
  send_request-Requested size skip hook m d dc peer is_open valid free =
      elim (Bool-cases (should_split size dc)) [
        | inl e ↦
            let (rs, es, ne, s) = split_skip-Splits dc.mtu skip d m valid in
            subst (λ x. Requested r sid t n dc peer m d x)
              (sym (
                ap (λ b. if b then on_split (split_skip dc.mtu skip d m) else single_frame) e
                ∙ ap on_split es))
              (cut rs hook m d dc peer is_open free s ne)
        | inr e ↦
            subst (λ x. Requested r sid t n dc peer m d x)
              (sym (ap (λ b. if b then on_split (split_skip dc.mtu skip d m) else single_frame) e))
              (whole_sent hook m d dc peer is_open free)
      ]
    where
      on_split : Option (List SplitResult) → Option DuplexConnection
      on_split o =
          and_sends (send_or_kill sid)
            (request_frames (λ r. frame r.data_bytes r.metadata r.flag) sid hook) o dc

      single_frame : Option DuplexConnection
      single_frame = some (send_or_kill sid (record { frame = frame d m 0; hook = hook }) dc)

-- Counting a reference changes the events only.
pub inc_payload_events :
    (o : Option ℕ) (dc : DuplexConnection)
    → (es : List Event) × (inc_payload o dc ≡ record dc { events = es })
inc_payload_events none dc = (dc.events, refl)
inc_payload_events (some p) dc = (dc.events ++ (inc_ref p ∷ []), refl)

-- The request of a payload, from the call at the requester to the call of the responder.
pub record Answered (sid : ℕ) (dc peer : DuplexConnection) (m d : Bytes)
    (result : Option DuplexConnection) (r : Responder)
    (answer : Whole → DuplexConnection → Outcome DuplexConnection) : Type 0 where
  pub sent : List Queued
  pub frames : List (ℕ × Fragment)
  pub after : DuplexConnection
  pub returns : result ≡ some after
  pub queued : after.snd_queue ≡ dc.snd_queue ++ sent
  pub same_closed : after.closed ≡ dc.closed
  pub same_mtu : after.mtu ≡ dc.mtu
  pub reads : map read sent ≡ map some frames
  pub whole : Whole
  pub table : Fragments
  pub same_table : (k : ℕ) → table k ≡ peer.fragments k
  pub metadata_arrived : whole_metadata whole ≡ reported m
  pub data_arrived : whole_data whole ≡ d
  pub answered : receive_all r frames peer ≡ answer whole (record peer { fragments = table })

map-on_stream :
    (r : Responder) (sid : ℕ) (fs : List Fragment)
    → map (λ f. some (sid, f)) fs ≡ map some (map (on_stream r sid) fs)
map-on_stream r sid [] = refl
map-on_stream r sid (f ∷ fs) = ap (λ x. some (sid, f) ∷ x) (map-on_stream r sid fs)

-- The same queue, fragment size and state.
abbrev pub IsAlike : DuplexConnection → DuplexConnection → Type 0
IsAlike start dc =
    (start.snd_queue ≡ dc.snd_queue) × (start.closed ≡ dc.closed) × (start.mtu ≡ dc.mtu)

pub Requested-Answered_head :
    (r : Responder) (sid t n : ℕ) (dc start peer : DuplexConnection) (m d : Bytes)
    (result : Option DuplexConnection)
    (answer : Whole → DuplexConnection → Outcome DuplexConnection)
    → IsAlike start dc
    → (q : Requested r sid t n start peer m d result)
    → ((w : Whole) (dc : DuplexConnection)
        → first w ≡ done q.head
        → settled (route r sid w q.head dc) ≡ answer w dc)
    → (a : Answered sid dc peer m d result r answer) × (a.sent ≡ q.sent)
Requested-Answered_head r sid t n dc start peer m d result answer same q by_head = (
  record {
    sent = q.sent;
    frames = map (on_stream r sid) (q.head ∷ q.tail);
    after = record start { snd_queue = start.snd_queue ++ q.sent };
    returns = q.queued;
    queued = ap (λ x. x ++ q.sent) same.0;
    same_closed = same.1;
    same_mtu = same.2;
    reads = q.reads ∙ map-on_stream r sid (q.head ∷ q.tail);
    whole = q.delivered.whole;
    table = q.delivered.table;
    same_table = q.delivered.same_table;
    metadata_arrived = q.delivered.arrived.0;
    data_arrived = q.delivered.arrived.1;
    answered =
        q.delivered.goes
        ∙ by_head q.delivered.whole (record peer { fragments = q.delivered.table })
            q.delivered.first_frame;
  },
  refl,
)

pub Requested-Answered :
    (r : Responder) (sid t n : ℕ) (dc start peer : DuplexConnection) (m d : Bytes)
    (result : Option DuplexConnection)
    (answer : Whole → DuplexConnection → Outcome DuplexConnection)
    → IsAlike start dc
    → ((h : Fragment) (w : Whole) (dc : DuplexConnection)
        → h.frame_type ≡ t
        → h.initial_n ≡ n
        → first w ≡ done h
        → settled (route r sid w h dc) ≡ answer w dc)
    → Requested r sid t n start peer m d result
    → Answered sid dc peer m d result r answer
Requested-Answered r sid t n dc start peer m d result answer same by_kind q =
    (Requested-Answered_head r sid t n dc start peer m d result answer same q
      (λ w p f. by_kind q.head w p q.kind q.count f)).0

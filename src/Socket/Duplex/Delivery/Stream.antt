-- ===== src/Socket/Duplex/Delivery/Stream.antt =====
-- A stream of payloads from the subscriber at the responder to the processor at the requester.
use rsocket_go.Base.{ℕ, ◌≡◌, refl, ap, ◌∙◌, sym, List, [], ◌∷◌, ◌++◌, append_assoc}
use rsocket_go.Base.{Bool, true, false, Option, none, some, map, if◌then◌else◌}
use mathlib.Core.List.{map-append}
use rsocket_go.Base.Outcome.{done, panic, ◌>>=◌}
use rsocket_go.BigEndian.{Bytes}
use rsocket_go.Core.Flag
use rsocket_go.Core.FrameType
use rsocket_go.Core.Types.{check}
use rsocket_go.Framing.Parts.{mark_metadata}
use rsocket_go.Framing.Shape.{reported}
use rsocket_go.Fragmentation.Splitter.{is_valid_fragment}
use rsocket_go.Fragmentation.Joiner.{Fragment, Joiner, Whole, single, whole_metadata, whole_data}
use rsocket_go.Socket.Duplex.{
  Queued, Payload, Responder, Event, DuplexConnection, deleted, delete_fragment, unregister,
  send_frame, request_stream_callback, processor_next, processor_complete, whole_released,
}
use rsocket_go.Socket.Duplex.Sending.{metadata_bytes, sends}
use rsocket_go.Socket.Duplex.Receiving.{Handled, route, to_callback, to_processor}
use rsocket_go.Socket.Duplex.Subscribers.{complete_frame, stream_on_next, stream_on_complete}
use rsocket_go.Socket.Duplex.Wire.{fragment_of}
use rsocket_go.Socket.Duplex.Delivery.{receive, receive_all, receive-single}
use rsocket_go.Socket.Duplex.Delivery.Request.{read}
use rsocket_go.Socket.Duplex.Delivery.PayloadFlags.{next_only}
use rsocket_go.Socket.Duplex.Delivery.Response.{is_cut}
use rsocket_go.Socket.Duplex.Delivery.Payloads.{send_payload-Answered}

abbrev pub and_then :
    Option DuplexConnection → (DuplexConnection → Option DuplexConnection) → Option DuplexConnection
and_then none go = none
and_then (some dc) go = go dc

-- OnNext for each payload, and OnComplete.
unfoldable pub streams : ℕ → Whole → List Payload → DuplexConnection → Option DuplexConnection
streams sid receiving [] dc = some (stream_on_complete sid receiving dc)
streams sid receiving (p ∷ ps) dc = and_then (stream_on_next sid p dc) (streams sid receiving ps)

abbrev pub parts : Whole → Option Bytes × Bytes
parts w = (whole_metadata w, whole_data w)

abbrev pub parts_sent : Payload → Option Bytes × Bytes
parts_sent p = (reported (metadata_bytes p), p.data_bytes)

-- The payload of the COMPLETE frame has no parts; it is released.
abbrev pub complete_fragment : Fragment
complete_fragment = record {
  frame_type = FrameType.payload;
  initial_n = 0;
  flag = Flag.complete;
  metadata = none;
  data_bytes = [];
}

abbrev pub complete_whole : Whole
complete_whole = single complete_fragment

abbrev pub told_events : ℕ → List Whole → List Event
told_events pc [] = whole_released complete_whole ∷ processor_complete pc ∷ []
told_events pc (w ∷ ws) = processor_next pc w ∷ told_events pc ws

-- What the frames of a whole stream are for their receiver.
pub record Streamed (r : Responder) (pc : ℕ) (ps : List Payload) (dc peer : DuplexConnection)
    (result : Option DuplexConnection) : Type 0 where
  pub sent : List Queued
  pub frames : List (ℕ × Fragment)
  pub wholes : List Whole
  pub after : DuplexConnection
  pub told : DuplexConnection
  pub returns : result ≡ some after
  pub queued : after.snd_queue ≡ dc.snd_queue ++ sent
  pub reads : map read sent ≡ map some frames
  pub received : receive_all r frames peer ≡ done told
  pub arrived : map parts wholes ≡ map parts_sent ps
  pub events : told.events ≡ peer.events ++ told_events pc wholes
  pub same_table : (k : ℕ) → told.fragments k ≡ peer.fragments k
  pub same_entries : told.messages ≡ peer.messages

receive_all-append :
    (r : Responder) (xs ys : List (ℕ × Fragment)) (dc dc' : DuplexConnection)
    → receive_all r xs dc ≡ done dc'
    → receive_all r (xs ++ ys) dc ≡ receive_all r ys dc'
unfolding receive_all
receive_all-append r [] ys dc dc' e = ap (λ o. o >>= receive_all r ys) e
receive_all-append r ((sid, f) ∷ xs) ys dc dc' e =
    by_first (receive r sid f dc) (λ x h. receive_all-append r xs ys x dc' h) e
  where
    by_first :
        (h : Handled)
        → ((x : DuplexConnection)
            → receive_all r xs x ≡ done dc'
            → receive_all r (xs ++ ys) x ≡ receive_all r ys dc')
        → (h >>= λ x. receive_all r xs x.0) ≡ done dc'
        → (h >>= λ x. receive_all r (xs ++ ys) x.0) ≡ receive_all r ys dc'
    by_first panic later e = cc
    by_first (done x) later e = later x.0 e

-- Taking an entry out leaves the queue.
unregister-snd_queue :
    (sid : ℕ) (dc : DuplexConnection) → (unregister sid dc).snd_queue ≡ dc.snd_queue
unfolding unregister delete_fragment
unregister-snd_queue sid dc = by_entry (dc.fragments sid) _
  where
    by_entry :
        (o : Option Joiner) (dc : DuplexConnection) → (deleted o sid dc).snd_queue ≡ dc.snd_queue
    by_entry none dc = refl
    by_entry (some j) dc = refl

to_processor-next :
    (pc : ℕ) (w : Whole) (flag : ℕ) (dc : DuplexConnection)
    → check flag Flag.next ≡ true
    → check flag Flag.complete ≡ false
    → to_processor pc w flag dc ≡ record dc { events = dc.events ++ (processor_next pc w ∷ []) }
unfolding to_processor
to_processor-next pc w flag dc en ec = rw (en, ec) refl

-- The end of the stream.
completed :
    (r : Responder) (sid pc : ℕ) (receiving : Whole) (dc peer : DuplexConnection)
    → dc.closed ≡ false
    → peer.fragments sid ≡ none
    → peer.messages sid ≡ some (request_stream_callback pc)
    → Streamed r pc [] dc peer (streams sid receiving [] dc)
unfolding streams stream_on_complete send_frame fragment_of receive_all route to_callback check
    to_processor mark_metadata
completed r sid pc receiving dc peer is_open free entry = record {
  sent = complete_frame sid ∷ [];
  frames = (sid, complete_fragment) ∷ [];
  wholes = [];
  after = stream_on_complete sid receiving dc;
  told = record peer { events = peer.events ++ told_events pc [] };
  returns = refl;
  queued =
      unregister-snd_queue sid (sends (complete_frame sid) dc)
      ∙ ap
          (λ b.
            (if◌then◌else◌ {A = DuplexConnection × Bool} b (dc, false)
              (
                record dc { snd_queue = dc.snd_queue ++ (complete_frame sid ∷ []) },
                true,
              )).0.snd_queue)
          is_open;
  reads = refl;
  received =
      ap (λ h. h >>= λ x. done x.0) (receive-single r sid complete_fragment peer free refl)
      ∙ ap (λ o. done (to_callback o sid complete_whole Flag.complete peer)) entry
      ∙ ap (λ es. done (record peer { events = es }))
          (append_assoc peer.events (whole_released complete_whole ∷ [])
            (processor_complete pc ∷ []));
  arrived = refl;
  events = refl;
  same_table = λ k. refl;
  same_entries = refl;
}

uncompleted : (b : Bool) → (if b then false else false) ≡ false
uncompleted true = refl
uncompleted false = refl

-- One payload in front of a stream.
payload_first :
    (r : Responder) (sid pc : ℕ) (receiving : Whole) (p : Payload) (ps : List Payload)
    (dc peer : DuplexConnection)
    → dc.closed ≡ false
    → is_valid_fragment dc.mtu ≡ true
    → peer.fragments sid ≡ none
    → peer.messages sid ≡ some (request_stream_callback pc)
    → ((dc peer : DuplexConnection)
        → dc.closed ≡ false
        → is_valid_fragment dc.mtu ≡ true
        → peer.fragments sid ≡ none
        → peer.messages sid ≡ some (request_stream_callback pc)
        → Streamed r pc ps dc peer (streams sid receiving ps dc))
    → Streamed r pc (p ∷ ps) dc peer (streams sid receiving (p ∷ ps) dc)
unfolding streams stream_on_next to_callback check
payload_first r sid pc receiving p ps dc peer is_open valid free entry later =
    let (flag, a, en, ec) = send_payload-Answered r sid next_only p dc peer is_open valid free in
    let q = record peer {
      fragments = a.table;
      events = peer.events ++ (processor_next pc a.whole ∷ []);
    } in
    let rest =
      later a.after q (a.same_closed ∙ is_open) (ap is_valid_fragment a.same_mtu ∙ valid)
        (a.same_table sid ∙ free) entry in
    record {
      sent = a.sent ++ rest.sent;
      frames = a.frames ++ rest.frames;
      wholes = a.whole ∷ rest.wholes;
      after = rest.after;
      told = rest.told;
      returns = ap (λ o. and_then o (streams sid receiving ps)) a.returns ∙ rest.returns;
      queued =
          rest.queued
          ∙ ap (λ x. x ++ rest.sent) a.queued
          ∙ append_assoc dc.snd_queue a.sent rest.sent;
      reads =
          map-append read a.sent rest.sent
          ∙ ap (λ x. x ++ map read rest.sent) a.reads
          ∙ ap (λ x. map some a.frames ++ x) rest.reads
          ∙ sym (map-append some a.frames rest.frames);
      received =
          receive_all-append r a.frames rest.frames peer q (
            a.answered
            ∙ ap (λ o. done (to_callback o sid a.whole flag (record peer { fragments = a.table })))
                entry
            ∙ ap done (
                to_processor-next pc a.whole flag (record peer { fragments = a.table }) en
                  (ec ∙ uncompleted (is_cut a.sent))))
          ∙ rest.received;
      arrived = λ i. (a.metadata_arrived i, a.data_arrived i) ∷ rest.arrived i;
      events =
          rest.events
          ∙ append_assoc peer.events (processor_next pc a.whole ∷ []) (told_events pc rest.wholes);
      same_table = λ k. rest.same_table k ∙ a.same_table k;
      same_entries = rest.same_entries;
    }

-- A responder's subscriber that is given any number of payloads and then completes, on an open
-- connection with a valid fragment size, queues frames, each payload as one or many; another
-- connection, with no unfinished payload and the processor of a requested stream in its table,
-- that receives them in their order gives the processor the payloads, in order and each once, with
-- the metadata (absent where empty) and the data that were sent, releases the empty payload of the
-- last frame, completes the processor, and has the tables that it had.
pub streams-Streamed :
    (r : Responder) (sid pc : ℕ) (receiving : Whole) (ps : List Payload)
    (dc peer : DuplexConnection)
    → dc.closed ≡ false
    → is_valid_fragment dc.mtu ≡ true
    → peer.fragments sid ≡ none
    → peer.messages sid ≡ some (request_stream_callback pc)
    → Streamed r pc ps dc peer (streams sid receiving ps dc)
streams-Streamed r sid pc receiving [] dc peer is_open valid free entry =
    completed r sid pc receiving dc peer is_open free entry
streams-Streamed r sid pc receiving (p ∷ ps) dc peer is_open valid free entry =
    payload_first r sid pc receiving p ps dc peer is_open valid free entry
      (streams-Streamed r sid pc receiving ps)

-- ===== src/Socket/Duplex/Cancel.antt =====
-- CANCEL, from the end of a request at the requester to the subscription at the responder: the hooks of
-- RequestResponse and RequestStream, OnSubscribe of the subscribers, and onFrameCancel of
-- internal/socket/duplex.go.
use rsocket_go.Base.{
  ℕ, ◌≡◌, refl, ap, ◌∙◌, sym, false, Option, none, some, List, [], ◌∷◌, ◌++◌, append-nil,
  append_assoc,
}
use rsocket_go.Base.{==-refl, if◌then◌else◌}
use rsocket_go.Base.Outcome.{done, panic, ◌>>=◌}
use rsocket_go.Fragmentation.Joiner.{Joiner, Whole}
use rsocket_go.Fragmentation.Joiner.Delivery.{store_own}
use rsocket_go.Socket.Duplex.{
  Callback, request_response_callback, request_stream_callback, request_response_callback_reverse,
  request_stream_callback_reverse, respond_channel_callback, DuplexConnection, emits, deleted,
  cancel_frame, try_release, delete_fragment, unregister, send_frame, register, frame_released,
  whole_released, subscription_cancel, put_message,
}
use rsocket_go.Socket.Duplex.Sending.{
  plain, signal_cancel, tell_cancel, cache_of, request_response_finally,
}
use rsocket_go.Socket.Duplex.Requests.{Hooks, release_all, stream_finally}
use rsocket_go.Socket.Duplex.Receiving.{handled, cancel_entry, on_frame_cancel}
use rsocket_go.Socket.Duplex.Subscribers.{
  Ends, response_on_subscribe, stream_on_subscribe, respond_on_subscribe,
}
use rsocket_go.Socket.Duplex.Closing.Order.{joiner_events}

-- A request that waits for its answer.
pub data Pending : Type 0 where
  response : ℕ → Option Whole → Pending
  stream : ℕ → Hooks → Pending

abbrev pub entry : Pending → Callback
entry (response sink cache) = request_response_callback sink cache
entry (stream pc h) = request_stream_callback pc

-- The application cancels it.
abbrev pub gives_up : Pending → ℕ → DuplexConnection → DuplexConnection
gives_up (response sink cache) sid dc = request_response_finally sid signal_cancel dc
gives_up (stream pc h) sid dc = stream_finally sid signal_cancel h dc

-- An answer whose publisher is subscribed to.
pub data Answering : Type 0 where
  to_response : Whole → Answering
  to_stream : ℕ → Whole → Answering
  to_channel : ℕ → ℕ → Ends → Answering

abbrev pub on_subscribe : ℕ → Answering → ℕ → ℕ → DuplexConnection → DuplexConnection
on_subscribe request_max (to_response receiving) sid su dc =
    response_on_subscribe request_max sid receiving su none dc
on_subscribe request_max (to_stream n receiving) sid su dc =
    stream_on_subscribe request_max sid n receiving su none dc
on_subscribe request_max (to_channel n rcv ends) sid su dc =
    (respond_on_subscribe request_max sid n rcv su none ends dc).0

-- What one side and the other has after the cancellation.
pub record GivesUp (sid : ℕ) (asking after : DuplexConnection) : Type 0 where
  pub queued : after.snd_queue ≡ asking.snd_queue ++ (plain (cancel_frame sid) ∷ [])
  pub entry_gone : after.messages sid ≡ none
  pub fragments_gone : after.fragments sid ≡ none

pub record Cancelled (sid su : ℕ) (answering after : DuplexConnection) : Type 0 where
  pub told :
      after.events
      ≡ answering.events
        ++ (frame_released ∷ subscription_cancel su ∷ joiner_events (answering.fragments sid))
  pub fragments_gone : after.fragments sid ≡ none
  pub same_entries : after.messages ≡ answering.messages
  pub same_queue : after.snd_queue ≡ answering.snd_queue

-- Taking a joiner out of the table.
record Deletes (sid : ℕ) (dc after : DuplexConnection) : Type 0 where
  told : after.events ≡ dc.events ++ joiner_events (dc.fragments sid)
  fragments_gone : after.fragments sid ≡ none
  same_entries : after.messages ≡ dc.messages
  same_queue : after.snd_queue ≡ dc.snd_queue

delete_fragment-Deletes :
    (sid : ℕ) (dc : DuplexConnection) → Deletes sid dc (delete_fragment sid dc)
unfolding delete_fragment
delete_fragment-Deletes sid dc = by_entry (dc.fragments sid) refl
  where
    by_entry : (o : Option Joiner) → dc.fragments sid ≡ o → Deletes sid dc (deleted o sid dc)
    by_entry none e = record {
      told = sym (append-nil dc.events) ∙ ap (λ o. dc.events ++ joiner_events o) (sym e);
      fragments_gone = e;
      same_entries = refl;
      same_queue = refl;
    }
    by_entry (some j) e = record {
      told = ap (λ o. dc.events ++ joiner_events o) (sym e);
      fragments_gone = store_own dc.fragments sid none;
      same_entries = refl;
      same_queue = refl;
    }

unregister-GivesUp :
    (sid : ℕ) (dc : DuplexConnection)
    → ((unregister sid dc).snd_queue ≡ dc.snd_queue)
      × ((unregister sid dc).messages sid ≡ none)
      × ((unregister sid dc).fragments sid ≡ none)
unfolding unregister
unregister-GivesUp sid dc =
    let d =
      delete_fragment-Deletes sid (record dc { messages = put_message dc.messages sid none }) in
    (
      d.same_queue,
      ap (λ m. m sid) d.same_entries ∙ ap (λ b. if b then none else dc.messages sid) (==-refl sid),
      d.fragments_gone,
    )

told_cancel :
    (sid : ℕ) (dc : DuplexConnection)
    → dc.closed ≡ false
    → (tell_cancel signal_cancel sid dc).snd_queue ≡ dc.snd_queue ++ (plain (cancel_frame sid) ∷ [])
unfolding send_frame
told_cancel sid dc e = rw e refl

-- Releasing payloads adds events alone.
try_release-same :
    (o : Option Whole) (dc : DuplexConnection)
    → ((try_release o dc).closed ≡ dc.closed) × ((try_release o dc).snd_queue ≡ dc.snd_queue)
try_release-same none dc = (refl, refl)
try_release-same (some w) dc = (refl, refl)

release_all-same :
    (ws : List Whole) (dc : DuplexConnection)
    → ((release_all ws dc).snd_queue ≡ dc.snd_queue)
      × ((release_all ws dc).messages ≡ dc.messages)
      × ((release_all ws dc).fragments ≡ dc.fragments)
release_all-same [] dc = (refl, refl, refl)
release_all-same (w ∷ ws) dc = release_all-same ws (emits (whole_released w) dc)

gives_up-GivesUp :
    (k : Pending) (sid : ℕ) (dc : DuplexConnection)
    → dc.closed ≡ false
    → GivesUp sid dc (gives_up k sid dc)
unfolding request_response_finally stream_finally
gives_up-GivesUp (response sink cache) sid dc e =
    let dc1 = try_release (cache_of (dc.messages sid)) dc in
    let (same_closed, same_queue) = try_release-same (cache_of (dc.messages sid)) dc in
    let (queue, gone, fragments) = unregister-GivesUp sid (tell_cancel signal_cancel sid dc1) in
    record {
      queued =
          queue
          ∙ told_cancel sid dc1 (same_closed ∙ e)
          ∙ ap (λ q. q ++ (plain (cancel_frame sid) ∷ [])) same_queue;
      entry_gone = gone;
      fragments_gone = fragments;
    }
gives_up-GivesUp (stream pc h) sid dc e =
    let (queue, gone, fragments) = unregister-GivesUp sid (tell_cancel signal_cancel sid dc) in
    let (same_queue, same_entries, same_table) =
      release_all-same h.to_be_released (unregister sid (tell_cancel signal_cancel sid dc)) in
    record {
      queued = same_queue ∙ queue ∙ told_cancel sid dc e;
      entry_gone = ap (λ m. m sid) same_entries ∙ gone;
      fragments_gone = ap (λ m. m sid) same_table ∙ fragments;
    }

-- With an entry whose CANCEL goes to the subscription `su`.
cancels :
    (sid su : ℕ) (cb : Callback) (dc : DuplexConnection)
    → dc.messages sid ≡ some cb
    → ((dc : DuplexConnection)
        → cancel_entry (some cb) dc ≡ done (emits (subscription_cancel su) dc))
    → (after : DuplexConnection) × (on_frame_cancel sid dc ≡ done (after, false))
      × Cancelled sid su dc after
unfolding on_frame_cancel
cancels sid su cb dc e c =
    let d =
      delete_fragment-Deletes sid (emits (subscription_cancel su) (emits frame_released dc)) in
    (
      delete_fragment sid (emits (subscription_cancel su) (emits frame_released dc)),
      ap
            (λ o.
              cancel_entry o (emits frame_released dc) >>= λ dc1. handled (delete_fragment sid dc1))
            e
          ∙ ap (λ r. r >>= λ dc1. handled (delete_fragment sid dc1)) (c (emits frame_released dc)),
      record {
        told =
            d.told
            ∙ append_assoc (dc.events ++ (frame_released ∷ [])) (subscription_cancel su ∷ []) _
            ∙ append_assoc dc.events (frame_released ∷ []) _;
        fragments_gone = d.fragments_gone;
        same_entries = d.same_entries;
        same_queue = d.same_queue;
      },
    )

own_entry :
    (sid : ℕ) (cb : Callback) (dc : DuplexConnection)
    → put_message dc.messages sid (some cb) sid ≡ some cb
own_entry sid cb dc = ap (λ b. if b then some cb else dc.messages sid) (==-refl sid)

on_frame_cancel-Cancelled :
    (request_max : ℕ) (k : Answering) (sid su : ℕ) (dc : DuplexConnection)
    → (after : DuplexConnection) × (on_frame_cancel sid (on_subscribe request_max k sid su dc)
        ≡ done (after, false))
      × Cancelled sid su (on_subscribe request_max k sid su dc) after
unfolding cancel_entry response_on_subscribe stream_on_subscribe respond_on_subscribe register
on_frame_cancel-Cancelled request_max (to_response receiving) sid su dc =
    cancels sid su (request_response_callback_reverse su) _
      (own_entry sid (request_response_callback_reverse su) dc) (λ dc. refl)
on_frame_cancel-Cancelled request_max (to_stream n receiving) sid su dc =
    cancels sid su (request_stream_callback_reverse su) _
      (own_entry sid (request_stream_callback_reverse su) dc) (λ dc. refl)
on_frame_cancel-Cancelled request_max (to_channel n rcv ends) sid su dc =
    cancels sid su (respond_channel_callback su rcv) _
      (own_entry sid (respond_channel_callback su rcv) dc) (λ dc. refl)

-- A CANCEL for a request of this side.
pending_panics :
    (k : Pending) (sid : ℕ) (dc : DuplexConnection)
    → dc.messages sid ≡ some (entry k)
    → on_frame_cancel sid dc ≡ panic
unfolding on_frame_cancel cancel_entry
pending_panics (response sink cache) sid dc e = rw e refl
pending_panics (stream pc h) sid dc e = rw e refl

-- For a request response or a stream that waits at an open connection, cancelling it queues one
-- CANCEL and takes its entry and its unfinished payload out; a connection that has subscribed to
-- the publisher of an answer, for a response, a stream or a channel, cancels that subscription
-- when it handles CANCEL, releases the frame and the stream's unfinished payload, and keeps its
-- entries and its queue; and a CANCEL that comes back to the connection that waits makes it panic.
pub cancel_lem :
    (request_max sid su : ℕ) (k : Pending) (a : Answering) (asking peer : DuplexConnection)
    → asking.closed ≡ false
    → asking.messages sid ≡ some (entry k)
    → GivesUp sid asking (gives_up k sid asking)
      × ((after : DuplexConnection) × (on_frame_cancel sid (on_subscribe request_max a sid su peer)
            ≡ done (after, false))
          × Cancelled sid su (on_subscribe request_max a sid su peer) after)
      × (on_frame_cancel sid asking ≡ panic)
cancel_lem request_max sid su k a asking peer is_open pending = (
  gives_up-GivesUp k sid asking is_open,
  on_frame_cancel-Cancelled request_max a sid su peer,
  pending_panics k sid asking pending,
)

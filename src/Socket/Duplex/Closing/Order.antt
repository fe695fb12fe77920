-- ===== src/Socket/Duplex/Closing/Order.antt =====
-- All that Close does, in order.
use rsocket_go.Base.{
  ℕ, ◌≡◌, refl, ap, ◌∙◌, sym, true, false, List, [], ◌∷◌, ◌++◌, append-nil, append_assoc,
}
use rsocket_go.Base.{Option, none, some}
use rsocket_go.Fragmentation.Joiner.{Joiner, Whole}
use rsocket_go.Socket.Duplex.{
  Callback, request_response_callback, request_stream_callback, request_channel_callback,
  request_response_callback_reverse, request_stream_callback_reverse, respond_channel_callback,
  Event, Failure, Hook, release_payload, close_done, Queued, sink_error, processor_error,
  processor_close, subscription_cancel, payload_released, wait_ended, whole_released,
  joiner_released, transport_closed, DuplexConnection, emits, try_release, run_hook, send_frame,
  stop_with_error, stop_entry,
}
use rsocket_go.Socket.Duplex.Closing.{
  destroy_handler, released, destroy_fragment, all_done, destroy_snd_queue, destroy_snd_backlog,
  first_failure, destroy_transport, reason, shut_down, close,
}

abbrev pub adds : List Event → DuplexConnection → DuplexConnection
adds es dc = record dc { events = dc.events ++ es }

abbrev cache_events : Option Whole → List Event
cache_events none = []
cache_events (some w) = whole_released w ∷ []

-- What stopping an entry does.
abbrev pub stop_events : Failure → Option Callback → List Event
stop_events err none = []
stop_events err (some (request_response_callback sink cache)) =
    sink_error sink err ∷ cache_events cache
stop_events err (some (request_stream_callback pc)) =
    processor_close pc ∷ processor_error pc err ∷ []
stop_events err (some (request_channel_callback snd rcv)) =
    subscription_cancel snd ∷ processor_close rcv ∷ processor_error rcv err ∷ []
stop_events err (some (request_response_callback_reverse su)) = subscription_cancel su ∷ []
stop_events err (some (request_stream_callback_reverse su)) = subscription_cancel su ∷ []
stop_events err (some (respond_channel_callback snd rcv)) =
    processor_close rcv ∷ processor_error rcv err ∷ subscription_cancel snd ∷ []

abbrev pub hook_events : Option Hook → List Event
hook_events none = []
hook_events (some (release_payload p)) = payload_released p ∷ []
hook_events (some close_done) = wait_ended ∷ []

abbrev pub joiner_events : Option Joiner → List Event
joiner_events none = []
joiner_events (some j) = joiner_released j ∷ []

-- The events of a list, one part after another.
unfoldable pub events_of {ℓ} : {A : Type ℓ} → (A → List Event) → List A → List Event
events_of f [] = []
events_of f (x ∷ xs) = f x ++ events_of f xs

pub adds-nil : (dc : DuplexConnection) → dc ≡ adds [] dc
adds-nil dc = ap (λ x. record dc { events = x }) (sym (append-nil dc.events))

pub adds-adds :
    (xs ys : List Event) (dc : DuplexConnection) → adds ys (adds xs dc) ≡ adds (xs ++ ys) dc
adds-adds xs ys dc = ap (λ x. record dc { events = x }) (append_assoc dc.events xs ys)

cached_lem :
    (sink : ℕ) (err : Failure) (cache : Option Whole) (dc : DuplexConnection)
    → try_release cache (emits (sink_error sink err) dc)
      ≡ adds (sink_error sink err ∷ cache_events cache) dc
cached_lem sink err none dc = refl
cached_lem sink err (some w) dc = adds-adds (sink_error sink err ∷ []) (whole_released w ∷ []) dc

stop_entry_lem :
    (o : Option Callback) (err : Failure) (dc : DuplexConnection)
    → stop_entry o err dc ≡ adds (stop_events err o) dc
unfolding stop_with_error
stop_entry_lem none err dc = adds-nil dc
stop_entry_lem (some (request_response_callback sink cache)) err dc = cached_lem sink err cache dc
stop_entry_lem (some (request_stream_callback pc)) err dc =
    adds-adds (processor_close pc ∷ []) (processor_error pc err ∷ []) dc
stop_entry_lem (some (request_channel_callback snd rcv)) err dc =
    ap (emits (processor_error rcv err))
      (adds-adds (subscription_cancel snd ∷ []) (processor_close rcv ∷ []) dc)
    ∙ adds-adds (subscription_cancel snd ∷ processor_close rcv ∷ []) (processor_error rcv err ∷ [])
        dc
stop_entry_lem (some (request_response_callback_reverse su)) err dc = refl
stop_entry_lem (some (request_stream_callback_reverse su)) err dc = refl
stop_entry_lem (some (respond_channel_callback snd rcv)) err dc =
    ap (emits (subscription_cancel snd))
      (adds-adds (processor_close rcv ∷ []) (processor_error rcv err ∷ []) dc)
    ∙ adds-adds (processor_close rcv ∷ processor_error rcv err ∷ []) (subscription_cancel snd ∷ [])
        dc

pub run_hook_lem :
    (h : Option Hook) (dc : DuplexConnection) → run_hook h dc ≡ adds (hook_events h) dc
run_hook_lem none dc = adds-nil dc
run_hook_lem (some (release_payload p)) dc = refl
run_hook_lem (some close_done) dc = refl

pub released_lem :
    (o : Option Joiner) (dc : DuplexConnection) → released o dc ≡ adds (joiner_events o) dc
released_lem none dc = adds-nil dc
released_lem (some j) dc = refl

destroy_handler_lem :
    (sids : List ℕ) (err : Failure) (dc : DuplexConnection)
    → destroy_handler sids err dc
      ≡ adds (events_of (λ sid. stop_events err (dc.messages sid)) sids) dc
unfolding destroy_handler events_of
destroy_handler_lem [] err dc = adds-nil dc
destroy_handler_lem (sid ∷ sids) err dc =
    ap (destroy_handler sids err) (stop_entry_lem (dc.messages sid) err dc)
    ∙ destroy_handler_lem sids err (adds (stop_events err (dc.messages sid)) dc)
    ∙ adds-adds (stop_events err (dc.messages sid)) _ dc

destroy_fragment_lem :
    (sids : List ℕ) (dc : DuplexConnection)
    → destroy_fragment sids dc ≡ adds (events_of (λ sid. joiner_events (dc.fragments sid)) sids) dc
unfolding destroy_fragment events_of
destroy_fragment_lem [] dc = adds-nil dc
destroy_fragment_lem (sid ∷ sids) dc =
    ap (destroy_fragment sids) (released_lem (dc.fragments sid) dc)
    ∙ destroy_fragment_lem sids (adds (joiner_events (dc.fragments sid)) dc)
    ∙ adds-adds (joiner_events (dc.fragments sid)) _ dc

abbrev pub done_events : List Queued → List Event
done_events qs = events_of (λ q. hook_events q.hook) qs

all_done_lem :
    (qs : List Queued) (dc : DuplexConnection) → all_done qs dc ≡ adds (done_events qs) dc
unfolding all_done events_of
all_done_lem [] dc = adds-nil dc
all_done_lem (q ∷ qs) dc =
    ap (all_done qs) (run_hook_lem q.hook dc)
    ∙ all_done_lem qs (adds (hook_events q.hook) dc)
    ∙ adds-adds (hook_events q.hook) (done_events qs) dc

abbrev transport_events : Option (Option Failure) → List Event
transport_events none = []
transport_events (some result) = transport_closed ∷ []

-- The error of the connection after its transport is closed.
abbrev pub final_failure : Option (Option Failure) → Option Failure → Option Failure
final_failure none e = e
final_failure (some result) e = first_failure e result

destroy_transport_lem :
    (tp : Option (Option Failure)) (dc : DuplexConnection)
    → destroy_transport tp dc
      ≡ adds (transport_events tp) (record dc { failure = final_failure tp dc.failure })
unfolding destroy_transport
destroy_transport_lem none dc = adds-nil dc
destroy_transport_lem (some result) dc = refl

-- The transport, the entries of the streams, the frames not written, the unfinished payloads.
unfoldable pub close_events :
    List ℕ → List ℕ → Option (Option Failure) → DuplexConnection → List Event
close_events streams fragments tp dc =
    transport_events tp
    ++ (events_of (λ sid. stop_events (reason (final_failure tp dc.failure)) (dc.messages sid))
          streams
        ++ (done_events dc.snd_queue
            ++ (done_events dc.snd_backlog
                ++ events_of (λ sid. joiner_events (dc.fragments sid)) fragments)))

-- Closing an open connection closes the transport, stops the entry of each stream with the first
-- failure known, or with the error of a closed socket, ends the frames of the queue and of the
-- backlog and releases the unfinished payloads, in that order, and returns that failure; closing
-- again does nothing, and a frame sent afterwards is ended and refused.
pub close_lem :
    (streams fragments : List ℕ) (tp : Option (Option Failure)) (dc : DuplexConnection)
    → dc.closed ≡ false
    → (dc' : DuplexConnection) × (close streams fragments tp dc
        ≡ (dc', final_failure tp dc.failure))
      × (dc' ≡ record dc {
        closed = true;
        snd_queue = [];
        snd_backlog = [];
        failure = final_failure tp dc.failure;
        events = dc.events ++ close_events streams fragments tp dc;
      })
      × ((streams' fragments' : List ℕ) (tp' : Option (Option Failure))
          → close streams' fragments' tp' dc' ≡ (dc', none))
      × ((q : Queued) → send_frame q dc' ≡ (run_hook q.hook dc', false))
unfolding close shut_down destroy_snd_queue destroy_snd_backlog close_events send_frame
close_lem streams fragments tp dc is_open = (
  (shut_down streams fragments tp (record dc { closed = true })).0,
  rw is_open
      (λ i. ((shut_down streams fragments tp (record dc { closed = true })).0, failure_of i)),
  shut,
  λ streams' fragments' tp'. rw shut refl,
  λ q. rw shut refl,
)
  where
    end : Option Failure
    end = final_failure tp dc.failure

    dc1 : DuplexConnection
    dc1 = adds (transport_events tp) (record dc { closed = true; failure = end })

    transported : destroy_transport tp (record dc { closed = true }) ≡ dc1
    transported = destroy_transport_lem tp (record dc { closed = true })

    failure_of : (destroy_transport tp (record dc { closed = true })).failure ≡ end
    failure_of = ap (λ s. s.failure) transported

    rest : DuplexConnection → DuplexConnection
    rest s =
        destroy_fragment fragments
          (destroy_snd_backlog (destroy_snd_queue (destroy_handler streams (reason s.failure) s)))

    stops : List Event
    stops = events_of (λ sid. stop_events (reason end) (dc.messages sid)) streams

    joiners : List Event
    joiners = events_of (λ sid. joiner_events (dc.fragments sid)) fragments

    shut : (shut_down streams fragments tp (record dc { closed = true })).0 ≡ record dc {
      closed = true;
      snd_queue = [];
      snd_backlog = [];
      failure = end;
      events = dc.events ++ close_events streams fragments tp dc;
    }
    shut =
        ap rest transported
        ∙ ap (λ s. destroy_fragment fragments (destroy_snd_backlog (destroy_snd_queue s)))
            (destroy_handler_lem streams (reason end) dc1)
        ∙ ap (λ s. destroy_fragment fragments (destroy_snd_backlog s))
            (all_done_lem dc.snd_queue (record (adds stops dc1) { snd_queue = [] }))
        ∙ ap (destroy_fragment fragments) (
            all_done_lem dc.snd_backlog (
              adds (done_events dc.snd_queue)
                (adds stops (record dc1 { snd_queue = []; snd_backlog = [] }))))
        ∙ destroy_fragment_lem fragments (
            adds (done_events dc.snd_backlog) (
              adds (done_events dc.snd_queue)
                (adds stops (record dc1 { snd_queue = []; snd_backlog = [] }))))
        ∙ adds-adds (done_events dc.snd_backlog) joiners (
            adds (done_events dc.snd_queue)
              (adds stops (record dc1 { snd_queue = []; snd_backlog = [] })))
        ∙ adds-adds (done_events dc.snd_queue) (done_events dc.snd_backlog ++ joiners)
            (adds stops (record dc1 { snd_queue = []; snd_backlog = [] }))
        ∙ adds-adds stops (done_events dc.snd_queue ++ (done_events dc.snd_backlog ++ joiners))
            (record dc1 { snd_queue = []; snd_backlog = [] })
        ∙ adds-adds (transport_events tp)
            (stops ++ (done_events dc.snd_queue ++ (done_events dc.snd_backlog ++ joiners)))
            (record dc { closed = true; failure = end; snd_queue = []; snd_backlog = [] })

-- ===== src/Socket/Duplex/Isolation.antt =====
-- A frame of one stream leaves the other streams alone.
use rsocket_go.Base.{
  ℕ, ◌≡◌, ◌≢◌, refl, ap, ◌∙◌, sym, ◌==◌, ==_iff, Bool, true, false, Option, none, some, [], ◌∷◌,
  ◌++◌,
}
use rsocket_go.Base.{if◌then◌else◌, Bool-cases, inl, inr, suc}
use rsocket_go.Base.Outcome.{Outcome, done, panic, ◌>>=◌}
use rsocket_go.Core.Flag
use rsocket_go.Core.FrameType
use rsocket_go.Core.Types.{check}
use rsocket_go.Framing.Error.{FrozenError}
use rsocket_go.Fragmentation.Joiner.{Fragment, Joiner, Whole, do_fragment}
use rsocket_go.Fragmentation.Joiner.Delivery.{store_other, do_fragment-other}
use rsocket_go.Socket.Duplex.{
  Callback, request_response_callback, request_stream_callback, request_channel_callback,
  request_response_callback_reverse, request_stream_callback_reverse, respond_channel_callback,
  Hook, release_payload, close_done, Queued, Failure, socket_closed, writeable_error, custom, other,
  Answer, publishes, no_publisher, panicked, emits, processor_next, processor_complete,
  whole_released, frame_released, subscription_cancel, call_request_response, call_request_stream,
  call_request_channel, Responder, DuplexConnection, register, deleted, delete_fragment, run_hook,
  send_frame, write_error,
}
use rsocket_go.Socket.Duplex.Receiving.{
  first, Handled, handled, with_whole, with_whole_result, on_whole, route,
  on_frame_request_response, on_frame_request_stream, on_frame_request_channel, on_frame_fnf,
  on_frame_payload, respond_request_response, respond_request_stream, respond_request_channel,
  respond_fire_and_forget, extract_request_stream_init_n, to_processor, to_callback, cancel_entry,
  on_frame_cancel, error_entry, on_frame_error, request_entry, on_frame_request_n, then_handled,
  answer_request_response, answer_request_stream, answer_request_channel,
}
use rsocket_go.Socket.Duplex.Requests.{to_int_request_n}
use rsocket_go.Socket.Duplex.Delivery.{receive}
use rsocket_go.Socket.Duplex.Arrival.{StreamFrame, with_payload, cancels, fails, requests, handle}

-- The entries of stream `k` are the same.
record Apart (k : ℕ) (dc dc' : DuplexConnection) : Type 0 where
  same_messages : dc'.messages k ≡ dc.messages k
  same_fragments : dc'.fragments k ≡ dc.fragments k

abbrev both :
    {k : ℕ} {dc dc' : DuplexConnection}
    → dc'.messages k ≡ dc.messages k
    → dc'.fragments k ≡ dc.fragments k
    → Apart k dc dc'
both m f = record { same_messages = m; same_fragments = f }

data HandledApart (k : ℕ) (dc : DuplexConnection) : Handled → Type 0 where
  keeps :
      (dc' : DuplexConnection) (failed : Bool)
      → Apart k dc dc'
      → HandledApart k dc (done (dc', failed))
  stops : HandledApart k dc panic

module _ (sid k : ℕ) (apart : k == sid ≡ false) where
  trans : {a b c : DuplexConnection} → Apart k a b → Apart k b c → Apart k a c
  trans x y = both (y.same_messages ∙ x.same_messages) (y.same_fragments ∙ x.same_fragments)

  if_Apart :
      {dc x y : DuplexConnection} (b : Bool)
      → Apart k dc x
      → Apart k dc y
      → Apart k dc (if b then x else y)
  if_Apart true x y = x
  if_Apart false x y = y

  if_HandledApart :
      {dc : DuplexConnection} {x y : Handled} (b : Bool)
      → HandledApart k dc x
      → HandledApart k dc y
      → HandledApart k dc (if b then x else y)
  if_HandledApart true x y = x
  if_HandledApart false x y = y

  run_hook-Apart : (h : Option Hook) (dc : DuplexConnection) → Apart k dc (run_hook h dc)
  run_hook-Apart none dc = (both refl refl)
  run_hook-Apart (some (release_payload p)) dc = (both refl refl)
  run_hook-Apart (some close_done) dc = (both refl refl)

  send_frame-Apart : (q : Queued) (dc : DuplexConnection) → Apart k dc (send_frame q dc).0
  unfolding send_frame
  send_frame-Apart q dc = by_closed dc.closed
    where
      by_closed :
          (b : Bool)
          → Apart k dc
              (if◌then◌else◌ {A = DuplexConnection × Bool} b
                (run_hook q.hook dc, false)
                (record dc { snd_queue = dc.snd_queue ++ (q ∷ []) }, true)).0
      by_closed true = run_hook-Apart q.hook dc
      by_closed false = both refl refl

  write_error-Apart :
      (s : ℕ) (e : Failure) (dc : DuplexConnection) → Apart k dc (write_error s e dc)
  unfolding write_error
  write_error-Apart s socket_closed dc = (both refl refl)
  write_error-Apart s (writeable_error id code d) dc = send_frame-Apart _ dc
  write_error-Apart s (custom e) dc = send_frame-Apart _ dc
  write_error-Apart s (other text) dc = send_frame-Apart _ dc

  register-Apart : (cb : Callback) (dc : DuplexConnection) → Apart k dc (register sid cb dc)
  unfolding register
  register-Apart cb dc = both (ap (λ b. if b then some cb else dc.messages k) apart) refl

  delete_fragment-Apart : (dc : DuplexConnection) → Apart k dc (delete_fragment sid dc)
  unfolding delete_fragment
  delete_fragment-Apart dc = by_entry (dc.fragments sid)
    where
      by_entry : (o : Option Joiner) → Apart k dc (deleted o sid dc)
      by_entry none = (both refl refl)
      by_entry (some j) = both refl (store_other dc.fragments sid k none apart)

  answer_response-Apart :
      (w : Whole) (a : Answer) (dc : DuplexConnection)
      → Apart k dc (answer_request_response sid w a dc)
  answer_response-Apart w (publishes p) dc = (both refl refl)
  answer_response-Apart w no_publisher dc =
      trans (both refl refl) (write_error-Apart sid _ (emits (whole_released w) dc))
  answer_response-Apart w (panicked text) dc =
      trans (both refl refl) (write_error-Apart sid _ (emits (whole_released w) dc))

  answer_stream-Apart :
      (n : ℕ) (w : Whole) (a : Answer) (dc : DuplexConnection)
      → Apart k dc (answer_request_stream sid n w a dc)
  answer_stream-Apart n w (publishes p) dc = (both refl refl)
  answer_stream-Apart n w no_publisher dc =
      trans (both refl refl) (write_error-Apart sid _ (emits (whole_released w) dc))
  answer_stream-Apart n w (panicked text) dc =
      trans (both refl refl) (write_error-Apart sid _ (emits (whole_released w) dc))

  answer_channel-Apart :
      (n rcv : ℕ) (a : Answer) (dc : DuplexConnection)
      → Apart k dc (answer_request_channel sid n rcv a dc)
  answer_channel-Apart n rcv (publishes p) dc = (both refl refl)
  answer_channel-Apart n rcv no_publisher dc = write_error-Apart sid _ _
  answer_channel-Apart n rcv (panicked text) dc = write_error-Apart sid _ _

  to_processor-Apart :
      (pc : ℕ) (w : Whole) (g : ℕ) (dc : DuplexConnection) → Apart k dc (to_processor pc w g dc)
  unfolding to_processor
  to_processor-Apart pc w g dc =
      if_Apart (check g Flag.complete) (by_next (check g Flag.next))
        (if_Apart (check g Flag.next) (both refl refl) (both refl refl))
    where
      by_next :
          (b : Bool)
          → Apart k dc (
              emits (processor_complete pc) (
                if b
                then (if b then emits (processor_next pc w) dc else dc)
                else emits (whole_released w) (if b then emits (processor_next pc w) dc else dc)))
      by_next true = (both refl refl)
      by_next false = (both refl refl)

  to_callback-Apart :
      (o : Option Callback) (w : Whole) (g : ℕ) (dc : DuplexConnection)
      → Apart k dc (to_callback o sid w g dc)
  unfolding to_callback
  to_callback-Apart none w g dc = (both refl refl)
  to_callback-Apart (some (request_response_callback sink cache)) w g dc =
      trans (register-Apart (request_response_callback sink (some w)) dc) (both refl refl)
  to_callback-Apart (some (request_stream_callback pc)) w g dc = to_processor-Apart pc w g dc
  to_callback-Apart (some (request_channel_callback snd rcv)) w g dc = to_processor-Apart rcv w g dc
  to_callback-Apart (some (respond_channel_callback snd rcv)) w g dc = to_processor-Apart rcv w g dc
  to_callback-Apart (some (request_response_callback_reverse su)) w g dc = (both refl refl)
  to_callback-Apart (some (request_stream_callback_reverse su)) w g dc = (both refl refl)

  bind_Apart :
      {A : Type 0} {dc : DuplexConnection} (o : Outcome A) {f : A → DuplexConnection}
      → ((x : A) → Apart k dc (f x))
      → HandledApart k dc (then_handled (o >>= λ x. done (f x)))
  bind_Apart (done x) h = keeps _ false (h x)
  bind_Apart panic h = stops

  respond_response-Apart :
      (r : Responder) (w : Whole) (dc : DuplexConnection)
      → Apart k dc (respond_request_response r sid w dc)
  unfolding respond_request_response
  respond_response-Apart r w dc =
      trans (both refl refl)
        (answer_response-Apart w (r.request_response w) (emits (call_request_response w) dc))

  respond_stream-Apart :
      (r : Responder) (w : Whole) (dc : DuplexConnection)
      → HandledApart k dc (then_handled (respond_request_stream r sid w dc))
  unfolding respond_request_stream
  respond_stream-Apart r w dc = bind_Apart (extract_request_stream_init_n w) (λ n.
      trans (both refl refl)
        (answer_stream-Apart n w (r.request_stream w) (emits (call_request_stream w) dc)))

  respond_channel-Apart :
      (r : Responder) (w : Whole) (dc : DuplexConnection)
      → HandledApart k dc (then_handled (respond_request_channel r sid w dc))
  unfolding respond_request_channel
  respond_channel-Apart r w dc = bind_Apart (extract_request_stream_init_n w) (λ n.
      trans (both refl refl) (
        answer_channel-Apart n dc.fresh (r.request_channel w dc.fresh)
          (emits (call_request_channel w dc.fresh) (record dc { fresh = suc dc.fresh }))))

  respond_fire_and_forget-Apart :
      (w : Whole) (dc : DuplexConnection) → Apart k dc (respond_fire_and_forget w dc)
  unfolding respond_fire_and_forget
  respond_fire_and_forget-Apart w dc = (both refl refl)

  on_whole-Apart :
      (r : Responder) (w : Whole) (dc : DuplexConnection) → HandledApart k dc (on_whole r sid w dc)
  unfolding on_whole route
  on_whole-Apart r w dc = by_first (first w)
    where
      by_first : (o : Outcome Fragment) → HandledApart k dc (o >>= λ h. route r sid w h dc)
      by_first panic = stops
      by_first (done h) =
          if_HandledApart (h.frame_type == FrameType.request_fnf)
            (keeps _ false (respond_fire_and_forget-Apart w dc))
            (if_HandledApart (h.frame_type == FrameType.request_response)
              (keeps _ false (respond_response-Apart r w dc))
              (if_HandledApart (h.frame_type == FrameType.request_stream)
                (respond_stream-Apart r w dc)
                (if_HandledApart (h.frame_type == FrameType.request_channel)
                  (respond_channel-Apart r w dc)
                  (keeps _ false (to_callback-Apart (dc.messages sid) w h.flag dc)))))

  handled_trans :
      {a b : DuplexConnection} (h : Handled) → Apart k a b → HandledApart k b h → HandledApart k a h
  handled_trans h x (keeps c failed y) = keeps c failed (trans x y)
  handled_trans h x stops = stops

  with_whole-Apart :
      (f : Fragment) (go : Whole → DuplexConnection → Handled) (dc : DuplexConnection)
      → ((w : Whole) (dc : DuplexConnection) → HandledApart k dc (go w dc))
      → HandledApart k dc (with_whole sid f go dc)
  with_whole-Apart f go dc h =
      by_result (do_fragment dc.fragments sid f) (do_fragment-other k sid dc.fragments f apart)
    where
      by_result :
          (x : (ℕ → Option Joiner) × Option Whole)
          → x.0 k ≡ dc.fragments k
          → HandledApart k dc (with_whole_result go dc x)
      by_result (table, none) e = keeps _ false (both refl e)
      by_result (table, some w) e =
          handled_trans (go w (record dc { fragments = table })) (both refl e) (h w _)

  receive-Apart :
      (r : Responder) (f : Fragment) (dc : DuplexConnection)
      → HandledApart k dc (receive r sid f dc)
  unfolding receive on_frame_fnf on_frame_request_response on_frame_request_stream
      on_frame_request_channel on_frame_payload
  receive-Apart r f dc =
      if_HandledApart (f.frame_type == FrameType.request_fnf)
        (with_whole-Apart f _ dc (λ w dc. keeps _ false (respond_fire_and_forget-Apart w dc)))
        (if_HandledApart (f.frame_type == FrameType.request_response)
          (with_whole-Apart f _ dc (λ w dc. keeps _ false (respond_response-Apart r w dc)))
          (if_HandledApart (f.frame_type == FrameType.request_stream)
            (with_whole-Apart f _ dc (λ w dc. respond_stream-Apart r w dc))
            (if_HandledApart (f.frame_type == FrameType.request_channel)
              (with_whole-Apart f _ dc (λ w dc. respond_channel-Apart r w dc))
              (with_whole-Apart f _ dc (on_whole-Apart r)))))

  cancel-Apart : (dc : DuplexConnection) → HandledApart k dc (on_frame_cancel sid dc)
  unfolding on_frame_cancel cancel_entry
  cancel-Apart dc = by_entry (dc.messages sid)
    where
      by_entry :
          (o : Option Callback)
          → HandledApart k dc (
              cancel_entry o (emits frame_released dc) >>= λ dc1. handled (delete_fragment sid dc1))
      by_entry none =
          keeps _ false (trans (both refl refl) (delete_fragment-Apart (emits frame_released dc)))
      by_entry (some (request_response_callback_reverse su)) = keeps _ false (
          trans (both refl refl)
            (delete_fragment-Apart (emits (subscription_cancel su) (emits frame_released dc))))
      by_entry (some (request_stream_callback_reverse su)) = keeps _ false (
          trans (both refl refl)
            (delete_fragment-Apart (emits (subscription_cancel su) (emits frame_released dc))))
      by_entry (some (respond_channel_callback snd rcv)) = keeps _ false (
          trans (both refl refl)
            (delete_fragment-Apart (emits (subscription_cancel snd) (emits frame_released dc))))
      by_entry (some (request_response_callback sink cache)) = stops
      by_entry (some (request_stream_callback pc)) = stops
      by_entry (some (request_channel_callback snd rcv)) = stops

  error-Apart :
      (e : FrozenError) (dc : DuplexConnection) → HandledApart k dc (on_frame_error sid e dc)
  unfolding on_frame_error error_entry
  error-Apart e dc = keeps _ _ (trans (by_entry (dc.messages sid)) (both refl refl))
    where
      by_entry : (o : Option Callback) → Apart k dc (error_entry o sid e dc).0
      by_entry none = delete_fragment-Apart dc
      by_entry (some (request_response_callback_reverse su)) = (both refl refl)
      by_entry (some (request_stream_callback_reverse su)) = (both refl refl)
      by_entry (some (respond_channel_callback snd rcv)) = (both refl refl)
      by_entry (some (request_response_callback sink cache)) = (both refl refl)
      by_entry (some (request_stream_callback pc)) = (both refl refl)
      by_entry (some (request_channel_callback snd rcv)) = (both refl refl)

  request_n-Apart :
      (n : ℕ) (dc : DuplexConnection) (o : Option Callback) → Apart k dc (request_entry o sid n dc)
  unfolding request_entry
  request_n-Apart n dc none = delete_fragment-Apart dc
  request_n-Apart n dc (some (request_response_callback_reverse su)) = (both refl refl)
  request_n-Apart n dc (some (request_stream_callback_reverse su)) = (both refl refl)
  request_n-Apart n dc (some (respond_channel_callback snd rcv)) = (both refl refl)
  request_n-Apart n dc (some (request_response_callback sink cache)) = (both refl refl)
  request_n-Apart n dc (some (request_stream_callback pc)) = (both refl refl)
  request_n-Apart n dc (some (request_channel_callback snd rcv)) = (both refl refl)

  handle-HandledApart :
      (request_max : ℕ) (r : Responder) (f : StreamFrame) (dc : DuplexConnection)
      → HandledApart k dc (handle request_max r sid f dc)
  unfolding handle on_frame_request_n
  handle-HandledApart request_max r (with_payload f) dc = receive-Apart r f dc
  handle-HandledApart request_max r cancels dc = cancel-Apart dc
  handle-HandledApart request_max r (fails e) dc = error-Apart e dc
  handle-HandledApart request_max r (requests n) dc = keeps _ false (
      trans (request_n-Apart (to_int_request_n request_max n) dc (dc.messages sid))
        (both refl refl))

abbrev state_of : DuplexConnection → Handled → DuplexConnection
state_of dc (done (dc', failed)) = dc'
state_of dc panic = dc

apart_of :
    (k : ℕ) (dc dc' : DuplexConnection) (failed : Bool) (h : Handled)
    → HandledApart k dc h
    → h ≡ done (dc', failed)
    → (dc'.messages k ≡ dc.messages k) × (dc'.fragments k ≡ dc.fragments k)
apart_of k dc dc' failed h (keeps c f x) e =
    let same = ap (λ o. state_of dc o) e in
    (
      ap (λ s. s.messages k) (sym same) ∙ x.same_messages,
      ap (λ s. s.fragments k) (sym same) ∙ x.same_fragments,
    )
apart_of k dc dc' failed h stops e = cc

-- Handling a frame of one stream, of any kind, without a panic leaves the entry and the unfinished
-- payload of every other stream as they were.
pub handle-Apart :
    (request_max : ℕ) (r : Responder) (sid k : ℕ) (f : StreamFrame) (dc dc' : DuplexConnection)
    (failed : Bool)
    → k ≢ sid
    → handle request_max r sid f dc ≡ done (dc', failed)
    → (dc'.messages k ≡ dc.messages k) × (dc'.fragments k ≡ dc.fragments k)
handle-Apart request_max r sid k f dc dc' failed ne e =
    apart_of k dc dc' failed (handle request_max r sid f dc)
      (handle-HandledApart sid k (unequal k sid ne) request_max r f dc) e
  where
    unequal : (a b : ℕ) → a ≢ b → a == b ≡ false
    unequal a b ne = elim (Bool-cases (a == b)) [
      | inl e ↦ absurd (ne ((==_iff a b).0 e))
      | inr e ↦ e
    ]

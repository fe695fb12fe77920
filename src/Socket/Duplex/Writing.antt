-- ===== src/Socket/Duplex/Writing.antt =====
-- The write loop of internal/socket/duplex.go: drainOne, drain and drainBacklog. The transport is a
-- parameter: whether its Send of a frame succeeds. A frame that was sent is done, as Transport.Send sees to.
pub mod Accounts
pub mod Backlog
use rsocket_go.Base.{ℕ, zero, suc, ◌+◌, Bool, true, false, List, [], ◌∷◌, ◌++◌, Option, none, some}
use rsocket_go.Base.{if◌then◌else◌, ◌||◌}
use rsocket_go.Socket.Duplex.{OutFrame, Queued, lease_frame, DuplexConnection, run_hook}
use rsocket_go.Socket.Duplex.Sending.{plain}

-- A transport, and the frames that it has taken, in order.
pub record Wire : Type 0 where
  pub connected : Bool
  pub sent : List OutFrame
  pub flushed : ℕ

pub record Writer : Type 0 where
  pub dc : DuplexConnection
  pub wire : Wire

-- One round takes a lease or the next frame of the queue; which of them is ready is given.
pub data Ready : Type 0 where
  lease_ready : ℕ → ℕ → List ℕ → Ready
  queue_ready : Ready

module _ (sends_ok : List OutFrame → OutFrame → Bool) where
  -- tp.Send(out, false)
  unfoldable pub send : Queued → Writer → Writer × Bool
  send q w =
      if sends_ok w.wire.sent q.frame
      then (
        record w {
          dc = run_hook q.hook w.dc;
          wire = record {
            connected = w.wire.connected;
            sent = w.wire.sent ++ (q.frame ∷ []);
            flushed = w.wire.flushed;
          };
        },
        true,
      )
      else (w, false)

  abbrev pub to_backlog : Queued → Writer → Writer
  to_backlog q w = record w { dc = record w.dc { snd_backlog = w.dc.snd_backlog ++ (q ∷ []) } }

  abbrev pub kept_if : Bool → Queued → Writer → Writer × Bool
  kept_if true q w = (w, true)
  kept_if false q w = (to_backlog q w, false)

  -- What could not be sent is kept in the backlog.
  unfoldable pub drain_one : Queued → Writer → Writer × Bool
  drain_one q w =
      let (sent, ok) = send q w in
      if w.wire.connected then kept_if ok q sent else (to_backlog q w, false)

  abbrev pub take_queued : List Queued → Writer → Option (Queued × Writer)
  take_queued [] w = none
  take_queued (q ∷ qs) w = some (q, record w { dc = record w.dc { snd_queue = qs } })

  abbrev pub next_out : Ready → Writer → Option (Queued × Writer)
  next_out (lease_ready ttl n metadata) w = some (plain (lease_frame ttl n metadata), w)
  next_out queue_ready w = take_queued w.dc.snd_queue w

  abbrev pub flush : Writer → Writer
  flush w = record w {
    wire = record {
      connected = w.wire.connected;
      sent = w.wire.sent;
      flushed = w.wire.flushed + 1;
    };
  }

  -- A queue that is ready and empty is closed: drain ends without a flush.
  abbrev pub by_next :
      (Bool → Writer → Writer × Bool) → Option (Queued × Writer) → Writer → Writer × Bool
  by_next go none w = (w, false)
  by_next go (some (q, w1)) w = let (w2, ok) = drain_one q w1 in go ok w2

  -- The rounds of drain, one for each frame that is in the queue when it starts, and one at least.
  unfoldable pub drain_rounds : List Ready → Bool → Writer → Writer × Bool
  drain_rounds [] flushes w = if flushes then (flush w, true) else (w, true)
  drain_rounds (r ∷ rs) flushes w = by_next (λ ok. drain_rounds rs (flushes || ok)) (next_out r w) w

  -- A frame of the backlog that cannot be sent is done, and given up.
  unfoldable pub resend : List Queued → Writer → Writer
  resend [] w = w
  resend (q ∷ qs) w =
      let (w1, ok) = send q w in
      let done_with = record w1 { dc = run_hook q.hook w1.dc } in
      resend qs (if ok then w1 else done_with)

  abbrev pub emptied : Writer → Writer
  emptied w = record w { dc = record w.dc { snd_backlog = [] } }

  abbrev pub drain_all : List Queued → Writer → Writer
  drain_all [] w = w
  drain_all (q ∷ qs) w = if w.wire.connected then flush (resend (q ∷ qs) (emptied w)) else emptied w

  -- With no transport the backlog is given up.
  unfoldable pub drain_backlog : Writer → Writer
  drain_backlog w = drain_all w.dc.snd_backlog w

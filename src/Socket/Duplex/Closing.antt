-- ===== src/Socket/Duplex/Closing.antt =====
-- Close of internal/socket/duplex.go. `Range` of a sync.Map visits its keys in an order of its own: the
-- keys of both tables are given in that order.
pub mod Order
use rsocket_go.Base.{ℕ, Bool, true, false, List, [], ◌∷◌, ◌++◌, Option, none, some}
use rsocket_go.Base.{if◌then◌else◌}
use rsocket_go.Fragmentation.Joiner.{Joiner}
use rsocket_go.Socket.Duplex.{
  Failure, socket_closed, Queued, joiner_released, transport_closed, DuplexConnection, emits,
  run_hook, stop_entry,
}

unfoldable pub destroy_handler : List ℕ → Failure → DuplexConnection → DuplexConnection
destroy_handler [] err dc = dc
destroy_handler (sid ∷ sids) err dc = destroy_handler sids err (stop_entry (dc.messages sid) err dc)

abbrev pub released : Option Joiner → DuplexConnection → DuplexConnection
released none dc = dc
released (some joiner) dc = emits (joiner_released joiner) dc

-- The entries stay in the table.
unfoldable pub destroy_fragment : List ℕ → DuplexConnection → DuplexConnection
destroy_fragment [] dc = dc
destroy_fragment (sid ∷ sids) dc = destroy_fragment sids (released (dc.fragments sid) dc)

unfoldable pub all_done : List Queued → DuplexConnection → DuplexConnection
all_done [] dc = dc
all_done (q ∷ qs) dc = all_done qs (run_hook q.hook dc)

unfoldable pub destroy_snd_queue : DuplexConnection → DuplexConnection
destroy_snd_queue dc = all_done dc.snd_queue (record dc { snd_queue = [] })

unfoldable pub destroy_snd_backlog : DuplexConnection → DuplexConnection
destroy_snd_backlog dc = all_done dc.snd_backlog (record dc { snd_backlog = [] })

-- An error that is set already is kept.
abbrev pub first_failure : Option Failure → Option Failure → Option Failure
first_failure none result = result
first_failure (some e) result = some e

-- A transport is given with what its Close returns.
unfoldable pub destroy_transport : Option (Option Failure) → DuplexConnection → DuplexConnection
destroy_transport none dc = dc
destroy_transport (some result) dc =
    emits transport_closed (record dc { failure = first_failure dc.failure result })

abbrev pub reason : Option Failure → Failure
reason none = socket_closed
reason (some e) = e

-- The rest of Close, once `closed` is set.
unfoldable pub shut_down :
    List ℕ → List ℕ → Option (Option Failure) → DuplexConnection → DuplexConnection × Option Failure
shut_down streams fragments tp dc =
    let dc1 = destroy_transport tp dc in
    let dc2 = destroy_handler streams (reason dc1.failure) dc1 in
    (destroy_fragment fragments (destroy_snd_backlog (destroy_snd_queue dc2)), dc1.failure)

unfoldable pub close :
    List ℕ → List ℕ → Option (Option Failure) → DuplexConnection → DuplexConnection × Option Failure
close streams fragments tp dc =
    if dc.closed then (dc, none) else shut_down streams fragments tp (record dc { closed = true })

-- ===== src/Examples/Streams.antt =====
-- The unbounded buffer and the read loop at concrete values.
use rsocket_go.Base.{ℕ, ◌<◌, ◌≡◌, refl, true, false, List, [], ◌∷◌, ◌++◌}
use rsocket_go.Base.{some, ◌⊎◌}
use rsocket_go.Base.Outcome.{done}
use rsocket_go.Buffers.Unbounded.{Unbounded, new_unbounded, put, receive, dispose}
use rsocket_go.Buffers.Unbounded.Fifo.{Call, Effect, puts, loads, receives, disposes, run, contents}
use rsocket_go.Buffers.Unbounded.Fifo
use rsocket_go.Transport.Start.{
  waiting, handling, loading, ended, takes, handles, State, start, Step, reads_odd, odd_moves,
  stops, Reach, begins, later,
}
use rsocket_go.Transport.Start.Order.{only, steps_to_end}
use rsocket_go.Transport.Start.Order

abbrev calls : List (Call ℕ)
calls = puts 7 ∷ puts 8 ∷ receives ∷ loads ∷ disposes ∷ puts 9 ∷ receives ∷ loads ∷ []

run-fifo_example :
    (e : Effect ℕ) × (run calls new_unbounded ≡ done e)
    × (e.accepted ≡ e.out ++ contents e.after)
    × ((e.after.closed ≡ false) ⊎ ((e.after.backlog ≡ []) × (e.after.disposed ≡ true)))
run-fifo_example = Fifo.run-fifo calls

-- Frames that are their own stream ids; the first is read, taken and dispatched.
abbrev two_streams : List ℕ
two_streams = 1 ∷ 2 ∷ 3 ∷ []

abbrev slot_1 : Unbounded ℕ
slot_1 = record { slot = some 1; closed = false; backlog = []; disposed = false }

abbrev one_read : State ℕ
one_read = record {
  input = 2 ∷ 3 ∷ [];
  odd = record { buffer = slot_1; loop = waiting };
  even = record { buffer = new_unbounded; loop = waiting };
  log = [];
  reading = true;
}

abbrev one_taken : State ℕ
one_taken = record one_read { odd = record { buffer = new_unbounded; loop = handling 1 } }

abbrev one_handled : State ℕ
one_handled = record one_read {
  odd = record { buffer = new_unbounded; loop = loading };
  log = 1 ∷ [];
}

reach_read : Reach (λ n. n) two_streams one_read
unfolding put
reach_read =
    later (start two_streams) one_read begins
      (reads_odd 1 (2 ∷ 3 ∷ []) slot_1 true refl refl refl refl)

reach_handled : Reach (λ n. n) two_streams one_handled
unfolding receive
reach_handled =
    later one_taken one_handled
      (later one_read one_taken reach_read (odd_moves _ [] (takes 1 refl)))
      (odd_moves _ (1 ∷ []) (handles 1))

dispatched_in_order_example :
    (left : List ℕ) × (only (λ n. n) 1 two_streams ≡ only (λ n. n) 1 one_handled.log ++ left)
dispatched_in_order_example =
    Order.dispatched_in_order (λ n. n) two_streams one_handled reach_handled 1

abbrev stopped : State ℕ
stopped = record one_read {
  odd = record { buffer = dispose slot_1; loop = waiting };
  even = record { buffer = dispose new_unbounded; loop = waiting };
  reading = false;
}

reach_stopped : Reach (λ n. n) two_streams stopped
reach_stopped = later one_read stopped reach_read (stops refl)

stopped_ends_example :
    (((stopped.odd.loop ≡ ended)
        × (stopped.even.loop ≡ ended)
        × ((k : ℕ)
            → only (λ n. n) k two_streams
              ≡ only (λ n. n) k stopped.log ++ only (λ n. n) k stopped.input))
      ⊎ ((t : State ℕ) × Step (λ n. n) stopped t))
    × ((t : State ℕ)
        → Step (λ n. n) stopped t
        → (steps_to_end (λ n. n) t < steps_to_end (λ n. n) stopped) × (t.reading ≡ false))
stopped_ends_example = Order.stopped_ends (λ n. n) two_streams stopped reach_stopped refl

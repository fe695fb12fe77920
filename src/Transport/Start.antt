-- ===== src/Transport/Start.antt =====
-- Start and loopReadBuffer of core/transport/transport.go: one goroutine reads frames from the connection
-- and deals them out by their stream id, two dispatch them, interleaved in any order.
pub mod Lanes
pub mod Order
use rsocket_go.Base.{ℕ, ◌%◌, ◌≡◌, ◌≢◌}
use rsocket_go.Base.{Bool, true, false, List, [], ◌∷◌, ◌++◌, Option, none, some}
use rsocket_go.Base.Int.{ℤ}
use rsocket_go.Base.Outcome.{Outcome, done}
use rsocket_go.Buffers.Unbounded.{Unbounded, new_unbounded, put, load, dispose, receive}

-- Where loopReadBuffer stands: it waits in `range c`, has a frame that it dispatches, is about to call
-- Load, or has left the loop.
pub data Loop {ℓ} (F : Type ℓ) : Type ℓ where
  waiting : Loop F
  handling : F → Loop F
  loading ended : Loop F

pub record Lane {ℓ} (F : Type ℓ) : Type ℓ where
  pub buffer : Unbounded F
  pub loop : Loop F

-- One step of loopReadBuffer, and the frames that it has dispatched by it.
pub data LaneStep {ℓ} (F : Type ℓ) (b : Unbounded F) : Loop F → Lane F → List F → Type ℓ where
  takes :
      (x : F)
      → b.slot ≡ some x
      → LaneStep F b waiting (record { buffer = (receive b).0; loop = handling x }) []
  handles : (x : F) → LaneStep F b (handling x) (record { buffer = b; loop = loading }) (x ∷ [])
  loads :
      (b' : Unbounded F) (n : ℤ)
      → load b ≡ done (b', n)
      → LaneStep F b loading (record { buffer = b'; loop = waiting }) []
  leaves :
      b.slot ≡ none
      → b.closed ≡ true
      → LaneStep F b waiting (record { buffer = b; loop = ended }) []

-- `input` is what the connection has still to give, `log` the frames dispatched so far; `reading` ends
-- with the end of the input, an error, or the context.
pub record State {ℓ} (F : Type ℓ) : Type ℓ where
  pub input : List F
  pub odd : Lane F
  pub even : Lane F
  pub log : List F
  pub reading : Bool

abbrev pub new_lane {ℓ} : {F : Type ℓ} → Lane F
new_lane = record { buffer = new_unbounded; loop = waiting }

abbrev pub start {ℓ} : {F : Type ℓ} → List F → State F
start input = record { input = input; odd = new_lane; even = new_lane; log = []; reading = true }

module _ {ℓ} {F : Type ℓ} (stream_id : F → ℕ) where
  pub data Step (s : State F) : State F → Type ℓ where
    reads_odd :
        (f : F) (rest : List F) (b : Unbounded F) (ok : Bool)
        → s.reading ≡ true
        → s.input ≡ f ∷ rest
        → stream_id f % 2 ≡ 1
        → put s.odd.buffer f ≡ done (b, ok)
        → Step s (record s { input = rest; odd = record { buffer = b; loop = s.odd.loop } })
    reads_even :
        (f : F) (rest : List F) (b : Unbounded F) (ok : Bool)
        → s.reading ≡ true
        → s.input ≡ f ∷ rest
        → stream_id f % 2 ≢ 1
        → stream_id f ≢ 0
        → put s.even.buffer f ≡ done (b, ok)
        → Step s (record s { input = rest; even = record { buffer = b; loop = s.even.loop } })
    reads_zero :
        (f : F) (rest : List F)
        → s.reading ≡ true
        → s.input ≡ f ∷ rest
        → stream_id f ≡ 0
        → Step s (record s { input = rest; log = s.log ++ (f ∷ []) })
    odd_moves :
        (l : Lane F) (out : List F)
        → LaneStep F s.odd.buffer s.odd.loop l out
        → Step s (record s { odd = l; log = s.log ++ out })
    even_moves :
        (l : Lane F) (out : List F)
        → LaneStep F s.even.buffer s.even.loop l out
        → Step s (record s { even = l; log = s.log ++ out })
    stops :
        s.reading ≡ true
        → Step s (record s {
          reading = false;
          odd = record { buffer = dispose s.odd.buffer; loop = s.odd.loop };
          even = record { buffer = dispose s.even.buffer; loop = s.even.loop };
        })

  pub data Reach (input : List F) : State F → Type ℓ where
    begins : Reach input (start input)
    later : (s t : State F) → Reach input s → Step s t → Reach input t

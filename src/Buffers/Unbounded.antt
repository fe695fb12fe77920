-- ===== src/Buffers/Unbounded.antt =====
-- internal/buffer/unbounded.go. Each method runs under the mutex of the buffer, so a run is a sequence of
-- calls; the receiver of the channel takes values between them.
pub mod Fifo
use rsocket_go.Base.{ℕ, Bool, true, false, List, [], ◌∷◌, ◌++◌, Option, none, some}
use rsocket_go.Base.{nonempty, if◌then◌else◌}
use rsocket_go.Base.Int.{ℤ, pos, negsuc}
use rsocket_go.Base.Outcome.{Outcome, done, panic, ◌>>=◌}

-- `slot` and `closed` are the channel of capacity one.
pub record Unbounded {ℓ} (A : Type ℓ) : Type ℓ where
  pub slot : Option A
  pub closed : Bool
  pub backlog : List A
  pub disposed : Bool

module _ {ℓ} {A : Type ℓ} where
  abbrev pub new_unbounded : Unbounded A
  new_unbounded = record { slot = none; closed = false; backlog = []; disposed = false }

  -- case b.c <- t, in a select with a default. A send on a closed channel panics.
  abbrev pub try_send : Bool → Option A → A → Outcome (Option A × Bool)
  try_send true slot t = panic
  try_send false none t = done (some t, true)
  try_send false (some x) t = done (some x, false)

  abbrev pub or_append : Unbounded A → A → Option A × Bool → Unbounded A × Bool
  or_append b t (slot, true) = (record b { slot = slot }, true)
  or_append b t (slot, false) = (record b { backlog = b.backlog ++ (t ∷ []) }, true)

  unfoldable pub put : Unbounded A → A → Outcome (Unbounded A × Bool)
  put b t =
      if b.disposed
      then done (b, false)
      else if nonempty b.backlog
      then done (record b { backlog = b.backlog ++ (t ∷ []) }, true)
      else (try_send b.closed b.slot t >>= λ r. done (or_append b t r))

  -- A second close of the channel panics, and the panic is recovered.
  abbrev pub close : Unbounded A → Unbounded A
  close b = record b { closed = true }

  abbrev pub moved : Unbounded A → List A → Option A × Bool → Unbounded A × ℤ
  moved b rest (slot, true) = (record b { slot = slot; backlog = rest }, pos 1)
  moved b rest (slot, false) = (b, pos 0)

  abbrev pub load_from : List A → Unbounded A → Outcome (Unbounded A × ℤ)
  load_from (t ∷ rest) b = (try_send b.closed b.slot t >>= λ r. done (moved b rest r))
  load_from [] b = if b.disposed then done (close b, negsuc 0) else done (b, pos 0)

  unfoldable pub load : Unbounded A → Outcome (Unbounded A × ℤ)
  load b = load_from b.backlog b

  unfoldable pub dispose : Unbounded A → Unbounded A
  dispose b = let b' = record b { disposed = true } in if nonempty b'.backlog then b' else close b'

  -- A receive from `Get()`: a value, or nothing, where the receiver waits or the channel has ended.
  unfoldable pub receive : Unbounded A → Unbounded A × Option A
  receive b = (record b { slot = none }, b.slot)

-- ===== src/Framing/Buffered/Refs.antt =====
-- The references of core/framing/buffered.go: when the buffer goes back to its pool.
use rsocket_go.Base.{ℕ, zero, suc, ◌+◌, ◌-◌, ◌≤◌, ◌≡◌, refl, ap, arith, ◌∙◌}
use rsocket_go.Base.{List, [], ◌∷◌, ◌++◌, none, some}
use rsocket_go.Base.Int.{pos}
use rsocket_go.BigEndian.{Bytes}
use rsocket_go.Framing.Buffered.{BufferedFrame, new_buffered_frame, inc_ref, release, give_back}

pub data RefCall : Type 0 where
  inc_ref_call release_call : RefCall

unfoldable pub step : RefCall → BufferedFrame → BufferedFrame
step inc_ref_call f = inc_ref f
step release_call f = release f

unfoldable pub steps : List RefCall → BufferedFrame → BufferedFrame
steps [] f = f
steps (c ∷ cs) f = steps cs (step c f)

pub repeat : ℕ → RefCall → List RefCall
repeat zero c = []
repeat (suc n) c = c ∷ repeat n c

steps-append :
    (cs ds : List RefCall) (f : BufferedFrame) → steps (cs ++ ds) f ≡ steps ds (steps cs f)
unfolding steps
steps-append [] ds f = refl
steps-append (c ∷ cs) ds f = steps-append cs ds (step c f)

abbrev pub held : Bytes → ℕ → BufferedFrame
held b refs = record { inner = some b; refs = pos refs; returned = 0 }

steps-inc_refs : (n m : ℕ) (b : Bytes) → steps (repeat n inc_ref_call) (held b m) ≡ held b (n + m)
unfolding steps repeat step inc_ref
steps-inc_refs zero m b = ap (held b) (omega arith)
steps-inc_refs (suc n) m b = steps-inc_refs n (suc m) b ∙ ap (held b) (omega arith)

steps-releases :
    (n m : ℕ) (b : Bytes)
    → n ≤ m
    → steps (repeat n release_call) (held b (suc m)) ≡ held b (suc (m - n))
unfolding steps repeat step release give_back
steps-releases zero m b h = ap (held b) (omega arith)
steps-releases (suc n) zero b h = absurd (omega arith)
steps-releases (suc n) (suc m) b h =
    steps-releases n m b (omega arith) ∙ ap (λ k. held b (suc k)) (omega arith)

-- A new frame that has seen k calls of IncRef keeps its buffer through up to k calls of Release,
-- with one reference less for each; after k of them one reference is left, and a Release of a
-- frame with one reference gives the buffer back.
pub release_lem :
    (k n : ℕ) (b : Bytes)
    → n ≤ k
    → (steps (repeat k inc_ref_call ++ repeat n release_call) (new_buffered_frame b)
        ≡ held b (suc (k - n)))
      × (steps (repeat k inc_ref_call ++ repeat k release_call) (new_buffered_frame b) ≡ held b 1)
      × (release (held b 1) ≡ record { inner = none; refs = pos 0; returned = 1 })
unfolding new_buffered_frame release give_back
release_lem k n b h =
    (counted n h, counted k (omega arith) ∙ ap (λ j. held b (suc j)) (omega arith), refl)
  where
    counted :
        (n : ℕ)
        → n ≤ k
        → steps (repeat k inc_ref_call ++ repeat n release_call) (held b 1) ≡ held b (suc (k - n))
    counted n h =
        steps-append (repeat k inc_ref_call) (repeat n release_call) (held b 1)
        ∙ ap (steps (repeat n release_call)) (steps-inc_refs k 1 b ∙ ap (held b) (omega arith))
        ∙ steps-releases n k b h

-- ===== src/Framing/Buffered/Shared.antt =====
-- IncRef and Release of core/framing/buffered.go called from several goroutines: their atomic operations
-- on the counter and on the pointer, in any order.
use rsocket_go.Base.{
  ℕ, zero, suc, ◌+◌, ◌<◌, ◌≤◌, ◌≡◌, refl, ap, arith, ◌∙◌, sym, Bool, true, false, List, [], ◌∷◌,
  ◌++◌,
}
use rsocket_go.Base.{Option, none, some, ◌⊎◌, inl, inr, if◌then◌else◌}
use mathlib.Core.Path.{subst}
use rsocket_go.Base.Int.{pred_ℤ, is_positive}
use rsocket_go.BigEndian.{Bytes}
use rsocket_go.Framing.Buffered.{BufferedFrame, new_buffered_frame, inc_ref, give_back}
use rsocket_go.Framing.Buffered.Refs.{RefCall, inc_ref_call, release_call, held}

-- The frame, how many calls of Release are about to load the pointer, and how many have loaded one
-- that was not nil and are about to swap it.
pub record Shared : Type 0 where
  pub frame : BufferedFrame
  pub loading : ℕ
  pub swapping : ℕ

unfoldable pub new_shared : Bytes → Shared
new_shared b = record { frame = new_buffered_frame b; loading = 0; swapping = 0 }

-- f.refs.Add(-1)
abbrev pub dropped : BufferedFrame → BufferedFrame
dropped f = record f { refs = pred_ℤ f.refs }

-- With what is left the call returns, or goes on to the pointer.
unfoldable pub drop_ref : Shared → Shared
drop_ref s =
    let f = dropped s.frame in
    record s { frame = f; loading = if is_positive f.refs then s.loading else suc s.loading }

abbrev pub loaded : Option Bytes → ℕ → ℕ
loaded none n = n
loaded (some b) n = suc n

-- One atomic operation; the list has the operations on the counter.
pub data Move (s : Shared) : Shared → List RefCall → Type 0 where
  adds : Move s (record s { frame = inc_ref s.frame }) (inc_ref_call ∷ [])
  drops : Move s (drop_ref s) (release_call ∷ [])
  loads :
      (n : ℕ)
      → s.loading ≡ suc n
      → Move s (record s { loading = n; swapping = loaded s.frame.inner s.swapping }) []
  -- the swap of a pointer that another call has made nil does nothing
  swaps :
      (n : ℕ)
      → s.swapping ≡ suc n
      → Move s (record s { frame = give_back s.frame.inner s.frame; swapping = n }) []

pub data Reach (b : Bytes) : Shared → List RefCall → Type 0 where
  begins : Reach b (new_shared b) []
  later : (s t : Shared) (cs ds : List RefCall) → Reach b s cs → Move s t ds → Reach b t (cs ++ ds)

-- The holders of the frame: IncRef by a holder makes one more, Release one less; with none left,
-- later calls count for nothing.
abbrev pub one : ℕ → RefCall → ℕ
one zero c = zero
one (suc n) inc_ref_call = suc (suc n)
one (suc n) release_call = n

unfoldable pub holders : ℕ → List RefCall → ℕ
holders n [] = n
holders n (c ∷ cs) = holders (one n c) cs

-- The buffer is there and was never given back, or it is gone and was given back once.
abbrev pub GivenOnce : Bytes → BufferedFrame → Type 0
GivenOnce b f = ((f.inner ≡ some b) × (f.returned ≡ 0)) ⊎ ((f.inner ≡ none) × (f.returned ≡ 1))

-- While there are holders, the frame is whole and counts them; afterwards the buffer is given back once,
-- at the latest when the calls of Release have ended.
unfoldable pub Counted : Bytes → ℕ → Shared → Type 0
Counted b zero s =
    GivenOnce b s.frame
    × ((0 < s.loading + s.swapping) ⊎ ((s.frame.inner ≡ none) × (s.frame.returned ≡ 1)))
Counted b (suc n) s = (s.frame ≡ held b (suc n)) × (s.loading ≡ 0) × (s.swapping ≡ 0)

holders-append : (n : ℕ) (cs ds : List RefCall) → holders n (cs ++ ds) ≡ holders (holders n cs) ds
unfolding holders
holders-append n [] ds = refl
holders-append n (c ∷ cs) ds = holders-append (one n c) cs ds

if_grows : (b : Bool) (n : ℕ) → n ≤ (if b then n else suc n)
if_grows true n = omega arith
if_grows false n = omega arith

after_load :
    (b : Bytes) (f : BufferedFrame) (k swapping : ℕ)
    → GivenOnce b f
    → (0 < k + loaded f.inner swapping) ⊎ ((f.inner ≡ none) × (f.returned ≡ 1))
after_load b f k swapping (inr gone) = inr gone
after_load b f k swapping (inl (there, zeroth)) =
    inl (omega (arith, ap (λ o. loaded o swapping) there))

after_swap :
    (b : Bytes) (f : BufferedFrame)
    → GivenOnce b f
    → ((give_back f.inner f).inner ≡ none) × ((give_back f.inner f).returned ≡ 1)
unfolding give_back
after_swap b f (inl (there, zeroth)) = (
  ap (λ o. (give_back o f).inner) there,
  ap (λ o. (give_back o f).returned) there ∙ ap suc zeroth,
)
after_swap b f (inr (gone, first)) =
    (ap (λ o. (give_back o f).inner) gone ∙ gone, ap (λ o. (give_back o f).returned) gone ∙ first)

Move-Counted :
    (b : Bytes) (h : ℕ) (s t : Shared) (ds : List RefCall)
    → Counted b h s
    → Move s t ds
    → Counted b (holders h ds) t
unfolding Counted holders drop_ref inc_ref give_back
Move-Counted b (suc n) s t ds (e, el, es) adds = (ap inc_ref e, el, es)
Move-Counted b (suc (suc n)) s t ds (e, el, es) drops = (
  ap dropped e,
  ap (λ f. if is_positive (pred_ℤ f.refs) then s.loading else suc s.loading) e ∙ el,
  es,
)
Move-Counted b (suc zero) s t ds (e, el, es) drops = (
  inl (ap (λ f. f.inner) e, ap (λ f. f.returned) e),
  inl (omega (arith, ap (λ f. if is_positive (pred_ℤ f.refs) then s.loading else suc s.loading) e)),
)
Move-Counted b (suc n) s t ds (e, el, es) (loads k q) = cc
Move-Counted b (suc n) s t ds (e, el, es) (swaps k q) = cc
Move-Counted b zero s t ds c adds = c
Move-Counted b zero s t ds (once, ended) drops = (
  once,
  elim ended [
    | inl busy ↦ inl (omega (arith, if_grows (is_positive (pred_ℤ s.frame.refs)) s.loading, busy))
    | inr gone ↦ inr gone
  ],
)
Move-Counted b zero s t ds (once, ended) (loads k q) =
    (once, after_load b s.frame k s.swapping once)
Move-Counted b zero s t ds (once, ended) (swaps k q) =
    let gone = after_swap b s.frame once in (inr gone, inr gone)

-- In every state that the atomic operations of any calls of IncRef and Release on a new frame
-- reach, in any interleaving: while, going by the calls, somebody still holds the frame, it has
-- its bytes, counts its holders and was not given back; once nobody holds it, its buffer is there
-- and was never given back, or gone and given back once, and the latter when no call of Release is
-- under way.
pub Reach-Counted :
    (b : Bytes) (s : Shared) (cs : List RefCall) → Reach b s cs → Counted b (holders 1 cs) s
unfolding Counted holders new_shared new_buffered_frame
Reach-Counted b s cs begins = (refl, refl, refl)
Reach-Counted b t cs (later s t' cs' ds r m) =
    subst (λ h. Counted b h t) (sym (holders-append 1 cs' ds))
      (Move-Counted b (holders 1 cs') s t ds (Reach-Counted b s cs' r) m)

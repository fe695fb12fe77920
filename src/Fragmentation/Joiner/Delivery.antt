-- ===== src/Fragmentation/Joiner/Delivery.antt =====
-- The fragment table of internal/socket/duplex.go over a whole run of arriving frames: the frames of the
-- streams interleave in any order, and each stream sees only its own.
use rsocket_go.Base.{ℕ, ◌≡◌, refl, ap, List, [], ◌∷◌, ◌∙◌, sym}
use rsocket_go.Base.{Bool, true, false, Option, none, some, if◌then◌else◌, Bool-cases, inl, inr}
use rsocket_go.Base.{◌==◌, ==-refl, ==_iff}
use rsocket_go.Core.Flag
use rsocket_go.Core.Types.{check}
use rsocket_go.Fragmentation.Joiner.{
  Fragment, Joiner, Whole, single, joined, new_joiner, push, push_on, dispatch, Fragments, store,
  do_fragment,
}

-- The frames of a connection in the order of arrival, each with its stream.
abbrev pub Arrivals : Type 0
Arrivals = List (ℕ × Fragment)

abbrev pub deliver : Option Whole → List Whole → List Whole
deliver none ws = ws
deliver (some w) ws = w ∷ ws

-- What the handler of stream `k` is given, and the table at the end.
unfoldable pub delivered : ℕ → Fragments → Arrivals → List Whole
delivered k fragments [] = []
delivered k fragments ((sid, f) ∷ rest) =
    let after = delivered k (do_fragment fragments sid f).0 rest in
    if k == sid then deliver (do_fragment fragments sid f).1 after else after

unfoldable pub table_after : Fragments → Arrivals → Fragments
table_after fragments [] = fragments
table_after fragments ((sid, f) ∷ rest) = table_after (do_fragment fragments sid f).0 rest

unfoldable pub frames_of : ℕ → Arrivals → List Fragment
frames_of k [] = []
frames_of k ((sid, f) ∷ rest) = if k == sid then f ∷ frames_of k rest else frames_of k rest

-- One stream by itself.
unfoldable pub alone_push : Joiner × Bool → Option Joiner × Option Whole
alone_push (joiner, true) = (none, some (joined joiner))
alone_push (joiner, false) = (some joiner, none)

unfoldable pub alone : Option Joiner → Fragment → Option Joiner × Option Whole
alone (some joiner) f = alone_push (push joiner f)
alone none f =
    if check f.flag Flag.follow then (some (new_joiner f), none) else (none, some (single f))

unfoldable pub alone_all : Option Joiner → List Fragment → Option Joiner × List Whole
alone_all o [] = (o, [])
alone_all o (f ∷ fs) =
    let after = alone_all (alone o f).0 fs in (after.0, deliver (alone o f).1 after.1)

pub store_own :
    (fragments : Fragments) (sid : ℕ) (v : Option Joiner) → store fragments sid v sid ≡ v
unfolding store
store_own fragments sid v = ap (λ b. if b then v else fragments sid) (==-refl sid)

pub store_other :
    (fragments : Fragments) (sid k : ℕ) (v : Option Joiner)
    → k == sid ≡ false
    → store fragments sid v k ≡ fragments k
unfolding store
store_other fragments sid k v e = ap (λ b. if b then v else fragments k) e

push_on-own :
    (p : Joiner × Bool) (fragments : Fragments) (sid : ℕ)
    → ((push_on p fragments sid).0 sid ≡ (alone_push p).0)
      × ((push_on p fragments sid).1 ≡ (alone_push p).1)
unfolding push_on alone_push
push_on-own (joiner, true) fragments sid = (store_own fragments sid none, refl)
push_on-own (joiner, false) fragments sid = (store_own fragments sid (some joiner), refl)

push_on-other :
    (p : Joiner × Bool) (fragments : Fragments) (sid k : ℕ)
    → k == sid ≡ false
    → (push_on p fragments sid).0 k ≡ fragments k
unfolding push_on
push_on-other (joiner, true) fragments sid k e = store_other fragments sid k none e
push_on-other (joiner, false) fragments sid k e = store_other fragments sid k (some joiner) e

abbrev opened : Bool → Fragments → ℕ → Fragment → Fragments × Option Whole
opened b fragments sid f =
    if b then (store fragments sid (some (new_joiner f)), none) else (fragments, some (single f))

abbrev pub opened_alone : Bool → Fragment → Option Joiner × Option Whole
opened_alone b f = if b then (some (new_joiner f), none) else (none, some (single f))

dispatch-own :
    (o : Option Joiner) (fragments : Fragments) (sid : ℕ) (f : Fragment)
    → fragments sid ≡ o
    → ((dispatch o fragments sid f).0 sid ≡ (alone o f).0)
      × ((dispatch o fragments sid f).1 ≡ (alone o f).1)
unfolding dispatch alone
dispatch-own (some joiner) fragments sid f e = push_on-own (push joiner f) fragments sid
dispatch-own none fragments sid f e = by_flag (check f.flag Flag.follow)
  where
    by_flag :
        (b : Bool)
        → ((opened b fragments sid f).0 sid ≡ (opened_alone b f).0)
          × ((opened b fragments sid f).1 ≡ (opened_alone b f).1)
    by_flag true = (store_own fragments sid (some (new_joiner f)), refl)
    by_flag false = (e, refl)

dispatch-other :
    (o : Option Joiner) (fragments : Fragments) (sid k : ℕ) (f : Fragment)
    → k == sid ≡ false
    → (dispatch o fragments sid f).0 k ≡ fragments k
unfolding dispatch
dispatch-other (some joiner) fragments sid k f e = push_on-other (push joiner f) fragments sid k e
dispatch-other none fragments sid k f e = by_flag (check f.flag Flag.follow)
  where
    by_flag : (b : Bool) → (opened b fragments sid f).0 k ≡ fragments k
    by_flag true = store_other fragments sid k (some (new_joiner f)) e
    by_flag false = refl

do_fragment-own :
    (k sid : ℕ) (fragments : Fragments) (f : Fragment)
    → k == sid ≡ true
    → ((do_fragment fragments sid f).0 k ≡ (alone (fragments k) f).0)
      × ((do_fragment fragments sid f).1 ≡ (alone (fragments k) f).1)
unfolding do_fragment
do_fragment-own k sid fragments f e =
    rw ((==_iff k sid).0 e) (dispatch-own (fragments sid) fragments sid f refl)

pub do_fragment-other :
    (k sid : ℕ) (fragments : Fragments) (f : Fragment)
    → k == sid ≡ false
    → (do_fragment fragments sid f).0 k ≡ fragments k
unfolding do_fragment
do_fragment-other k sid fragments f e = dispatch-other (fragments sid) fragments sid k f e

-- Whatever frames arrive in whatever interleaving, what the handler of a stream is given, and what
-- the table keeps for it, is what the stream's own frames give by themselves.
pub delivered-alone :
    (k : ℕ) (arrivals : Arrivals) (fragments : Fragments)
    → (delivered k fragments arrivals ≡ (alone_all (fragments k) (frames_of k arrivals)).1)
      × (table_after fragments arrivals k ≡ (alone_all (fragments k) (frames_of k arrivals)).0)
unfolding delivered table_after frames_of alone_all
delivered-alone k [] fragments = (refl, refl)
delivered-alone k ((sid, f) ∷ rest) fragments =
    let ih = delivered-alone k rest next in
    elim (Bool-cases (k == sid)) [
      | inl e ↦
          let (table, out) = do_fragment-own k sid fragments f e in
          (
            ap (λ b. if b then deliver now after else after) e
                ∙ (λ i. deliver (out i) (ih.0 i))
                ∙ ap (λ o. deliver (alone (fragments k) f).1 (alone_all o fs).1) table
                ∙ sym (ap (λ b. (alone_all (fragments k) (if b then f ∷ fs else fs)).1) e),
            ih.1
                ∙ ap (λ o. (alone_all o fs).0) table
                ∙ sym (ap (λ b. (alone_all (fragments k) (if b then f ∷ fs else fs)).0) e),
          )
      | inr e ↦
          let kept = do_fragment-other k sid fragments f e in
          (
            ap (λ b. if b then deliver now after else after) e
                ∙ ih.0
                ∙ ap (λ o. (alone_all o fs).1) kept
                ∙ sym (ap (λ b. (alone_all (fragments k) (if b then f ∷ fs else fs)).1) e),
            ih.1
                ∙ ap (λ o. (alone_all o fs).0) kept
                ∙ sym (ap (λ b. (alone_all (fragments k) (if b then f ∷ fs else fs)).0) e),
          )
    ]
  where
    next : Fragments
    next = (do_fragment fragments sid f).0

    now : Option Whole
    now = (do_fragment fragments sid f).1

    after : List Whole
    after = delivered k next rest

    fs : List Fragment
    fs = frames_of k rest

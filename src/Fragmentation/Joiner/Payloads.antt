-- ===== src/Fragmentation/Joiner/Payloads.antt =====
-- The frames of one payload over the fragment table: from an empty entry they give the handler the
-- payload, whatever arrives between them.
use rsocket_go.Base.{ℕ, ◌≡◌, refl, ap, ◌++◌, List, [], ◌∷◌, ◌∙◌, sym, append-nil, append_assoc}
use rsocket_go.Base.{Bool, true, false, not, Option, none, some, nonempty}
use mathlib.Core.Path.{subst}
use rsocket_go.BigEndian.{Bytes}
use rsocket_go.Framing.Shape.{reported}
use rsocket_go.Fragmentation.Splitter.{SplitResult, is_valid_fragment, split_skip}
use rsocket_go.Fragmentation.Splitter.Correct.{Splits, split_skip-Splits}
use rsocket_go.Fragmentation.Joiner.{
  Fragment, Joiner, Whole, single, joined, whole_metadata, whole_data, metadata, data_bytes,
  new_joiner, push, append_metadata, Fragments,
}
use rsocket_go.Fragmentation.Joiner.Reassembly.{
  Carries, AllCarry, carried_follow, metadata_loop-Splits, data_loop-Splits,
}
use rsocket_go.Fragmentation.Joiner.Delivery.{
  Arrivals, deliver, delivered, table_after, frames_of, alone_push, alone, alone_all, opened_alone,
  delivered-alone,
}

pushed : Bool → Joiner → Fragment → List Fragment → Option Joiner × List Whole
pushed b p f fs =
    let now = alone_push (p ++ (f ∷ []), not b) in
    let after = alone_all now.0 fs in (after.0, deliver now.1 after.1)

-- The later frames of a payload, after those that `p` holds.
alone_all-joined :
    (rs : List SplitResult) (fs : List Fragment) (m d : Bytes) (p : Joiner)
    → AllCarry rs fs
    → Splits rs m d
    → nonempty rs ≡ true
    → alone_all (some p) fs ≡ (none, joined (p ++ fs) ∷ [])
unfolding alone_all alone alone_push push AllCarry Splits pushed
alone_all-joined [] fs m d p c s e = cc
alone_all-joined (r ∷ rs) [] m d p c s e = elim c [ ]
alone_all-joined (r ∷ []) (f ∷ []) m d p (c, cs) (m', d', em, ed, ef, s) e =
    ap (λ b. pushed b p f []) (carried_follow r f false (nonempty m) c ef)
alone_all-joined (r ∷ []) (f ∷ g ∷ fs) m d p (c, cs) s e = elim cs [ ]
alone_all-joined (r ∷ q ∷ rs) (f ∷ fs) m d p (c, cs) (m', d', em, ed, ef, s) e =
    ap (λ b. pushed b p f fs) (carried_follow r f true (nonempty m) c ef)
    ∙ alone_all-joined (q ∷ rs) fs m' d' (p ++ (f ∷ [])) cs s refl
    ∙ ap (λ j. (none, joined j ∷ [])) (append_assoc p (f ∷ []) fs)

-- What a payload arrives as: its only frame, or the joiner of its frames.
abbrev pub Arrived : Whole → Bytes → Bytes → Type 0
Arrived w m d = (whole_metadata w ≡ reported m) × (whole_data w ≡ d)

append_metadata-start : (o : Option Bytes) → append_metadata none o ≡ o
unfolding append_metadata
append_metadata-start none = refl
append_metadata-start (some m) = refl

pub joined-Arrived :
    (rs : List SplitResult) (fs : List Fragment) (m d : Bytes)
    → AllCarry rs fs
    → Splits rs m d
    → Arrived (joined fs) m d
unfolding whole_metadata whole_data metadata data_bytes
joined-Arrived rs fs m d c s = (
  metadata_loop-Splits rs fs m d none c s ∙ append_metadata-start (reported m),
  data_loop-Splits rs fs m d [] c s,
)

pub single-Arrived :
    (r : SplitResult) (f : Fragment) (m d : Bytes)
    → Carries r f
    → Splits (r ∷ []) m d
    → Arrived (single f) m d
unfolding whole_metadata whole_data Splits
single-Arrived r f m d c (m', d', em, ed, ef, (em', ed')) = (
  c.metadata_part
      ∙ ap reported (sym (append-nil r.metadata) ∙ ap (λ x. r.metadata ++ x) (sym em') ∙ sym em),
  c.data_part ∙ sym (append-nil r.data_bytes) ∙ ap (λ x. r.data_bytes ++ x) (sym ed') ∙ sym ed,
)

opened_all : Bool → Fragment → List Fragment → Option Joiner × List Whole
opened_all b f fs =
    let after = alone_all (opened_alone b f).0 fs in (after.0, deliver (opened_alone b f).1 after.1)

-- The frames of one payload, from an empty entry, give it to the handler, once, and empty the entry.
alone_all-payload :
    (rs : List SplitResult) (fs : List Fragment) (m d : Bytes)
    → AllCarry rs fs
    → Splits rs m d
    → nonempty rs ≡ true
    → (w : Whole) × (alone_all none fs ≡ (none, w ∷ [])) × Arrived w m d
unfolding alone_all alone AllCarry Splits opened_all new_joiner
alone_all-payload [] fs m d c s e = cc
alone_all-payload (r ∷ rs) [] m d c s e = elim c [ ]
alone_all-payload (r ∷ []) (f ∷ []) m d (c, cs) s e =
    let (m', d', em, ed, ef, _) = s in
    (
      single f,
      ap (λ b. opened_all b f []) (carried_follow r f false (nonempty m) c ef),
      single-Arrived r f m d c s,
    )
alone_all-payload (r ∷ []) (f ∷ g ∷ fs) m d (c, cs) s e = elim cs [ ]
alone_all-payload (r ∷ q ∷ rs) (f ∷ fs) m d (c, cs) s e =
    let (m', d', em, ed, ef, rest) = s in
    (
      joined (f ∷ fs),
      ap (λ b. opened_all b f fs) (carried_follow r f true (nonempty m) c ef)
          ∙ alone_all-joined (q ∷ rs) fs m' d' (f ∷ []) cs rest refl,
      joined-Arrived (r ∷ q ∷ rs) (f ∷ fs) m d (c, cs) s,
    )

-- A payload split with a valid fragment size into frames that arrive, each with its parts and its
-- two flags, as the frames of one stream in their order, among frames of other streams in any
-- interleaving, from a table with no entry for the stream, is given to the stream's handler, once
-- and alone, with its metadata (absent where empty) and its data; afterwards the table has no
-- entry for the stream.
pub delivered-split :
    (mtu skip : ℕ) (d m : Bytes) (rs : List SplitResult)
    → is_valid_fragment mtu ≡ true
    → split_skip mtu skip d m ≡ some rs
    → (k : ℕ) (arrivals : Arrivals) (fragments : Fragments) → AllCarry rs (frames_of k arrivals)
    → fragments k ≡ none
    → (w : Whole) × (delivered k fragments arrivals ≡ w ∷ [])
      × (whole_metadata w ≡ reported m)
      × (whole_data w ≡ d)
      × (table_after fragments arrivals k ≡ none)
delivered-split mtu skip d m rs valid es k arrivals fragments carried free =
    let (rs', es', ne, parts) = split_skip-Splits mtu skip d m valid in
    let same : rs ≡ rs' = some_eq (sym es ∙ es') in
    let (w, ew, got) =
      alone_all-payload rs' (frames_of k arrivals) m d
        (subst (λ x. AllCarry x (frames_of k arrivals)) same carried) parts ne in
    let (out, table) = delivered-alone k arrivals fragments in
    let start = ap (λ o. alone_all o (frames_of k arrivals)) free ∙ ew in
    (w, out ∙ ap (λ x. x.1) start, got.0, got.1, table ∙ ap (λ x. x.0) start)
  where
    some_eq : {xs ys : List SplitResult} → some xs ≡ some ys → xs ≡ ys
    some_eq e = cc

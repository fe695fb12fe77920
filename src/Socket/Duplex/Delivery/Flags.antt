-- ===== src/Socket/Duplex/Delivery/Flags.antt =====
-- The frames of a split, as their receiver reads them, carry the parts and the flags of the split's
-- results, whatever other flags the sender sets.
use rsocket_go.Base.{ℕ, ◌≡◌, refl, ap, ◌∙◌, sym, arith, List, [], ◌∷◌, ◌++◌, append-nil, bit_or}
use rsocket_go.Base.{Bool, true, false, nonempty, map}
use rsocket_go.BigEndian.{Bytes}
use rsocket_go.Core.Flag
use rsocket_go.Core.Types.{check, IsFlag, check-set_metadata, check-follow-set_metadata}
use rsocket_go.Framing.Parts.{mark_metadata}
use rsocket_go.Framing.Shape.{reported}
use rsocket_go.Fragmentation.Splitter.{SplitResult, split_flag}
use rsocket_go.Fragmentation.Splitter.Correct.{Splits}
use rsocket_go.Fragmentation.Joiner.{Fragment}
use rsocket_go.Fragmentation.Joiner.Reassembly.{Carries, AllCarry}

-- The fragment of a frame of type `t` with the parts of `r` and the flags `g`.
abbrev pub fragment : ℕ → ℕ → ℕ → SplitResult → Fragment
fragment t n g r = record {
  frame_type = t;
  initial_n = n;
  flag = mark_metadata r.metadata g;
  metadata = reported r.metadata;
  data_bytes = r.data_bytes;
}

-- A change of flags that leaves the two flags of the split alone.
abbrev pub Keeps : (ℕ → ℕ) → Type 0
Keeps change =
    (x y : Bool)
    → IsFlag (change (split_flag x y))
      × (check (change (split_flag x y)) Flag.metadata ≡ y)
      × (check (change (split_flag x y)) Flag.follow ≡ x)

pub plain-Keeps : Keeps (λ g. g)
unfolding split_flag check
plain-Keeps true true = (omega arith, refl, refl)
plain-Keeps true false = (omega arith, refl, refl)
plain-Keeps false true = (omega arith, refl, refl)
plain-Keeps false false = (omega arith, refl, refl)

pub next-Keeps : Keeps (λ g. bit_or g Flag.next)
unfolding split_flag check
next-Keeps true true = (omega arith, refl, refl)
next-Keeps true false = (omega arith, refl, refl)
next-Keeps false true = (omega arith, refl, refl)
next-Keeps false false = (omega arith, refl, refl)

marked_metadata :
    (md m m' : Bytes) (g : ℕ)
    → IsFlag g
    → check g Flag.metadata ≡ nonempty m
    → m ≡ md ++ m'
    → check (mark_metadata md g) Flag.metadata ≡ nonempty m
unfolding mark_metadata
marked_metadata [] m m' g h e em = e
marked_metadata (x ∷ xs) m m' g h e em = check-set_metadata g h ∙ sym (ap nonempty em)

pub marked_follow :
    (md : Bytes) (g : ℕ) → IsFlag g → check (mark_metadata md g) Flag.follow ≡ check g Flag.follow
unfolding mark_metadata
marked_follow [] g h = refl
marked_follow (x ∷ xs) g h = check-follow-set_metadata g h

pub fragment-Carries :
    (t n : ℕ) (change : ℕ → ℕ) (r : SplitResult) (x : Bool) (m m' : Bytes)
    → Keeps change
    → r.flag ≡ split_flag x (nonempty m)
    → m ≡ r.metadata ++ m'
    → Carries r (fragment t n (change r.flag) r)
unfolding split_flag check
fragment-Carries t n change r x m m' keeps e em =
    let (fits, meta, follow) = keeps x (nonempty m) in
    let (_, meta0, follow0) = plain-Keeps x (nonempty m) in
    record {
      same_metadata =
          ap (λ g. check (mark_metadata r.metadata (change g)) Flag.metadata) e
          ∙ marked_metadata r.metadata m m' (change (split_flag x (nonempty m))) fits meta em
          ∙ sym (ap (λ g. check g Flag.metadata) e ∙ meta0);
      same_follow =
          ap (λ g. check (mark_metadata r.metadata (change g)) Flag.follow) e
          ∙ marked_follow r.metadata (change (split_flag x (nonempty m))) fits
          ∙ follow
          ∙ sym (ap (λ g. check g Flag.follow) e ∙ follow0);
      metadata_part = refl;
      data_part = refl;
    }

pub fragments-AllCarry :
    (t n : ℕ) (change : ℕ → ℕ) (rs : List SplitResult) (m d : Bytes)
    → Keeps change
    → Splits rs m d
    → AllCarry rs (map (λ r. fragment t n (change r.flag) r) rs)
unfolding AllCarry Splits
fragments-AllCarry t n change [] m d keeps s = tt
fragments-AllCarry t n change (r ∷ rs) m d keeps (m', d', em, ed, ef, s) = (
  fragment-Carries t n change r (nonempty rs) m m' keeps ef em,
  fragments-AllCarry t n change rs m' d' keeps s,
)

-- A payload that is sent in one frame is the split into one.
abbrev pub uncut : Bytes → Bytes → SplitResult
uncut d m = record { flag = split_flag false (nonempty m); metadata = m; data_bytes = d }

pub uncut-Splits : (d m : Bytes) → Splits (uncut d m ∷ []) m d
unfolding Splits
uncut-Splits d m = ([], [], sym (append-nil m), sym (append-nil d), refl, (refl, refl))

marked :
    (m : Bytes) (g : ℕ)
    → IsFlag g
    → check g Flag.metadata ≡ false
    → check (mark_metadata m g) Flag.metadata ≡ nonempty m
unfolding mark_metadata
marked [] g h e = e
marked (x ∷ xs) g h e = check-set_metadata g h

-- Its frame has the flags `g`, none of which is one of the split's.
pub uncut-Carries :
    (t n g : ℕ) (d m : Bytes)
    → IsFlag g
    → check g Flag.metadata ≡ false
    → check g Flag.follow ≡ false
    → Carries (uncut d m) (fragment t n g (uncut d m))
uncut-Carries t n g d m h em ef = record {
  same_metadata = marked m g h em ∙ sym (plain-Keeps false (nonempty m)).1;
  same_follow = marked_follow m g h ∙ ef ∙ sym (plain-Keeps false (nonempty m)).2;
  metadata_part = refl;
  data_part = refl;
}

-- ===== src/Fragmentation/Splitter/Sizes.antt =====
-- The sizes of the splitter's frames, and that a frame marked for metadata has some.
use rsocket_go.Base.{ℕ, zero, suc, ◌+◌, ◌-◌, ◌≤◌, ◌<◌, ◌≡◌, ap, arith, ◌∙◌, sym}
use mathlib.Core.Path.{subst}
use rsocket_go.Base.{Bool, true, false, List, [], ◌∷◌, length, drop, nonempty}
use rsocket_go.Base.{Option, none, some, ltb, if◌then◌else◌, length-take, length-drop}
use rsocket_go.BigEndian.{Bytes}
use rsocket_go.Core.Flag
use rsocket_go.Core.Types.{check}
use rsocket_go.Fragmentation.Joiner.Reassembly.{metadata-split_flag}
use rsocket_go.Core.Header.{frame_header_len}
use rsocket_go.Fragmentation.Splitter.{
  SplitResult, advance, between, room, split_flag, and_cons, split_loop, split_skip,
}
use rsocket_go.Fragmentation.Splitter.Cursors.{Moved, advance-Moved}

length-between :
    (from to : ℕ) (xs : Bytes)
    → from ≤ to
    → to ≤ length xs
    → length (between from to xs) ≡ to - from
unfolding between
length-between from to xs h k =
    omega (arith, length-take (to - from) (drop from xs), length-drop from xs)

-- With `skip` bytes of a frame's own fields the frame `r` is within `mtu`, and the flag tells whether
-- there is metadata.
unfoldable pub Fits : ℕ → ℕ → SplitResult → Type 0
Fits mtu skip r =
    (frame_header_len
        + skip
        + (if nonempty r.metadata then 3 else 0)
        + length r.metadata
        + length r.data_bytes
      ≤ mtu)
    × (check r.flag Flag.metadata ≡ nonempty r.metadata)

-- Only the first frame has the skipped fields.
unfoldable pub AllFit : ℕ → ℕ → List SplitResult → Type 0
AllFit mtu skip [] = Unit
AllFit mtu skip (r ∷ rs) = Fits mtu skip r × AllFit mtu 0 rs

unfoldable Fine : ℕ → ℕ → Option (List SplitResult) → Type 0
Fine mtu skip none = Unit
Fine mtu skip (some rs) = AllFit mtu skip rs

abbrev skip_at : ℕ → ℕ → ℕ
skip_at skip zero = skip
skip_at skip (suc idx) = 0

room_used :
    (mtu skip idx : ℕ) (has : Bool)
    → skip_at skip idx + 9 < mtu
    → (room mtu skip idx has + 6 + skip_at skip idx + (if has then 3 else 0) ≡ mtu)
      × (0 < room mtu skip idx has)
unfolding room
room_used mtu skip zero has h = ground arith
room_used mtu skip (suc idx) has h = ground arith

nonempty-length : (xs : Bytes) → nonempty xs ≡ ltb 0 (length xs)
nonempty-length [] = ground arith
nonempty-length (x ∷ xs) = ground arith

and_cons-Fine :
    (mtu skip : ℕ) (c : Bool) (r : SplitResult) (rest : Option (List SplitResult))
    → Fits mtu skip r
    → Fine mtu 0 rest
    → Fine mtu skip (if c then and_cons r rest else some (r ∷ []))
unfolding Fine AllFit
and_cons-Fine mtu skip true r none fits rest = tt
and_cons-Fine mtu skip true r (some rs) fits rest = (fits, rest)
and_cons-Fine mtu skip false r rest fits fine = (fits, tt)

frame-Fits :
    (mtu skip left c1 c2 a b : ℕ) (d m : Bytes) (follow : Bool)
    → Moved left (length m) (length d) c1 c2 a b
    → left + 6 + skip + (if ltb c1 (length m) then 3 else 0) ≡ mtu
    → 0 < left
    → Fits mtu skip (record {
      flag = split_flag follow (ltb c1 (length m));
      metadata = between c1 a m;
      data_bytes = between c2 b d;
    })
unfolding Fits
frame-Fits mtu skip left c1 c2 a b d m follow mv used pos =
    (size, metadata-split_flag follow (ltb c1 (length m)) ∙ sym some_metadata)
  where
    len1 : length (between c1 a m) ≡ a - c1
    len1 = length-between c1 a m mv.from1 mv.within1

    len2 : length (between c2 b d) ≡ b - c2
    len2 = length-between c2 b d mv.from2 mv.within2

    some_metadata : nonempty (between c1 a m) ≡ ltb c1 (length m)
    some_metadata =
        nonempty-length (between c1 a m) ∙ ap (λ n. ltb 0 n) len1 ∙ moved a b c1 c2 (length m) mv
      where
        moved :
            (a b c1 c2 mlen : ℕ)
            → Moved left mlen (length d) c1 c2 a b
            → ltb 0 (a - c1) ≡ ltb c1 mlen
        moved a b c1 c2 mlen mv = ground arith

    size :
        frame_header_len
          + skip
          + (if nonempty (between c1 a m) then 3 else 0)
          + length (between c1 a m)
          + length (between c2 b d)
        ≤ mtu
    size = rw (some_metadata, len1, len2) (bound (ltb c1 (length m)) used)
      where
        bound :
            (has : Bool)
            → left + 6 + skip + (if has then 3 else 0) ≡ mtu
            → frame_header_len + skip + (if has then 3 else 0) + (a - c1) + (b - c2) ≤ mtu
        bound true e = ground (arith, mv)
        bound false e = ground (arith, mv)

split_loop-Fine :
    (mtu skip fuel idx c1 c2 : ℕ) (d m : Bytes)
    → skip + 9 < mtu
    → c1 ≤ length m
    → c2 ≤ length d
    → Fine mtu (skip_at skip idx) (split_loop fuel mtu skip d m idx (c1, c2))
unfolding split_loop Fine
split_loop-Fine mtu skip zero idx c1 c2 d m big h k = tt
split_loop-Fine mtu skip (suc fuel) idx c1 c2 d m big h k =
    let left : ℕ = room mtu skip idx (ltb c1 (length m)) in
    let a : ℕ = (advance left (length m) (length d) (c1, c2)).0 in
    let b : ℕ = (advance left (length m) (length d) (c1, c2)).1 in
    let mv = advance-Moved left (length m) (length d) c1 c2 h k in
    let used = room_used mtu skip idx (ltb c1 (length m)) (small idx) in
    let follow = ltb (a + b) (length m + length d) in
    and_cons-Fine mtu (skip_at skip idx) follow _ (split_loop fuel mtu skip d m (suc idx) (a, b))
      (frame-Fits mtu (skip_at skip idx) left c1 c2 a b d m follow mv used.0 used.1)
      (split_loop-Fine mtu skip fuel (suc idx) a b d m big mv.within1 mv.within2)
  where
    small : (idx : ℕ) → skip_at skip idx + 9 < mtu
    small zero = big
    small (suc idx) = omega arith

-- Where the fragment size is more than nine bytes above the skipped fields, every frame is, with
-- its header, its length field and the skipped fields of the first one, at most as long as the
-- fragment size, and is flagged for metadata exactly when it has some.
pub split_skip-AllFit :
    (mtu skip : ℕ) (d m : Bytes) (rs : List SplitResult)
    → skip + 9 < mtu
    → split_skip mtu skip d m ≡ some rs
    → AllFit mtu skip rs
unfolding split_skip Fine
split_skip-AllFit mtu skip d m rs big e =
    subst (Fine mtu skip) e
      (split_loop-Fine mtu skip (length m + length d + 2) 0 0 0 d m big (omega arith) (omega arith))

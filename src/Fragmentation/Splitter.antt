-- ===== src/Fragmentation/Splitter.antt =====
-- internal/fragmentation/splitter.go, and IsValidFragment of types.go. The callback `onFrame` is the
-- list of its calls, in order; its index is the position in the list.
pub mod Cursors
pub mod Correct
pub mod Sizes
use rsocket_go.Base.{ℕ, zero, suc, ◌+◌, ◌-◌, ◌≤◌, ◌<◌, ◌≡◌, refl, arith, bit_or}
use rsocket_go.Base.{Bool, true, false, ◌&&◌, ◌||◌, List, [], ◌∷◌, ◌++◌, length, take, drop}
use rsocket_go.Base.{Option, none, some, ltb, ◌==◌, if◌then◌else◌}
use rsocket_go.BigEndian.{Bytes}
use rsocket_go.Core.Flag
use rsocket_go.Core.Header.{frame_header_len}
use rsocket_go.U24.{max_uint24}

abbrev pub min_fragment : ℕ
min_fragment = frame_header_len + 4

abbrev pub max_fragment : ℕ
max_fragment = max_uint24 - 3

-- The error is nil.
unfoldable pub is_valid_fragment : ℕ → Bool
is_valid_fragment fragment =
    if ltb fragment min_fragment || ltb max_fragment fragment then false else true

pub record SplitResult : Type 0 where
  pub flag : ℕ
  pub metadata : Bytes
  pub data_bytes : Bytes

-- One round of the inner loop: the next byte comes from the metadata while there is some.
unfoldable pub move : ℕ → ℕ → ℕ × ℕ → ℕ × ℕ
move mlen dlen (cursor1, cursor2) =
    if ltb cursor1 mlen
    then (suc cursor1, cursor2)
    else if ltb cursor2 dlen
    then (cursor1, suc cursor2)
    else (cursor1, cursor2)

-- for wrote := 0; wrote < left; wrote++
unfoldable pub advance : ℕ → ℕ → ℕ → ℕ × ℕ → ℕ × ℕ
advance zero mlen dlen cursors = cursors
advance (suc left) mlen dlen cursors = advance left mlen dlen (move mlen dlen cursors)

-- xs[from:to], for cursors within `xs`.
unfoldable pub between : ℕ → ℕ → Bytes → Bytes
between from to xs = take (to - from) (drop from xs)

-- The room for payload; below zero there are no rounds, as at zero.
unfoldable pub room : ℕ → ℕ → ℕ → Bool → ℕ
room mtu skip idx has_metadata =
    let left = mtu - frame_header_len in
    let left' = if idx == 0 && ltb 0 skip then left - skip else left in
    if has_metadata then left' - 3 else left'

-- Both flags start cleared.
unfoldable pub split_flag : Bool → Bool → ℕ
split_flag follow has_metadata =
    let flag = if follow then bit_or 0 Flag.follow else 0 in
    if has_metadata then bit_or flag Flag.metadata else flag

abbrev pub and_cons : SplitResult → Option (List SplitResult) → Option (List SplitResult)
and_cons r none = none
and_cons r (some rs) = some (r ∷ rs)

-- The outer loop, on fuel: `none` means that it ran out.
unfoldable pub split_loop : ℕ → ℕ → ℕ → Bytes → Bytes → ℕ → ℕ × ℕ → Option (List SplitResult)
split_loop zero mtu skip d m idx cursors = none
split_loop (suc fuel) mtu skip d m idx (begin1, begin2) =
    let has_metadata = ltb begin1 (length m) in
    let left = room mtu skip idx has_metadata in
    let (cursor1, cursor2) = advance left (length m) (length d) (begin1, begin2) in
    let follow = ltb (cursor1 + cursor2) (length m + length d) in
    let result : SplitResult = record {
      flag = split_flag follow has_metadata;
      metadata = between begin1 cursor1 m;
      data_bytes = between begin2 cursor2 d;
    } in
    let rest = split_loop fuel mtu skip d m (suc idx) (cursor1, cursor2) in
    if follow then and_cons result rest else some (result ∷ [])

-- Every frame but the first moves a cursor, so two more frames than there are bytes are enough.
unfoldable pub split_skip : ℕ → ℕ → Bytes → Bytes → Option (List SplitResult)
split_skip mtu skip d m = split_loop (length m + length d + 2) mtu skip d m 0 (0, 0)

unfoldable pub split : ℕ → Bytes → Bytes → Option (List SplitResult)
split mtu d m = split_skip mtu 0 d m

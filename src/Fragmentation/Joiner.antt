-- ===== src/Fragmentation/Joiner.antt =====
-- internal/fragmentation/joiner.go, and doFragment of internal/socket/duplex.go.
pub mod Reassembly
pub mod Delivery
pub mod Payloads
use rsocket_go.Base.{ℕ, zero, suc, ◌≡◌, refl, arith, ◌++◌, List, [], ◌∷◌, length, ◌==◌}
use rsocket_go.Base.{Bool, true, false, not, Option, none, some, if◌then◌else◌, nonempty}
use rsocket_go.BigEndian.{Bytes}
use rsocket_go.Core.Flag
use rsocket_go.Core.Types.{check}

-- HeaderAndPayload: the type and the flags of its header, `Metadata()` and `Data()`, and, for a frame
-- that has one, `InitialRequestN()`. Its stream id is given beside it.
pub record Fragment : Type 0 where
  pub frame_type : ℕ
  pub initial_n : ℕ
  pub flag : ℕ
  pub metadata : Option Bytes
  pub data_bytes : Bytes

-- The frames in the order of arrival.
abbrev pub Joiner : Type 0
Joiner = List Fragment

unfoldable pub new_joiner : Fragment → Joiner
new_joiner first = first ∷ []

-- The new joiner, and whether the frame was the last.
unfoldable pub push : Joiner → Fragment → Joiner × Bool
push p elem = (p ++ (elem ∷ []), not (check elem.flag Flag.follow))

-- metadata = append(metadata, m...); ok = true
unfoldable pub append_metadata : Option Bytes → Option Bytes → Option Bytes
append_metadata acc none = acc
append_metadata none (some m) = some m
append_metadata (some ms) (some m) = some (ms ++ m)

-- The loop breaks at the first frame with no metadata flag.
unfoldable pub metadata_loop : Option Bytes → Joiner → Option Bytes
unfolding append_metadata
metadata_loop acc [] = acc
metadata_loop acc (f ∷ fs) =
    let rest = metadata_loop (append_metadata acc f.metadata) fs in
    if check f.flag Flag.metadata then rest else acc

unfoldable pub metadata : Joiner → Option Bytes
unfolding metadata_loop
metadata p = metadata_loop none p

unfoldable pub data_loop : Bytes → Joiner → Bytes
data_loop acc [] = acc
data_loop acc (f ∷ fs) = data_loop (if nonempty f.data_bytes then acc ++ f.data_bytes else acc) fs

unfoldable pub data_bytes : Joiner → Bytes
unfolding data_loop
data_bytes p = data_loop [] p

-- What `doFragment` hands on: the frame itself or a joiner.
pub data Whole : Type 0 where
  single : Fragment → Whole
  joined : Joiner → Whole

unfoldable pub whole_metadata : Whole → Option Bytes
whole_metadata (single f) = f.metadata
whole_metadata (joined p) = metadata p

unfoldable pub whole_data : Whole → Bytes
whole_data (single f) = f.data_bytes
whole_data (joined p) = data_bytes p

-- dc.fragments, by stream id.
abbrev pub Fragments : Type 0
Fragments = ℕ → Option Joiner

unfoldable pub store : Fragments → ℕ → Option Joiner → Fragments
store fragments sid v k = if k == sid then v else fragments k

-- An entry exists: push, and hand the joiner on after its last frame.
unfoldable pub push_on : Joiner × Bool → Fragments → ℕ → Fragments × Option Whole
push_on (joiner, true) fragments sid = (store fragments sid none, some (joined joiner))
push_on (joiner, false) fragments sid = (store fragments sid (some joiner), none)

unfoldable pub dispatch : Option Joiner → Fragments → ℕ → Fragment → Fragments × Option Whole
unfolding push_on
dispatch (some joiner) fragments sid input = push_on (push joiner input) fragments sid
dispatch none fragments sid input =
    if check input.flag Flag.follow
    then (store fragments sid (some (new_joiner input)), none)
    else (fragments, some (single input))

unfoldable pub do_fragment : Fragments → ℕ → Fragment → Fragments × Option Whole
unfolding dispatch
do_fragment fragments sid input = dispatch (fragments sid) fragments sid input

-- ===== src/Socket/Duplex/Delivery/PayloadFlags.antt =====
-- The flags that sendPayload gives the frames of a payload.
use rsocket_go.Base.{ℕ, ◌≡◌, refl, ◌∙◌, arith, [], ◌∷◌}
use rsocket_go.Base.{Bool, true, false, bit_or, if◌then◌else◌}
use rsocket_go.BigEndian.{Bytes}
use rsocket_go.Core.Flag
use rsocket_go.Core.Types.{check, IsFlag, check-next-set_metadata, check-complete-set_metadata}
use rsocket_go.Framing.Parts.{mark_metadata}
use rsocket_go.Fragmentation.Splitter.{SplitResult}
use rsocket_go.Socket.Duplex.Delivery.Flags.{Keeps}
use rsocket_go.Fragmentation.Splitter.{split_flag}
use rsocket_go.Socket.Duplex.Sending.{first_payload_flag, later_payload_flag}

-- The flags that sendPayload is called with.
pub data PayloadKind : Type 0 where
  next_only complete_only next_and_complete : PayloadKind

abbrev pub flags : PayloadKind → ℕ
flags next_only = Flag.next
flags complete_only = Flag.complete
flags next_and_complete = bit_or Flag.next Flag.complete

abbrev pub bare : ℕ → SplitResult
bare g = record { flag = g; metadata = []; data_bytes = [] }

abbrev pub first_flag : PayloadKind → ℕ → ℕ
first_flag k g = first_payload_flag (flags k) (bare g)

abbrev pub later_flag : PayloadKind → ℕ → ℕ
later_flag k g = later_payload_flag (flags k) (bare g)

-- What the first frame says beside the two flags of the split: next as asked for, and complete if it is
-- the last one.
abbrev pub FirstFlag : PayloadKind → ℕ → Bool → Type 0
FirstFlag k g more =
    (check g Flag.next ≡ check (flags k) Flag.next)
    × (check g Flag.complete ≡ (if more then false else check (flags k) Flag.complete))

pub first_flag-Keeps : (k : PayloadKind) → Keeps (first_flag k)
unfolding split_flag check first_payload_flag
first_flag-Keeps next_only true true = (omega arith, refl, refl)
first_flag-Keeps next_only true false = (omega arith, refl, refl)
first_flag-Keeps next_only false true = (omega arith, refl, refl)
first_flag-Keeps next_only false false = (omega arith, refl, refl)
first_flag-Keeps complete_only true true = (omega arith, refl, refl)
first_flag-Keeps complete_only true false = (omega arith, refl, refl)
first_flag-Keeps complete_only false true = (omega arith, refl, refl)
first_flag-Keeps complete_only false false = (omega arith, refl, refl)
first_flag-Keeps next_and_complete true true = (omega arith, refl, refl)
first_flag-Keeps next_and_complete true false = (omega arith, refl, refl)
first_flag-Keeps next_and_complete false true = (omega arith, refl, refl)
first_flag-Keeps next_and_complete false false = (omega arith, refl, refl)

pub later_flag-Keeps : (k : PayloadKind) → Keeps (later_flag k)
unfolding split_flag check later_payload_flag
later_flag-Keeps next_only true true = (omega arith, refl, refl)
later_flag-Keeps next_only true false = (omega arith, refl, refl)
later_flag-Keeps next_only false true = (omega arith, refl, refl)
later_flag-Keeps next_only false false = (omega arith, refl, refl)
later_flag-Keeps complete_only true true = (omega arith, refl, refl)
later_flag-Keeps complete_only true false = (omega arith, refl, refl)
later_flag-Keeps complete_only false true = (omega arith, refl, refl)
later_flag-Keeps complete_only false false = (omega arith, refl, refl)
later_flag-Keeps next_and_complete true true = (omega arith, refl, refl)
later_flag-Keeps next_and_complete true false = (omega arith, refl, refl)
later_flag-Keeps next_and_complete false true = (omega arith, refl, refl)
later_flag-Keeps next_and_complete false false = (omega arith, refl, refl)

pub first_flag-FirstFlag :
    (k : PayloadKind) (x y : Bool) → FirstFlag k (first_flag k (split_flag x y)) x
unfolding split_flag check first_payload_flag
first_flag-FirstFlag next_only true true = (refl, refl)
first_flag-FirstFlag next_only true false = (refl, refl)
first_flag-FirstFlag next_only false true = (refl, refl)
first_flag-FirstFlag next_only false false = (refl, refl)
first_flag-FirstFlag complete_only true true = (refl, refl)
first_flag-FirstFlag complete_only true false = (refl, refl)
first_flag-FirstFlag complete_only false true = (refl, refl)
first_flag-FirstFlag complete_only false false = (refl, refl)
first_flag-FirstFlag next_and_complete true true = (refl, refl)
first_flag-FirstFlag next_and_complete true false = (refl, refl)
first_flag-FirstFlag next_and_complete false true = (refl, refl)
first_flag-FirstFlag next_and_complete false false = (refl, refl)

pub marked-FirstFlag :
    (k : PayloadKind) (g : ℕ) (more : Bool) (md : Bytes)
    → IsFlag g
    → FirstFlag k g more
    → FirstFlag k (mark_metadata md g) more
unfolding mark_metadata
marked-FirstFlag k g more [] h e = e
marked-FirstFlag k g more (x ∷ xs) h (en, ec) =
    (check-next-set_metadata g h ∙ en, check-complete-set_metadata g h ∙ ec)

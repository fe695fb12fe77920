-- ===== src/Common.antt =====
-- internal/common/common.go. A duration is a number of nanoseconds; durations below zero are left out.
use rsocket_go.Base.{ℕ, ◌/◌, ◌%◌, ◌^◌, ◌≡◌, [], ◌∷◌, refl}
use rsocket_go.BigEndian.{Bytes}

unfoldable pub to_milliseconds : ℕ → ℕ
to_milliseconds duration = duration / 1_000_000

-- uint32(common.ToMilliseconds(duration))
abbrev pub uint32_milliseconds : ℕ → ℕ
uint32_milliseconds duration = to_milliseconds duration % 2 ^ 32

-- A copy has the same bytes; a nil slice and an empty one are the same list.
unfoldable pub clone_bytes : Bytes → Bytes
clone_bytes [] = []
clone_bytes (x ∷ xs) = x ∷ xs

pub clone_bytes_lem : (b : Bytes) → clone_bytes b ≡ b
unfolding clone_bytes
clone_bytes_lem [] = refl
clone_bytes_lem (x ∷ xs) = refl

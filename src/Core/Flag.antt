-- ===== src/Core/Flag.antt =====
-- core/types.go: the frame flags, a uint16.
use rsocket_go.Base.{ℕ, ◌^◌}

-- 1 << (5 + iota)
abbrev pub next : ℕ
next = 2 ^ 5

abbrev pub complete : ℕ
complete = 2 ^ 6

abbrev pub follow : ℕ
follow = 2 ^ 7

abbrev pub metadata : ℕ
metadata = 2 ^ 8

abbrev pub ignore : ℕ
ignore = 2 ^ 9

abbrev pub resume : ℕ
resume = follow

abbrev pub lease : ℕ
lease = complete

abbrev pub respond : ℕ
respond = follow

-- ===== src/Socket/StreamIds/Free.antt =====
-- nextStreamID of a client after its first loop, when ids are checked against the table of messages.
use rsocket_go.Base.{ℕ, zero, suc, ◌+◌, ◌*◌, ◌%◌, ◌^◌, ◌≤◌, ◌<◌, ◌≡◌, ap, arith, ◌∙◌}
use rsocket_go.Base.{Bool, true, false, Option, some, leb, Bool-cases, inl, inr, if◌then◌else◌}
use rsocket_go.Socket.StreamIds.{half_seed, pick, next_stream_id, client_next, client_next-id}

abbrev client_id : ℕ → ℕ
client_id cur = (2 * cur + 1) % 2 ^ 31

abbrev Found : (ℕ → Bool) → ℕ → ℕ → Type 0
Found busy fuel cur =
    (seed sid : ℕ) × (next_stream_id (client_next 1) busy fuel cur ≡ some (seed, sid))
    × (busy sid ≡ false)
    × (sid % 2 ≡ 1)
    × (sid < 2 ^ 31)

later_round :
    (busy : ℕ → Bool) (fuel cur : ℕ)
    → half_seed ≤ cur
    → cur + 1 < 2 ^ 64
    → next_stream_id (client_next 1) busy (suc fuel) cur ≡ (
        if busy (client_id cur)
        then next_stream_id (client_next 1) busy fuel (cur + 1)
        else some (cur + 1, client_id cur))
unfolding next_stream_id pick
later_round busy fuel cur h wraps =
    ap (λ o. pick busy o again) (client_next-id 0 cur wraps)
    ∙ ap (λ b. pick busy (some (cur + 1, client_id cur, b)) again) over
  where
    again : ℕ → Option (ℕ × ℕ)
    again c = next_stream_id (client_next 1) busy fuel c

    over : leb (cur + 1) half_seed ≡ false
    over = past (cur + 1) half_seed (omega arith)
      where
        past : (a b : ℕ) → b < a → leb a b ≡ false
        past a b lt = ground arith

take_free :
    (busy : ℕ → Bool) (fuel cur : ℕ)
    → half_seed ≤ cur
    → cur + 1 < 2 ^ 64
    → busy (client_id cur) ≡ false
    → Found busy (suc fuel) cur
take_free busy fuel cur h wraps free = (
  cur + 1,
  client_id cur,
  later_round busy fuel cur h wraps
      ∙ ap
          (λ b.
            if b
            then next_stream_id (client_next 1) busy fuel (cur + 1)
            else some (cur + 1, client_id cur))
          free,
  free,
  omega arith,
  omega arith,
)

skip_busy :
    (busy : ℕ → Bool) (fuel cur : ℕ)
    → half_seed ≤ cur
    → cur + 1 < 2 ^ 64
    → busy (client_id cur) ≡ true
    → Found busy fuel (cur + 1)
    → Found busy (suc fuel) cur
skip_busy busy fuel cur h wraps taken (seed, sid, e, unused, odd, small) = (
  seed,
  sid,
  later_round busy fuel cur h wraps
      ∙ ap
          (λ b.
            if b
            then next_stream_id (client_next 1) busy fuel (cur + 1)
            else some (cur + 1, client_id cur))
          taken
      ∙ e,
  unused,
  odd,
  small,
)

-- For a client whose counter has passed its first loop, if the id that is k steps further is not
-- in use and the counter of 64 bits does not wrap on the way, then within k + 1 rounds
-- nextStreamID returns an id that is not in use, odd and of 31 bits.
pub next_stream_id-free :
    (busy : ℕ → Bool) (k cur : ℕ)
    → half_seed ≤ cur
    → cur + k + 1 < 2 ^ 64
    → busy ((2 * (cur + k) + 1) % 2 ^ 31) ≡ false
    → (seed sid : ℕ) × (next_stream_id (client_next 1) busy (suc k) cur ≡ some (seed, sid))
      × (busy sid ≡ false)
      × (sid % 2 ≡ 1)
      × (sid < 2 ^ 31)
next_stream_id-free busy zero cur h wraps free =
    take_free busy 0 cur h (omega arith) (ap (λ n. busy (client_id n)) (omega arith) ∙ free)
next_stream_id-free busy (suc k) cur h wraps free = elim (Bool-cases (busy (client_id cur))) [
  | inl taken ↦ skip_busy busy (suc k) cur h (omega arith) taken (
      next_stream_id-free busy k (cur + 1) (omega arith) (omega arith)
        (ap (λ n. busy (client_id n)) (omega arith) ∙ free))
  | inr unused ↦ take_free busy (suc k) cur h (omega arith) unused
]

-- ===== src/Socket/StreamIds.antt =====
-- internal/socket/stream_id.go, and nextStreamID of internal/socket/duplex.go.
pub mod Free
use rsocket_go.Base.{ℕ, zero, suc, ◌+◌, ◌*◌, ◌-◌, ◌%◌, ◌^◌, ◌≤◌, ◌<◌, ◌≡◌, ap, arith, ◌∙◌, bit_and}
use rsocket_go.Base.{
  Bool, true, false, Option, none, some, leb, le→leb, Bool-cases, inl, inr, ◌==◌, if◌then◌else◌,
}
use rsocket_go.Base.Bits.{bit_and-ones, bit_and_comm}

abbrev pub mask_stream_id : ℕ
mask_stream_id = 0x7FFFFFFF

abbrev pub half_seed : ℕ
half_seed = 0x40000000

-- atomic.AddUint64(&p.cur, 1)
abbrev pub add_seed : ℕ → ℕ
add_seed cur = (cur + 1) % 2 ^ 64

-- An answer, or, where the number is zero, `p.Next()` once more, on fuel; `none` is out of fuel.
-- The result is the counter, the id and whether it is of the first loop.
unfoldable pub server_next : ℕ → ℕ → Option (ℕ × ℕ × Bool)
server_next zero cur = none
server_next (suc fuel) cur =
    let seed = add_seed cur in
    let v = (2 * seed) % 2 ^ 64 in
    let again = server_next fuel seed in
    if v == 0 then again else some (seed, bit_and mask_stream_id v % 2 ^ 32, leb seed half_seed)

-- 2*(seed-1) + 1, in uint64.
unfoldable pub client_number : ℕ → ℕ
client_number seed = (2 * ((seed + (2 ^ 64 - 1)) % 2 ^ 64) + 1) % 2 ^ 64

unfoldable pub client_next : ℕ → ℕ → Option (ℕ × ℕ × Bool)
client_next zero cur = none
client_next (suc fuel) cur =
    let seed = add_seed cur in
    let v = client_number seed in
    let again = client_next fuel seed in
    if v == 0 then again else some (seed, bit_and mask_stream_id v % 2 ^ 32, leb seed half_seed)

masked : (v : ℕ) → bit_and mask_stream_id v % 2 ^ 32 ≡ v % 2 ^ 31
masked v = omega (arith, bit_and_comm mask_stream_id v, bit_and-ones 31 v)

-- The part of `nextStreamID` behind a call of `Next`: the answer of the first loop is taken, a later one
-- only if no message has the id.
unfoldable pub pick : (ℕ → Bool) → Option (ℕ × ℕ × Bool) → (ℕ → Option (ℕ × ℕ)) → Option (ℕ × ℕ)
pick busy none again = none
pick busy (some (cur, sid, true)) again = some (cur, sid)
pick busy (some (cur, sid, false)) again = if busy sid then again cur else some (cur, sid)

-- dc.nextStreamID(), with `next` for `dc.sids.Next` and `busy` for the keys of `dc.messages`, on fuel.
unfoldable pub next_stream_id : (ℕ → Option (ℕ × ℕ × Bool)) → (ℕ → Bool) → ℕ → ℕ → Option (ℕ × ℕ)
unfolding pick
next_stream_id next busy zero cur = none
next_stream_id next busy (suc fuel) cur =
    pick busy (next cur) (λ c. next_stream_id next busy fuel c)

client_number-next :
    (cur : ℕ) → cur + 1 < 2 ^ 64 → client_number (add_seed cur) ≡ (2 * cur + 1) % 2 ^ 64
unfolding client_number
client_number-next cur h = omega arith

nonzero : (v : ℕ) → 0 < v → v == 0 ≡ false
nonzero v h = ground arith

-- Until the counter wraps a client answers at its first try, with the odd numbers in order, cut to
-- 31 bits.
pub client_next-id :
    (fuel cur : ℕ)
    → cur + 1 < 2 ^ 64
    → client_next (suc fuel) cur ≡ some (cur + 1, (2 * cur + 1) % 2 ^ 31, leb (cur + 1) half_seed)
unfolding client_next
client_next-id fuel cur h =
    ap (λ b. if b then client_next fuel (add_seed cur) else answer)
      (nonzero (client_number (add_seed cur)) odd)
    ∙ (λ i. some (seed i, id i, leb (seed i) half_seed))
  where
    answer : Option (ℕ × ℕ × Bool)
    answer = some (
      add_seed cur,
      bit_and mask_stream_id (client_number (add_seed cur)) % 2 ^ 32,
      leb (add_seed cur) half_seed,
    )

    odd : 0 < client_number (add_seed cur)
    odd = omega (arith, client_number-next cur h)

    seed : add_seed cur ≡ cur + 1
    seed = omega arith

    id : bit_and mask_stream_id (client_number (add_seed cur)) % 2 ^ 32 ≡ (2 * cur + 1) % 2 ^ 31
    id = omega (arith, masked (client_number (add_seed cur)), client_number-next cur h)

-- The same for a server and the even numbers, for the first half of the counter's values.
pub server_next-id :
    (fuel cur : ℕ)
    → cur + 1 < 2 ^ 63
    → server_next (suc fuel) cur ≡ some (cur + 1, (2 * (cur + 1)) % 2 ^ 31, leb (cur + 1) half_seed)
unfolding server_next
server_next-id fuel cur h =
    ap (λ b. if b then server_next fuel (add_seed cur) else answer) (nonzero v some_v)
    ∙ (λ i. some (seed i, id i, leb (seed i) half_seed))
  where
    v : ℕ
    v = (2 * add_seed cur) % 2 ^ 64

    answer : Option (ℕ × ℕ × Bool)
    answer = some (add_seed cur, bit_and mask_stream_id v % 2 ^ 32, leb (add_seed cur) half_seed)

    some_v : 0 < v
    some_v = omega arith

    seed : add_seed cur ≡ cur + 1
    seed = omega arith

    id : bit_and mask_stream_id v % 2 ^ 32 ≡ (2 * (cur + 1)) % 2 ^ 31
    id = omega (arith, masked v)

-- For two counters in order, the larger one at least two below half the id space, the client's ids
-- are odd and in order, the server's even, positive and in order, all are of 31 bits and all are
-- marked as of the first loop.
pub first_loop_lem :
    (c1 c2 : ℕ)
    → c1 < c2
    → c2 + 1 < half_seed
    → (a b x y : ℕ) × (client_next 1 c1 ≡ some (c1 + 1, a, true))
      × (client_next 1 c2 ≡ some (c2 + 1, b, true))
      × (server_next 1 c1 ≡ some (c1 + 1, x, true))
      × (server_next 1 c2 ≡ some (c2 + 1, y, true))
      × (a % 2 ≡ 1)
      × (a < b)
      × (b < 2 ^ 31)
      × (0 < x)
      × (x % 2 ≡ 0)
      × (x < y)
      × (y < 2 ^ 31)
first_loop_lem c1 c2 h k = (
  2 * c1 + 1,
  2 * c2 + 1,
  2 * (c1 + 1),
  2 * (c2 + 1),
  client_next-id 0 c1 (omega arith) ∙ odd c1 (omega arith),
  client_next-id 0 c2 (omega arith) ∙ odd c2 (omega arith),
  server_next-id 0 c1 (omega arith) ∙ even c1 (omega arith),
  server_next-id 0 c2 (omega arith) ∙ even c2 (omega arith),
  omega arith,
  omega arith,
  omega arith,
  omega arith,
  omega arith,
  omega arith,
  omega arith,
)
  where
    in_loop : (c : ℕ) → c + 1 < half_seed → leb (c + 1) half_seed ≡ true
    in_loop c h = le→leb (c + 1) half_seed (omega arith)

    same_id : (n : ℕ) → n < 2 ^ 31 → n % 2 ^ 31 ≡ n
    same_id n h = omega arith

    odd :
        (c : ℕ)
        → c + 1 < half_seed
        → Path
            (Option (ℕ × ℕ × Bool))
            (some (c + 1, (2 * c + 1) % 2 ^ 31, leb (c + 1) half_seed))
            (some (c + 1, 2 * c + 1, true))
    odd c h = (λ i. some (c + 1, same_id (2 * c + 1) (omega arith) i, in_loop c h i))

    even :
        (c : ℕ)
        → c + 1 < half_seed
        → Path
            (Option (ℕ × ℕ × Bool))
            (some (c + 1, (2 * (c + 1)) % 2 ^ 31, leb (c + 1) half_seed))
            (some (c + 1, 2 * (c + 1), true))
    even c h = (λ i. some (c + 1, same_id (2 * (c + 1)) (omega arith) i, in_loop c h i))

-- The last id that a server calls one of the first loop is 0, the id of the connection itself.
pub server_zero : (cur : ℕ) → cur + 1 ≡ half_seed → server_next 1 cur ≡ some (half_seed, 0, true)
server_zero cur h = server_next-id 0 cur (omega arith) ∙ (λ i. some (h i, zero_id i, last i))
  where
    zero_id : (2 * (cur + 1)) % 2 ^ 31 ≡ 0
    zero_id = omega arith

    last : leb (cur + 1) half_seed ≡ true
    last = le→leb (cur + 1) half_seed (omega arith)

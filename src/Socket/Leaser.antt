-- ===== src/Socket/Leaser.antt =====
-- internal/socket/leaser.go: how many requests a client may send. A leaser that is nil allows every
-- request. Times are numbers of nanoseconds.
use rsocket_go.Base.{
  ℕ, zero, suc, ◌≤◌, ◌<◌, ◌≡◌, refl, Bool, true, false, List, [], ◌∷◌, ◌++◌, ltb, All, ap,
}
use rsocket_go.Base.{Option, none, some, if◌then◌else◌, ltb-false_iff, lt→ltb}
use rsocket_go.Base.Int.{ℤ, pos, negsuc, pred_ℤ}

pub record Leaser : Type 0 where
  pub deadline : ℕ
  pub tickets : ℤ
  pub initialized : Bool

pub data LeaseError : Type 0 where
  lease_not_rcv lease_expired lease_no_more_requests : LeaseError

unfoldable pub new_leaser : ℕ → ℤ → Leaser
new_leaser deadline n = record { deadline = deadline; tickets = n; initialized = false }

abbrev pub is_negative : ℤ → Bool
is_negative (pos n) = false
is_negative (negsuc n) = true

unfoldable pub refresh : ℕ → ℤ → Option Leaser → Option Leaser
refresh deadline tickets none = none
refresh deadline tickets (some p) =
    some (record { deadline = deadline; tickets = tickets; initialized = true })

-- The tickets are counted down past zero.
abbrev takes : Leaser → Option LeaseError × Leaser
takes p =
    let left = pred_ℤ p.tickets in
    (if is_negative left then some lease_no_more_requests else none, record p { tickets = left })

-- The error, if there is one, and the leaser after it.
unfoldable pub allow : ℕ → Option Leaser → Option LeaseError × Option Leaser
allow now none = (none, none)
allow now (some p) =
    if p.initialized
    then if ltb p.deadline now
      then (some lease_expired, some p)
      else ((takes p).0, some (takes p).1)
    else (some lease_not_rcv, some p)

abbrev pub count : Option LeaseError → ℕ → ℕ
count none n = suc n
count (some e) n = n

-- How many of the calls of `allow`, at the given times, have no error.
unfoldable pub allowed : List ℕ → Option Leaser → ℕ
allowed [] p = 0
allowed (now ∷ times) p = count (allow now p).0 (allowed times (allow now p).1)

-- The length of a list, at most `n`.
abbrev pub length_to : ℕ → List ℕ → ℕ
length_to n [] = 0
length_to zero (t ∷ ts) = 0
length_to (suc n) (t ∷ ts) = suc (length_to n ts)

abbrev leased : ℕ → ℤ → Option Leaser
leased d n = some (record { deadline = d; tickets = n; initialized = true })

allow-in_time :
    (d now : ℕ) (n : ℤ)
    → now ≤ d
    → allow now (leased d n)
      ≡ (if is_negative (pred_ℤ n) then some lease_no_more_requests else none, leased d (pred_ℤ n))
unfolding allow
allow-in_time d now n h = rw ((ltb-false_iff d now).1 h) refl

-- After the deadline nothing is allowed.
allowed-late :
    (d : ℕ) (n : ℤ) (times : List ℕ) → All (λ t. d < t) times → allowed times (leased d n) ≡ 0
unfolding allowed allow
allowed-late d n [] h = refl
allowed-late d n (t ∷ ts) (h, hs) = rw (lt→ltb d t h) (allowed-late d n ts hs)

-- With no tickets left nothing is, however often it is asked for.
allowed-exhausted :
    (d : ℕ) (n : ℤ) (early late : List ℕ)
    → is_negative (pred_ℤ n) ≡ true
    → All (λ t. t ≤ d) early
    → All (λ t. d < t) late
    → allowed (early ++ late) (leased d n) ≡ 0
unfolding allowed
allowed-exhausted d n [] late e h l = allowed-late d n late l
allowed-exhausted d (pos (suc n)) (t ∷ ts) late e h l = cc
allowed-exhausted d (pos zero) (t ∷ ts) late e (h, hs) l =
    rw (allow-in_time d t (pos 0) h) (allowed-exhausted d (negsuc 0) ts late refl hs l)
allowed-exhausted d (negsuc n) (t ∷ ts) late e (h, hs) l =
    rw (allow-in_time d t (negsuc n) h) (allowed-exhausted d (negsuc (suc n)) ts late refl hs l)

allowed-leased :
    (d n : ℕ) (early late : List ℕ)
    → All (λ t. t ≤ d) early
    → All (λ t. d < t) late
    → allowed (early ++ late) (leased d (pos n)) ≡ length_to n early
unfolding allowed
allowed-leased d n [] late h l = allowed-late d (pos n) late l
allowed-leased d zero (t ∷ ts) late h l = allowed-exhausted d (pos 0) (t ∷ ts) late refl h l
allowed-leased d (suc n) (t ∷ ts) late (h, hs) l =
    rw (allow-in_time d t (pos (suc n)) h) (ap suc (allowed-leased d n ts late hs l))

-- After a lease of n requests until a deadline, of the requests made at times up to the deadline
-- and then of those after it, exactly the first n are allowed, or all of them up to the deadline
-- where there are fewer, and none after it; a leaser that was never refreshed allows none.
pub allowed-refresh :
    (p : Leaser) (d n : ℕ) (early late : List ℕ)
    → All (λ t. t ≤ d) early
    → All (λ t. d < t) late
    → (allowed (early ++ late) (refresh d (pos n) (some p)) ≡ length_to n early)
      × (allowed (early ++ late) (some (new_leaser d (pos n))) ≡ 0)
unfolding refresh new_leaser allowed allow
allowed-refresh p d n early late h l =
    (allowed-leased d n early late h l, unreceived (early ++ late))
  where
    unreceived : (times : List ℕ) → allowed times (some (new_leaser d (pos n))) ≡ 0
    unreceived [] = refl
    unreceived (t ∷ ts) = unreceived ts

-- ===== src/Balancer.antt =====
-- balancer/round_robin.go: the clients take turns.
pub mod Turns
use rsocket_go.Base.{
  ℕ, zero, suc, ◌+◌, ◌%◌, ◌^◌, Bool, true, false, List, [], ◌∷◌, ◌++◌, Option, none, some,
}
use rsocket_go.Base.{if◌then◌else◌, length, bytes_eq, ◌==◌, take, drop, ltb}
use rsocket_go.Base.Outcome.{Outcome, done, panic, ◌>>=◌, index}
use rsocket_go.BigEndian.{Bytes}

-- A client is known by a number. `left` are the labels that the OnLeave functions were called with.
pub record RoundRobin : Type 0 where
  pub seq : ℕ
  pub keys : List Bytes
  pub sockets : List ℕ
  pub left : List Bytes

abbrev pub new_round_robin_balancer : RoundRobin
new_round_robin_balancer = record { seq = 0; keys = []; sockets = []; left = [] }

unfoldable pub has_key : Bytes → List Bytes → Bool
has_key label [] = false
has_key label (k ∷ ks) = if bytes_eq k label then true else has_key label ks

-- PutLabel; false is errConflictSocket.
unfoldable pub put_label : Bytes → ℕ → RoundRobin → RoundRobin × Bool
put_label label client b =
    if has_key label b.keys
    then (b, false)
    else (record b { keys = b.keys ++ (label ∷ []); sockets = b.sockets ++ (client ∷ []) }, true)

abbrev pub later : Option ℕ → Option ℕ
later none = none
later (some j) = some (suc j)

unfoldable pub position : ℕ → List ℕ → Option ℕ
position client [] = none
position client (s ∷ ss) = let j = position client ss in if s == client then some 0 else later j

-- append(xs[:j], xs[j+1:]...)
abbrev pub without {ℓ} : {A : Type ℓ} → ℕ → List A → List A
without j xs = take j xs ++ drop (suc j) xs

abbrev pub removed : Option ℕ → RoundRobin → Outcome RoundRobin
removed none b = done b
removed (some j) b = do
  label ← index b.keys j
  done (record b {
    keys = without j b.keys;
    sockets = without j b.sockets;
    left = b.left ++ (label ∷ []);
  })

unfoldable pub remove : ℕ → RoundRobin → Outcome RoundRobin
remove client b = removed (position client b.sockets) b

-- Next; none where there is no client and it waits.
unfoldable pub next : RoundRobin → Outcome (RoundRobin × Option ℕ)
next b =
    let n = length b.keys in
    let seq = (b.seq + 1) % 2 ^ 32 in
    if ltb 0 n
    then (index b.sockets (seq % n) >>= λ client. done (record b { seq = seq }, some client))
    else done (b, none)

-- A number of calls of Next, and the clients that they give.
unfoldable pub nexts : ℕ → RoundRobin → Outcome (RoundRobin × List (Option ℕ))
nexts zero b = done (b, [])
nexts (suc k) b = do (b1, client) ← next b; (b2, clients) ← nexts k b1; done (b2, client ∷ clients)

-- The calls of a balancer's users.
pub data Call : Type 0 where
  puts : Bytes → ℕ → Call
  closes : ℕ → Call
  asks : Call

unfoldable pub perform : List Call → RoundRobin → Outcome RoundRobin
perform [] b = done b
perform (puts label client ∷ calls) b = perform calls (put_label label client b).0
perform (closes client ∷ calls) b = remove client b >>= λ c. perform calls c
perform (asks ∷ calls) b = next b >>= λ x. perform calls x.0

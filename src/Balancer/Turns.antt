-- ===== src/Balancer/Turns.antt =====
-- The clients take turns: over as many calls of Next as there are clients each is given once.
use mathlib.Core.Path.{subst}
use native.Mathlib.Nat.{mod-add-mod, mod-eq_of_lt, mod_self, mod-lt}
use rsocket_go.Base.{ℕ, zero, suc, ◌+◌, ◌-◌, ◌%◌, ◌^◌, ◌<◌, ◌≤◌, ◌≡◌, refl, ap, arith, ◌∙◌, sym}
use rsocket_go.Base.{Bool, true, false, List, [], ◌∷◌, ◌++◌, Option, none, some, map}
use rsocket_go.Base.{
  if◌then◌else◌, ◌==◌, length, take, drop, ltb, lt→ltb, ltb→lt, Bool-cases, inl, inr, length-append,
  length-drop, take-length,
}
use rsocket_go.Base.Outcome.{done, ◌>>=◌, >>=-eq-done, index, index_within}
use rsocket_go.BigEndian.{Bytes}
use rsocket_go.Balancer.{
  RoundRobin, has_key, put_label, later, position, without, removed, remove, next, nexts, Call,
  puts, closes, asks, perform,
}

index-drop :
    (xs : List ℕ) (i : ℕ)
    → i < length xs
    → (x : ℕ) × (index xs i ≡ done x) × (drop i xs ≡ x ∷ drop (suc i) xs)
index-drop [] i h = absurd (omega arith)
index-drop (x ∷ xs) zero h = (x, refl, refl)
index-drop (x ∷ xs) (suc i) h = index-drop xs i (omega arith)

abbrev pub InTurn : RoundRobin → Type 0
InTurn b = length b.keys ≡ length b.sockets

-- One call, with the place in the round that it comes to.
next_at :
    (b : RoundRobin) (i : ℕ)
    → InTurn b
    → b.seq + 1 < 2 ^ 32
    → i < length b.sockets
    → (b.seq + 1) % length b.sockets ≡ i
    → (x : ℕ) × (next b ≡ done (record b { seq = b.seq + 1 }, some x))
      × (drop i b.sockets ≡ x ∷ drop (suc i) b.sockets)
unfolding next
next_at b i parallel below within at =
    let (x, found, rest) = index-drop b.sockets i within in
    (x, rw (parallel, lt→ltb 0 (length b.sockets) (omega arith), small, at, found) refl, rest)
  where
    small : (b.seq + 1) % 2 ^ 32 ≡ b.seq + 1
    small = omega arith

mod_suc : (a k m : ℕ) → a % m ≡ k → k + 1 < m → (a + 1) % m ≡ k + 1
mod_suc a k m e h = sym (mod-add-mod a m 1) ∙ ap (λ x. (x + 1) % m) e ∙ mod-eq_of_lt h

-- A run of calls within one round of the clients.
run :
    (b : RoundRobin) (j i : ℕ)
    → InTurn b
    → i + j ≤ length b.sockets
    → b.seq + j < 2 ^ 32
    → (b.seq + 1) % length b.sockets ≡ i
    → nexts j b ≡ done (record b { seq = b.seq + j }, map some (take j (drop i b.sockets)))
unfolding nexts
run b zero i parallel fits below at = ap (λ s. done (record b { seq = s }, [])) same
  where
    same : b.seq ≡ b.seq + 0
    same = omega arith
run b (suc zero) i parallel fits below at =
    let (x, e, rest) = next_at b i parallel below (omega arith) at in
    ap (λ o. o >>= λ y. done (y.0, y.1 ∷ [])) e
    ∙ ap (λ xs. done (record b { seq = b.seq + 1 }, map some (take 1 xs))) (sym rest)
run b (suc (suc j)) i parallel fits below at =
    let (x, e, rest) = next_at b i parallel (omega arith) (omega arith) at in
    let b1 = record b { seq = b.seq + 1 } in
    ap (λ o. o >>= λ y. nexts (suc j) y.0 >>= λ z. done (z.0, y.1 ∷ z.1)) e
    ∙ ap (λ o. o >>= λ z. done (z.0, some x ∷ z.1))
        (run b1 (suc j) (i + 1) parallel (omega arith) (omega arith)
          (mod_suc (b.seq + 1) i (length b.sockets) at (omega arith)))
    ∙ (λ d. done (record b { seq = total d }, map some (taken rest d)))
  where
    total : b.seq + 1 + suc j ≡ b.seq + suc (suc j)
    total = omega arith

    taken :
        {x : ℕ}
        → drop i b.sockets ≡ x ∷ drop (suc i) b.sockets
        → x ∷ take (suc j) (drop (i + 1) b.sockets) ≡ take (suc (suc j)) (drop i b.sockets)
    taken {x} e =
        ap (λ k. x ∷ take (suc j) (drop k b.sockets)) one_more ∙ ap (take (suc (suc j))) (sym e)
      where
        one_more : i + 1 ≡ suc i
        one_more = omega arith

done_eq {ℓ} : {A : Type ℓ} {x y : A} → done x ≡ done y → x ≡ y
done_eq e = cc

nexts-append :
    (j l m : ℕ) (b b1 b2 : RoundRobin) (xs ys : List (Option ℕ))
    → m ≡ j + l
    → nexts j b ≡ done (b1, xs)
    → nexts l b1 ≡ done (b2, ys)
    → nexts m b ≡ done (b2, xs ++ ys)
unfolding nexts
nexts-append zero l m b b1 b2 xs ys e f g =
    let same = done_eq f in
    ap (λ k. nexts k b) all ∙ ap (λ x. nexts l x.0) same ∙ g ∙ ap (λ x. done (b2, x.1 ++ ys)) same
  where
    all : m ≡ l
    all = omega (arith, e)
nexts-append (suc j) l zero b b1 b2 xs ys e f g = absurd (omega (arith, e))
nexts-append (suc j) l (suc m) b b1 b2 xs ys e f g =
    let (a, ea, fa) = >>=-eq-done (next b) (λ x. nexts j x.0 >>= λ z. done (z.0, x.1 ∷ z.1)) f in
    let (z, ez, fz) = >>=-eq-done (nexts j a.0) (λ z. done (z.0, a.1 ∷ z.1)) fa in
    let same = done_eq fz in
    ap (λ o. o >>= λ x. nexts m x.0 >>= λ z. done (z.0, x.1 ∷ z.1)) ea
    ∙ ap (λ o. o >>= λ z. done (z.0, a.1 ∷ z.1))
        (nexts-append j l m a.0 z.0 b2 z.1 ys (omega (arith, e)) ez
          (ap (λ x. nexts l x.0) same ∙ g))
    ∙ ap (λ x. done (b2, x.1 ++ ys)) same

-- In a balancer with clients, as many labels as clients, and a counter that does not wrap on the
-- way, as many calls of Next as there are clients give each client once, in the order in which
-- they were put, from the one after the last turn and around.
pub nexts-turns :
    (b : RoundRobin)
    → InTurn b
    → 0 < length b.sockets
    → b.seq + length b.sockets < 2 ^ 32
    → let k = (b.seq + 1) % length b.sockets in
      nexts (length b.sockets) b
      ≡ done (
        record b { seq = b.seq + length b.sockets },
        map some (drop k b.sockets ++ take k b.sockets),
      )
nexts-turns b parallel some_client below =
    nexts-append (n - k) k n b (record b { seq = b.seq + (n - k) }) _ _ _ (omega (arith, within))
      (run b (n - k) k parallel (omega (arith, within)) (omega (arith, within)) refl
        ∙ ap (λ xs. done (record b { seq = b.seq + (n - k) }, map some xs)) whole)
      (run (record b { seq = b.seq + (n - k) }) k 0 parallel (omega (arith, within))
        (omega (arith, within)) again)
    ∙ ap (λ xs. done (record b { seq = b.seq + (n - k) + k }, xs))
        (sym (map_append (drop k b.sockets) (take k b.sockets)))
    ∙ ap (λ s. done (record b { seq = s }, map some (drop k b.sockets ++ take k b.sockets))) total
  where
    n : ℕ
    n = length b.sockets

    k : ℕ
    k = (b.seq + 1) % n

    within : k < n
    within = mod-lt (b.seq + 1) some_client

    whole : take (n - k) (drop k b.sockets) ≡ drop k b.sockets
    whole =
        ap (λ j. take j (drop k b.sockets)) (sym (length-drop k b.sockets))
        ∙ take-length (drop k b.sockets)

    again : (b.seq + (n - k) + 1) % n ≡ 0
    again =
        ap (λ x. x % n) moved
        ∙ sym (mod-add-mod (b.seq + 1) n (n - k))
        ∙ ap (λ x. x % n) full
        ∙ mod_self n
      where
        moved : b.seq + (n - k) + 1 ≡ b.seq + 1 + (n - k)
        moved = omega arith

        full : k + (n - k) ≡ n
        full = omega (arith, within)

    total : b.seq + (n - k) + k ≡ b.seq + n
    total = omega (arith, within)

    map_append : (xs ys : List ℕ) → map some (xs ++ ys) ≡ map some xs ++ map some ys
    map_append [] ys = refl
    map_append (x ∷ xs) ys = ap (λ zs. some x ∷ zs) (map_append xs ys)

-- Put and remove keep the two slices in step, and Next never panics.
put_label-InTurn :
    (label : Bytes) (client : ℕ) (b : RoundRobin) → InTurn b → InTurn (put_label label client b).0
unfolding put_label
put_label-InTurn label client b h = by_key (has_key label b.keys)
  where
    by_key :
        (x : Bool)
        → InTurn
            (if◌then◌else◌ {A = RoundRobin × Bool} x
              (b, false)
              (
                record b { keys = b.keys ++ (label ∷ []); sockets = b.sockets ++ (client ∷ []) },
                true,
              )).0
    by_key true = h
    by_key false =
        omega (arith, h, length-append b.keys (label ∷ []), length-append b.sockets (client ∷ []))

length-without {ℓ} :
    {A : Type ℓ} (j : ℕ) (xs : List A) → j < length xs → length (without j xs) + 1 ≡ length xs
length-without j [] h = absurd (omega arith)
length-without zero (x ∷ xs) h = omega arith
length-without (suc j) (x ∷ xs) h = omega (arith, length-without j xs (omega arith))

position_within : (client : ℕ) (ss : List ℕ) (j : ℕ) → position client ss ≡ some j → j < length ss
unfolding position
position_within client [] j e = cc
position_within client (s ∷ ss) j e =
    by_test (s == client) (position client ss) (position_within client ss) e
  where
    some_eq : {x y : ℕ} → some x ≡ some y → x ≡ y
    some_eq e = cc

    by_test :
        (b : Bool) (o : Option ℕ)
        → ((j : ℕ) → o ≡ some j → j < length ss)
        → (if b then some 0 else later o) ≡ some j
        → j < suc (length ss)
    by_test true o w e = omega (arith, some_eq e)
    by_test false none w e = cc
    by_test false (some k) w e = omega (arith, some_eq e, w k refl)

remove-InTurn :
    (client : ℕ) (b : RoundRobin)
    → InTurn b
    → (b' : RoundRobin) × (remove client b ≡ done b') × InTurn b'
unfolding remove
remove-InTurn client b h =
    by_position (position client b.sockets) (position_within client b.sockets)
  where
    by_position :
        (o : Option ℕ)
        → ((j : ℕ) → o ≡ some j → j < length b.sockets)
        → (b' : RoundRobin) × (removed o b ≡ done b') × InTurn b'
    by_position none w = (b, refl, h)
    by_position (some j) w =
        let (label, e) = index_within b.keys j (omega (arith, h, w j refl)) in
        (
          _,
          ap
              (λ o. o >>= λ label. done (record b {
                keys = without j b.keys;
                sockets = without j b.sockets;
                left = b.left ++ (label ∷ []);
              }))
              e,
          omega (
            arith,
            h,
            length-without j b.keys (omega (arith, h, w j refl)),
            length-without j b.sockets (w j refl),
          ),
        )

next-InTurn :
    (b : RoundRobin)
    → InTurn b
    → (b' : RoundRobin) × (o : Option ℕ) × (next b ≡ done (b', o)) × InTurn b'
unfolding next
next-InTurn b h = elim (Bool-cases (ltb 0 (length b.keys))) [
  | inl e ↦
      let (x, f) =
        index_within b.sockets (seq % length b.keys)
          (subst (λ n. seq % length b.keys < n) h (mod-lt seq (ltb→lt 0 (length b.keys) e))) in
      (record b { seq = seq }, some x, rw (e, f) refl, h)
  | inr e ↦ (b, none, rw e refl, h)
]
  where
    seq : ℕ
    seq = (b.seq + 1) % 2 ^ 32

-- Any calls of PutLabel and Next and removals of clients on a balancer with as many labels as
-- clients run without a panic and keep as many labels as clients.
pub perform-InTurn :
    (calls : List Call) (b : RoundRobin)
    → InTurn b
    → (b' : RoundRobin) × (perform calls b ≡ done b') × (length b'.keys ≡ length b'.sockets)
unfolding perform
perform-InTurn [] b h = (b, refl, h)
perform-InTurn (puts label client ∷ calls) b h =
    perform-InTurn calls (put_label label client b).0 (put_label-InTurn label client b h)
perform-InTurn (closes client ∷ calls) b h =
    let (c, e, h') = remove-InTurn client b h in
    let (b', f, h'') = perform-InTurn calls c h' in
    (b', ap (λ o. o >>= λ c. perform calls c) e ∙ f, h'')
perform-InTurn (asks ∷ calls) b h =
    let (c, o, e, h') = next-InTurn b h in
    let (b', f, h'') = perform-InTurn calls c h' in
    (b', ap (λ o. o >>= λ x. perform calls x.0) e ∙ f, h'')

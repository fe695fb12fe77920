-- ===== src/Fragmentation/Splitter/Cursors.antt =====
-- Where the inner loop leaves its two cursors, and the bytes between two cursors.
use rsocket_go.Base.{ℕ, zero, suc, ◌+◌, ◌-◌, ◌≤◌, ◌<◌, ◌≡◌, refl, ap, arith, ◌∙◌, sym}
use rsocket_go.Base.{Bool, [], ◌∷◌, ◌++◌, length, take, drop, drop-nil, nonempty}
use rsocket_go.Base.{ltb, take-append-drop}
use rsocket_go.BigEndian.{Bytes}
use rsocket_go.Fragmentation.Splitter.{move, advance, between, room}

-- After at most `left` rounds from `(c1, c2)` the cursors stand at `(a, b)`.
pub record Moved (left mlen dlen c1 c2 a b : ℕ) : Type 0 where
  pub from1 : c1 ≤ a
  pub within1 : a ≤ mlen
  pub from2 : c2 ≤ b
  pub within2 : b ≤ dlen
  pub bounded : a + b ≤ c1 + c2 + left
  -- Bytes are left over only where all of the room was used,
  pub full : a + b < mlen + dlen → a + b ≡ c1 + c2 + left
  -- and data is taken only behind the last byte of the metadata.
  pub ordered : c2 < b → a ≡ mlen

move-Moved :
    (mlen dlen c1 c2 : ℕ)
    → c1 ≤ mlen
    → c2 ≤ dlen
    → Moved 1 mlen dlen c1 c2 (move mlen dlen (c1, c2)).0 (move mlen dlen (c1, c2)).1
unfolding move
move-Moved mlen dlen c1 c2 h k = ground arith

Moved-suc :
    (left mlen dlen c1 c2 x y a b : ℕ)
    → Moved 1 mlen dlen c1 c2 x y
    → Moved left mlen dlen x y a b
    → Moved (suc left) mlen dlen c1 c2 a b
Moved-suc left mlen dlen c1 c2 x y a b p q = ground arith

pub advance-Moved :
    (left mlen dlen c1 c2 : ℕ)
    → c1 ≤ mlen
    → c2 ≤ dlen
    → Moved left mlen dlen c1 c2
        (advance left mlen dlen (c1, c2)).0
        (advance left mlen dlen (c1, c2)).1
unfolding advance
advance-Moved zero mlen dlen c1 c2 h k = omega arith
advance-Moved (suc left) mlen dlen c1 c2 h k =
    let one = move-Moved mlen dlen c1 c2 h k in
    let x : ℕ = (move mlen dlen (c1, c2)).0 in
    let y : ℕ = (move mlen dlen (c1, c2)).1 in
    Moved-suc left mlen dlen c1 c2 x y (advance left mlen dlen (x, y)).0
      (advance left mlen dlen (x, y)).1 one
      (advance-Moved left mlen dlen x y one.within1 one.within2)

drop-drop : (k n : ℕ) (xs : Bytes) → drop k (drop n xs) ≡ drop (n + k) xs
drop-drop k zero xs = ap (λ i. drop i xs) (omega arith)
drop-drop k (suc n) [] = drop-nil k ∙ sym (drop-nil (suc n + k))
drop-drop k (suc n) (x ∷ xs) =
    let shift : suc (n + k) ≡ suc n + k = omega arith in
    drop-drop k n xs ∙ ap (λ i. drop i (x ∷ xs)) shift

pub drop-between :
    (from to : ℕ) (xs : Bytes) → from ≤ to → drop from xs ≡ between from to xs ++ drop to xs
unfolding between
drop-between from to xs h =
    sym (take-append-drop (to - from) (drop from xs))
    ∙ ap (λ ys. take (to - from) (drop from xs) ++ ys)
        (drop-drop (to - from) from xs ∙ ap (λ n. drop n xs) (omega arith))

pub nonempty-drop : (n : ℕ) (xs : Bytes) → nonempty (drop n xs) ≡ ltb n (length xs)
nonempty-drop zero [] = refl
nonempty-drop zero (x ∷ xs) = ground arith
nonempty-drop (suc n) [] = ground arith
nonempty-drop (suc n) (x ∷ xs) = ground (arith, nonempty-drop n xs)

pub drop_past : (n : ℕ) (xs : Bytes) → length xs ≤ n → drop n xs ≡ []
drop_past zero [] h = refl
drop_past zero (x ∷ xs) h = absurd (omega arith)
drop_past (suc n) [] h = refl
drop_past (suc n) (x ∷ xs) h = drop_past n xs (omega arith)

-- A valid fragment leaves room in every frame but the first.
pub room_pos : (mtu skip idx : ℕ) (has : Bool) → 10 ≤ mtu → 0 < room mtu skip (suc idx) has
unfolding room
room_pos mtu skip idx has h = ground arith

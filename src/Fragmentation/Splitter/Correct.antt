-- ===== src/Fragmentation/Splitter/Correct.antt =====
-- What the splitter promises: it ends for every valid fragment size, and its frames are the payload
-- cut in order, with the flags that tell a reader so.
use rsocket_go.Base.{ℕ, zero, suc, ◌+◌, ◌-◌, ◌≤◌, ◌<◌, ◌≡◌, refl, arith, ◌∙◌, sym}
use rsocket_go.Base.{Bool, true, false, List, [], ◌∷◌, ◌++◌, length, drop, nonempty}
use rsocket_go.Base.{
  Option, none, some, ltb, if◌then◌else◌, Bool-cases, inl, inr, ltb→lt, ltb-false_iff,
}
use rsocket_go.BigEndian.{Bytes}
use rsocket_go.Fragmentation.Splitter.{
  SplitResult, advance, between, room, split_flag, and_cons, split_loop, split_skip,
  is_valid_fragment,
}
use rsocket_go.Fragmentation.Splitter.Cursors.{
  Moved, advance-Moved, drop-between, nonempty-drop, drop_past, room_pos,
}

-- `rs` carries the metadata `m` and the data `d`: the parts join to them in order, each frame tells
-- by its flags whether more frames follow and whether metadata was left when it was cut, and
-- there is no data in a frame while later frames still carry metadata.
unfoldable pub Splits : List SplitResult → Bytes → Bytes → Type 0
Splits [] m d = (m ≡ []) × (d ≡ [])
Splits (r ∷ rs) m d =
    (m' : Bytes) × (d' : Bytes) × (m ≡ r.metadata ++ m')
    × (d ≡ r.data_bytes ++ d')
    × (r.flag ≡ split_flag (nonempty rs) (nonempty m))
    × Splits rs m' d'

-- The rounds that a state may still need.
abbrev needed : ℕ → ℕ → ℕ
needed zero left = left + 2
needed (suc idx) left = left + 1

follow_on :
    (c : Bool) (r : SplitResult) (rest : Option (List SplitResult)) {rs : List SplitResult}
    → c ≡ true
    → rest ≡ some rs
    → (if c then and_cons r rest else some (r ∷ [])) ≡ some (r ∷ rs)
follow_on true r none e h = cc
follow_on true r (some ss) e h = cc
follow_on false r rest e h = cc

stop :
    (c : Bool) (r : SplitResult) (rest : Option (List SplitResult))
    → c ≡ false
    → (if c then and_cons r rest else some (r ∷ [])) ≡ some (r ∷ [])
stop true r rest e = cc
stop false r rest e = refl

valid_room : (mtu : ℕ) → is_valid_fragment mtu ≡ true → 10 ≤ mtu
unfolding is_valid_fragment
valid_room mtu valid = ground arith

module _ (mtu skip : ℕ) (d m : Bytes) (valid : 10 ≤ mtu) where
  abbrev has : ℕ → Bool
  has c1 = ltb c1 (length m)

  abbrev total : ℕ
  total = length m + length d

  abbrev frame : Bool → ℕ → ℕ → ℕ → ℕ → SplitResult
  frame follow c1 c2 a b = record {
    flag = split_flag follow (has c1);
    metadata = between c1 a m;
    data_bytes = between c2 b d;
  }

  frame-Splits :
      (follow : Bool) (c1 c2 a b : ℕ) (rs : List SplitResult)
      → c1 ≤ a
      → c2 ≤ b
      → follow ≡ nonempty rs
      → Splits rs (drop a m) (drop b d)
      → Splits (frame follow c1 c2 a b ∷ rs) (drop c1 m) (drop c2 d)
  unfolding Splits
  frame-Splits follow c1 c2 a b rs h k e rest = (
    drop a m,
    drop b d,
    drop-between c1 a m h,
    drop-between c2 b d k,
    (λ i. split_flag (e i) (sym (nonempty-drop c1 m) i)),
    rest,
  )

  OutcomeOf : ℕ → ℕ → ℕ → ℕ → Type 0
  OutcomeOf fuel idx c1 c2 =
      (rs : List SplitResult) × (split_loop fuel mtu skip d m idx (c1, c2) ≡ some rs)
      × (nonempty rs ≡ true)
      × Splits rs (drop c1 m) (drop c2 d)

  ends :
      (left c1 c2 a b : ℕ)
      → Moved left (length m) (length d) c1 c2 a b
      → total ≤ a + b
      → (length m ≤ a) × (length d ≤ b)
  ends left c1 c2 a b mv past =
      let w1 = mv.within1 in let w2 = mv.within2 in (omega arith, omega arith)

  more_needed :
      (fuel idx c1 c2 a b : ℕ)
      → Moved (room mtu skip idx (has c1)) (length m) (length d) c1 c2 a b
      → a + b < total
      → needed idx (total - (c1 + c2)) ≤ suc fuel
      → needed (suc idx) (total - (a + b)) ≤ fuel
  more_needed fuel zero c1 c2 a b mv lt enough =
      let f1 = mv.from1 in let f2 = mv.from2 in omega arith
  more_needed fuel (suc idx) c1 c2 a b mv lt enough =
      let pos = room_pos mtu skip idx (has c1) valid in let moved = mv.full lt in omega arith

  split_loop-Splits :
      (fuel idx c1 c2 : ℕ)
      → c1 ≤ length m
      → c2 ≤ length d
      → needed idx (total - (c1 + c2)) ≤ fuel
      → OutcomeOf fuel idx c1 c2
  unfolding OutcomeOf split_loop Splits
  split_loop-Splits zero zero c1 c2 h k enough = absurd (omega arith)
  split_loop-Splits zero (suc idx) c1 c2 h k enough = absurd (omega arith)
  split_loop-Splits (suc fuel) idx c1 c2 h k enough =
      let left : ℕ = room mtu skip idx (has c1) in
      let a : ℕ = (advance left (length m) (length d) (c1, c2)).0 in
      let b : ℕ = (advance left (length m) (length d) (c1, c2)).1 in
      let mv = advance-Moved left (length m) (length d) c1 c2 h k in
      let rest : Option (List SplitResult) = split_loop fuel mtu skip d m (suc idx) (a, b) in
      elim (Bool-cases (ltb (a + b) total)) [
        | inl e ↦
            let (rs, es, ne, parts) =
              split_loop-Splits fuel (suc idx) a b mv.within1 mv.within2
                (more_needed fuel idx c1 c2 a b mv (ltb→lt (a + b) total e) enough) in
            (
              frame (ltb (a + b) total) c1 c2 a b ∷ rs,
              follow_on (ltb (a + b) total) (frame (ltb (a + b) total) c1 c2 a b) rest e es,
              refl,
              frame-Splits (ltb (a + b) total) c1 c2 a b rs mv.from1 mv.from2 (e ∙ sym ne) parts,
            )
        | inr e ↦
            let past : total ≤ a + b = (ltb-false_iff (a + b) total).0 e in
            (
              frame (ltb (a + b) total) c1 c2 a b ∷ [],
              stop (ltb (a + b) total) (frame (ltb (a + b) total) c1 c2 a b) rest e,
              refl,
              frame-Splits (ltb (a + b) total) c1 c2 a b [] mv.from1 mv.from2 e (
                drop_past a m ((ends left c1 c2 a b mv past).0),
                drop_past b d ((ends left c1 c2 a b mv past).1),
              ),
            )
      ]

-- For every valid fragment size and any number of skipped bytes the splitter ends, with at least
-- one frame; the parts of its frames join to the metadata and the data in order, and the flags of
-- each frame tell whether another follows and whether metadata was left when it was cut.
pub split_skip-Splits :
    (mtu skip : ℕ) (d m : Bytes)
    → is_valid_fragment mtu ≡ true
    → (rs : List SplitResult) × (split_skip mtu skip d m ≡ some rs)
      × (nonempty rs ≡ true)
      × Splits rs m d
unfolding split_skip OutcomeOf
split_skip-Splits mtu skip d m valid =
    split_loop-Splits mtu skip d m (valid_room mtu valid) (length m + length d + 2) 0 0 0
      (omega arith) (omega arith) (omega arith)

-- ===== src/Framing/Program.antt =====
-- What a `WriteTo(w io.Writer)` method does with its writer: a sequence of writes that stops at the
-- first error. The writer is a parameter; a buffer is the writer that takes everything.
use rsocket_go.Base.{ℕ, ◌+◌, ◌≡◌, refl, arith}
use rsocket_go.Base.{Bool, true, false, [], ◌++◌, length, length-append, append_assoc, append-nil}
use rsocket_go.Base.Outcome.{Outcome, done, panic, ◌>>=◌}
use rsocket_go.BigEndian.{Bytes}

infixl 40 ◌⨟◌
pub data Program : Type 0 where
  nothing : Program
  -- n, err = w.Write(bs)
  chunk : Bytes → Program
  -- err = binary.Write(w, binary.BigEndian, ...), counted by the size of the word
  word : Bytes → Program
  ◌⨟◌ : Program → Program → Program
  -- a call of `panic`
  crash : Program

-- The bytes that a program hands over if no write fails.
unfoldable pub emit : Program → Outcome Bytes
emit nothing = done []
emit (chunk bs) = done bs
emit (word bs) = done bs
emit (p ⨟ q) = do a ← emit p; b ← emit q; done (a ++ b)
emit crash = panic

pub data Run {ℓ} (W : Type ℓ) : Type ℓ where
  sent : W → ℕ → Run W
  failed : W → ℕ → Run W
  panicked : Run W

module _ {ℓ} {W : Type ℓ} where
  abbrev after_write : W × ℕ × Bool → Run W
  after_write (w, n, true) = sent w n
  after_write (w, n, false) = failed w 0

  abbrev after_word : ℕ → W × ℕ × Bool → Run W
  after_word size (w, n, true) = sent w size
  after_word size (w, n, false) = failed w 0

  -- The count of a part that fails is dropped by the method that called it.
  abbrev add_count : ℕ → Run W → Run W
  add_count n (sent w m) = sent w (n + m)
  add_count n (failed w m) = failed w n
  add_count n panicked = panicked

  abbrev and_then : Run W → (W → Run W) → Run W
  and_then (sent w n) k = add_count n (k w)
  and_then (failed w n) k = failed w n
  and_then panicked k = panicked

  -- The writer answers with its new state, the count, and whether the error is nil.
  unfoldable pub run : (W → Bytes → W × ℕ × Bool) → Program → W → Run W
  run write nothing w = sent w 0
  run write (chunk bs) w = after_write (write w bs)
  run write (word bs) w = after_word (length bs) (write w bs)
  run write (p ⨟ q) w = and_then (run write p w) (run write q)
  run write crash w = panicked

  -- The contract of io.Writer: a nil error means that all of the bytes were taken.
  abbrev pub IsWriter : (W → Bytes → W × ℕ × Bool) → Type ℓ
  IsWriter write = (w w' : W) (bs : Bytes) (n : ℕ) → write w bs ≡ (w', n, true) → n ≡ length bs

-- A bytes.Buffer appends and never fails.
unfoldable pub buffer_write : Bytes → Bytes → Bytes × ℕ × Bool
buffer_write b bs = (b ++ bs, length bs, true)

pub buffer_write-IsWriter : IsWriter buffer_write
unfolding buffer_write
buffer_write-IsWriter w w' bs n e = ground arith

pub emit-⨟ :
    (p q : Program) {bs : Bytes}
    → emit (p ⨟ q) ≡ done bs
    → (a : Bytes) × (b : Bytes) × (emit p ≡ done a) × (emit q ≡ done b) × (bs ≡ a ++ b)
unfolding emit
emit-⨟ p q e = split (emit p) (emit q) e
  where
    split :
        (m n : Outcome Bytes) {bs : Bytes}
        → (m >>= λ a. n >>= λ b. done (a ++ b)) ≡ done bs
        → (a : Bytes) × (b : Bytes) × (m ≡ done a) × (n ≡ done b) × (bs ≡ a ++ b)
    split (done a) (done b) e = (a, b, refl, refl, cc)
    split (done a) panic e = cc
    split panic n e = cc

-- A write method that emits some bytes appends exactly them to a buffer and counts them.
pub run-buffer :
    (p : Program) (b bs : Bytes)
    → emit p ≡ done bs
    → run buffer_write p b ≡ sent (b ++ bs) (length bs)
unfolding run buffer_write
run-buffer nothing b bs e = unfold emit in ground (arith, append-nil b)
run-buffer (chunk cs) b bs e = unfold emit in ground arith
run-buffer (word cs) b bs e = unfold emit in ground arith
run-buffer (p ⨟ q) b bs e =
    let (x, y, ep, eq, es) = emit-⨟ p q e in
    rw (run-buffer p b x ep, run-buffer q (b ++ x) y eq, es, append_assoc b x y, length-append x y)
run-buffer crash b bs e = unfold emit in cc

module _ {ℓ} {W : Type ℓ} where
  and_then-sent :
      (r : Run W) (k : W → Run W) {w' : W} {n : ℕ}
      → and_then r k ≡ sent w' n
      → (w : W) × (a : ℕ) × (b : ℕ) × (r ≡ sent w a) × (k w ≡ sent w' b) × (n ≡ a + b)
  and_then-sent (sent w a) k e = rest (k w) refl e
    where
      rest :
          (r : Run W) {w' : W} {n : ℕ}
          → k w ≡ r
          → add_count a r ≡ sent w' n
          → (v : W) × (x : ℕ) × (b : ℕ) × (sent w a ≡ sent v x) × (k v ≡ sent w' b) × (n ≡ x + b)
      rest (sent u b) h e = (w, a, b, refl, cc, ground arith)
      rest (failed u b) h e = cc
      rest panicked h e = cc
  and_then-sent (failed w a) k e = cc
  and_then-sent panicked k e = cc

  after_write-sent :
      (t : W × ℕ × Bool) {w' : W} {n : ℕ} → after_write t ≡ sent w' n → t ≡ (w', n, true)
  after_write-sent (w, n, true) e = ground arith
  after_write-sent (w, n, false) e = cc

  after_word-sent :
      (size : ℕ) (t : W × ℕ × Bool) {w' : W} {n : ℕ} → after_word size t ≡ sent w' n → n ≡ size
  after_word-sent size (w, n, true) e = ground arith
  after_word-sent size (w, n, false) e = cc

module _ {ℓ} {W : Type ℓ} (write : W → Bytes → W × ℕ × Bool) (contract : IsWriter write) where
  -- Over any writer that keeps the contract, a method that reports no error counts the bytes
  -- that it emits.
  pub run_count :
      (p : Program) (w w' : W) (n : ℕ) (bs : Bytes)
      → emit p ≡ done bs
      → run write p w ≡ sent w' n
      → n ≡ length bs
  unfolding run
  run_count nothing w w' n bs e r = unfold emit in ground arith
  run_count (chunk cs) w w' n bs e r =
      unfold emit in ground (arith, contract w w' cs n (after_write-sent (write w cs) r))
  run_count (word cs) w w' n bs e r =
      unfold emit in ground (arith, after_word-sent (length cs) (write w cs) r)
  run_count (p ⨟ q) w w' n bs e r =
      let (x, y, ep, eq, es) = emit-⨟ p q e in
      let (v, a, b, rp, rq, en) = and_then-sent (run write p w) (run write q) r in
      rw (es, length-append x y)
        (omega (arith, en, run_count p w v a x ep rp, run_count q v w' b y eq rq))
  run_count crash w w' n bs e r = unfold emit in cc

-- The length of what two parts emit.
pub length-emit-⨟ :
    (p q : Program) (k n : ℕ) {bs : Bytes}
    → ((a : Bytes) → emit p ≡ done a → length a ≡ k)
    → ((b : Bytes) → emit q ≡ done b → length b ≡ n)
    → emit (p ⨟ q) ≡ done bs
    → length bs ≡ k + n
length-emit-⨟ p q k n left right e =
    let (a, b, ep, eq, es) = emit-⨟ p q e in
    rw (es, length-append a b) (omega (arith, left a ep, right b eq))

pub length-emit_chunk : (cs bs : Bytes) → emit (chunk cs) ≡ done bs → length bs ≡ length cs
unfolding emit
length-emit_chunk cs bs e = ground arith

pub length-emit_word : (cs bs : Bytes) → emit (word cs) ≡ done bs → length bs ≡ length cs
unfolding emit
length-emit_word cs bs e = ground arith

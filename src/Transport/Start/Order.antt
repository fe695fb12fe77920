-- ===== src/Transport/Start/Order.antt =====
-- The order of dispatch: the odd and the even goroutine and the reader interleave, and still the frames
-- of one stream are dispatched in the order of arrival, each once.
use rsocket_go.Base.{ℕ, ◌%◌, ◌+◌, ◌<◌, ◌≡◌, ◌≢◌, refl, ap, arith, ◌∙◌, sym, ==_iff}
use rsocket_go.Base.{Bool, true, false, List, [], ◌∷◌, ◌++◌, append-nil, append_assoc}
use rsocket_go.Base.{if◌then◌else◌, Bool-cases, inl, inr, ◌⊎◌, ◌==◌, All, All-append}
use mathlib.Core.Path.{subst}
use native.Mathlib.Decide.{ℕ_discrete}
use rsocket_go.Buffers.Unbounded.{Unbounded, dispose}
use rsocket_go.Buffers.Unbounded.Fifo.{contents}
use rsocket_go.Transport.Start.{
  Loop, waiting, ended, State, new_lane, start, Step, reads_odd, reads_even, reads_zero, odd_moves,
  even_moves, stops, Reach, begins, later,
}
use rsocket_go.Transport.Start.Lanes.{
  Sound, Put, held, pending, put-Put, LaneStep-Moved, dispose-Sound, disposed_dispose, not_ended,
  steps_left, LaneStep-steps_left, Lane-steps, nothing_left,
}

module _ {ℓ} {F : Type ℓ} (stream_id : F → ℕ) where
  -- The frames of stream `k`, in order.
  unfoldable pub only : ℕ → List F → List F
  only k [] = []
  only k (f ∷ fs) = if stream_id f == k then f ∷ only k fs else only k fs

  only-append : (k : ℕ) (xs ys : List F) → only k (xs ++ ys) ≡ only k xs ++ only k ys
  unfolding only
  only-append k [] ys = refl
  only-append k (x ∷ xs) ys = elim (Bool-cases (stream_id x == k)) [
    | inl e ↦ rw e (ap (λ zs. x ∷ zs) (only-append k xs ys))
    | inr e ↦ rw e (only-append k xs ys)
  ]

  abbrev IsOdd : F → Type 0
  IsOdd f = stream_id f % 2 ≡ 1

  abbrev IsEven : F → Type 0
  IsEven f = (stream_id f % 2 ≢ 1) × (stream_id f ≢ 0)

  -- No frame of stream `k` is in a lane for other streams.
  only-others :
      (P : F → Type 0) (k : ℕ) (xs : List F)
      → ((f : F) → P f → stream_id f ≢ k)
      → All P xs
      → only k xs ≡ []
  unfolding only
  only-others P k [] other h = refl
  only-others P k (x ∷ xs) other (h, hs) = elim (Bool-cases (stream_id x == k)) [
    | inl e ↦ absurd (other x h ((==_iff (stream_id x) k).0 e))
    | inr e ↦ rw e (only-others P k xs other hs)
  ]

  All-back : (P : F → Type 0) (xs ys : List F) → All P (xs ++ ys) → All P ys
  All-back P [] ys h = h
  All-back P (x ∷ xs) ys (h, hs) = All-back P xs ys hs

  All-front : (P : F → Type 0) (xs ys : List F) → All P (xs ++ ys) → All P xs
  All-front P [] ys h = tt
  All-front P (x ∷ xs) ys (h, hs) = (h, All-front P xs ys hs)

  -- Lists that never both have frames of stream `k` commute under its selection.
  swap : (xs ys : List F) → (xs ≡ []) ⊎ (ys ≡ []) → xs ++ ys ≡ ys ++ xs
  swap xs ys (inl e) = rw e (sym (append-nil ys))
  swap xs ys (inr e) = rw e (append-nil xs)

  odd_even :
      (k : ℕ) (xs ys : List F) → All IsOdd xs → All IsEven ys → (only k xs ≡ []) ⊎ (only k ys ≡ [])
  odd_even k xs ys h g = elim (ℕ_discrete (k % 2) 1) [
    | yes e ↦ inr (only-others IsEven k ys (λ f p q. p.0 (ap (λ n. n % 2) q ∙ e)) g)
    | no n ↦ inl (only-others IsOdd k xs (λ f p q. n (ap (λ m. m % 2) (sym q) ∙ p)) h)
  ]

  zero_or :
      (P : F → Type 0) (k : ℕ) (f : F) (xs : List F)
      → stream_id f ≡ 0
      → ((g : F) → P g → stream_id g ≢ 0)
      → All P xs
      → (only k xs ≡ []) ⊎ (only k (f ∷ []) ≡ [])
  zero_or P k f xs z apart h = elim (ℕ_discrete k 0) [
    | yes e ↦ inl (only-others P k xs (λ g p q. apart g p (q ∙ e)) h)
    | no n ↦ inr (only-others (λ g. stream_id g ≡ 0) k (f ∷ []) (λ g p q. n (sym q ∙ p)) (z, tt))
  ]

  odd_nonzero : (g : F) → IsOdd g → stream_id g ≢ 0
  odd_nonzero g p q = omega arith

  -- What is dispatched, in the odd lane, in the even lane and still to come, stream by stream.
  Ordered : List F → List F → List F → List F → List F → Type ℓ
  Ordered all log odds evens input =
      (k : ℕ) → only k log ++ (only k odds ++ (only k evens ++ only k input)) ≡ only k all

  to_odd :
      (all log odds evens input : List F) (f : F)
      → IsOdd f
      → All IsEven evens
      → Ordered all log odds evens (f ∷ input)
      → Ordered all log (odds ++ (f ∷ [])) evens input
  unfolding Ordered
  to_odd all log odds evens input f p g h k =
      ap (λ x. only k log ++ (x ++ (only k evens ++ only k input))) (only-append k odds (f ∷ []))
      ∙ ap (λ x. only k log ++ x)
          (append_assoc (only k odds) one (only k evens ++ only k input)
            ∙ ap (λ x. only k odds ++ x)
                (sym (append_assoc one (only k evens) (only k input))
                  ∙ ap (λ x. x ++ only k input)
                      (swap one (only k evens) (odd_even k (f ∷ []) evens (p, tt) g))
                  ∙ append_assoc (only k evens) one (only k input)
                  ∙ ap (λ x. only k evens ++ x) (sym (only-append k (f ∷ []) input))))
      ∙ h k
    where
      one : List F
      one = only k (f ∷ [])

  to_even :
      (all log odds evens input : List F) (f : F)
      → Ordered all log odds evens (f ∷ input)
      → Ordered all log odds (evens ++ (f ∷ [])) input
  unfolding Ordered
  to_even all log odds evens input f h k =
      ap (λ x. only k log ++ (only k odds ++ x))
        (ap (λ x. x ++ only k input) (only-append k evens (f ∷ []))
          ∙ append_assoc (only k evens) (only k (f ∷ [])) (only k input)
          ∙ ap (λ x. only k evens ++ x) (sym (only-append k (f ∷ []) input)))
      ∙ h k

  odd_out :
      (all log out odds evens input : List F)
      → Ordered all log (out ++ odds) evens input
      → Ordered all (log ++ out) odds evens input
  unfolding Ordered
  odd_out all log out odds evens input h k =
      ap (λ x. x ++ (only k odds ++ (only k evens ++ only k input))) (only-append k log out)
      ∙ append_assoc (only k log) (only k out) (only k odds ++ (only k evens ++ only k input))
      ∙ ap (λ x. only k log ++ x)
          (sym (append_assoc (only k out) (only k odds) (only k evens ++ only k input))
            ∙ ap (λ x. x ++ (only k evens ++ only k input)) (sym (only-append k out odds)))
      ∙ h k

  -- Frames pass the odd lane where they are of other streams.
  pass_odd :
      (all log out odds evens input : List F)
      → ((k : ℕ) → (only k odds ≡ []) ⊎ (only k out ≡ []))
      → Ordered all log odds (out ++ evens) input
      → Ordered all log (out ++ odds) evens input
  unfolding Ordered
  pass_odd all log out odds evens input apart h k =
      ap (λ x. only k log ++ x)
        (ap (λ x. x ++ (only k evens ++ only k input))
            (only-append k out odds ∙ sym (swap (only k odds) (only k out) (apart k)))
          ∙ append_assoc (only k odds) (only k out) (only k evens ++ only k input)
          ∙ ap (λ x. only k odds ++ x)
              (sym (append_assoc (only k out) (only k evens) (only k input))
                ∙ ap (λ x. x ++ only k input) (sym (only-append k out evens))))
      ∙ h k

  -- So do frames that pass the even lane.
  pass_even :
      (all log odds evens input : List F) (f : F)
      → ((k : ℕ) → (only k evens ≡ []) ⊎ (only k (f ∷ []) ≡ []))
      → Ordered all log odds evens (f ∷ input)
      → Ordered all log odds (f ∷ evens) input
  unfolding Ordered
  pass_even all log odds evens input f apart h k =
      ap (λ x. only k log ++ (only k odds ++ x))
        (ap (λ x. x ++ only k input)
            (only-append k (f ∷ []) evens ∙ sym (swap (only k evens) (only k (f ∷ [])) (apart k)))
          ∙ append_assoc (only k evens) (only k (f ∷ [])) (only k input)
          ∙ ap (λ x. only k evens ++ x) (sym (only-append k (f ∷ []) input)))
      ∙ h k

  abbrev odd_pending : State F → List F
  odd_pending s = pending s.odd.buffer s.odd.loop

  abbrev even_pending : State F → List F
  even_pending s = pending s.even.buffer s.even.loop

  record Inv (all : List F) (s : State F) : Type ℓ where
    odd_sound : Sound s.odd.buffer s.odd.loop
    even_sound : Sound s.even.buffer s.even.loop
    odd_open : s.reading ≡ true → s.odd.buffer.disposed ≡ false
    even_open : s.reading ≡ true → s.even.buffer.disposed ≡ false
    odd_shut : s.reading ≡ false → s.odd.buffer.disposed ≡ true
    even_shut : s.reading ≡ false → s.even.buffer.disposed ≡ true
    odd_frames : All IsOdd (odd_pending s)
    even_frames : All IsEven (even_pending s)
    order : Ordered all s.log (odd_pending s) (even_pending s) s.input

  IsOdd-append : (f : F) (xs : List F) → IsOdd f → All IsOdd xs → All IsOdd (xs ++ (f ∷ []))
  IsOdd-append f xs p h = All-append IsOdd xs (f ∷ []) h (p, tt)

  IsEven-append : (f : F) (xs : List F) → IsEven f → All IsEven xs → All IsEven (xs ++ (f ∷ []))
  IsEven-append f xs p h = All-append IsEven xs (f ∷ []) h (p, tt)

  -- A frame that is stored comes after all that is pending.
  pending-Put :
      (b : Unbounded F) (l : Loop F) (f : F) (r : Unbounded F × Bool)
      → Put b l f r
      → pending r.0 l ≡ pending b l ++ (f ∷ [])
  pending-Put b l f r h =
      ap (λ x. held l ++ x) h.stored ∙ sym (append_assoc (held l) (contents b) (f ∷ []))

  clash_reading : {b : Bool} → b ≡ true → b ≡ false → ⊥
  clash_reading e g = cc

  Step-Inv : (all : List F) (s t : State F) → Step stream_id s t → Inv all s → Inv all t
  Step-Inv all s t (reads_odd f rest b ok r e q p) h =
      let put_b = put-Put s.odd.buffer s.odd.loop f (b, ok) h.odd_sound (h.odd_open r) p in
      let more = sym (pending-Put s.odd.buffer s.odd.loop f (b, ok) put_b) in
      record {
        odd_sound = put_b.sound;
        even_sound = h.even_sound;
        odd_open = λ _. put_b.open_still;
        even_open = h.even_open;
        odd_shut = λ c. absurd (clash_reading r c);
        even_shut = h.even_shut;
        odd_frames = subst (All IsOdd) more (IsOdd-append f (odd_pending s) q h.odd_frames);
        even_frames = h.even_frames;
        order =
            subst (λ x. Ordered all s.log x (even_pending s) rest) more
              (to_odd all s.log (odd_pending s) (even_pending s) rest f q h.even_frames
                (subst (Ordered all s.log (odd_pending s) (even_pending s)) e h.order));
      }
  Step-Inv all s t (reads_even f rest b ok r e q z p) h =
      let put_b = put-Put s.even.buffer s.even.loop f (b, ok) h.even_sound (h.even_open r) p in
      let more = sym (pending-Put s.even.buffer s.even.loop f (b, ok) put_b) in
      record {
        odd_sound = h.odd_sound;
        even_sound = put_b.sound;
        odd_open = h.odd_open;
        even_open = λ _. put_b.open_still;
        odd_shut = h.odd_shut;
        even_shut = λ c. absurd (clash_reading r c);
        odd_frames = h.odd_frames;
        even_frames =
            subst (All IsEven) more (IsEven-append f (even_pending s) (q, z) h.even_frames);
        order =
            subst (λ x. Ordered all s.log (odd_pending s) x rest) more
              (to_even all s.log (odd_pending s) (even_pending s) rest f
                (subst (Ordered all s.log (odd_pending s) (even_pending s)) e h.order));
      }
  Step-Inv all s t (reads_zero f rest r e z) h = record {
    odd_sound = h.odd_sound;
    even_sound = h.even_sound;
    odd_open = h.odd_open;
    even_open = h.even_open;
    odd_shut = h.odd_shut;
    even_shut = h.even_shut;
    odd_frames = h.odd_frames;
    even_frames = h.even_frames;
    order = odd_out all s.log (f ∷ []) (odd_pending s) (even_pending s) rest (
        pass_odd all s.log (f ∷ []) (odd_pending s) (even_pending s) rest
          (λ k. zero_or IsOdd k f (odd_pending s) z odd_nonzero h.odd_frames)
          (pass_even all s.log (odd_pending s) (even_pending s) rest f
            (λ k. zero_or IsEven k f (even_pending s) z (λ g p. p.1) h.even_frames)
            (subst (Ordered all s.log (odd_pending s) (even_pending s)) e h.order)));
  }
  Step-Inv all s t (odd_moves l out m) h =
      let moved = LaneStep-Moved s.odd.buffer s.odd.loop l out m h.odd_sound in
      record {
        odd_sound = moved.sound;
        even_sound = h.even_sound;
        odd_open = λ r. moved.same_disposed ∙ h.odd_open r;
        even_open = h.even_open;
        odd_shut = λ r. moved.same_disposed ∙ h.odd_shut r;
        even_shut = h.even_shut;
        odd_frames =
            All-back IsOdd out (pending l.buffer l.loop)
              (subst (All IsOdd) moved.kept h.odd_frames);
        even_frames = h.even_frames;
        order =
            odd_out all s.log out (pending l.buffer l.loop) (even_pending s) s.input
              (subst (λ x. Ordered all s.log x (even_pending s) s.input) moved.kept h.order);
      }
  Step-Inv all s t (even_moves l out m) h =
      let moved = LaneStep-Moved s.even.buffer s.even.loop l out m h.even_sound in
      let frames = subst (All IsEven) moved.kept h.even_frames in
      record {
        odd_sound = h.odd_sound;
        even_sound = moved.sound;
        odd_open = h.odd_open;
        even_open = λ r. moved.same_disposed ∙ h.even_open r;
        odd_shut = h.odd_shut;
        even_shut = λ r. moved.same_disposed ∙ h.even_shut r;
        odd_frames = h.odd_frames;
        even_frames = All-back IsEven out (pending l.buffer l.loop) frames;
        order = odd_out all s.log out (odd_pending s) (pending l.buffer l.loop) s.input (
            pass_odd all s.log out (odd_pending s) (pending l.buffer l.loop) s.input
              (λ k.
                odd_even k (odd_pending s) out h.odd_frames
                  (All-front IsEven out (pending l.buffer l.loop) frames))
              (subst (λ x. Ordered all s.log (odd_pending s) x s.input) moved.kept h.order));
      }
  Step-Inv all s t (stops r) h =
      let (odd_sound', odd_kept) = dispose-Sound s.odd.buffer s.odd.loop h.odd_sound in
      let (even_sound', even_kept) = dispose-Sound s.even.buffer s.even.loop h.even_sound in
      let odd_same = ap (λ x. held s.odd.loop ++ x) (sym odd_kept) in
      let even_same = ap (λ x. held s.even.loop ++ x) (sym even_kept) in
      record {
        odd_sound = odd_sound';
        even_sound = even_sound';
        odd_open = λ c. absurd (clash_reading c refl);
        even_open = λ c. absurd (clash_reading c refl);
        odd_shut = λ _. disposed_dispose s.odd.buffer;
        even_shut = λ _. disposed_dispose s.even.buffer;
        odd_frames = subst (All IsOdd) odd_same h.odd_frames;
        even_frames = subst (All IsEven) even_same h.even_frames;
        order =
            subst (λ x. Ordered all s.log x (pending (dispose s.even.buffer) s.even.loop) s.input)
              odd_same (subst (λ x. Ordered all s.log (odd_pending s) x s.input) even_same h.order);
      }

  lane_start : Sound (new_lane {F = F}).buffer waiting
  lane_start = record {
    valid = record {
      closed_empty = λ e. refl;
      closed_disposed = λ e. absurd (clash_reading e refl);
    };
    waits = λ q n. refl;
    gone = λ q. absurd (not_ended q);
    shut = λ d. absurd (clash_reading d refl);
  }

  start-Inv : (all : List F) → Inv all (start all)
  unfolding Ordered only
  start-Inv all = record {
    odd_sound = lane_start;
    even_sound = lane_start;
    odd_open = λ _. refl;
    even_open = λ _. refl;
    odd_shut = λ c. absurd (clash_reading refl c);
    even_shut = λ c. absurd (clash_reading refl c);
    odd_frames = tt;
    even_frames = tt;
    order = λ k. refl;
  }

  Reach-Inv : (all : List F) (s : State F) → Reach stream_id all s → Inv all s
  Reach-Inv all s begins = start-Inv all
  Reach-Inv all t (later s t' r m) = Step-Inv all s t m (Reach-Inv all s r)

  ordered_and_left :
      (all : List F) (s : State F)
      → Reach stream_id all s
      → (k : ℕ)
      → (left : List F) × (only k all ≡ only k s.log ++ left)
        × (s.odd.loop ≡ ended → s.even.loop ≡ ended → left ≡ only k s.input)
  unfolding Ordered only
  ordered_and_left all s r k =
      let h = Reach-Inv all s r in
      (
        only k (odd_pending s) ++ (only k (even_pending s) ++ only k s.input),
        sym (h.order k),
        λ o e.
            ap (λ x. only k x ++ (only k (even_pending s) ++ only k s.input))
              (nothing_left h.odd_sound o)
            ∙ ap (λ x. only k x ++ only k s.input) (nothing_left h.even_sound e),
      )

  -- In every state that the read loop and the loops of its two buffers reach, in any interleaving,
  -- the frames of each stream that were dispatched are, in order, the first of those that arrived.
  pub dispatched_in_order :
      (all : List F) (s : State F)
      → Reach stream_id all s
      → (k : ℕ) → (left : List F) × (only k all ≡ only k s.log ++ left)
  dispatched_in_order all s r k = let (left, e, rest) = ordered_and_left all s r k in (left, e)

  all_dispatched :
      (all : List F) (s : State F)
      → Reach stream_id all s
      → s.odd.loop ≡ ended
      → s.even.loop ≡ ended
      → (k : ℕ) → only k all ≡ only k s.log ++ only k s.input
  all_dispatched all s r o e k =
      let (left, q, rest) = ordered_and_left all s r k in q ∙ ap (λ x. only k s.log ++ x) (rest o e)

  stopped_steps :
      (all : List F) (s : State F)
      → Reach stream_id all s
      → s.reading ≡ false
      → ((s.odd.loop ≡ ended)
          × (s.even.loop ≡ ended)
          × ((k : ℕ) → only k all ≡ only k s.log ++ only k s.input))
        ⊎ ((t : State F) × Step stream_id s t)
  stopped_steps all s r e =
      let h = Reach-Inv all s r in
      let odd = Lane-steps s.odd.buffer s.odd.loop h.odd_sound (h.odd_shut e) in
      let even = Lane-steps s.even.buffer s.even.loop h.even_sound (h.even_shut e) in
      elim odd [
        | inr (m, out, d) ↦ inr (_, odd_moves m out d)
        | inl p ↦ elim even [
          | inr (m, out, d) ↦ inr (_, even_moves m out d)
          | inl q ↦ inl (p, q, λ k. all_dispatched all s r p q k)
        ]
      ]

  abbrev pub steps_to_end : State F → ℕ
  steps_to_end s = steps_left s.odd.buffer s.odd.loop + steps_left s.even.buffer s.even.loop

  Step-steps_to_end :
      (all : List F) (s t : State F)
      → Reach stream_id all s
      → s.reading ≡ false
      → Step stream_id s t
      → (steps_to_end t < steps_to_end s) × (t.reading ≡ false)
  Step-steps_to_end all s t r e (reads_odd f rest b ok q x y z) = absurd (clash_reading q e)
  Step-steps_to_end all s t r e (reads_even f rest b ok q x y z w) = absurd (clash_reading q e)
  Step-steps_to_end all s t r e (reads_zero f rest q x y) = absurd (clash_reading q e)
  Step-steps_to_end all s t r e (odd_moves l out m) = (
    omega
        (arith, LaneStep-steps_left s.odd.buffer s.odd.loop l out m (Reach-Inv all s r).odd_sound),
    e,
  )
  Step-steps_to_end all s t r e (even_moves l out m) = (
    omega (
      arith,
      LaneStep-steps_left s.even.buffer s.even.loop l out m (Reach-Inv all s r).even_sound,
    ),
    e,
  )
  Step-steps_to_end all s t r e (stops q) = absurd (clash_reading q e)

  -- Once the read loop has stopped, a step is possible or both buffer loops have ended, and then,
  -- for each stream, all frames have been dispatched in order but those never read; every step
  -- brings the state closer to that end, by a number that goes down, and the read loop stays
  -- stopped.
  pub stopped_ends :
      (all : List F) (s : State F)
      → Reach stream_id all s
      → s.reading ≡ false
      → (((s.odd.loop ≡ ended)
            × (s.even.loop ≡ ended)
            × ((k : ℕ) → only k all ≡ only k s.log ++ only k s.input))
          ⊎ ((t : State F) × Step stream_id s t))
        × ((t : State F)
            → Step stream_id s t
            → (steps_to_end t < steps_to_end s) × (t.reading ≡ false))
  stopped_ends all s r e = (stopped_steps all s r e, λ t m. Step-steps_to_end all s t r e m)

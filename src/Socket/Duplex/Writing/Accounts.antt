-- ===== src/Socket/Duplex/Writing/Accounts.antt =====
-- What becomes of the frames that the write loop takes from the queue.
use rsocket_go.Base.{
  ℕ, zero, suc, ◌≡◌, refl, ap, ◌∙◌, sym, Bool, true, false, List, [], ◌∷◌, ◌++◌, append-nil,
  append_assoc,
}
use rsocket_go.Base.{if◌then◌else◌, map, ◌||◌}
use rsocket_go.Socket.Duplex.{OutFrame, Queued, DuplexConnection, run_hook}
use rsocket_go.Socket.Duplex.Closing.Order.{run_hook_lem}
use rsocket_go.Socket.Duplex.Writing.{
  Writer, Ready, queue_ready, send, to_backlog, kept_if, drain_one, take_queued, flush, by_next,
  drain_rounds,
}

-- `zs` is made of `xs` and `ys`, each in its order.
pub data Merge {ℓ} {A : Type ℓ} : List A → List A → List A → Type ℓ where
  empty : Merge [] [] []
  left : (x : A) (xs ys zs : List A) → Merge xs ys zs → Merge (x ∷ xs) ys (x ∷ zs)
  right : (y : A) (xs ys zs : List A) → Merge xs ys zs → Merge xs (y ∷ ys) (y ∷ zs)

abbrev pub frames : List Queued → List OutFrame
frames qs = map (λ q. q.frame) qs

-- From `w` to `w'` the frames `taken` were sent, or put behind the backlog.
pub record Accounts (w w' : Writer) (taken : List OutFrame) : Type 0 where
  pub sent_now : List OutFrame
  pub kept_now : List OutFrame
  pub sent : w'.wire.sent ≡ w.wire.sent ++ sent_now
  pub kept : frames w'.dc.snd_backlog ≡ frames w.dc.snd_backlog ++ kept_now
  pub merged : Merge sent_now kept_now taken

frames-append : (xs ys : List Queued) → frames (xs ++ ys) ≡ frames xs ++ frames ys
frames-append [] ys = refl
frames-append (x ∷ xs) ys = ap (λ zs. x.frame ∷ zs) (frames-append xs ys)

Merge-append {ℓ} :
    {A : Type ℓ} {xs ys zs : List A} (xs' ys' zs' : List A)
    → Merge xs ys zs
    → Merge xs' ys' zs'
    → Merge (xs ++ xs') (ys ++ ys') (zs ++ zs')
Merge-append xs' ys' zs' empty m = m
Merge-append xs' ys' zs' (left x xs ys zs h) m = left x _ _ _ (Merge-append xs' ys' zs' h m)
Merge-append xs' ys' zs' (right y xs ys zs h) m = right y _ _ _ (Merge-append xs' ys' zs' h m)

-- Nothing taken, where queue, backlog and wire may differ in other ways.
nothing_taken :
    (w w' : Writer)
    → w'.wire.sent ≡ w.wire.sent
    → w'.dc.snd_backlog ≡ w.dc.snd_backlog
    → Accounts w w' []
nothing_taken w w' es eb = record {
  sent_now = [];
  kept_now = [];
  sent = es ∙ sym (append-nil w.wire.sent);
  kept = ap frames eb ∙ sym (append-nil (frames w.dc.snd_backlog));
  merged = empty;
}

then_takes :
    (a b c : Writer) (xs ys : List OutFrame)
    → Accounts a b xs
    → Accounts b c ys
    → Accounts a c (xs ++ ys)
then_takes a b c xs ys x y = record {
  sent_now = x.sent_now ++ y.sent_now;
  kept_now = x.kept_now ++ y.kept_now;
  sent = y.sent ∙ ap (λ s. s ++ y.sent_now) x.sent ∙ append_assoc a.wire.sent x.sent_now y.sent_now;
  kept =
      y.kept
      ∙ ap (λ s. s ++ y.kept_now) x.kept
      ∙ append_assoc (frames a.dc.snd_backlog) x.kept_now y.kept_now;
  merged = Merge-append y.sent_now y.kept_now ys x.merged y.merged;
}

clash : {b : Bool} → b ≡ true → b ≡ false → ⊥
clash e g = cc

module _ (sends_ok : List OutFrame → OutFrame → Bool) where
  to_backlog-Accounts :
      (q : Queued) (w : Writer) → Accounts w (to_backlog sends_ok q w) (q.frame ∷ [])
  to_backlog-Accounts q w = record {
    sent_now = [];
    kept_now = q.frame ∷ [];
    sent = sym (append-nil w.wire.sent);
    kept = frames-append w.dc.snd_backlog (q ∷ []);
    merged = right q.frame [] [] [] empty;
  }

  -- What `drain_one` may come to.
  record One (q : Queued) (w : Writer) (r : Writer × Bool) : Type 0 where
    accounts : Accounts w r.0 (q.frame ∷ [])
    same_queue : r.0.dc.snd_queue ≡ w.dc.snd_queue
    same_connected : r.0.wire.connected ≡ w.wire.connected

  abbrev written : Queued → Writer → Writer
  written q w = record w {
    dc = run_hook q.hook w.dc;
    wire = record {
      connected = w.wire.connected;
      sent = w.wire.sent ++ (q.frame ∷ []);
      flushed = w.wire.flushed;
    };
  }

  hook_backlog :
      (q : Queued) (dc : DuplexConnection) → (run_hook q.hook dc).snd_backlog ≡ dc.snd_backlog
  hook_backlog q dc = ap (λ s. s.snd_backlog) (run_hook_lem q.hook dc)

  hook_queue : (q : Queued) (dc : DuplexConnection) → (run_hook q.hook dc).snd_queue ≡ dc.snd_queue
  hook_queue q dc = ap (λ s. s.snd_queue) (run_hook_lem q.hook dc)

  drain_one-One : (q : Queued) (w : Writer) → One q w (drain_one sends_ok q w)
  unfolding drain_one send
  drain_one-One q w = by_wire w.wire.connected (sends_ok w.wire.sent q.frame)
    where
      result : Bool → Writer × Bool
      result ok = if ok then (written q w, true) else (w, false)

      kept_back : One q w (to_backlog sends_ok q w, false)
      kept_back = record {
        accounts = to_backlog-Accounts q w;
        same_queue = refl;
        same_connected = refl;
      }

      by_wire :
          (c ok : Bool)
          → One q w (
              if c
              then kept_if sends_ok (result ok).1 q (result ok).0
              else (to_backlog sends_ok q w, false))
      by_wire false ok = kept_back
      by_wire true false = kept_back
      by_wire true true = record {
        accounts = record {
          sent_now = q.frame ∷ [];
          kept_now = [];
          sent = refl;
          kept = ap frames (hook_backlog q w.dc) ∙ sym (append-nil (frames w.dc.snd_backlog));
          merged = left q.frame [] [] [] empty;
        };
        same_queue = hook_queue q w.dc;
        same_connected = refl;
      }

  -- Rounds that take from the queue alone.
  unfoldable pub rounds : ℕ → List Ready
  rounds zero = []
  rounds (suc n) = queue_ready ∷ rounds n

  pub record Drained (w : Writer) (r : Writer × Bool) : Type 0 where
    pub taken : List OutFrame
    pub from_queue : frames w.dc.snd_queue ≡ taken ++ frames r.0.dc.snd_queue
    pub accounts : Accounts w r.0 taken

  -- One round, and what is drained after it.
  round-Drained :
      (go : Bool → Writer → Writer × Bool) (w : Writer)
      → ((ok : Bool) (w : Writer) → Drained w (go ok w))
      → (l : List Queued) → w.dc.snd_queue ≡ l
      → Drained w (by_next sends_ok go (take_queued sends_ok l w) w)
  round-Drained go w h [] e = record {
    taken = [];
    from_queue = refl;
    accounts = nothing_taken w w refl refl;
  }
  round-Drained go w h (q ∷ qs) e =
      let w1 : Writer = record w { dc = record w.dc { snd_queue = qs } } in
      let one = drain_one-One q w1 in
      let r = drain_one sends_ok q w1 in
      let later = h r.1 r.0 in
      record {
        taken = q.frame ∷ later.taken;
        from_queue =
            ap frames e ∙ ap (λ x. q.frame ∷ x) (sym (ap frames one.same_queue) ∙ later.from_queue);
        accounts =
            then_takes w r.0 (go r.1 r.0).0 (q.frame ∷ []) later.taken
              (record {
                sent_now = one.accounts.sent_now;
                kept_now = one.accounts.kept_now;
                sent = one.accounts.sent;
                kept = one.accounts.kept;
                merged = one.accounts.merged;
              })
              later.accounts;
      }

  ended-Drained :
      (w : Writer) (b : Bool)
      → Drained w (if◌then◌else◌ {A = Writer × Bool} b (flush sends_ok w, true) (w, true))
  ended-Drained w true = record {
    taken = [];
    from_queue = refl;
    accounts = nothing_taken w (flush sends_ok w) refl refl;
  }
  ended-Drained w false = record {
    taken = [];
    from_queue = refl;
    accounts = nothing_taken w w refl refl;
  }

  -- Rounds of drain that take from the queue alone, with a transport or without and whatever its
  -- sends do, take the first frames of the queue, and each frame taken is either sent or put
  -- behind the backlog, the sent ones in order and the kept ones in order.
  pub drain_rounds-Drained :
      (n : ℕ) (flushes : Bool) (w : Writer) → Drained w (drain_rounds sends_ok (rounds n) flushes w)
  unfolding drain_rounds rounds
  drain_rounds-Drained zero flushes w = ended-Drained w flushes
  drain_rounds-Drained (suc n) flushes w =
      round-Drained (λ ok. drain_rounds sends_ok (rounds n) (flushes || ok)) w
        (λ ok w. drain_rounds-Drained n (flushes || ok) w) w.dc.snd_queue refl

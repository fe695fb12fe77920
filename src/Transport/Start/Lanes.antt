-- ===== src/Transport/Start/Lanes.antt =====
-- One goroutine of loopReadBuffer over its buffer: what it has taken and not dispatched, and that it ends.
use rsocket_go.Base.{ℕ, ◌*◌, ◌<◌, ◌+◌, length, ◌≡◌, refl, ap, arith, ◌∙◌, sym}
use rsocket_go.Base.{Bool, true, false, List, [], ◌∷◌, ◌++◌, append_assoc, Option, none, some}
use rsocket_go.Base.{inl, inr, ◌⊎◌}
use mathlib.Core.Path.{subst}
use rsocket_go.Base.Int.{ℤ, pos, negsuc}
use rsocket_go.Base.Outcome.{done}
use rsocket_go.Buffers.Unbounded.{Unbounded, put, load, dispose, receive}
use rsocket_go.Buffers.Unbounded.Fifo.{in_slot, contents, IsValid, buffer, bool_clash, list_clash}
use rsocket_go.Transport.Start.{
  Loop, waiting, handling, loading, ended, Lane, LaneStep, takes, handles, loads, leaves,
}

done_eq {κ} : {B : Type κ} {x y : B} → done x ≡ done y → x ≡ y
done_eq e = cc

module _ {ℓ} {F : Type ℓ} where
  abbrev pub held : Loop F → List F
  held waiting = []
  held (handling x) = x ∷ []
  held loading = []
  held ended = []

  -- The frames that a lane has taken and not yet dispatched.
  abbrev pub pending : Unbounded F → Loop F → List F
  pending b l = held l ++ contents b

  -- A goroutine that waits misses nothing, since what it waits for is the slot; one that has left has
  -- left nothing.
  pub record Sound (b : Unbounded F) (l : Loop F) : Type ℓ where
    pub valid : IsValid b
    pub waits : l ≡ waiting → b.slot ≡ none → b.backlog ≡ []
    pub gone : l ≡ ended → (contents b ≡ []) × (b.disposed ≡ true)
    -- After Dispose it does not wait for ever.
    pub shut : b.disposed ≡ true → l ≡ waiting → b.slot ≡ none → b.closed ≡ true

  pub record Put (b : Unbounded F) (l : Loop F) (t : F) (r : Unbounded F × Bool) : Type ℓ where
    pub sound : Sound r.0 l
    pub stored : contents r.0 ≡ contents b ++ (t ∷ [])
    pub open_still : r.0.disposed ≡ false

  IsValid-open :
      (slot : Option F) (backlog : List F) (disposed : Bool)
      → IsValid (buffer slot false backlog disposed)
  IsValid-open slot backlog disposed = record {
    closed_empty = λ e. absurd (bool_clash e);
    closed_disposed = λ e. absurd (bool_clash e);
  }

  filled : (x : F) → ◌≡◌ {A = Option F} (some x) none → ⊥
  filled x e = cc

  pub not_ended : ◌≡◌ {A = Loop F} waiting ended → ⊥
  not_ended e = cc

  Sound-open :
      (slot : Option F) (backlog : List F) (l : Loop F)
      → (l ≡ waiting → slot ≡ none → backlog ≡ [])
      → (l ≡ ended → ⊥)
      → Sound (buffer slot false backlog false) l
  Sound-open slot backlog l w g = record {
    valid = IsValid-open slot backlog false;
    waits = w;
    gone = λ e. absurd (g e);
    shut = λ d. absurd (bool_clash d);
  }

  put_open :
      (t : F) (l : Loop F) (slot : Option F) (closed : Bool) (backlog : List F)
      → Sound (buffer slot closed backlog false) l
      → (r : Unbounded F × Bool) × (put (buffer slot closed backlog false) t ≡ done r)
        × Put (buffer slot closed backlog false) l t r
  unfolding put
  put_open t l slot true backlog s = absurd (bool_clash (s.valid.closed_disposed refl))
  put_open t l slot false (x ∷ xs) s = (
    (buffer slot false (x ∷ (xs ++ (t ∷ []))) false, true),
    refl,
    record {
      sound =
          Sound-open slot (x ∷ (xs ++ (t ∷ []))) l (λ e n. absurd (list_clash (s.waits e n)))
            (λ e. bool_clash (s.gone e).1);
      stored = sym (append_assoc (in_slot slot) (x ∷ xs) (t ∷ []));
      open_still = refl;
    },
  )
  put_open t l none false [] s = (
    (buffer (some t) false [] false, true),
    refl,
    record {
      sound = Sound-open (some t) [] l (λ e n. refl) (λ e. bool_clash (s.gone e).1);
      stored = refl;
      open_still = refl;
    },
  )
  put_open t l (some x) false [] s = (
    (buffer (some x) false (t ∷ []) false, true),
    refl,
    record {
      sound =
          Sound-open (some x) (t ∷ []) l (λ e n. absurd (filled x n))
            (λ e. bool_clash (s.gone e).1);
      stored = refl;
      open_still = refl;
    },
  )

  pub put-Put :
      (b : Unbounded F) (l : Loop F) (t : F) (r : Unbounded F × Bool)
      → Sound b l
      → b.disposed ≡ false
      → put b t ≡ done r
      → Put b l t r
  put-Put b l t r s o e =
      let (r', e', p) = at_open b.disposed o s in subst (Put b l t) (done_eq (sym e' ∙ e)) p
    where
      at_open :
          (disposed : Bool)
          → disposed ≡ false
          → Sound (buffer b.slot b.closed b.backlog disposed) l
          → (r : Unbounded F × Bool) × (put (buffer b.slot b.closed b.backlog disposed) t ≡ done r)
            × Put (buffer b.slot b.closed b.backlog disposed) l t r
      at_open true clash s = absurd (bool_clash (sym clash))
      at_open false o s = put_open t l b.slot b.closed b.backlog s

  -- A step of a lane.
  pub record Moved (b : Unbounded F) (l : Loop F) (out : List F) (m : Lane F) : Type ℓ where
    pub sound : Sound m.buffer m.loop
    pub kept : pending b l ≡ out ++ pending m.buffer m.loop
    pub same_disposed : m.buffer.disposed ≡ b.disposed

  load_moves :
      (slot : Option F) (closed : Bool) (backlog : List F) (disposed : Bool)
      → Sound (buffer slot closed backlog disposed) loading
      → (r : Unbounded F × ℤ) × (load (buffer slot closed backlog disposed) ≡ done r)
        × Moved
            (buffer slot closed backlog disposed)
            loading
            []
            (record { buffer = r.0; loop = waiting })
  unfolding load
  load_moves slot closed [] true s = (
    (buffer slot true [] true, negsuc 0),
    refl,
    record {
      sound = record {
        valid = record { closed_empty = λ e. refl; closed_disposed = λ e. refl };
        waits = λ e n. refl;
        gone = λ e. absurd (not_ended e);
        shut = λ d e n. refl;
      };
      kept = refl;
      same_disposed = refl;
    },
  )
  load_moves slot closed [] false s = (
    (buffer slot closed [] false, pos 0),
    refl,
    record {
      sound = record {
        valid = s.valid;
        waits = λ e n. refl;
        gone = λ e. absurd (not_ended e);
        shut = λ d. absurd (bool_clash d);
      };
      kept = refl;
      same_disposed = refl;
    },
  )
  load_moves slot true (x ∷ xs) disposed s = absurd (list_clash (s.valid.closed_empty refl))
  load_moves none false (x ∷ xs) disposed s = (
    (buffer (some x) false xs disposed, pos 1),
    refl,
    record {
      sound = record {
        valid = IsValid-open (some x) xs disposed;
        waits = λ e n. absurd (filled x n);
        gone = λ e. absurd (not_ended e);
        shut = λ d e n. absurd (filled x n);
      };
      kept = refl;
      same_disposed = refl;
    },
  )
  load_moves (some y) false (x ∷ xs) disposed s = (
    (buffer (some y) false (x ∷ xs) disposed, pos 0),
    refl,
    record {
      sound = record {
        valid = s.valid;
        waits = λ e n. absurd (filled y n);
        gone = λ e. absurd (not_ended e);
        shut = λ d e n. absurd (filled y n);
      };
      kept = refl;
      same_disposed = refl;
    },
  )

  taken : (x : F) (b : Unbounded F) → b.slot ≡ some x → contents b ≡ x ∷ b.backlog
  taken x b e = ap (λ o. in_slot o ++ b.backlog) e

  pub LaneStep-Moved :
      (b : Unbounded F) (l : Loop F) (m : Lane F) (out : List F)
      → LaneStep F b l m out
      → Sound b l
      → Moved b l out m
  unfolding receive
  LaneStep-Moved b l m out (takes x e) s = record {
    sound = record {
      valid = record {
        closed_empty = s.valid.closed_empty;
        closed_disposed = s.valid.closed_disposed;
      };
      waits = λ q n. cc;
      gone = λ q. cc;
      shut = λ d q n. cc;
    };
    kept = taken x b e;
    same_disposed = refl;
  }
  LaneStep-Moved b l m out (handles x) s = record {
    sound = record { valid = s.valid; waits = λ q n. cc; gone = λ q. cc; shut = λ d q n. cc };
    kept = refl;
    same_disposed = refl;
  }
  LaneStep-Moved b l m out (loads b' n e) s =
      let (r, e', p) = load_moves b.slot b.closed b.backlog b.disposed s in
      subst (λ q. Moved b loading [] (record { buffer = q.0; loop = waiting }))
        (done_eq (sym e' ∙ e)) p
  LaneStep-Moved b l m out (leaves e c) s = record {
    sound = record {
      valid = s.valid;
      waits = λ q n. cc;
      gone = λ q.
          (ap (λ o. in_slot o ++ b.backlog) e ∙ s.valid.closed_empty c, s.valid.closed_disposed c);
      shut = λ d q n. cc;
    };
    kept = refl;
    same_disposed = refl;
  }

  -- After Dispose a lane keeps what it has.
  pub dispose-Sound :
      (b : Unbounded F) (l : Loop F)
      → Sound b l
      → Sound (dispose b) l × (contents (dispose b) ≡ contents b)
  unfolding dispose
  dispose-Sound b l s = by_backlog b.slot b.closed b.backlog b.disposed s
    where
      by_backlog :
          (slot : Option F) (closed : Bool) (backlog : List F) (disposed : Bool)
          → Sound (buffer slot closed backlog disposed) l
          → Sound (dispose (buffer slot closed backlog disposed)) l
            × (contents (dispose (buffer slot closed backlog disposed))
                ≡ contents (buffer slot closed backlog disposed))
      by_backlog slot closed [] disposed s = (
        record {
          valid = record { closed_empty = λ e. refl; closed_disposed = λ e. refl };
          waits = s.waits;
          gone = λ e. ((s.gone e).0, refl);
          shut = λ d e n. refl;
        },
        refl,
      )
      by_backlog slot closed (x ∷ xs) disposed s = (
        record {
          valid = record { closed_empty = s.valid.closed_empty; closed_disposed = λ e. refl };
          waits = s.waits;
          gone = λ e. ((s.gone e).0, refl);
          shut = λ d e n. absurd (list_clash (s.waits e n));
        },
        refl,
      )

  pub disposed_dispose : (b : Unbounded F) → (dispose b).disposed ≡ true
  unfolding dispose
  disposed_dispose b = by_backlog b.backlog
    where
      by_backlog :
          (backlog : List F) → (dispose (buffer b.slot b.closed backlog b.disposed)).disposed ≡ true
      by_backlog [] = refl
      by_backlog (x ∷ xs) = refl

  pub nothing_left : {b : Unbounded F} {l : Loop F} → Sound b l → l ≡ ended → pending b l ≡ []
  nothing_left {b} {l} s e = ap (λ x. held x ++ contents b) e ∙ (s.gone e).0

  -- The steps that are left to a lane whose buffer gets no more frames.
  abbrev pub steps_left : Unbounded F → Loop F → ℕ
  steps_left b waiting = 3 * length (contents b) + 1
  steps_left b (handling x) = 3 * length (contents b) + 3
  steps_left b loading = 3 * length (contents b) + 2
  steps_left b ended = 0

  pub LaneStep-steps_left :
      (b : Unbounded F) (l : Loop F) (m : Lane F) (out : List F)
      → LaneStep F b l m out
      → Sound b l
      → steps_left m.buffer m.loop < steps_left b l
  unfolding receive
  LaneStep-steps_left b l m out (takes x e) s = omega (arith, ap length (taken x b e))
  LaneStep-steps_left b l m out (handles x) s = omega arith
  LaneStep-steps_left b l m out (loads b' n e) s =
      omega (arith, ap length (LaneStep-Moved b loading _ [] (loads b' n e) s).kept)
  LaneStep-steps_left b l m out (leaves e c) s = omega arith

  -- A lane whose buffer is disposed has a step, until it has ended.
  pub Lane-steps :
      (b : Unbounded F) (l : Loop F)
      → Sound b l
      → b.disposed ≡ true
      → (l ≡ ended) ⊎ ((m : Lane F) × (out : List F) × LaneStep F b l m out)
  Lane-steps b ended s d = inl refl
  Lane-steps b (handling x) s d = inr (_, _, handles x)
  Lane-steps b loading s d =
      let (r, e, p) = load_moves b.slot b.closed b.backlog b.disposed s in
      inr (_, _, loads r.0 r.1 e)
  Lane-steps b waiting s d = by_slot b.slot refl
    where
      by_slot :
          (o : Option F)
          → b.slot ≡ o
          → (◌≡◌ {A = Loop F} waiting ended)
            ⊎ ((m : Lane F) × (out : List F) × LaneStep F b waiting m out)
      by_slot (some x) e = inr (_, _, takes x e)
      by_slot none e = inr (_, _, leaves e (s.shut d refl e))

-- ===== src/Buffers/Unbounded/Fifo.antt =====
-- The unbounded buffer is a queue: over any calls the values that it took come out in order, each once,
-- and what has not come out is in it.
use rsocket_go.Base.{◌≡◌, refl, ap, ◌∙◌, sym, ◌⊎◌, inl, inr}
use rsocket_go.Base.{
  Bool, true, false, List, [], ◌∷◌, ◌++◌, append-nil, append_assoc, Option, none, some,
}
use rsocket_go.Base.{Bool-cases}
use rsocket_go.Base.Outcome.{Outcome, done, ◌>>=◌}
use rsocket_go.Buffers.Unbounded.{Unbounded, new_unbounded, put, load, dispose, receive}

pub data Call {ℓ} (A : Type ℓ) : Type ℓ where
  puts : A → Call A
  loads disposes receives : Call A

-- What a call gives: the buffer, the values that it accepted, and the values that it handed out.
pub record Effect {ℓ} (A : Type ℓ) : Type ℓ where
  pub after : Unbounded A
  pub accepted : List A
  pub out : List A

pub bool_clash : false ≡ true → ⊥
bool_clash e = cc

module _ {ℓ} {A : Type ℓ} where
  pub list_clash : {x : A} {xs : List A} → x ∷ xs ≡ [] → ⊥
  list_clash e = cc

  abbrev pub in_slot : Option A → List A
  in_slot none = []
  in_slot (some x) = x ∷ []

  -- The values in the buffer, in order.
  abbrev pub contents : Unbounded A → List A
  contents b = in_slot b.slot ++ b.backlog

  -- The channel is closed only after the last value of the backlog has gone to it.
  pub record IsValid (b : Unbounded A) : Type ℓ where
    pub closed_empty : b.closed ≡ true → b.backlog ≡ []
    pub closed_disposed : b.closed ≡ true → b.disposed ≡ true

  abbrev accepted_put : A → Unbounded A × Bool → Effect A
  accepted_put t (b, true) = record { after = b; accepted = t ∷ []; out = [] }
  accepted_put t (b, false) = record { after = b; accepted = []; out = [] }

  unfoldable pub call : Call A → Unbounded A → Outcome (Effect A)
  call (puts t) b = put b t >>= λ r. done (accepted_put t r)
  call loads b = load b >>= λ r. done (record { after = r.0; accepted = []; out = [] })
  call disposes b = done (record { after = dispose b; accepted = []; out = [] })
  call receives b =
      done (record { after = (receive b).0; accepted = []; out = in_slot (receive b).1 })

  Good : Unbounded A → Effect A → Type ℓ
  Good b e = IsValid e.after × (contents b ++ e.accepted ≡ e.out ++ contents e.after)

  abbrev Fine : Call A → Unbounded A → Type ℓ
  Fine c b = (e : Effect A) × (call c b ≡ done e) × Good b e

  abbrev pub buffer : Option A → Bool → List A → Bool → Unbounded A
  buffer slot closed backlog disposed = record {
    slot = slot;
    closed = closed;
    backlog = backlog;
    disposed = disposed;
  }

  puts-Fine :
      (t : A) (slot : Option A) (closed : Bool) (backlog : List A) (disposed : Bool)
      → IsValid (buffer slot closed backlog disposed)
      → Fine (puts t) (buffer slot closed backlog disposed)
  unfolding call put Good
  puts-Fine t slot closed backlog true h = (_, refl, (h, append-nil _))
  puts-Fine t slot closed (x ∷ xs) false h = (
    _,
    refl,
    (
      record {
        closed_empty = λ e. absurd (bool_clash (h.closed_disposed e));
        closed_disposed = h.closed_disposed;
      },
      append_assoc (in_slot slot) (x ∷ xs) (t ∷ []),
    ),
  )
  puts-Fine t slot true [] false h = absurd (bool_clash (h.closed_disposed refl))
  puts-Fine t none false [] false h =
      (_, refl, (record { closed_empty = λ e. refl; closed_disposed = h.closed_disposed }, refl))
  puts-Fine t (some x) false [] false h = (
    _,
    refl,
    (
      record { closed_empty = λ e. absurd (bool_clash e); closed_disposed = h.closed_disposed },
      refl,
    ),
  )

  loads-Fine :
      (slot : Option A) (closed : Bool) (backlog : List A) (disposed : Bool)
      → IsValid (buffer slot closed backlog disposed)
      → Fine loads (buffer slot closed backlog disposed)
  unfolding call load Good
  loads-Fine slot closed [] true h =
      (_, refl, (record { closed_empty = λ e. refl; closed_disposed = λ e. refl }, append-nil _))
  loads-Fine slot closed [] false h = (_, refl, (h, append-nil _))
  loads-Fine slot true (x ∷ xs) disposed h = absurd (list_clash (h.closed_empty refl))
  loads-Fine none false (x ∷ xs) disposed h = (
    _,
    refl,
    (
      record {
        closed_empty = λ e. absurd (bool_clash e);
        closed_disposed = λ e. absurd (bool_clash e);
      },
      append-nil (x ∷ xs),
    ),
  )
  loads-Fine (some y) false (x ∷ xs) disposed h = (_, refl, (h, append-nil _))

  disposes-Fine :
      (slot : Option A) (closed : Bool) (backlog : List A) (disposed : Bool)
      → IsValid (buffer slot closed backlog disposed)
      → Fine disposes (buffer slot closed backlog disposed)
  unfolding call dispose Good
  disposes-Fine slot closed [] disposed h =
      (_, refl, (record { closed_empty = λ e. refl; closed_disposed = λ e. refl }, append-nil _))
  disposes-Fine slot closed (x ∷ xs) disposed h = (
    _,
    refl,
    (record { closed_empty = h.closed_empty; closed_disposed = λ e. refl }, append-nil _),
  )

  receives-Fine :
      (slot : Option A) (closed : Bool) (backlog : List A) (disposed : Bool)
      → IsValid (buffer slot closed backlog disposed)
      → Fine receives (buffer slot closed backlog disposed)
  unfolding call receive Good
  receives-Fine slot closed backlog disposed h = (
    _,
    refl,
    (record { closed_empty = h.closed_empty; closed_disposed = h.closed_disposed }, append-nil _),
  )

  call-Fine : (c : Call A) (b : Unbounded A) → IsValid b → Fine c b
  call-Fine (puts t) b h = puts-Fine t b.slot b.closed b.backlog b.disposed h
  call-Fine loads b h = loads-Fine b.slot b.closed b.backlog b.disposed h
  call-Fine disposes b h = disposes-Fine b.slot b.closed b.backlog b.disposed h
  call-Fine receives b h = receives-Fine b.slot b.closed b.backlog b.disposed h

  abbrev then_run : Effect A → Effect A → Effect A
  then_run e f = record {
    after = f.after;
    accepted = e.accepted ++ f.accepted;
    out = e.out ++ f.out;
  }

  unfoldable pub run : List (Call A) → Unbounded A → Outcome (Effect A)
  run [] b = done (record { after = b; accepted = []; out = [] })
  run (c ∷ cs) b = do e ← call c b; f ← run cs e.after; done (then_run e f)

  run-Good :
      (cs : List (Call A)) (b : Unbounded A)
      → IsValid b
      → (e : Effect A) × (run cs b ≡ done e) × Good b e
  unfolding run Good
  run-Good [] b h = (_, refl, (h, append-nil (contents b)))
  run-Good (c ∷ cs) b h =
      let (e, ee, (he, fifo)) = call-Fine c b h in
      let (f, ef, (hf, rest)) = run-Good cs e.after he in
      (
        then_run e f,
        rw (ee, ef) refl,
        (
          hf,
          sym (append_assoc (contents b) e.accepted f.accepted)
              ∙ ap (λ x. x ++ f.accepted) fifo
              ∙ append_assoc e.out (contents e.after) f.accepted
              ∙ ap (λ x. e.out ++ x) rest
              ∙ sym (append_assoc e.out f.out (contents f.after)),
        ),
      )

  -- Any calls of Put, Load, the receipt of a value and Dispose on a new unbounded buffer run
  -- without a panic, and the values that Put took are those received, followed by those still
  -- held, in order; if the buffer's channel is closed, nothing is left behind it and the buffer
  -- was disposed.
  pub run-fifo :
      (cs : List (Call A))
      → (e : Effect A) × (run cs new_unbounded ≡ done e)
        × (e.accepted ≡ e.out ++ contents e.after)
        × ((e.after.closed ≡ false) ⊎ ((e.after.backlog ≡ []) × (e.after.disposed ≡ true)))
  unfolding Good
  run-fifo cs =
      let (e, ee, (he, fifo)) =
        run-Good cs new_unbounded
          (record { closed_empty = λ c. refl; closed_disposed = λ c. absurd (bool_clash c) }) in
      (
        e,
        ee,
        fifo,
        elim (Bool-cases e.after.closed) [
          | inl c ↦ inr (he.closed_empty c, he.closed_disposed c)
          | inr c ↦ inl c
        ],
      )

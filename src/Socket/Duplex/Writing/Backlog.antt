-- ===== src/Socket/Duplex/Writing/Backlog.antt =====
-- What drainBacklog makes of the backlog.
use rsocket_go.Base.{
  ◌+◌, ◌≡◌, refl, arith, ap, ◌∙◌, sym, Bool, true, false, List, [], ◌∷◌, ◌++◌, append-nil,
  append_assoc,
}
use rsocket_go.Base.{◌⊎◌, if◌then◌else◌, nonempty, Bool-cases, inl, inr}
use rsocket_go.Socket.Duplex.{OutFrame, Queued, DuplexConnection, run_hook}
use rsocket_go.Socket.Duplex.Closing.Order.{
  events_of, adds, adds-nil, adds-adds, done_events, hook_events, run_hook_lem,
}
use rsocket_go.Socket.Duplex.Writing.{Writer, send, resend, drain_all, flush, drain_backlog}
use rsocket_go.Socket.Duplex.Writing.Accounts.{frames}

module _ (sends_ok : List OutFrame → OutFrame → Bool) where
  -- What a transport takes of the frames that it is offered, after those that it has.
  unfoldable pub taken : List OutFrame → List OutFrame → List OutFrame
  taken wire [] = []
  taken wire (f ∷ fs) = if sends_ok wire f then f ∷ taken (wire ++ (f ∷ [])) fs else taken wire fs

  -- All of `qs` are ended, in order; those that the transport took are behind those it had.
  abbrev offered : List Queued → Writer → Writer
  offered qs w = record w {
    dc = adds (done_events qs) w.dc;
    wire = record w.wire { sent = w.wire.sent ++ taken w.wire.sent (frames qs) };
  }

  ended_first :
      (q : Queued) (qs : List Queued) (dc : DuplexConnection)
      → adds (done_events qs) (run_hook q.hook dc) ≡ adds (done_events (q ∷ qs)) dc
  unfolding events_of
  ended_first q qs dc =
      ap (adds (done_events qs)) (run_hook_lem q.hook dc)
      ∙ adds-adds (hook_events q.hook) (done_events qs) dc

  resend_lem : (qs : List Queued) (w : Writer) → resend sends_ok qs w ≡ offered qs w
  unfolding resend send taken events_of
  resend_lem [] w =
      ap (λ dc. record w { dc = dc }) (adds-nil w.dc)
      ∙ ap (λ x. record { dc = adds [] w.dc; wire = record w.wire { sent = x } })
          (sym (append-nil w.wire.sent))
  resend_lem (q ∷ qs) w = elim (Bool-cases (sends_ok w.wire.sent q.frame)) [
    | inl e ↦
        let wire = w.wire.sent ++ (q.frame ∷ []) in
        rw e (
          resend_lem qs (record { dc = run_hook q.hook w.dc; wire = record w.wire { sent = wire } })
          ∙ ap
              (λ dc. record {
                dc = dc;
                wire = record w.wire { sent = wire ++ taken wire (frames qs) };
              })
              (ended_first q qs w.dc)
          ∙ ap
              (λ x. record {
                dc = adds (done_events (q ∷ qs)) w.dc;
                wire = record w.wire { sent = x };
              })
              (append_assoc w.wire.sent (q.frame ∷ []) (taken wire (frames qs))))
    | inr e ↦ rw e (
        resend_lem qs (record w { dc = run_hook q.hook w.dc })
        ∙ ap
            (λ dc. record {
              dc = dc;
              wire = record w.wire { sent = w.wire.sent ++ taken w.wire.sent (frames qs) };
            })
            (ended_first q qs w.dc))
  ]

  abbrev holding : List Queued → Writer → Writer
  holding l w = record w { dc = record w.dc { snd_backlog = l } }

  abbrev all_ended : List Queued → Writer → Writer
  all_ended l w = record {
    dc = record w.dc { snd_backlog = []; events = w.dc.events ++ done_events l };
    wire = record w.wire {
      sent = w.wire.sent ++ taken w.wire.sent (frames l);
      flushed = w.wire.flushed + (if nonempty l then 1 else 0);
    };
  }

  with_transport :
      (l : List Queued) (w : Writer)
      → w.wire.connected ≡ true
      → drain_all sends_ok l (holding l w) ≡ all_ended l w
  unfolding taken events_of
  with_transport [] w c =
      ap (λ dc. record w { dc = record dc { snd_backlog = [] } }) (adds-nil w.dc)
      ∙ ap (λ x. record (all_ended [] w) { wire = record w.wire { sent = x } })
          (sym (append-nil w.wire.sent))
      ∙ ap (λ x. record (all_ended [] w) { wire = record (all_ended [] w).wire { flushed = x } })
          (omega arith)
  with_transport (q ∷ qs) w c =
      ap (λ b. if b then flush sends_ok (resend sends_ok (q ∷ qs) (holding [] w)) else holding [] w)
        c
      ∙ ap (flush sends_ok) (resend_lem (q ∷ qs) (holding [] w))

  with_none :
      (l : List Queued) (w : Writer)
      → w.wire.connected ≡ false
      → drain_all sends_ok l (holding l w) ≡ holding [] w
  with_none [] w c = refl
  with_none (q ∷ qs) w c = rw c refl

  -- With a transport drainBacklog offers it each frame of the backlog in order: those that it
  -- takes, going by what it has taken before, are sent in order, every frame is ended once, in
  -- order, whether it was sent or not, the backlog is empty and the transport is flushed once if
  -- there was a frame. With no transport the backlog is emptied and nothing else changes: its
  -- frames are neither sent nor ended.
  pub drain_backlog_lem :
      (w : Writer)
      → ((w.wire.connected ≡ true)
          × (drain_backlog sends_ok w ≡ record {
            dc = record w.dc {
              snd_backlog = [];
              events = w.dc.events ++ done_events w.dc.snd_backlog;
            };
            wire = record w.wire {
              sent = w.wire.sent ++ taken w.wire.sent (frames w.dc.snd_backlog);
              flushed = w.wire.flushed + (if nonempty w.dc.snd_backlog then 1 else 0);
            };
          }))
        ⊎ ((w.wire.connected ≡ false)
            × (drain_backlog sends_ok w ≡ record w { dc = record w.dc { snd_backlog = [] } }))
  unfolding drain_backlog
  drain_backlog_lem w = elim (Bool-cases w.wire.connected) [
    | inl c ↦ inl (c, with_transport w.dc.snd_backlog w c)
    | inr c ↦ inr (c, with_none w.dc.snd_backlog w c)
  ]

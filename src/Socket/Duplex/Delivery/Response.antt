-- ===== src/Socket/Duplex/Delivery/Response.antt =====
-- The frames of sendPayload, as their receiver takes them.
use rsocket_go.Base.{ℕ, ◌≡◌, refl, ap, ◌∙◌, sym, arith, List, [], ◌∷◌, ◌++◌}
use rsocket_go.Base.{
  Bool, true, false, Option, none, some, map, if◌then◌else◌, Bool-cases, inl, inr,
}
use rsocket_go.Base.{nonempty}
use mathlib.Core.Path.{subst}
use rsocket_go.BigEndian.{Bytes}
use rsocket_go.Core.Flag
use rsocket_go.Core.FrameType
use rsocket_go.Core.Types.{check, IsFlag}
use rsocket_go.Framing.Parts.{mark_metadata, calc_payload_frame_size}
use rsocket_go.Fragmentation.Splitter.{SplitResult, split_skip, is_valid_fragment}
use rsocket_go.Fragmentation.Splitter.Correct.{Splits, split_skip-Splits}
use rsocket_go.Fragmentation.Joiner.Reassembly.{AllCarry}
use rsocket_go.Socket.Duplex.{
  payload_frame, Hook, Queued, Payload, Responder, DuplexConnection, send_frame, should_split,
}
use rsocket_go.Socket.Duplex.Sending.{metadata_bytes, release_hook, hooked, send_each, and_sends}
use rsocket_go.Socket.Duplex.Wire.{fragment_of}
use rsocket_go.Socket.Duplex.Delivery.{receive_all-payload}
use rsocket_go.Socket.Duplex.Delivery.Flags.{
  fragment, fragment-Carries, fragments-AllCarry, uncut, uncut-Splits, uncut-Carries,
}
use rsocket_go.Fragmentation.Splitter.{split_flag, split}
use rsocket_go.Socket.Duplex.Sending.{sends, first_payload_flag, later_payload_flag, payload_frames}
use rsocket_go.Socket.Duplex.Delivery.Request.{
  read, later_fragments, later_fragments-IsPayload, send_each-open, Requested,
}
use rsocket_go.Socket.Duplex.Delivery.PayloadFlags.{
  PayloadKind, next_only, complete_only, next_and_complete, flags, first_flag, later_flag,
  FirstFlag, first_flag-Keeps, later_flag-Keeps, first_flag-FirstFlag, marked-FirstFlag,
}

sends-open :
    (q : Queued) (dc : DuplexConnection)
    → dc.closed ≡ false
    → sends q dc ≡ record dc { snd_queue = dc.snd_queue ++ (q ∷ []) }
unfolding send_frame
sends-open q dc e = rw e refl

read-later :
    (sid : ℕ) (k : PayloadKind) (hook : Option Hook) (rs : List SplitResult)
    → map read (
        map
          (hooked
            (λ r. payload_frame sid r.data_bytes r.metadata (later_payload_flag (flags k) r))
            hook)
          rs)
      ≡ map (λ f. some (sid, f)) (later_fragments (later_flag k) rs)
unfolding fragment_of later_payload_flag
read-later sid k hook [] = refl
read-later sid k hook (r ∷ rs) =
    ap (λ x. some (sid, fragment FrameType.payload 0 (later_flag k r.flag) r) ∷ x)
      (read-later sid k hook rs)

-- More than one frame was sent.
abbrev pub is_cut : List Queued → Bool
is_cut [] = false
is_cut (q ∷ qs) = nonempty qs

pub record Paid (r : Responder) (sid : ℕ) (k : PayloadKind) (dc peer : DuplexConnection)
    (m d : Bytes) (result : Option DuplexConnection) : Type 0 where
  pub requested : Requested r sid FrameType.payload 0 dc peer m d result
  pub head_flags : FirstFlag k requested.head.flag (is_cut requested.sent)

nonempty-map {ℓ κ} :
    {A : Type ℓ} {B : Type κ} (f : A → B) (xs : List A) → nonempty (map f xs) ≡ nonempty xs
nonempty-map f [] = refl
nonempty-map f (x ∷ xs) = refl

module _ (r : Responder) (sid : ℕ) (k : PayloadKind) where
  cut :
      (rs : List SplitResult) (hook : Option Hook) (m d : Bytes) (dc peer : DuplexConnection)
      → dc.closed ≡ false
      → peer.fragments sid ≡ none
      → Splits rs m d
      → nonempty rs ≡ true
      → Paid r sid k dc peer m d (some (send_each sends (payload_frames sid (flags k) hook rs) dc))
  unfolding payload_frames Splits AllCarry fragment_of first_payload_flag
  cut [] hook m d dc peer is_open free s ne = cc
  cut (q ∷ rs) hook m d dc peer is_open free s ne =
      let (m', d', em, ed, ef, rest) = s in
      record {
        requested = record {
          sent = payload_frames sid (flags k) hook (q ∷ rs);
          head = fragment FrameType.payload 0 (first_flag k q.flag) q;
          tail = later_fragments (later_flag k) rs;
          queued = ap some (send_each-open sends _ dc sends-open is_open);
          kind = refl;
          count = refl;
          reads =
              ap (λ x. some (sid, fragment FrameType.payload 0 (first_flag k q.flag) q) ∷ x)
                (read-later sid k hook rs);
          delivered =
              receive_all-payload r sid (q ∷ rs)
                (fragment FrameType.payload 0 (first_flag k q.flag) q)
                (later_fragments (later_flag k) rs) m d peer free
                (
                  fragment-Carries FrameType.payload 0 (first_flag k) q (nonempty rs) m m'
                      (first_flag-Keeps k) ef em,
                  fragments-AllCarry FrameType.payload 0 (later_flag k) rs m' d'
                      (later_flag-Keeps k) rest,
                )
                (later_fragments-IsPayload r sid (later_flag k) rs) s;
        };
        head_flags =
            subst (FirstFlag k (mark_metadata q.metadata (first_flag k q.flag)))
              (sym (
                nonempty-map
                  (hooked
                    (λ r.
                      payload_frame sid r.data_bytes r.metadata (later_payload_flag (flags k) r))
                    hook)
                  rs))
              (subst (λ g. FirstFlag k (mark_metadata q.metadata (first_flag k g)) (nonempty rs))
                (sym ef)
                (marked-FirstFlag k (first_flag k (split_flag (nonempty rs) (nonempty m)))
                  (nonempty rs) q.metadata (first_flag-Keeps k (nonempty rs) (nonempty m)).0
                  (first_flag-FirstFlag k (nonempty rs) (nonempty m))));
      }

  flags-bare :
      (k : PayloadKind)
      → IsFlag (flags k)
        × (check (flags k) Flag.metadata ≡ false)
        × (check (flags k) Flag.follow ≡ false)
  unfolding check
  flags-bare next_only = (omega arith, refl, refl)
  flags-bare complete_only = (omega arith, refl, refl)
  flags-bare next_and_complete = (omega arith, refl, refl)

  whole_sent :
      (hook : Option Hook) (m d : Bytes) (dc peer : DuplexConnection)
      → dc.closed ≡ false
      → peer.fragments sid ≡ none
      → Paid r sid k dc peer m d
          (some (sends (record { frame = payload_frame sid d m (flags k); hook = hook }) dc))
  unfolding AllCarry fragment_of
  whole_sent hook m d dc peer is_open free =
      let (fits, meta, follow) = flags-bare k in
      record {
        requested = record {
          sent = record { frame = payload_frame sid d m (flags k); hook = hook } ∷ [];
          head = fragment FrameType.payload 0 (flags k) (uncut d m);
          tail = [];
          queued = ap some (sends-open _ dc is_open);
          kind = refl;
          count = refl;
          reads = refl;
          delivered =
              receive_all-payload r sid (uncut d m ∷ [])
                (fragment FrameType.payload 0 (flags k) (uncut d m)) [] m d peer free
                (uncut-Carries FrameType.payload 0 (flags k) d m fits meta follow, tt) tt
                (uncut-Splits d m);
        };
        head_flags = marked-FirstFlag k (flags k) false m fits (refl, refl);
      }

  pub send_payload-Paid :
      (p : Payload) (dc peer : DuplexConnection)
      → dc.closed ≡ false
      → is_valid_fragment dc.mtu ≡ true
      → peer.fragments sid ≡ none
      → Paid r sid k dc peer (metadata_bytes p) p.data_bytes (
          if should_split (calc_payload_frame_size p.data_bytes (metadata_bytes p)) dc
          then and_sends sends
              (payload_frames sid (flags k) (release_hook p.releasable))
              (split dc.mtu p.data_bytes (metadata_bytes p))
              dc
          else some (
              sends
                (record {
                  frame = payload_frame sid p.data_bytes (metadata_bytes p) (flags k);
                  hook = release_hook p.releasable;
                })
                dc))
  unfolding split
  send_payload-Paid p dc peer is_open valid free =
      elim (Bool-cases (should_split (calc_payload_frame_size d m) dc)) [
        | inl e ↦
            let (rs, es, ne, s) = split_skip-Splits dc.mtu 0 d m valid in
            subst (λ x. Paid r sid k dc peer m d x)
              (sym (
                ap (λ b. if b then on_split (split_skip dc.mtu 0 d m) else single_frame) e
                ∙ ap on_split es))
              (cut rs hook m d dc peer is_open free s ne)
        | inr e ↦
            subst (λ x. Paid r sid k dc peer m d x)
              (sym (ap (λ b. if b then on_split (split_skip dc.mtu 0 d m) else single_frame) e))
              (whole_sent hook m d dc peer is_open free)
      ]
    where
      m : Bytes
      m = metadata_bytes p

      d : Bytes
      d = p.data_bytes

      hook : Option Hook
      hook = release_hook p.releasable

      on_split : Option (List SplitResult) → Option DuplexConnection
      on_split o = and_sends sends (payload_frames sid (flags k) hook) o dc

      single_frame : Option DuplexConnection
      single_frame =
          some (sends (record { frame = payload_frame sid d m (flags k); hook = hook }) dc)

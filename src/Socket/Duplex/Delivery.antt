-- ===== src/Socket/Duplex/Delivery.antt =====
-- From one connection to the other: the frames that a request or a response is cut into, as the handlers
-- of the receiver take them.
pub mod Flags
pub mod Request
pub mod Calls
pub mod PayloadFlags
pub mod Response
pub mod Payloads
pub mod Stream
use rsocket_go.Base.{
  ℕ, ◌≡◌, refl, ap, ◌∙◌, sym, List, [], ◌∷◌, ◌++◌, append_assoc, map, All, not, Option, none, some,
}
use rsocket_go.Base.{
  Bool, true, false, if◌then◌else◌, ◌==◌, nonempty, Bool-cases, inl, inr, ==-refl, ==_iff,
}
use rsocket_go.Base.Outcome.{Outcome, done, panic, ◌>>=◌}
use mathlib.Core.Path.{subst}
use rsocket_go.BigEndian.{Bytes}
use rsocket_go.Core.Flag
use rsocket_go.Core.FrameType
use rsocket_go.Core.Types.{check}
use rsocket_go.Fragmentation.Splitter.{SplitResult}
use rsocket_go.Fragmentation.Splitter.Correct.{Splits}
use rsocket_go.Fragmentation.Joiner.{
  Fragment, Joiner, Whole, single, joined, Fragments, store, new_joiner, push, push_on, dispatch,
  do_fragment,
}
use rsocket_go.Fragmentation.Joiner.Delivery.{store_own, store_other}
use rsocket_go.Fragmentation.Joiner.Reassembly.{Carries, AllCarry, carried_follow}
use rsocket_go.Fragmentation.Joiner.Payloads.{Arrived, single-Arrived, joined-Arrived}
use rsocket_go.Socket.Duplex.{DuplexConnection, Responder}
use rsocket_go.Socket.Duplex.Receiving.{
  first, Handled, handled, with_whole, on_whole, route, on_frame_request_response,
  on_frame_request_stream, on_frame_request_channel, on_frame_fnf, on_frame_payload,
}

-- The handler for each kind of frame with a payload; no other kind gets here.
unfoldable pub receive : Responder → ℕ → Fragment → DuplexConnection → Handled
receive r sid f dc =
    if f.frame_type == FrameType.request_fnf
    then on_frame_fnf sid f dc
    else if f.frame_type == FrameType.request_response
    then on_frame_request_response r sid f dc
    else if f.frame_type == FrameType.request_stream
    then on_frame_request_stream r sid f dc
    else if f.frame_type == FrameType.request_channel
    then on_frame_request_channel r sid f dc
    else on_frame_payload r sid f dc

-- One after another; an error that a handler returns goes to the transport.
abbrev pub settled : Handled → Outcome DuplexConnection
settled h = h >>= λ x. done x.0

unfoldable pub receive_all :
    Responder → List (ℕ × Fragment) → DuplexConnection → Outcome DuplexConnection
receive_all r [] dc = done dc
receive_all r ((sid, f) ∷ fs) dc = receive r sid f dc >>= λ x. receive_all r fs x.0

five {ℓ} :
    {A : Type ℓ} (b1 b2 b3 b4 : Bool) {x1 x2 x3 x4 x5 : A} (y : A)
    → x1 ≡ y
    → x2 ≡ y
    → x3 ≡ y
    → x4 ≡ y
    → x5 ≡ y
    → (if b1 then x1 else if b2 then x2 else if b3 then x3 else if b4 then x4 else x5) ≡ y
five true b2 b3 b4 y e1 e2 e3 e4 e5 = e1
five false true b3 b4 y e1 e2 e3 e4 e5 = e2
five false false true b4 y e1 e2 e3 e4 e5 = e3
five false false false true y e1 e2 e3 e4 e5 = e4
five false false false false y e1 e2 e3 e4 e5 = e5

-- The last of five cases may look at the four tests again.
absorb {ℓ} :
    {A : Type ℓ} (b1 b2 b3 b4 : Bool) {x1 x2 x3 x4 x5 y1 y2 y3 y4 : A} (y5 : A)
    → x1 ≡ y1
    → x2 ≡ y2
    → x3 ≡ y3
    → x4 ≡ y4
    → x5 ≡ (if b1 then y1 else if b2 then y2 else if b3 then y3 else if b4 then y4 else y5)
    → (if b1 then x1 else if b2 then x2 else if b3 then x3 else if b4 then x4 else x5)
      ≡ (if b1 then y1 else if b2 then y2 else if b3 then y3 else if b4 then y4 else y5)
absorb true b2 b3 b4 y5 e1 e2 e3 e4 e5 = e1
absorb false true b3 b4 y5 e1 e2 e3 e4 e5 = e2
absorb false false true b4 y5 e1 e2 e3 e4 e5 = e3
absorb false false false true y5 e1 e2 e3 e4 e5 = e4
absorb false false false false y5 e1 e2 e3 e4 e5 = e5

do_fragment-single :
    (fr : Fragments) (sid : ℕ) (f : Fragment)
    → fr sid ≡ none
    → check f.flag Flag.follow ≡ false
    → do_fragment fr sid f ≡ (fr, some (single f))
unfolding do_fragment dispatch
do_fragment-single fr sid f e c =
    ap (λ o. dispatch o fr sid f) e
    ∙ ap (λ b. if b then (store fr sid (some (new_joiner f)), none) else (fr, some (single f))) c

do_fragment-opens :
    (fr : Fragments) (sid : ℕ) (f : Fragment)
    → fr sid ≡ none
    → check f.flag Flag.follow ≡ true
    → do_fragment fr sid f ≡ (store fr sid (some (f ∷ [])), none)
unfolding do_fragment dispatch new_joiner
do_fragment-opens fr sid f e c =
    ap (λ o. dispatch o fr sid f) e
    ∙ ap (λ b. if b then (store fr sid (some (new_joiner f)), none) else (fr, some (single f))) c

do_fragment-pushes :
    (fr : Fragments) (sid : ℕ) (f : Fragment) (p : Joiner)
    → fr sid ≡ some p
    → check f.flag Flag.follow ≡ true
    → do_fragment fr sid f ≡ (store fr sid (some (p ++ (f ∷ []))), none)
unfolding do_fragment dispatch push push_on
do_fragment-pushes fr sid f p e c =
    ap (λ o. dispatch o fr sid f) e ∙ ap (λ b. push_on (p ++ (f ∷ []), not b) fr sid) c

do_fragment-joins :
    (fr : Fragments) (sid : ℕ) (f : Fragment) (p : Joiner)
    → fr sid ≡ some p
    → check f.flag Flag.follow ≡ false
    → do_fragment fr sid f ≡ (store fr sid none, some (joined (p ++ (f ∷ []))))
unfolding do_fragment dispatch push push_on
do_fragment-joins fr sid f p e c =
    ap (λ o. dispatch o fr sid f) e ∙ ap (λ b. push_on (p ++ (f ∷ []), not b) fr sid) c

module _ (r : Responder) (sid : ℕ) where
  -- What is done once a payload is whole, by its first frame `h`: the connection is as before, its
  -- fragment table with the entries that it had.
  pub record Delivered (h : Fragment) (dc : DuplexConnection) (m d : Bytes)
      (result : Outcome DuplexConnection) : Type 0 where
    pub whole : Whole
    pub table : Fragments
    pub same_table : (k : ℕ) → table k ≡ dc.fragments k
    pub arrived : Arrived whole m d
    pub first_frame : first whole ≡ done h
    pub goes : result ≡ settled (route r sid whole h (record dc { fragments = table }))

  -- A single frame, of any kind, is routed by its type.
  pub receive-single :
      (f : Fragment) (dc : DuplexConnection)
      → dc.fragments sid ≡ none
      → check f.flag Flag.follow ≡ false
      → receive r sid f dc ≡ route r sid (single f) f dc
  unfolding receive route on_frame_fnf on_frame_request_response on_frame_request_stream
      on_frame_request_channel on_frame_payload on_whole first
  receive-single f dc e c = rw (do_fragment-single dc.fragments sid f e c) (
      absorb (f.frame_type == FrameType.request_fnf) (f.frame_type == FrameType.request_response)
        (f.frame_type == FrameType.request_stream) (f.frame_type == FrameType.request_channel) _
        refl refl refl refl refl)

  -- A first frame with others behind it is kept.
  receive-opens :
      (f : Fragment) (dc : DuplexConnection)
      → dc.fragments sid ≡ none
      → check f.flag Flag.follow ≡ true
      → receive r sid f dc
        ≡ handled (record dc { fragments = store dc.fragments sid (some (f ∷ [])) })
  unfolding receive on_frame_fnf on_frame_request_response on_frame_request_stream
      on_frame_request_channel on_frame_payload
  receive-opens f dc e c = rw (do_fragment-opens dc.fragments sid f e c) (
      five (f.frame_type == FrameType.request_fnf) (f.frame_type == FrameType.request_response)
        (f.frame_type == FrameType.request_stream) (f.frame_type == FrameType.request_channel) _
        refl refl refl refl refl)

  receive-payload :
      (f : Fragment) (dc : DuplexConnection)
      → f.frame_type ≡ FrameType.payload
      → receive r sid f dc ≡ on_frame_payload r sid f dc
  unfolding receive
  receive-payload f dc e = rw e refl

  abbrev pub IsPayload : Fragment → Type 0
  IsPayload f = f.frame_type ≡ FrameType.payload

  abbrev pub on_stream : Fragment → ℕ × Fragment
  on_stream f = (sid, f)

  -- The later frames of a payload, behind those in the table.
  receive_all-rest :
      (rs : List SplitResult) (fs : List Fragment) (m d : Bytes) (p : Joiner)
      (dc : DuplexConnection)
      → dc.fragments sid ≡ some p
      → AllCarry rs fs
      → All IsPayload fs
      → Splits rs m d
      → nonempty rs ≡ true
      → (table : Fragments) × (table sid ≡ none)
        × ((k : ℕ) → k == sid ≡ false → table k ≡ dc.fragments k)
        × (receive_all r (map on_stream fs) dc
            ≡ settled (on_whole r sid (joined (p ++ fs)) (record dc { fragments = table })))
  unfolding receive_all on_frame_payload AllCarry Splits
  receive_all-rest [] fs m d p dc e c kinds s n = cc
  receive_all-rest (r ∷ rs) [] m d p dc e c kinds s n = elim c [ ]
  receive_all-rest (r ∷ q ∷ rs) (f ∷ []) m d p dc e (c, cs) kinds s n = elim cs [ ]
  receive_all-rest (r ∷ []) (f ∷ g ∷ fs) m d p dc e (c, cs) kinds s n = elim cs [ ]
  receive_all-rest (q ∷ []) (f ∷ []) m d p dc e (c, cs) (kind, _) (m', d', em, ed, ef, s) n = (
    store dc.fragments sid none,
    store_own dc.fragments sid none,
    λ k apart. store_other dc.fragments sid k none apart,
    ap settled (receive-payload f dc kind)
        ∙ rw (do_fragment-joins dc.fragments sid f p e (carried_follow q f false (nonempty m) c ef))
            refl,
  )
  receive_all-rest (q ∷ q' ∷ rs) (f ∷ g ∷ fs) m d p dc e (c, cs) (kind, kinds)
        (m', d', em, ed, ef, s) n =
      let table = store dc.fragments sid (some (p ++ (f ∷ []))) in
      let (table', gone, kept, eq) =
        receive_all-rest (q' ∷ rs) (g ∷ fs) m' d' (p ++ (f ∷ [])) (record dc { fragments = table })
          (store_own dc.fragments sid (some (p ++ (f ∷ [])))) cs kinds s refl in
      (
        table',
        gone,
        λ k apart. kept k apart ∙ store_other dc.fragments sid k (some (p ++ (f ∷ []))) apart,
        ap (λ h. h >>= λ x. receive_all r (map on_stream (g ∷ fs)) x.0) (receive-payload f dc kind)
            ∙ rw
                (do_fragment-pushes dc.fragments sid f p e
                  (carried_follow q f true (nonempty m) c ef))
                (eq
                  ∙ ap (λ j. settled (on_whole r sid (joined j) (record dc { fragments = table' })))
                      (append_assoc p (f ∷ []) (g ∷ fs))),
      )

  -- The frames of one payload, from an entry that is empty: the payload is handled once, by the type of
  -- its first frame, and the table is as it was.
  pub receive_all-payload :
      (rs : List SplitResult) (f : Fragment) (fs : List Fragment) (m d : Bytes)
      (dc : DuplexConnection)
      → dc.fragments sid ≡ none
      → AllCarry rs (f ∷ fs)
      → All IsPayload fs
      → Splits rs m d
      → Delivered f dc m d (receive_all r (map on_stream (f ∷ fs)) dc)
  unfolding receive_all AllCarry Splits on_whole first
  receive_all-payload [] f fs m d dc e c kinds s = elim c [ ]
  receive_all-payload (q ∷ []) f (g ∷ fs) m d dc e (c, cs) kinds s = elim cs [ ]
  receive_all-payload (q ∷ q' ∷ rs) f [] m d dc e (c, cs) kinds s = elim cs [ ]
  receive_all-payload (q ∷ []) f [] m d dc e (c, cs) kinds s =
      let (m', d', em, ed, ef, rest) = s in
      record {
        whole = single f;
        table = dc.fragments;
        same_table = λ k. refl;
        arrived = single-Arrived q f m d c s;
        first_frame = refl;
        goes = ap settled (receive-single f dc e (carried_follow q f false (nonempty m) c ef));
      }
  receive_all-payload (q ∷ q' ∷ rs) f (g ∷ fs) m d dc e (c, cs) kinds s =
      let (m', d', em, ed, ef, rest) = s in
      let table = store dc.fragments sid (some (f ∷ [])) in
      let (table', gone, kept, eq) =
        receive_all-rest (q' ∷ rs) (g ∷ fs) m' d' (f ∷ []) (record dc { fragments = table })
          (store_own dc.fragments sid (some (f ∷ []))) cs kinds rest refl in
      record {
        whole = joined (f ∷ g ∷ fs);
        table = table';
        same_table = λ k. elim (Bool-cases (k == sid)) [
          | inl y ↦ subst (λ j. table' j ≡ dc.fragments j) (sym ((==_iff k sid).0 y)) (gone ∙ sym e)
          | inr n ↦ kept k n ∙ store_other dc.fragments sid k (some (f ∷ [])) n
        ];
        arrived = joined-Arrived (q ∷ q' ∷ rs) (f ∷ g ∷ fs) m d (c, cs) s;
        first_frame = refl;
        goes =
            ap (λ h. h >>= λ x. receive_all r (map on_stream (g ∷ fs)) x.0)
              (receive-opens f dc e (carried_follow q f true (nonempty m) c ef))
            ∙ eq
            ∙ routed f (g ∷ fs) (record dc { fragments = table' });
      }
    where
      routed :
          (f : Fragment) (fs : List Fragment) (dc : DuplexConnection)
          → settled (on_whole r sid (joined (f ∷ fs)) dc)
            ≡ settled (route r sid (joined (f ∷ fs)) f dc)
      routed f fs dc = refl

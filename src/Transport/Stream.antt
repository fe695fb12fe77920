-- ===== src/Transport/Stream.antt =====
-- Frames over a TCP stream: what the writer of core/transport/tcp_conn.go sends is what the decoder of
-- core/transport/decoder.go cuts out, at whatever byte the input so far ends.
use rsocket_go.Base.{ℕ, ◌≤◌, ◌<◌, ◌≡◌, refl, ap, arith, sym}
use rsocket_go.Base.{false, List, [], ◌∷◌, ◌++◌, length, take, drop, All, map}
use rsocket_go.Base.{Option, none, some, if◌then◌else◌, append_assoc, drop-append}
use rsocket_go.Base.{ltb-false_iff}
use mathlib.Core.Path.{subst}
use rsocket_go.Base.Outcome.{Outcome, done, ◌>>=◌, slice_from-append}
use rsocket_go.BigEndian.{Bytes}
use rsocket_go.U24.{length_field, length-length_field, max_uint24}
use rsocket_go.Core.Header.{frame_header_len}
use rsocket_go.Framing.Program.{Program, nothing, ◌⨟◌, emit}
use rsocket_go.Transport.Decoder.{
  DecodeError, incomplete_header, more, do_split, read_token, tcp_write, IsSendable, wire,
  emit-tcp_write, do_split-wire, do_split-part,
}

-- The rounds of a bufio.Scanner over the bytes in its buffer: the tokens, and what stays in the buffer.
pub data Scans : Bytes → List Bytes → Bytes → Type 0 where
  asks : (buf : Bytes) → do_split buf false ≡ done more → Scans buf [] buf
  cuts :
      (buf t rest : Bytes) (ts : List Bytes) (n : ℕ)
      → do_split buf false ≡ done (record { advance = n; token = some t; err = none })
      → Scans (drop n buf) ts rest
      → Scans buf (t ∷ ts) rest

-- The frames sent in order over one connection, each with its `Len()`.
unfoldable pub write_all : List (ℕ × Program) → Program
write_all [] = nothing
write_all ((size, frame) ∷ frames) = tcp_write size frame ⨟ write_all frames

-- The frames write these bytes, as many as they say.
unfoldable pub AllWrite : List (ℕ × Program) → List Bytes → Type 0
AllWrite [] [] = Unit
AllWrite [] (frame ∷ frames) = ⊥
AllWrite (p ∷ ps) [] = ⊥
AllWrite ((size, p) ∷ ps) (frame ∷ frames) =
    (emit p ≡ done frame) × (size ≡ length frame) × AllWrite ps frames

-- The tokens as `Read` gives them out.
unfoldable pub read_all : List Bytes → Outcome (List (Bytes × Option DecodeError))
read_all [] = done []
read_all (token ∷ tokens) = do front ← read_token token; rest ← read_all tokens; done (front ∷ rest)

-- A frame with a header, of a size that the length field can tell.
abbrev pub IsFrame : Bytes → Type 0
IsFrame frame = (frame_header_len ≤ length frame) × (length frame ≤ max_uint24)

sendable : (frame : Bytes) → IsFrame frame → IsSendable frame
sendable frame (h, k) = (omega arith, k)

stream : List Bytes → Bytes
stream [] = []
stream (frame ∷ frames) = wire frame ++ stream frames

emit-write_all :
    (ps : List (ℕ × Program)) (frames : List Bytes)
    → AllWrite ps frames
    → All IsFrame frames
    → emit (write_all ps) ≡ done (stream frames)
unfolding write_all stream AllWrite emit
emit-write_all [] [] w h = refl
emit-write_all [] (frame ∷ frames) w h = elim w [ ]
emit-write_all (p ∷ ps) [] w h = elim w [ ]
emit-write_all ((size, p) ∷ ps) (frame ∷ frames) (e, same, w) (h, hs) =
    rw (emit-tcp_write size p frame e same (sendable frame h), emit-write_all ps frames w hs) refl

read_token-wire : (frame : Bytes) → IsFrame frame → read_token (wire frame) ≡ done (frame, none)
unfolding read_token wire
read_token-wire frame (h, k) =
    rw
      (slice_from-append (length_field (length frame)) frame 3
        (sym (length-length_field (length frame))))
      (ap (λ b. done (frame, if b then some incomplete_header else none))
        ((ltb-false_iff (length frame) 6).1 h))

Scans-stream :
    (frames : List Bytes) (last : Bytes) (n : ℕ)
    → All IsFrame frames
    → IsFrame last
    → n < length (wire last)
    → Scans (stream frames ++ take n (wire last)) (map wire frames) (take n (wire last))
unfolding stream
Scans-stream [] last n h k lt =
    asks (take n (wire last)) (do_split-part last n (sendable last k) lt)
Scans-stream (frame ∷ frames) last n (h, hs) k lt =
    subst (λ buf. Scans buf (wire frame ∷ map wire frames) tail) (sym assoc)
      (cuts (wire frame ++ (stream frames ++ tail)) (wire frame) tail (map wire frames)
        (length (wire frame)) (do_split-wire frame (stream frames ++ tail) (sendable frame h))
        (subst (λ buf. Scans buf (map wire frames) tail)
          (sym (drop-append (wire frame) (stream frames ++ tail)))
          (Scans-stream frames last n hs k lt)))
  where
    tail : Bytes
    tail = take n (wire last)

    assoc : (wire frame ++ stream frames) ++ tail ≡ wire frame ++ (stream frames ++ tail)
    assoc = append_assoc (wire frame) (stream frames) tail

read_all-wire :
    (frames : List Bytes)
    → All IsFrame frames
    → read_all (map wire frames) ≡ done (map (λ frame. (frame, none)) frames)
unfolding read_all
read_all-wire [] h = refl
read_all-wire (frame ∷ frames) (h, hs) = rw (read_token-wire frame h, read_all-wire frames hs) refl

-- Frames of six to 16777215 bytes whose Len is their number of bytes, written one after another
-- over a connection, are cut out of the bytes whole and in order by rounds of the scanner, and
-- read without an error, wherever in a next frame the input ends; what has arrived of that one
-- stays in the buffer.
pub tcp_round_trip :
    (ps : List (ℕ × Program)) (frames : List Bytes) (last : Bytes) (n : ℕ)
    → AllWrite ps frames
    → All IsFrame frames
    → IsFrame last
    → n < length (wire last)
    → (sent : Bytes) × (tokens : List Bytes) × (emit (write_all ps) ≡ done sent)
      × Scans (sent ++ take n (wire last)) tokens (take n (wire last))
      × (read_all tokens ≡ done (map (λ frame. (frame, none)) frames))
tcp_round_trip ps frames last n w h k lt = (
  stream frames,
  map wire frames,
  emit-write_all ps frames w h,
  Scans-stream frames last n h k lt,
  read_all-wire frames h,
)

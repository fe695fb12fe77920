-- ===== src/Transport/Decoder.antt =====
-- core/transport/decoder.go (doSplit, LengthBasedFrameDecoder.Read) and the bytes of TCPConn.Write of
-- core/transport/tcp_conn.go. `bufio.Scanner` is met by what it does with `do_split`: it calls the function
-- again on what is behind the last token, and asks for more input when no token is given.
use rsocket_go.Base.{ℕ, zero, suc, ◌+◌, ◌≤◌, ◌<◌, ◌≡◌, refl, ap, arith, ◌∙◌, sym}
use rsocket_go.Base.{Bool, false, ◌++◌, length, take}
use rsocket_go.Base.{Option, none, some, ltb, leb, if◌then◌else◌, append_assoc}
use rsocket_go.Base.{length-append, length-take, take-append, le→leb, ltb-false_iff}
use rsocket_go.Base.Int.{pos}
use rsocket_go.Base.Outcome.{Outcome, done, panic, ◌>>=◌, slice_from}
use rsocket_go.BigEndian.{Bytes}
use rsocket_go.U24.{
  max_uint24, must_new_uint24, read_uint24_to_int, length_field, length-length_field,
  read-length_field, must_new_uint24_fits,
}
use rsocket_go.U24
use rsocket_go.Framing.Program.{Program, ◌⨟◌, emit}
use rsocket_go.Framing.Parts.{write_length}
use rsocket_go.Core.Header.{frame_header_len}

abbrev pub length_field_size : ℕ
length_field_size = 3

pub data DecodeError : Type 0 where
  invalid_frame_length incomplete_header : DecodeError

-- The results of a bufio.SplitFunc.
pub record Split : Type 0 where
  pub advance : ℕ
  pub token : Option Bytes
  pub err : Option DecodeError

abbrev pub more : Split
more = record { advance = 0; token = none; err = none }

cut : Bytes → ℕ → Split
cut data' frame_length =
    let frame_size = frame_length + length_field_size in
    if ltb frame_length 1
    then record { advance = 0; token = none; err = some invalid_frame_length }
    else if leb frame_size (length data')
    then record { advance = frame_size; token = some (take frame_size data'); err = none }
    else more

unfoldable pub do_split : Bytes → Bool → Outcome Split
unfolding cut
do_split data' eof =
    if eof
    then done more
    else if ltb (length data') length_field_size
    then done more
    else (read_uint24_to_int data' >>= λ frame_length. done (cut data' frame_length))

-- What `Read` makes of a token: the raw frame, and the error beside it.
unfoldable pub read_token : Bytes → Outcome (Bytes × Option DecodeError)
read_token token = do
  raw ← slice_from token length_field_size
  done (raw, if ltb (length raw) frame_header_len then some incomplete_header else none)

-- The writes of `TCPConn.Write`, for a frame with `Len()` and `WriteTo`; the traffic counter and the
-- log beside them are left out.
unfoldable pub tcp_write : ℕ → Program → Program
tcp_write size frame = write_length (must_new_uint24 (pos size)) ⨟ frame

-- A frame that the three bytes of a length can announce.
abbrev pub IsSendable : Bytes → Type 0
IsSendable frame = (1 ≤ length frame) × (length frame ≤ max_uint24)

unfoldable pub wire : Bytes → Bytes
wire frame = length_field (length frame) ++ frame

emit-write_length :
    (o : Outcome U24.Uint24) → emit (write_length o) ≡ (o >>= λ u. done (U24.bytes u))
unfolding emit write_length
emit-write_length (done u) = refl
emit-write_length panic = refl

pub emit-tcp_write :
    (size : ℕ) (content : Program) (frame : Bytes)
    → emit content ≡ done frame
    → size ≡ length frame
    → IsSendable frame
    → emit (tcp_write size content) ≡ done (wire frame)
unfolding tcp_write wire emit
emit-tcp_write size content frame e same (h, k) =
    rw
      (
        same,
        emit-write_length (must_new_uint24 (pos (length frame))),
        must_new_uint24_fits (length frame) k,
        e,
      )
      refl

pub length-wire : (frame : Bytes) → length (wire frame) ≡ length frame + 3
unfolding wire
length-wire frame =
    omega
      (arith, length-append (length_field (length frame)) frame, length-length_field (length frame))

do_split-announced :
    (v : ℕ) (rest : Bytes)
    → v ≤ max_uint24
    → do_split (length_field v ++ rest) false ≡ done (cut (length_field v ++ rest) v)
unfolding do_split
do_split-announced v rest h =
    rw (long (length (length_field v ++ rest)) bound, read-length_field v rest h) refl
  where
    bound : 3 ≤ length (length_field v ++ rest)
    bound = omega (arith, length-append (length_field v) rest, length-length_field v)

    long : (n : ℕ) → 3 ≤ n → ltb n length_field_size ≡ false
    long n k = (ltb-false_iff n length_field_size).1 k

cut_whole :
    (data' : Bytes) (v : ℕ)
    → 1 ≤ v
    → v + 3 ≤ length data'
    → cut data' v ≡ record { advance = v + 3; token = some (take (v + 3) data'); err = none }
unfolding cut
cut_whole data' v h k = rw ((ltb-false_iff v 1).1 h, le→leb (v + 3) (length data') k) refl

cut_part : (data' : Bytes) (v : ℕ) → 1 ≤ v → length data' < v + 3 → cut data' v ≡ more
unfolding cut
cut_part data' v h k = rw ((ltb-false_iff v 1).1 h, short (v + 3) (length data') k) refl
  where
    short : (a b : ℕ) → b < a → leb a b ≡ false
    short a b lt = ground arith

-- A whole frame at the front of the buffer is cut off, whatever stands behind it.
pub do_split-wire :
    (frame rest : Bytes)
    → IsSendable frame
    → do_split (wire frame ++ rest) false
      ≡ done (record { advance = length (wire frame); token = some (wire frame); err = none })
unfolding wire
do_split-wire frame rest (h, k) =
    ap (λ x. do_split x false) assoc
    ∙ do_split-announced (length frame) (frame ++ rest) k
    ∙ ap (λ x. done (cut x (length frame))) (sym assoc)
    ∙ ap done (cut_whole (wire frame ++ rest) (length frame) h bound)
    ∙ ap
        (λ n. done (record { advance = n; token = some (take n (wire frame ++ rest)); err = none }))
        (sym (length-wire frame))
    ∙ ap (λ t. done (record { advance = length (wire frame); token = some t; err = none }))
        (take-append (wire frame) rest)
  where
    assoc : wire frame ++ rest ≡ length_field (length frame) ++ (frame ++ rest)
    assoc = append_assoc (length_field (length frame)) frame rest

    bound : length frame + 3 ≤ length (wire frame ++ rest)
    bound = omega (arith, length-append (wire frame) rest, length-wire frame)

-- A frame that has not arrived whole gives no token and no error.
pub do_split-part :
    (frame : Bytes) (n : ℕ)
    → IsSendable frame
    → n < length (wire frame)
    → do_split (take n (wire frame)) false ≡ done more
unfolding do_split wire length_field
do_split-part frame zero (h, k) lt = ground arith
do_split-part frame (suc zero) (h, k) lt = ground arith
do_split-part frame (suc (suc zero)) (h, k) lt = ground arith
do_split-part frame (suc (suc (suc n))) (h, k) lt =
    do_split-announced (length frame) (take n frame) k
    ∙ ap done (cut_part (length_field (length frame) ++ take n frame) (length frame) h short)
  where
    short : length (length_field (length frame) ++ take n frame) < length frame + 3
    short = omega (
      arith,
      lt,
      length-wire frame,
      length-append (length_field (length frame)) (take n frame),
      length-length_field (length frame),
      length-take n frame,
    )

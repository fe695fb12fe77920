-- ===== src/Framing/Lease.antt =====
-- core/framing/lease.go and writeable_lease.go. A duration is a number of nanoseconds; durations below
-- zero, which no lease factory lets through, are left out.
use rsocket_go.Base.{ℕ, ◌+◌, ◌*◌, ◌/◌, ◌^◌, ◌<◌, ◌≡◌, refl, ap, arith, ◌∙◌, sym, bit_or}
use rsocket_go.Base.{Bool, true, false, [], ◌∷◌, ◌++◌, length, Option, none, append_assoc}
use rsocket_go.Base.{if◌then◌else◌, ltb, ltb-false_iff, nonempty, length-append}
use rsocket_go.Base.Outcome.{Outcome, done, ◌>>=◌, slice_from, slice_from-append}
use rsocket_go.BigEndian.{Bytes, put_uint32, uint32, uint32-put, length-put_uint32}
use rsocket_go.Common.{to_milliseconds, uint32_milliseconds}
use rsocket_go.Core.FrameType
use rsocket_go.Core.Flag
use rsocket_go.Core.Types.{IsFlag, check}
use rsocket_go.Core.Header.{FrameHeader, frame_header_len, write_frame_header, new_frame_header}
use rsocket_go.Core.Header
use rsocket_go.Framing.Program.{Program, chunk, nothing, ◌⨟◌, emit}
use rsocket_go.Framing.Buffered.{
  BufferedFrame, FrameError, incomplete_if, new_buffered_frame, has_flag, body, body_len,
}
use rsocket_go.Framing.Buffered.Laws.{
  framed, body-framed, body_len-framed, has_flag-framed, length-header,
}

abbrev pub lease_flag : Bytes → ℕ
lease_flag metadata = if nonempty metadata then bit_or 0 Flag.metadata else 0

unfoldable pub new_lease_frame : ℕ → ℕ → Bytes → BufferedFrame
new_lease_frame ttl n metadata = new_buffered_frame (
    write_frame_header 0 FrameType.lease (lease_flag metadata)
    ++ (put_uint32 (uint32_milliseconds ttl)
        ++ (put_uint32 n ++ (if nonempty metadata then metadata else []))))

unfoldable pub validate : BufferedFrame → Option FrameError
validate f = incomplete_if (ltb (body_len f) 8)

unfoldable pub time_to_live : BufferedFrame → Outcome ℕ
time_to_live f = do b ← body f; v ← uint32 b; done (1_000_000 * v)

unfoldable pub number_of_requests : BufferedFrame → Outcome ℕ
number_of_requests f = do b ← body f; rest ← slice_from b 4; uint32 rest

-- A nil slice and an empty one are the same list.
metadata_if : Bool → BufferedFrame → Outcome Bytes
metadata_if false f = done []
metadata_if true f = do b ← body f; slice_from b 8

unfoldable pub metadata : BufferedFrame → Outcome Bytes
unfolding metadata_if
metadata f = do has ← has_flag f Flag.metadata; metadata_if has f

pub record WriteableLeaseFrame : Type 0 where
  pub head : FrameHeader
  pub ttl : Bytes
  pub count : Bytes
  pub metadata : Bytes

unfoldable pub new_writeable_lease_frame : ℕ → ℕ → Bytes → WriteableLeaseFrame
new_writeable_lease_frame ttl n metadata = record {
  head = new_frame_header 0 FrameType.lease (lease_flag metadata);
  ttl = put_uint32 (uint32_milliseconds ttl);
  count = put_uint32 n;
  metadata = metadata;
}

unfoldable pub write_to : WriteableLeaseFrame → Program
write_to f =
    chunk (Header.bytes f.head)
    ⨟ chunk f.ttl
    ⨟ chunk f.count
    ⨟ (if check (Header.flag f.head) Flag.metadata then chunk f.metadata else nothing)

unfoldable pub len : WriteableLeaseFrame → ℕ
len f =
    let n = frame_header_len + 8 in
    if check (Header.flag f.head) Flag.metadata then n + length f.metadata else n

pub lease_flag-IsFlag : (m : Bytes) → IsFlag (lease_flag m)
lease_flag-IsFlag [] = omega arith
lease_flag-IsFlag (x ∷ xs) = omega arith

check-lease_flag : (m : Bytes) → check (lease_flag m) Flag.metadata ≡ nonempty m
unfolding check
check-lease_flag [] = refl
check-lease_flag (x ∷ xs) = refl

check-head :
    (m : Bytes)
    → check (Header.flag (new_frame_header 0 FrameType.lease (lease_flag m))) Flag.metadata
      ≡ nonempty m
check-head m =
    ap (λ g. check g Flag.metadata)
      (Header.flag-new 0 FrameType.lease (lease_flag m) (omega arith) (omega arith)
        (lease_flag-IsFlag m))
    ∙ check-lease_flag m

metadata_part : (m : Bytes) → emit (if nonempty m then chunk m else nothing) ≡ done m
unfolding emit
metadata_part [] = refl
metadata_part (x ∷ xs) = refl

metadata_list : (m : Bytes) → (if nonempty m then m else []) ≡ m
metadata_list [] = refl
metadata_list (x ∷ xs) = refl

len_part : (m : Bytes) → (if nonempty m then 14 + length m else 14) ≡ 14 + length m
len_part [] = omega arith
len_part (x ∷ xs) = refl

module _ (ttl n : ℕ) (m : Bytes) where
  abbrev rest : Bytes
  rest = put_uint32 (uint32_milliseconds ttl) ++ (put_uint32 n ++ m)

  abbrev frame : BufferedFrame
  frame = framed 0 FrameType.lease (lease_flag m) rest

  length-rest : length rest ≡ 8 + length m
  length-rest = omega (
    arith,
    length-append (put_uint32 (uint32_milliseconds ttl)) (put_uint32 n ++ m),
    length-append (put_uint32 n) m,
    length-put_uint32 (uint32_milliseconds ttl),
    length-put_uint32 n,
  )

  metadata-frame : metadata frame ≡ done m
  unfolding metadata
  metadata-frame =
      rw
        (
          has_flag-framed 0 FrameType.lease (lease_flag m) rest Flag.metadata (omega arith)
              (lease_flag-IsFlag m),
          check-lease_flag m,
        )
        (whichever m refl)
    where
      sliced : slice_from rest 8 ≡ done m
      sliced = rw (← append_assoc (put_uint32 (uint32_milliseconds ttl)) (put_uint32 n) m) (
          slice_from-append (put_uint32 (uint32_milliseconds ttl) ++ put_uint32 n) m 8 (
            omega (
              arith,
              length-append (put_uint32 (uint32_milliseconds ttl)) (put_uint32 n),
              length-put_uint32 (uint32_milliseconds ttl),
              length-put_uint32 n,
            )))

      whichever : (k : Bytes) → k ≡ m → metadata_if (nonempty k) frame ≡ done m
      whichever [] e = ap done e
      whichever (x ∷ xs) e = rw (body-framed 0 FrameType.lease (lease_flag m) rest) sliced

  -- For a time to live of 32 bits in milliseconds and a number of requests of 32 bits, the bytes
  -- written for a lease frame are those of the frame built in a buffer, as many as Len says; they
  -- validate, and the time to live to the millisecond, the number and the metadata are read back
  -- from them.
  pub lease_round_trip :
      ttl / 1_000_000 < 2 ^ 32
      → n < 2 ^ 32
      → (bs : Bytes) × (emit (write_to (new_writeable_lease_frame ttl n m)) ≡ done bs)
        × (new_lease_frame ttl n m ≡ new_buffered_frame bs)
        × (length bs ≡ len (new_writeable_lease_frame ttl n m))
        × (validate (new_buffered_frame bs) ≡ none)
        × (time_to_live (new_buffered_frame bs) ≡ done (1_000_000 * (ttl / 1_000_000)))
        × (number_of_requests (new_buffered_frame bs) ≡ done n)
        × (metadata (new_buffered_frame bs) ≡ done m)
  unfolding write_to len new_writeable_lease_frame new_lease_frame validate time_to_live
      number_of_requests emit
  lease_round_trip ht hn = (
    write_frame_header 0 FrameType.lease (lease_flag m) ++ rest,
    rw (
      check-head m,
      metadata_part m,
      Header.bytes-new_frame_header 0 FrameType.lease (lease_flag m),
      append_assoc,
      append_assoc,
    ),
    rw (metadata_list m),
    rw (check-head m, len_part m)
        (omega (
          arith,
          length-append (write_frame_header 0 FrameType.lease (lease_flag m)) rest,
          length-header 0 FrameType.lease (lease_flag m),
          length-rest,
        )),
    rw (body_len-framed 0 FrameType.lease (lease_flag m) rest)
        (ap incomplete_if ((ltb-false_iff _ _).1 (omega (arith, length-rest)))),
    rw
        (
          body-framed 0 FrameType.lease (lease_flag m) rest,
          uint32-put (uint32_milliseconds ttl) (put_uint32 n ++ m) (omega arith),
        )
        (ap (λ k. done (1_000_000 * k)) (unfold to_milliseconds in omega arith)),
    rw
        (
          body-framed 0 FrameType.lease (lease_flag m) rest,
          slice_from-append (put_uint32 (uint32_milliseconds ttl)) (put_uint32 n ++ m) 4
              (sym (length-put_uint32 (uint32_milliseconds ttl))),
        )
        (uint32-put n m hn),
    metadata-frame,
  )

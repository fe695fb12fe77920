-- ===== src/Framing/Buffered/Laws.antt =====
-- What the accessors of a received frame answer on a frame whose layout is known: a header,
-- `offset` bytes of a frame type's own fields, then metadata and data.
use rsocket_go.Base.{ℕ, ◌+◌, ◌*◌, ◌%◌, ◌^◌, ◌<◌, ◌≤◌, ◌≡◌, refl, sym, ap, arith, ◌∙◌}
use rsocket_go.Base.{true, false, [], ◌∷◌, ◌++◌, length, none, some, nonempty}
use rsocket_go.Base.{
  ltb, leb, ltb-false_iff, if◌then◌else◌, length-append, append_assoc, append-nil, Bool-cases, inl,
  inr,
}
use rsocket_go.Base.Bits.{bit_and-ones, bit_and_comm}
use rsocket_go.Base.Int.{ℤ, pos, negsuc}
use rsocket_go.Base.Outcome.{done, slice, slice_from, slice-append, slice_from-append}
use rsocket_go.BigEndian.{Bytes, put_uint16, put_uint32, uint16-put, uint32-put}
use rsocket_go.BigEndian.{length-put_uint16, length-put_uint32}
use rsocket_go.U24.{max_uint24, length_field, length-length_field}
use rsocket_go.U24.{new_uint24_bytes_field}
use rsocket_go.Core.Flag
use rsocket_go.Core.Types.{IsFlag, check}
use rsocket_go.Core.Header.{frame_header_len, write_frame_header, type_and_flags}
use rsocket_go.Core.Header
use rsocket_go.Framing.Parts.{payload_field, metadata_field, Announces}
use rsocket_go.Framing.Buffered.{
  BufferedFrame, new_buffered_frame, header, has_flag, stream_id, body, len, body_len,
  try_seek_metadata_len, metadata_len, try_slice_metadata, try_slice_data, slice_metadata,
  slice_data,
}

-- The frame that a header and its body make.
abbrev pub framed : ℕ → ℕ → ℕ → Bytes → BufferedFrame
framed sid t flag rest = new_buffered_frame (write_frame_header sid t flag ++ rest)

pub length-header : (sid t flag : ℕ) → length (write_frame_header sid t flag) ≡ frame_header_len
unfolding write_frame_header
length-header sid t flag = omega (
  arith,
  length-append (put_uint32 sid) (put_uint16 (type_and_flags t flag)),
  length-put_uint32 sid,
  length-put_uint16 (type_and_flags t flag),
)

module _ (sid t flag : ℕ) (rest : Bytes) where
  pub body-framed : body (framed sid t flag rest) ≡ done rest
  unfolding body new_buffered_frame
  body-framed =
      slice_from-append (write_frame_header sid t flag) rest 6 (sym (length-header sid t flag))

  pub len-framed : len (framed sid t flag rest) ≡ frame_header_len + length rest
  unfolding len new_buffered_frame
  len-framed =
      omega (arith, length-append (write_frame_header sid t flag) rest, length-header sid t flag)

  pub body_len-framed : body_len (framed sid t flag rest) ≡ length rest
  unfolding body_len
  body_len-framed = ground (arith, len-framed)

  pub header-framed : header (framed sid t flag rest) ≡ done (Header.new_frame_header sid t flag)
  unfolding header new_buffered_frame
  header-framed =
      rw (← Header.bytes-new_frame_header sid t flag)
        (Header.parse-bytes (Header.new_frame_header sid t flag) rest)

  pub stream_id-framed : sid < 2 ^ 32 → stream_id (framed sid t flag rest) ≡ done sid
  unfolding stream_id new_buffered_frame write_frame_header
  stream_id-framed h =
      rw append_assoc (uint32-put sid (put_uint16 (type_and_flags t flag) ++ rest) h)

  pub has_flag-framed :
      (f : ℕ) → t < 2 ^ 6 → IsFlag flag → has_flag (framed sid t flag rest) f ≡ done (check flag f)
  unfolding has_flag new_buffered_frame write_frame_header check
  has_flag-framed f ht hf = rw append_assoc (
      rw (
        slice-append (put_uint32 sid) (put_uint16 w) rest 4 6 four six,
        ← append-nil (put_uint16 w),
        uint16-put w [] (omega (arith, w_sum)),
        w_sum,
        bit_and-ones 10 (t * 2 ^ 10 + flag),
        low,
        bit_and_comm flag f,
      ))
    where
      w : ℕ
      w = type_and_flags t flag

      w_sum : w ≡ t * 2 ^ 10 + flag
      w_sum = Header.type_and_flags_sum t flag ht hf

      low : (t * 2 ^ 10 + flag) % 2 ^ 10 ≡ flag
      low = omega arith

      four : 4 ≡ length (put_uint32 sid)
      four = sym (length-put_uint32 sid)

      six : 6 ≡ length (put_uint32 sid) + length (put_uint16 w)
      six = omega (arith, length-put_uint32 sid, length-put_uint16 w)

module _ (sid t flag : ℕ) (fields d : Bytes) (ht : t < 2 ^ 6) (hf : IsFlag flag) where
  -- With no metadata announced the length search answers `false`, whatever is left to read.
  seek_without :
      Announces [] flag
      → (n : ℤ) × (try_seek_metadata_len (framed sid t flag (fields ++ d)) (length fields)
          ≡ done (n, false))
  unfolding try_seek_metadata_len
  seek_without marked = elim (Bool-cases (leb (length (fields ++ d)) (length fields))) [
    | inl past ↦ (negsuc 0, rw (body-framed sid t flag (fields ++ d), past))
    | inr more ↦ (
      pos 0,
      rw (
        body-framed sid t flag (fields ++ d),
        more,
        slice_from-append fields d (length fields) refl,
        has_flag-framed sid t flag (fields ++ d) Flag.metadata ht hf,
        marked,
      ),
    )
  ]

metadata_len-true :
    (v : ℕ) (m d : Bytes)
    → v ≤ max_uint24
    → metadata_len true ((length_field v ++ m) ++ d) ≡ done (pos v, true)
unfolding metadata_len
metadata_len-true v m d hv =
    let (u, read, value) = new_uint24_bytes_field v (m ++ d) hv in
    rw (append_assoc, long, read, value)
  where
    long : ltb (length (length_field v ++ (m ++ d))) 3 ≡ false
    long =
        (ltb-false_iff _ _).1
          (omega (arith, length-append (length_field v) (m ++ d), length-length_field v))

module _ (sid t flag : ℕ) (fields d : Bytes) (x : ℕ) (xs : Bytes) (ht : t < 2 ^ 6)
    (hf : IsFlag flag) (marked : Announces (x ∷ xs) flag) (hm : length (x ∷ xs) ≤ max_uint24) where
  abbrev whole : Bytes
  whole = fields ++ payload_field d (x ∷ xs)

  length-whole : length whole ≡ length fields + (3 + length (x ∷ xs) + length d)
  unfolding metadata_field
  length-whole = omega (
    arith,
    length-append fields (payload_field d (x ∷ xs)),
    length-append (length_field (length (x ∷ xs)) ++ (x ∷ xs)) d,
    length-append (length_field (length (x ∷ xs))) (x ∷ xs),
    length-length_field (length (x ∷ xs)),
  )

  seek_with :
      try_seek_metadata_len (framed sid t flag whole) (length fields)
      ≡ done (pos (length (x ∷ xs)), true)
  unfolding try_seek_metadata_len
  seek_with =
      rw
        (
          body-framed sid t flag whole,
          more,
          slice_from-append fields (payload_field d (x ∷ xs)) (length fields) refl,
          has_flag-framed sid t flag whole Flag.metadata ht hf,
          marked,
        )
        (unfold metadata_field in metadata_len-true (length (x ∷ xs)) (x ∷ xs) d hm)
    where
      more : leb (length whole) (length fields) ≡ false
      more = ground (arith, length-whole)

  past_end : ltb (length whole) (length fields + 3 + length (x ∷ xs)) ≡ false
  past_end = ground (arith, length-whole)

  -- The metadata and the data, each behind what stands in front of it.
  whole_metadata : whole ≡ (fields ++ length_field (length (x ∷ xs))) ++ ((x ∷ xs) ++ d)
  unfolding metadata_field
  whole_metadata = rw (append_assoc fields, append_assoc (length_field (length (x ∷ xs))))

  length_front : length fields + 3 ≡ length (fields ++ length_field (length (x ∷ xs)))
  length_front = omega (
    arith,
    length-append fields (length_field (length (x ∷ xs))),
    length-length_field (length (x ∷ xs)),
  )

  length_metadata_front :
      length fields + 3 + length (x ∷ xs) ≡ length (fields ++ metadata_field (x ∷ xs))
  unfolding metadata_field
  length_metadata_front = omega (
    arith,
    length-append fields (length_field (length (x ∷ xs)) ++ (x ∷ xs)),
    length-append (length_field (length (x ∷ xs))) (x ∷ xs),
    length-length_field (length (x ∷ xs)),
  )

  metadata_with :
      try_slice_metadata (framed sid t flag whole) (length fields) ≡ done (some (x ∷ xs))
  unfolding try_slice_metadata slice_metadata
  metadata_with = rw (seek_with, body-framed sid t flag whole, past_end, sliced)
    where
      sliced : slice whole (length fields + 3) (length fields + 3 + length (x ∷ xs)) ≡ done (x ∷ xs)
      sliced =
          ap (λ b. slice b (length fields + 3) (length fields + 3 + length (x ∷ xs))) whole_metadata
          ∙ slice-append (fields ++ length_field (length (x ∷ xs))) (x ∷ xs) d _ _ length_front
              (omega (arith, length_front))

  data_with : try_slice_data (framed sid t flag whole) (length fields) ≡ done d
  unfolding try_slice_data slice_data
  data_with = rw (seek_with, body-framed sid t flag whole, past_end, sliced)
    where
      sliced : slice_from whole (length fields + 3 + length (x ∷ xs)) ≡ done d
      sliced =
          rw (← append_assoc fields (metadata_field (x ∷ xs)) d)
            (slice_from-append (fields ++ metadata_field (x ∷ xs)) d _ length_metadata_front)

module _ (sid t flag : ℕ) (fields d : Bytes) (ht : t < 2 ^ 6) (hf : IsFlag flag)
    (marked : Announces [] flag) where
  metadata_without :
      try_slice_metadata (framed sid t flag (fields ++ d)) (length fields) ≡ done none
  unfolding try_slice_metadata slice_metadata
  metadata_without = let (n, e) = seek_without sid t flag fields d ht hf marked in rw e

  data_without : try_slice_data (framed sid t flag (fields ++ d)) (length fields) ≡ done d
  unfolding try_slice_data slice_data
  data_without =
      let (n, e) = seek_without sid t flag fields d ht hf marked in
      rw (
        e,
        body-framed sid t flag (fields ++ d),
        inside,
        slice_from-append fields d (length fields) refl,
      )
    where
      inside : ltb (length (fields ++ d)) (length fields) ≡ false
      inside = (ltb-false_iff _ _).1 (omega (arith, length-append fields d))

module _ (sid t flag : ℕ) (fields d : Bytes) (ht : t < 2 ^ 6) (hf : IsFlag flag) where
  -- The metadata of a frame that carries it behind its own fields.
  pub try_slice_metadata-framed :
      (m : Bytes)
      → Announces m flag
      → length m ≤ max_uint24
      → try_slice_metadata (framed sid t flag (fields ++ payload_field d m)) (length fields)
        ≡ done (if nonempty m then some m else none)
  unfolding metadata_field
  try_slice_metadata-framed [] marked hm = metadata_without sid t flag fields d ht hf marked
  try_slice_metadata-framed (x ∷ xs) marked hm =
      metadata_with sid t flag fields d x xs ht hf marked hm

  -- Its data, with metadata or without.
  pub try_slice_data-framed :
      (m : Bytes)
      → Announces m flag
      → length m ≤ max_uint24
      → try_slice_data (framed sid t flag (fields ++ payload_field d m)) (length fields) ≡ done d
  unfolding metadata_field
  try_slice_data-framed [] marked hm = data_without sid t flag fields d ht hf marked
  try_slice_data-framed (x ∷ xs) marked hm = data_with sid t flag fields d x xs ht hf marked hm

-- ===== src/Framing/Setup/Reading.antt =====
-- What the readers of core/framing/setup.go find behind the times of a setup frame: the token, the MIME
-- types, the metadata and the data.
use rsocket_go.Base.{ℕ, ◌+◌, ◌%◌, ◌^◌, ◌<◌, ◌≤◌, ◌≡◌, refl, ap, arith, ◌∙◌, sym}
use rsocket_go.Base.{Bool, true, false, [], ◌∷◌, ◌++◌, length, none, some, append_assoc}
use rsocket_go.Base.{if◌then◌else◌, Bool-cases, inl, inr, nonempty, length-append}
use rsocket_go.Base.Outcome.{
  done, slice, slice_from, index, index-append, slice-append, slice_from-append,
}
use rsocket_go.BigEndian.{Bytes, put_uint16, uint16, uint16-put, length-put_uint16}
use rsocket_go.Core.FrameType
use rsocket_go.Core.Flag
use rsocket_go.Core.Version.{Version}
use rsocket_go.Framing.Setup.Fields.{
  written_flag-IsFlag, flag-Allows, check-resume, times, fixed_fields_lem, length-times,
  length-token_field,
}
use rsocket_go.Framing.Buffered.{BufferedFrame, has_flag, body, try_slice_metadata}
use rsocket_go.Framing.Parts.{mark_metadata, payload_field, metadata_field, mark_metadata-IsFlag}
use rsocket_go.Framing.Shape.{reported, has_metadata-shape, metadata-shape, data-shape}
use rsocket_go.U24.{max_uint24}
use rsocket_go.BigEndian.{byte}
use rsocket_go.Framing.Setup.{
  written_flag, token_field, fixed_fields, mime_fields, token, token_if, seek_if, seek_mime, mime,
  payload_offset, metadata, metadata_if, data_if, data_bytes,
}
use rsocket_go.Framing.Buffered.Laws.{framed, body-framed, has_flag-framed}

module _ (v : Version) (ka lt : ℕ) (t mm md d m : Bytes) (lease : Bool) (ht : length t < 65522)
    (hmm : length mm < 256) (hmd : length md < 256) (hm : length m ≤ max_uint24) where
  abbrev pub fl : ℕ
  fl = mark_metadata m (written_flag t lease)

  abbrev pub pre : Bytes
  pre = fixed_fields v ka lt t

  abbrev pub fields : Bytes
  fields = pre ++ mime_fields mm md

  abbrev pub raw : Bytes
  raw = fields ++ payload_field d m

  abbrev pub frame : BufferedFrame
  frame = framed 0 FrameType.setup fl raw

  pub body-frame : body frame ≡ done raw
  body-frame = body-framed 0 FrameType.setup fl raw

  resume-frame : has_flag frame Flag.resume ≡ done (nonempty t)
  resume-frame =
      has_flag-framed 0 FrameType.setup fl raw Flag.resume (omega arith)
        (mark_metadata-IsFlag m (written_flag t lease) (written_flag-IsFlag t lease))
      ∙ ap done (check-resume m t lease)

  -- The body behind the times.
  abbrev pub behind : Bytes
  behind = mime_fields mm md ++ payload_field d m

  pub raw_at_token : raw ≡ times v ka lt ++ (token_field t ++ behind)
  unfolding behind
  raw_at_token =
      append_assoc pre (mime_fields mm md) (payload_field d m)
      ∙ ap (λ p. p ++ behind) (fixed_fields_lem v ka lt t)
      ∙ append_assoc (times v ka lt) (token_field t) behind

  sliced_12 : slice_from raw 12 ≡ done (token_field t ++ behind)
  sliced_12 =
      ap (λ b. slice_from b 12) raw_at_token
      ∙ slice_from-append (times v ka lt) (token_field t ++ behind) 12 (sym (length-times v ka lt))

  pub length-pre : length pre ≡ 12 + length (token_field t)
  length-pre =
      ap length (fixed_fields_lem v ka lt t)
      ∙ omega (arith, length-append (times v ka lt) (token_field t), length-times v ka lt)

  token_16 : nonempty t ≡ true → uint16 (token_field t ++ behind) ≡ done (length t)
  unfolding token_field
  token_16 e =
      rw (e, append_assoc, uint16-put (length t % 2 ^ 16) (t ++ behind) (omega arith))
        (ap done (omega arith))

  pub length-pre_token : nonempty t ≡ true → length pre ≡ 14 + length t
  length-pre_token e = omega (arith, length-pre, rw e at (length-token_field t))

  pub length-pre_no_token : nonempty t ≡ false → length pre ≡ 12
  length-pre_no_token e = omega (arith, length-pre, rw e at (length-token_field t))

  seek-frame : seek_mime frame ≡ done (length pre)
  unfolding seek_mime seek_if
  seek-frame = elim (Bool-cases (nonempty t)) [
    | inl e ↦ rw (resume-frame, e, body-frame, sliced_12, token_16 e, length-pre_token e)
    | inr e ↦ rw (resume-frame, e, length-pre_no_token e)
  ]

  -- The token is read back; there is none where it is empty.
  pub token-frame : token frame ≡ done t
  unfolding token token_if
  token-frame = elim (Bool-cases (nonempty t)) [
    | inl e ↦ rw (resume-frame, e, body-frame, sliced_12, token_16 e) (sliced e)
    | inr e ↦ rw (resume-frame, e) (ap done (nothing_there t e))
  ]
    where
      nothing_there : (k : Bytes) → nonempty k ≡ false → [] ≡ k
      nothing_there [] e = refl
      nothing_there (x ∷ xs) e = cc

      sliced : nonempty t ≡ true → slice raw 14 ((14 + length t) % 65536) ≡ done t
      sliced e =
          ap (λ b. slice b 14 ((14 + length t) % 65536)) (raw_at_token ∙ at_token e)
          ∙ slice-append (times v ka lt ++ put_uint16 (length t % 2 ^ 16)) t behind 14
              ((14 + length t) % 65536) (omega (arith, front)) (omega (arith, front))
        where
          front : length (times v ka lt ++ put_uint16 (length t % 2 ^ 16)) ≡ 14
          front = omega (
            arith,
            length-append (times v ka lt) (put_uint16 (length t % 2 ^ 16)),
            length-times v ka lt,
            length-put_uint16 (length t % 2 ^ 16),
          )

          at_token :
              nonempty t ≡ true
              → times v ka lt ++ (token_field t ++ behind)
                ≡ (times v ka lt ++ put_uint16 (length t % 2 ^ 16)) ++ (t ++ behind)
          at_token e = unfold token_field in rw e (simp append_assoc)

  -- What stands in front of each part of the MIME fields.
  front1 : Bytes
  front1 = pre ++ (byte (length mm) ∷ [])

  front2 : Bytes
  front2 = front1 ++ mm

  front3 : Bytes
  front3 = front2 ++ (byte (length md) ∷ [])

  abbrev pay : Bytes
  pay = payload_field d m

  raw_at_mime :
      (raw ≡ pre ++ (byte (length mm) ∷ (mm ++ (byte (length md) ∷ (md ++ pay)))))
      × (raw ≡ front1 ++ (mm ++ (byte (length md) ∷ (md ++ pay))))
      × (raw ≡ front2 ++ (byte (length md) ∷ (md ++ pay)))
      × (raw ≡ front3 ++ (md ++ pay))
  unfolding front1 front2 front3
  raw_at_mime = (simp append_assoc, simp append_assoc, simp append_assoc, simp append_assoc)

  length_fronts :
      (length front1 ≡ length pre + 1)
      × (length front2 ≡ length pre + 1 + length mm)
      × (length front3 ≡ length pre + 1 + length mm + 1)
  unfolding front1 front2 front3
  length_fronts = omega (
    arith,
    length-append pre (byte (length mm) ∷ []),
    length-append (pre ++ (byte (length mm) ∷ [])) mm,
    length-append ((pre ++ (byte (length mm) ∷ [])) ++ mm) (byte (length md) ∷ []),
  )

  index_mm : index raw (length pre) ≡ done (length mm)
  index_mm =
      ap (λ b. index b (length pre)) raw_at_mime.0
      ∙ index-append pre (mm ++ (byte (length md) ∷ (md ++ pay))) (byte (length mm))
      ∙ ap done (omega arith)

  slice_mm : slice raw (length pre + 1) (length pre + 1 + length mm) ≡ done mm
  slice_mm =
      ap (λ b. slice b (length pre + 1) (length pre + 1 + length mm)) raw_at_mime.1
      ∙ slice-append front1 mm (byte (length md) ∷ (md ++ pay)) _ _ (omega (arith, length_fronts))
          (omega (arith, length_fronts))

  index_md : index raw (length pre + 1 + length mm) ≡ done (length md)
  index_md =
      ap (index raw) (sym length_fronts.1)
      ∙ ap (λ b. index b (length front2)) raw_at_mime.2
      ∙ index-append front2 (md ++ pay) (byte (length md))
      ∙ ap done (omega arith)

  slice_md :
      slice raw (length pre + 1 + length mm + 1) (length pre + 1 + length mm + 1 + length md)
      ≡ done md
  slice_md =
      ap
        (λ b. slice b (length pre + 1 + length mm + 1) (length pre + 1 + length mm + 1 + length md))
        raw_at_mime.3
      ∙ slice-append front3 md pay _ _ (omega (arith, length_fronts)) (omega (arith, length_fronts))

  pub mime-frame : mime frame ≡ done (mm, md)
  unfolding mime
  mime-frame = rw (seek-frame, body-frame, index_mm, slice_mm, index_md, slice_md)

  pub length-fields : length pre + (2 + length mm + length md) ≡ length fields
  length-fields =
      omega (arith, length-append pre (mime_fields mm md), length-append mm (byte (length md) ∷ md))

  offset-frame : payload_offset frame ≡ done (length fields)
  unfolding payload_offset
  offset-frame = rw (seek-frame, mime-frame) (ap done length-fields)

  has_metadata-frame : has_flag frame Flag.metadata ≡ done (nonempty m)
  has_metadata-frame =
      has_metadata-shape 0 FrameType.setup (written_flag t lease) fields d m (omega arith)
        (written_flag-IsFlag t lease) (flag-Allows m t lease) hm

  pub metadata-frame : metadata frame ≡ done (reported m)
  unfolding metadata metadata_if
  metadata-frame = elim (Bool-cases (nonempty m)) [
    | inl e ↦
        rw (has_metadata-frame, e, offset-frame)
          (sliced ∙ ap (λ b. done (if b then some m else none)) e)
    | inr e ↦ rw (has_metadata-frame, e)
  ]
    where
      sliced : try_slice_metadata frame (length fields) ≡ done (reported m)
      sliced =
          metadata-shape 0 FrameType.setup (written_flag t lease) fields d m (omega arith)
            (written_flag-IsFlag t lease) (flag-Allows m t lease) hm

  pub data-frame : data_bytes frame ≡ done d
  unfolding data_bytes data_if
  data-frame = elim (Bool-cases (nonempty m)) [
    | inl e ↦
        rw (offset-frame, has_metadata-frame, e)
          (data-shape 0 FrameType.setup (written_flag t lease) fields d m (omega arith)
            (written_flag-IsFlag t lease) (flag-Allows m t lease) hm)
    | inr e ↦ rw (offset-frame, has_metadata-frame, e, body-frame) (bare m e)
  ]
    where
      bare :
          (k : Bytes)
          → nonempty k ≡ false
          → slice_from (fields ++ payload_field d k) (length fields) ≡ done d
      bare [] e = unfold metadata_field in slice_from-append fields d (length fields) refl
      bare (x ∷ xs) e = cc

-- ===== src/Framing/Setup/RoundTrip.antt =====
-- A setup frame is read back as it was written.
use rsocket_go.Base.{ℕ, ◌+◌, ◌*◌, ◌/◌, ◌^◌, ◌<◌, ◌≤◌, ◌≡◌, ap, arith, ◌∙◌, sym}
use rsocket_go.Base.{Bool, true, false, ◌++◌, length, none, append_assoc}
use rsocket_go.Base.{ltb-false_iff, Bool-cases, inl, inr, nonempty, length-append}
use rsocket_go.Base.Outcome.{done, panic, slice_from, index_past, slice_from-append}
use rsocket_go.BigEndian.{
  Bytes, put_uint16, put_uint32, uint16-put, uint32-put, length-put_uint16, length-put_uint32,
}
use rsocket_go.Common.{to_milliseconds, uint32_milliseconds}
use rsocket_go.Core.FrameType
use rsocket_go.Core.Flag
use rsocket_go.Core.Types.{IsFlag, check}
use rsocket_go.Core.Header.{FrameHeader, frame_header_len, write_frame_header, new_frame_header}
use rsocket_go.Core.Header
use rsocket_go.Core.Version
use rsocket_go.Core.Version.{Version}
use rsocket_go.Framing.Setup.Fields.{
  written_flag-IsFlag, built-written_flag, check-resume, check-lease, times, emit_token,
}
use rsocket_go.Framing.Program.{emit}
use rsocket_go.Framing.Buffered.{BufferedFrame, incomplete_if, new_buffered_frame, has_flag, body}
use rsocket_go.Framing.Parts.{
  mark_metadata, calc_payload_frame_size, payload_field, mark_metadata-IsFlag, emit-write_payload,
  length-payload_field, append-write_payload,
}
use rsocket_go.Framing.Shape.{reported}
use rsocket_go.U24.{max_uint24}
use rsocket_go.Framing.Setup.{
  written_flag, token_field, fixed_fields, mime_fields, new_setup_frame, validate, version,
  time_between_keepalive, max_lifetime, token, seek_if, seek_mime, mime, metadata, data_bytes,
  new_writeable_setup_frame, write_to, len,
}
use rsocket_go.Framing.Buffered.Laws.{
  framed, body-framed, has_flag-framed, length-header, len-framed,
}
use rsocket_go.Framing.Setup.Reading

module _ (v : Version) (ka lt : ℕ) (t mm md d m : Bytes) (lease : Bool) (ht : length t < 65522)
    (hmm : length mm < 256) (hmd : length md < 256) (hm : length m ≤ max_uint24) where
  abbrev fl : ℕ
  fl = mark_metadata m (written_flag t lease)

  abbrev pre : Bytes
  pre = fixed_fields v ka lt t

  abbrev fields : Bytes
  fields = pre ++ mime_fields mm md

  abbrev raw : Bytes
  raw = fields ++ payload_field d m

  abbrev frame : BufferedFrame
  frame = framed 0 FrameType.setup fl raw

  abbrev behind : Bytes
  behind = mime_fields mm md ++ payload_field d m

  body-frame : body frame ≡ done raw
  body-frame = Reading.body-frame v ka lt t mm md d m lease ht hmm hmd hm

  raw_at_token : raw ≡ times v ka lt ++ (token_field t ++ behind)
  raw_at_token = Reading.raw_at_token v ka lt t mm md d m lease ht hmm hmd hm

  length-pre : length pre ≡ 12 + length (token_field t)
  length-pre = Reading.length-pre v ka lt t mm md d m lease ht hmm hmd hm

  length-pre_token : nonempty t ≡ true → length pre ≡ 14 + length t
  length-pre_token = Reading.length-pre_token v ka lt t mm md d m lease ht hmm hmd hm

  length-pre_no_token : nonempty t ≡ false → length pre ≡ 12
  length-pre_no_token = Reading.length-pre_no_token v ka lt t mm md d m lease ht hmm hmd hm

  token-frame : token frame ≡ done t
  token-frame = Reading.token-frame v ka lt t mm md d m lease ht hmm hmd hm

  mime-frame : mime frame ≡ done (mm, md)
  mime-frame = Reading.mime-frame v ka lt t mm md d m lease ht hmm hmd hm

  length-fields : length pre + (2 + length mm + length md) ≡ length fields
  length-fields = Reading.length-fields v ka lt t mm md d m lease ht hmm hmd hm

  metadata-frame : metadata frame ≡ done (reported m)
  metadata-frame = Reading.metadata-frame v ka lt t mm md d m lease ht hmm hmd hm

  data-frame : data_bytes frame ≡ done d
  data-frame = Reading.data-frame v ka lt t mm md d m lease ht hmm hmd hm

  -- The body field by field, as far as the token.
  raw_flat :
      raw
      ≡ put_uint16 v.major
        ++ (put_uint16 v.minor
            ++ (put_uint32 (uint32_milliseconds ka)
                ++ (put_uint32 (uint32_milliseconds lt) ++ (token_field t ++ behind))))
  unfolding times Version.bytes
  raw_flat = raw_at_token ∙ simp append_assoc

  version-frame : v.major < 2 ^ 16 → v.minor < 2 ^ 16 → version frame ≡ done v
  unfolding version
  version-frame hmaj hmin = rw (
    body-frame,
    raw_flat,
    uint16-put v.major _ hmaj,
    slice_from-append (put_uint16 v.major) _ 2 (sym (length-put_uint16 v.major)),
    uint16-put v.minor _ hmin,
  )

  keepalive-frame :
      ka / 1_000_000 < 2 ^ 32 → time_between_keepalive frame ≡ done (1_000_000 * (ka / 1_000_000))
  unfolding time_between_keepalive
  keepalive-frame h =
      rw (body-frame, sliced, uint32-put (uint32_milliseconds ka) _ (omega arith))
        (ap (λ k. done (1_000_000 * k)) (unfold to_milliseconds in omega arith))
    where
      sliced :
          slice_from raw 4
          ≡ done (
              put_uint32 (uint32_milliseconds ka)
              ++ (put_uint32 (uint32_milliseconds lt) ++ (token_field t ++ behind)))
      sliced =
          ap (λ b. slice_from b 4) (raw_flat ∙ sym (append_assoc (put_uint16 v.major) _ _))
          ∙ slice_from-append (put_uint16 v.major ++ put_uint16 v.minor) _ 4 (
              omega (
                arith,
                length-append (put_uint16 v.major) (put_uint16 v.minor),
                length-put_uint16 v.major,
                length-put_uint16 v.minor,
              ))

  lifetime-frame :
      lt / 1_000_000 < 2 ^ 32 → max_lifetime frame ≡ done (1_000_000 * (lt / 1_000_000))
  unfolding max_lifetime
  lifetime-frame h =
      rw (body-frame, sliced, uint32-put (uint32_milliseconds lt) _ (omega arith))
        (ap (λ k. done (1_000_000 * k)) (unfold to_milliseconds in omega arith))
    where
      sliced :
          slice_from raw 8 ≡ done (put_uint32 (uint32_milliseconds lt) ++ (token_field t ++ behind))
      sliced =
          ap (λ b. slice_from b 8) (raw_flat ∙ simp (← append_assoc))
          ∙ slice_from-append
              ((put_uint16 v.major ++ put_uint16 v.minor) ++ put_uint32 (uint32_milliseconds ka)) _
              8
              (omega (
                arith,
                length-append (put_uint16 v.major ++ put_uint16 v.minor)
                    (put_uint32 (uint32_milliseconds ka)),
                length-append (put_uint16 v.major) (put_uint16 v.minor),
                length-put_uint16 v.major,
                length-put_uint16 v.minor,
                length-put_uint32 (uint32_milliseconds ka),
              ))

  head_resume : check (Header.flag (new_frame_header 0 FrameType.setup fl)) Flag.resume ≡ nonempty t
  head_resume =
      ap (λ g. check g Flag.resume)
        (Header.flag-new 0 FrameType.setup fl (omega arith) (omega arith)
          (mark_metadata-IsFlag m (written_flag t lease) (written_flag-IsFlag t lease)))
      ∙ check-resume m t lease

  written-frame :
      emit (write_to (new_writeable_setup_frame v ka lt t mm md d m lease))
      ≡ done (write_frame_header 0 FrameType.setup fl ++ raw)
  unfolding write_to new_writeable_setup_frame emit Version.bytes
  written-frame =
      rw
        (
          head_resume,
          emit_token t,
          emit-write_payload d m hm,
          Header.bytes-new_frame_header 0 FrameType.setup fl,
        )
        (ap done (simp append_assoc))

  built-frame :
      new_setup_frame v ka lt t mm md d m lease
      ≡ done (new_buffered_frame (write_frame_header 0 FrameType.setup fl ++ raw))
  unfolding new_setup_frame
  built-frame =
      rw (append-write_payload d m, emit-write_payload d m hm, built-written_flag t lease)
        (ap (λ bs. done (new_buffered_frame bs)) (simp append_assoc))

  len-frame :
      length (write_frame_header 0 FrameType.setup fl ++ raw)
      ≡ len (new_writeable_setup_frame v ka lt t mm md d m lease)
  unfolding len new_writeable_setup_frame
  len-frame = elim (Bool-cases (nonempty t)) [
    | inl e ↦ rw e (omega (arith, parts, length-pre_token e))
    | inr e ↦ rw e (omega (arith, parts, length-pre_no_token e))
  ]
    where
      parts :
          length (write_frame_header 0 FrameType.setup fl ++ raw)
          ≡ length pre + (2 + length mm + length md) + calc_payload_frame_size d m
      parts = omega (
        arith,
        length-append (write_frame_header 0 FrameType.setup fl) raw,
        length-append fields (payload_field d m),
        length-header 0 FrameType.setup fl,
        length-fields,
        length-payload_field d m,
      )

  validate-frame : validate frame ≡ none
  unfolding validate
  validate-frame =
      rw (len-framed 0 FrameType.setup fl raw)
        (ap incomplete_if ((ltb-false_iff _ _).1 (omega (arith, long))))
    where
      long : 12 ≤ length raw
      long = omega (arith, length-append fields (payload_field d m), length-fields, length-pre)

  -- For a token of less than 65522 bytes, MIME types of less than 256 bytes, metadata of at most
  -- 16777215 bytes, version numbers of 16 bits and times that are 32 bits in milliseconds, the
  -- bytes written for a setup frame are those of the frame built in a buffer, as many as Len says;
  -- they validate, and version, times to the millisecond, lease flag, token, MIME types, metadata
  -- (absent where empty) and data are read back from them.
  pub setup_round_trip :
      v.major < 2 ^ 16
      → v.minor < 2 ^ 16
      → ka / 1_000_000 < 2 ^ 32
      → lt / 1_000_000 < 2 ^ 32
      → (bs : Bytes) × (emit (write_to (new_writeable_setup_frame v ka lt t mm md d m lease))
          ≡ done bs)
        × (new_setup_frame v ka lt t mm md d m lease ≡ done (new_buffered_frame bs))
        × (length bs ≡ len (new_writeable_setup_frame v ka lt t mm md d m lease))
        × (validate (new_buffered_frame bs) ≡ none)
        × (version (new_buffered_frame bs) ≡ done v)
        × (time_between_keepalive (new_buffered_frame bs) ≡ done (1_000_000 * (ka / 1_000_000)))
        × (max_lifetime (new_buffered_frame bs) ≡ done (1_000_000 * (lt / 1_000_000)))
        × (has_flag (new_buffered_frame bs) Flag.lease ≡ done lease)
        × (token (new_buffered_frame bs) ≡ done t)
        × (mime (new_buffered_frame bs) ≡ done (mm, md))
        × (metadata (new_buffered_frame bs) ≡ done (reported m))
        × (data_bytes (new_buffered_frame bs) ≡ done d)
  setup_round_trip hmaj hmin hka hlt = (
    write_frame_header 0 FrameType.setup fl ++ raw,
    written-frame,
    built-frame,
    len-frame,
    validate-frame,
    version-frame hmaj hmin,
    keepalive-frame hka,
    lifetime-frame hlt,
    has_flag-framed 0 FrameType.setup fl raw Flag.lease (omega arith)
          (mark_metadata-IsFlag m (written_flag t lease) (written_flag-IsFlag t lease))
        ∙ ap done (check-lease m t lease),
    token-frame,
    mime-frame,
    metadata-frame,
    data-frame,
  )

-- A setup frame with eight to twelve bytes behind its header and a flag of ten bits without resume
-- validates, and reading its MIME types panics.
pub short_frame_passes :
    (sid flag : ℕ) (rest : Bytes)
    → IsFlag flag
    → check flag Flag.resume ≡ false
    → 8 ≤ length rest
    → length rest ≤ 12
    → (validate (framed sid FrameType.setup flag rest) ≡ none)
      × (mime (framed sid FrameType.setup flag rest) ≡ panic)
unfolding validate mime seek_mime seek_if
short_frame_passes sid flag rest hf none_set lo hi = (
  rw (len-framed sid FrameType.setup flag rest)
      (ap incomplete_if ((ltb-false_iff _ _).1 (omega arith))),
  rw (
    has_flag-framed sid FrameType.setup flag rest Flag.resume (omega arith) hf,
    none_set,
    body-framed sid FrameType.setup flag rest,
    index_past rest 12 hi,
  ),
)

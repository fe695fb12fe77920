-- ===== src/Framing/Convert/Written.antt =====
-- What FromBytes makes of the frames that the writeable frames of core/framing write.
use rsocket_go.Base.{
  ℕ, ◌^◌, ◌<◌, ◌≡◌, refl, ap, arith, ◌∙◌, sym, Bool, ◌++◌, append_assoc, append-nil, [], some,
}
use mathlib.Core.Path.{subst}
use rsocket_go.Base.Outcome.{Outcome, done, panic, ◌>>=◌}
use rsocket_go.BigEndian.{Bytes}
use rsocket_go.Core.Flag
use rsocket_go.Core.FrameType
use rsocket_go.Core.Types.{IsFlag}
use rsocket_go.Core.Version.{Version}
use rsocket_go.Core.Header.{new_frame_header, write_frame_header, bytes-new_frame_header}
use rsocket_go.Core.Header
use rsocket_go.Framing.Program.{Program, nothing, chunk, word, ◌⨟◌, crash, emit}
use rsocket_go.Framing.Parts.{mark_metadata, mark_metadata-IsFlag}
use rsocket_go.Framing.Buffered.{new_buffered_frame}
use rsocket_go.Framing.Payload
use rsocket_go.Framing.RequestResponse
use rsocket_go.Framing.FireAndForget
use rsocket_go.Framing.RequestStream
use rsocket_go.Framing.RequestChannel
use rsocket_go.Framing.RequestN
use rsocket_go.Framing.Cancel
use rsocket_go.Framing.Error
use rsocket_go.Framing.Keepalive
use rsocket_go.Framing.Lease
use rsocket_go.Framing.MetadataPush
use rsocket_go.Framing.ResumeOk
use rsocket_go.Framing.Resume
use rsocket_go.Framing.Setup
use rsocket_go.Framing.Keepalive.{respond_flag, respond_flag-IsFlag}
use rsocket_go.Framing.Lease.{lease_flag, lease_flag-IsFlag}
use rsocket_go.Framing.MetadataPush.{metadata_push_header}
use rsocket_go.Framing.Setup.{written_flag}
use rsocket_go.Framing.Setup.Fields.{written_flag-IsFlag}
use rsocket_go.Framing.Convert.{
  Kind, kind_of, payload_frame, request_response_frame, fire_and_forget_frame, request_stream_frame,
  request_channel_frame, request_n_frame, cancel_frame, error_frame, keepalive_frame, lease_frame,
  metadata_push_frame, resume_ok_frame, resume_frame, setup_frame, frame, from_bytes,
  from_bytes-kind,
}

-- The calls that make a writeable frame.
pub data Written : Type 0 where
  payload : ℕ → Bytes → Bytes → ℕ → Written
  request_response : ℕ → Bytes → Bytes → ℕ → Written
  fire_and_forget : ℕ → Bytes → Bytes → ℕ → Written
  request_stream : ℕ → ℕ → Bytes → Bytes → ℕ → Written
  request_channel : ℕ → ℕ → Bytes → Bytes → ℕ → Written
  request_n : ℕ → ℕ → ℕ → Written
  cancel : ℕ → Written
  error : ℕ → ℕ → Bytes → Written
  keepalive : ℕ → Bytes → Bool → Written
  lease : ℕ → ℕ → Bytes → Written
  metadata_push : Bytes → Written
  resume_ok : ℕ → Written
  resume : Version → Bytes → ℕ → ℕ → Written
  setup : Version → ℕ → ℕ → Bytes → Bytes → Bytes → Bytes → Bytes → Bool → Written

-- WriteTo of the frame that a call makes.
unfoldable pub program : Written → Program
program (payload sid d m fg) = Payload.write_to (Payload.new_writeable_payload_frame sid d m fg)
program (request_response sid d m fg) =
    RequestResponse.write_to (RequestResponse.new_writeable_request_response_frame sid d m fg)
program (fire_and_forget sid d m fg) =
    FireAndForget.write_to (FireAndForget.new_writeable_fire_and_forget_frame sid d m fg)
program (request_stream sid n d m fg) =
    RequestStream.write_to (RequestStream.new_writeable_request_stream_frame sid n d m fg)
program (request_channel sid n d m fg) =
    RequestChannel.write_to (RequestChannel.new_writeable_request_channel_frame sid n d m fg)
program (request_n sid n fg) = RequestN.write_to (RequestN.new_writeable_request_n_frame sid n fg)
program (cancel sid) = Cancel.write_to (Cancel.new_writeable_cancel_frame sid)
program (error sid n d) = Error.write_to (Error.new_writeable_error_frame sid n d)
program (keepalive n d respond) =
    Keepalive.write_to (Keepalive.new_writeable_keepalive_frame n d respond)
program (lease ttl n m) = Lease.write_to (Lease.new_writeable_lease_frame ttl n m)
program (metadata_push m) = MetadataPush.write_to (MetadataPush.new_writeable_metadata_push_frame m)
program (resume_ok n) = ResumeOk.write_to (ResumeOk.new_writeable_resume_ok_frame n)
program (resume v t n last) = Resume.write_to (Resume.new_writeable_resume_frame v t n last)
program (setup v ka lt t mm md d m leases) =
    Setup.write_to (Setup.new_writeable_setup_frame v ka lt t mm md d m leases)

-- The type of core/framing that reads such a frame.
abbrev pub kind : Written → Kind
kind (payload sid d m fg) = payload_frame
kind (request_response sid d m fg) = request_response_frame
kind (fire_and_forget sid d m fg) = fire_and_forget_frame
kind (request_stream sid n d m fg) = request_stream_frame
kind (request_channel sid n d m fg) = request_channel_frame
kind (request_n sid n fg) = request_n_frame
kind (cancel sid) = cancel_frame
kind (error sid n d) = error_frame
kind (keepalive n d respond) = keepalive_frame
kind (lease ttl n m) = lease_frame
kind (metadata_push m) = metadata_push_frame
kind (resume_ok n) = resume_ok_frame
kind (resume v t n last) = resume_frame
kind (setup v ka lt t mm md d m leases) = setup_frame

-- Stream ids of 32 bits and flags of ten.
abbrev pub IsWithin : Written → Type 0
IsWithin (payload sid d m fg) = (sid < 2 ^ 32) × IsFlag fg
IsWithin (request_response sid d m fg) = (sid < 2 ^ 32) × IsFlag fg
IsWithin (fire_and_forget sid d m fg) = (sid < 2 ^ 32) × IsFlag fg
IsWithin (request_stream sid n d m fg) = (sid < 2 ^ 32) × IsFlag fg
IsWithin (request_channel sid n d m fg) = (sid < 2 ^ 32) × IsFlag fg
IsWithin (request_n sid n fg) = (sid < 2 ^ 32) × IsFlag fg
IsWithin (cancel sid) = sid < 2 ^ 32
IsWithin (error sid n d) = sid < 2 ^ 32
IsWithin other = 0 < 2 ^ 32

-- What is written first.
unfoldable Starts : Program → Bytes → Type 0
Starts nothing h = ⊥
Starts (chunk bs) h = bs ≡ h
Starts (word bs) h = ⊥
Starts (p ⨟ q) h = Starts p h
Starts crash h = ⊥

done_eq {ℓ} : {A : Type ℓ} {x y : A} → done x ≡ done y → x ≡ y
done_eq e = cc

Starts-emit :
    (p : Program) (h bs : Bytes) → Starts p h → emit p ≡ done bs → (rest : Bytes) × (bs ≡ h ++ rest)
unfolding Starts emit
Starts-emit nothing h bs s e = elim s [ ]
Starts-emit (word _) h bs s e = elim s [ ]
Starts-emit crash h bs s e = elim s [ ]
Starts-emit (chunk b) h bs s e = ([], sym (done_eq e) ∙ s ∙ sym (append-nil h))
Starts-emit (p ⨟ q) h bs s e = by_parts (emit p) (emit q) (λ a. Starts-emit p h a s) e
  where
    by_parts :
        (o u : Outcome Bytes)
        → ((a : Bytes) → o ≡ done a → (rest : Bytes) × (a ≡ h ++ rest))
        → (o >>= λ a. u >>= λ b. done (a ++ b)) ≡ done bs
        → (rest : Bytes) × (bs ≡ h ++ rest)
    by_parts panic u first e = cc
    by_parts (done a) panic first e = cc
    by_parts (done a) (done b) first e =
        let (rest, ea) = first a refl in
        (rest ++ b, sym (done_eq e) ∙ ap (λ x. x ++ b) ea ∙ append_assoc h rest b)

from_head :
    (p : Program) (sid t flag : ℕ) (k : Kind) (bs : Bytes)
    → Starts p (Header.bytes (new_frame_header sid t flag))
    → sid < 2 ^ 32
    → t < 2 ^ 6
    → IsFlag flag
    → kind_of t ≡ some k
    → emit p ≡ done bs
    → from_bytes bs ≡ done (frame k (new_buffered_frame bs))
from_head p sid t flag k bs s hs ht hf known e =
    let (rest, eb) = Starts-emit p (Header.bytes (new_frame_header sid t flag)) bs s e in
    subst (λ x. from_bytes x ≡ done (frame k (new_buffered_frame x)))
      (sym (eb ∙ ap (λ h. h ++ rest) (bytes-new_frame_header sid t flag)))
      (from_bytes-kind sid t flag rest k hs ht hf known)

-- For a stream id of 32 bits and a flag of ten bits, FromBytes makes of the bytes that any of the
-- fourteen writeable frames writes a frame of the type that reads it, over all of the bytes.
pub from_bytes-program :
    (f : Written) (bs : Bytes)
    → IsWithin f
    → emit (program f) ≡ done bs
    → from_bytes bs ≡ done (frame (kind f) (new_buffered_frame bs))
unfolding program Starts kind_of Setup.write_version metadata_push_header Payload.write_to
    Payload.new_writeable_payload_frame RequestResponse.write_to
    RequestResponse.new_writeable_request_response_frame FireAndForget.write_to
    FireAndForget.new_writeable_fire_and_forget_frame RequestStream.write_to
    RequestStream.new_writeable_request_stream_frame RequestChannel.write_to
    RequestChannel.new_writeable_request_channel_frame RequestN.write_to
    RequestN.new_writeable_request_n_frame Cancel.write_to Cancel.new_writeable_cancel_frame
    Error.write_to Error.new_writeable_error_frame Keepalive.write_to
    Keepalive.new_writeable_keepalive_frame Lease.write_to Lease.new_writeable_lease_frame
    MetadataPush.write_to MetadataPush.new_writeable_metadata_push_frame ResumeOk.write_to
    ResumeOk.new_writeable_resume_ok_frame Resume.write_to Resume.new_writeable_resume_frame
    Setup.write_to Setup.new_writeable_setup_frame
from_bytes-program (payload sid d m fg) bs (hs, hf) e =
    from_head (program (payload sid d m fg)) sid FrameType.payload (mark_metadata m fg)
      payload_frame bs refl hs (omega arith) (mark_metadata-IsFlag m fg hf) refl e
from_bytes-program (request_response sid d m fg) bs (hs, hf) e =
    from_head (program (request_response sid d m fg)) sid FrameType.request_response
      (mark_metadata m fg) request_response_frame bs refl hs (omega arith)
      (mark_metadata-IsFlag m fg hf) refl e
from_bytes-program (fire_and_forget sid d m fg) bs (hs, hf) e =
    from_head (program (fire_and_forget sid d m fg)) sid FrameType.request_fnf (mark_metadata m fg)
      fire_and_forget_frame bs refl hs (omega arith) (mark_metadata-IsFlag m fg hf) refl e
from_bytes-program (request_stream sid n d m fg) bs (hs, hf) e =
    from_head (program (request_stream sid n d m fg)) sid FrameType.request_stream
      (mark_metadata m fg) request_stream_frame bs refl hs (omega arith)
      (mark_metadata-IsFlag m fg hf) refl e
from_bytes-program (request_channel sid n d m fg) bs (hs, hf) e =
    from_head (program (request_channel sid n d m fg)) sid FrameType.request_channel
      (mark_metadata m fg) request_channel_frame bs refl hs (omega arith)
      (mark_metadata-IsFlag m fg hf) refl e
from_bytes-program (request_n sid n fg) bs (hs, hf) e =
    from_head (program (request_n sid n fg)) sid FrameType.request_n fg request_n_frame bs refl hs
      (omega arith) hf refl e
from_bytes-program (cancel sid) bs hs e =
    from_head (program (cancel sid)) sid FrameType.cancel 0 cancel_frame bs refl hs (omega arith)
      (omega arith) refl e
from_bytes-program (error sid n d) bs hs e =
    from_head (program (error sid n d)) sid FrameType.error 0 error_frame bs refl hs (omega arith)
      (omega arith) refl e
from_bytes-program (keepalive n d respond) bs hs e =
    from_head (program (keepalive n d respond)) 0 FrameType.keepalive (respond_flag respond)
      keepalive_frame bs refl hs (omega arith) (respond_flag-IsFlag respond) refl e
from_bytes-program (lease ttl n m) bs hs e =
    from_head (program (lease ttl n m)) 0 FrameType.lease (lease_flag m) lease_frame bs refl hs
      (omega arith) (lease_flag-IsFlag m) refl e
from_bytes-program (metadata_push m) bs hs e =
    from_head (program (metadata_push m)) 0 FrameType.metadata_push Flag.metadata
      metadata_push_frame bs refl hs (omega arith) (omega arith) refl e
from_bytes-program (resume_ok n) bs hs e =
    from_head (program (resume_ok n)) 0 FrameType.resume_ok 0 resume_ok_frame bs refl hs
      (omega arith) (omega arith) refl e
from_bytes-program (resume v t n last) bs hs e =
    from_head (program (resume v t n last)) 0 FrameType.resume 0 resume_frame bs refl hs
      (omega arith) (omega arith) refl e
from_bytes-program (setup v ka lt t mm md d m leases) bs hs e =
    from_head (program (setup v ka lt t mm md d m leases)) 0 FrameType.setup
      (mark_metadata m (written_flag t leases)) setup_frame bs refl hs (omega arith)
      (mark_metadata-IsFlag m (written_flag t leases) (written_flag-IsFlag t leases)) refl e

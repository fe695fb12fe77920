-- ===== src/Examples/Frames.antt =====
-- Every kind of frame at concrete values: the theorems on what is read back, applied.
use rsocket_go.Base.{◌≡◌, ◌*◌, ◌/◌, arith, true, [], ◌∷◌, length, none}
use rsocket_go.Base.Outcome.{done}
use rsocket_go.BigEndian.{Bytes}
use rsocket_go.Core.Flag
use rsocket_go.Core.Version.{default_version}
use rsocket_go.Framing.Program.{emit}
use rsocket_go.Framing.Buffered.{new_buffered_frame, header, has_flag}
use rsocket_go.Framing.Shape.{reported}
use rsocket_go.Framing.Payload
use rsocket_go.Framing.RequestN
use rsocket_go.Framing.Error
use rsocket_go.Framing.Keepalive
use rsocket_go.Framing.Lease
use rsocket_go.Framing.Resume
use rsocket_go.Framing.Resume.Laws
use rsocket_go.Framing.Setup
use rsocket_go.Framing.Setup.RoundTrip

abbrev some_data : Bytes
some_data = 104 ∷ 105 ∷ []

abbrev some_metadata : Bytes
some_metadata = 109 ∷ []

abbrev some_mime : Bytes
some_mime = 116 ∷ 47 ∷ 120 ∷ []

payload_round_trip_example :
    (bs : Bytes) × (emit
        (Payload.write_to (Payload.new_writeable_payload_frame 1 some_data some_metadata Flag.next))
      ≡ done bs)
    × (header (new_buffered_frame bs)
        ≡ done (Payload.new_writeable_payload_frame 1 some_data some_metadata Flag.next).head)
    × (Payload.validate (new_buffered_frame bs) ≡ done none)
    × (Payload.metadata (new_buffered_frame bs) ≡ done (reported some_metadata))
    × (Payload.data_bytes (new_buffered_frame bs) ≡ done some_data)
payload_round_trip_example =
    Payload.payload_round_trip 1 some_data some_metadata Flag.next (omega arith) (omega arith)
      (λ e. cc) (omega arith)

request_n_round_trip_example :
    (bs : Bytes) × (emit (RequestN.write_to (RequestN.new_writeable_request_n_frame 1 42 0))
      ≡ done bs)
    × (RequestN.new_request_n_frame 1 42 0 ≡ new_buffered_frame bs)
    × (length bs ≡ RequestN.len (RequestN.new_writeable_request_n_frame 1 42 0))
    × (header (new_buffered_frame bs) ≡ done (RequestN.new_writeable_request_n_frame 1 42 0).head)
    × (RequestN.validate (new_buffered_frame bs) ≡ none)
    × (RequestN.n (new_buffered_frame bs) ≡ done 42)
request_n_round_trip_example = RequestN.request_n_round_trip 1 42 0 (omega arith)

error_round_trip_example :
    (bs : Bytes) × (emit (Error.write_to (Error.new_writeable_error_frame 1 0x201 some_data))
      ≡ done bs)
    × (Error.new_error_frame 1 0x201 some_data ≡ new_buffered_frame bs)
    × (length bs ≡ Error.len (Error.new_writeable_error_frame 1 0x201 some_data))
    × (header (new_buffered_frame bs)
        ≡ done (Error.new_writeable_error_frame 1 0x201 some_data).head)
    × (Error.validate (new_buffered_frame bs) ≡ none)
    × (Error.to_error (new_buffered_frame bs)
        ≡ done (Error.new_writeable_error_frame 1 0x201 some_data).frozen)
error_round_trip_example = Error.error_round_trip 1 0x201 some_data (omega arith)

keepalive_round_trip_example :
    (bs : Bytes) × (emit
        (Keepalive.write_to (Keepalive.new_writeable_keepalive_frame 77 some_data true))
      ≡ done bs)
    × (Keepalive.new_keepalive_frame 77 some_data true ≡ new_buffered_frame bs)
    × (length bs ≡ Keepalive.len (Keepalive.new_writeable_keepalive_frame 77 some_data true))
    × (Keepalive.validate (new_buffered_frame bs) ≡ none)
    × (has_flag (new_buffered_frame bs) Flag.respond ≡ done true)
    × (Keepalive.last_received_position (new_buffered_frame bs) ≡ done 77)
    × (Keepalive.data_bytes (new_buffered_frame bs) ≡ done some_data)
keepalive_round_trip_example = Keepalive.keepalive_round_trip 77 some_data true (omega arith)

lease_round_trip_example :
    (bs : Bytes) × (emit
        (Lease.write_to (Lease.new_writeable_lease_frame 5_000_000_000 10 some_metadata))
      ≡ done bs)
    × (Lease.new_lease_frame 5_000_000_000 10 some_metadata ≡ new_buffered_frame bs)
    × (length bs ≡ Lease.len (Lease.new_writeable_lease_frame 5_000_000_000 10 some_metadata))
    × (Lease.validate (new_buffered_frame bs) ≡ none)
    × (Lease.time_to_live (new_buffered_frame bs) ≡ done (1_000_000 * (5_000_000_000 / 1_000_000)))
    × (Lease.number_of_requests (new_buffered_frame bs) ≡ done 10)
    × (Lease.metadata (new_buffered_frame bs) ≡ done some_metadata)
lease_round_trip_example =
    Lease.lease_round_trip 5_000_000_000 10 some_metadata (omega arith) (omega arith)

resume_round_trip_example :
    (bs : Bytes) × (emit
        (Resume.write_to (Resume.new_writeable_resume_frame default_version some_data 3 4))
      ≡ done bs)
    × (Resume.new_resume_frame default_version some_data 3 4 ≡ done (new_buffered_frame bs))
    × (length bs ≡ Resume.len (Resume.new_writeable_resume_frame default_version some_data 3 4))
    × (Resume.validate (new_buffered_frame bs) ≡ none)
    × (Resume.version (new_buffered_frame bs) ≡ done default_version)
    × (Resume.token (new_buffered_frame bs) ≡ done some_data)
    × (Resume.last_received_server_position (new_buffered_frame bs) ≡ done 4)
    × (Resume.first_available_client_position (new_buffered_frame bs) ≡ done 3)
resume_round_trip_example =
    Laws.resume_round_trip default_version some_data 3 4 (omega arith) (omega arith) (omega arith)
      (omega arith) (omega arith)

setup_round_trip_example :
    (bs : Bytes) × (emit (
        Setup.write_to (
          Setup.new_writeable_setup_frame default_version 20_000_000_000 90_000_000_000 some_data
            some_mime some_mime some_data some_metadata true))
      ≡ done bs)
    × (Setup.new_setup_frame default_version 20_000_000_000 90_000_000_000 some_data some_mime
          some_mime some_data some_metadata true
        ≡ done (new_buffered_frame bs))
    × (length bs
        ≡ Setup.len (
            Setup.new_writeable_setup_frame default_version 20_000_000_000 90_000_000_000 some_data
              some_mime some_mime some_data some_metadata true))
    × (Setup.validate (new_buffered_frame bs) ≡ none)
    × (Setup.version (new_buffered_frame bs) ≡ done default_version)
    × (Setup.time_between_keepalive (new_buffered_frame bs)
        ≡ done (1_000_000 * (20_000_000_000 / 1_000_000)))
    × (Setup.max_lifetime (new_buffered_frame bs) ≡ done (1_000_000 * (90_000_000_000 / 1_000_000)))
    × (has_flag (new_buffered_frame bs) Flag.lease ≡ done true)
    × (Setup.token (new_buffered_frame bs) ≡ done some_data)
    × (Setup.mime (new_buffered_frame bs) ≡ done (some_mime, some_mime))
    × (Setup.metadata (new_buffered_frame bs) ≡ done (reported some_metadata))
    × (Setup.data_bytes (new_buffered_frame bs) ≡ done some_data)
setup_round_trip_example =
    RoundTrip.setup_round_trip default_version 20_000_000_000 90_000_000_000 some_data some_mime
      some_mime some_data some_metadata true (omega arith) (omega arith) (omega arith) (omega arith)
      (omega arith) (omega arith) (omega arith) (omega arith)

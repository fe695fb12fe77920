-- ===== src/Examples/Runs.antt =====
-- Fragments, streams, stream ids, references and tags at concrete values.
use rsocket_go.Base.{
  ℕ, zero, suc, ◌+◌, ◌%◌, ◌^◌, ◌<◌, ◌≡◌, refl, arith, Bool, true, false, List, [], ◌∷◌, ◌++◌,
  length, take, map, nonempty, none, some, ◌==◌,
}
use rsocket_go.Base.Outcome.{done, panic}
use rsocket_go.BigEndian.{Bytes}
use rsocket_go.Core.Flag
use rsocket_go.Core.FrameType
use rsocket_go.Core.Types.{check}
use rsocket_go.Core.Version.{default_version}
use rsocket_go.Framing.Program.{emit, chunk}
use rsocket_go.Framing.Buffered.{BufferedFrame, new_buffered_frame}
use rsocket_go.Framing.Buffered.Refs.{RefCall, inc_ref_call, release_call}
use rsocket_go.Framing.Buffered.Shared
use rsocket_go.Framing.Buffered.Shared.{
  Shared, new_shared, drop_ref, adds, drops, loads, swaps, Reach, begins, later, holders, Counted,
}
use rsocket_go.Framing.Convert.Written
use rsocket_go.Framing.Convert.Written.{program}
use rsocket_go.Framing.RequestN
use rsocket_go.Framing.Convert.{request_n_frame}
use rsocket_go.Framing.Program.{emit}
use rsocket_go.BigEndian.{put_uint32}
use rsocket_go.Core.Header.{bytes, new_frame_header}
use rsocket_go.Framing.Buffered.{inc_ref, give_back}
use rsocket_go.Base.Int.{pos}
use rsocket_go.Framing.Buffered.Laws.{framed}
use rsocket_go.Framing.Convert.{Received, from_bytes, frame, payload_frame}
use rsocket_go.Framing.Convert
use rsocket_go.Framing.Resume
use rsocket_go.Framing.Resume.Laws
use rsocket_go.Framing.Setup
use rsocket_go.Framing.Setup.RoundTrip
use rsocket_go.Framing.Shape.{reported}
use rsocket_go.Fragmentation.Splitter.{
  SplitResult, split_skip, split_loop, advance, room, move, split_flag, between, is_valid_fragment,
}
use rsocket_go.Fragmentation.Splitter.Correct.{Splits}
use rsocket_go.Fragmentation.Splitter.Correct
use rsocket_go.Fragmentation.Splitter.Sizes.{AllFit}
use rsocket_go.Fragmentation.Splitter.Sizes
use rsocket_go.Fragmentation.Joiner.{Whole, Fragments, whole_metadata, whole_data}
use rsocket_go.Fragmentation.Joiner.Reassembly.{AllCarry}
use rsocket_go.Fragmentation.Joiner.Delivery.{
  Arrivals, delivered, table_after, frames_of, alone_all,
}
use rsocket_go.Fragmentation.Joiner.Delivery
use rsocket_go.Fragmentation.Joiner.Payloads
use rsocket_go.Transport.Decoder.{wire, do_split, more, DecodeError}
use rsocket_go.Transport.Decoder
use rsocket_go.Transport.Stream.{AllWrite, Scans, write_all, read_all}
use rsocket_go.Transport.Stream
use rsocket_go.Socket.StreamIds.{client_next, server_next, next_stream_id, half_seed}
use rsocket_go.Socket.StreamIds
use rsocket_go.Socket.StreamIds.Free
use rsocket_go.Extension.Routing.{encode_routing, parse_routing_tags}
use rsocket_go.Extension.Routing

abbrev bytes_3 : Bytes
bytes_3 = 1 ∷ 2 ∷ 3 ∷ []

abbrev bytes_6 : Bytes
bytes_6 = 1 ∷ 2 ∷ 3 ∷ 4 ∷ 5 ∷ 6 ∷ []

-- Five bytes of room in a frame, two of them beside a length field.
abbrev three_frames : List SplitResult
three_frames =
    record { flag = 0x180; metadata = 4 ∷ 5 ∷ []; data_bytes = [] }
    ∷ record { flag = 0x180; metadata = 6 ∷ []; data_bytes = 1 ∷ [] }
    ∷ record { flag = 0; metadata = []; data_bytes = 2 ∷ 3 ∷ [] }
    ∷ []

three_frames_split : split_skip 11 0 bytes_3 (4 ∷ 5 ∷ 6 ∷ []) ≡ some three_frames
unfolding split_skip split_loop advance room move split_flag between
three_frames_split = refl

-- The three frames on stream 1, between frames of stream 3.
abbrev mixed : Arrivals
mixed =
    (
      1,
      record {
        frame_type = 10;
        initial_n = 0;
        flag = 0x180;
        metadata = some (4 ∷ 5 ∷ []);
        data_bytes = [];
      },
    )
    ∷ (
      3,
      record { frame_type = 10; initial_n = 0; flag = 0xA0; metadata = none; data_bytes = 9 ∷ [] },
    )
    ∷ (
      1,
      record {
        frame_type = 10;
        initial_n = 0;
        flag = 0x1A0;
        metadata = some (6 ∷ []);
        data_bytes = 1 ∷ [];
      },
    )
    ∷ (
      3,
      record { frame_type = 10; initial_n = 0; flag = 0x20; metadata = none; data_bytes = 8 ∷ [] },
    )
    ∷ (
      1,
      record {
        frame_type = 10;
        initial_n = 0;
        flag = 0x20;
        metadata = none;
        data_bytes = 2 ∷ 3 ∷ [];
      },
    )
    ∷ []

abbrev no_fragments : Fragments
no_fragments k = none

mixed_carry : AllCarry three_frames (frames_of 1 mixed)
unfolding AllCarry frames_of check
mixed_carry = (
  record { same_metadata = refl; same_follow = refl; metadata_part = refl; data_part = refl },
  (
    record { same_metadata = refl; same_follow = refl; metadata_part = refl; data_part = refl },
    (
      record { same_metadata = refl; same_follow = refl; metadata_part = refl; data_part = refl },
      tt,
    ),
  ),
)

valid_11 : is_valid_fragment 11 ≡ true
unfolding is_valid_fragment
valid_11 = refl

delivered-split_example :
    (w : Whole) × (delivered 1 no_fragments mixed ≡ w ∷ [])
    × (whole_metadata w ≡ reported (4 ∷ 5 ∷ 6 ∷ []))
    × (whole_data w ≡ bytes_3)
    × (table_after no_fragments mixed 1 ≡ none)
delivered-split_example =
    Payloads.delivered-split 11 0 bytes_3 (4 ∷ 5 ∷ 6 ∷ []) three_frames valid_11 three_frames_split
      1 mixed no_fragments mixed_carry refl

split_skip-Splits_example :
    (rs : List SplitResult) × (split_skip 11 0 bytes_3 bytes_6 ≡ some rs)
    × (nonempty rs ≡ true)
    × Splits rs bytes_6 bytes_3
split_skip-Splits_example = Correct.split_skip-Splits 11 0 bytes_3 bytes_6 valid_11

split_skip-AllFit_example : AllFit 11 0 three_frames
split_skip-AllFit_example =
    Sizes.split_skip-AllFit 11 0 bytes_3 (4 ∷ 5 ∷ 6 ∷ []) three_frames (omega arith)
      three_frames_split

delivered-alone_example :
    (delivered 3 no_fragments mixed ≡ (alone_all (no_fragments 3) (frames_of 3 mixed)).1)
    × (table_after no_fragments mixed 3 ≡ (alone_all (no_fragments 3) (frames_of 3 mixed)).0)
delivered-alone_example = Delivery.delivered-alone 3 mixed no_fragments

two_written :
    AllWrite ((6, chunk bytes_6) ∷ (7, chunk (7 ∷ bytes_6)) ∷ []) (bytes_6 ∷ (7 ∷ bytes_6) ∷ [])
unfolding AllWrite emit
two_written = (refl, refl, (refl, refl, tt))

tcp_round_trip_example :
    (sent : Bytes) × (tokens : List Bytes) × (emit
        (write_all ((6, chunk bytes_6) ∷ (7, chunk (7 ∷ bytes_6)) ∷ []))
      ≡ done sent)
    × Scans (sent ++ take 4 (wire bytes_6)) tokens (take 4 (wire bytes_6))
    × (read_all tokens ≡ done (map (λ frame. (frame, none)) (bytes_6 ∷ (7 ∷ bytes_6) ∷ [])))
tcp_round_trip_example =
    Stream.tcp_round_trip ((6, chunk bytes_6) ∷ (7, chunk (7 ∷ bytes_6)) ∷ [])
      (bytes_6 ∷ (7 ∷ bytes_6) ∷ []) bytes_6 4 two_written
      ((omega arith, omega arith), ((omega arith, omega arith), tt)) (omega arith, omega arith)
      (omega (arith, Decoder.length-wire bytes_6))

abbrev request_n_bytes : Bytes
request_n_bytes = 0 ∷ 0 ∷ 0 ∷ 1 ∷ 32 ∷ 0 ∷ 0 ∷ 0 ∷ 0 ∷ 42 ∷ []

request_n_written : emit (program (Written.request_n 1 42 0)) ≡ done request_n_bytes
unfolding program RequestN.write_to RequestN.new_writeable_request_n_frame emit bytes
    new_frame_header put_uint32
request_n_written = refl

from_bytes-program_example :
    from_bytes request_n_bytes ≡ done (frame request_n_frame (new_buffered_frame request_n_bytes))
from_bytes-program_example =
    Written.from_bytes-program (Written.request_n 1 42 0) request_n_bytes (omega arith, omega arith)
      request_n_written

from_bytes_total_example : (r : Received) × (from_bytes bytes_6 ≡ done r)
from_bytes_total_example = Convert.from_bytes_total bytes_6

routing_round_trip_example :
    (raw : Bytes) × (encode_routing bytes_3 (bytes_6 ∷ [] ∷ []) ≡ some raw)
    × (parse_routing_tags raw ≡ done (bytes_3 ∷ bytes_6 ∷ [] ∷ [], true))
routing_round_trip_example =
    Routing.routing_round_trip bytes_3 (bytes_6 ∷ [] ∷ []) (omega arith)
      (omega arith, (omega arith, tt))

parse_routing_tags_total_example :
    (tags : List Bytes) × (ok : Bool) × (parse_routing_tags (9 ∷ bytes_3) ≡ done (tags, ok))
parse_routing_tags_total_example = Routing.parse_routing_tags_total (9 ∷ bytes_3)

first_loop_lem_example :
    (a b x y : ℕ) × (client_next 1 0 ≡ some (0 + 1, a, true))
    × (client_next 1 3 ≡ some (3 + 1, b, true))
    × (server_next 1 0 ≡ some (0 + 1, x, true))
    × (server_next 1 3 ≡ some (3 + 1, y, true))
    × (a % 2 ≡ 1)
    × (a < b)
    × (b < 2 ^ 31)
    × (0 < x)
    × (x % 2 ≡ 0)
    × (x < y)
    × (y < 2 ^ 31)
first_loop_lem_example = StreamIds.first_loop_lem 0 3 (omega arith) (omega arith)

abbrev one_busy : ℕ → Bool
one_busy sid = sid == 1

next_stream_id-free_example :
    (seed sid : ℕ) × (next_stream_id (client_next 1) one_busy (suc 1) half_seed ≡ some (seed, sid))
    × (one_busy sid ≡ false)
    × (sid % 2 ≡ 1)
    × (sid < 2 ^ 31)
next_stream_id-free_example =
    Free.next_stream_id-free one_busy 1 half_seed (omega arith) (omega arith) refl

zeros : ℕ → Bytes
zeros zero = []
zeros (suc n) = 0 ∷ zeros n

length-zeros : (n : ℕ) → length (zeros n) ≡ n
unfolding zeros
length-zeros zero = refl
length-zeros (suc n) = omega (arith, length-zeros n)

token_overflow_example :
    (f : BufferedFrame) × (Resume.new_resume_frame default_version (zeros 65530) 0 0 ≡ done f)
    × (Resume.validate f ≡ none)
    × (Resume.token f ≡ panic)
token_overflow_example =
    Laws.token_overflow default_version (zeros 65530) 0 0 (omega (arith, length-zeros 65530))
      (omega (arith, length-zeros 65530))

short_frame_passes_example :
    (Setup.validate (framed 0 FrameType.setup 0 (7 ∷ 7 ∷ bytes_6)) ≡ none)
    × (Setup.mime (framed 0 FrameType.setup 0 (7 ∷ 7 ∷ bytes_6)) ≡ panic)
unfolding check
short_frame_passes_example =
    RoundTrip.short_frame_passes 0 0 (7 ∷ 7 ∷ bytes_6) (omega arith) no_resume (omega arith)
      (omega arith)
  where
    no_resume : check 0 Flag.resume ≡ false
    no_resume = refl

-- A second holder; both release the frame.
abbrev last_released : Shared
last_released = record {
  frame = record { inner = some bytes_6; refs = pos 0; returned = 0 };
  loading = 1;
  swapping = 0;
}

abbrev last_loaded : Shared
last_loaded = record last_released { loading = 0; swapping = 1 }

abbrev ended_frame : Shared
ended_frame = record {
  frame = record { inner = none; refs = pos 0; returned = 1 };
  loading = 0;
  swapping = 0;
}

abbrev two_releases : List RefCall
two_releases = inc_ref_call ∷ release_call ∷ release_call ∷ []

reach_released : Reach bytes_6 last_released two_releases
unfolding new_shared new_buffered_frame drop_ref inc_ref
reach_released = later _ _ _ _ (later _ _ _ _ (later _ _ _ _ begins adds) drops) drops

reach_ended : Reach bytes_6 ended_frame two_releases
unfolding give_back
reach_ended = later _ _ _ _ (later _ last_loaded _ _ reach_released (loads 0 refl)) (swaps 0 refl)

Reach-Counted_example : Counted bytes_6 (holders 1 two_releases) ended_frame
Reach-Counted_example = Shared.Reach-Counted bytes_6 ended_frame two_releases reach_ended

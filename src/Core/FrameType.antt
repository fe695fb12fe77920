-- ===== src/Core/FrameType.antt =====
-- core/types.go: the frame types, a uint8.
use rsocket_go.Base.{ℕ}

abbrev pub reserved : ℕ
reserved = 0x00

abbrev pub setup : ℕ
setup = 0x01

abbrev pub lease : ℕ
lease = 0x02

abbrev pub keepalive : ℕ
keepalive = 0x03

abbrev pub request_response : ℕ
request_response = 0x04

abbrev pub request_fnf : ℕ
request_fnf = 0x05

abbrev pub request_stream : ℕ
request_stream = 0x06

abbrev pub request_channel : ℕ
request_channel = 0x07

abbrev pub request_n : ℕ
request_n = 0x08

abbrev pub cancel : ℕ
cancel = 0x09

abbrev pub payload : ℕ
payload = 0x0A

abbrev pub error : ℕ
error = 0x0B

abbrev pub metadata_push : ℕ
metadata_push = 0x0C

abbrev pub resume : ℕ
resume = 0x0D

abbrev pub resume_ok : ℕ
resume_ok = 0x0E

abbrev pub ext : ℕ
ext = 0x3F

-- ===== src/Tests/Fcgi.antt =====
-- FastCGI and AJP at concrete inputs.
use bay_server_python.Ajp.Unpacker.Packets.{ready, bytes_received-packet}
use bay_server_python.Ajp.Unpacker.{
  Unpacker as AjpUnpacker, bytes_received as ajp_bytes_received, read_preamble,
}
use bay_server_python.Ajp.Commands.{
  put_send_body_chunk, get_send_body_chunk, max_chunklen, send_body_chunk_kind, pack_command,
  read_command,
}
use bay_server_python.Prelude.{
  ℕ, ◌+◌, ◌≡◌, refl, Bytes, List, [], ◌∷◌, ◌++◌, codes, length, true, false, arith, replicate,
  length-replicate, ◌<◌,
}
use bay_server_python.Prelude.Results.{ok}
use bay_server_python.Protocol.Packet.{Packet, new_packet}
use bay_server_python.Protocol.Accessor.{
  new_header_accessor, new_data_accessor, put_slice, read_limit,
}
use bay_server_python.Protocol.Accessor.Append.{IsAtEnd}
use bay_server_python.Protocol.Accessor.Read.{Holds}
use bay_server_python.Protocol.Accessor.Fill.{packet_of}
use bay_server_python.Protocol.Pump.{pump, then_run}
use bay_server_python.Protocol.Receiver.{continue, close, Receiver}
use bay_server_python.Fcgi.Command.{
  FcgPacket, BeginRequest, EndRequest, Param, pack, unpack, new_fcg_packet, put_params, get_params,
}
use bay_server_python.Fcgi.Command.Params.{params_bytes}
use bay_server_python.Fcgi.Command.RoundTrip.{record_of, preamble, params-roundtrip}
use bay_server_python.Fcgi.Unpacker.{reset_state, step, fuel, bytes_received}
use bay_server_python.Fcgi.Unpacker.Answer.{always_continue, bytes_received-always_continue}
use bay_server_python.Fcgi.Unpacker.Chunks.{loop-append}
use bay_server_python.Fcgi.Unpacker.Heads.{Head, header}
use bay_server_python.Fcgi.Unpacker.Records.{loop-record, at}
use bay_server_python.Ajp.Packet.{AjpPacket}
use bay_server_python.Ajp.RoundTrip.{
  text_bytes, packet_with, chunk_bytes, send_body_chunk-roundtrip, preamble as ajp_preamble,
}

abbrev two_params : List Param
two_params = (codes "HOST", codes "a.b") ∷ (codes "X", []) ∷ []

params-roundtrip_example :
    (p : FcgPacket) × (pack (put_params two_params) 5 (new_fcg_packet 4) ≡ ok p)
    × (p ≡ record_of 4 5 (params_bytes two_params))
    × (unpack get_params p ≡ ok (5, two_params))
params-roundtrip_example =
    params-roundtrip two_params 5 ((omega arith, omega arith), ((omega arith, omega arith), tt))

abbrev responder : BeginRequest
responder = record { role = 1; keep_conn = true }

abbrev failed : EndRequest
failed = record { app_status = 70000; protocol_status = 2 }

-- A handler that counts the records, and asks for the connection to be closed.
abbrev closer : Receiver ℕ FcgPacket
closer n p = (n + 1, ok close)

abbrev content : Bytes
content = 9 ∷ 8 ∷ 7 ∷ []

abbrev one_record : Bytes
one_record = preamble 5 1 3 ++ content

-- A record of three bytes with two bytes of padding.
abbrev padded : Head
padded = record { version = 1; kind = 5; req_id = 1; padding = 2; reserved = 0 }

abbrev padded_record : Bytes
padded_record = header padded 3 ++ (content ++ (0 ∷ 0 ∷ 1 ∷ []))

loop-record_example :
    pump (fuel closer padded_record) (step closer) (at closer 0 reset_state) padded_record
    ≡ pump (fuel closer (1 ∷ [])) (step closer) (at closer 1 reset_state) (1 ∷ [])
loop-record_example =
    loop-record closer 0 1 padded content (0 ∷ 0 ∷ []) (1 ∷ []) close (omega arith) (omega arith)
      refl refl

loop-append_example :
    pump
      (fuel closer (one_record ++ content))
      (step closer)
      (at closer 0 reset_state)
      (one_record ++ content)
    ≡ then_run
        (pump (fuel closer one_record) (step closer) (at closer 0 reset_state) one_record)
        (λ t. pump (fuel closer content) (step closer) t content)
loop-append_example =
    loop-append closer (at closer 0 reset_state) one_record content (omega arith, refl, refl)

bytes_received-always_continue_example :
    bytes_received closer (0, reset_state) one_record
    ≡ bytes_received (always_continue closer) (0, reset_state) one_record
bytes_received-always_continue_example =
    bytes_received-always_continue closer (0, reset_state) one_record

-- The handler asks for CLOSE, and the unpacker answers CONTINUE.
close_is_lost : bytes_received closer (0, reset_state) one_record ≡ ((1, reset_state), ok continue)
unfolding bytes_received pump put_slice new_header_accessor new_packet new_data_accessor
close_is_lost = refl

abbrev host : Bytes
host = codes "localhost"

abbrev text_packet : Packet
text_packet = packet_of 2 8188 (0x12 ∷ 0x34 ∷ 0 ∷ 12 ∷ []) (text_bytes host)

text_packet-Holds : Holds (new_data_accessor text_packet) (text_bytes host ++ [])
unfolding new_data_accessor read_limit
text_packet-Holds = record {
  front = 0x12 ∷ 0x34 ∷ 0 ∷ 12 ∷ [];
  back = [];
  splits = refl;
  before = refl;
  limit = refl;
}

empty_packet-IsAtEnd : IsAtEnd (new_data_accessor (packet_of 2 8188 content []))
unfolding new_data_accessor
empty_packet-IsAtEnd = record { at_end = refl; tight = refl; unlimited = refl }

send_body_chunk-roundtrip_example :
    (p : AjpPacket) × (pack_command send_body_chunk_kind false (put_send_body_chunk content) ≡ ok p)
    × (p ≡ packet_with false send_body_chunk_kind (chunk_bytes content ++ (0 ∷ [])))
    × (read_command get_send_body_chunk p ≡ ok content)
send_body_chunk-roundtrip_example = send_body_chunk-roundtrip content (omega arith)

long_chunk : max_chunklen < length (replicate {A = ℕ} 8185 0)
long_chunk = omega (arith, length-replicate {A = ℕ} 8185 0)

-- An AJP packet arrives whole.
abbrev ajp_closer : Receiver ℕ AjpPacket
ajp_closer n p = (n + 1, ok close)

abbrev ajp_start : AjpUnpacker
ajp_start = record {
  state = read_preamble;
  body_len = 0;
  kind = 0;
  to_server = false;
  need_data = false;
  preamble_buf = [];
  body_buf = [];
}

whole_packet :
    ajp_bytes_received ajp_closer (λ n. true) (0, ajp_start) (0x12 ∷ 0x34 ∷ 0 ∷ 2 ∷ 10 ∷ 7 ∷ [])
    ≡ ((1, record ajp_start { kind = 10; to_server = true; need_data = true }), ok close)
unfolding ajp_bytes_received pump put_slice new_header_accessor new_packet new_data_accessor
whole_packet = refl

bytes_received-packet_example :
    ajp_bytes_received ajp_closer
      (λ n. true)
      (0, ready ajp_start false)
      (ajp_preamble false (length content) ++ content)
    ≡ ((1, ready (record ajp_start { kind = 9; to_server = false }) true), ok close)
bytes_received-packet_example =
    bytes_received-packet ajp_closer (λ n. true) 0 1 ajp_start false false 9 (8 ∷ 7 ∷ []) close
      (omega arith) (omega arith) refl

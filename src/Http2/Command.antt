-- ===== src/Http2/Command.antt =====
-- bayserver_docker_http/h2: the header of a frame (h2_packet.py), H2Command, and the commands under
-- command/. `pack` is called on a new packet of the command's type, and a command's `unpack` starts
-- from a new command.
pub mod RoundTrip
pub mod Lists
pub mod Frames
use bay_server_python.Prelude.{
  ℕ, zero, suc, ◌+◌, ◌-◌, bit_and, bit_or, Bytes, List, [], ◌∷◌, length, slice, ltb, ◌==◌,
  if◌then◌else◌, Bool, true, false, codes,
}
use bay_server_python.Prelude.Results.{Result, ok, err, runtime_error, out_of_fuel}
use bay_server_python.Protocol.Packet.{new_packet, data_len}
use bay_server_python.Protocol.Accessor.{
  Accessor, M, ◌>>=◌, ◌>>◌, pure, fail, shr, shl, new_header_accessor, new_data_accessor, put_byte,
  put_short, put_int, put_bytes, get_byte, get_short, get_int, get_bytes,
}
use bay_server_python.Http2.Flags.{ack, padded, priority}
use bay_server_python.Http2.HeaderBlock.{HeaderBlock}
use bay_server_python.Http2.HeaderBlock
use bay_server_python.Http2.Unpacker.{
  H2Packet, frame_header_len, default_payload_maxlen, preface_kind, connection_preface,
}

unfoldable pub extract_int31 : ℕ → ℕ
extract_int31 val = bit_and val 0x7fffffff

unfoldable pub extract_flag : ℕ → ℕ
extract_flag val = bit_and (shr (bit_and val 0x80000000) 31) 1

unfoldable pub consolidate_flag_and_int32 : ℕ → ℕ → ℕ
consolidate_flag_and_int32 flag val = bit_or (shl (bit_and flag 1) 31) (bit_and val 0x7fffffff)

unfoldable pub make_stream_depency32 : Bool → ℕ → ℕ
unfolding extract_int31
make_stream_depency32 excluded dep = bit_or (shl (if excluded then 1 else 0) 31) (extract_int31 dep)

unfoldable pub put_int24 : ℕ → M (Unit {0})
put_int24 len =
    put_bytes (bit_and (shr len 16) 0xff ∷ bit_and (shr len 8) 0xff ∷ bit_and len 0xff ∷ [])

-- `pack_header` on the header accessor. What it writes lies in the header, so the length of the data is
-- the same before and after.
unfoldable pub put_frame_header : H2Packet → M (Unit {0})
unfolding put_int24 extract_int31 data_len
put_frame_header p = do
  put_int24 (data_len p.packet)
  put_byte p.packet.kind
  put_byte p.flags
  put_int (extract_int31 p.stream_id)

abbrev pub with_packet : H2Packet → Result (Unit {0} × Accessor) → Result H2Packet
with_packet p (ok (v, a)) = ok (record p { packet = a.packet })
with_packet p (err e) = err e

unfoldable pub pack_header : H2Packet → Result H2Packet
unfolding put_frame_header
pack_header p = with_packet p (put_frame_header p (new_header_accessor p.packet))

-- The constructor; the stream -1 of a new packet is set before it is read.
unfoldable pub new_h2_packet : ℕ → H2Packet
new_h2_packet kind = record {
  packet = new_packet kind frame_header_len default_payload_maxlen;
  flags = 0;
  stream_id = 0;
}

-- A command's `pack`: its body, then `H2Command.pack`.
unfoldable pub pack : M (Unit {0}) → ℕ → ℕ → H2Packet → Result H2Packet
unfolding pack_header
pack put_body stream_id flags p = elim (put_body (new_data_accessor p.packet)) [
  | ok (v, a) ↦ pack_header (record { packet = a.packet; stream_id = stream_id; flags = flags })
  | err e ↦ err e
]

-- A command's `unpack`: `H2Command.unpack`, then its body, which may look at the packet.
unfoldable pub unpack : {A : Type 0} → (H2Packet → M A) → H2Packet → Result (ℕ × ℕ × A)
unpack get_body p = elim (get_body p (new_data_accessor p.packet)) [
  | ok (v, a) ↦ ok (p.stream_id, p.flags, v)
  | err e ↦ err e
]

-- CmdData, with the slice of its buffer.
unfoldable pub put_data : ℕ → Bytes → M (Unit {0})
put_data flags buf = if padded flags then fail runtime_error else put_bytes buf

unfoldable pub get_data : H2Packet → M Bytes
unfolding data_len
get_data p = pure (slice p.packet.header_len (p.packet.header_len + data_len p.packet) p.packet.buf)

pub record GoAway : Type 0 where
  pub last_stream_id : ℕ
  pub error_code : ℕ
  pub debug_data : Bytes

abbrev pub put_unless_empty : Bytes → M (Unit {0})
put_unless_empty [] = pure tt
put_unless_empty (b ∷ bs) = put_bytes (b ∷ bs)

unfoldable pub put_go_away : GoAway → M (Unit {0})
put_go_away c = do put_int c.last_stream_id; put_int c.error_code; put_unless_empty c.debug_data

-- What is left of the data.
abbrev pub get_rest : H2Packet → M Bytes
get_rest p a = get_bytes (data_len p.packet - a.pos) a

unfoldable pub get_go_away : H2Packet → M GoAway
unfolding extract_int31 data_len
get_go_away p = do
  val ← get_int
  code ← get_int
  rest ← get_rest p
  pure (record { last_stream_id = extract_int31 val; error_code = code; debug_data = rest })

unfoldable pub put_ping : Bytes → M (Unit {0})
put_ping opaque_data = put_bytes opaque_data

unfoldable pub get_ping : H2Packet → M Bytes
get_ping p = get_bytes 8

pub record Priority : Type 0 where
  pub weight : ℕ
  pub excluded : Bool
  pub stream_dependency : ℕ

unfoldable pub put_priority : Priority → M (Unit {0})
unfolding make_stream_depency32
put_priority c = do
  put_int (make_stream_depency32 c.excluded c.stream_dependency)
  put_byte c.weight

unfoldable pub get_priority : H2Packet → M Priority
unfolding extract_flag extract_int31
get_priority p = do
  val ← get_int
  weight ← get_byte
  pure (record {
    weight = weight;
    excluded = extract_flag val == 1;
    stream_dependency = extract_int31 val;
  })

unfoldable pub put_rst_stream : ℕ → M (Unit {0})
put_rst_stream error_code = put_int error_code

unfoldable pub get_rst_stream : H2Packet → M ℕ
get_rst_stream p = get_int

unfoldable pub put_window_update : ℕ → M (Unit {0})
unfolding consolidate_flag_and_int32
put_window_update increment = put_int (consolidate_flag_and_int32 0 increment)

unfoldable pub get_window_update : H2Packet → M ℕ
unfolding extract_int31
get_window_update p = do val ← get_int; pure (extract_int31 val)

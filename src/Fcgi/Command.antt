-- ===== src/Fcgi/Command.antt =====
-- bayserver_docker_fcgi/fcg_packet.py, fcg_command.py and the commands BeginRequest, EndRequest and
-- Params under command/. A text is the list of its ASCII codes. The reserved bytes are blanks.
-- A command's `unpack` starts from a new command, so Params starts from an empty list.
pub mod RoundTrip
pub mod Params
use bay_server_python.Prelude.{
  ℕ, zero, suc, bit_and, bit_or, Bytes, List, [], ◌∷◌, ◌++◌, length, ltb, ◌==◌, if◌then◌else◌, Bool,
  true, false, not,
}
use bay_server_python.Prelude.Results.{Result, ok, err, out_of_fuel}
use bay_server_python.Protocol.Packet.{Packet, new_packet, data_len}
use bay_server_python.Protocol.Accessor.{
  Accessor, M, ◌>>=◌, ◌>>◌, pure, shr, shl, new_header_accessor, new_data_accessor, put_byte,
  put_short, put_int, put_bytes, get_byte, get_short, get_int, get_bytes,
}

pub record FcgPacket : Type 0 where
  pub packet : Packet
  pub version : ℕ
  pub req_id : ℕ

abbrev pub preamble_size : ℕ
preamble_size = 8

abbrev pub maxlen : ℕ
maxlen = 65535

unfoldable pub new_fcg_packet : ℕ → FcgPacket
new_fcg_packet kind = record {
  packet = new_packet kind preamble_size maxlen;
  version = 1;
  req_id = 0;
}

-- `pack_header` on the header accessor of the packet. What it writes lies in the header, so the length
-- of the data is the same before and after.
unfoldable pub put_preamble : FcgPacket → M (Unit {0})
unfolding data_len
put_preamble p = do
  put_byte p.version
  put_byte p.packet.kind
  put_short p.req_id
  put_short (data_len p.packet)
  put_byte 0
  put_byte 0

abbrev pub with_packet :
    {A : Type 0} → (Packet → FcgPacket) → Result (A × Accessor) → Result FcgPacket
with_packet f r = elim r [ ok (v, a) ↦ ok (f a.packet) | err e ↦ err e ]

unfoldable pub pack_header : FcgPacket → Result FcgPacket
unfolding put_preamble
pack_header p =
    with_packet (λ q. record p { packet = q }) (put_preamble p (new_header_accessor p.packet))

-- A command's `pack`: its body through the data accessor, then `FcgCommand.pack`.
unfoldable pub pack : M (Unit {0}) → ℕ → FcgPacket → Result FcgPacket
unfolding pack_header
pack put_body req_id p = elim (put_body (new_data_accessor p.packet)) [
  | ok (v, a) ↦ pack_header (record p { packet = a.packet; req_id = req_id })
  | err e ↦ err e
]

-- A command's `unpack`: `FcgCommand.unpack` and its body through the data accessor.
unfoldable pub unpack : {A : Type 0} → M A → FcgPacket → Result (ℕ × A)
unpack get_body p = elim (get_body (new_data_accessor p.packet)) [
  | ok (v, a) ↦ ok (p.req_id, v)
  | err e ↦ err e
]

pub record BeginRequest : Type 0 where
  pub role : ℕ
  pub keep_conn : Bool

abbrev pub reserved_of_begin : Bytes
reserved_of_begin = 0x20 ∷ 0x20 ∷ 0x20 ∷ 0x20 ∷ 0x20 ∷ []

unfoldable pub put_begin_request : BeginRequest → M (Unit {0})
put_begin_request c = do
  put_short c.role
  put_byte (if c.keep_conn then 1 else 0)
  put_bytes reserved_of_begin

unfoldable pub get_begin_request : M BeginRequest
get_begin_request = do
  role ← get_short
  flags ← get_byte
  pure (record { role = role; keep_conn = not (bit_and flags 1 == 0) })

pub record EndRequest : Type 0 where
  pub app_status : ℕ
  pub protocol_status : ℕ

abbrev pub reserved_of_end : Bytes
reserved_of_end = 0x20 ∷ 0x20 ∷ 0x20 ∷ []

unfoldable pub put_end_request : EndRequest → M (Unit {0})
put_end_request c = do put_int c.app_status; put_byte c.protocol_status; put_bytes reserved_of_end

unfoldable pub get_end_request : M EndRequest
get_end_request = do
  app ← get_int
  status ← get_byte
  pure (record { app_status = app; protocol_status = status })

abbrev pub Param : Type 0
Param = Bytes × Bytes

-- The `bytearray` of `write_length` is written as a list of four bytes.
unfoldable pub write_length : ℕ → M (Unit {0})
write_length n =
    if shr n 7 == 0
    then put_byte n
    else put_bytes (
        bit_or (bit_and (shr n 24) 0xff) 0x80
        ∷ bit_and (shr n 16) 0xff
        ∷ bit_and (shr n 8) 0xff
        ∷ bit_and n 0xff
        ∷ [])

-- The four-byte form, of which `b1` is the first byte.
abbrev pub read_long_length : ℕ → M ℕ
read_long_length b1 = do
  b2 ← get_byte
  b3 ← get_byte
  b4 ← get_byte
  pure (bit_or (bit_or (bit_or (shl (bit_and b1 0x7f) 24) (shl b2 16)) (shl b3 8)) b4)

unfoldable pub read_length : M ℕ
read_length = do b ← get_byte; if shr b 7 == 0 then pure b else read_long_length b

unfoldable pub put_param : Param → M (Unit {0})
unfolding write_length
put_param (name, value) = do
  write_length (length name)
  write_length (length value)
  put_bytes name
  put_bytes value

unfoldable pub put_params : List Param → M (Unit {0})
unfolding put_param
put_params [] = pure tt
put_params (p ∷ ps) = do put_param p; put_params ps

unfoldable pub get_param : M Param
unfolding read_length
get_param = do
  name_len ← read_length
  value_len ← read_length
  name ← get_bytes name_len
  value ← get_bytes value_len
  pure (name, value)

-- The loop of `unpack`, which adds to the parameters that the command has.
unfoldable pub params_loop : ℕ → List Param → M (List Param)
unfolding get_param data_len
params_loop zero ps a = err out_of_fuel
params_loop (suc fuel) ps a =
    let more = (do p ← get_param; params_loop fuel (ps ++ (p ∷ []))) in
    (if ltb a.pos (data_len a.packet) then more else pure ps) a

-- Each parameter has two bytes at least, so as many rounds as bytes are enough.
unfoldable pub get_params : M (List Param)
unfolding params_loop
get_params a = params_loop (suc (data_len a.packet)) [] a

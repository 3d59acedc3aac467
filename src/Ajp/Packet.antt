-- ===== src/Ajp/Packet.antt =====
-- bayserver_docker_ajp/ajp_packet.py and ajp_command.py: packets, texts and the packet header. A text
-- is the list of its ASCII codes.
use bay_server_python.Prelude.{
  ℕ, bit_and, Bytes, [], length, ◌==◌, if◌then◌else◌, Bool, true, false, not,
}
use bay_server_python.Prelude.Results.{Result, ok, err, runtime_error}
use bay_server_python.Protocol.Packet.{Packet, new_packet, data_len}
use bay_server_python.Protocol.Accessor.{
  M, ◌>>=◌, ◌>>◌, pure, shr, new_header_accessor, put_byte, put_short, put_bytes, get_byte,
  get_bytes, get_short,
}

pub record AjpPacket : Type 0 where
  pub packet : Packet
  pub to_server : Bool

abbrev pub preamble_size : ℕ
preamble_size = 4

abbrev pub max_data_len : ℕ
max_data_len = 8188

unfoldable pub new_ajp_packet : ℕ → AjpPacket
new_ajp_packet kind = record {
  packet = new_packet kind preamble_size max_data_len;
  to_server = false;
}

unfoldable pub put_string : Bytes → M (Unit {0})
put_string s =
    if length s == 0 then put_short 0xffff else (do put_short (length s); put_bytes s; put_byte 0)

unfoldable pub get_string_by_len : ℕ → M Bytes
get_string_by_len n =
    if n == 0xffff then pure [] else (do buf ← get_bytes n; _ ← get_byte; pure buf)

unfoldable pub get_string : M Bytes
unfolding get_string_by_len
get_string = do n ← get_short; get_string_by_len n

abbrev pub put_direction : Bool → M (Unit {0})
put_direction true = do put_byte 0x12; put_byte 0x34
put_direction false = do put_byte 0x41; put_byte 0x42

-- `pack_header` on the header accessor of the packet. What it writes lies in the header, so the length
-- of the data is the same before and after.
unfoldable pub put_preamble : AjpPacket → M (Unit {0})
unfolding data_len
put_preamble p = do
  put_direction p.to_server
  put_byte (bit_and (shr (data_len p.packet) 8) 0xff)
  put_byte (bit_and (data_len p.packet) 0xff)

unfoldable pub pack_header : AjpPacket → Result AjpPacket
unfolding put_preamble
pack_header p = elim (put_preamble p (new_header_accessor p.packet)) [
  | ok (v, a) ↦ ok (record p { packet = a.packet })
  | err e ↦ err e
]

-- `AjpCommand.pack` of a command of type `kind`, behind the body that the command has written.
unfoldable pub pack : ℕ → Bool → AjpPacket → Result AjpPacket
unfolding pack_header
pack kind to_server p =
    if not (p.packet.kind == kind)
    then err runtime_error
    else pack_header (record p { to_server = to_server })

-- `AjpCommand.unpack`: the direction.
unfoldable pub unpack : ℕ → AjpPacket → Result Bool
unpack kind p = if not (p.packet.kind == kind) then err runtime_error else ok p.to_server

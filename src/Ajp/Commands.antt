-- ===== src/Ajp/Commands.antt =====
-- bayserver_docker_ajp/command: EndResponse, GetBodyChunk and SendBodyChunk. `pack` is called on a new
-- packet of the command's type; a command's `unpack` starts from a new command.
use bay_server_python.Prelude.{ℕ, Bytes, length, ltb, ◌==◌, if◌then◌else◌, Bool, not}
use bay_server_python.Prelude.Results.{Result, ok, err, runtime_error}
use bay_server_python.Protocol.Accessor.{
  M, ◌>>=◌, ◌>>◌, pure, new_data_accessor, put_byte, put_short, put_bytes, get_byte, get_short,
  get_bytes,
}
use bay_server_python.Ajp.Packet.{AjpPacket, pack, new_ajp_packet}

abbrev pub end_response_kind : ℕ
end_response_kind = 5

abbrev pub get_body_chunk_kind : ℕ
get_body_chunk_kind = 6

abbrev pub send_body_chunk_kind : ℕ
send_body_chunk_kind = 3

abbrev pub max_chunklen : ℕ
max_chunklen = 8184

unfoldable pub put_end_response : Bool → M (Unit {0})
put_end_response reuse = do put_byte end_response_kind; put_byte (if reuse then 1 else 0)

unfoldable pub get_end_response : M Bool
get_end_response = do _ ← get_byte; b ← get_byte; pure (not (b == 0))

unfoldable pub put_get_body_chunk : ℕ → M (Unit {0})
put_get_body_chunk req_len = do put_byte get_body_chunk_kind; put_short req_len

-- The body of SendBodyChunk. The chunk is the slice of the command's buffer.
unfoldable pub put_send_body_chunk : Bytes → M (Unit {0})
put_send_body_chunk chunk a =
    let body = (do
      put_byte send_body_chunk_kind
      put_short (length chunk)
      put_bytes chunk
      put_byte 0) in
    if ltb max_chunklen (length chunk) then err runtime_error else body a

-- The chunk that a new command reads.
unfoldable pub get_send_body_chunk : M Bytes
get_send_body_chunk = do _ ← get_byte; n ← get_short; get_bytes n

-- A command's `pack` on a new packet of its type, and its body's part of `unpack`.
unfoldable pub pack_command : ℕ → Bool → M (Unit {0}) → Result AjpPacket
unfolding pack new_ajp_packet
pack_command kind to_server put_body =
    elim (put_body (new_data_accessor (new_ajp_packet kind).packet)) [
      | ok (v, a) ↦ pack kind to_server (record (new_ajp_packet kind) { packet = a.packet })
      | err e ↦ err e
    ]

unfoldable pub read_command : {A : Type 0} → M A → AjpPacket → Result A
read_command get_body p = elim (get_body (new_data_accessor p.packet)) [
  | ok (v, a) ↦ ok v
  | err e ↦ err e
]

-- ===== src/Fcgi/Unpacker/Heads.antt =====
-- What the record unpacker makes of the header of a record, and the packet of a record.
use bay_server_python.Prelude.{
  ℕ, ◌/◌, ◌%◌, ◌<◌, ◌≡◌, refl, ap, ◌∙◌, Bytes, [], ◌∷◌, ◌++◌, length, ◌==◌, if◌then◌else◌, arith,
}
use bay_server_python.Prelude.Bits.{bit_and_mask_lt}
use bay_server_python.Prelude.Results.{ok}
use bay_server_python.Protocol.Accessor.{new_data_accessor, put_slice, put_bytes}
use bay_server_python.Protocol.Accessor.Append.{short_bytes}
use bay_server_python.Protocol.Accessor.Read.{short_value}
use bay_server_python.Protocol.Accessor.Fill.{packet_of, put_header, put_body}
use bay_server_python.Fcgi.Command.{FcgPacket, new_fcg_packet, maxlen}
use bay_server_python.Fcgi.Unpacker.{
  State, read_preamble, read_content, end, Unpacker, make_packet, reset_state, to_padding,
  change_state, header_read_done, bytes_to_int,
}
use bay_server_python.Fcgi.Unpacker.Parts.{completed}

-- The header of a record on the wire, but for the length of the content.
pub record Head : Type 0 where
  pub version : ℕ
  pub kind : ℕ
  pub req_id : ℕ
  pub padding : ℕ
  pub reserved : ℕ

-- The fields fit their bytes.
pub record Fits (d : Head) : Type 0 where
  pub version : d.version < 256
  pub kind : d.kind < 256
  pub req_id : d.req_id < 65536
  pub padding : d.padding < 256

abbrev pub header : Head → ℕ → Bytes
header d len =
    d.version
    ∷ d.kind
    ∷ (short_bytes d.req_id ++ (short_bytes len ++ (d.padding ∷ d.reserved ∷ [])))

-- The packet of a record: its header and its content, without the padding. The version of a packet is
-- always 1.
abbrev pub received : Head → Bytes → FcgPacket
received d body = record {
  packet = packet_of d.kind maxlen (header d (length body)) body;
  version = 1;
  req_id = d.req_id;
}

-- The unpacker behind the preamble of a record, in the state `st`, with `body` of its content and `n` bytes
-- of its padding.
abbrev pub read_so_far : State → Head → ℕ → Bytes → ℕ → Unpacker
read_so_far st d len body n = record {
  state = st;
  version = d.version;
  kind = d.kind;
  req_id = d.req_id;
  content_len = len;
  padding = d.padding;
  padding_read_bytes = n;
  header_buf = header d len;
  data_buf = body;
}

bytes_to_int-short : (v : ℕ) → v < 65536 → bytes_to_int (v / 256 % 256) (v % 256) ≡ v
bytes_to_int-short v h =
    rw (bit_and_mask_lt 8 (v / 256 % 256) (omega arith), bit_and_mask_lt 8 (v % 256) (omega arith))
      (short_value (v / 256 % 256) (v % 256) (omega arith) ∙ omega arith)

header_read_done-header :
    (d : Head) (len : ℕ)
    → Fits d
    → len < 65536
    → header_read_done (record reset_state { header_buf = header d len })
      ≡ read_so_far read_preamble d len [] 0
unfolding header_read_done
header_read_done-header d len f l = λ i. record (read_so_far read_preamble d len [] 0) {
  version = bit_and_mask_lt 8 d.version f.version i;
  kind = bit_and_mask_lt 8 d.kind f.kind i;
  req_id = bytes_to_int-short d.req_id f.req_id i;
  content_len = bytes_to_int-short len l i;
  padding = bit_and_mask_lt 8 d.padding f.padding i;
}

pub make_packet-received :
    (d : Head) (body : Bytes) (n : ℕ)
    → make_packet (read_so_far end d (length body) body n) ≡ ok (received d body)
unfolding make_packet new_fcg_packet
make_packet-received d body n =
    let h = header d (length body) in
    let head = put_header d.kind maxlen h (omega arith) in
    let data' = put_body d.kind maxlen h body in
    let stored : put_slice body 0 (length body) (new_data_accessor (packet_of d.kind maxlen h []))
        ≡ ok (tt, data'.0) =
      unfold put_bytes in data'.1 in
    rw (head.1, head.2, stored, data'.2) refl

-- What follows the preamble.
pub behind_preamble :
    (d : Head) (len : ℕ)
    → Fits d
    → len < 65536
    → completed read_preamble (record reset_state { header_buf = header d len }) ≡ (
        if len == 0
        then to_padding (read_so_far read_preamble d len [] 0)
        else read_so_far read_content d len [] 0)
unfolding completed
behind_preamble d len f l =
    ap (λ u. if u.content_len == 0 then to_padding u else change_state read_content u)
      (header_read_done-header d len f l)

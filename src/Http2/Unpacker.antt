-- ===== src/Http2/Unpacker.antt =====
-- bayserver_docker_http/h2/h2_packet_unpacker.py: HTTP/2 frames out of the bytes of a connection.
-- `tmp_buf` is a SimpleBuffer, held by its contents; `pos` is kept as the bytes behind it. The store
-- of packets hands out packets that are reset. `cont_len` and `read_bytes`, which nothing reads, are
-- left out, and what is `None` before it is read from a frame is 0.
pub mod Items
pub mod Rounds
pub mod Chunks
pub mod Frames
use bay_server_python.Prelude.{
  ℕ, ◌+◌, ◌-◌, ◌*◌, ◌^◌, bit_and, bit_or, Bytes, [], ◌∷◌, ◌++◌, length, get_or, take, drop, ltb,
  ◌==◌, if◌then◌else◌, Bool, true, false, not, ◌&&◌, text_eq, codes,
}
use bay_server_python.Prelude.Results.{Result, ok, err, protocol_error, out_of_fuel, ◌>>=◌}
use bay_server_python.Protocol.Packet.{Packet, new_packet}
use bay_server_python.Protocol.Accessor.{
  Accessor, shl, new_header_accessor, new_data_accessor, put_slice, put_bytes,
}
use bay_server_python.Protocol.Pump.{Next, go, stop, Run, done, stopped, stuck, pump}
use bay_server_python.Protocol.Receiver.{Action, continue, suspend, read, write, close, Receiver}

pub data State : Type 0 where
  read_length read_type read_flags read_stream_identifier read_flame_payload end : State

pub record Unpacker : Type 0 where
  pub state : State
  pub tmp_buf : Bytes
  pub item_start : ℕ
  pub item_len : ℕ
  pub item_pos : ℕ
  pub preface_read : Bool
  pub kind : ℕ
  pub payload_len : ℕ
  pub flags : ℕ
  pub stream_id : ℕ
  pub server_mode : Bool

pub record H2Packet : Type 0 where
  pub packet : Packet
  pub flags : ℕ
  pub stream_id : ℕ

abbrev pub frame_header_len : ℕ
frame_header_len = 9

abbrev pub default_payload_maxlen : ℕ
default_payload_maxlen = 0x4000

abbrev pub connection_preface : Bytes
connection_preface = codes "PRI * HTTP/2.0\r\n\r\nSM\r\n\r\n"

-- H2Type.PREFACE is -1, which is the type of no frame; so is 256.
abbrev pub preface_kind : ℕ
preface_kind = 256

abbrev pub reset_state : Unpacker → Unpacker
reset_state u = record u {
  state = read_length;
  item_start = 0;
  item_len = 3;
  item_pos = 0;
  tmp_buf = [];
  kind = 0;
  flags = 0;
  stream_id = 0;
  payload_len = 0;
}

abbrev pub reset : Unpacker → Unpacker
reset u = record (reset_state u) { preface_read = false }

-- `item.get(tmp_buf, index)`
abbrev pub item_get : Unpacker → ℕ → ℕ
item_get u i = get_or u.tmp_buf (u.item_start + i) 0

-- `read_header_item`, without its answer.
abbrev pub absorb : ℕ → Unpacker → Bytes → Unpacker × Bytes
absorb n u buf =
    (record u { tmp_buf = u.tmp_buf ++ take n buf; item_pos = u.item_pos + n }, drop n buf)

unfoldable pub read_header_item : Unpacker → Bytes → Unpacker × Bytes
read_header_item u buf =
    let need = u.item_len - u.item_pos in
    absorb (if ltb (length buf) need then length buf else need) u buf

abbrev pub next_item : ℕ → State → Unpacker → Unpacker
next_item len state u = record u {
  item_start = length u.tmp_buf;
  item_len = len;
  item_pos = 0;
  state = state;
}

abbrev pub payload_len_of : Unpacker → ℕ
payload_len_of u =
    bit_or (bit_or (shl (bit_and (item_get u 0) 0xff) 16) (shl (bit_and (item_get u 1) 0xff) 8))
      (bit_and (item_get u 2) 0xff)

abbrev pub stream_id_of : Unpacker → ℕ
stream_id_of u =
    bit_or
      (bit_or (bit_or (shl (bit_and (item_get u 0) 0x7f) 24) (shl (item_get u 1) 16))
        (shl (item_get u 2) 8))
      (item_get u 3)

-- What the loop does where `read_header_item` answers that the item is complete.
unfoldable pub item_done : State → Unpacker → Unpacker
item_done read_length u = next_item 1 read_type (record u { payload_len = payload_len_of u })
item_done read_type u = next_item 1 read_flags (record u { kind = item_get u 0 })
item_done read_flags u = next_item 4 read_stream_identifier (record u { flags = item_get u 0 })
item_done read_stream_identifier u =
    next_item u.payload_len read_flame_payload (record u { stream_id = stream_id_of u })
item_done read_flame_payload u = record u { state = end }
item_done end u = u

-- The packet of a complete frame: the header's bytes, then the payload's.
unfoldable pub make_packet : Unpacker → Result H2Packet
make_packet u =
    put_slice u.tmp_buf 0 frame_header_len
      (new_header_accessor (new_packet u.kind frame_header_len default_payload_maxlen))
    >>= λ a.
        put_slice u.tmp_buf frame_header_len (length u.tmp_buf - frame_header_len)
          (new_data_accessor (a.1).packet)
        >>= λ b. ok (record { packet = (b.1).packet; flags = u.flags; stream_id = u.stream_id })

unfoldable pub make_preface : Unpacker → Result H2Packet
make_preface u =
    put_bytes u.tmp_buf
      (new_data_accessor (new_packet preface_kind frame_header_len default_payload_maxlen))
    >>= λ a. ok (record { packet = (a.1).packet; flags = 0; stream_id = 0 })

module _ {H : Type 0} (receive : Receiver H H2Packet) where
  -- The handler, the unpacker, and the local variable `suspend` of the loop.
  pub record Session : Type 0 where
    pub handler : H
    pub unpacker : Unpacker
    pub suspended : Bool

  -- How `bytes_received` ends: what it leaves, and its answer or exception.
  abbrev pub Outcome : Type 0
  Outcome = (H × Unpacker) × Result Action

  abbrev pub answered : Unpacker → Bool → Bytes → H × Result Action → Next Session Outcome
  answered u susp rest (h, err e) = stop ((h, u), err e)
  answered u susp rest (h, ok continue) =
      go (record { handler = h; unpacker = u; suspended = susp }) rest
  answered u susp rest (h, ok suspend) =
      go (record { handler = h; unpacker = u; suspended = true }) rest
  answered u susp rest (h, ok act) = stop ((h, u), ok act)

  abbrev pub handed_over : H → Bool → Unpacker → Bytes → Result H2Packet → Next Session Outcome
  handed_over h susp u rest (err e) = stop ((h, u), err e)
  handed_over h susp u rest (ok pkt) = answered (reset_state u) susp rest (receive h pkt)

  -- The part of the loop's body behind the branches on the state.
  abbrev pub check_end : State → H → Bool → Unpacker → Bytes → Next Session Outcome
  check_end end h susp u rest = handed_over h susp u rest (make_packet u)
  check_end _ h susp u rest = go (record { handler = h; unpacker = u; suspended = susp }) rest

  abbrev pub after_item : H → Bool → Unpacker × Bytes → Next Session Outcome
  after_item h susp (u, rest) =
      let v = item_done u.state u in
      if u.item_pos == u.item_len
      then check_end v.state h susp v rest
      else go (record { handler = h; unpacker = u; suspended = susp }) rest

  unfoldable pub step : Session → Bytes → Next Session Outcome
  step s rest = after_item s.handler s.suspended (read_header_item s.unpacker rest)

  -- Each round takes a byte, or hands over a frame without payload.
  abbrev pub fuel : Bytes → ℕ
  fuel r = 2 * length r + 2

  abbrev pub closing : H × Unpacker → Run Session Outcome → Outcome
  closing start (done s) = ((s.handler, s.unpacker), ok (if s.suspended then suspend else continue))
  closing start (stopped o) = o
  closing start stuck = (start, err out_of_fuel)

  -- The `while` loop and what follows it.
  unfoldable pub frames : H × Unpacker → Bytes → Outcome
  unfolding step
  frames (h, u) rest =
      closing (h, u)
        (pump (fuel rest) step (record { handler = h; unpacker = u; suspended = false }) rest)

  abbrev pub preface_answered : Unpacker → Bytes → H × Result Action → Outcome
  preface_answered u rest (h, ok continue) =
      frames (h, record u { preface_read = true; tmp_buf = [] }) rest
  preface_answered u rest (h, r) = ((h, u), r)

  abbrev pub preface_done : H → Unpacker → Bytes → Result H2Packet → Outcome
  preface_done h u rest (err e) = ((h, u), err e)
  preface_done h u rest (ok pkt) = preface_answered u rest (receive h pkt)

  -- The part in front of the loop, while the client's preface is not complete.
  unfoldable pub read_preface : H × Unpacker → Bytes → Outcome
  unfolding frames
  read_preface (h, u) buf =
      let need = length connection_preface - length u.tmp_buf in
      let n = if ltb (length buf) need then length buf else need in
      let v = record u { tmp_buf = u.tmp_buf ++ take n buf } in
      let rest = drop n buf in
      if length v.tmp_buf == length connection_preface
      then (if text_eq connection_preface v.tmp_buf
          then preface_done h v rest (make_preface v)
          else ((h, v), err protocol_error))
      else frames (h, v) rest

  unfoldable pub bytes_received : H × Unpacker → Bytes → Outcome
  unfolding read_preface
  bytes_received (h, u) buf =
      if u.server_mode && not u.preface_read then read_preface (h, u) buf else frames (h, u) buf

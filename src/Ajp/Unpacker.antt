-- ===== src/Ajp/Unpacker.antt =====
-- bayserver_docker_ajp/ajp_packet_unpacker.py: AJP packets out of the bytes of a connection. The
-- buffers are SimpleBuffers, held by their contents, whose bytes behind the contents are zero; `pos` is
-- kept as the bytes behind it. The store of packets hands out packets that are reset. `read_bytes`,
-- which nothing reads, is left out; the type and the direction that are not read yet are 0 and false.
pub mod Packets
use bay_server_python.Prelude.{
  ℕ, ◌+◌, ◌-◌, ◌*◌, bit_and, bit_or, Bytes, [], ◌++◌, length, get_or, take, drop, ltb, ◌==◌, ◌&&◌,
  if◌then◌else◌, Bool, true, false,
}
use bay_server_python.Prelude.Results.{Result, ok, err, runtime_error, out_of_fuel, ◌>>=◌}
use bay_server_python.Protocol.Accessor.{shl, new_header_accessor, new_data_accessor, put_slice}
use bay_server_python.Protocol.Pump.{Next, go, stop, Run, done, stopped, stuck, pump}
use bay_server_python.Protocol.Receiver.{Action, continue, suspend, read, write, close, Receiver}
use bay_server_python.Ajp.Packet.{AjpPacket, new_ajp_packet, preamble_size}

pub data State : Type 0 where
  read_preamble read_body end : State

pub record Unpacker : Type 0 where
  pub state : State
  pub body_len : ℕ
  pub kind : ℕ
  pub to_server : Bool
  pub need_data : Bool
  pub preamble_buf : Bytes
  pub body_buf : Bytes

abbrev pub reset : Unpacker → Unpacker
reset u = record u {
  state = read_preamble;
  body_len = 0;
  need_data = false;
  preamble_buf = [];
  body_buf = [];
}

abbrev pub with_direction : Bool → Unpacker → Unpacker
with_direction to_server u =
    let byte : ℕ → ℕ = λ i. get_or u.preamble_buf i 0 in
    record u {
      to_server = to_server;
      body_len = bit_and (bit_or (shl (byte 2) 8) (bit_and (byte 3) 0xff)) 0xffff;
    }

unfoldable pub preamble_read : Unpacker → Result Unpacker
preamble_read u =
    let byte : ℕ → ℕ = λ i. get_or u.preamble_buf i 0 in
    if (byte 0 == 0x12) && (byte 1 == 0x34)
    then ok (with_direction true u)
    else if (byte 0 == 0x41) && (byte 1 == 0x42)
    then ok (with_direction false u)
    else err runtime_error

-- AjpType.DATA is 0.
abbrev pub body_read : Unpacker → Unpacker
body_read u = record u { kind = if u.need_data then 0 else bit_and (get_or u.body_buf 0 0) 0xff }

abbrev pub change_state : State → Unpacker → Unpacker
change_state st u = record u { state = st }

-- As many bytes as are missing, or as there are.
abbrev pub at_most : ℕ → Bytes → ℕ
at_most need buf = if ltb (length buf) need then length buf else need

-- The packet of a complete body: the preamble's bytes, then the body's.
unfoldable pub make_packet : Unpacker → Result AjpPacket
unfolding new_ajp_packet
make_packet u =
    let pkt = record (new_ajp_packet u.kind) { to_server = u.to_server } in
    put_slice u.preamble_buf 0 (length u.preamble_buf) (new_header_accessor pkt.packet) >>= λ a.
    put_slice u.body_buf 0 (length u.body_buf) (new_data_accessor (a.1).packet) >>= λ b.
    ok (record pkt { packet = (b.1).packet })

-- The handler, the unpacker, and the local variable `suspend` of the loop.
pub record Session (H : Type 0) : Type 0 where
  pub handler : H
  pub unpacker : Unpacker
  pub suspended : Bool

abbrev pub Outcome : Type 0 → Type 0
Outcome H = (H × Unpacker) × Result Action

-- `needs_data` is the command unpacker's `need_data()`.
module _ {H : Type 0} (receive : Receiver H AjpPacket) (needs_data : H → Bool) where
  abbrev pub answered : Session H → Bytes → H × Result Action → Next (Session H) (Outcome H)
  answered s rest (h, err e) = stop ((h, s.unpacker), err e)
  answered s rest (h, ok act) =
      let u = record (reset s.unpacker) { need_data = needs_data h } in
      elim act [
        | continue ↦ go (record s { handler = h; unpacker = u }) rest
        | suspend ↦ go (record s { handler = h; unpacker = u; suspended = true }) rest
        | read ↦ stop ((h, u), ok read)
        | write ↦ stop ((h, u), ok write)
        | close ↦ stop ((h, u), ok close)
      ]

  abbrev pub handed_over : Session H → Bytes → Result AjpPacket → Next (Session H) (Outcome H)
  handed_over s rest (err e) = stop ((s.handler, s.unpacker), err e)
  handed_over s rest (ok pkt) = answered s rest (receive s.handler pkt)

  -- The third `if` of the loop's body.
  abbrev pub at_end : State → Session H → Bytes → Next (Session H) (Outcome H)
  at_end end s rest = handed_over s rest (make_packet s.unpacker)
  at_end _ s rest = go s rest

  -- The second `if`, and what follows it.
  abbrev pub at_body : State → Session H → Bytes → Next (Session H) (Outcome H)
  at_body read_body s buf =
      let u = s.unpacker in
      let n = at_most (u.body_len - length u.body_buf) buf in
      let v = record u { body_buf = u.body_buf ++ take n buf } in
      if length v.body_buf == v.body_len
      then at_end end (record s { unpacker = change_state end (body_read v) }) (drop n buf)
      else go (record s { unpacker = v }) (drop n buf)
  at_body st s buf = at_end st s buf

  abbrev pub preamble_done : Session H → Bytes → Result Unpacker → Next (Session H) (Outcome H)
  preamble_done s rest (err e) = stop ((s.handler, s.unpacker), err e)
  preamble_done s rest (ok u) =
      at_body read_body (record s { unpacker = change_state read_body u }) rest

  -- The first `if`, and what follows it.
  abbrev pub at_preamble : State → Session H → Bytes → Next (Session H) (Outcome H)
  at_preamble read_preamble s buf =
      let u = s.unpacker in
      let n = at_most (preamble_size - length u.preamble_buf) buf in
      let v = record u { preamble_buf = u.preamble_buf ++ take n buf } in
      if length v.preamble_buf == preamble_size
      then preamble_done (record s { unpacker = v }) (drop n buf) (preamble_read v)
      else go (record s { unpacker = v }) (drop n buf)
  at_preamble st s buf = at_body st s buf

  unfoldable pub step : Session H → Bytes → Next (Session H) (Outcome H)
  unfolding preamble_read make_packet
  step s buf = at_preamble s.unpacker.state s buf

  -- Each round takes a byte, or hands over a packet that was complete before.
  abbrev pub fuel : Bytes → ℕ
  fuel r = 2 * length r + 2

  abbrev pub closing : H × Unpacker → Run (Session H) (Outcome H) → Outcome H
  closing start (done s) = ((s.handler, s.unpacker), ok (if s.suspended then suspend else continue))
  closing start (stopped o) = o
  closing start stuck = (start, err out_of_fuel)

  unfoldable pub bytes_received : H × Unpacker → Bytes → Outcome H
  unfolding step
  bytes_received (h, u) buf =
      closing (h, u)
        (pump (fuel buf) step (record { handler = h; unpacker = u; suspended = false }) buf)

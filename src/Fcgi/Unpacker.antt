-- ===== src/Fcgi/Unpacker.antt =====
-- bayserver_docker_fcgi/fcg_packet_unpacker.py: FastCGI records out of the bytes of a connection. The
-- buffers are SimpleBuffers, held by their contents; `pos` is kept as the bytes behind it. The store
-- of packets hands out packets that are reset. `cont_len` and `read_bytes`, which nothing reads, are
-- left out, and the type of a record that is not read yet is 0.
pub mod Answer
pub mod Parts
pub mod Chunks
pub mod Heads
pub mod Records
use bay_server_python.Prelude.{
  ℕ, ◌+◌, ◌-◌, ◌*◌, bit_and, bit_or, Bytes, [], ◌++◌, length, get_or, take, drop, ltb, ◌==◌,
  if◌then◌else◌, Bool, true, false,
}
use bay_server_python.Prelude.Results.{Result, ok, err, out_of_fuel, ◌>>=◌}
use bay_server_python.Protocol.Accessor.{shl, new_header_accessor, new_data_accessor, put_slice}
use bay_server_python.Protocol.Pump.{Next, go, stop, Run, done, stopped, stuck, pump}
use bay_server_python.Protocol.Receiver.{Action, continue, suspend, read, write, close, Receiver}
use bay_server_python.Fcgi.Command.{FcgPacket, new_fcg_packet, preamble_size}

pub data State : Type 0 where
  read_preamble read_content read_padding end : State

-- The constants of the states and of `NextSocketAction`.
abbrev pub state_code : State → ℕ
state_code read_preamble = 1
state_code read_content = 2
state_code read_padding = 3
state_code end = 4

abbrev pub action_code : Action → ℕ
action_code continue = 1
action_code suspend = 2
action_code read = 3
action_code write = 4
action_code close = 5

pub record Unpacker : Type 0 where
  pub state : State
  pub version : ℕ
  pub kind : ℕ
  pub req_id : ℕ
  pub content_len : ℕ
  pub padding : ℕ
  pub padding_read_bytes : ℕ
  pub header_buf : Bytes
  pub data_buf : Bytes

abbrev pub reset_state : Unpacker
reset_state = record {
  state = read_preamble;
  version = 0;
  kind = 0;
  req_id = 0;
  content_len = 0;
  padding = 0;
  padding_read_bytes = 0;
  header_buf = [];
  data_buf = [];
}

abbrev pub bytes_to_int : ℕ → ℕ → ℕ
bytes_to_int b1 b2 = bit_or (shl (bit_and b1 0xff) 8) (bit_and b2 0xff)

unfoldable pub header_read_done : Unpacker → Unpacker
header_read_done u =
    let pre : ℕ → ℕ = λ i. get_or u.header_buf i 0 in
    record u {
      version = bit_and (pre 0) 0xff;
      kind = bit_and (pre 1) 0xff;
      req_id = bytes_to_int (pre 2) (pre 3);
      content_len = bytes_to_int (pre 4) (pre 5);
      padding = bit_and (pre 6) 0xff;
    }

abbrev pub change_state : State → Unpacker → Unpacker
change_state st u = record u { state = st }

-- What follows the content, or a preamble without content.
abbrev pub to_padding : Unpacker → Unpacker
to_padding u = change_state (if u.padding == 0 then end else read_padding) u

abbrev pub preamble_done : Unpacker → Unpacker
preamble_done u =
    let v = header_read_done u in
    if v.content_len == 0 then to_padding v else change_state read_content v

-- As many bytes as are missing, or as there are.
abbrev pub at_most : ℕ → Bytes → ℕ
at_most need buf = if ltb (length buf) need then length buf else need

-- One round of the inner loop, by the state. `RuntimeError` is for a state that does not exist.
unfoldable pub read_part : State → Unpacker → Bytes → Unpacker × Bytes
unfolding header_read_done
read_part read_preamble u buf =
    let n = at_most (preamble_size - length u.header_buf) buf in
    let v = record u { header_buf = u.header_buf ++ take n buf } in
    (if length v.header_buf == preamble_size then preamble_done v else v, drop n buf)
read_part read_content u buf =
    let n = at_most (u.content_len - length u.data_buf) buf in
    let v = record u { data_buf = u.data_buf ++ take n buf } in
    let w = if length v.data_buf == u.content_len then to_padding v else v in
    (if ltb 0 n then w else u, drop n buf)
read_part read_padding u buf =
    let n = at_most (u.padding - u.padding_read_bytes) buf in
    let v = record u { padding_read_bytes = u.padding_read_bytes + n } in
    let w = if v.padding_read_bytes == u.padding then change_state end v else v in
    (if ltb 0 n then w else u, drop n buf)
read_part end u buf = (u, buf)

-- The packet of a complete record: the preamble's bytes, then the content's.
unfoldable pub make_packet : Unpacker → Result FcgPacket
unfolding new_fcg_packet
make_packet u =
    let pkt = record (new_fcg_packet u.kind) { req_id = u.req_id } in
    put_slice u.header_buf 0 (length u.header_buf) (new_header_accessor pkt.packet) >>= λ a.
    put_slice u.data_buf 0 (length u.data_buf) (new_data_accessor (a.1).packet) >>= λ b.
    ok (record pkt { packet = (b.1).packet })

-- The handler, the unpacker, and the local variables of the loop.
pub record Session (H : Type 0) : Type 0 where
  pub handler : H
  pub unpacker : Unpacker
  pub next_suspend : Bool
  pub next_write : Bool

abbrev pub Outcome : Type 0 → Type 0
Outcome H = (H × Unpacker) × Result Action

-- What `bytes_received` does with the handler's answer: it compares the field `self.state`, which
-- `reset` has set, with the constants of the actions.
abbrev pub acted : {H : Type 0} → ℕ → Session H → Bytes → Action → Next (Session H) (Outcome H)
acted code s rest act =
    if code == action_code suspend
    then go (record s { next_suspend = true }) rest
    else if code == action_code continue
    then go s rest
    else if code == action_code write
    then go (record s { next_write = true }) rest
    else if code == action_code close
    then stop ((s.handler, s.unpacker), ok act)
    else go s rest

module _ {H : Type 0} (receive : Receiver H FcgPacket) where
  abbrev pub answered : Session H → Bytes → H × Result Action → Next (Session H) (Outcome H)
  answered s rest (h, err e) = stop ((h, s.unpacker), err e)
  answered s rest (h, ok act) =
      acted (state_code reset_state.state) (record s { handler = h; unpacker = reset_state }) rest
        act

  abbrev pub handed_over : Session H → Bytes → Result FcgPacket → Next (Session H) (Outcome H)
  handed_over s rest (err e) = stop ((s.handler, s.unpacker), err e)
  handed_over s rest (ok pkt) = answered s rest (receive s.handler pkt)

  abbrev pub check_end : State → Session H → Bytes → Next (Session H) (Outcome H)
  check_end end s rest = handed_over s rest (make_packet s.unpacker)
  check_end _ s rest = go s rest

  abbrev pub after_part : Session H → Unpacker × Bytes → Next (Session H) (Outcome H)
  after_part s (u, rest) = check_end u.state (record s { unpacker = u }) rest

  -- A round of the inner loop, with what the outer loop does where the record is complete.
  unfoldable pub step : Session H → Bytes → Next (Session H) (Outcome H)
  unfolding read_part make_packet
  step s rest = after_part s (read_part s.unpacker.state s.unpacker rest)

  -- Each round takes a byte, or hands over a record that was complete before.
  abbrev pub fuel : Bytes → ℕ
  fuel r = 2 * length r + 2

  abbrev pub closing : H × Unpacker → Run (Session H) (Outcome H) → Outcome H
  closing start (done s) = (
    (s.handler, s.unpacker),
    ok (if s.next_write then write else if s.next_suspend then suspend else continue),
  )
  closing start (stopped o) = o
  closing start stuck = (start, err out_of_fuel)

  unfoldable pub bytes_received : H × Unpacker → Bytes → Outcome H
  unfolding step
  bytes_received (h, u) buf =
      closing (h, u)
        (pump (fuel buf) step
          (record { handler = h; unpacker = u; next_suspend = false; next_write = false }) buf)

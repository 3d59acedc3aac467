-- ===== src/Http1/Unpacker.antt =====
-- bayserver_docker_http/h1/h1_packet_unpacker.py: the header and the content of a message as packets.
-- The handler is what stands behind `cmd_upacker`; `finished` is its `req_finished`.
pub mod Headers
use bay_server_python.Prelude.{
  ℕ, zero, suc, ◌-◌, Bytes, List, [], ◌∷◌, ◌++◌, length, take, drop, ltb, leb, ◌==◌, if◌then◌else◌,
  Bool, true, false, not, ◌&&◌,
}
use bay_server_python.Prelude.Results.{Result, ok, err, protocol_error, runtime_error, out_of_fuel}
use bay_server_python.Protocol.Packet.{Packet, new_packet}
use bay_server_python.Protocol.Accessor.{Accessor, put_bytes, new_data_accessor}
use bay_server_python.Protocol.Receiver.{Action, continue, suspend, close, write, Receiver}

pub data State : Type 0 where
  read_headers read_content end : State

pub record Unpacker : Type 0 where
  pub state : State
  pub tmp_buf : Bytes

unfoldable pub reset_state : Unpacker
reset_state = record { state = read_headers; tmp_buf = [] }

abbrev pub max_line_len : ℕ
max_line_len = 8192

-- H1Packet.MAX_DATA_LEN, and the types of H1Type.
abbrev pub max_data_len : ℕ
max_data_len = 65536

abbrev pub header_kind : ℕ
header_kind = 1

abbrev pub content_kind : ℕ
content_kind = 2

-- How the loop over the bytes of the headers ends, with the bytes of the buffer and those that are left.
pub data Scan : Type 0 where
  partial : Bytes → Scan
  complete : Bytes → Bytes → Scan
  too_long : Bytes → Scan

-- The line's length behind the byte `b`.
unfoldable pub next_len : ℕ → ℕ → ℕ
next_len line_len b = if b == 13 then line_len else if b == 10 then 0 else suc line_len

unfoldable pub scan : ℕ → Bytes → Bytes → Scan
unfolding next_len
scan line_len tmp [] = partial tmp
scan line_len tmp (b ∷ buf) =
    let after = tmp ++ (b ∷ []) in
    let later = scan (next_len line_len b) after buf in
    if b == 10 && line_len == 0
    then complete after buf
    else if leb max_line_len (next_len line_len b)
    then too_long after
    else later

abbrev pub packet_in : Result (Unit {0} × Accessor) → Result Packet
packet_in (ok (v, a)) = ok a.packet
packet_in (err e) = err e

-- A packet with the bytes as its data.
unfoldable pub make_packet : ℕ → Bytes → Result Packet
make_packet kind buf =
    packet_in (put_bytes buf (new_data_accessor (new_packet kind 0 max_data_len)))

module _ {H : Type 0} (receive : Receiver H Packet) (finished : H → Bool) where
  abbrev pub Outcome : Type 0
  Outcome = (H × Unpacker) × Result Action

  abbrev pub hand_over : H → Result Packet → H × Result Action
  hand_over h (ok p) = receive h p
  hand_over h (err e) = (h, err e)

  -- The end of `bytes_received`.
  abbrev pub closing : H → Unpacker → Bool → Outcome
  closing h u susp =
      let v : Unpacker = elim u.state [ end ↦ reset_state | _ ↦ u ] in
      ((h, v), ok (if susp then suspend else continue))

  -- Where the command unpacker has got its request, the state is STATE_END.
  abbrev pub ended : H → State → State
  ended h st = if finished h then end else st

  -- What a round of the loop over the content does to the state and to `suspend`.
  abbrev pub next_state : Result Action → H → State → State
  next_state (ok continue) h st = ended h st
  next_state (ok write) h st = ended h st
  next_state _ h st = st

  abbrev pub next_suspend : Result Action → Bool → Bool
  next_suspend (ok suspend) susp = true
  next_suspend _ susp = susp

  -- The loop over the content, whose every round takes a byte at least. It goes on behind the end of the
  -- request.
  unfoldable pub read_content_loop : ℕ → H → Unpacker → Bool → Bytes → Outcome
  read_content_loop zero h u susp buf = ((h, u), err out_of_fuel)
  read_content_loop (suc fuel) h u susp [] = closing h u susp
  read_content_loop (suc fuel) h u susp (b ∷ buf) =
      let got = hand_over h (make_packet content_kind (take max_data_len (b ∷ buf))) in
      let later =
        read_content_loop fuel got.0 (record u { state = next_state got.1 got.0 u.state })
          (next_suspend got.1 susp) (drop max_data_len (b ∷ buf)) in
      elim got.1 [
        | err e ↦ ((got.0, u), err e)
        | ok a ↦ elim a [ close ↦ ((got.0, reset_state), ok close) | _ ↦ later ]
      ]

  -- `if self.state == STATE_READ_CONTENT`: else the bytes that are left are dropped.
  abbrev pub contents : H → Unpacker → Bool → Bytes → Outcome
  contents h u susp buf = elim u.state [
    | read_content ↦ read_content_loop (suc (length buf)) h u susp buf
    | _ ↦ closing h u susp
  ]

  abbrev pub header_done : Bytes → Bytes → H × Result Action → Outcome
  header_done tmp rest (h, err e) = ((h, record { state = read_headers; tmp_buf = tmp }), err e)
  header_done tmp rest (h, ok continue) =
      contents h (record { state = ended h read_content; tmp_buf = tmp }) false rest
  header_done tmp rest (h, ok suspend) =
      contents h (record { state = ended h read_content; tmp_buf = tmp }) true rest
  header_done tmp rest (h, ok close) = ((h, reset_state), ok close)
  header_done tmp rest (h, ok _) =
      ((h, record { state = read_headers; tmp_buf = tmp }), err runtime_error)

  abbrev pub scanned : H → Scan → Outcome
  scanned h (partial tmp) = ((h, record { state = read_headers; tmp_buf = tmp }), ok continue)
  scanned h (complete tmp rest) = header_done tmp rest (hand_over h (make_packet header_kind tmp))
  scanned h (too_long tmp) =
      ((h, record { state = read_headers; tmp_buf = tmp }), err protocol_error)

  unfoldable pub bytes_received : H → Unpacker → Bytes → Outcome
  unfolding scan read_content_loop make_packet reset_state
  bytes_received h u buf = elim u.state [
    | read_headers ↦ scanned h (scan 0 u.tmp_buf buf)
    | read_content ↦ read_content_loop (suc (length buf)) h u false buf
    | end ↦ ((h, reset_state), err runtime_error)
  ]

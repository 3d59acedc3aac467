-- ===== src/Http2/CommandUnpacker.antt =====
-- bayserver_docker_http/h2/h2_command_unpacker.py: from the packet to the command. The commands are the
-- classes under command/, each with its type; their handler is a parameter.
pub mod RoundTrip
use bay_server_python.Prelude.{ℕ, Bytes, List, ◌==◌, if◌then◌else◌}
use bay_server_python.Prelude.Results.{Result, ok, err, runtime_error, ◌>>=◌}
use bay_server_python.Protocol.Accessor.{M}
use bay_server_python.Protocol.Accessor
use bay_server_python.Protocol.Receiver.{Action, Receiver}
use bay_server_python.Http2.Unpacker.{H2Packet, preface_kind}
use bay_server_python.Http2.Command.{
  pack, unpack, new_h2_packet, put_data, get_data, GoAway, put_go_away, get_go_away, put_ping,
  get_ping, Priority, put_priority, get_priority, put_rst_stream, get_rst_stream, put_window_update,
  get_window_update,
}
use bay_server_python.Http2.Command.Lists.{
  Item, put_settings, get_settings, Headers, put_headers, get_headers, put_preface, get_preface,
}

pub data H2Command : Type 0 where
  send_data : Bytes → H2Command
  headers : Headers → H2Command
  prioritize : Priority → H2Command
  rst_stream : ℕ → H2Command
  settings : List Item → H2Command
  ping : Bytes → H2Command
  go_away : GoAway → H2Command
  window_update : ℕ → H2Command
  preface : Bytes → H2Command

abbrev pub kind_of : H2Command → ℕ
kind_of (send_data buf) = 0
kind_of (headers c) = 1
kind_of (prioritize c) = 2
kind_of (rst_stream code) = 3
kind_of (settings items) = 4
kind_of (ping d) = 6
kind_of (go_away c) = 7
kind_of (window_update n) = 8
kind_of (preface name) = preface_kind

abbrev pub put_command : ℕ → H2Command → M (Unit {0})
put_command flags (send_data buf) = put_data flags buf
put_command flags (headers c) = put_headers flags c
put_command flags (prioritize c) = put_priority c
put_command flags (rst_stream code) = put_rst_stream code
put_command flags (settings items) = put_settings flags items
put_command flags (ping d) = put_ping d
put_command flags (go_away c) = put_go_away c
put_command flags (window_update n) = put_window_update n
put_command flags (preface name) = put_preface

-- `cmd.pack(pkt)` of the commands that are frames.
unfoldable pub pack_command : ℕ → ℕ → H2Command → Result H2Packet
pack_command stream_id flags c =
    pack (put_command flags c) stream_id flags (new_h2_packet (kind_of c))

abbrev read_as :
    {A : Type 0} → (A → H2Command) → (H2Packet → M A) → H2Packet → Result (ℕ × ℕ × H2Command)
read_as make get p = unpack get p >>= λ r. ok (r.0, r.1, make r.2)

unfoldable pub read_command : H2Packet → Result (ℕ × ℕ × H2Command)
read_command p =
    let kind = p.packet.kind in
    if kind == preface_kind
    then read_as preface (λ _. get_preface) p
    else if kind == 1
    then read_as headers get_headers p
    else if kind == 2
    then read_as prioritize get_priority p
    else if kind == 4
    then read_as settings get_settings p
    else if kind == 8
    then read_as window_update get_window_update p
    else if kind == 0
    then read_as send_data get_data p
    else if kind == 7
    then read_as go_away get_go_away p
    else if kind == 6
    then read_as ping get_ping p
    else if kind == 3
    then read_as rst_stream get_rst_stream p
    else err runtime_error

unfoldable pub packet_received : {R : Type 0} → (ℕ × ℕ × H2Command → Result R) → H2Packet → Result R
unfolding read_command
packet_received handle p = read_command p >>= handle

-- The command unpacker behind the packet unpacker, with a handler that has a state.
abbrev pub command_receiver :
    {H : Type 0} → (H → ℕ × ℕ × H2Command → H × Result Action) → Receiver H H2Packet
command_receiver handle h p = elim (read_command p) [ ok c ↦ handle h c | err e ↦ (h, err e) ]

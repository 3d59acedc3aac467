-- ===== src/Tests/Messages.antt =====
-- HTTP/2 commands and HTTP/1 messages at concrete inputs.
use bay_server_python.Prelude.{
  ℕ, ◌^◌, if◌then◌else◌, ◌≡◌, refl, Bytes, List, [], ◌∷◌, ◌++◌, codes, Bool, true, false, not, ◌&&◌,
  ◌==◌, All, arith,
}
use bay_server_python.Prelude.Results.{Result, ok}
use bay_server_python.Protocol.Packet.{Packet}
use bay_server_python.Protocol.Receiver.{Action, continue, Receiver}
use bay_server_python.Http2.Unpacker.{read_length, Unpacker, H2Packet, frames, reset_state}
use bay_server_python.Http2.Flags.{has_flag, set_flag}
use bay_server_python.Http2.Flags.Laws.{set_flag-has_flag}
use bay_server_python.Http2.CommandUnpacker.{H2Command, settings, pack_command, command_receiver}
use bay_server_python.Http2.CommandUnpacker.RoundTrip.{command-received}
use bay_server_python.Protocol.Accessor.{Accessor}
use bay_server_python.Protocol.Accessor.Append.{IsAtEnd, appended}
use bay_server_python.Http1.CmdHeader.{Request, pack, unpack, lower}
use bay_server_python.Http1.CmdHeader.Lines.{IsWordByte}
use bay_server_python.Http1.CmdHeader.RoundTrip.{IsField, IsWord, message, request-roundtrip}
use bay_server_python.Http1.Unpacker.{
  Unpacker as Http1Unpacker, reset_state as start, complete, scan, scanned, bytes_received,
  header_kind, content_kind,
}
use bay_server_python.Http1.Unpacker.Headers.{
  IsText, IsLine, header_bytes, packet_with, bytes_received-message, bytes_received-split_line,
}

-- A handler that keeps the commands.
abbrev Commands : Type 0
Commands = List (ℕ × ℕ × H2Command)

abbrev keep : Commands → ℕ × ℕ × H2Command → Commands × Result Action
keep l c = (c ∷ l, ok continue)

abbrev fresh : Unpacker
fresh = record {
  state = read_length;
  tmp_buf = [];
  item_start = 0;
  item_len = 3;
  item_pos = 0;
  kind = 0;
  payload_len = 0;
  flags = 0;
  stream_id = 0;
  preface_read = true;
  server_mode = true;
}

abbrev window : H2Command
window = settings (record { id = 4; value = 65535 } ∷ [])

command-received_example :
    (p : H2Packet) × (pack_command 0 0 window ≡ ok p)
    × (frames (command_receiver keep) ([], reset_state fresh) (p.packet.buf ++ (0 ∷ []))
        ≡ frames (command_receiver keep) ((0, 0, window) ∷ [], reset_state fresh) (0 ∷ []))
command-received_example =
    command-received keep [] ((0, 0, window) ∷ []) fresh 0 0 window (0 ∷ []) (omega arith)
      (omega arith) (unfold has_flag in (refl, ((omega arith, omega arith), tt))) (omega arith)
      (λ e. cc e) refl

-- A handler of messages that keeps the packets, and whose request ends with its second one.
abbrev keep_packets : Receiver (List Packet) Packet
keep_packets l p = (p ∷ l, ok continue)

abbrev has_two : List Packet → Bool
has_two (p ∷ q ∷ l) = true
has_two _ = false

-- A test for lines without CR and LF.
abbrev is_text : Bytes → Bool
is_text [] = true
is_text (b ∷ s) = not (b == 13) && (not (b == 10) && is_text s)

texts : (s : Bytes) → is_text s ≡ true → All IsText s
texts [] h = tt
texts (b ∷ s) h = ((ground (arith, h), ground (arith, h)), texts s (ground (arith, h)))

abbrev is_word : Bytes → Bool
is_word [] = true
is_word (b ∷ s) = not (b == 13) && (not (b == 10) && (not (b == 32) && is_word s))

abbrev lines : List Bytes
lines = codes "POST / HTTP/1.1" ∷ codes "Content-Length: 2" ∷ []

abbrev first_packet : Packet
first_packet = packet_with header_kind (header_bytes lines)

abbrev second_packet : Packet
second_packet = packet_with content_kind (codes "ok")

bytes_received-message_example :
    bytes_received keep_packets has_two [] start (header_bytes lines ++ codes "ok")
    ≡ ((second_packet ∷ first_packet ∷ [], start), ok continue)
bytes_received-message_example =
    bytes_received-message keep_packets has_two [] (first_packet ∷ [])
      (second_packet ∷ first_packet ∷ []) lines (codes "ok") (first_line, (second_line, tt))
      (omega arith) (omega arith) refl refl refl refl
  where
    first_line : IsLine (codes "POST / HTTP/1.1")
    first_line = record {
      text = texts (codes "POST / HTTP/1.1") refl;
      some_text = omega arith;
      short = omega arith;
    }

    second_line : IsLine (codes "Content-Length: 2")
    second_line = record {
      text = texts (codes "Content-Length: 2") refl;
      some_text = omega arith;
      short = omega arith;
    }

bytes_received-split_line_example :
    (u : Http1Unpacker) × (bytes_received keep_packets has_two [] start (codes "GET" ++ (13 ∷ []))
      ≡ (([], u), ok continue))
    × (bytes_received keep_packets has_two [] u (10 ∷ codes "Host")
        ≡ scanned keep_packets has_two [] (complete (codes "GET" ++ (13 ∷ 10 ∷ [])) (codes "Host")))
    × (bytes_received keep_packets has_two [] start (codes "GET" ++ (13 ∷ 10 ∷ codes "Host"))
        ≡ scanned keep_packets has_two [] (scan 0 (codes "GET" ++ (13 ∷ 10 ∷ [])) (codes "Host")))
bytes_received-split_line_example =
    bytes_received-split_line keep_packets has_two [] (codes "GET") (codes "Host")
      (record { text = texts (codes "GET") refl; some_text = omega arith; short = omega arith })

set_flag-has_flag_example :
    has_flag (set_flag (2 ^ 0) true 4) (2 ^ 2) ≡ (if 0 == 2 then true else has_flag 4 (2 ^ 2))
set_flag-has_flag_example = set_flag-has_flag true 0 2 4 (omega arith) (omega arith) (omega arith)

words : (s : Bytes) → is_word s ≡ true → IsWord s
words s h = record { text = texts s (both s h).0; word = (both s h).1 }
  where
    both : (s : Bytes) → is_word s ≡ true → (is_text s ≡ true) × All IsWordByte s
    both [] h = (refl, tt)
    both (b ∷ s) h =
        let (rest, word) = both s (ground (arith, h)) in
        (ground (arith, h, rest), (ground (arith, h), word))

abbrev get_request : Request
get_request = record {
  method = codes "GET";
  uri = codes "/";
  version = codes "HTTP/1.1";
  headers = (codes "host", codes "a b") ∷ [];
}

host-IsField : IsField (codes "host", codes "a b")
unfolding lower
host-IsField = record {
  name = ((refl, refl, refl), ((refl, refl, refl), ((refl, refl, refl), ((refl, refl, refl), tt))));
  name_text = texts (codes "host") refl;
  value_text = texts (codes "a b") refl;
  starts = refl;
}

request-roundtrip_example :
    ((a : Accessor) → IsAtEnd a → pack get_request a ≡ ok (tt, appended (message get_request) a))
    × (unpack (message get_request) ≡ ok get_request)
request-roundtrip_example =
    request-roundtrip get_request (words (codes "GET") refl) (words (codes "/") refl)
      (words (codes "HTTP/1.1") refl) (host-IsField, tt)

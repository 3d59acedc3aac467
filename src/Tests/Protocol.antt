-- ===== src/Tests/Protocol.antt =====
-- Buffers and accessors at concrete inputs.
use bay_server_python.Prelude.{◌+◌, ◌≡◌, refl, [], ◌∷◌, ◌++◌, slice, some, arith}
use bay_server_python.Protocol.Packet.{Packet}
use bay_server_python.Protocol.Accessor.{new_data_accessor, read_limit}
use bay_server_python.Protocol.Accessor.Read.{Holds}
use bay_server_python.Protocol.Accessor.Fill.{packet_of}
use bay_server_python.Protocol.SimpleBuffer.{
  SimpleBuffer, new_buffer, put, contents, IsValid, new_buffer-IsValid, put_total,
}

-- Three bytes into a buffer of two: the buffer grows.
put_total_example :
    (t : SimpleBuffer) × (put (9 ∷ 8 ∷ 7 ∷ 6 ∷ []) 1 3 (new_buffer 2) ≡ some t)
    × IsValid t
    × (contents t ≡ contents (new_buffer 2) ++ slice 1 (1 + 3) (9 ∷ 8 ∷ 7 ∷ 6 ∷ []))
put_total_example =
    put_total (9 ∷ 8 ∷ 7 ∷ 6 ∷ []) 1 3 (new_buffer 2) (new_buffer-IsValid 2 (omega arith))
      (omega arith)

abbrev used : SimpleBuffer
used = record { capacity = 4; buf = 5 ∷ 6 ∷ 0 ∷ 0 ∷ []; length_used = 2 }

used-IsValid : IsValid used
used-IsValid = record { sized = refl; within = omega arith; positive = omega arith; cleared = refl }

abbrev two_bytes_packet : Packet
two_bytes_packet = packet_of 1 100 (0 ∷ []) (3 ∷ 4 ∷ [])

two_bytes_packet-Holds : Holds (new_data_accessor two_bytes_packet) (3 ∷ 4 ∷ [])
unfolding new_data_accessor read_limit
two_bytes_packet-Holds = record {
  front = 0 ∷ [];
  back = [];
  splits = refl;
  before = refl;
  limit = refl;
}

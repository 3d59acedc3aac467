-- ===== src/Protocol/Accessor/Fill.antt =====
-- A fresh packet that is given its header and its data, as the packet unpackers do it.
use bay_server_python.Prelude.{
  ℕ, ◌+◌, ◌<◌, ◌≡◌, refl, sym, ap, Bytes, [], ◌++◌, length, append-nil, replicate, length-replicate,
  length-append, arith,
}
use bay_server_python.Prelude.Results.{ok}
use bay_server_python.Protocol.Packet.{Packet, new_packet}
use bay_server_python.Protocol.Accessor.{
  Accessor, put_slice, put_bytes, new_header_accessor, new_data_accessor,
}
use bay_server_python.Protocol.Accessor.Append.{appended, put_bytes-Appends}
use bay_server_python.Protocol.Accessor.Overwrite.{
  overwritten, put_slice-Overwrites, new_header_accessor-Room,
}

-- A packet whose bytes are a header and then data.
abbrev pub packet_of : ℕ → ℕ → Bytes → Bytes → Packet
packet_of kind max_len header body = record {
  kind = kind;
  header_len = length header;
  max_data_len = max_len;
  buf = header ++ body;
  buf_len = length header + length body;
}

abbrev fresh : ℕ → ℕ → Bytes → Packet
fresh kind max_len header = new_packet kind (length header) max_len

fresh_buf :
    (kind max_len : ℕ) (header : Bytes)
    → (fresh kind max_len header).buf ≡ replicate (length header) 0 ++ []
unfolding new_packet
fresh_buf kind max_len header = sym (append-nil (replicate (length header) 0))

pub put_header :
    (kind max_len : ℕ) (header : Bytes)
    → 0 < length header
    → (a : Accessor) × (put_slice header 0
          (length header)
          (new_header_accessor (fresh kind max_len header))
        ≡ ok (tt, a))
      × (a.packet ≡ packet_of kind max_len header [])
unfolding new_packet new_header_accessor
put_header kind max_len header h = (
  overwritten [] header [] (new_header_accessor (fresh kind max_len header)),
  put_slice-Overwrites header h (new_header_accessor (fresh kind max_len header)) []
      (replicate (length header) 0) []
      (new_header_accessor-Room (fresh kind max_len header) (replicate (length header) 0) []
        (fresh_buf kind max_len header) (length-replicate {A = ℕ} (length header) 0) (omega arith))
      (length-replicate {A = ℕ} (length header) 0),
  λ i. record (packet_of kind max_len header []) { buf_len = same i },
)
  where
    same : length header ≡ length header + 0
    same = omega arith

pub put_body :
    (kind max_len : ℕ) (header body : Bytes)
    → (a : Accessor) × (put_bytes body (new_data_accessor (packet_of kind max_len header []))
        ≡ ok (tt, a))
      × (a.packet ≡ packet_of kind max_len header body)
unfolding new_data_accessor
put_body kind max_len header body = (
  appended body start,
  put_bytes-Appends body start (record {
    at_end = omega (arith, length-append header []);
    tight = omega (arith, length-append header []);
    unlimited = refl;
  }),
  λ i. record (packet_of kind max_len header body) { buf = joined i; buf_len = counted i },
)
  where
    start : Accessor
    start = new_data_accessor (packet_of kind max_len header [])

    joined : (header ++ []) ++ body ≡ header ++ body
    joined = ap (λ t. t ++ body) (append-nil header)

    counted : length header + 0 + length body ≡ length header + length body
    counted = omega arith

-- ===== src/Protocol/Packet.antt =====
-- bayserver_core/protocol/packet.py. A packet owns its bytes: `header_len` bytes of header, then
-- data; `buf_len` counts the bytes in use. The constructor's arguments of the concrete packet
-- classes (type, header length, data limit) are fields.
use bay_server_python.Prelude.{ℕ, ◌-◌, ◌≡◌, Bytes, replicate, length, length-replicate, []}

pub record Packet : Type 0 where
  pub kind : ℕ
  pub header_len : ℕ
  pub max_data_len : ℕ
  pub buf : Bytes
  pub buf_len : ℕ

-- `reset` clears the bytes and appends `header_len` zeros.
unfoldable pub reset : Packet → Packet
reset p = record p { buf = replicate p.header_len 0; buf_len = p.header_len }

-- The allocated bytes of the constructor are cleared by its call of `reset`.
unfoldable pub new_packet : ℕ → ℕ → ℕ → Packet
unfolding reset
new_packet kind header_len max_data_len = reset (record {
  kind = kind;
  header_len = header_len;
  max_data_len = max_data_len;
  buf = [];
  buf_len = 0;
})

unfoldable pub data_len : Packet → ℕ
data_len p = p.buf_len - p.header_len

-- The bytes are those in use.
pub record IsTight (p : Packet) : Type 0 where
  pub tight : length p.buf ≡ p.buf_len

pub new_packet-IsTight : (kind hl ml : ℕ) → IsTight (new_packet kind hl ml)
unfolding new_packet
new_packet-IsTight kind hl ml = record { tight = length-replicate hl 0 }

-- ===== src/Http2/HeaderBlock.antt =====
-- bayserver_docker_http/h2/header_block.py: one entry of an HPACK header list on the wire. A
-- constructor stands for each value of `op`, with the fields that this value uses.
pub mod RoundTrip
use bay_server_python.Prelude.{ℕ, ◌+◌, bit_and, Bytes, ◌==◌, if◌then◌else◌, Bool, false, not}
use bay_server_python.Prelude.Results.{runtime_error}
use bay_server_python.Protocol.Accessor.{M, ◌>>=◌, ◌>>◌, pure, fail, put_byte, get_byte}
use bay_server_python.Http2.HpackInt.{
  put_hpack_int, put_hpack_string, get_hpack_int_rest, get_hpack_string,
}

pub data HeaderBlock : Type 0 where
  index : ℕ → HeaderBlock
  overload_known_header : ℕ → Bytes → HeaderBlock
  new_header : Bytes → Bytes → HeaderBlock
  known_header : ℕ → Bytes → HeaderBlock
  unknown_header : Bytes → Bytes → HeaderBlock
  update_dynamic_table_size : ℕ → HeaderBlock

unfoldable pub pack : HeaderBlock → M (Unit {0})
pack (index i) = put_hpack_int i 7 1
pack (overload_known_header i v) = fail runtime_error
pack (new_header n v) = fail runtime_error
pack (known_header i v) = do put_hpack_int i 4 0; put_hpack_string v false
pack (unknown_header n v) = do put_byte 0; put_hpack_string n false; put_hpack_string v false
pack (update_dynamic_table_size n) = fail runtime_error

-- `index + get_hpack_int_rest()` where the prefix is full.
abbrev pub full_prefix : ℕ → ℕ → M ℕ
full_prefix mask i = if i == mask then (do rest ← get_hpack_int_rest; pure (i + rest)) else pure i

abbrev pub read_overload : ℕ → M HeaderBlock
read_overload first = do
  i ← full_prefix 0x3f first
  v ← get_hpack_string
  pure (overload_known_header i v)

abbrev pub read_new : M HeaderBlock
read_new = do n ← get_hpack_string; v ← get_hpack_string; pure (new_header n v)

abbrev pub read_size : ℕ → M HeaderBlock
read_size first = do n ← full_prefix 0x1f first; pure (update_dynamic_table_size n)

abbrev pub read_known : ℕ → M HeaderBlock
read_known first = do i ← full_prefix 0xf first; v ← get_hpack_string; pure (known_header i v)

abbrev pub read_unknown : M HeaderBlock
read_unknown = do n ← get_hpack_string; v ← get_hpack_string; pure (unknown_header n v)

abbrev pub set : ℕ → ℕ → Bool
set b mask = not (bit_and b mask == 0)

-- The branches of `unpack` on the first byte.
abbrev pub unpack_byte : ℕ → M HeaderBlock
unpack_byte b =
    if set b 0x80
    then pure (index (bit_and b 0x7f))
    else if set b 0x40
    then (if not (bit_and b 0x3f == 0) then read_overload (bit_and b 0x3f) else read_new)
    else if set b 0x20
    then read_size (bit_and b 0x1f)
    else if not (bit_and b 0xf == 0)
    then read_known (bit_and b 0xf)
    else read_unknown

unfoldable pub unpack : M HeaderBlock
unpack = do b ← get_byte; unpack_byte b

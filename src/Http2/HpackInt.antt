-- ===== src/Http2/HpackInt.antt =====
-- HPACK integers and strings: class H2DataAccessor of bayserver_docker_http/h2/h2_packet.py.
pub mod RoundTrip
use bay_server_python.Prelude.{
  ℕ, zero, suc, ◌+◌, ◌-◌, ◌*◌, ◌/◌, ◌^◌, bit_and, bit_or, Bytes, [], ◌∷◌, length, ltb, ◌==◌,
  if◌then◌else◌, Bool, true, false, not,
}
use bay_server_python.Prelude.Results.{Result, ok, err, runtime_error, value_error, out_of_fuel}
use bay_server_python.Protocol.Accessor.{
  Accessor, M, ◌>>=◌, ◌>>◌, pure, fail, shr, shl, read_limit, put_byte, put_bytes, get_byte,
  get_bytes,
}
use bay_server_python.Util.StringUtil.{is_ascii, from_bytes}
use bay_server_python.Http2.Huffman.{decode}

-- `0xFF >> (8 - prefix)`
unfoldable pub max_val : ℕ → ℕ
max_val prefix = shr 0xff (8 - prefix)

-- The loop of `put_hpack_int_rest`. It ends since `val` shrinks; the fuel is a bound for it.
unfoldable pub put_rest_loop : ℕ → ℕ → M (Unit {0})
put_rest_loop zero val = fail out_of_fuel
put_rest_loop (suc fuel) val =
    let octet = bit_and val 0x7f in
    let next_val = shr val 7 in
    let more = (do put_byte (bit_or octet 0x80); put_rest_loop fuel next_val) in
    if next_val == 0 then put_byte octet else more

unfoldable pub put_hpack_int_rest : ℕ → M (Unit {0})
unfolding put_rest_loop
put_hpack_int_rest val = put_rest_loop (suc val) val

unfoldable pub put_hpack_int : ℕ → ℕ → ℕ → M (Unit {0})
unfolding max_val put_hpack_int_rest
put_hpack_int val prefix head =
    let head_val = bit_and (shl head prefix) 0xff in
    if ltb val (max_val prefix)
    then put_byte (bit_or val head_val)
    else (do put_byte (bit_or head_val (max_val prefix)); put_hpack_int_rest (val - max_val prefix))

-- The loop of `get_hpack_int_rest`, which reads a byte in each round.
unfoldable pub get_rest_loop : ℕ → ℕ → ℕ → M ℕ
get_rest_loop zero rest i = fail out_of_fuel
get_rest_loop (suc fuel) rest i = do
  octet ← get_byte
  let cont = not (bit_and octet 0x80 == 0)
  let value = bit_and octet 0x7f
  let rest' = rest + shl value (i * 7)
  let more = get_rest_loop fuel rest' (i + 1)
  if not cont then pure rest' else more

-- As many rounds as there are bytes to read, and one for the read that fails.
unfoldable pub get_hpack_int_rest : M ℕ
unfolding get_rest_loop
get_hpack_int_rest a = get_rest_loop (suc (read_limit a - a.pos)) 0 0 a

-- `get_hpack_int(prefix, head)`: the number, and what it writes to `head[0]`.
unfoldable pub get_hpack_int : ℕ → M (ℕ × ℕ)
unfolding max_val get_hpack_int_rest
get_hpack_int prefix = do
  first_byte ← get_byte
  let first_val = bit_and first_byte (max_val prefix)
  let head = shr first_byte prefix
  let with_rest = (do rest ← get_hpack_int_rest; pure (max_val prefix + rest, head))
  if not (first_val == max_val prefix) then pure (first_val, head) else with_rest

abbrev pub lift_result : {A : Type 0} → Result A → M A
lift_result r a = elim r [ ok v ↦ ok (v, a) | err e ↦ err e ]

abbrev pub decode_text : ℕ → Bytes → M Bytes
decode_text is_huffman data' =
    if is_huffman == 1 then lift_result (decode data') else pure (from_bytes data')

unfoldable pub get_hpack_string : M Bytes
unfolding get_hpack_int
get_hpack_string = do
  (len, is_huffman) ← get_hpack_int 7
  data' ← get_bytes len
  decode_text is_huffman data'

-- `value.encode("us-ascii")`; a UnicodeEncodeError is a ValueError.
abbrev pub put_ascii : Bytes → M (Unit {0})
put_ascii value = if is_ascii value then put_bytes value else fail value_error

unfoldable pub put_hpack_string : Bytes → Bool → M (Unit {0})
unfolding put_hpack_int
put_hpack_string value is_huffman =
    if is_huffman
    then fail runtime_error
    else (do put_hpack_int (length value) 7 0; put_ascii value)

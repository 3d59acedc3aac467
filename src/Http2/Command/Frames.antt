-- ===== src/Http2/Command/Frames.antt =====
-- The frames of the HTTP/2 commands: what `pack` makes, and what `unpack` gets from it.
use mathlib.Core.Path.{subst}
use bay_server_python.Prelude.{
  ℕ, ◌/◌, ◌<◌, ◌≡◌, refl, sym, ap, bit_and, Bytes, [], ◌∷◌, ◌++◌, length, append-nil, replicate,
  arith,
}
use bay_server_python.Prelude.Bits.{bit_and_mask, bit_and_mask_lt}
use bay_server_python.Prelude.Results.{ok}
use bay_server_python.Protocol.Packet.{new_packet, data_len, new_packet-IsTight}
use bay_server_python.Protocol.Accessor.{
  Accessor, M, new_header_accessor, new_data_accessor, put_byte, put_int, read_limit,
}
use bay_server_python.Protocol.Accessor.Append.{
  Appends, appended, int_bytes, new_data_accessor-IsAtEnd,
}
use bay_server_python.Protocol.Accessor.Read.{Holds, Reads}
use bay_server_python.Protocol.Accessor.Overwrite.{
  Overwrites, Overwrites->>, put_byte-Overwrites, put_int-Overwrites, put_bytes-Overwrites,
  new_header_accessor-Room,
}
use bay_server_python.Http2.Unpacker.{H2Packet, frame_header_len, default_payload_maxlen}
use bay_server_python.Http2.Unpacker.Frames.{int24_bytes, frame_header, frame_packet}
use bay_server_python.Http2.Command.{
  extract_int31, put_int24, put_frame_header, pack_header, with_packet, new_h2_packet, pack, unpack,
}

put_int24-Overwrites : (n : ℕ) → Overwrites (put_int24 n) (int24_bytes n)
unfolding put_int24
put_int24-Overwrites n =
    rw (bit_and_mask 8 (n / 65536), bit_and_mask 8 (n / 256), bit_and_mask 8 n)
      (put_bytes-Overwrites (int24_bytes n) (omega arith))

-- The packet in front of the call of `pack_header`.
abbrev with_body : ℕ → ℕ → ℕ → Bytes → H2Packet
with_body kind flags stream_id body = record {
  packet =
      (appended body
        (new_data_accessor (new_packet kind frame_header_len default_payload_maxlen))).packet;
  flags = flags;
  stream_id = stream_id;
}

body_length :
    (kind flags stream_id : ℕ) (body : Bytes)
    → data_len (with_body kind flags stream_id body).packet ≡ length body
unfolding data_len new_data_accessor new_packet
body_length kind flags stream_id body = omega arith

put_frame_header-Overwrites :
    (kind flags stream_id : ℕ) (body : Bytes)
    → kind < 256
    → flags < 256
    → stream_id < 2147483648
    → Overwrites
        (put_frame_header (with_body kind flags stream_id body))
        (frame_header (length body) kind flags stream_id)
unfolding put_frame_header extract_int31 new_data_accessor new_packet
put_frame_header-Overwrites kind flags stream_id body hk hf hs =
    let size = body_length kind flags stream_id body in
    let stream : bit_and stream_id 0x7fffffff ≡ stream_id = bit_and_mask_lt 31 stream_id hs in
    rw (size, stream)
      (Overwrites->> (put_int24 (length body)) _ (int24_bytes (length body))
        (kind ∷ flags ∷ int_bytes stream_id) (put_int24-Overwrites (length body))
        (Overwrites->> (put_byte kind) _ (kind ∷ []) (flags ∷ int_bytes stream_id)
          (put_byte-Overwrites kind hk)
          (Overwrites->> (put_byte flags) (put_int stream_id) (flags ∷ []) (int_bytes stream_id)
            (put_byte-Overwrites flags hf) (put_int-Overwrites stream_id))))

pack_header-eq :
    (kind flags stream_id : ℕ) (body : Bytes)
    → kind < 256
    → flags < 256
    → stream_id < 2147483648
    → pack_header (with_body kind flags stream_id body)
      ≡ ok (frame_packet kind flags stream_id body)
unfolding pack_header new_header_accessor new_data_accessor new_packet
pack_header-eq kind flags stream_id body hk hf hs =
    let start = with_body kind flags stream_id body in
    ap (with_packet start) (
      put_frame_header-Overwrites kind flags stream_id body hk hf hs
        (new_header_accessor start.packet) [] (replicate frame_header_len 0) body
        (new_header_accessor-Room start.packet (replicate frame_header_len 0) body refl refl
          (omega arith))
        refl)

-- What a command packs is the frame of the specification.
pub pack-eq :
    (put_body : M (Unit {0})) (kind flags stream_id : ℕ) (body : Bytes)
    → kind < 256
    → flags < 256
    → stream_id < 2147483648
    → Appends put_body body
    → pack put_body stream_id flags (new_h2_packet kind)
      ≡ ok (frame_packet kind flags stream_id body)
unfolding pack new_h2_packet
pack-eq put_body kind flags stream_id body hk hf hs appends =
    rw
      (
        pack,
        appends (new_data_accessor (new_packet kind frame_header_len default_payload_maxlen)) (
            new_data_accessor-IsAtEnd (new_packet kind frame_header_len default_payload_maxlen)
              (new_packet-IsTight kind frame_header_len default_payload_maxlen)
              (unfold new_packet in refl)),
      )
      (pack_header-eq kind flags stream_id body hk hf hs)

pub frame_packet-Holds :
    (kind flags stream_id : ℕ) (body : Bytes)
    → Holds (new_data_accessor (frame_packet kind flags stream_id body).packet) body
unfolding new_data_accessor read_limit
frame_packet-Holds kind flags stream_id body = record {
  front = frame_header (length body) kind flags stream_id;
  back = [];
  splits = ap (λ t. frame_header (length body) kind flags stream_id ++ t) (sym (append-nil body));
  before = omega arith;
  limit = omega arith;
}

pub unpack-eq :
    {A : Type 0} (get_body : H2Packet → M A) (p : H2Packet) (v : A) (a : Accessor)
    → get_body p (new_data_accessor p.packet) ≡ ok (v, a)
    → unpack get_body p ≡ ok (p.stream_id, p.flags, v)
unfolding unpack
unpack-eq get_body p v a e = rw (unpack, e) refl

-- A body that reads the whole payload.
pub unpack-Reads :
    {A : Type 0} (get_body : H2Packet → M A) (kind flags stream_id : ℕ) (body : Bytes) (v : A)
    → Reads (get_body (frame_packet kind flags stream_id body)) body v
    → unpack get_body (frame_packet kind flags stream_id body) ≡ ok (stream_id, flags, v)
unpack-Reads get_body kind flags stream_id body v reads =
    unpack-eq get_body (frame_packet kind flags stream_id body) v _ (
      reads (new_data_accessor (frame_packet kind flags stream_id body).packet) [] (
        subst (Holds (new_data_accessor (frame_packet kind flags stream_id body).packet))
          (sym (append-nil body)) (frame_packet-Holds kind flags stream_id body)))

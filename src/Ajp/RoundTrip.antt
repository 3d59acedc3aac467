-- ===== src/Ajp/RoundTrip.antt =====
-- AJP texts are read back; the longest text that is, has 65534 bytes.
use bay_server_python.Ajp.Commands.{
  put_send_body_chunk, get_send_body_chunk, max_chunklen, send_body_chunk_kind, pack_command,
  read_command,
}
use mathlib.Core.Path.{subst}
use bay_server_python.Prelude.{
  suc, ℕ, ◌+◌, ◌-◌, ◌/◌, ◌%◌, ◌<◌, ◌≡◌, ◌≢◌, refl, sym, bit_and, Bytes, [], ◌∷◌, ◌++◌, length,
  replicate, ◌==◌, ==_refl, Bool, true, false, arith, le→ltb, lt→ltb, append-nil, ap, ◌≤◌,
}
use bay_server_python.Prelude.Bits.{bit_and_mask}
use bay_server_python.Prelude.Results.{ok, err, runtime_error}
use bay_server_python.Protocol.Packet.{Packet, new_packet, new_packet-IsTight}
use bay_server_python.Protocol.Accessor.{
  ◌>>◌, new_header_accessor, new_data_accessor, put_byte, put_short, put_bytes, get_byte, get_bytes,
  get_short, Accessor, M, read_limit,
}
use bay_server_python.Protocol.Accessor.Append.{
  Appends->>, appended, short_bytes, put_byte-Appends, put_short-Appends, put_bytes-Appends,
  IsAtEnd, new_data_accessor-IsAtEnd, Appends,
}
use bay_server_python.Protocol.Accessor.Read.{
  Reads->>=, pure-Reads, get_byte-Reads, get_bytes-Reads, get_short-short_bytes, Holds, advanced,
  Reads,
}
use bay_server_python.Protocol.Accessor.Overwrite.{
  Overwrites, Overwrites->>, put_byte-Overwrites, new_header_accessor-Room, overwritten,
}
use bay_server_python.Protocol.Accessor.Fill.{packet_of}
use bay_server_python.Ajp.Packet.{
  AjpPacket, put_string, get_string, get_string_by_len, put_direction, put_preamble, pack_header,
  pack, unpack, preamble_size, max_data_len, new_ajp_packet,
}

-- A text on the wire: its length, its bytes, a zero; for the empty text a length of 0xffff alone.
abbrev pub text_bytes : Bytes → Bytes
text_bytes [] = 255 ∷ 255 ∷ []
text_bytes (b ∷ s) = short_bytes (length (b ∷ s)) ++ ((b ∷ s) ++ (0 ∷ []))

-- At the end of a packet, `put_string` appends the bytes of the text.
pub put_string-Appends :
    (s : Bytes) (a : Accessor) → IsAtEnd a → put_string s a ≡ ok (tt, appended (text_bytes s) a)
unfolding put_string
put_string-Appends [] = put_short-Appends 0xffff
put_string-Appends (b ∷ s) =
    let several : (suc (length s) == 0) ≡ false = ground arith in
    rw several (
      Appends->> (put_short (length (b ∷ s))) _ (short_bytes (length (b ∷ s))) ((b ∷ s) ++ (0 ∷ []))
        (put_short-Appends (length (b ∷ s)))
        (Appends->> (put_bytes (b ∷ s)) (put_byte 0) (b ∷ s) (0 ∷ []) (put_bytes-Appends (b ∷ s))
          (put_byte-Appends 0 (omega arith))))

-- In front of the bytes of a text shorter than 65535 bytes, `get_string` returns the text and passes
-- exactly its bytes.
pub get_string-Reads :
    (s : Bytes)
    → length s < 65535
    → (a : Accessor) (rest : Bytes) → Holds a (text_bytes s ++ rest)
    → get_string a ≡ ok (s, advanced (length (text_bytes s)) a)
unfolding get_string
get_string-Reads [] h =
    Reads->>= get_short get_string_by_len (255 ∷ 255 ∷ []) [] 0xffff []
      (get_short-short_bytes 0xffff (omega arith)) (pure-Reads [])
get_string-Reads (b ∷ s) h =
    let text = b ∷ s in
    let short : (length text == 0xffff) ≡ false = ground arith in
    Reads->>= get_short get_string_by_len (short_bytes (length text)) (text ++ (0 ∷ []))
      (length text) text (get_short-short_bytes (length text) (omega arith))
      (rw short (
        Reads->>= (get_bytes (length text)) _ text (0 ∷ []) text text (get_bytes-Reads text)
          (Reads->>= get_byte _ (0 ∷ []) [] 0 text (get_byte-Reads 0) (pure-Reads text))))

-- The protocol's packet header: the direction, then the length of the data.
abbrev pub direction : Bool → Bytes
direction true = 0x12 ∷ 0x34 ∷ []
direction false = 0x41 ∷ 0x42 ∷ []

abbrev pub preamble : Bool → ℕ → Bytes
preamble to_server len = direction to_server ++ short_bytes len

abbrev pub packet_with : Bool → ℕ → Bytes → AjpPacket
packet_with to_server kind body = record {
  packet = packet_of kind max_data_len (preamble to_server (length body)) body;
  to_server = to_server;
}

-- A packet behind the writes of a command's body.
abbrev pub with_body : Bool → ℕ → Bytes → AjpPacket
with_body to_server kind body = record {
  packet = (appended body (new_data_accessor (new_packet kind preamble_size max_data_len))).packet;
  to_server = to_server;
}

put_direction-Overwrites :
    (to_server : Bool) → Overwrites (put_direction to_server) (direction to_server)
put_direction-Overwrites true =
    Overwrites->> (put_byte 0x12) (put_byte 0x34) (0x12 ∷ []) (0x34 ∷ [])
      (put_byte-Overwrites 0x12 (omega arith)) (put_byte-Overwrites 0x34 (omega arith))
put_direction-Overwrites false =
    Overwrites->> (put_byte 0x41) (put_byte 0x42) (0x41 ∷ []) (0x42 ∷ [])
      (put_byte-Overwrites 0x41 (omega arith)) (put_byte-Overwrites 0x42 (omega arith))

put_length-Overwrites :
    (n : ℕ)
    → Overwrites (do put_byte (bit_and (n / 256) 0xff); put_byte (bit_and n 0xff)) (short_bytes n)
put_length-Overwrites n =
    rw (bit_and_mask 8 (n / 256), bit_and_mask 8 n)
      (Overwrites->> (put_byte (n / 256 % 256)) (put_byte (n % 256)) ((n / 256 % 256) ∷ [])
        ((n % 256) ∷ []) (put_byte-Overwrites (n / 256 % 256) (omega arith))
        (put_byte-Overwrites (n % 256) (omega arith)))

put_preamble-Overwrites :
    (to_server : Bool) (kind : ℕ) (body : Bytes)
    → Overwrites (put_preamble (with_body to_server kind body)) (preamble to_server (length body))
unfolding put_preamble new_data_accessor new_packet
put_preamble-Overwrites to_server kind body =
    let size : preamble_size + length body - preamble_size ≡ length body = omega arith in
    subst
      (λ n.
        Overwrites
          (do put_direction to_server; put_byte (bit_and (n / 256) 0xff); put_byte (bit_and n 0xff))
          (preamble to_server (length body)))
      (sym size)
      (Overwrites->> (put_direction to_server) _ (direction to_server) (short_bytes (length body))
        (put_direction-Overwrites to_server) (put_length-Overwrites (length body)))

abbrev aimed : Bool → Packet → AjpPacket
aimed to_server p = record { packet = p; to_server = to_server }

pack_header-eq :
    (to_server : Bool) (kind : ℕ) (body : Bytes)
    → pack_header (with_body to_server kind body) ≡ ok (packet_with to_server kind body)
unfolding pack_header new_header_accessor new_data_accessor new_packet
pack_header-eq to_server kind body =
    let start = with_body to_server kind body in
    rw
      (put_preamble-Overwrites to_server kind body (new_header_accessor start.packet) []
        (replicate preamble_size 0) body
        (new_header_accessor-Room start.packet (replicate preamble_size 0) body refl refl
          (omega arith))
        (size to_server))
      (shape to_server)
  where
    size :
        (b : Bool) → length (replicate {A = ℕ} preamble_size 0) ≡ length (preamble b (length body))
    size true = refl
    size false = refl

    shape :
        (b : Bool)
        → ok (
            aimed b
              (overwritten []
                (preamble b (length body))
                body
                (new_header_accessor (with_body b kind body).packet)).packet)
          ≡ ok (packet_with b kind body)
    shape true = refl
    shape false = refl

-- `AjpCommand.pack` behind the body that a command has written to a new packet of its type: the packet
-- gets the direction, and the protocol's header with the length of the body.
pub pack-packet_with :
    (to_server : Bool) (kind : ℕ) (body : Bytes)
    → pack kind to_server (with_body false kind body) ≡ ok (packet_with to_server kind body)
unfolding pack new_data_accessor new_packet
pack-packet_with to_server kind body =
    rw (==_refl kind) (unfold new_data_accessor new_packet in pack_header-eq to_server kind body)

-- A command refuses a packet of another type, both when it packs and when it unpacks.
pub other_kind-refused :
    (kind : ℕ) (to_server : Bool) (p : AjpPacket)
    → p.packet.kind ≢ kind
    → (pack kind to_server p ≡ err runtime_error) × (unpack kind p ≡ err runtime_error)
unfolding pack unpack
other_kind-refused kind to_server p h =
    let other : (p.packet.kind == kind) ≡ false = ground arith in rw other (refl, refl)

pack_command-eq :
    (kind : ℕ) (to_server : Bool) (put_body : M (Unit {0})) (body : Bytes)
    → Appends put_body body
    → pack_command kind to_server put_body ≡ ok (packet_with to_server kind body)
unfolding pack_command new_ajp_packet new_data_accessor new_packet
pack_command-eq kind to_server put_body body h =
    rw
      (
        pack_command,
        h (new_data_accessor (new_packet kind preamble_size max_data_len)) (
            new_data_accessor-IsAtEnd (new_packet kind preamble_size max_data_len)
              (new_packet-IsTight kind preamble_size max_data_len) (unfold new_packet in refl)),
      )
      (unfold new_data_accessor new_packet in pack-packet_with to_server kind body)

packet_with-Holds :
    (to_server : Bool) (kind : ℕ) (body : Bytes)
    → Holds (new_data_accessor (packet_with to_server kind body).packet) body
unfolding new_data_accessor read_limit
packet_with-Holds to_server kind body = record {
  front = preamble to_server (length body);
  back = [];
  splits = ap (λ t. preamble to_server (length body) ++ t) (sym (append-nil body));
  before = omega arith;
  limit = omega arith;
}

-- A chunk on the wire: the code, the length, the bytes, a zero.
abbrev pub chunk_bytes : Bytes → Bytes
chunk_bytes chunk = 3 ∷ (short_bytes (length chunk) ++ chunk)

put_send_body_chunk-Appends :
    (chunk : Bytes)
    → length chunk ≤ max_chunklen
    → Appends (put_send_body_chunk chunk) (chunk_bytes chunk ++ (0 ∷ []))
unfolding put_send_body_chunk
put_send_body_chunk-Appends chunk h a e = rw (le→ltb max_chunklen (length chunk) h) (
    Appends->> (put_byte 3) _ (3 ∷ []) ((short_bytes (length chunk) ++ chunk) ++ (0 ∷ []))
      (put_byte-Appends 3 (omega arith))
      (Appends->> (put_short (length chunk)) _ (short_bytes (length chunk)) (chunk ++ (0 ∷ []))
        (put_short-Appends (length chunk))
        (Appends->> (put_bytes chunk) (put_byte 0) chunk (0 ∷ []) (put_bytes-Appends chunk)
          (put_byte-Appends 0 (omega arith))))
      a e)

get_send_body_chunk-Reads :
    (chunk : Bytes) → length chunk < 65536 → Reads get_send_body_chunk (chunk_bytes chunk) chunk
unfolding get_send_body_chunk
get_send_body_chunk-Reads chunk h =
    Reads->>= get_byte _ (3 ∷ []) (short_bytes (length chunk) ++ chunk) 3 chunk (get_byte-Reads 3) (
      Reads->>= get_short get_bytes (short_bytes (length chunk)) chunk (length chunk) chunk
        (get_short-short_bytes (length chunk) h) (get_bytes-Reads chunk))

-- A chunk that is not longer than the limit: SendBodyChunk packs into the protocol's packet to the web
-- server, with the chunk's length and a zero behind the chunk, and reads the chunk back from it.
pub send_body_chunk-roundtrip :
    (chunk : Bytes)
    → length chunk ≤ max_chunklen
    → (p : AjpPacket) × (pack_command send_body_chunk_kind false (put_send_body_chunk chunk) ≡ ok p)
      × (p ≡ packet_with false send_body_chunk_kind (chunk_bytes chunk ++ (0 ∷ [])))
      × (read_command get_send_body_chunk p ≡ ok chunk)
unfolding pack_command read_command
send_body_chunk-roundtrip chunk h =
    let body = chunk_bytes chunk ++ (0 ∷ []) in
    (
      packet_with false send_body_chunk_kind body,
      pack_command-eq send_body_chunk_kind false (put_send_body_chunk chunk) body
          (put_send_body_chunk-Appends chunk h),
      refl,
      ap (λ r. elim r [ ok (v, a) ↦ ok v | err e ↦ err e ])
          (get_send_body_chunk-Reads chunk (omega arith)
            (new_data_accessor (packet_with false send_body_chunk_kind body).packet) (0 ∷ [])
            (packet_with-Holds false send_body_chunk_kind body)),
    )

-- A chunk that is longer than the limit is refused.
pub send_body_chunk-refused :
    (chunk : Bytes)
    → max_chunklen < length chunk
    → pack_command send_body_chunk_kind false (put_send_body_chunk chunk) ≡ err runtime_error
unfolding pack_command put_send_body_chunk
send_body_chunk-refused chunk h = rw (pack_command, lt→ltb max_chunklen (length chunk) h) refl

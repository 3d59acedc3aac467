-- ===== src/Fcgi/Command/RoundTrip.antt =====
-- The packets of the FastCGI commands, as they are packed and read back.
use mathlib.Core.Path.{subst}
use bay_server_python.Prelude.{
  ℕ, ◌^◌, ◌<◌, ◌≡◌, refl, sym, ap, ◌∙◌, bit_and, Bytes, List, [], ◌∷◌, ◌++◌, length, append-nil,
  length-append, replicate, ◌==◌, Bool, true, false, not, if◌then◌else◌, arith, All,
}
use bay_server_python.Prelude.Results.{ok}
use bay_server_python.Protocol.Packet.{new_packet, data_len, new_packet-IsTight}
use bay_server_python.Protocol.Accessor.{
  Accessor, M, ◌>>=◌, ◌>>◌, pure, new_header_accessor, new_data_accessor, put_byte, put_short,
  put_int, put_bytes, get_byte, get_short, get_int, read_limit,
}
use bay_server_python.Protocol.Accessor.Append.{
  Appends, Appends->>, appended, short_bytes, int_bytes, new_data_accessor-IsAtEnd,
  put_byte-Appends, put_short-Appends, put_int-Appends, put_bytes-Appends,
}
use bay_server_python.Protocol.Accessor.Read.{
  Holds, Reads, Reads->>=, Reads-map, get_byte-Reads, get_short-short_bytes, get_int-int_bytes,
}
use bay_server_python.Protocol.Accessor.Overwrite.{
  Overwrites, Overwrites->>, put_byte-Overwrites, put_short-Overwrites, new_header_accessor-Room,
}
use bay_server_python.Protocol.Accessor.Fill.{packet_of}
use bay_server_python.Fcgi.Command.{
  FcgPacket, new_fcg_packet, put_preamble, pack_header, pack, unpack, with_packet, BeginRequest,
  put_begin_request, get_begin_request, EndRequest, put_end_request, get_end_request, Param,
  put_params, get_params, preamble_size, maxlen, reserved_of_begin, reserved_of_end,
}
use bay_server_python.Fcgi.Command.Params.{Fits, params_bytes, put_params-Appends, get_params-eq}

-- The specification's record header: version, type, request, content length, padding, reserved.
abbrev pub preamble : ℕ → ℕ → ℕ → Bytes
preamble kind req_id len = 1 ∷ kind ∷ (short_bytes req_id ++ (short_bytes len ++ (0 ∷ 0 ∷ [])))

abbrev pub record_of : ℕ → ℕ → Bytes → FcgPacket
record_of kind req_id body = record {
  packet = packet_of kind maxlen (preamble kind req_id (length body)) body;
  version = 1;
  req_id = req_id;
}

-- The packet in front of the call of `pack_header`.
abbrev with_body : ℕ → ℕ → Bytes → FcgPacket
with_body kind req_id body = record {
  packet = (appended body (new_data_accessor (new_packet kind preamble_size maxlen))).packet;
  version = 1;
  req_id = req_id;
}

body_length :
    (kind req_id : ℕ) (body : Bytes) → data_len (with_body kind req_id body).packet ≡ length body
unfolding data_len new_data_accessor new_packet
body_length kind req_id body = omega arith

put_preamble-Overwrites :
    (kind req_id : ℕ) (body : Bytes)
    → kind < 256
    → Overwrites (put_preamble (with_body kind req_id body)) (preamble kind req_id (length body))
unfolding put_preamble new_data_accessor new_packet
put_preamble-Overwrites kind req_id body h =
    let size = body_length kind req_id body in
    Overwrites->> (put_byte 1) _ (1 ∷ [])
      (kind ∷ (short_bytes req_id ++ (short_bytes (length body) ++ (0 ∷ 0 ∷ []))))
      (put_byte-Overwrites 1 (omega arith))
      (Overwrites->> (put_byte kind) _ (kind ∷ [])
        (short_bytes req_id ++ (short_bytes (length body) ++ (0 ∷ 0 ∷ [])))
        (put_byte-Overwrites kind h)
        (Overwrites->> (put_short req_id) _ (short_bytes req_id)
          (short_bytes (length body) ++ (0 ∷ 0 ∷ [])) (put_short-Overwrites req_id)
          (subst
            (λ n.
              Overwrites (do put_short n; put_byte 0; put_byte 0)
                (short_bytes (length body) ++ (0 ∷ 0 ∷ [])))
            (sym size)
            (Overwrites->> (put_short (length body)) _ (short_bytes (length body)) (0 ∷ 0 ∷ [])
              (put_short-Overwrites (length body))
              (Overwrites->> (put_byte 0) (put_byte 0) (0 ∷ []) (0 ∷ [])
                (put_byte-Overwrites 0 (omega arith)) (put_byte-Overwrites 0 (omega arith)))))))

pack_header-eq :
    (kind req_id : ℕ) (body : Bytes)
    → kind < 256
    → pack_header (with_body kind req_id body) ≡ ok (record_of kind req_id body)
unfolding pack_header new_header_accessor new_data_accessor new_packet
pack_header-eq kind req_id body h =
    ap (with_packet (λ q. record (with_body kind req_id body) { packet = q })) (
      put_preamble-Overwrites kind req_id body h
        (new_header_accessor (with_body kind req_id body).packet) [] (replicate preamble_size 0)
        body
        (new_header_accessor-Room (with_body kind req_id body).packet (replicate preamble_size 0)
          body refl refl (omega arith))
        refl)

-- What a command packs is the record of the specification.
pub pack-eq :
    (put_body : M (Unit {0})) (kind req_id : ℕ) (body : Bytes)
    → kind < 256
    → Appends put_body body
    → pack put_body req_id (new_fcg_packet kind) ≡ ok (record_of kind req_id body)
unfolding pack new_fcg_packet
pack-eq put_body kind req_id body h appends =
    rw
      (
        pack,
        appends (new_data_accessor (new_packet kind preamble_size maxlen)) (
            new_data_accessor-IsAtEnd (new_packet kind preamble_size maxlen)
              (new_packet-IsTight kind preamble_size maxlen) (unfold new_packet in refl)),
      )
      (pack_header-eq kind req_id body h)

record_of-Holds :
    (kind req_id : ℕ) (body : Bytes)
    → Holds (new_data_accessor (record_of kind req_id body).packet) (body ++ [])
unfolding new_data_accessor read_limit
record_of-Holds kind req_id body = record {
  front = preamble kind req_id (length body);
  back = [];
  splits =
      ap (λ t. preamble kind req_id (length body) ++ t)
        (sym (append-nil body) ∙ sym (append-nil (body ++ [])));
  before = omega arith;
  limit = omega (arith, length-append body []);
}

unpack-eq :
    {A : Type 0} (get_body : M A) (kind req_id : ℕ) (body : Bytes) (v : A) (a : Accessor)
    → get_body (new_data_accessor (record_of kind req_id body).packet) ≡ ok (v, a)
    → unpack get_body (record_of kind req_id body) ≡ ok (req_id, v)
unfolding unpack
unpack-eq get_body kind req_id body v a e = rw (unpack, e) refl

-- A body that reads its bytes, with further bytes behind them.
unpack-Reads :
    {A : Type 0} (get_body : M A) (kind req_id : ℕ) (body rest : Bytes) (v : A)
    → Reads get_body body v
    → unpack get_body (record_of kind req_id (body ++ rest)) ≡ ok (req_id, v)
unpack-Reads get_body kind req_id body rest v reads =
    unpack-eq get_body kind req_id (body ++ rest) v _ (
      reads (new_data_accessor (record_of kind req_id (body ++ rest)).packet) rest (
        subst (Holds (new_data_accessor (record_of kind req_id (body ++ rest)).packet))
          (append-nil (body ++ rest)) (record_of-Holds kind req_id (body ++ rest))))

abbrev pub begin_request_kind : ℕ
begin_request_kind = 1

abbrev pub end_request_kind : ℕ
end_request_kind = 3

abbrev pub params_kind : ℕ
params_kind = 4

abbrev flag_of : Bool → ℕ
flag_of true = 1
flag_of false = 0

abbrev pub begin_request_bytes : BeginRequest → Bytes
begin_request_bytes c = short_bytes c.role ++ (flag_of c.keep_conn ∷ [])

put_begin_request-Appends :
    (c : BeginRequest) → Appends (put_begin_request c) (begin_request_bytes c ++ reserved_of_begin)
unfolding put_begin_request
put_begin_request-Appends c =
    Appends->> (put_short c.role) _ (short_bytes c.role) (flag_of c.keep_conn ∷ reserved_of_begin)
      (put_short-Appends c.role)
      (Appends->> _ (put_bytes reserved_of_begin) (flag_of c.keep_conn ∷ []) reserved_of_begin
        (flag c.keep_conn) (put_bytes-Appends reserved_of_begin))
  where
    flag : (b : Bool) → Appends (put_byte (if b then 1 else 0)) (flag_of b ∷ [])
    flag true = put_byte-Appends 1 (omega arith)
    flag false = put_byte-Appends 0 (omega arith)

abbrev begin_of : ℕ → ℕ → BeginRequest
begin_of role flags = record { role = role; keep_conn = not (bit_and flags 1 == 0) }

get_begin_request-Reads :
    (c : BeginRequest) → c.role < 65536 → Reads get_begin_request (begin_request_bytes c) c
unfolding get_begin_request
get_begin_request-Reads c h =
    Reads->>= get_short _ (short_bytes c.role) (flag_of c.keep_conn ∷ []) c.role c
      (get_short-short_bytes c.role h) (flag c.keep_conn)
  where
    flag :
        (b : Bool)
        → Reads
            (do flags ← get_byte; pure (begin_of c.role flags))
            (flag_of b ∷ [])
            (record { role = c.role; keep_conn = b })
    flag true = Reads-map get_byte (begin_of c.role) (1 ∷ []) 1 (get_byte-Reads 1)
    flag false = Reads-map get_byte (begin_of c.role) (0 ∷ []) 0 (get_byte-Reads 0)

-- A BeginRequest whose role has 16 bits: its packet is the record of the specification, and is read back.
pub begin_request-roundtrip :
    (c : BeginRequest) (req_id : ℕ)
    → c.role < 65536
    → (p : FcgPacket) × (pack (put_begin_request c) req_id (new_fcg_packet begin_request_kind)
        ≡ ok p)
      × (p ≡ record_of begin_request_kind req_id (begin_request_bytes c ++ reserved_of_begin))
      × (unpack get_begin_request p ≡ ok (req_id, c))
begin_request-roundtrip c req_id h = (
  record_of begin_request_kind req_id (begin_request_bytes c ++ reserved_of_begin),
  pack-eq (put_begin_request c) begin_request_kind req_id
      (begin_request_bytes c ++ reserved_of_begin) (omega arith) (put_begin_request-Appends c),
  refl,
  unpack-Reads get_begin_request begin_request_kind req_id (begin_request_bytes c) reserved_of_begin
      c (get_begin_request-Reads c h),
)

abbrev pub end_request_bytes : EndRequest → Bytes
end_request_bytes c = int_bytes c.app_status ++ (c.protocol_status ∷ [])

put_end_request-Appends :
    (c : EndRequest)
    → c.protocol_status < 256
    → Appends (put_end_request c) (end_request_bytes c ++ reserved_of_end)
unfolding put_end_request
put_end_request-Appends c h =
    Appends->> (put_int c.app_status) _ (int_bytes c.app_status)
      (c.protocol_status ∷ reserved_of_end) (put_int-Appends c.app_status)
      (Appends->> (put_byte c.protocol_status) (put_bytes reserved_of_end) (c.protocol_status ∷ [])
        reserved_of_end (put_byte-Appends c.protocol_status h) (put_bytes-Appends reserved_of_end))

abbrev end_of : ℕ → ℕ → EndRequest
end_of app status = record { app_status = app; protocol_status = status }

get_end_request-Reads :
    (c : EndRequest) → c.app_status < 2 ^ 32 → Reads get_end_request (end_request_bytes c) c
unfolding get_end_request
get_end_request-Reads c h =
    Reads->>= get_int _ (int_bytes c.app_status) (c.protocol_status ∷ []) c.app_status c
      (get_int-int_bytes c.app_status h)
      (Reads-map get_byte (end_of c.app_status) (c.protocol_status ∷ []) c.protocol_status
        (get_byte-Reads c.protocol_status))

-- An EndRequest whose status fits 32 bits and whose protocol status fits a byte: its packet is the record
-- of the specification, and is read back.
pub end_request-roundtrip :
    (c : EndRequest) (req_id : ℕ)
    → c.app_status < 2 ^ 32
    → c.protocol_status < 256
    → (p : FcgPacket) × (pack (put_end_request c) req_id (new_fcg_packet end_request_kind) ≡ ok p)
      × (p ≡ record_of end_request_kind req_id (end_request_bytes c ++ reserved_of_end))
      × (unpack get_end_request p ≡ ok (req_id, c))
end_request-roundtrip c req_id h k = (
  record_of end_request_kind req_id (end_request_bytes c ++ reserved_of_end),
  pack-eq (put_end_request c) end_request_kind req_id (end_request_bytes c ++ reserved_of_end)
      (omega arith) (put_end_request-Appends c k),
  refl,
  unpack-Reads get_end_request end_request_kind req_id (end_request_bytes c) reserved_of_end c
      (get_end_request-Reads c h),
)

-- A list of parameters, each name and each value shorter than 2 ^ 31 bytes: its packet is the record of
-- the specification with the name-value list, and the list is read back.
pub params-roundtrip :
    (ps : List Param) (req_id : ℕ)
    → All Fits ps
    → (p : FcgPacket) × (pack (put_params ps) req_id (new_fcg_packet params_kind) ≡ ok p)
      × (p ≡ record_of params_kind req_id (params_bytes ps))
      × (unpack get_params p ≡ ok (req_id, ps))
params-roundtrip ps req_id h = (
  record_of params_kind req_id (params_bytes ps),
  pack-eq (put_params ps) params_kind req_id (params_bytes ps) (omega arith)
      (put_params-Appends ps h),
  refl,
  unpack-eq get_params params_kind req_id (params_bytes ps) ps _ (
      get_params-eq ps (new_data_accessor (record_of params_kind req_id (params_bytes ps)).packet) h
        (unfold read_limit new_data_accessor data_len in refl)
        (subst (Holds (new_data_accessor (record_of params_kind req_id (params_bytes ps)).packet))
          (append-nil (params_bytes ps)) (record_of-Holds params_kind req_id (params_bytes ps)))),
)

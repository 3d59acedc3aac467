-- ===== src/Http2/Unpacker/Frames.antt =====
-- What the frame unpacker makes of the bytes of a frame.
use bay_server_python.Prelude.{
  ℕ, ◌+◌, ◌-◌, ◌*◌, ◌/◌, ◌%◌, ◌^◌, ◌<◌, ◌≡◌, ◌≢◌, refl, sym, ap, ◌∙◌, bit_and, bit_or, Bytes, [],
  ◌∷◌, ◌++◌, length, length-append, slice, take-append_self, drop-append_self, ◌==◌, ==_refl, Bool,
  true, false, arith, append-nil, slice_middle,
}
use bay_server_python.Prelude.Bits.{bit_and_mask_lt, bit_or_disjoint}
use bay_server_python.Prelude.Results.{ok, ◌>>=◌}
use bay_server_python.Protocol.Packet.{Packet, new_packet}
use bay_server_python.Protocol.Accessor.{
  put_slice, put_bytes, put_slice-slice, new_header_accessor, new_data_accessor,
}
use bay_server_python.Protocol.Accessor.Append.{int_bytes}
use bay_server_python.Protocol.Accessor.Read.{int_value}
use bay_server_python.Protocol.Accessor.Fill.{packet_of, put_header, put_body}
use bay_server_python.Protocol.Pump.{Next, go, Run, pump}
use bay_server_python.Protocol.Receiver.{continue, Receiver}
use bay_server_python.Http2.Unpacker.{
  read_type, read_flags, read_stream_identifier, read_flame_payload, end, Unpacker, H2Packet,
  absorb, item_done, make_packet, Session, Outcome, answered, handed_over, closing, frames,
  check_end, after_item, step, fuel, reset_state, default_payload_maxlen,
}
use bay_server_python.Http2.Unpacker.Items.{read_long}
use bay_server_python.Http2.Unpacker.Rounds.{SessionOk}
use bay_server_python.Http2.Unpacker.Chunks.{round-go, closing-start, frames_end}

-- The frame header of RFC 7540: length, type, flags, stream.
abbrev pub int24_bytes : ℕ → Bytes
int24_bytes v = (v / 65536 % 256) ∷ (v / 256 % 256) ∷ (v % 256) ∷ []

abbrev pub frame_header : ℕ → ℕ → ℕ → ℕ → Bytes
frame_header len kind flags stream_id = int24_bytes len ++ (kind ∷ flags ∷ int_bytes stream_id)

int24_value :
    (v : ℕ)
    → v < 2 ^ 24
    → bit_or
        (bit_or (bit_and (v / 65536 % 256) 0xff * 65536) (bit_and (v / 256 % 256) 0xff * 256))
        (bit_and (v % 256) 0xff)
      ≡ v
int24_value v h =
    rw
      (
        bit_and_mask_lt 8 (v / 65536 % 256) (omega arith),
        bit_and_mask_lt 8 (v / 256 % 256) (omega arith),
        bit_and_mask_lt 8 (v % 256) (omega arith),
      )
      (ap (λ t. bit_or t (v % 256))
          (bit_or_disjoint 16 (v / 65536 % 256) (v / 256 % 256 * 256) (omega arith) ∙ joined)
        ∙ bit_or_disjoint 8 (v / 65536 % 256 * 256 + v / 256 % 256) (v % 256) (omega arith)
        ∙ omega arith)
  where
    joined :
        v / 65536 % 256 * 65536 + v / 256 % 256 * 256
        ≡ (v / 65536 % 256 * 256 + v / 256 % 256) * 256
    joined = omega arith

int31_value :
    (v : ℕ)
    → v < 2 ^ 31
    → bit_or
        (bit_or
          (bit_or (bit_and (v / 16777216 % 256) 0x7f * 16777216) (v / 65536 % 256 * 65536))
          (v / 256 % 256 * 256))
        (v % 256)
      ≡ v
int31_value v h = rw (bit_and_mask_lt 7 (v / 16777216 % 256) (omega arith)) (
    int_value (v / 16777216 % 256) (v / 65536 % 256) (v / 256 % 256) (v % 256) (omega arith)
      (omega arith) (omega arith)
    ∙ omega arith)

-- The packet of a frame that was read whole.
abbrev pub frame_packet : ℕ → ℕ → ℕ → Bytes → H2Packet
frame_packet kind flags stream_id payload = record {
  packet =
      packet_of kind default_payload_maxlen (frame_header (length payload) kind flags stream_id)
        payload;
  flags = flags;
  stream_id = stream_id;
}

abbrev flagged : ℕ → ℕ → Packet → H2Packet
flagged flags stream_id p = record { packet = p; flags = flags; stream_id = stream_id }

-- The whole frame lies in the buffer: its header is taken from the front, its payload from behind it.
assembled :
    (kind flags stream_id : ℕ) (header payload : Bytes)
    → 0 < length header
    → (put_slice
          (header ++ payload)
          0
          (length header)
          (new_header_accessor (new_packet kind (length header) default_payload_maxlen))
        >>= λ a.
            put_slice
              (header ++ payload)
              (length header)
              (length (header ++ payload) - length header)
              (new_data_accessor (a.1).packet)
            >>= λ b. ok (flagged flags stream_id (b.1).packet))
      ≡ ok (flagged flags stream_id (packet_of kind default_payload_maxlen header payload))
assembled kind flags stream_id header payload h =
    let head = put_header kind default_payload_maxlen header h in
    let body = put_body kind default_payload_maxlen header payload in
    let stored_body : put_slice payload 0 (length payload)
          (new_data_accessor (packet_of kind default_payload_maxlen header []))
        ≡ ok (tt, body.0) =
      unfold put_bytes in body.1 in
    let count : length (header ++ payload) - length header ≡ length payload =
      omega (arith, length-append header payload) in
    rw
      (
        put_slice-slice (header ++ payload) header 0
            (new_header_accessor (new_packet kind (length header) default_payload_maxlen))
            (slice_front header payload),
        head.1,
        head.2,
        count,
        put_slice-slice (header ++ payload) payload (length header)
            (new_data_accessor (packet_of kind default_payload_maxlen header []))
            (slice_back header payload),
      )
      (ap (λ r. r >>= λ b. ok (flagged flags stream_id (b.1).packet)) stored_body
        ∙ ap (λ p. ok (flagged flags stream_id p)) body.2)
  where
    slice_front : (s t : Bytes) → slice 0 (0 + length s) (s ++ t) ≡ s
    slice_front s t = slice_middle 0 (0 + length s) [] s t refl refl

    slice_back : (s t : Bytes) → slice (length s) (length s + length t) (s ++ t) ≡ t
    slice_back s t =
        ap (λ r. slice (length s) (length s + length t) (s ++ r)) (sym (append-nil t))
        ∙ slice_middle (length s) (length s + length t) s t [] refl refl

make_packet-eq :
    (u : Unpacker) (header payload : Bytes)
    → length header ≡ 9
    → u.tmp_buf ≡ header ++ payload
    → make_packet u
      ≡ ok (flagged u.flags u.stream_id (packet_of u.kind default_payload_maxlen header payload))
unfolding make_packet
make_packet-eq u header payload h e =
    rw (e, sym h) (assembled u.kind u.flags u.stream_id header payload (omega arith))

module _ {H : Type 0} (receive : Receiver H H2Packet) (h : H) (susp : Bool) where
  abbrev at : Unpacker → Session receive
  at u = record { handler = h; unpacker = u; suspended = susp }

  abbrev taken : Unpacker → Bytes → Unpacker
  taken u x = record u { tmp_buf = u.tmp_buf ++ x; item_pos = u.item_pos + length x }

  abbrev completed : Unpacker → Bytes → Next (Session receive) (Outcome receive)
  completed u rest = check_end receive (item_done u.state u).state h susp (item_done u.state u) rest

  -- A round that finds the rest of its item at the front of the bytes.
  step_item :
      (u : Unpacker) (x rest : Bytes)
      → u.item_len ≡ u.item_pos + length x
      → step receive (at u) (x ++ rest) ≡ completed (taken u x) rest
  unfolding step
  step_item u x rest e =
      ap (after_item receive h susp) (
        read_long u (x ++ rest) (omega (arith, length-append x rest))
        ∙ ap (λ n. absorb n u (x ++ rest)) exact
        ∙ λ i. (
          record u {
            tmp_buf = u.tmp_buf ++ take-append_self x rest i;
            item_pos = u.item_pos + length x;
          },
          drop-append_self x rest i,
        ))
      ∙ rw full refl
    where
      exact : u.item_len - u.item_pos ≡ length x
      exact = omega arith

      full : (u.item_pos + length x == u.item_len) ≡ true
      full = rw e (==_refl (u.item_pos + length x))

  -- The header of a frame is taken apart item by item.
  abbrev pub header_read : ℕ → ℕ → ℕ → ℕ → Unpacker → Unpacker
  header_read len kind flags stream_id u = record u {
    state = read_flame_payload;
    tmp_buf = frame_header len kind flags stream_id;
    item_start = 9;
    item_len = len;
    item_pos = 0;
    kind = kind;
    payload_len = len;
    flags = flags;
    stream_id = stream_id;
  }

  abbrev run : Unpacker → Bytes → Run (Session receive) (Outcome receive)
  run u r = pump (fuel receive r) (step receive) (at u) r

  run_item :
      (u v : Unpacker) (x rest : Bytes)
      → SessionOk receive (at u)
      → x ++ rest ≢ []
      → u.item_len ≡ u.item_pos + length x
      → completed (taken u x) rest ≡ go (at v) rest
      → run u (x ++ rest) ≡ run v rest
  run_item u v x rest ok_u ne e f =
      round-go receive (at u) (at v) (x ++ rest) rest ok_u ne (step_item u x rest e ∙ f)

  header-run :
      (u : Unpacker) (len kind flags stream_id : ℕ) (rest : Bytes)
      → len < 2 ^ 24
      → stream_id < 2 ^ 31
      → run (reset_state u) (frame_header len kind flags stream_id ++ rest)
        ≡ run (header_read len kind flags stream_id u) rest
  unfolding item_done
  header-run u len kind flags stream_id rest h k =
      run_item (reset_state u) u1 (int24_bytes len) (kind ∷ flags ∷ (int_bytes stream_id ++ rest))
        (omega arith) (λ p. cc) refl
        (ap
          (λ n.
            go (at (record u1 { payload_len = n })) (kind ∷ flags ∷ (int_bytes stream_id ++ rest)))
          (int24_value len h))
      ∙ run_item u1 u2 (kind ∷ []) (flags ∷ (int_bytes stream_id ++ rest)) (omega arith) (λ p. cc)
          refl refl
      ∙ run_item u2 u3 (flags ∷ []) (int_bytes stream_id ++ rest) (omega arith) (λ p. cc) refl refl
      ∙ run_item u3 (header_read len kind flags stream_id u) (int_bytes stream_id) rest
          (omega arith) (λ p. cc) refl
          (ap
            (λ n. go (at (record (header_read len kind flags stream_id u) { stream_id = n })) rest)
            (int31_value stream_id k))
    where
      u1 : Unpacker
      u1 = record (reset_state u) {
        state = read_type;
        tmp_buf = int24_bytes len;
        item_start = 3;
        item_len = 1;
        item_pos = 0;
        payload_len = len;
      }

      u2 : Unpacker
      u2 = record u1 {
        state = read_flags;
        tmp_buf = int24_bytes len ++ (kind ∷ []);
        item_start = 4;
        kind = kind;
      }

      u3 : Unpacker
      u3 = record u2 {
        state = read_stream_identifier;
        tmp_buf = int24_bytes len ++ (kind ∷ flags ∷ []);
        item_start = 5;
        item_len = 4;
        flags = flags;
      }

  payload-run :
      (u : Unpacker) (kind flags stream_id : ℕ) (payload rest : Bytes) (h' : H)
      → payload ++ rest ≢ []
      → receive h (frame_packet kind flags stream_id payload) ≡ (h', ok continue)
      → run (header_read (length payload) kind flags stream_id u) (payload ++ rest)
        ≡ pump
            (fuel receive rest)
            (step receive)
            (record { handler = h'; unpacker = reset_state u; suspended = susp })
            rest
  unfolding item_done
  payload-run u kind flags stream_id payload rest h' ne e =
      let v = header_read (length payload) kind flags stream_id u in
      let w = record (taken v payload) { state = end } in
      round-go receive (at v) (record { handler = h'; unpacker = reset_state u; suspended = susp })
        (payload ++ rest) rest (omega arith) ne
        (step_item v payload rest (omega arith)
          ∙ ap (handed_over receive h susp w rest) (
              make_packet-eq w (frame_header (length payload) kind flags stream_id) payload refl
                refl)
          ∙ ap (answered receive (reset_state w) susp rest) e)

module _ {H : Type 0} (receive : Receiver H H2Packet) where
  -- In front of a frame: a frame whose length and stream fit their fields is handed over once, as the
  -- packet with its type, flags, stream, header and payload, where the payload has bytes or further
  -- bytes follow it. Where the answer is CONTINUE, the bytes behind it are read in front of a frame again.
  pub frames-frame :
      (h h' : H) (u : Unpacker) (kind flags stream_id : ℕ) (payload rest : Bytes)
      → length payload < 2 ^ 24
      → stream_id < 2 ^ 31
      → payload ++ rest ≢ []
      → receive h (frame_packet kind flags stream_id payload) ≡ (h', ok continue)
      → frames receive
          (h, reset_state u)
          (frame_header (length payload) kind flags stream_id ++ (payload ++ rest))
        ≡ frames receive (h', reset_state u) rest
  unfolding frames
  frames-frame h h' u kind flags stream_id payload rest l k ne e =
      ap (closing receive (h, reset_state u)) (
        header-run receive h false u (length payload) kind flags stream_id (payload ++ rest) l k
        ∙ payload-run receive h false u kind flags stream_id payload rest h' ne e)
      ∙ closing-start receive (h, reset_state u) (h', reset_state u)
          (pump (fuel receive rest) (step receive)
            (record { handler = h'; unpacker = reset_state u; suspended = false }) rest)
          (frames_end receive (record { handler = h'; unpacker = reset_state u; suspended = false })
            rest (omega arith))

  -- In front of a frame: the header of a frame without payload, with no byte behind it, is answered by
  -- CONTINUE and changes nothing at the receiver; the frame waits in the state of reading a payload.
  pub frames-empty_frame :
      (h : H) (u : Unpacker) (kind flags stream_id : ℕ)
      → stream_id < 2 ^ 31
      → frames receive (h, reset_state u) (frame_header 0 kind flags stream_id)
        ≡ ((h, header_read receive h false 0 kind flags stream_id u), ok continue)
  unfolding frames pump
  frames-empty_frame h u kind flags stream_id k =
      ap (closing receive (h, reset_state u))
        (header-run receive h false u 0 kind flags stream_id [] (omega arith) k)

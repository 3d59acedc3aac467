-- ===== src/Ajp/Unpacker/Packets.antt =====
-- What the AJP unpacker makes of the bytes of a packet.
use bay_server_python.Prelude.{
  ℕ, suc, ◌+◌, ◌-◌, ◌*◌, ◌/◌, ◌%◌, ◌<◌, ◌≡◌, refl, ap, ◌∙◌, bit_and, bit_or, Bytes, [], ◌∷◌, ◌++◌,
  length, take, take_all, drop_all, ◌==◌, ==_iff, length-take, Bool, true, false, arith, le→ltb,
}
use bay_server_python.Prelude.Bits.{bit_and_mask, bit_and_mask_lt}
use bay_server_python.Prelude.Results.{ok}
use bay_server_python.Protocol.Accessor.{new_data_accessor, put_slice, put_bytes}
use bay_server_python.Protocol.Accessor.Read.{short_value}
use bay_server_python.Protocol.Accessor.Fill.{packet_of, put_header, put_body}
use bay_server_python.Protocol.Pump.{go, stop, stopped, pump}
use bay_server_python.Protocol.Receiver.{Action, continue, suspend, read, write, close, Receiver}
use bay_server_python.Ajp.Packet.{AjpPacket, new_ajp_packet, max_data_len}
use bay_server_python.Ajp.RoundTrip.{preamble, packet_with}
use bay_server_python.Ajp.Unpacker.{
  State, read_preamble, read_body, end, Unpacker, reset, preamble_read, body_read, change_state,
  at_most, make_packet, Session, answered, handed_over, at_body, preamble_done, step, fuel, closing,
  bytes_received,
}

-- In front of a packet, with the answer of the handler's `need_data`.
abbrev pub ready : Unpacker → Bool → Unpacker
ready u needs = record (reset u) { need_data = needs }

-- The type of a packet is the first byte of its body, where the handler does not wait for data.
abbrev pub kind_of : Bool → ℕ → ℕ
kind_of true c = 0
kind_of false c = c

-- The unpacker behind the preamble of a packet.
abbrev read_so_far : State → Unpacker → Bool → Bool → ℕ → ℕ → Bytes → Unpacker
read_so_far st u needs to_server kind len body = record (ready u needs) {
  state = st;
  body_len = len;
  kind = kind;
  to_server = to_server;
  preamble_buf = preamble to_server len;
  body_buf = body;
}

body_length :
    (n : ℕ) → n < 65536 → bit_and (bit_or (n / 256 % 256 * 256) (bit_and (n % 256) 0xff)) 0xffff ≡ n
body_length n h =
    rw
      (
        bit_and_mask_lt 8 (n % 256) (omega arith),
        short_value (n / 256 % 256) (n % 256) (omega arith),
      )
      (bit_and_mask 16 (n / 256 % 256 * 256 + n % 256) ∙ omega arith)

preamble_read-preamble :
    (u : Unpacker) (needs to_server : Bool) (n : ℕ)
    → n < 65536
    → preamble_read (record (ready u needs) { preamble_buf = preamble to_server n })
      ≡ ok (read_so_far read_preamble u needs to_server u.kind n [])
unfolding preamble_read
preamble_read-preamble u needs true n h =
    ap (λ l. ok (record (read_so_far read_preamble u needs true u.kind n []) { body_len = l }))
      (body_length n h)
preamble_read-preamble u needs false n h =
    ap (λ l. ok (record (read_so_far read_preamble u needs false u.kind n []) { body_len = l }))
      (body_length n h)

make_packet-packet_with :
    (u : Unpacker) (needs to_server : Bool) (kind : ℕ) (body : Bytes)
    → make_packet (read_so_far end u needs to_server kind (length body) body)
      ≡ ok (packet_with to_server kind body)
unfolding make_packet new_ajp_packet
make_packet-packet_with u needs true kind body =
    let header = preamble true (length body) in
    let head = put_header kind max_data_len header (omega arith) in
    let data' = put_body kind max_data_len header body in
    let stored : put_slice body 0 (length body)
          (new_data_accessor (packet_of kind max_data_len header []))
        ≡ ok (tt, data'.0) =
      unfold put_bytes in data'.1 in
    rw (head.1, head.2, stored, data'.2) refl
make_packet-packet_with u needs false kind body =
    let header = preamble false (length body) in
    let head = put_header kind max_data_len header (omega arith) in
    let data' = put_body kind max_data_len header body in
    let stored : put_slice body 0 (length body)
          (new_data_accessor (packet_of kind max_data_len header []))
        ≡ ok (tt, data'.0) =
      unfold put_bytes in data'.1 in
    rw (head.1, head.2, stored, data'.2) refl

type_byte :
    (u : Unpacker) (needs to_server : Bool) (c n : ℕ) (s : Bytes)
    → c < 256
    → body_read (read_so_far read_body u needs to_server u.kind n (c ∷ s))
      ≡ read_so_far read_body u needs to_server (kind_of needs c) n (c ∷ s)
type_byte u true to_server c n s h = refl
type_byte u false to_server c n s h =
    ap (λ k. read_so_far read_body u false to_server k n (c ∷ s)) (bit_and_mask_lt 8 c h)

module _ {H : Type 0} (receive : Receiver H AjpPacket) (needs_data : H → Bool) where
  abbrev at : H → Unpacker → Session H
  at h u = record { handler = h; unpacker = u; suspended = false }

  body-step :
      (h : H) (u : Unpacker) (needs to_server : Bool) (c : ℕ) (s : Bytes)
      → c < 256
      → at_body receive needs_data read_body
          (at h (read_so_far read_body u needs to_server u.kind (length (c ∷ s)) []))
          (c ∷ s)
        ≡ answered receive needs_data
            (at h (read_so_far end u needs to_server (kind_of needs c) (length (c ∷ s)) (c ∷ s)))
            []
            (receive h (packet_with to_server (kind_of needs c) (c ∷ s)))
  body-step h u needs to_server c s b =
      let body = c ∷ s in
      let all : at_most (length body - 0) body ≡ length body =
        rw (le→ltb (length body) (length body - 0) (omega arith)) (omega arith) in
      let full : (length (take (length body) body) == length body) ≡ true =
        (==_iff _ _).1 (omega (arith, length-take (length body) body)) in
      rw
        (
          all,
          full,
          take_all (length body) body (omega arith),
          drop_all (length body) body (omega arith),
        )
        (ap
            (λ v.
              handed_over receive needs_data (at h (change_state end v)) []
                (make_packet (change_state end v)))
            (type_byte u needs to_server c (length body) s b)
          ∙ ap
              (handed_over receive needs_data
                (at h (read_so_far end u needs to_server (kind_of needs c) (length body) body)) [])
              (make_packet-packet_with u needs to_server (kind_of needs c) body))

  step-packet :
      (h : H) (u : Unpacker) (needs to_server : Bool) (c : ℕ) (s : Bytes)
      → c < 256
      → length (c ∷ s) < 65536
      → step receive needs_data
          (at h (ready u needs))
          (preamble to_server (length (c ∷ s)) ++ (c ∷ s))
        ≡ answered receive needs_data
            (at h (read_so_far end u needs to_server (kind_of needs c) (length (c ∷ s)) (c ∷ s)))
            []
            (receive h (packet_with to_server (kind_of needs c) (c ∷ s)))
  unfolding step
  step-packet h u needs true c s b l =
      let body = c ∷ s in
      let four : at_most 4 (preamble true (length body) ++ body) ≡ 4 =
        rw (le→ltb (length (preamble true (length body) ++ body)) 4 (omega arith)) refl in
      rw four (
        ap
          (preamble_done receive needs_data
            (at h (record (ready u needs) { preamble_buf = preamble true (length body) })) body)
          (preamble_read-preamble u needs true (length body) l)
        ∙ body-step h u needs true c s b)
  step-packet h u needs false c s b l =
      let body = c ∷ s in
      let four : at_most 4 (preamble false (length body) ++ body) ≡ 4 =
        rw (le→ltb (length (preamble false (length body) ++ body)) 4 (omega arith)) refl in
      rw four (
        ap
          (preamble_done receive needs_data
            (at h (record (ready u needs) { preamble_buf = preamble false (length body) })) body)
          (preamble_read-preamble u needs false (length body) l)
        ∙ body-step h u needs false c s b)

  -- Where the handler does not raise, it is asked whether it waits for data, and its answer is the answer.
  closed :
      (m : ℕ) (start : H × Unpacker) (h : H) (u : Unpacker) (act : Action)
      → closing receive needs_data start
          (elim (answered receive needs_data (at h u) [] (h, ok act)) [
            | go s' r' ↦ pump (suc m) (step receive needs_data) s' r'
            | stop o ↦ stopped o
          ])
        ≡ ((h, record (reset u) { need_data = needs_data h }), ok act)
  unfolding pump
  closed m start h u continue = refl
  closed m start h u suspend = refl
  closed m start h u read = refl
  closed m start h u write = refl
  closed m start h u close = refl

  -- In front of a packet, a whole packet of either direction is received, with a body of bytes that is not
  -- empty and shorter than 65536: the handler gets the packet with the direction, the header and the
  -- body, of the body's first byte as its type, or of the type Data where the handler waits for data. The
  -- answer of the handler is the answer, and the unpacker is in front of a packet again.
  pub bytes_received-packet :
      (h h' : H) (u : Unpacker) (needs to_server : Bool) (c : ℕ) (s : Bytes) (act : Action)
      → c < 256
      → length (c ∷ s) < 65536
      → receive h (packet_with to_server (kind_of needs c) (c ∷ s)) ≡ (h', ok act)
      → bytes_received receive needs_data
          (h, ready u needs)
          (preamble to_server (length (c ∷ s)) ++ (c ∷ s))
        ≡ (
          (h', ready (record u { kind = kind_of needs c; to_server = to_server }) (needs_data h')),
          ok act,
        )
  bytes_received-packet h h' u needs true c s act b l e =
      let buf = preamble true (length (c ∷ s)) ++ (c ∷ s) in
      let more : fuel receive needs_data buf ≡ suc (suc (2 * length buf)) = omega arith in
      unfold bytes_received pump in
      ap
        (λ n.
          closing receive needs_data (h, ready u needs)
            (pump n (step receive needs_data) (at h (ready u needs)) buf))
        more
      ∙ ap
          (λ next.
            closing receive needs_data (h, ready u needs)
              (elim next [
                | go s' r' ↦ pump (suc (2 * length buf)) (step receive needs_data) s' r'
                | stop o ↦ stopped o
              ]))
          (step-packet h u needs true c s b l
            ∙ ap
                (answered receive needs_data
                  (at h (read_so_far end u needs true (kind_of needs c) (length (c ∷ s)) (c ∷ s)))
                  [])
                e)
      ∙ closed (2 * length buf) (h, ready u needs) h'
          (read_so_far end u needs true (kind_of needs c) (length (c ∷ s)) (c ∷ s)) act
  bytes_received-packet h h' u needs false c s act b l e =
      let buf = preamble false (length (c ∷ s)) ++ (c ∷ s) in
      let more : fuel receive needs_data buf ≡ suc (suc (2 * length buf)) = omega arith in
      unfold bytes_received pump in
      ap
        (λ n.
          closing receive needs_data (h, ready u needs)
            (pump n (step receive needs_data) (at h (ready u needs)) buf))
        more
      ∙ ap
          (λ next.
            closing receive needs_data (h, ready u needs)
              (elim next [
                | go s' r' ↦ pump (suc (2 * length buf)) (step receive needs_data) s' r'
                | stop o ↦ stopped o
              ]))
          (step-packet h u needs false c s b l
            ∙ ap
                (answered receive needs_data
                  (at h (read_so_far end u needs false (kind_of needs c) (length (c ∷ s)) (c ∷ s)))
                  [])
                e)
      ∙ closed (2 * length buf) (h, ready u needs) h'
          (read_so_far end u needs false (kind_of needs c) (length (c ∷ s)) (c ∷ s)) act

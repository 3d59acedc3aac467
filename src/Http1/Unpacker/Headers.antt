-- ===== src/Http1/Unpacker/Headers.antt =====
-- The end of the headers, in one piece of the stream and over two.
use bay_server_python.Prelude.{
  ℕ, suc, ◌+◌, ◌≤◌, ◌<◌, ◌≡◌, refl, sym, ap, ◌∙◌, Bytes, List, [], ◌∷◌, ◌++◌, append-nil,
  append_assoc, length, take, drop, take_all, drop_all, leb, ◌==◌, if◌then◌else◌, Bool, true, false,
  All, arith,
}
use bay_server_python.Prelude.Results.{Result, ok, err}
use bay_server_python.Protocol.Packet.{Packet, new_packet}
use bay_server_python.Protocol.Accessor.Fill.{packet_of, put_body}
use bay_server_python.Protocol.Receiver.{Action, continue, close, Receiver}
use bay_server_python.Http1.Unpacker.{
  Unpacker, read_headers, read_content, end, reset_state, partial, complete, next_len, scan,
  make_packet, packet_in, max_data_len, header_kind, content_kind, contents, scanned, Outcome,
  next_state, next_suspend, header_done, read_content_loop, bytes_received, hand_over,
}

-- A byte of a line, which is neither CR nor LF, and a line.
abbrev pub IsText : ℕ → Type 0
IsText b = ((b == 13) ≡ false) × ((b == 10) ≡ false)

pub record IsLine (l : Bytes) : Type 0 where
  pub text : All IsText l
  pub some_text : 0 < length l
  pub short : length l < 8192

-- The lines of a header, and the empty line.
unfoldable pub header_bytes : List Bytes → Bytes
header_bytes [] = 13 ∷ 10 ∷ []
header_bytes (l ∷ ls) = l ++ (13 ∷ 10 ∷ header_bytes ls)

within : (n : ℕ) → n < 8192 → leb 8192 n ≡ false
within n h = ground (arith, h)

scan-text :
    (n : ℕ) (tmp s buf : Bytes)
    → All IsText s
    → n + length s < 8192
    → scan n tmp (s ++ buf) ≡ scan (n + length s) (tmp ++ s) buf
unfolding scan
scan-text n tmp [] buf h k = λ i. scan (same i) (sym (append-nil tmp) i) buf
  where
    same : n ≡ n + 0
    same = omega arith
scan-text n tmp (b ∷ s) buf ((no_cr, no_lf), h) k =
    let longer : suc n + length s ≡ n + suc (length s) = omega arith in
    rw (scan, next_len, no_lf, no_cr, within (suc n) (omega (arith, k)))
      (scan-text (suc n) (tmp ++ (b ∷ [])) s buf h (omega (arith, k)) ∙ λ i.
        scan (longer i) (append_assoc tmp (b ∷ []) s i) buf)

scan-line_end :
    (n : ℕ) (tmp buf : Bytes)
    → 0 < n
    → n < 8192
    → scan n tmp (13 ∷ 10 ∷ buf) ≡ scan 0 (tmp ++ (13 ∷ 10 ∷ [])) buf
unfolding scan next_len
scan-line_end n tmp buf p k =
    let some_text : (n == 0) ≡ false = ground (arith, p) in
    rw (within n k, some_text) (ap (λ t. scan 0 t buf) (append_assoc tmp (13 ∷ []) (10 ∷ [])))

scan-header :
    (tmp : Bytes) (ls : List Bytes) (rest : Bytes)
    → All IsLine ls
    → scan 0 tmp (header_bytes ls ++ rest) ≡ complete (tmp ++ header_bytes ls) rest
unfolding header_bytes
scan-header tmp [] rest h =
    unfold scan next_len in ap (λ t. complete t rest) (append_assoc tmp (13 ∷ []) (10 ∷ []))
scan-header tmp (l ∷ ls) rest (line, h) =
    let later = header_bytes ls ++ rest in
    ap (scan 0 tmp) (append_assoc l (13 ∷ 10 ∷ header_bytes ls) rest)
    ∙ scan-text 0 tmp l (13 ∷ 10 ∷ later) line.text (omega (arith, line.short))
    ∙ scan-line_end (0 + length l) (tmp ++ l) later (omega (arith, line.some_text))
        (omega (arith, line.short))
    ∙ scan-header ((tmp ++ l) ++ (13 ∷ 10 ∷ [])) ls rest h
    ∙ ap (λ t. complete t rest)
        (append_assoc (tmp ++ l) (13 ∷ 10 ∷ []) (header_bytes ls)
          ∙ append_assoc tmp l (13 ∷ 10 ∷ header_bytes ls))

abbrev pub packet_with : ℕ → Bytes → Packet
packet_with kind buf = packet_of kind max_data_len [] buf

make_packet-eq : (kind : ℕ) (buf : Bytes) → make_packet kind buf ≡ ok (packet_with kind buf)
unfolding make_packet new_packet
make_packet-eq kind buf =
    let (a, puts, same) = put_body kind max_data_len [] buf in ap packet_in puts ∙ ap ok same

module _ {H : Type 0} (receive : Receiver H Packet) (finished : H → Bool) where
  -- A round of the loop over the content behind the answer of the handler.
  abbrev answered_round : ℕ → Bytes → Bytes → H × Result Action → Outcome receive finished
  answered_round fuel tmp rest got =
      let u : Unpacker = record { state = read_content; tmp_buf = tmp } in
      elim got.1 [
        | err e ↦ ((got.0, u), err e)
        | ok a ↦ elim a [
          | close ↦ ((got.0, reset_state), ok close)
          | _ ↦
              read_content_loop receive finished fuel got.0
                (record u { state = next_state receive finished got.1 got.0 read_content })
                (next_suspend receive finished got.1 false) rest
        ]
      ]

  abbrev answered_round_rest : H → ℕ → Bytes → Bytes → Outcome receive finished
  answered_round_rest h fuel tmp rest = answered_round fuel tmp rest (h, ok continue)

  body-received :
      (h1 h2 : H) (tmp body : Bytes)
      → 0 < length body
      → length body ≤ 65536
      → receive h1 (packet_with content_kind body) ≡ (h2, ok continue)
      → finished h2 ≡ true
      → read_content_loop receive finished
          (suc (length body))
          h1
          (record { state = read_content; tmp_buf = tmp })
          false
          body
        ≡ ((h2, reset_state), ok continue)
  unfolding read_content_loop reset_state
  body-received h1 h2 tmp [] some_body size content done = absurd (omega (arith, some_body))
  body-received h1 h2 tmp (b ∷ buf) some_body size content done =
      let body = b ∷ buf in
      let hand : hand_over receive finished h1 (make_packet content_kind (take max_data_len body))
          ≡ (h2, ok continue) =
        ap (λ t. hand_over receive finished h1 (make_packet content_kind t))
          (take_all max_data_len body size)
        ∙ ap (hand_over receive finished h1) (make_packet-eq content_kind body)
        ∙ content in
      ap (answered_round (suc (length buf)) tmp (drop max_data_len body)) hand
      ∙ ap (answered_round_rest h2 (suc (length buf)) tmp) (drop_all max_data_len body size)
      ∙ rw done refl

  -- A whole message, whose lines are not empty, shorter than 8192 bytes and without CR and LF: its
  -- header, up to the first empty line, is handed over as one packet, and a body that is not empty and
  -- at most a packet's size as another one. Where the handler goes on and the body ends its request, the
  -- unpacker stands in front of the next message.
  pub bytes_received-message :
      (h h1 h2 : H) (ls : List Bytes) (body : Bytes)
      → All IsLine ls
      → 0 < length body
      → length body ≤ 65536
      → receive h (packet_with header_kind (header_bytes ls)) ≡ (h1, ok continue)
      → finished h1 ≡ false
      → receive h1 (packet_with content_kind body) ≡ (h2, ok continue)
      → finished h2 ≡ true
      → bytes_received receive finished h reset_state (header_bytes ls ++ body)
        ≡ ((h2, reset_state), ok continue)
  unfolding bytes_received reset_state
  bytes_received-message h h1 h2 ls body lines some_body size head going content done =
      ap (scanned receive finished h) (scan-header [] ls body lines)
      ∙ ap
          (λ p.
            header_done receive finished (header_bytes ls) body (hand_over receive finished h p))
          (make_packet-eq header_kind (header_bytes ls))
      ∙ ap (header_done receive finished (header_bytes ls) body) head
      ∙ ap
          (λ b.
            contents receive finished h1
              (record { state = if b then end else read_content; tmp_buf = header_bytes ls }) false
              body)
          going
      ∙ body-received h1 h2 (header_bytes ls) body some_body size content done

  -- The same bytes may mean another message when they come in two pieces. For a line that is not empty,
  -- shorter than 8192 bytes and without CR and LF, at the start of a message: behind its CR, the LF that
  -- starts the next piece ends the header, the handler gets what came up to there as the header, and all
  -- that follows counts as content. In one piece, the next line of the header is read.
  pub bytes_received-split_line :
      (h : H) (line rest : Bytes)
      → IsLine line
      → (u : Unpacker) × (bytes_received receive finished h reset_state (line ++ (13 ∷ []))
          ≡ ((h, u), ok continue))
        × (bytes_received receive finished h u (10 ∷ rest)
            ≡ scanned receive finished h (complete (line ++ (13 ∷ 10 ∷ [])) rest))
        × (bytes_received receive finished h reset_state (line ++ (13 ∷ 10 ∷ rest))
            ≡ scanned receive finished h (scan 0 (line ++ (13 ∷ 10 ∷ [])) rest))
  unfolding bytes_received reset_state scan next_len
  bytes_received-split_line h line rest l =
      let first : scan 0 [] (line ++ (13 ∷ [])) ≡ partial (line ++ (13 ∷ [])) =
        scan-text 0 [] line (13 ∷ []) l.text (omega (arith, l.short))
        ∙ rw (within (0 + length line) (omega (arith, l.short))) refl in
      (
        record { state = read_headers; tmp_buf = line ++ (13 ∷ []) },
        ap (scanned receive finished h) first,
        ap (λ t. scanned receive finished h (complete t rest))
            (append_assoc line (13 ∷ []) (10 ∷ [])),
        ap (scanned receive finished h) (
            scan-text 0 [] line (13 ∷ 10 ∷ rest) l.text (omega (arith, l.short))
            ∙ scan-line_end (0 + length line) line rest (omega (arith, l.some_text))
                (omega (arith, l.short))),
      )

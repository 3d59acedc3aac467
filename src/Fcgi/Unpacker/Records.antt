-- ===== src/Fcgi/Unpacker/Records.antt =====
-- What the record unpacker makes of the bytes of a record.
use bay_server_python.Prelude.{
  ℕ, suc, ◌+◌, ◌-◌, ◌<◌, ◌≡◌, ◌≢◌, refl, ap, ◌∙◌, Bytes, [], ◌∷◌, ◌++◌, length, length-append, take,
  drop, take-append_self, drop-append_self, ◌==◌, ==_iff, false, Bool-cases, inl, inr, arith,
}
use bay_server_python.Prelude.Results.{ok}
use bay_server_python.Protocol.Pump.{go, pump}
use bay_server_python.Protocol.Receiver.{Action, Receiver}
use bay_server_python.Fcgi.Command.{FcgPacket}
use bay_server_python.Fcgi.Unpacker.{
  State, read_preamble, read_content, read_padding, end, Unpacker, Session, answered, handed_over,
  after_part, step, fuel, reset_state, to_padding,
}
use bay_server_python.Fcgi.Unpacker.Heads.{
  Head, Fits, header, received, read_so_far, make_packet-received, behind_preamble,
}
use bay_server_python.Fcgi.Unpacker.Parts.{completed, grown, read_part-long}
use bay_server_python.Fcgi.Unpacker.Chunks.{SessionOk, round-go}

no_bytes : (s : Bytes) → length s ≡ 0 → s ≡ []
no_bytes [] h = refl
no_bytes (b ∷ s) h = absurd (omega (arith, h))

module _ {H : Type 0} (receive : Receiver H FcgPacket) where
  abbrev pub at : H → Unpacker → Session H
  at h u = record { handler = h; unpacker = u; next_suspend = false; next_write = false }

  abbrev After : Unpacker → Bytes → H → Unpacker → Bytes → Type 0
  After u r h v rest = step receive (at h u) r ≡ after_part receive (at h u) (v, rest)

  step-preamble :
      (h : H) (d : Head) (len : ℕ) (tail : Bytes)
      → After reset_state
          (header d len ++ tail)
          h
          (completed read_preamble (record reset_state { header_buf = header d len }))
          tail
  unfolding step
  step-preamble h d len tail = ap (after_part receive (at h reset_state)) (
      read_part-long read_preamble reset_state (header d len ++ tail) (omega arith, refl, refl)
        (omega arith))

  step-content :
      (h : H) (d : Head) (body tail : Bytes)
      → 0 < length body
      → After
          (read_so_far read_content d (length body) [] 0)
          (body ++ tail)
          h
          (to_padding (read_so_far read_content d (length body) body 0))
          tail
  unfolding step completed
  step-content h d body tail some_bytes =
      let u = read_so_far read_content d (length body) [] 0 in
      let all : length body - 0 ≡ length body = omega arith in
      ap (after_part receive (at h u)) (
        read_part-long read_content u (body ++ tail) (some_bytes, refl)
          (omega (arith, length-append body tail))
        ∙ ap
            (λ n. (
              completed read_content (grown read_content u (take n (body ++ tail))),
              drop n (body ++ tail),
            ))
            all
        ∙ λ i. (
          to_padding (read_so_far read_content d (length body) (take-append_self body tail i) 0),
          drop-append_self body tail i,
        ))

  -- A complete record is handed over.
  hand_over :
      (h h' : H) (d : Head) (body rest : Bytes) (n : ℕ) (act : Action) (u : Unpacker)
      → receive h (received d body) ≡ (h', ok act)
      → after_part receive (at h u) (read_so_far end d (length body) body n, rest)
        ≡ go (at h' reset_state) rest
  hand_over h h' d body rest n act u e =
      ap (handed_over receive (at h (read_so_far end d (length body) body n)) rest)
        (make_packet-received d body n)
      ∙ ap (answered receive (at h (read_so_far end d (length body) body n)) rest) e

  abbrev Ends : H → Unpacker → Bytes → H → Bytes → Type 0
  Ends h u r h' rest =
      pump (fuel receive r) (step receive) (at h u) r
      ≡ pump (fuel receive rest) (step receive) (at h' reset_state) rest

  -- The padding is skipped, and the record is handed over.
  skip_padding :
      (h h' : H) (d : Head) (body pad rest : Bytes) (act : Action)
      → 0 < d.padding
      → length pad ≡ d.padding
      → receive h (received d body) ≡ (h', ok act)
      → Ends h (read_so_far read_padding d (length body) body 0) (pad ++ rest) h' rest
  skip_padding h h' d body pad rest act some_padding size e =
      let u = read_so_far read_padding d (length body) body 0 in
      let long = length-append pad rest in
      let all : d.padding - 0 ≡ length pad = omega (arith, size) in
      round-go receive (at h u) (at h' reset_state) (pad ++ rest) rest some_padding
        (λ p. absurd (omega (arith, long, some_padding, size, ap length p)))
        (unfold step completed in
          ap (after_part receive (at h u)) (
            read_part-long read_padding u (pad ++ rest) some_padding (omega (arith, long, size))
            ∙ ap
                (λ n. (
                  completed read_padding
                      (grown read_padding u (take (d.padding - 0) (pad ++ rest))),
                  drop n (pad ++ rest),
                ))
                all
            ∙ ap
                (λ t. (
                  completed read_padding
                      (grown read_padding u (take (d.padding - 0) (pad ++ rest))),
                  t,
                ))
                (drop-append_self pad rest))
          ∙ hand_over h h' d body rest (0 + length (take (d.padding - 0) (pad ++ rest))) act u e)

  -- Behind the content: the padding, if there is any, and the end of the record.
  finish :
      (h h' : H) (d : Head) (u : Unpacker) (st : State) (body pad rest r : Bytes) (act : Action)
      → SessionOk (at h u)
      → r ≢ []
      → length pad ≡ d.padding
      → receive h (received d body) ≡ (h', ok act)
      → After u r h (to_padding (read_so_far st d (length body) body 0)) (pad ++ rest)
      → Ends h u r h' rest
  finish h h' d u st body pad rest r act valid some_bytes size e after =
      elim (Bool-cases (d.padding == 0)) [
        | inl none ↦
            let zero_padding : d.padding ≡ 0 = (==_iff _ _).0 none in
            let empty = no_bytes pad (size ∙ zero_padding) in
            let after' : step receive (at h u) r
                ≡ after_part receive (at h u)
                    (read_so_far end d (length body) body 0, pad ++ rest) =
              rw none at after in
            round-go receive (at h u) (at h' reset_state) r rest valid some_bytes (
              after'
              ∙ ap
                  (λ p.
                    after_part receive (at h u) (read_so_far end d (length body) body 0, p ++ rest))
                  empty
              ∙ hand_over h h' d body rest 0 act u e)
        | inr some ↦
            let after' : step receive (at h u) r
                ≡ go (at h (read_so_far read_padding d (length body) body 0)) (pad ++ rest) =
              rw some at after in
            round-go receive (at h u) (at h (read_so_far read_padding d (length body) body 0)) r
              (pad ++ rest) valid some_bytes after'
            ∙ skip_padding h h' d body pad rest act (ground (arith, some)) size e
      ]

  -- At the start of a record whose version, type and padding length are below 256 and whose request id and
  -- content length are below 65536: the record is handed over once, as the packet of its header and its
  -- content, with or without content, and its padding is skipped. Whatever action the handler answers, the
  -- bytes behind the padding are read at the start of a record again.
  pub loop-record :
      (h h' : H) (d : Head) (body pad rest : Bytes) (act : Action)
      → Fits d
      → length body < 65536
      → length pad ≡ d.padding
      → receive h (received d body) ≡ (h', ok act)
      → pump
          (fuel receive (header d (length body) ++ (body ++ (pad ++ rest))))
          (step receive)
          (at h reset_state)
          (header d (length body) ++ (body ++ (pad ++ rest)))
        ≡ pump (fuel receive rest) (step receive) (at h' reset_state) rest
  loop-record h h' d [] pad rest act f l size e =
      finish h h' d reset_state read_preamble [] pad rest (header d 0 ++ (pad ++ rest)) act
        (omega arith, refl, refl) (λ p. cc) size e
        (step-preamble h d 0 (pad ++ rest)
          ∙ ap (λ u. after_part receive (at h reset_state) (u, pad ++ rest))
              (behind_preamble d 0 f l))
  loop-record h h' d (c ∷ s) pad rest act f l size e =
      let body = c ∷ s in
      let u = read_so_far read_content d (length body) [] 0 in
      let several : (suc (length s) == 0) ≡ false = ground arith in
      round-go receive (at h reset_state) (at h u)
        (header d (length body) ++ (body ++ (pad ++ rest))) (body ++ (pad ++ rest))
        (omega arith, refl, refl) (λ p. cc)
        (step-preamble h d (length body) (body ++ (pad ++ rest))
          ∙ ap (λ v. after_part receive (at h reset_state) (v, body ++ (pad ++ rest)))
              (behind_preamble d (length body) f l)
          ∙ rw several refl)
      ∙ finish h h' d u read_content body pad rest (body ++ (pad ++ rest)) act (omega arith, refl)
          (λ p. cc) size e (step-content h d body (pad ++ rest) (omega arith))

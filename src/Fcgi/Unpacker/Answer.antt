-- ===== src/Fcgi/Unpacker/Answer.antt =====
-- What the record unpacker makes of its handler's answers.
use bay_server_python.Prelude.{◌≡◌, refl, ap, Bytes, false}
use bay_server_python.Prelude.Results.{Result, ok, err}
use bay_server_python.Protocol.Pump.{pump}
use bay_server_python.Protocol.Receiver.{Action, continue, Receiver}
use bay_server_python.Fcgi.Command.{FcgPacket}
use bay_server_python.Fcgi.Unpacker.{
  State, read_preamble, read_content, read_padding, end, Unpacker, make_packet, Session, answered,
  handed_over, check_end, step, fuel, closing, bytes_received, read_part,
}

-- A handler that does the same, and always answers CONTINUE.
abbrev pub continued : {H : Type 0} → H × Result Action → H × Result Action
continued (h, ok act) = (h, ok continue)
continued (h, err e) = (h, err e)

abbrev pub always_continue : {H : Type 0} → Receiver H FcgPacket → Receiver H FcgPacket
always_continue receive h p = continued (receive h p)

module _ {H : Type 0} (receive : Receiver H FcgPacket) where
  answered-continued :
      (s : Session H) (rest : Bytes) (r : H × Result Action)
      → answered receive s rest r ≡ answered (always_continue receive) s rest (continued r)
  answered-continued s rest (h, err e) = refl
  answered-continued s rest (h, ok act) = refl

  handed_over-continued :
      (s : Session H) (rest : Bytes) (p : Result FcgPacket)
      → handed_over receive s rest p ≡ handed_over (always_continue receive) s rest p
  handed_over-continued s rest (err e) = refl
  handed_over-continued s rest (ok p) = answered-continued s rest (receive s.handler p)

  check_end-continued :
      (st : State) (s : Session H) (rest : Bytes)
      → check_end receive st s rest ≡ check_end (always_continue receive) st s rest
  check_end-continued end s rest = handed_over-continued s rest (make_packet s.unpacker)
  check_end-continued read_preamble s rest = refl
  check_end-continued read_content s rest = refl
  check_end-continued read_padding s rest = refl

  step-continued :
      (s : Session H) (rest : Bytes) → step receive s rest ≡ step (always_continue receive) s rest
  unfolding step
  step-continued s rest =
      let part = read_part s.unpacker.state s.unpacker rest in
      check_end-continued part.0.state (record s { unpacker = part.0 }) part.1

  -- The unpacker does not see the action that its handler answers: it does to any handler, and answers,
  -- what it does and answers where that handler always says CONTINUE.
  pub bytes_received-always_continue :
      (start : H × Unpacker) (buf : Bytes)
      → bytes_received receive start buf ≡ bytes_received (always_continue receive) start buf
  unfolding bytes_received
  bytes_received-always_continue (h, u) buf =
      ap
        (λ f.
          closing receive (h, u)
            (pump (fuel receive buf) f
              (record { handler = h; unpacker = u; next_suspend = false; next_write = false }) buf))
        (λ i s r. step-continued s r i)

-- ===== src/Http2/Unpacker/Chunks.antt =====
-- The frame unpacker's loop has the laws of `Pump.IsChunked`.
use mathlib.Core.Path.{subst}
use bay_server_python.Prelude.{
  ◌≤◌, ◌<◌, ◌≡◌, ◌≢◌, refl, ap, ◌∙◌, Bytes, [], ◌++◌, ◌==◌, Bool, false, Bool-cases, inl, inr,
  arith,
}
use bay_server_python.Prelude.Results.{Result, ok, err}
use bay_server_python.Protocol.Pump.{
  Next, go, stop, Run, done, stopped, stuck, then_run, pump, IsChunked, pump-append, pump_ends,
  pump-Valid, pump-stopped, resume, pump-resume,
}
use bay_server_python.Protocol.Receiver.{Action, continue, suspend, read, write, close, Receiver}
use bay_server_python.Http2.Unpacker.{
  State, read_length, read_type, read_flags, read_stream_identifier, read_flame_payload, end,
  Unpacker, H2Packet, read_header_item, item_done, make_packet, Session, Outcome, answered,
  handed_over, check_end, step, fuel, reset_state, closing, frames,
}
use bay_server_python.Http2.Unpacker.Items.{IsReading}
use bay_server_python.Http2.Unpacker.Rounds.{
  SessionOk, owed, work_left, Progress, step-Progress, step-splits,
}

module _ {H : Type 0} (receive : Receiver H H2Packet) where
  -- The laws of the loop.
  pub chunked : IsChunked (step receive)
  chunked = record {
    Valid = SessionOk receive;
    work = work_left receive;
    keeps = λ s r s' r' v h e.
        (subst (Progress receive (work_left receive s r)) e (step-Progress receive s r v h)).0;
    falls = λ s r s' r' v h e.
        (subst (Progress receive (work_left receive s r)) e (step-Progress receive s r v h)).1;
    splits = λ s a b v h. step-splits receive s a b;
  }

  owed-le : (st : State) → owed receive st ≤ 1
  owed-le read_flame_payload = omega arith
  owed-le read_length = omega arith
  owed-le read_type = omega arith
  owed-le read_flags = omega arith
  owed-le read_stream_identifier = omega arith
  owed-le end = omega arith

  -- The fuel of `frames` is enough.
  pub fuel_fits :
      (s : Session receive) (r : Bytes)
      → SessionOk receive s
      → work_left receive s r < fuel receive r
  fuel_fits s r v = omega (arith, owed-le s.unpacker.state)

  run_append :
      (s : Session receive) (a b : Bytes)
      → SessionOk receive s
      → pump (fuel receive (a ++ b)) (step receive) s (a ++ b)
        ≡ then_run
            (pump (fuel receive a) (step receive) s a)
            (λ t. pump (fuel receive b) (step receive) t b)
  unfolding chunked
  run_append s a b v = pump-append (step receive) chunked (fuel receive) fuel_fits s a b v

  -- A round of the loop that goes on.
  pub round-go :
      (s t : Session receive) (r q : Bytes)
      → SessionOk receive s
      → r ≢ []
      → step receive s r ≡ go t q
      → pump (fuel receive r) (step receive) s r ≡ pump (fuel receive q) (step receive) t q
  unfolding chunked
  round-go s t r q v h e =
      pump-resume (step receive) chunked (fuel receive) fuel_fits s r v h
      ∙ ap (resume (step receive) chunked (fuel receive) fuel_fits) e

  -- The loop is not ended with the answer to go on.
  abbrev Refuses : Outcome receive → Type 0
  Refuses (s, err e) = Unit
  Refuses (s, ok continue) = ⊥
  Refuses (s, ok suspend) = ⊥
  Refuses (s, ok act) = Unit

  abbrev StopsRefused : Next (Session receive) (Outcome receive) → Type 0
  StopsRefused (go s r) = Unit
  StopsRefused (stop o) = Refuses o

  answered-Refuses :
      (u : Unpacker) (susp : Bool) (r : Bytes) (p : H × Result Action)
      → StopsRefused (answered receive u susp r p)
  answered-Refuses u susp r (h, err e) = tt
  answered-Refuses u susp r (h, ok continue) = tt
  answered-Refuses u susp r (h, ok suspend) = tt
  answered-Refuses u susp r (h, ok read) = tt
  answered-Refuses u susp r (h, ok write) = tt
  answered-Refuses u susp r (h, ok close) = tt

  handed_over-Refuses :
      (h : H) (susp : Bool) (u : Unpacker) (r : Bytes) (p : Result H2Packet)
      → StopsRefused (handed_over receive h susp u r p)
  handed_over-Refuses h susp u r (err e) = tt
  handed_over-Refuses h susp u r (ok p) = answered-Refuses (reset_state u) susp r (receive h p)

  check_end-Refuses :
      (st : State) (h : H) (susp : Bool) (u : Unpacker) (r : Bytes)
      → StopsRefused (check_end receive st h susp u r)
  check_end-Refuses end h susp u r = handed_over-Refuses h susp u r (make_packet u)
  check_end-Refuses read_length h susp u r = tt
  check_end-Refuses read_type h susp u r = tt
  check_end-Refuses read_flags h susp u r = tt
  check_end-Refuses read_stream_identifier h susp u r = tt
  check_end-Refuses read_flame_payload h susp u r = tt

  step-Refuses : (s : Session receive) (r : Bytes) → StopsRefused (step receive s r)
  unfolding step
  step-Refuses s r =
      let u = (read_header_item s.unpacker r).0 in
      elim (Bool-cases (u.item_pos == u.item_len)) [
        | inl full ↦ rw full (
            check_end-Refuses (item_done u.state u).state s.handler s.suspended
              (item_done u.state u) (read_header_item s.unpacker r).1)
        | inr partial ↦ rw partial tt
      ]

  -- Where the loop leaves off with the answer to go on, it is through with its bytes.
  closing-continue :
      (start : H × Unpacker) (m : Run (Session receive) (Outcome receive)) (h : H) (u : Unpacker)
      → ((o : Outcome receive) → m ≡ stopped o → Refuses o)
      → closing receive start m ≡ ((h, u), ok continue)
      → m ≡ done (record { handler = h; unpacker = u; suspended = false })
  closing-continue start (done s) h u never e = ground (arith, e)
  closing-continue start (stopped (s, r)) h u never e = absurd (subst Refuses e (never (s, r) refl))
  closing-continue start stuck h u never e = absurd (cc e)

  -- From a state in which an item of a frame is being read, the loop ends, whatever the receiver
  -- does: it never runs out of its fuel.
  pub frames_end :
      (s : Session receive) (r : Bytes)
      → SessionOk receive s
      → pump (fuel receive r) (step receive) s r ≢ stuck
  unfolding chunked
  frames_end s r v = pump_ends (step receive) chunked (fuel receive) fuel_fits s r v

  pub closing-start :
      (start start' : H × Unpacker) (m : Run (Session receive) (Outcome receive))
      → m ≢ stuck
      → closing receive start m ≡ closing receive start' m
  closing-start start start' (done s) h = refl
  closing-start start start' (stopped o) h = refl
  closing-start start start' stuck h = absurd (h refl)

  abbrev begin : H → Unpacker → Session receive
  begin h u = record { handler = h; unpacker = u; suspended = false }

  frames_through :
      (h h' : H) (u u' : Unpacker) (a : Bytes)
      → frames receive (h, u) a ≡ ((h', u'), ok continue)
      → pump (fuel receive a) (step receive) (begin h u) a ≡ done (begin h' u')
  unfolding frames
  frames_through h h' u u' a e =
      closing-continue (h, u) (pump (fuel receive a) (step receive) (begin h u) a) h' u'
        (pump-stopped (step receive) chunked Refuses
          (λ t r o k. subst StopsRefused k (step-Refuses t r)) (fuel receive a) (begin h u) a)
        e

  -- From a state in which an item of a frame is being read: where the first piece of the bytes is
  -- answered by CONTINUE, both pieces at once have the effect and the answer that the second piece
  -- has in the state that the first one leaves.
  pub frames-append :
      (h h' : H) (u u' : Unpacker) (a b : Bytes)
      → IsReading u
      → frames receive (h, u) a ≡ ((h', u'), ok continue)
      → frames receive (h, u) (a ++ b) ≡ frames receive (h', u') b
  unfolding frames chunked
  frames-append h h' u u' a b v e =
      ap (closing receive (h, u)) (
        run_append (begin h u) a b v
        ∙ ap (λ m. then_run m (λ t. pump (fuel receive b) (step receive) t b))
            (frames_through h h' u u' a e))
      ∙ closing-start (h, u) (h', u') (pump (fuel receive b) (step receive) (begin h' u') b)
          (frames_end (begin h' u') b (
            pump-Valid (step receive) chunked (fuel receive) fuel_fits (begin h u) a (begin h' u') v
              (frames_through h h' u u' a e)))

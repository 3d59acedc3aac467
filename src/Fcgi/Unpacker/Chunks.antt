-- ===== src/Fcgi/Unpacker/Chunks.antt =====
-- The record unpacker's loop has the laws of `Pump.IsChunked`.
use mathlib.Core.Path.{subst}
use bay_server_python.Prelude.{
  ℕ, ◌+◌, ◌-◌, ◌*◌, ◌≤◌, ◌<◌, ◌≡◌, ◌≢◌, ◌⊎◌, refl, sym, ap, ◌∙◌, Bytes, [], ◌++◌, length, take,
  drop, length-drop, ltb, ◌==◌, Bool-cases, inl, inr, arith, ltb→lt,
}
use bay_server_python.Prelude.Results.{Result, ok, err}
use bay_server_python.Protocol.Pump.{
  Next, go, stop, stuck, then_run, pump, extend, IsChunked, pump-append, pump_ends, resume,
  pump-resume,
}
use bay_server_python.Protocol.Receiver.{Action, Receiver}
use bay_server_python.Fcgi.Command.{FcgPacket}
use bay_server_python.Fcgi.Unpacker.{
  State, read_preamble, read_content, read_padding, end, Unpacker, make_packet, Session, Outcome,
  answered, handed_over, check_end, after_part, step, fuel, read_part, to_padding, header_read_done,
}
use bay_server_python.Fcgi.Unpacker.Parts.{
  need, HasRoom, grown, completed, positive, read_part-short, read_part-long, grown-HasRoom,
  grown-state, read_part-across, read_part-inside,
}

-- The part that the unpacker is reading lacks something.
abbrev pub IsReading : Unpacker → Type 0
IsReading u = HasRoom u.state u

abbrev pub SessionOk : {H : Type 0} → Session H → Type 0
SessionOk s = IsReading s.unpacker

-- A complete record has still to be handed over.
abbrev owed : State → ℕ
owed end = 1
owed _ = 0

abbrev pub work_left : {H : Type 0} → Session H → Bytes → ℕ
work_left s r = 2 * length r + owed s.unpacker.state

-- A completed part leads to a valid state.
to_padding-IsReading : (u : Unpacker) → u.padding_read_bytes ≡ 0 → IsReading (to_padding u)
to_padding-IsReading u h = elim (Bool-cases (u.padding == 0)) [
  | inl e ↦ rw e tt
  | inr e ↦ rw e (ground arith)
]

completed-IsReading :
    (st : State) (u : Unpacker) (x : Bytes)
    → HasRoom st u
    → u.state ≡ st
    → IsReading (completed st (grown st u x))
unfolding completed header_read_done
completed-IsReading end u x v e = subst (λ t. HasRoom t u) (sym e) tt
completed-IsReading read_padding u x v e = tt
completed-IsReading read_content u x v e = to_padding-IsReading (grown read_content u x) v.1
completed-IsReading read_preamble u x v e =
    let w = header_read_done (grown read_preamble u x) in
    elim (Bool-cases (w.content_len == 0)) [
      | inl none ↦ rw none (to_padding-IsReading w v.2)
      | inr some ↦ rw some (ground arith)
    ]

module _ {H : Type 0} (receive : Receiver H FcgPacket) where
  answered-extend :
      (s : Session H) (r b : Bytes) (p : H × Result Action)
      → answered receive s (r ++ b) p ≡ extend b (answered receive s r p)
  answered-extend s r b (h, err e) = refl
  answered-extend s r b (h, ok act) = refl

  handed_over-extend :
      (s : Session H) (r b : Bytes) (p : Result FcgPacket)
      → handed_over receive s (r ++ b) p ≡ extend b (handed_over receive s r p)
  handed_over-extend s r b (err e) = refl
  handed_over-extend s r b (ok p) = answered-extend s r b (receive s.handler p)

  check_end-extend :
      (st : State) (s : Session H) (r b : Bytes)
      → check_end receive st s (r ++ b) ≡ extend b (check_end receive st s r)
  check_end-extend end s r b = handed_over-extend s r b (make_packet s.unpacker)
  check_end-extend read_preamble s r b = refl
  check_end-extend read_content s r b = refl
  check_end-extend read_padding s r b = refl

  -- The next state is valid, with less than `k` to do.
  abbrev Progress : ℕ → Next (Session H) (Outcome H) → Type 0
  Progress k (go s r) = SessionOk s × (work_left s r < k)
  Progress k (stop o) = Unit

  answered-Progress :
      (s : Session H) (r : Bytes) (k : ℕ) (p : H × Result Action)
      → 2 * length r < k
      → Progress k (answered receive s r p)
  answered-Progress s r k (h, err e) l = tt
  answered-Progress s r k (h, ok act) l = (omega arith, omega arith)

  handed_over-Progress :
      (s : Session H) (r : Bytes) (k : ℕ) (p : Result FcgPacket)
      → 2 * length r < k
      → Progress k (handed_over receive s r p)
  handed_over-Progress s r k (err e) l = tt
  handed_over-Progress s r k (ok p) l = answered-Progress s r k (receive s.handler p) l

  check_end-Progress :
      (st : State) (s : Session H) (r : Bytes) (k : ℕ)
      → HasRoom st s.unpacker
      → st ≡ s.unpacker.state
      → 2 * length r < k
      → Progress k (check_end receive st s r)
  check_end-Progress end s r k v e l = handed_over-Progress s r k (make_packet s.unpacker) l
  check_end-Progress read_preamble s r k v e l =
      subst (λ t. HasRoom t s.unpacker × (2 * length r + owed t < k)) e (v, omega arith)
  check_end-Progress read_content s r k v e l =
      subst (λ t. HasRoom t s.unpacker × (2 * length r + owed t < k)) e (v, omega arith)
  check_end-Progress read_padding s r k v e l =
      subst (λ t. HasRoom t s.unpacker × (2 * length r + owed t < k)) e (v, omega arith)

  -- What a round pays: in the state `end` the record that it hands over, else the bytes of the part.
  paid :
      (st : State) (u : Unpacker) (r : Bytes)
      → HasRoom st u
      → need st u ≤ length r
      → 2 * length (drop (need st u) r) < 2 * length r + owed st
  paid end u r v h = omega (arith, length-drop 0 r)
  paid read_preamble u r v h = omega (arith, v.0, length-drop (8 - length u.header_buf) r)
  paid read_content u r v h = omega (arith, v.0, length-drop (u.content_len - length u.data_buf) r)
  paid read_padding u r v h = omega (arith, length-drop (u.padding - u.padding_read_bytes) r)

  short_owes : (st : State) (u : Unpacker) (n : ℕ) → n < need st u → owed st ≡ 0
  short_owes end u n h = absurd (omega arith)
  short_owes read_preamble u n h = refl
  short_owes read_content u n h = refl
  short_owes read_padding u n h = refl

  check_end-short :
      (st : State) (s : Session H) (n : ℕ)
      → n < need st s.unpacker
      → check_end receive st s [] ≡ go s []
  check_end-short end s n h = absurd (omega arith)
  check_end-short read_preamble s n h = refl
  check_end-short read_content s n h = refl
  check_end-short read_padding s n h = refl

  abbrev grown_session : Session H → Bytes → Session H
  grown_session s r = record s { unpacker = grown s.unpacker.state s.unpacker r }

  step_short :
      (s : Session H) (r : Bytes)
      → SessionOk s
      → r ≢ []
      → length r < need s.unpacker.state s.unpacker
      → step receive s r ≡ go (grown_session s r) []
  unfolding step
  step_short s r v ne h =
      ap (after_part receive s) (read_part-short s.unpacker.state s.unpacker r v ne h)
      ∙ ap (λ st. check_end receive st (grown_session s r) [])
          (grown-state s.unpacker.state s.unpacker r)
      ∙ same s.unpacker.state h
    where
      same :
          (st : State)
          → length r < need st s.unpacker
          → check_end receive st (grown_session s r) [] ≡ go (grown_session s r) []
      same end k = absurd (omega arith)
      same read_preamble k = refl
      same read_content k = refl
      same read_padding k = refl

  grown-SessionOk :
      (s : Session H) (r : Bytes)
      → SessionOk s
      → length r < need s.unpacker.state s.unpacker
      → SessionOk (grown_session s r)
  grown-SessionOk s r v h =
      subst (λ t. HasRoom t (grown s.unpacker.state s.unpacker r))
        (sym (grown-state s.unpacker.state s.unpacker r))
        (grown-HasRoom s.unpacker.state s.unpacker r v h)

  long-Progress :
      (st : State) (s : Session H) (r : Bytes)
      → HasRoom st s.unpacker
      → s.unpacker.state ≡ st
      → need st s.unpacker ≤ length r
      → Progress (2 * length r + owed st) (
          after_part receive s (
            completed st (grown st s.unpacker (take (need st s.unpacker) r)),
            drop (need st s.unpacker) r,
          ))
  long-Progress st s r v e h =
      let w = completed st (grown st s.unpacker (take (need st s.unpacker) r)) in
      check_end-Progress w.state (record s { unpacker = w }) (drop (need st s.unpacker) r)
        (2 * length r + owed st)
        (completed-IsReading st s.unpacker (take (need st s.unpacker) r) v e) refl
        (paid st s.unpacker r v h)

  step-Progress :
      (s : Session H) (r : Bytes)
      → SessionOk s
      → r ≢ []
      → Progress (work_left s r) (step receive s r)
  unfolding step
  step-Progress s r v ne =
      let st = s.unpacker.state in
      elim (Bool-cases (ltb (length r) (need st s.unpacker))) [
        | inl short ↦
            let h : length r < need st s.unpacker = ltb→lt _ _ short in
            let same : owed (grown_session s r).unpacker.state ≡ owed st =
              ap owed (grown-state st s.unpacker r) in
            subst (Progress (work_left s r)) (sym (step_short s r v ne h))
              (grown-SessionOk s r v h, omega (arith, same, positive r ne))
        | inr long ↦
            let h : need st s.unpacker ≤ length r = ground arith in
            subst (Progress (work_left s r))
              (ap (after_part receive s) (sym (read_part-long st s.unpacker r v h)))
              (long-Progress st s r v refl h)
      ]

  step-splits :
      (s : Session H) (a b : Bytes)
      → SessionOk s
      → a ≢ []
      → (step receive s (a ++ b) ≡ extend b (step receive s a))
        ⊎ ((s' : Session H) × (step receive s a ≡ go s' [])
            × (b ≢ [] → step receive s (a ++ b) ≡ step receive s' b))
  unfolding step
  step-splits s a b v ne =
      let st = s.unpacker.state in
      elim (Bool-cases (ltb (length a) (need st s.unpacker))) [
        | inl short ↦
            let h : length a < need st s.unpacker = ltb→lt _ _ short in
            inr (
              grown_session s a,
              step_short s a v ne h,
              λ ne_b.
                  ap (after_part receive s) (read_part-across st s.unpacker a b v ne_b ne h)
                  ∙ ap (λ t. after_part receive s (read_part t (grown st s.unpacker a) b))
                      (sym (grown-state st s.unpacker a)),
            )
        | inr long ↦ inl (
            ap (after_part receive s) (read_part-inside st s.unpacker a b v (ground arith))
            ∙ check_end-extend (read_part st s.unpacker a).0.state
                (record s { unpacker = (read_part st s.unpacker a).0 })
                (read_part st s.unpacker a).1 b)
      ]

  -- The laws of the loop.
  pub chunked : IsChunked (step receive)
  chunked = record {
    Valid = SessionOk;
    work = work_left;
    keeps = λ s r s' r' v h e. (subst (Progress (work_left s r)) e (step-Progress s r v h)).0;
    falls = λ s r s' r' v h e. (subst (Progress (work_left s r)) e (step-Progress s r v h)).1;
    splits = step-splits;
  }

  owed-le : (st : State) → owed st ≤ 1
  owed-le end = omega arith
  owed-le read_preamble = omega arith
  owed-le read_content = omega arith
  owed-le read_padding = omega arith

  -- The fuel of `bytes_received` is enough.
  fuel_fits : (s : Session H) (r : Bytes) → SessionOk s → work_left s r < fuel receive r
  fuel_fits s r v = omega (arith, owed-le s.unpacker.state)

  -- From a state in which the part that is being read lacks something, or in which a record is
  -- complete, the loop ends, whatever the handler does: it never runs out of its fuel.
  pub loop_ends :
      (s : Session H) (r : Bytes) → SessionOk s → pump (fuel receive r) (step receive) s r ≢ stuck
  unfolding chunked
  loop_ends s r v = pump_ends (step receive) chunked (fuel receive) fuel_fits s r v

  -- A round of the loop that goes on.
  pub round-go :
      (s t : Session H) (r q : Bytes)
      → SessionOk s
      → r ≢ []
      → step receive s r ≡ go t q
      → pump (fuel receive r) (step receive) s r ≡ pump (fuel receive q) (step receive) t q
  unfolding chunked
  round-go s t r q v h e =
      pump-resume (step receive) chunked (fuel receive) fuel_fits s r v h
      ∙ ap (resume (step receive) chunked (fuel receive) fuel_fits) e

  -- From a state in which the part that is being read lacks something, or in which a record is
  -- complete: two pieces of a stream at once run as the first piece and then, where it did not end
  -- the loop, the second piece from the state that the first has left.
  pub loop-append :
      (s : Session H) (a b : Bytes)
      → SessionOk s
      → pump (fuel receive (a ++ b)) (step receive) s (a ++ b)
        ≡ then_run
            (pump (fuel receive a) (step receive) s a)
            (λ t. pump (fuel receive b) (step receive) t b)
  unfolding chunked
  loop-append s a b v = pump-append (step receive) chunked (fuel receive) fuel_fits s a b v

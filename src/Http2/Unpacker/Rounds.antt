-- ===== src/Http2/Unpacker/Rounds.antt =====
-- A round of the frame unpacker's loop: what it takes, and what it does not see.
use mathlib.Core.Path.{subst}
use bay_server_python.Prelude.{
  ℕ, ◌+◌, ◌-◌, ◌*◌, ◌≤◌, ◌<◌, ◌≡◌, ◌≢◌, refl, sym, ap, ◌∙◌, Bytes, [], ◌∷◌, ◌++◌, length, drop,
  length-drop, drop_all, ltb, ◌==◌, Bool, true, false, Bool-cases, inl, inr, ◌⊎◌, arith, ltb→lt,
  ==_iff,
}
use bay_server_python.Prelude.Results.{Result, ok, err}
use bay_server_python.Protocol.Pump.{Next, go, stop, extend}
use bay_server_python.Protocol.Receiver.{Action, continue, suspend, read, write, close, Receiver}
use bay_server_python.Http2.Unpacker.{
  State, read_length, read_type, read_flags, read_stream_identifier, read_flame_payload, end,
  Unpacker, H2Packet, absorb, read_header_item, item_done, make_packet, Session, Outcome, answered,
  handed_over, check_end, after_item, step, reset_state,
}
use bay_server_python.Http2.Unpacker.Items.{
  HasRoom, IsReading, need, read_long, read_short, read_inside, read_across,
}

module _ {H : Type 0} (receive : Receiver H H2Packet) where
  -- Bytes behind the piece that a round has looked at do not change the round.
  answered-extend :
      (u : Unpacker) (susp : Bool) (r b : Bytes) (p : H × Result Action)
      → answered receive u susp (r ++ b) p ≡ extend b (answered receive u susp r p)
  answered-extend u susp r b (h, err e) = refl
  answered-extend u susp r b (h, ok continue) = refl
  answered-extend u susp r b (h, ok suspend) = refl
  answered-extend u susp r b (h, ok read) = refl
  answered-extend u susp r b (h, ok write) = refl
  answered-extend u susp r b (h, ok close) = refl

  handed_over-extend :
      (h : H) (susp : Bool) (u : Unpacker) (r b : Bytes) (p : Result H2Packet)
      → handed_over receive h susp u (r ++ b) p ≡ extend b (handed_over receive h susp u r p)
  handed_over-extend h susp u r b (err e) = refl
  handed_over-extend h susp u r b (ok p) = answered-extend (reset_state u) susp r b (receive h p)

  check_end-extend :
      (st : State) (h : H) (susp : Bool) (u : Unpacker) (r b : Bytes)
      → check_end receive st h susp u (r ++ b) ≡ extend b (check_end receive st h susp u r)
  check_end-extend end h susp u r b = handed_over-extend h susp u r b (make_packet u)
  check_end-extend read_length h susp u r b = refl
  check_end-extend read_type h susp u r b = refl
  check_end-extend read_flags h susp u r b = refl
  check_end-extend read_stream_identifier h susp u r b = refl
  check_end-extend read_flame_payload h susp u r b = refl

  after_item-extend :
      (h : H) (susp : Bool) (u : Unpacker) (r b : Bytes)
      → after_item receive h susp (u, r ++ b) ≡ extend b (after_item receive h susp (u, r))
  after_item-extend h susp u r b = elim (Bool-cases (u.item_pos == u.item_len)) [
    | inl complete ↦
        rw complete (check_end-extend (item_done u.state u).state h susp (item_done u.state u) r b)
    | inr partial ↦ rw partial refl
  ]

  abbrev pub SessionOk : Session receive → Type 0
  SessionOk s = IsReading s.unpacker

  -- A payload may still have to be handed over when its bytes are read.
  abbrev pub owed : State → ℕ
  owed read_flame_payload = 1
  owed _ = 0

  abbrev pub work_left : Session receive → Bytes → ℕ
  work_left s r = 2 * length r + owed s.unpacker.state

  -- The next state is valid, with less than `k` to do.
  abbrev pub Progress : ℕ → Next (Session receive) (Outcome receive) → Type 0
  Progress k (go s r) = SessionOk s × (work_left s r < k)
  Progress k (stop o) = Unit

  abbrev Spent : State → ℕ → ℕ → Type 0
  Spent end n k = ⊥
  Spent read_flame_payload n k = 2 * n < k
  Spent _ n k = 2 * n + 1 < k

  answered-Progress :
      (u : Unpacker) (susp : Bool) (r : Bytes) (k : ℕ) (p : H × Result Action)
      → 2 * length r < k
      → Progress k (answered receive (reset_state u) susp r p)
  answered-Progress u susp r k (h, err e) l = tt
  answered-Progress u susp r k (h, ok continue) l = omega arith
  answered-Progress u susp r k (h, ok suspend) l = omega arith
  answered-Progress u susp r k (h, ok read) l = tt
  answered-Progress u susp r k (h, ok write) l = tt
  answered-Progress u susp r k (h, ok close) l = tt

  handed_over-Progress :
      (h : H) (susp : Bool) (u : Unpacker) (r : Bytes) (k : ℕ) (p : Result H2Packet)
      → 2 * length r < k
      → Progress k (handed_over receive h susp u r p)
  handed_over-Progress h susp u r k (err e) l = tt
  handed_over-Progress h susp u r k (ok p) l = answered-Progress u susp r k (receive h p) l

  item_done-Progress :
      (st : State) (h : H) (susp : Bool) (u : Unpacker) (r : Bytes) (k : ℕ)
      → Spent st (length r) k
      → Progress k (check_end receive (item_done st u).state h susp (item_done st u) r)
  unfolding item_done
  item_done-Progress end h susp u r k l = absurd l
  item_done-Progress read_length h susp u r k l = omega arith
  item_done-Progress read_type h susp u r k l = omega arith
  item_done-Progress read_flags h susp u r k l = omega arith
  item_done-Progress read_stream_identifier h susp u r k l = omega arith
  item_done-Progress read_flame_payload h susp u r k l =
      handed_over-Progress h susp (record u { state = end }) r k
        (make_packet (record u { state = end })) l

  -- What a nonempty piece pays for in each state.
  Spent-long :
      (st : State) (pos len m n : ℕ)
      → HasRoom st pos len
      → len - pos ≤ m
      → n ≡ m - (len - pos)
      → 0 < m
      → Spent st n (2 * m + owed st)
  Spent-long end pos len m n v h e p = absurd v
  Spent-long read_length pos len m n v h e p = omega arith
  Spent-long read_type pos len m n v h e p = omega arith
  Spent-long read_flags pos len m n v h e p = omega arith
  Spent-long read_stream_identifier pos len m n v h e p = omega arith
  Spent-long read_flame_payload pos len m n v h e p = omega arith

  still_room :
      (st : State) (pos len m : ℕ) → HasRoom st pos len → m < len - pos → HasRoom st (pos + m) len
  still_room end pos len m v h = absurd v
  still_room read_length pos len m v h = omega arith
  still_room read_type pos len m v h = omega arith
  still_room read_flags pos len m v h = omega arith
  still_room read_stream_identifier pos len m v h = omega arith
  still_room read_flame_payload pos len m v h = omega arith

  fills : (st : State) (pos len : ℕ) → HasRoom st pos len → pos + (len - pos) ≡ len
  fills end pos len v = absurd v
  fills read_length pos len v = omega arith
  fills read_type pos len v = omega arith
  fills read_flags pos len v = omega arith
  fills read_stream_identifier pos len v = omega arith
  fills read_flame_payload pos len v = omega arith

  -- The first piece ends inside the item: it is taken whole.
  step_short :
      (s : Session receive) (r : Bytes)
      → length r < need s.unpacker
      → step receive s r ≡ go (record s { unpacker = (absorb (length r) s.unpacker r).0 }) []
  unfolding step
  step_short s r h =
      let partial : (s.unpacker.item_pos + length r == s.unpacker.item_len) ≡ false =
        ground arith in
      rw (read_short s.unpacker r h, partial)
        (ap (go (record s { unpacker = (absorb (length r) s.unpacker r).0 }))
          (drop_all (length r) r (omega arith)))

  nonempty : (r : Bytes) → r ≢ [] → 0 < length r
  nonempty [] h = absurd (h refl)
  nonempty (x ∷ r) h = omega arith

  pub step-Progress :
      (s : Session receive) (r : Bytes)
      → SessionOk s
      → r ≢ []
      → Progress (work_left s r) (step receive s r)
  unfolding step
  step-Progress s r v ne = elim (Bool-cases (ltb (length r) (need s.unpacker))) [
    | inl short ↦ subst (Progress (work_left s r)) (sym (step_short s r (ltb→lt _ _ short))) (
      still_room s.unpacker.state s.unpacker.item_pos s.unpacker.item_len (length r) v
          (ltb→lt _ _ short),
      omega (arith, nonempty r ne),
    )
    | inr long ↦
        let u = s.unpacker in
        let enough : need u ≤ length r = ground arith in
        let full : (u.item_pos + need u == u.item_len) ≡ true =
          (==_iff _ _).1 (fills u.state u.item_pos u.item_len v) in
        rw (read_long u r enough, full)
          (item_done-Progress u.state s.handler s.suspended (absorb (need u) u r).0
            (drop (need u) r) (work_left s r)
            (Spent-long u.state u.item_pos u.item_len (length r) (length (drop (need u) r)) v enough
              (length-drop (need u) r) (nonempty r ne)))
  ]

  pub step-splits :
      (s : Session receive) (a b : Bytes)
      → (step receive s (a ++ b) ≡ extend b (step receive s a))
        ⊎ ((s' : Session receive) × (step receive s a ≡ go s' [])
            × (b ≢ [] → step receive s (a ++ b) ≡ step receive s' b))
  unfolding step
  step-splits s a b = elim (Bool-cases (ltb (length a) (need s.unpacker))) [
    | inl short ↦ inr (
      record s { unpacker = (absorb (length a) s.unpacker a).0 },
      step_short s a (ltb→lt _ _ short),
      λ _.
          ap (after_item receive s.handler s.suspended)
            (read_across s.unpacker a b (ltb→lt _ _ short)),
    )
    | inr long ↦ inl (
        ap (after_item receive s.handler s.suspended) (read_inside s.unpacker a b (ground arith))
        ∙ after_item-extend s.handler s.suspended (read_header_item s.unpacker a).0
            (read_header_item s.unpacker a).1 b)
  ]

-- ===== src/Tour/Response/Ending.antt =====
-- The end of a response, and what the content of a response leaves where the peer is not asked.
use bay_server_python.Prelude.{
  ℕ, ◌+◌, ◌<◌, ◌≡◌, ◌≤◌, ◌≢◌, List, [], ◌∷◌, refl, ap, ◌∙◌, Bytes, length, Bool, true, false, not,
  ◌||◌, none, lt→ltb, if◌then◌else◌,
}
use bay_server_python.Prelude.Results.{ok, err, sink, protocol_error, io_error}
use bay_server_python.Prelude.Acts.{◌>>◌, give, finally, on_io_error, and_then-ok}
use bay_server_python.Tour.Flow.{consume, add_posted}
use bay_server_python.Tour.Flow.Balance.{
  IsBalanced, sum, drain, drain-available, resumes, resumes_once,
}
use bay_server_python.Tour.State.{
  Tour, Listener, no_listener, dev_null, town_listener, running, ended, is_zombie, is_aborted,
  is_ended, is_running, check_tour_id, change_state,
}
use bay_server_python.Tour.Request.{M}
use bay_server_python.Tour.Response.{
  Peer, consumed, send_res_content, end_res_content, give_back, end_tour, end_state, drop_flag,
  log_tour, finish_content, end_at_peer, has_listener,
}

-- A tour whose response goes to the peer uncompressed.
pub record IsLive (t : Tour) : Type 0 where
  pub zombie : is_zombie t.state ≡ false
  pub aborted : is_aborted t.state ≡ false
  pub ended : is_ended t.state ≡ false
  pub plain : t.can_compress ≡ false

skip : {A : Type 0} {p : Bool} (a : A) {b : A} → p ≡ false → (if p then a else b) ≡ b
skip a h = rw h refl

skip-not : {A : Type 0} {p : Bool} {a : A} (b : A) → p ≡ true → (if not p then b else a) ≡ a
skip-not b h = rw h refl

take-not : {A : Type 0} {p : Bool} {a : A} (b : A) → p ≡ false → (if not p then a else b) ≡ a
take-not b h = rw h refl

listening : (l : Listener) → l ≢ no_listener → not (has_listener l) ≡ false
listening no_listener h = absurd (h refl)
listening dev_null h = refl
listening town_listener h = refl

or-false : {p q : Bool} → p ≡ false → q ≡ false → (p || q) ≡ false
or-false hp hq = rw (hp, hq) refl

module _ {W : Type 0} (size : ℕ) (peer : Peer W) where
  -- Logging leaves the tour alone.
  abbrev pub LogsOnly : Type 0
  LogsOnly = (s : W × Tour) → (w : W) × (peer.log s ≡ ((w, s.1), ok tt))

  -- A live tour is logged, and then the peer is asked to end it.
  end_res_content-IsLive :
      (s : W × Tour) (w : W)
      → peer.log s ≡ ((w, s.1), ok tt)
      → IsLive s.1
      → end_res_content size peer none s
        ≡ drop_flag size peer (
            finally (end_state size peer none) (
              on_io_error
                (give_back size peer none)
                (peer.send_end_tour (give_back size peer none) (false, (w, s.1)))))
  unfolding end_res_content check_tour_id
  end_res_content-IsLive s w logged live =
      let logs : log_tour size peer s ≡ ((w, s.1), ok tt) = skip _ live.zombie ∙ logged in
      let finishes : finish_content size peer (w, s.1) ≡ ((w, s.1), ok tt) = skip _ live.plain in
      let ends : end_tour size peer none (false, (w, s.1))
          ≡ on_io_error (give_back size peer none)
              (peer.send_end_tour (give_back size peer none) (false, (w, s.1))) =
        skip _ (or-false live.zombie live.aborted) in
      skip _ live.ended
      ∙ and_then-ok (λ _. end_at_peer size peer none)
          (and_then-ok (λ _. finish_content size peer) logs ∙ finishes)
      ∙ ap (λ r. drop_flag size peer (finally (end_state size peer none) r)) ends

  -- A tour that is neither zombie nor aborted nor ended, without compression and with a log that leaves
  -- it alone: where the peer keeps the callback for later, the end of its content makes its state ENDED,
  -- and to end it again does nothing.
  pub end_res_content_twice :
      (s : W × Tour)
      → LogsOnly
      → ((b : Bool) (u : W × Tour)
          → (w : W) × (peer.send_end_tour (give_back size peer none) (b, u)
              ≡ ((b, (w, u.1)), ok tt)))
      → IsLive s.1
      → (s' : W × Tour) × (end_res_content size peer none s ≡ (s', ok tt))
        × (s'.1.state ≡ ended)
        × (end_res_content size peer none s' ≡ (s', ok tt))
  unfolding end_res_content check_tour_id change_state
  end_res_content_twice s logs later live =
      let (w, logged) = logs s in
      let (v, kept) = later false (w, s.1) in
      (
        (v, record (s.1) { state = ended }),
        end_res_content-IsLive s w logged live
            ∙ ap
                (λ r.
                  drop_flag size peer
                    (finally (end_state size peer none) (on_io_error (give_back size peer none) r)))
                kept,
        refl,
        refl,
      )

  -- For such a tour: where the end cannot be sent (IOError) and the ship takes the tour back, the tour
  -- goes back to its store all the same, its state is not changed after that, and the exception is
  -- passed on.
  pub end_res_content-io_error :
      (s : W × Tour) (back : W → W × Tour)
      → LogsOnly
      → ((b : Bool) (u : W × Tour)
          → peer.send_end_tour (give_back size peer none) (b, u) ≡ ((b, u), err io_error))
      → ((w : W) → peer.return_tour (w, s.1) ≡ (back w, ok tt))
      → IsLive s.1
      → (w : W) × (end_res_content size peer none s ≡ (back w, err io_error))
  unfolding check_tour_id
  end_res_content-io_error s back logs fails returns live =
      let (w, logged) = logs s in
      (w, end_res_content-IsLive s w logged live ∙ rw (fails false (w, s.1), returns w) refl)

  -- While its tour runs, with a listener: what the peer has consumed is counted, and the listener is not
  -- called.
  consumed-running :
      (n : ℕ) (s : W × Tour)
      → s.1.state ≡ running
      → s.1.listener ≢ no_listener
      → consumed size peer none n s
        ≡ ((s.0, record (s.1) { res = (consume size n s.1.res).0 }), ok tt)
  unfolding consumed check_tour_id
  consumed-running n s runs listens =
      let there : (if not (has_listener s.1.listener) then err sink else ok tt) ≡ ok tt =
        skip _ (listening s.1.listener listens) in
      and_then-ok _ (ap (λ r. (s, r)) there) ∙ skip-not _ (ap is_running runs)

  -- The peer consumes piece after piece.
  abbrev pub consume_all : List ℕ → M W (Unit {0})
  consume_all [] = give tt
  consume_all (n ∷ ns) = consumed size peer none n >> consume_all ns

  consume_all-running :
      (ns : List ℕ) (s : W × Tour)
      → s.1.state ≡ running
      → s.1.listener ≢ no_listener
      → consume_all ns s ≡ ((s.0, record (s.1) { res = drain size ns s.1.res }), ok tt)
  unfolding drain
  consume_all-running [] s runs listens = refl
  consume_all-running (n ∷ ns) s runs listens =
      and_then-ok (λ _. consume_all ns) (consumed-running n s runs listens)
      ∙ consume_all-running ns (s.0, record (s.1) { res = (consume size n s.1.res).0 }) runs listens

  -- While its tour runs, with a listener and a buffer that is not empty, of a response whose flag says what
  -- its counters say and has stopped its town: the peer may consume all that is on its way, in pieces of any
  -- size; then more may be posted, and the listener would be told so once; but in all that time nothing
  -- of the town or the ship is called.
  pub consume_all-silent :
      (ns : List ℕ) (s : W × Tour)
      → s.1.state ≡ running
      → s.1.listener ≢ no_listener
      → 0 < size
      → IsBalanced size s.1.res
      → s.1.res.available ≡ false
      → s.1.res.posted ≤ s.1.res.consumed + sum ns
      → (t : Tour) × (consume_all ns s ≡ ((s.0, t), ok tt))
        × (t.res.available ≡ true)
        × (resumes size ns s.1.res ≡ 1)
  consume_all-silent ns s runs listens p balanced stopped all = (
    record (s.1) { res = drain size ns s.1.res },
    consume_all-running ns s runs listens,
    drain-available size ns s.1.res p balanced all,
    resumes_once size ns s.1.res p balanced stopped all,
  )

  -- Content without headers is refused (Sink), and so is content that exceeds the length in the headers
  -- (ProtocolException), which is counted as posted all the same. In both cases the peer gets nothing.
  pub send_res_content-refused :
      (buf : Bytes) (s : W × Tour)
      → is_zombie s.1.state ≡ false
      → (s.1.header_sent ≡ false → send_res_content size peer none buf s ≡ (s, err sink))
        × (s.1.header_sent ≡ true
            → 0 < s.1.res.limit
            → s.1.res.limit < s.1.res.posted + length buf
            → send_res_content size peer none buf s ≡ (
              (s.0, record (s.1) { res = add_posted size (length buf) s.1.res }),
              err protocol_error,
            ))
  unfolding send_res_content check_tour_id
  send_res_content-refused buf s live = (
    λ unsent. skip _ live ∙ take-not _ unsent,
    λ sent positive over.
        skip _ live ∙ skip _ (ap not sent) ∙ rw (lt→ltb _ _ positive, lt→ltb _ _ over) refl,
  )

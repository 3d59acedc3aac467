-- ===== src/Tour/Response.antt =====
-- bayserver_core/tour/tour_res.py: the content of a response on its way to the peer. A limit of 0 stands
-- for the limits at or below 0, which the source does not enforce. IOError is `io_error`.
pub mod Ending
use bay_server_python.Prelude.{
  ℕ, ◌+◌, Bytes, length, ltb, if◌then◌else◌, Bool, true, false, not, ◌&&◌, ◌||◌, Option, none, some,
}
use bay_server_python.Prelude.Results.{Result, ok, err, sink, protocol_error, io_error}
use bay_server_python.Prelude.Acts.{
  Act, and_then, ◌>>=◌, ◌>>◌, give, raise, change, on_io_error, finally,
}
use bay_server_python.Tour.Flow.{Flow, after_post, add_posted, consume}
use bay_server_python.Tour.State.{
  Tour, TourState, Listener, no_listener, dev_null, town_listener, aborted, ended, is_zombie,
  is_aborted, is_ended, is_running, check_tour_id,
}
use bay_server_python.Tour.Request.{M, update, check_id, to_state}

-- What a response calls: its ship, its compressor, its city's log (which does nothing where there is no
-- city), and the listener of the town. A callback is given as an action. The Boolean beside the state
-- is the list `tour_returned`, which only the callback changes.
pub record Peer (W : Type 0) : Type 0 where
  pub send_res_content : Bytes → M W (Unit {0}) → M W (Unit {0})
  pub send_end_tour : Act (Bool × (W × Tour)) (Unit {0}) → Act (Bool × (W × Tour)) (Unit {0})
  pub send_error : M W (Unit {0})
  pub send_redirect : M W (Unit {0})
  pub return_tour : M W (Unit {0})
  pub compress : Bytes → M W (Unit {0}) → M W (Unit {0})
  pub finish : M W (Unit {0})
  pub log : M W (Unit {0})
  pub on_consumed : ℕ → Bool → M W (Unit {0})

abbrev pub has_listener : Listener → Bool
has_listener no_listener = false
has_listener _ = true

abbrev pub on_res : (Flow → Flow) → Tour → Tour
on_res f t = record t { res = f t.res }

-- An action on the state inside a larger one.
abbrev beside : {S : Type 0} → Act S (Unit {0}) → Act (Bool × S) (Unit {0})
beside act (b, s) = let (s', r) = act s in ((b, s'), r)

module _ {W : Type 0} where
  unfoldable pub set_res_consume_listener : Listener → M W (Unit {0})
  set_res_consume_listener l = update (λ t. record t {
    listener = l;
    res = record (t.res) { consumed = 0; posted = 0; available = true };
  })

  module _ (size : ℕ) (peer : Peer W) where
    abbrev tell : Listener → ℕ → Bool → M W (Unit {0})
    tell town_listener n resume = peer.on_consumed n resume
    tell _ n resume = give tt

    unfoldable pub consumed : Option ℕ → ℕ → M W (Unit {0})
    unfolding consume
    consumed chk n = do
      check_id chk
      λ s. (s, if not (has_listener s.1.listener) then err sink else ok tt)
      λ s.
          let (flow, resume) = consume size n s.1.res in
          let u = record (s.1) { res = flow } in
          if not (is_running u.state) then tell u.listener n resume (s.0, u) else ((s.0, u), ok tt)

    -- `0 < self.bytes_limit < self.bytes_posted`.
    abbrev exceeds : Flow → Bool
    exceeds f = ltb 0 f.limit && ltb f.limit f.posted

    abbrev pass_content : Option ℕ → Bytes → M W (Unit {0})
    pass_content chk buf s =
        let consumed_cb = consumed chk (length buf) in
        if is_zombie s.1.state || is_aborted s.1.state
        then consumed_cb s
        else if s.1.can_compress
        then peer.compress buf consumed_cb s
        else on_io_error (consumed_cb >> to_state chk aborted)
            (peer.send_res_content buf consumed_cb s)

    -- `buf` is the part of the buffer that is sent.
    unfoldable pub send_res_content : Option ℕ → Bytes → M W Bool
    unfolding consumed
    send_res_content chk buf = do
      check_id chk
      λ s.
          if is_zombie s.1.state
          then (update (on_res (add_posted size (length buf)))
                >> consumed chk (length buf)
                >> give true)
              s
          else if not s.1.header_sent
          then (s, err sink)
          else (update (on_res (add_posted size (length buf)))
                >> (λ t. (t, if exceeds t.1.res then err protocol_error else ok tt))
                >> pass_content chk buf
                >> update (on_res (after_post size))
                >> λ t. (t, ok t.1.res.available))
              s

    -- `callback`: the tour goes back to its store.
    abbrev pub give_back : Option ℕ → Act (Bool × (W × Tour)) (Unit {0})
    give_back chk = beside (check_id chk) >> beside peer.return_tour >> change (λ s. (true, s.1))

    abbrev pub end_tour : Option ℕ → Act (Bool × (W × Tour)) (Unit {0})
    end_tour chk s =
        if is_zombie s.1.1.state || is_aborted s.1.1.state
        then give_back chk s
        else on_io_error (give_back chk) (peer.send_end_tour (give_back chk) s)

    abbrev pub end_state : Option ℕ → Act (Bool × (W × Tour)) (Unit {0})
    end_state chk s = if not s.0 then beside (to_state chk ended) s else (s, ok tt)

    abbrev pub drop_flag : (Bool × (W × Tour)) × Result (Unit {0}) → (W × Tour) × Result (Unit {0})
    drop_flag ((b, s), r) = (s, r)

    abbrev pub log_tour : M W (Unit {0})
    log_tour s = if is_zombie s.1.state then (s, ok tt) else peer.log s

    abbrev pub finish_content : M W (Unit {0})
    finish_content s = if s.1.can_compress then peer.finish s else (s, ok tt)

    abbrev pub end_at_peer : Option ℕ → M W (Unit {0})
    end_at_peer chk s = drop_flag (finally (end_state chk) (end_tour chk (false, s)))

    unfoldable pub end_res_content : Option ℕ → M W (Unit {0})
    end_res_content chk = do
      check_id chk
      λ s.
          if is_ended s.1.state
          then (s, ok tt)
          else (log_tour >> finish_content >> end_at_peer chk) s

    abbrev mark_sent : M W (Unit {0})
    mark_sent = update (λ t. record t { header_sent = true })

    unfoldable pub send_redirect : Option ℕ → M W (Unit {0})
    unfolding end_res_content set_res_consume_listener
    send_redirect chk = do
      check_id chk
      λ s.
          if s.1.header_sent
          then (s, ok tt)
          else (set_res_consume_listener dev_null >> λ t.
                finally (mark_sent >> end_res_content chk)
                  (on_io_error (to_state chk aborted) (peer.send_redirect t)))
              s

    -- `except IOError as e` without raising it again.
    abbrev ignore_io_error :
        M W (Unit {0}) → (W × Tour) × Result (Unit {0}) → (W × Tour) × Result (Unit {0})
    ignore_io_error undo (s, err io_error) = undo s
    ignore_io_error undo r = r

    unfoldable pub send_error : Option ℕ → M W (Unit {0})
    unfolding end_res_content set_res_consume_listener
    send_error chk = do
      check_id chk
      λ s.
          if is_zombie s.1.state
          then (s, ok tt)
          else ((λ t.
                  if t.1.header_sent
                  then (t, ok tt)
                  else (set_res_consume_listener dev_null
                        >> (λ u.
                            if is_zombie u.1.state || is_aborted u.1.state
                            then (u, ok tt)
                            else ignore_io_error (to_state chk aborted) (peer.send_error u))
                        >> mark_sent)
                      t)
                >> end_res_content chk)
              s

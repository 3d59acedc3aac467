-- ===== src/Tour/Request.antt =====
-- bayserver_core/tour/tour_req.py: the content of a request on its way to the content handler. The
-- tour and the world behind the handler are the state of the methods, so that a handler may call the
-- tour again, and may leave it as it likes. HttpException is `http_error`.
pub mod Content
use bay_server_python.Prelude.{
  ℕ, ◌+◌, Bytes, length, ltb, ◌==◌, if◌then◌else◌, Bool, true, false, not, Option, none, some,
}
use bay_server_python.Prelude.Results.{Result, ok, err, sink, protocol_error, http_error}
use bay_server_python.Prelude.Acts.{Act, and_then, ◌>>=◌, ◌>>◌, give, raise, change}
use bay_server_python.Tour.Flow.{Flow, after_post, add_posted, consume}
use bay_server_python.Tour.State.{
  Tour, TourState, aborted, preparing, reading, is_reading, is_preparing, check_tour_id,
  change_state,
}

-- ReqContentHandler: `on_read_req_content`, `on_end_req_content` and `on_abort_req`.
pub record Handler (W : Type 0) : Type 0 where
  pub on_read : Bytes → Act (W × Tour) (Unit {0})
  pub on_end : Act (W × Tour) (Unit {0})
  pub on_abort : Act (W × Tour) Bool

abbrev pub M : Type 0 → Type 0 → Type 0
M W A = Act (W × Tour) A

abbrev pub on_req : (Flow → Flow) → Tour → Tour
on_req f t = record t { req = f t.req }

module _ {W : Type 0} where
  abbrev pub update : (Tour → Tour) → M W (Unit {0})
  update f = change (λ s. (s.0, f s.1))

  abbrev pub check_id : Option ℕ → M W (Unit {0})
  check_id chk s = (s, check_tour_id chk s.1)

  abbrev pub to_state : Option ℕ → TourState → M W (Unit {0})
  to_state chk st (w, t) = elim (change_state chk st t) [
    | ok u ↦ ((w, u), ok tt)
    | err e ↦ ((w, t), err e)
  ]

  -- `set_limit`; a negative limit is refused by the source.
  unfoldable pub set_limit : ℕ → M W (Unit {0})
  set_limit limit =
      update (on_req (λ f. record f { limit = limit; posted = 0; consumed = 0; available = true }))

  -- The branches of `post_req_content`, and whether the data was passed on.
  abbrev pub pass_data : Handler W → Bytes → M W Bool
  pass_data h data' (w, t) =
      if t.error
      then ((w, t), ok false)
      else if not (is_reading t.state)
      then ((w, t), err http_error)
      else if not t.has_handler
      then ((w, t), ok false)
      else if ltb t.req.limit (t.req.posted + length data')
      then ((w, t), err http_error)
      else (h.on_read data' >> give true) (w, t)

  -- What follows the branches: the answer is whether more may be posted.
  abbrev pub account : ℕ → ℕ → Bool → M W Bool
  account size n true =
      update (on_req (λ f. after_post size (add_posted size n f))) >> λ s. (s, ok s.1.req.available)
  account size n false = update (on_req (add_posted size n)) >> give true

  unfoldable pub post_req_content : ℕ → Handler W → Option ℕ → Bytes → M W Bool
  post_req_content size h chk data' = do
    check_id chk
    passed ← pass_data h data'
    account size (length data') passed

  abbrev end_handler : Handler W → M W (Unit {0})
  end_handler h s = if s.1.has_handler then h.on_end s else (s, ok tt)

  unfoldable pub end_content : Handler W → Option ℕ → M W (Unit {0})
  end_content h chk = do
    check_id chk
    λ s. (s, if s.1.req_ended then err sink else ok tt)
    λ s. (s, if not (s.1.req.posted == s.1.req.limit) then err protocol_error else ok tt)
    end_handler h
    update (λ t. record t { req_ended = true })

  -- `consumed`, with the listener `lis`, which is given the length and whether to resume.
  unfoldable pub consumed : ℕ → (ℕ → Bool → M W (Unit {0})) → Option ℕ → ℕ → M W (Unit {0})
  unfolding consume
  consumed size lis chk n = do
    check_id chk
    λ s.
        let (flow, resume) = consume size n s.1.req in
        lis n resume (s.0, record (s.1) { req = flow })

  abbrev abort_if : Option ℕ → Bool → M W Bool
  abort_if id true = to_state id aborted >> give true
  abort_if id false = give false

  -- The branches of `abort`.
  abbrev abort_in : Handler W → TourState → M W Bool
  abort_in h preparing s = (to_state (some s.1.tour_id) aborted >> give true) s
  abort_in h reading s =
      ((λ t. if t.1.has_handler then h.on_abort t else (t, ok true)) >>= λ agreed t.
      abort_if (some t.1.tour_id) agreed t)
        s
  abort_in h _ s = (s, ok false)

  unfoldable pub abort : Handler W → M W Bool
  abort h s = abort_in h s.1.state s

  -- `set_content_handler` of a handler that is not None.
  unfoldable pub set_content_handler : M W (Unit {0})
  set_content_handler s =
      if s.1.has_handler then (s, err sink) else ((s.0, record (s.1) { has_handler = true }), ok tt)

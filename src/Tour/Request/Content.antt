-- ===== src/Tour/Request/Content.antt =====
-- The content of a request as its handler gets it: all of it, once, and only with the length that was
-- announced.
use bay_server_python.Prelude.{
  ℕ, ◌+◌, ◌≤◌, ◌<◌, ◌≡◌, ◌≢◌, refl, sym, ap, ◌∙◌, Bytes, List, [], ◌∷◌, ◌++◌, length, length-append,
  append_assoc, append-nil, ltb, ◌==◌, if◌then◌else◌, Bool, true, false, not, none, Bool-cases, inl,
  inr, arith, lt→ltb, le→ltb,
}
use bay_server_python.Prelude.Results.{ok, err, protocol_error, http_error}
use bay_server_python.Prelude.Acts.{and_then, ◌>>=◌, ◌>>◌, give}
use bay_server_python.Tour.Flow.{Flow, after_post, add_posted}
use bay_server_python.Tour.State.{Tour, reading, is_reading, check_tour_id}
use bay_server_python.Tour.Request.{M, Handler, post_req_content, end_content, pass_data, account}

-- A handler may change the tour, but not these fields, which TourReq owns.
pub record Keeps (t u : Tour) : Type 0 where
  pub state : u.state ≡ t.state
  pub error : u.error ≡ t.error
  pub has_handler : u.has_handler ≡ t.has_handler
  pub ended : u.req_ended ≡ t.req_ended
  pub posted : u.req.posted ≡ t.req.posted
  pub limit : u.req.limit ≡ t.req.limit

-- A handler that takes what it is given: `got` is what it has got.
pub record IsListener {W : Type 0} (h : Handler W) (got : W → Bytes) : Type 0 where
  pub takes :
      (d : Bytes) (s : W × Tour)
      → (s' : W × Tour) × (h.on_read d s ≡ (s', ok tt)) × (got s'.0 ≡ got s.0 ++ d) × Keeps s.1 s'.1
  pub ends : (s : W × Tour) → (s' : W × Tour) × (h.on_end s ≡ (s', ok tt)) × (got s'.0 ≡ got s.0)

-- The tour is reading its content, for a handler.
pub record IsOpen (t : Tour) : Type 0 where
  pub state : t.state ≡ reading
  pub error : t.error ≡ false
  pub has_handler : t.has_handler ≡ true
  pub ended : t.req_ended ≡ false

Keeps-IsOpen : {t u : Tour} → Keeps t u → IsOpen t → IsOpen u
Keeps-IsOpen k o = record {
  state = k.state ∙ o.state;
  error = k.error ∙ o.error;
  has_handler = k.has_handler ∙ o.has_handler;
  ended = k.ended ∙ o.ended;
}

counts :
    (size n : ℕ) (f : Flow)
    → ((after_post size (add_posted size n f)).posted ≡ f.posted + n)
      × ((after_post size (add_posted size n f)).limit ≡ f.limit)
unfolding after_post
counts size n f = ground arith

-- The fourth branch of a chain of conditions.
fourth :
    {A : Type 0} {p q r t : Bool} (a b c d : A) {e : A}
    → p ≡ false
    → q ≡ false
    → r ≡ false
    → t ≡ false
    → (if p then a else if q then b else if r then c else if t then d else e) ≡ e
fourth a b c d hp hq hr ht = rw (hp, hq, hr, ht) refl

unfoldable pub concat : List Bytes → Bytes
concat [] = []
concat (d ∷ ds) = d ++ concat ds

module _ {W : Type 0} (size : ℕ) (h : Handler W) where
  -- A caller that posts one piece after the other, and then ends the content.
  abbrev pub post_all : List Bytes → M W (Unit {0})
  post_all [] = give tt
  post_all (d ∷ ds) = post_req_content size h none d >>= λ _. post_all ds

  abbrev pub send_content : List Bytes → M W (Unit {0})
  send_content ds = post_all ds >> end_content h none

  module _ (got : W → Bytes) (listener : IsListener h got) where
    -- What a piece that fits leaves.
    record Posted (d : Bytes) (s s' : W × Tour) : Type 0 where
      given : got s'.0 ≡ got s.0 ++ d
      open_ : IsOpen s'.1
      posted : s'.1.req.posted ≡ s.1.req.posted + length d
      limit : s'.1.req.limit ≡ s.1.req.limit

    post-fits :
        (d : Bytes) (s : W × Tour)
        → IsOpen s.1
        → s.1.req.posted + length d ≤ s.1.req.limit
        → (s' : W × Tour) × (b : Bool) × (post_req_content size h none d s ≡ (s', ok b))
          × Posted d s s'
    unfolding post_req_content check_tour_id
    post-fits d s o fits =
        let (s', taken, given, keeps) = listener.takes d s in
        let inside : ltb s.1.req.limit (s.1.req.posted + length d) ≡ false = le→ltb _ _ fits in
        let flow = after_post size (add_posted size (length d) s'.1.req) in
        let (posted, limit) = counts size (length d) s'.1.req in
        let passed : pass_data h d s ≡ (s', ok true) =
          fourth _ _ _ _ o.error (ap (λ x. not (is_reading x)) o.state) (ap not o.has_handler)
            inside
          ∙ ap (λ r. and_then r (λ _. give true)) taken in
        (
          (s'.0, record (s'.1) { req = flow }),
          flow.available,
          ap (λ r. and_then r (account size (length d))) passed,
          record {
            given = given;
            open_ = record {
              state = keeps.state ∙ o.state;
              error = keeps.error ∙ o.error;
              has_handler = keeps.has_handler ∙ o.has_handler;
              ended = keeps.ended ∙ o.ended;
            };
            posted = posted ∙ ap (λ n. n + length d) keeps.posted;
            limit = limit ∙ keeps.limit;
          },
        )

    -- What pieces that fit leave, before the content is ended.
    record PostedAll (ds : List Bytes) (s s' : W × Tour) : Type 0 where
      succeeds : post_all ds s ≡ (s', ok tt)
      given : got s'.0 ≡ got s.0 ++ concat ds
      open_ : IsOpen s'.1
      posted : s'.1.req.posted ≡ s.1.req.posted + length (concat ds)
      limit : s'.1.req.limit ≡ s.1.req.limit

    post_all-fits :
        (ds : List Bytes) (s : W × Tour)
        → IsOpen s.1
        → s.1.req.posted + length (concat ds) ≤ s.1.req.limit
        → (s' : W × Tour) × PostedAll ds s s'
    unfolding concat
    post_all-fits [] s o fits = (
      s,
      record {
        succeeds = refl;
        given = sym (append-nil (got s.0));
        open_ = o;
        posted = omega arith;
        limit = refl;
      },
    )
    post_all-fits (d ∷ ds) s o fits =
        let long = length-append d (concat ds) in
        let (t, b, posts, p) = post-fits d s o (omega (arith, fits, long)) in
        let (s', q) = post_all-fits ds t p.open_ (omega (arith, fits, long, p.posted, p.limit)) in
        (
          s',
          record {
            succeeds = ap (λ r. and_then r (λ _. post_all ds)) posts ∙ q.succeeds;
            given =
                q.given ∙ ap (λ g. g ++ concat ds) p.given ∙ append_assoc (got s.0) d (concat ds);
            open_ = q.open_;
            posted = omega (arith, q.posted, p.posted, long);
            limit = q.limit ∙ p.limit;
          },
        )

    -- For a tour that reads its content for a handler that takes it, and of which nothing was posted
    -- before: posted in pieces of any size whose lengths add up to the length that was announced, the
    -- content is accepted, the handler gets exactly its bytes in their order, and the content is marked
    -- as ended.
    pub content-delivered :
        (ds : List Bytes) (s : W × Tour)
        → IsOpen s.1
        → s.1.req.posted ≡ 0
        → length (concat ds) ≡ s.1.req.limit
        → (s' : W × Tour) × (send_content ds s ≡ (s', ok tt))
          × (got s'.0 ≡ got s.0 ++ concat ds)
          × (s'.1.req_ended ≡ true)
    unfolding end_content check_tour_id
    content-delivered ds s o start all =
        let (t, q) = post_all-fits ds s o (omega (arith, start, all)) in
        let (u, ends, kept) = listener.ends t in
        let whole : (t.1.req.posted == t.1.req.limit) ≡ true =
          ground (arith, q.posted, q.limit, start, all) in
        (
          (u.0, record (u.1) { req_ended = true }),
          rw (q.succeeds, q.open_.ended, whole, q.open_.has_handler, ends) refl,
          kept ∙ q.given,
          refl,
        )

    post-exceeds :
        (d : Bytes) (s : W × Tour)
        → IsOpen s.1
        → s.1.req.limit < s.1.req.posted + length d
        → post_req_content size h none d s ≡ (s, err http_error)
    unfolding post_req_content check_tour_id
    post-exceeds d s o over =
        let outside : ltb s.1.req.limit (s.1.req.posted + length d) ≡ true = lt→ltb _ _ over in
        simp (o.error, o.state, o.has_handler, outside)

    post_all-exceeds :
        (ds : List Bytes) (s : W × Tour)
        → IsOpen s.1
        → s.1.req.posted ≤ s.1.req.limit
        → s.1.req.limit < s.1.req.posted + length (concat ds)
        → (s' : W × Tour) × (post_all ds s ≡ (s', err http_error))
    unfolding concat
    post_all-exceeds [] s o fits over = absurd (omega (arith, fits, over))
    post_all-exceeds (d ∷ ds) s o fits over =
        let long = length-append d (concat ds) in
        elim (Bool-cases (ltb s.1.req.limit (s.1.req.posted + length d))) [
          | inl outside ↦
              let posts = post-exceeds d s o (ground (arith, outside)) in
              (s, ap (λ r. and_then r (λ _. post_all ds)) posts)
          | inr inside ↦
              let fits' : s.1.req.posted + length d ≤ s.1.req.limit = ground (arith, inside) in
              let (t, b, posts, p) = post-fits d s o fits' in
              let (s', refused) =
                post_all-exceeds ds t p.open_ (omega (arith, fits', p.posted, p.limit))
                  (omega (arith, over, long, p.posted, p.limit)) in
              (s', ap (λ r. and_then r (λ _. post_all ds)) posts ∙ refused)
        ]

    -- For such a tour, of which nothing was posted before, a content whose length is not the one that was
    -- announced is refused: a longer one when the piece comes that exceeds the limit (HttpException), a
    -- shorter one at its end (ProtocolException).
    pub content-refused :
        (ds : List Bytes) (s : W × Tour)
        → IsOpen s.1
        → s.1.req.posted ≡ 0
        → length (concat ds) ≢ s.1.req.limit
        → (s' : W × Tour) × (send_content ds s ≡ (
          s',
          err (if ltb (length (concat ds)) s.1.req.limit then protocol_error else http_error),
        ))
    unfolding end_content check_tour_id
    content-refused ds s o start differs =
        elim (Bool-cases (ltb (length (concat ds)) s.1.req.limit)) [
          | inl short ↦
              let less : length (concat ds) < s.1.req.limit = ground (arith, short) in
              let (t, q) = post_all-fits ds s o (omega (arith, start, less)) in
              let part : (t.1.req.posted == t.1.req.limit) ≡ false =
                ground (arith, q.posted, q.limit, start, less) in
              (t, rw (short, q.succeeds, q.open_.ended, part) refl)
          | inr long ↦
              let more : s.1.req.limit < length (concat ds) = ground (arith, long, differs) in
              let (t, refused) =
                post_all-exceeds ds s o (omega (arith, start)) (omega (arith, start, more)) in
              (t, rw (long, refused) refl)
        ]

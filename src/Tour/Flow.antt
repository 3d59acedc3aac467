-- ===== src/Tour/Flow.antt =====
-- The flow control that TourReq (bayserver_core/tour/tour_req.py) and TourRes (tour_res.py) share: the
-- counters of the bytes that were posted and consumed, and whether more may be posted.
pub mod Balance
use bay_server_python.Prelude.{ℕ, ◌+◌, ltb, if◌then◌else◌, Bool, true, false, not, ◌&&◌}

pub record Flow : Type 0 where
  pub posted : ℕ
  pub consumed : ℕ
  pub limit : ℕ
  pub available : Bool

abbrev pub fresh : Flow
fresh = record { posted = 0; consumed = 0; limit = 0; available = false }

-- The size is `harbor.tour_buffer_size()`.
module _ (size : ℕ) where
  -- `bytes_posted - bytes_consumed < tour_buffer_size()`; the difference may be negative.
  unfoldable pub buffer_available : Flow → Bool
  buffer_available f = ltb f.posted (size + f.consumed)

  abbrev pub add_posted : ℕ → Flow → Flow
  add_posted n f = record f { posted = f.posted + n }

  -- What follows the data that was passed on.
  unfoldable pub after_post : Flow → Flow
  unfolding buffer_available
  after_post f = if not (buffer_available f) then record f { available = false } else f

  abbrev settle : Flow → Flow
  settle f = if buffer_available f then record f { available = true } else f

  -- `consumed`: the counters, and whether the listener is told to resume.
  unfoldable pub consume : ℕ → Flow → Flow × Bool
  unfolding buffer_available
  consume n f =
      let g = settle (record f { consumed = f.consumed + n }) in (g, not f.available && g.available)

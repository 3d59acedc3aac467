-- ===== src/Tour/Flow/Balance.antt =====
-- A flow is available exactly while the bytes on their way fill less than the buffer.
use mathlib.Core.Path.{subst}
use bay_server_python.Prelude.{
  ℕ, ◌+◌, ◌≤◌, ◌<◌, ◌≡◌, refl, sym, ◌∙◌, List, [], ◌∷◌, Bool, true, false, not, ◌&&◌, Bool-cases,
  inl, inr, ltb, if◌then◌else◌, arith,
}
use bay_server_python.Tour.Flow.{Flow, buffer_available, add_posted, after_post, consume}

-- The flag says what the counters say.
pub record IsBalanced (size : ℕ) (f : Flow) : Type 0 where
  pub exact : f.available ≡ ltb f.posted (size + f.consumed)

-- What happens to a flow: data is posted, and passed on to the receiver or not, as for a request of a tour
-- that has an error or no handler; or the receiver has consumed some.
pub data Event : Type 0 where
  post : ℕ → Bool → Event
  consumes : ℕ → Event

abbrev pub step : ℕ → Event → Flow → Flow
step size (post n true) f = after_post size (add_posted size n f)
step size (post n false) f = add_posted size n f
step size (consumes n) f = (consume size n f).0

pub run : ℕ → List Event → Flow → Flow
run size [] f = f
run size (e ∷ es) f = run size es (step size e f)

abbrev pub is_passed_on : Event → Bool
is_passed_on (post n passed) = passed
is_passed_on (consumes n) = true

abbrev pub all_passed_on : List Event → Bool
all_passed_on [] = true
all_passed_on (e ∷ es) = is_passed_on e && all_passed_on es

step-IsBalanced :
    (size : ℕ) (e : Event) (f : Flow)
    → is_passed_on e ≡ true
    → IsBalanced size f
    → IsBalanced size (step size e f)
unfolding after_post consume
step-IsBalanced size (post n true) f p h = ground (arith, h.exact)
step-IsBalanced size (post n false) f p h = absurd (cc p)
step-IsBalanced size (consumes n) f p h = ground (arith, h.exact)

run-IsBalanced :
    (size : ℕ) (es : List Event) (f : Flow)
    → all_passed_on es ≡ true
    → IsBalanced size f
    → IsBalanced size (run size es f)
unfolding run
run-IsBalanced size [] f p h = h
run-IsBalanced size (e ∷ es) f p h =
    run-IsBalanced size es (step size e f) (ground (arith, p))
      (step-IsBalanced size e f (ground (arith, p)) h)

-- The poster may post while less than the buffer's size is on its way.
pub record NeverStalls (size : ℕ) (f : Flow) : Type 0 where
  pub open_ : (ltb f.posted (size + f.consumed) && not f.available) ≡ false

step-NeverStalls :
    (size : ℕ) (e : Event) (f : Flow) → NeverStalls size f → NeverStalls size (step size e f)
unfolding after_post consume
step-NeverStalls size (post n true) f h = ground (arith, h.open_)
step-NeverStalls size (post n false) f h = ground (arith, h.open_)
step-NeverStalls size (consumes n) f h = ground (arith, h.open_)

run-NeverStalls :
    (size : ℕ) (es : List Event) (f : Flow) → NeverStalls size f → NeverStalls size (run size es f)
unfolding run
run-NeverStalls size [] f h = h
run-NeverStalls size (e ∷ es) f h =
    run-NeverStalls size es (step size e f) (step-NeverStalls size e f h)

-- What the flag is worth: exact where all data was passed on, and otherwise never wrong about a buffer that
-- has room.
abbrev pub Tells : Bool → ℕ → Flow → Type 0
Tells true size f = IsBalanced size f
Tells false size f = NeverStalls size f

-- Data is posted and consumed in any order, from a flow whose flag said exactly whether less than the
-- buffer's size is on its way. Where all data was passed on, the flag still says exactly that. Where some
-- was only read, for a tour with an error or no handler, the flag still allows to post whenever less than
-- the buffer's size is on its way.
pub run-Tells :
    (size : ℕ) (es : List Event) (f : Flow)
    → IsBalanced size f
    → Tells (all_passed_on es) size (run size es f)
run-Tells size es f h = elim (Bool-cases (all_passed_on es)) [
  | inl e ↦ subst (λ b. Tells b size (run size es f)) (sym e) (run-IsBalanced size es f e h)
  | inr e ↦
      subst (λ b. Tells b size (run size es f)) (sym e)
        (run-NeverStalls size es f (ground (arith, h.exact)))
]

-- How often the listener is told to resume while the receiver consumes.
unfoldable pub resumes : ℕ → List ℕ → Flow → ℕ
resumes size [] f = 0
resumes size (n ∷ ns) f =
    (if (consume size n f).1 then 1 else 0) + resumes size ns (consume size n f).0

unfoldable pub sum : List ℕ → ℕ
sum [] = 0
sum (n ∷ ns) = n + sum ns

consume-available :
    (size n : ℕ) (f : Flow)
    → f.available ≡ true
    → ((consume size n f).1 ≡ false) × ((consume size n f).0.available ≡ true)
unfolding consume
consume-available size n f h = ground (arith, h)

-- Where the flow has stopped, the listener is told to resume where the buffer has room again.
consume-stopped :
    (size n : ℕ) (f : Flow)
    → f.available ≡ false
    → ((consume size n f).1 ≡ buffer_available size (record f { consumed = f.consumed + n }))
      × ((consume size n f).0.available ≡ (consume size n f).1)
      × ((consume size n f).0.posted ≡ f.posted)
      × ((consume size n f).0.consumed ≡ f.consumed + n)
unfolding consume
consume-stopped size n f h = ground (arith, h)

resumes-available : (size : ℕ) (ns : List ℕ) (f : Flow) → f.available ≡ true → resumes size ns f ≡ 0
unfolding resumes
resumes-available size [] f h = refl
resumes-available size (n ∷ ns) f h =
    let (quiet, still) = consume-available size n f h in
    rw quiet (omega (arith, resumes-available size ns (consume size n f).0 still))

-- With a buffer that is not empty, a flow that has stopped, and whose flag says what its counters say, is
-- resumed exactly once while the receiver consumes at least what is on its way, in pieces of any size.
pub resumes_once :
    (size : ℕ) (ns : List ℕ) (f : Flow)
    → 0 < size
    → IsBalanced size f
    → f.available ≡ false
    → f.posted ≤ f.consumed + sum ns
    → resumes size ns f ≡ 1
unfolding resumes sum
resumes_once size [] f p b stopped h = absurd (ground (arith, b.exact, stopped))
resumes_once size (n ∷ ns) f p b stopped h =
    let g = (consume size n f).0 in
    let (tells, flag, same, more) = consume-stopped size n f stopped in
    elim (Bool-cases (consume size n f).1) [
      | inl now ↦ rw now (omega (arith, resumes-available size ns g (flag ∙ now)))
      | inr later ↦ rw later (
          omega (
            arith,
            resumes_once size ns g p (step-IsBalanced size (consumes n) f refl b) (flag ∙ later)
                (omega (arith, same, more, h)),
          ))
    ]

-- The flow behind a receiver that consumes piece after piece.
unfoldable pub drain : ℕ → List ℕ → Flow → Flow
drain size [] f = f
drain size (n ∷ ns) f = drain size ns (consume size n f).0

consume-counts :
    (size n : ℕ) (f : Flow)
    → ((consume size n f).0.posted ≡ f.posted) × ((consume size n f).0.consumed ≡ f.consumed + n)
unfolding consume
consume-counts size n f = ground arith

pub drain-available :
    (size : ℕ) (ns : List ℕ) (f : Flow)
    → 0 < size
    → IsBalanced size f
    → f.posted ≤ f.consumed + sum ns
    → (drain size ns f).available ≡ true
unfolding drain sum
drain-available size [] f p b h = ground (arith, b.exact)
drain-available size (n ∷ ns) f p b h =
    let (same, more) = consume-counts size n f in
    drain-available size ns (consume size n f).0 p (step-IsBalanced size (consumes n) f refl b)
      (omega (arith, same, more, h))

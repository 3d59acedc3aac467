-- ===== src/Protocol/Pump.antt =====
-- The loop that every packet unpacker runs over the bytes it receives: as long as bytes are left, a
-- step takes some of them. What an unpacker makes of a stream does not depend on how the stream is
-- cut into pieces, if its step has the laws of `IsChunked`.
use mathlib.Core.Path.{subst}
use bay_server_python.Prelude.{
  ℕ, zero, suc, ◌<◌, ◌≡◌, ◌≢◌, refl, sym, ap, ◌∙◌, [], ◌∷◌, ◌++◌, append-nil, ◌⊎◌, inl, inr, arith,
  Bytes,
}

-- A step goes on with a state and the bytes that it has not taken, or it ends the loop.
pub data Next (S O : Type 0) : Type 0 where
  go : S → Bytes → Next S O
  stop : O → Next S O

-- The loop is through with its bytes, or was ended, or has used up its fuel.
pub data Run (S O : Type 0) : Type 0 where
  done : S → Run S O
  stopped : O → Run S O
  stuck : Run S O

abbrev pub extend : {S O : Type 0} → Bytes → Next S O → Next S O
extend b (go s r) = go s (r ++ b)
extend b (stop o) = stop o

-- To go on with a second piece where the loop is through with the first.
abbrev pub then_run : {S O : Type 0} → Run S O → (S → Run S O) → Run S O
then_run (done s) f = f s
then_run (stopped o) f = stopped o
then_run stuck f = stuck

unfoldable pub pump : {S O : Type 0} → ℕ → (S → Bytes → Next S O) → S → Bytes → Run S O
pump zero step s r = stuck
pump (suc f) step s [] = done s
pump (suc f) step s (x ∷ r) = elim (step s (x ∷ r)) [
  | go s' r' ↦ pump f step s' r'
  | stop o ↦ stopped o
]

pub Next-cases :
    {S O : Type 0} (n : Next S O)
    → ((s : S) × (r : Bytes) × (n ≡ go s r)) ⊎ ((o : O) × (n ≡ stop o))
Next-cases (go s r) = inl (s, r, refl)
Next-cases (stop o) = inr (o, refl)

-- The step in a valid state either does not see what follows the piece, or takes the whole piece and
-- then acts on what follows as it would have acted on both. A measure of the work falls.
pub record IsChunked {S O : Type 0} (step : S → Bytes → Next S O) : Type 1 where
  pub Valid : S → Type 0
  pub work : S → Bytes → ℕ
  pub keeps :
      (s : S) (r : Bytes) (s' : S) (r' : Bytes) → Valid s → r ≢ [] → step s r ≡ go s' r' → Valid s'
  pub falls :
      (s : S) (r : Bytes) (s' : S) (r' : Bytes)
      → Valid s
      → r ≢ []
      → step s r ≡ go s' r'
      → work s' r' < work s r
  pub splits :
      (s : S) (a b : Bytes)
      → Valid s
      → a ≢ []
      → (step s (a ++ b) ≡ extend b (step s a))
        ⊎ ((s' : S) × (step s a ≡ go s' []) × (b ≢ [] → step s (a ++ b) ≡ step s' b))

module _ {S O : Type 0} (step : S → Bytes → Next S O) (c : IsChunked step) where
  open c use {Valid, work, keeps, falls, splits}

  pump-go :
      (f : ℕ) (s : S) (r : Bytes) {s' : S} {r' : Bytes}
      → r ≢ []
      → step s r ≡ go s' r'
      → pump (suc f) step s r ≡ pump f step s' r'
  unfolding pump
  pump-go f s [] h e = absurd (h refl)
  pump-go f s (x ∷ r) h e = rw (e, pump)

  pump-stop :
      (f : ℕ) (s : S) (r : Bytes) {o : O}
      → r ≢ []
      → step s r ≡ stop o
      → pump (suc f) step s r ≡ stopped o
  unfolding pump
  pump-stop f s [] h e = absurd (h refl)
  pump-stop f s (x ∷ r) h e = rw (e, pump)

  -- With more fuel than work the loop ends, and more fuel changes nothing.
  pump-ne-stuck : (f : ℕ) (s : S) (r : Bytes) → Valid s → work s r < f → pump f step s r ≢ stuck
  pump-ne-stuck zero s r v h = absurd (omega arith)
  pump-ne-stuck (suc f) s [] v h = unfold pump in λ e. cc
  pump-ne-stuck (suc f) s (x ∷ r) v h = elim (Next-cases (step s (x ∷ r))) [
    | inl (s', r', e) ↦ rw (pump-go f s (x ∷ r) (λ p. cc) e) (
        pump-ne-stuck f s' r' (keeps s (x ∷ r) s' r' v (λ p. cc) e)
          (omega (arith, falls s (x ∷ r) s' r' v (λ p. cc) e)))
    | inr (o, e) ↦ rw (pump-stop f s (x ∷ r) (λ p. cc) e) (λ p. cc)
  ]

  pump_fuel :
      (f g : ℕ) (s : S) (r : Bytes)
      → Valid s
      → work s r < f
      → work s r < g
      → pump f step s r ≡ pump g step s r
  pump_fuel zero g s r v h k = absurd (omega arith)
  pump_fuel (suc f) zero s r v h k = absurd (omega arith)
  pump_fuel (suc f) (suc g) s [] v h k = unfold pump in refl
  pump_fuel (suc f) (suc g) s (x ∷ r) v h k = elim (Next-cases (step s (x ∷ r))) [
    | inl (s', r', e) ↦
        rw (pump-go f s (x ∷ r) (λ p. cc) e, pump-go g s (x ∷ r) (λ p. cc) e)
          (pump_fuel f g s' r' (keeps s (x ∷ r) s' r' v (λ p. cc) e)
            (omega (arith, falls s (x ∷ r) s' r' v (λ p. cc) e))
            (omega (arith, falls s (x ∷ r) s' r' v (λ p. cc) e)))
    | inr (o, e) ↦ rw (pump-stop f s (x ∷ r) (λ p. cc) e, pump-stop g s (x ∷ r) (λ p. cc) e)
  ]

  -- The loop with one round more than the work.
  abbrev run : S → Bytes → Run S O
  run s r = pump (suc (work s r)) step s r

  run-go :
      (s : S) (r : Bytes) (s' : S) (r' : Bytes)
      → Valid s
      → r ≢ []
      → step s r ≡ go s' r'
      → run s r ≡ run s' r'
  run-go s r s' r' v h e =
      pump-go (work s r) s r h e
      ∙ pump_fuel (work s r) (suc (work s' r')) s' r' (keeps s r s' r' v h e)
          (falls s r s' r' v h e) (omega arith)

  run-nil : (s : S) → run s [] ≡ done s
  unfolding pump
  run-nil s = refl

  -- Two states in which the next step is the same.
  run-same :
      (s t : S) (r q : Bytes)
      → Valid s
      → Valid t
      → r ≢ []
      → q ≢ []
      → step s r ≡ step t q
      → run s r ≡ run t q
  run-same s t r q v w h k e = elim (Next-cases (step t q)) [
    | inl (s', r', f) ↦ run-go s r s' r' v h (e ∙ f) ∙ sym (run-go t q s' r' w k f)
    | inr (o, f) ↦ pump-stop (work s r) s r h (e ∙ f) ∙ sym (pump-stop (work t q) t q k f)
  ]

  -- The first piece was taken whole, before its end was reached.
  run-whole :
      (s t : S) (a b : Bytes)
      → Valid s
      → a ≢ []
      → step s a ≡ go t []
      → (b ≢ [] → step s (a ++ b) ≡ step t b)
      → run s (a ++ b) ≡ run t b
  run-whole s t a [] v h e same = rw (append-nil a) (run-go s a t [] v h e)
  run-whole s t [] (y ∷ b) v h e same = absurd (h refl)
  run-whole s t (x ∷ a) (y ∷ b) v h e same =
      run-same s t (x ∷ a ++ y ∷ b) (y ∷ b) v (keeps s (x ∷ a) t [] v h e) (λ p. cc) (λ p. cc)
        (same (λ p. cc))

  -- Two pieces at once are the one after the other.
  run-append_within :
      (n : ℕ) (s : S) (a b : Bytes)
      → Valid s
      → work s a < n
      → run s (a ++ b) ≡ then_run (run s a) (λ s'. run s' b)
  run-append_within zero s a b v h = absurd (omega arith)
  run-append_within (suc n) s [] b v h = unfold pump in refl
  run-append_within (suc n) s (x ∷ a) b v h = elim (splits s (x ∷ a) b v (λ p. cc)) [
    | inl e ↦ elim (Next-cases (step s (x ∷ a))) [
      | inl (s', r', k) ↦ rw (run-go s (x ∷ a) s' r' v (λ p. cc) k) (
          run-go s (x ∷ a ++ b) s' (r' ++ b) v (λ p. cc) (e ∙ ap (extend b) k)
          ∙ run-append_within n s' r' b (keeps s (x ∷ a) s' r' v (λ p. cc) k)
              (omega (arith, falls s (x ∷ a) s' r' v (λ p. cc) k)))
      | inr (o, k) ↦
          rw (pump-stop (work s (x ∷ a)) s (x ∷ a) (λ p. cc) k)
            (pump-stop (work s (x ∷ a ++ b)) s (x ∷ a ++ b) (λ p. cc) (e ∙ ap (extend b) k))
    ]
    | inr (s', k, same) ↦
        rw (run-go s (x ∷ a) s' [] v (λ p. cc) k, run-nil s')
          (run-whole s s' (x ∷ a) b v (λ p. cc) k same)
  ]

  run-Valid_within :
      (n : ℕ) (s : S) (r : Bytes) (t : S) → Valid s → work s r < n → run s r ≡ done t → Valid t
  run-Valid_within zero s r t v h e = absurd (omega arith)
  run-Valid_within (suc n) s [] t v h e = let same : s ≡ t = unfold pump in cc in subst Valid same v
  run-Valid_within (suc n) s (x ∷ r) t v h e = elim (Next-cases (step s (x ∷ r))) [
    | inl (s', r', k) ↦
        run-Valid_within n s' r' t (keeps s (x ∷ r) s' r' v (λ p. cc) k)
          (omega (arith, falls s (x ∷ r) s' r' v (λ p. cc) k))
          (sym (run-go s (x ∷ r) s' r' v (λ p. cc) k) ∙ e)
    | inr (o, k) ↦ absurd (cc (pump-stop (work s (x ∷ r)) s (x ∷ r) (λ p. cc) k))
  ]

  -- What holds of each outcome that ends a step holds of the one that ends the loop.
  pub pump-stopped :
      (P : O → Type 0)
      → ((s : S) (r : Bytes) (o : O) → step s r ≡ stop o → P o)
      → (f : ℕ) (s : S) (r : Bytes) (o : O) → pump f step s r ≡ stopped o
      → P o
  pump-stopped P all zero s r o e = absurd (unfold pump in cc e)
  pump-stopped P all (suc f) s [] o e = absurd (unfold pump in cc e)
  pump-stopped P all (suc f) s (x ∷ r) o e = elim (Next-cases (step s (x ∷ r))) [
    | inl (s', r', k) ↦ pump-stopped P all f s' r' o (sym (pump-go f s (x ∷ r) (λ p. cc) k) ∙ e)
    | inr (o', k) ↦
        let same : o' ≡ o = cc (pump-stop f s (x ∷ r) (λ p. cc) k) in
        subst P same (all s (x ∷ r) o' k)
  ]

  -- With fuel that covers the work: the loop ends, keeps the state valid, and does not depend on how
  -- the bytes are cut.
  module _ (fuel : Bytes → ℕ) (fits : (s : S) (r : Bytes) → Valid s → work s r < fuel r) where
    pub pump_ends : (s : S) (r : Bytes) → Valid s → pump (fuel r) step s r ≢ stuck
    pump_ends s r v = pump-ne-stuck (fuel r) s r v (fits s r v)

    pub pump-Valid :
        (s : S) (r : Bytes) (t : S) → Valid s → pump (fuel r) step s r ≡ done t → Valid t
    pump-Valid s r t v e =
        run-Valid_within (suc (work s r)) s r t v (omega arith)
          (pump_fuel (suc (work s r)) (fuel r) s r v (omega arith) (fits s r v) ∙ e)

    then_pump :
        (m : Run S O) (b : Bytes)
        → ((t : S) → m ≡ done t → Valid t)
        → then_run m (λ t. run t b) ≡ then_run m (λ t. pump (fuel b) step t b)
    then_pump (done t) b h =
        pump_fuel (suc (work t b)) (fuel b) t b (h t refl) (omega arith) (fits t b (h t refl))
    then_pump (stopped o) b h = refl
    then_pump stuck b h = refl

    pub pump-append :
        (s : S) (a b : Bytes)
        → Valid s
        → pump (fuel (a ++ b)) step s (a ++ b)
          ≡ then_run (pump (fuel a) step s a) (λ t. pump (fuel b) step t b)
    pump-append s a b v =
        pump_fuel (fuel (a ++ b)) (suc (work s (a ++ b))) s (a ++ b) v (fits s (a ++ b) v)
          (omega arith)
        ∙ run-append_within (suc (work s a)) s a b v (omega arith)
        ∙ ap (λ m. then_run m (λ t. run t b))
            (pump_fuel (suc (work s a)) (fuel a) s a v (omega arith) (fits s a v))
        ∙ then_pump (pump (fuel a) step s a) b (λ t e. pump-Valid s a t v e)

    -- One step of the loop, whatever it gives.
    abbrev pub resume : Next S O → Run S O
    resume (go s r) = pump (fuel r) step s r
    resume (stop o) = stopped o

    pub pump-resume :
        (s : S) (r : Bytes) → Valid s → r ≢ [] → pump (fuel r) step s r ≡ resume (step s r)
    pump-resume s r v h = elim (Next-cases (step s r)) [
      | inl (s', r', e) ↦
          pump_fuel (fuel r) (suc (work s r)) s r v (fits s r v) (omega arith)
          ∙ run-go s r s' r' v h e
          ∙ pump_fuel (suc (work s' r')) (fuel r') s' r' (keeps s r s' r' v h e) (omega arith)
              (fits s' r' (keeps s r s' r' v h e))
          ∙ ap resume (sym e)
      | inr (o, e) ↦
          pump_fuel (fuel r) (suc (work s r)) s r v (fits s r v) (omega arith)
          ∙ pump-stop (work s r) s r h e
          ∙ ap resume (sym e)
    ]

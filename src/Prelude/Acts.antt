-- ===== src/Prelude/Acts.antt =====
-- Methods that change shared objects: a function from the objects' state to the state that it leaves
-- and its answer or exception. What was changed before an exception stays changed.
use mathlib.Core.Path.{◌≡◌, ap}
use bay_server_python.Prelude.Results.{Error, Result, ok, err, io_error}

abbrev pub Act {ℓ} : Type 0 → Type ℓ → Type ℓ
Act S A = S → S × Result A

abbrev pub and_then {ℓ κ} :
    {S : Type 0} {A : Type ℓ} {B : Type κ} → S × Result A → (A → Act S B) → S × Result B
and_then (s, ok a) next = next a s
and_then (s, err e) next = (s, err e)

infixl 5 ◌>>=◌ ◌>>◌
abbrev pub ◌>>=◌ {ℓ κ} : {S : Type 0} {A : Type ℓ} {B : Type κ} → Act S A → (A → Act S B) → Act S B
◌>>=◌ act next s = and_then (act s) next

abbrev pub ◌>>◌ {κ} : {S : Type 0} {B : Type κ} → Act S (Unit {0}) → Act S B → Act S B
act >> next = act >>= λ _. next

abbrev pub give {ℓ} : {S : Type 0} {A : Type ℓ} → A → Act S A
give a s = (s, ok a)

abbrev pub raise {ℓ} : {S : Type 0} {A : Type ℓ} → Error → Act S A
raise e s = (s, err e)

abbrev pub change : {S : Type 0} → (S → S) → Act S (Unit {0})
change f s = (f s, ok tt)

-- What follows an action that has succeeded.
pub and_then-ok :
    {S : Type 0} {A B : Type 0} (next : A → Act S B) {r : S × Result A} {s : S} {a : A}
    → r ≡ (s, ok a)
    → and_then r next ≡ next a s
and_then-ok next e = ap (λ r. and_then r next) e

-- `except IOError as e: undo; raise e`.
abbrev pub on_io_error {ℓ} :
    {S : Type 0} {A : Type ℓ} → Act S (Unit {0}) → S × Result A → S × Result A
on_io_error undo (s, err io_error) = (undo >> raise io_error) s
on_io_error undo r = r

-- `finally`: an exception of the last part takes the place of the first part's answer.
abbrev pub finally {ℓ} : {S : Type 0} {A : Type ℓ} → Act S (Unit {0}) → S × Result A → S × Result A
finally last (s, r) = and_then (last s) (λ _ s'. (s', r))

-- ===== src/Prelude/Results.antt =====
-- Exceptions as values, and the functions that may raise one as a monad.

-- The exception classes that the modelled code raises.
pub data Error : Type 0 where
  io_error sink protocol_error runtime_error index_error value_error parse_error http_error : Error
  -- No exception of the source: a loop of the model has used up its fuel.
  out_of_fuel : Error

-- What a function that may raise gives back: its value, or the exception.
pub data Result {ℓ} (A : Type ℓ) : Type ℓ where
  ok : A → Result A
  err : Error → Result A

-- An exception passes through.
infixl 5 ◌>>=◌
abbrev pub ◌>>=◌ {ℓ κ} : {A : Type ℓ} {B : Type κ} → Result A → (A → Result B) → Result B
r >>= next = elim r [ err exception ↦ err exception | ok value ↦ next value ]

-- ===== src/Errors.antt =====
-- include/errors.h, and the outcome of a function that returns a status code.
pub mod Outcome
use threaded_db_api_server.Prelude.{Option, none, some}

-- `StatusCode`, but for STATUS_OK. The last is no code of the source: a loop ran out of the rounds
-- that the model gives it, which stands for a call that does not return.
pub data Status : Type 0 where
  invalid_args file_error lex_error parse_error schema_error : Status
  storage_error exec_error index_error : Status
  out_of_rounds : Status

-- The status that a caller returns in place of another. A call that does not return stays one.
abbrev pub as_status : Status → Status → Status
as_status out_of_rounds status = out_of_rounds
as_status _ status = status

-- STATUS_OK with what the out parameters hold, or another status
pub data Result {ℓ} (A : Type ℓ) : Type ℓ where
  ok : A → Result A
  err : Status → Result A

infixl 5 ◌>>=◌
abbrev pub ◌>>=◌ {ℓ κ} : {A : Type ℓ} {B : Type κ} → Result A → (A → Result B) → Result B
ok a >>= f = f a
err e >>= f = err e

abbrev pub or_fail {ℓ} : {A : Type ℓ} → Option A → Status → Result A
or_fail none e = err e
or_fail (some a) e = ok a

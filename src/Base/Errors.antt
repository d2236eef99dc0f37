-- ===== src/Base/Errors.antt =====
-- Go errors as values, and results.
use Prim.Native.Nat.{ℕ}
use Prim.Native.String.{String}
use mathlib.Core.Bool.{Bool, true, false}
use cfwg.Base.Bytes.{Text}

-- `failed` is an error of the environment, with its text. The others are made by the program:
-- `errors.New`, `fmt.Errorf` with a number or a text, with `%w`, and `errors.Join`.
pub data Error : Type 0 where
  failed : Text → Error
  message : String → Error
  message_int : String → ℕ → Error
  message_text : String → Text → Error
  wrap : String → Error → Error
  join : Error → Error → Error

-- What a fallible function returns: its error, or its value where the error is nil.
pub data Result {ℓ} (V : Type ℓ) : Type ℓ where
  err : Error → Result V
  ok : V → Result V

abbrev pub is_ok {ℓ} : {V : Type ℓ} → Result V → Bool
is_ok (err problem) = false
is_ok (ok value) = true

-- `if err != nil { return err }` between two calls.
infixl 5 ◌>>=◌
abbrev pub ◌>>=◌ {ℓ κ} : {V : Type ℓ} {W : Type κ} → Result V → (V → Result W) → Result W
err problem >>= next = err problem
ok value >>= next = next value

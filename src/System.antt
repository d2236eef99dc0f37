-- ===== src/System.antt =====
-- internal/system/runner.go: commands that the program runs, and programs made of them.
use cfwg.Base.{
  Bool, List, ◌∷◌, ◌++◌, Text, str, contains_text, Result, ok, err, Error, failed, message,
  message_int, message_text, wrap, join, String,
}
use cfwg.Net.Decimal.{itoa}

-- A command's name and arguments.
abbrev pub Command : Type 0
Command = List Text

-- What a command gives, its output or an error, may depend on the commands before, newest first.
abbrev pub Runner : Type 0
Runner = List Command → Command → Result Text

-- `err.Error()`
pub error_text : Error → Text
error_text (failed t) = t
error_text (message s) = str s
error_text (message_int s n) = str s ++ b' ' ∷ itoa n
error_text (message_text s t) = str s ++ b' ' ∷ t
error_text (wrap s e) = str s ++ b':' ∷ b' ' ∷ error_text e
error_text (join e f) = error_text e ++ 10 ∷ error_text f

-- `strings.Contains(err.Error(), text)`
unfoldable pub error_contains : Error → String → Bool
unfolding error_text
error_contains e text = contains_text (error_text e) (str text)

-- A program over a state that may fail. The state after a failure is kept.
abbrev pub Exec : Type 0 → Type 0 → Type 0
Exec S A = S → Result A × S

abbrev pub proceed : {S A B : Type 0} → Result A × S → (A → Exec S B) → Result B × S
proceed (ok a, s) f = f a s
proceed (err e, s) f = (err e, s)

infixl 5 ◌>>=◌ ◌>>◌
abbrev pub ◌>>=◌ : {S A B : Type 0} → Exec S A → (A → Exec S B) → Exec S B
◌>>=◌ action after s = proceed (action s) after

abbrev pub ◌>>◌ : {S B : Type 0} → Exec S (Unit {0}) → Exec S B → Exec S B
before >> after = before >>= λ _. after

abbrev pub done : {S : Type 0} → Exec S (Unit {0})
done s = (ok tt, s)

abbrev pub fail_with : {S A : Type 0} → Error → Exec S A
fail_with e s = (err e, s)

-- What holds after two programs in sequence, by what holds after the first.
pub proceed_cases :
    {S A B : Type 0} (Q : Result A × S → Type 0) (P : Result B × S → Type 0) (x : Result A × S)
    (f : A → Exec S B)
    → Q x
    → ((e : Error) (s : S) → Q (err e, s) → P (err e, s))
    → ((a : A) (s : S) → Q (ok a, s) → P (f a s))
    → P (proceed x f)
proceed_cases Q P (ok a, s) f q fails goes = goes a s q
proceed_cases Q P (err e, s) f q fails goes = fails e s q

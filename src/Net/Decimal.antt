-- ===== src/Net/Decimal.antt =====
-- strconv.Itoa at a number from 0, and strconv.Atoi, on a 64-bit int.
use cfwg.Base.{
  ℕ, zero, suc, ◌+◌, ◌-◌, ◌*◌, ◌/◌, ◌%◌, ◌^◌, ◌<◌, ◌≡◌, refl, ap, ◌∙◌, ◌≢◌, Bool, true, false, not,
  ◌&&◌, Option, none, some, [], ◌∷◌, ◌++◌, arith, ltb, leb, ◌==◌, if◌then◌else◌, Text, Bool-cases,
  inl, inr,
}

-- A Go int: `negsuc n` is -(n + 1).
pub data ℤ : Type 0 where
  pos : ℕ → ℤ
  negsuc : ℕ → ℤ

-- The conversion of an int to uint16 keeps its low 16 bits.
unfoldable pub uint16 : ℤ → ℕ
uint16 (pos n) = n % 65536
uint16 (negsuc n) = 65535 - n % 65536

-- `n > 0`
unfoldable pub is_positive : ℤ → Bool
is_positive (pos n) = not (n == 0)
is_positive (negsuc n) = false

decimal : ℕ → ℕ → Text
decimal zero n = []
decimal (suc f) n =
    let more = decimal f (n / 10) in if ltb n 10 then (48 + n) ∷ [] else more ++ (48 + n % 10) ∷ []

-- A number has fewer digits than its value plus one, so the fuel suffices.
unfoldable pub itoa : ℕ → Text
unfolding decimal
itoa n = decimal (suc n) n

-- `strconv.Itoa` of any int
unfoldable pub itoa_int : ℤ → Text
itoa_int (pos n) = itoa n
itoa_int (negsuc n) = b'-' ∷ itoa (suc n)

abbrev pub is_digit : ℕ → Bool
is_digit c = leb 48 c && leb c 57

digits_value : ℕ → Text → Option ℕ
digits_value acc [] = some acc
digits_value acc (c ∷ s) = if is_digit c then digits_value (acc * 10 + (c - 48)) s else none

-- The digits after the sign. At least one is wanted.
unsigned_value : Text → Option ℕ
unfolding digits_value
unsigned_value [] = none
unsigned_value (c ∷ s) = digits_value 0 (c ∷ s)

positive : Option ℕ → Option ℤ
positive none = none
positive (some n) = if ltb n (2 ^ 63) then some (pos n) else none

negative : Option ℕ → Option ℤ
negative none = none
negative (some zero) = some (pos 0)
negative (some (suc n)) = if ltb n (2 ^ 63) then some (negsuc n) else none

unfoldable pub atoi : Text → Option ℤ
unfolding unsigned_value positive negative
atoi [] = none
atoi (c ∷ s) =
    if c == b'-'
    then negative (unsigned_value s)
    else if c == b'+'
    then positive (unsigned_value s)
    else positive (unsigned_value (c ∷ s))

abbrev pub AllDigits : Text → Type 0
AllDigits [] = Unit {0}
AllDigits (c ∷ s) = (is_digit c ≡ true) × AllDigits s

AllDigits-append : (s t : Text) → AllDigits s → AllDigits t → AllDigits (s ++ t)
AllDigits-append [] t h k = k
AllDigits-append (c ∷ s) t (h, hs) k = (h, AllDigits-append s t hs k)

decimal-AllDigits : (f n : ℕ) → AllDigits (decimal f n)
unfolding decimal
decimal-AllDigits zero n = tt
decimal-AllDigits (suc f) n = elim (Bool-cases (ltb n 10)) [
  | inl small ↦ rw small (ground arith, tt)
  | inr large ↦
      rw large
        (AllDigits-append (decimal f (n / 10)) _ (decimal-AllDigits f (n / 10)) (ground arith, tt))
]

digits_value-append :
    (acc v d : ℕ) (s : Text)
    → digits_value acc s ≡ some v
    → d < 10
    → digits_value acc (s ++ (48 + d) ∷ []) ≡ some (v * 10 + d)
unfolding digits_value
digits_value-append acc v d [] h small = ground arith
digits_value-append acc v d (c ∷ s) h small =
    ground (arith, digits_value-append (acc * 10 + (c - 48)) v d s)

digits_value-decimal : (f n : ℕ) → n < f → digits_value 0 (decimal f n) ≡ some n
unfolding decimal
digits_value-decimal zero n h = elim h [ ]
digits_value-decimal (suc f) n h = elim (Bool-cases (ltb n 10)) [
  | inl small ↦ rw small (unfold digits_value in ground arith)
  | inr large ↦ rw large (
      digits_value-append 0 (n / 10) (n % 10) (decimal f (n / 10))
        (digits_value-decimal f (n / 10) (ground arith)) (omega arith)
      ∙ ap some (omega arith))
]

signless : (c : ℕ) (s : Text) → is_digit c ≡ true → atoi (c ∷ s) ≡ positive (digits_value 0 (c ∷ s))
unfolding atoi
signless c s h = ground arith

atoi-digits :
    (s : Text) (n : ℕ)
    → s ≢ []
    → AllDigits s
    → digits_value 0 s ≡ some n
    → n < 2 ^ 63
    → atoi s ≡ some (pos n)
unfolding positive
atoi-digits [] n ne h e b = absurd (ne refl)
atoi-digits (c ∷ s) n ne h e b = rw (signless c s h.0, e) (ground arith)

itoa-ne-nil : (n : ℕ) → itoa n ≢ []
unfolding itoa
itoa-ne-nil n = ground (arith, snoc_ne_nil (decimal n (n / 10)) (48 + n % 10))
  where
    snoc_ne_nil : (s : Text) (c : ℕ) → s ++ c ∷ [] ≢ []
    snoc_ne_nil [] c = λ e. cc
    snoc_ne_nil (d ∷ s) c = λ e. cc

pub itoa-AllDigits : (n : ℕ) → AllDigits (itoa n)
unfolding itoa
itoa-AllDigits n = decimal-AllDigits (suc n) n

-- Atoi reads back what Itoa writes, as far as an int goes.
pub atoi-itoa : (n : ℕ) → n < 2 ^ 63 → atoi (itoa n) ≡ some (pos n)
atoi-itoa n b =
    atoi-digits (itoa n) n (itoa-ne-nil n) (itoa-AllDigits n)
      (unfold itoa in digits_value-decimal (suc n) n (omega arith)) b

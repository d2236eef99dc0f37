-- ===== src/Socks5/Conn.antt =====
-- A client's TCP connection as the handlers of internal/socks5/server.go see it, and the programs
-- over it: readExactly, conn.Write and the chain of error tests.
pub mod Steps
use cfwg.Base.{
  ℕ, ◌-◌, ◌≤◌, ◌≡◌, refl, Bool, true, false, List, [], ◌++◌, arith, leb, if◌then◌else◌, length,
  take, drop, get_or, is_empty, take-append, drop-append, take-append-drop, length-take,
  length-append, append_assoc, le→leb, Result, ok, err, Error, message,
}

-- The bytes that the peer has still to send before it closes, the bytes written so far, and how
-- many more bytes the peer takes before a write fails.
pub record Conn : Type 0 where
  pub input : List ℕ
  pub output : List ℕ
  pub room : ℕ

abbrev pub M {ℓ} : Type ℓ → Type ℓ
M A = Conn → Result A × Conn

abbrev pub and_then {ℓ κ} :
    {A : Type ℓ} {B : Type κ} → Result A × Conn → (A → M B) → Result B × Conn
and_then (ok a, c) f = f a c
and_then (err e, c) f = (err e, c)

infixl 5 ◌>>=◌ ◌>>◌
abbrev pub ◌>>=◌ {ℓ κ} : {A : Type ℓ} {B : Type κ} → M A → (A → M B) → M B
◌>>=◌ program next c = and_then (program c) next

abbrev pub ◌>>◌ {ℓ} : {B : Type ℓ} → M (Unit {0}) → M B → M B
first >> second = first >>= λ _. second

abbrev pub pure {ℓ} : {A : Type ℓ} → A → M A
pure a c = (ok a, c)

abbrev pub fail {ℓ} : {A : Type ℓ} → Error → M A
fail e c = (err e, c)

-- `if !b { return e }`
unfoldable pub check : Bool → Error → M (Unit {0})
check true e = pure tt
check false e = fail e

-- `_ = f()`: the error is dropped.
abbrev pub ignore : M (Unit {0}) → M (Unit {0})
ignore m c = (ok tt, (m c).1)

-- `b[i]`, where the caller has seen to the length.
abbrev pub byte : List ℕ → ℕ → ℕ
byte b i = get_or b i 0

-- io.EOF if nothing could be read, and otherwise io.ErrUnexpectedEOF.
eof_error : List ℕ → Error
eof_error input = if is_empty input then message "EOF" else message "unexpected EOF"

-- A short read uses up what is left.
unfoldable pub read_exactly : ℕ → M (List ℕ)
unfolding eof_error
read_exactly size c =
    if leb size (length c.input)
    then (ok (take size c.input), record c { input = drop size c.input })
    else (err (eof_error c.input), record c { input = [] })

-- A write that fails may have sent a part.
unfoldable pub write : List ℕ → M (Unit {0})
write bs c =
    if leb (length bs) c.room
    then (ok tt, record c { output = c.output ++ bs; room = c.room - length bs })
    else (err (message "write failed"), record c { output = c.output ++ take c.room bs; room = 0 })

-- The connection with more bytes in front of its input.
abbrev pub feed : List ℕ → Conn → Conn
feed bs c = record c { input = bs ++ c.input }

-- The connection after a write that the peer takes.
abbrev pub sent : List ℕ → Conn → Conn
sent bs c = record c { output = c.output ++ bs; room = c.room - length bs }

pub and_then-ok {ℓ κ} :
    {A : Type ℓ} {B : Type κ} (r : Result A × Conn) (f : A → M B) {b : B} {c' : Conn}
    → and_then r f ≡ (ok b, c')
    → (a : A) × (d : Conn) × (r ≡ (ok a, d)) × (f a d ≡ (ok b, c'))
and_then-ok (ok a, d) f h = (a, d, refl, h)
and_then-ok (err e, d) f h = cc

-- What a step of a successful program did.
pub >>=-ok {ℓ κ} :
    {A : Type ℓ} {B : Type κ} (m : M A) (f : A → M B) (c : Conn) {b : B} {c' : Conn}
    → (m >>= f) c ≡ (ok b, c')
    → (a : A) × (d : Conn) × (m c ≡ (ok a, d)) × (f a d ≡ (ok b, c'))
>>=-ok m f c h = and_then-ok (m c) f h

pub read_exactly-ok :
    (size : ℕ) (c c' : Conn) (bs : List ℕ)
    → read_exactly size c ≡ (ok bs, c')
    → (length bs ≡ size) × (c.input ≡ bs ++ c'.input) × (c'.output ≡ c.output) × (c'.room ≡ c.room)
unfolding read_exactly
read_exactly-ok size c c' bs h =
    ground (arith, take-append-drop size c.input, length-take size c.input)

pub read_exactly-append :
    (bs : List ℕ) (c : Conn) → read_exactly (length bs) (feed bs c) ≡ (ok bs, c)
unfolding read_exactly
read_exactly-append bs c = rw (
  le→leb (length bs) (length (bs ++ c.input)) (omega (arith, length-append bs c.input)),
  take-append bs c.input,
  drop-append bs c.input,
)

pub write-ok :
    (bs : List ℕ) (c c' : Conn) (u : Unit {0})
    → write bs c ≡ (ok u, c')
    → (c' ≡ sent bs c) × (length bs ≤ c.room)
unfolding write
write-ok bs c c' u h = ground arith

pub write-sent : (bs : List ℕ) (c : Conn) → length bs ≤ c.room → write bs c ≡ (ok tt, sent bs c)
unfolding write
write-sent bs c h = rw (le→leb (length bs) c.room h)

-- A read of what stands in front of the input.
pub read_exactly-front :
    (bs rest : List ℕ) (c : Conn)
    → read_exactly (length bs) (record c { input = bs ++ rest })
      ≡ (ok bs, record c { input = rest })
read_exactly-front bs rest c = read_exactly-append bs (record c { input = rest })

pub read_exactly-sized :
    (size : ℕ) (bs rest : List ℕ) (c : Conn)
    → length bs ≡ size
    → read_exactly size (record c { input = bs ++ rest }) ≡ (ok bs, record c { input = rest })
read_exactly-sized size bs rest c e = rw (← e) (read_exactly-front bs rest c)

pub sent-sent : (xs ys : List ℕ) (c : Conn) → sent ys (sent xs c) ≡ sent (xs ++ ys) c
sent-sent xs ys c = ground (arith, append_assoc c.output xs ys, length-append xs ys)

-- ===== src/Net/HostPort.antt =====
-- net.SplitHostPort and net.JoinHostPort.
use cfwg.Base.{
  ℕ, suc, ◌≡◌, refl, ap, ◌∙◌, Bool, true, false, ◌||◌, Option, none, some, [], ◌∷◌, ◌++◌, arith,
  ◌==◌, if◌then◌else◌, Text, Bool-cases, inl, inr, length, get_or, take, drop, take-append,
  append_assoc, length-append, sym, Result, ok, err, message_text, ==_refl,
}
use cfwg.Net.Decimal.{AllDigits}

unfoldable pub has_byte : ℕ → Text → Bool
has_byte c [] = false
has_byte c (d ∷ s) = d == c || has_byte c s

shift : Option ℕ → Option ℕ
shift none = none
shift (some i) = some (suc i)

index_byte : ℕ → Text → Option ℕ
unfolding shift
index_byte c [] = none
index_byte c (d ∷ s) = if d == c then some 0 else shift (index_byte c s)

or_zero : Bool → Option ℕ → Option ℕ
or_zero b (some i) = some (suc i)
or_zero true none = some 0
or_zero false none = none

last_index_byte : ℕ → Text → Option ℕ
unfolding or_zero
last_index_byte c [] = none
last_index_byte c (d ∷ s) = or_zero (d == c) (last_index_byte c s)

-- The last two tests and the result, with the host, the rest from `j`, and the rest from `k`.
finish : Text → Text → Text → Text → ℕ → Result (Text × Text)
unfolding has_byte
finish hostport host from_j from_k i =
    if has_byte b'[' from_j
    then err (message_text "unexpected '[' in address" hostport)
    else if has_byte b']' from_k
    then err (message_text "unexpected ']' in address" hostport)
    else ok (host, drop (suc i) hostport)

bracketed : Text → ℕ → Option ℕ → Result (Text × Text)
unfolding finish
bracketed hostport i none = err (message_text "missing ']' in address" hostport)
bracketed hostport i (some end) =
    if suc end == length hostport
    then err (message_text "missing port in address" hostport)
    else if suc end == i
    then finish hostport (drop 1 (take end hostport)) (drop 1 hostport) (drop (suc end) hostport) i
    else if get_or hostport (suc end) 0 == b':'
    then err (message_text "too many colons in address" hostport)
    else err (message_text "missing port in address" hostport)

plain : Text → ℕ → Result (Text × Text)
unfolding finish has_byte
plain hostport i =
    if has_byte b':' (take i hostport)
    then err (message_text "too many colons in address" hostport)
    else finish hostport (take i hostport) hostport hostport i

split_at : Text → Option ℕ → Result (Text × Text)
unfolding bracketed plain index_byte
split_at hostport none = err (message_text "missing port in address" hostport)
split_at hostport (some i) =
    if get_or hostport 0 0 == b'['
    then bracketed hostport i (index_byte b']' hostport)
    else plain hostport i

unfoldable pub split_host_port : Text → Result (Text × Text)
unfolding split_at last_index_byte
split_host_port hostport = split_at hostport (last_index_byte b':' hostport)

unfoldable pub join_host_port : Text → Text → Text
unfolding has_byte
join_host_port host port =
    if has_byte b':' host then b'[' ∷ (host ++ b']' ∷ b':' ∷ port) else host ++ b':' ∷ port

-- The byte does not stand in the text.
abbrev pub Absent : ℕ → Text → Type 0
Absent c s = has_byte c s ≡ false

Absent-append : (c : ℕ) (s t : Text) → Absent c s → Absent c t → Absent c (s ++ t)
unfolding has_byte
Absent-append c [] t h k = k
Absent-append c (d ∷ s) t h k = ground (arith, Absent-append c s t)

last_index_byte-Absent : (c : ℕ) (s : Text) → Absent c s → last_index_byte c s ≡ none
unfolding has_byte last_index_byte
last_index_byte-Absent c [] h = refl
last_index_byte-Absent c (d ∷ s) h = ground (arith, last_index_byte-Absent c s)

last_index_byte-append :
    (c : ℕ) (s t : Text) → Absent c t → last_index_byte c (s ++ c ∷ t) ≡ some (length s)
unfolding last_index_byte
last_index_byte-append c [] t h = rw (last_index_byte-Absent c t h, ==_refl c)
last_index_byte-append c (d ∷ s) t h = rw (last_index_byte-append c s t h)

index_byte-append : (c : ℕ) (s t : Text) → Absent c s → index_byte c (s ++ c ∷ t) ≡ some (length s)
unfolding has_byte index_byte
index_byte-append c [] t h = rw (==_refl c)
index_byte-append c (d ∷ s) t h = ground (arith, index_byte-append c s t)

-- A text with no colon and no bracket, such as the decimal digits of a port.
pub record IsPlain (s : Text) : Type 0 where
  pub no_colon : Absent b':' s
  pub no_open : Absent b'[' s
  pub no_close : Absent b']' s

pub AllDigits-IsPlain : (s : Text) → AllDigits s → IsPlain s
unfolding has_byte
AllDigits-IsPlain [] h = record { no_colon = refl; no_open = refl; no_close = refl }
AllDigits-IsPlain (c ∷ s) h = ground (arith, AllDigits-IsPlain s h.1)

drop-suc-append : (c : ℕ) (s t : Text) → drop (suc (length s)) (s ++ c ∷ t) ≡ t
drop-suc-append c [] t = refl
drop-suc-append c (d ∷ s) t = drop-suc-append c s t

first-append :
    (c d : ℕ) (s t : Text) → Absent c s → (d == c) ≡ false → (get_or (s ++ d ∷ t) 0 0 == c) ≡ false
unfolding has_byte
first-append c d [] t h k = k
first-append c d (e ∷ s) t h k = ground arith

module _ (host port : Text) (open_free : Absent b'[' host) (close_free : Absent b']' host)
    (p : IsPlain port) where
  split_plain : Absent b':' host → split_host_port (host ++ b':' ∷ port) ≡ ok (host, port)
  unfolding split_host_port has_byte
  split_plain h = rw (
    last_index_byte-append b':' host port p.no_colon,
    split_at,
    first-append b'[' b':' host port open_free refl,
    take-append host (b':' ∷ port),
    h,
    Absent-append b'[' host (b':' ∷ port) open_free (ground arith),
    Absent-append b']' host (b':' ∷ port) close_free (ground arith),
    drop-suc-append b':' host port,
  )

  last_colon :
      last_index_byte b':' (b'[' ∷ (host ++ b']' ∷ b':' ∷ port)) ≡ some (suc (suc (length host)))
  last_colon =
      ap (λ (t : Text). last_index_byte b':' (b'[' ∷ t))
        (sym (append_assoc host (b']' ∷ []) (b':' ∷ port)))
      ∙ last_index_byte-append b':' (b'[' ∷ (host ++ b']' ∷ [])) port p.no_colon
      ∙ ap some (omega (arith, length-append host (b']' ∷ [])))

  drop_tail : drop (suc (suc (length host))) (b'[' ∷ (host ++ b']' ∷ b':' ∷ port)) ≡ b':' ∷ port
  drop_tail = drop-suc-append b']' host (b':' ∷ port)

  snoc_length : suc (length host) ≡ length (host ++ b']' ∷ [])
  snoc_length = omega (arith, length-append host (b']' ∷ []))

  drop_port : drop (suc (suc (length host))) (host ++ b']' ∷ b':' ∷ port) ≡ port
  drop_port =
      ap (drop (suc (suc (length host)))) (sym (append_assoc host (b']' ∷ []) (b':' ∷ port)))
      ∙ ap (λ (k : ℕ). drop (suc k) ((host ++ b']' ∷ []) ++ b':' ∷ port)) snoc_length
      ∙ drop-suc-append b':' (host ++ b']' ∷ []) port

  not_at_end : (suc (suc (length host)) == length (b'[' ∷ (host ++ b']' ∷ b':' ∷ port))) ≡ false
  not_at_end = ground (arith, length-append host (b']' ∷ b':' ∷ port))

  split_bracketed : split_host_port (b'[' ∷ (host ++ b']' ∷ b':' ∷ port)) ≡ ok (host, port)
  unfolding split_host_port has_byte
  split_bracketed = rw (
    last_colon,
    split_at,
    index_byte-append b']' host (b':' ∷ port) close_free,
    bracketed,
    not_at_end,
    ==_refl (suc (suc (length host))),
    take-append host (b']' ∷ b':' ∷ port),
    drop-suc-append b']' host (b':' ∷ port),
    Absent-append b'[' host (b']' ∷ b':' ∷ port) open_free (ground arith),
    p.no_close,
    drop_port,
  )

  -- SplitHostPort takes apart what JoinHostPort puts together.
  pub split-join : split_host_port (join_host_port host port) ≡ ok (host, port)
  unfolding join_host_port
  split-join = elim (Bool-cases (has_byte b':' host)) [
    | inl v6 ↦ rw v6 split_bracketed
    | inr v4 ↦ rw v4 (split_plain v4)
  ]

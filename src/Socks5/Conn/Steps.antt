-- ===== src/Socks5/Conn/Steps.antt =====
-- Inversion of a successful program over a connection, one step at a time.
use cfwg.Base.{
  ℕ, ◌≤◌, ◌≡◌, refl, subst, Bool, true, false, List, [], ◌∷◌, ◌++◌, arith, if◌then◌else◌, length,
  ok, Error,
}
use cfwg.Socks5.Conn.{
  Conn, M, ◌>>=◌, ◌>>◌, check, read_exactly, write, sent, >>=-ok, read_exactly-ok, write-ok,
}

module _ {ℓ κ} {B : Type ℓ} {b : B} {c' : Conn} {G : Type κ} where
  pub check_then :
      (t : Bool) (e : Error) (k : M B) (c : Conn)
      → (check t e >> k) c ≡ (ok b, c')
      → (t ≡ true → k c ≡ (ok b, c') → G)
      → G
  unfolding check
  check_then true e k c h next = next refl h
  check_then false e k c h next = cc

  pub if_then :
      (t : Bool) (m k : M B) (c : Conn)
      → (if t then m else k) c ≡ (ok b, c')
      → (t ≡ true → m c ≡ (ok b, c') → G)
      → (t ≡ false → k c ≡ (ok b, c') → G)
      → G
  if_then true m k c h yes_next no_next = yes_next refl h
  if_then false m k c h yes_next no_next = no_next refl h

  pub read_then :
      (size : ℕ) (f : List ℕ → M B) (c : Conn)
      → (read_exactly size >>= f) c ≡ (ok b, c')
      → ((bs : List ℕ) (d : Conn)
          → length bs ≡ size
          → c.input ≡ bs ++ d.input
          → d.output ≡ c.output
          → f bs d ≡ (ok b, c')
          → G)
      → G
  read_then size f c h next =
      let (bs, d, r, rest) = >>=-ok (read_exactly size) f c h in
      let (l, i, o, _) = read_exactly-ok size c d bs r in next bs d l i o rest

  pub write_then :
      (bs : List ℕ) (k : M B) (c : Conn)
      → (write bs >> k) c ≡ (ok b, c')
      → (length bs ≤ c.room → k (sent bs c) ≡ (ok b, c') → G)
      → G
  write_then bs k c h next =
      let (u, d, r, rest) = >>=-ok (write bs) (λ _. k) c h in
      let (e, room) = write-ok bs c d u r in
      next room (subst (λ (x : Conn). k x ≡ (ok b, c')) e rest)

  pub read1_then :
      (f : List ℕ → M B) (c : Conn)
      → (read_exactly 1 >>= f) c ≡ (ok b, c')
      → ((v : ℕ) (d : Conn)
          → c.input ≡ v ∷ d.input
          → d.output ≡ c.output
          → f (v ∷ []) d ≡ (ok b, c')
          → G)
      → G
  read1_then f c h next = read_then 1 f c h one
    where
      one :
          (xs : List ℕ) (d : Conn)
          → length xs ≡ 1
          → c.input ≡ xs ++ d.input
          → d.output ≡ c.output
          → f xs d ≡ (ok b, c')
          → G
      one [] d l i o r = absurd (omega arith)
      one (v ∷ []) d l i o r = next v d i o r
      one (v ∷ w ∷ xs) d l i o r = absurd (omega arith)

  pub read2_then :
      (f : List ℕ → M B) (c : Conn)
      → (read_exactly 2 >>= f) c ≡ (ok b, c')
      → ((v w : ℕ) (d : Conn)
          → c.input ≡ v ∷ w ∷ d.input
          → d.output ≡ c.output
          → f (v ∷ w ∷ []) d ≡ (ok b, c')
          → G)
      → G
  read2_then f c h next = read_then 2 f c h two
    where
      two :
          (xs : List ℕ) (d : Conn)
          → length xs ≡ 2
          → c.input ≡ xs ++ d.input
          → d.output ≡ c.output
          → f xs d ≡ (ok b, c')
          → G
      two [] d l i o r = absurd (omega arith)
      two (v ∷ []) d l i o r = absurd (omega arith)
      two (v ∷ w ∷ []) d l i o r = next v w d i o r
      two (v ∷ w ∷ x ∷ xs) d l i o r = absurd (omega arith)

  pub read4_then :
      (f : List ℕ → M B) (c : Conn)
      → (read_exactly 4 >>= f) c ≡ (ok b, c')
      → ((v w x y : ℕ) (d : Conn)
          → c.input ≡ v ∷ w ∷ x ∷ y ∷ d.input
          → d.output ≡ c.output
          → f (v ∷ w ∷ x ∷ y ∷ []) d ≡ (ok b, c')
          → G)
      → G
  read4_then f c h next = read_then 4 f c h four
    where
      four :
          (xs : List ℕ) (d : Conn)
          → length xs ≡ 4
          → c.input ≡ xs ++ d.input
          → d.output ≡ c.output
          → f xs d ≡ (ok b, c')
          → G
      four [] d l i o r = absurd (omega arith)
      four (v ∷ []) d l i o r = absurd (omega arith)
      four (v ∷ w ∷ []) d l i o r = absurd (omega arith)
      four (v ∷ w ∷ x ∷ []) d l i o r = absurd (omega arith)
      four (v ∷ w ∷ x ∷ y ∷ []) d l i o r = next v w x y d i o r
      four (v ∷ w ∷ x ∷ y ∷ z ∷ xs) d l i o r = absurd (omega arith)

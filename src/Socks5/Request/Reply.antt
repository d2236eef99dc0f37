-- ===== src/Socks5/Request/Reply.antt =====
-- Every reply of the server is well formed, and the client reads it as it was meant.
use cfwg.Base.{
  ℕ, ◌≡◌, refl, ◌⊎◌, ◌≢◌, inl, inr, Option, some, List, [], ◌∷◌, ◌++◌, arith, Result, ok, err,
  length, append_assoc, length-append, ◌≤◌, Text, Option-cases,
}
use cfwg.Net.Decimal.{ℤ, uint16}
use cfwg.Net.Ip.{IpText, IsLawful, v4_prefix, to4-cases}
use cfwg.Socks5.Conn.{Conn, check, sent, write-sent, read_exactly-front, read_exactly-sized}
use cfwg.Socks5.Conn.Steps.{read4_then, check_then}
use cfwg.Socks5.Wire.{put_uint16}
use cfwg.Socks5.Request.{reply_bytes, reply_of, reply_v4, write_reply, write_result}
use cfwg.Socks5.Client.{read_connect_reply}

-- The bytes of a reply: version, code, a reserved zero, and the bound address by its type.
abbrev pub reply_form : ℕ → ℕ → List ℕ → ℕ → List ℕ
reply_form code atyp addr port = 5 ∷ code ∷ 0 ∷ atyp ∷ (addr ++ put_uint16 port)

-- An address of the length that its type tells.
abbrev pub FitsType : ℕ → List ℕ → Type 0
FitsType atyp addr = ((atyp ≡ 1) × (length addr ≡ 4)) ⊎ ((atyp ≡ 4) × (length addr ≡ 16))

abbrev IsReply : ℕ → ℤ → Text → Option (List ℕ) → Type 0
IsReply code port host addr =
    (atyp : ℕ) × (bound : List ℕ) × (reply_of code port host addr
      ≡ ok (reply_form code atyp bound (uint16 port)))
    × FitsType atyp bound

IsReply-of_addr :
    (code : ℕ) (port : ℤ) (host : Text) (addr : List ℕ)
    → length addr ≡ 16
    → IsReply code port host (some addr)
unfolding reply_of
IsReply-of_addr code port host addr l = elim (to4-cases addr l) [
  | inl (no_v4, v6) ↦ (4, addr, rw (no_v4, reply_v4, v6), inr (refl, l))
  | inr (v4, is_v4, l4) ↦ (1, v4, rw is_v4, inl (refl, l4))
]

reply_form-length :
    (code atyp : ℕ) (bound : List ℕ) (port : ℕ)
    → FitsType atyp bound
    → length (reply_form code atyp bound port) ≤ 22
reply_form-length code atyp bound port (inl (t, l)) =
    omega (arith, length-append bound (put_uint16 port))
reply_form-length code atyp bound port (inr (t, l)) =
    omega (arith, length-append bound (put_uint16 port))

module _ (T : IpText) (L : IsLawful T) where
  -- The server can always make a reply, whatever host it is given, and its address has the length
  -- that the reply's address type announces.
  reply_bytes-form :
      (code : ℕ) (host : Text) (port : ℤ)
      → (atyp : ℕ) × (bound : List ℕ) × (reply_bytes T code host port
          ≡ ok (reply_form code atyp bound (uint16 port)))
        × FitsType atyp bound
  unfolding reply_bytes
  reply_bytes-form code host port = elim (Option-cases (T.parse_ip host)) [
    | inl none_parsed ↦
        rw (none_parsed, L.parse_zero)
          (IsReply-of_addr code port host (v4_prefix ++ 0 ∷ 0 ∷ 0 ∷ 0 ∷ []) refl)
    | inr (addr, parsed) ↦
        rw parsed (IsReply-of_addr code port host addr (L.length-parse host addr parsed))
  ]

-- The client's reading of a reply.
read_connect_reply-form :
    (code atyp : ℕ) (bound : List ℕ) (port : ℕ) (rest : List ℕ) (c : Conn)
    → FitsType atyp bound
    → (code ≡ 0)
    → read_connect_reply (record c { input = reply_form code atyp bound port ++ rest })
      ≡ (ok tt, record c { input = rest })
unfolding read_connect_reply check
read_connect_reply-form code atyp bound port rest c (inl (is_v4, l)) z = rw (
  is_v4,
  z,
  append_assoc bound (put_uint16 port) rest,
  read_exactly-front (5 ∷ 0 ∷ 0 ∷ 1 ∷ []) (bound ++ (put_uint16 port ++ rest)) c,
  read_exactly-sized 4 bound (put_uint16 port ++ rest) c l,
  read_exactly-front (put_uint16 port) rest c,
)
read_connect_reply-form code atyp bound port rest c (inr (is_v6, l)) z = rw (
  is_v6,
  z,
  append_assoc bound (put_uint16 port) rest,
  read_exactly-front (5 ∷ 0 ∷ 0 ∷ 4 ∷ []) (bound ++ (put_uint16 port ++ rest)) c,
  read_exactly-sized 16 bound (put_uint16 port ++ rest) c l,
  read_exactly-front (put_uint16 port) rest c,
)

pair_eq : (r : Result (Unit {0}) × Conn) → r.0 ≡ ok tt → r ≡ (ok tt, r.1)
pair_eq (ok u, c) h = refl
pair_eq (err e, c) h = cc

read_connect_reply-refused :
    (code : ℕ) (more : List ℕ) (c : Conn)
    → code ≢ 0
    → (read_connect_reply (record c { input = 5 ∷ code ∷ more })).0 ≢ ok tt
unfolding read_connect_reply
read_connect_reply-refused code more c nz h =
    read4_then _ (record c { input = 5 ∷ code ∷ more }) (pair_eq _ h)
      λ v w x y d i o rest. check_then _ _ _ d rest λ is_success _. ground arith

module _ (T : IpText) (L : IsLawful T) where
  -- Whatever host the server names, its reply can be made, and the client reads the whole of it and
  -- no further byte: it takes a code of 0 for success, and any other code for an error.
  pub read_connect_reply-reply_bytes :
      (code : ℕ) (host : Text) (port : ℤ) (rest : List ℕ) (c : Conn)
      → (reply : List ℕ) × (reply_bytes T code host port ≡ ok reply)
        × (code ≡ 0
            → read_connect_reply (record c { input = reply ++ rest })
              ≡ (ok tt, record c { input = rest }))
        × (code ≢ 0 → (read_connect_reply (record c { input = reply ++ rest })).0 ≢ ok tt)
  read_connect_reply-reply_bytes code host port rest c =
      let (atyp, bound, made, fits) = reply_bytes-form T L code host port in
      (
        reply_form code atyp bound (uint16 port),
        made,
        read_connect_reply-form code atyp bound (uint16 port) rest c fits,
        read_connect_reply-refused code _ c,
      )

  -- A reply reaches a peer that takes 22 bytes more.
  pub write_reply-sent :
      (code : ℕ) (host : Text) (port : ℤ) (reply : List ℕ) (c : Conn)
      → reply_bytes T code host port ≡ ok reply
      → 22 ≤ c.room
      → write_reply T code host port c ≡ (ok tt, sent reply c)
  unfolding write_reply write_result
  write_reply-sent code host port reply c made room =
      let (atyp, bound, form, fits) = reply_bytes-form T L code host port in
      let short = reply_form-length code atyp bound (uint16 port) fits in
      let same : reply ≡ reply_form code atyp bound (uint16 port) = cc in
      rw made (write-sent reply c (rw same (omega (arith, short))))

-- ===== src/Net/Ip.antt =====
-- net.IP: addresses as 4 or 16 bytes. Their text form, IP.String and ParseIP, is an interface.
use cfwg.Base.{
  ℕ, ◌<◌, ◌≡◌, Bool, false, ◌&&◌, ◌||◌, Option, none, some, List, [], ◌∷◌, ◌++◌, ◌==◌,
  if◌then◌else◌, Text, length, take, drop, get_or, text_eq, str, arith, ◌⊎◌, inl, inr, Bool-cases,
  length-drop,
}
use cfwg.Net.HostPort.{Absent}

-- The first 12 bytes of an IPv4 address in 16-byte form.
abbrev pub v4_prefix : List ℕ
v4_prefix = 0 ∷ 0 ∷ 0 ∷ 0 ∷ 0 ∷ 0 ∷ 0 ∷ 0 ∷ 0 ∷ 0 ∷ 255 ∷ 255 ∷ []

unfoldable pub to4 : List ℕ → Option (List ℕ)
to4 ip =
    if length ip == 4
    then some ip
    else if length ip == 16 && text_eq (take 12 ip) v4_prefix
    then some (drop 12 ip)
    else none

unfoldable pub to16 : List ℕ → Option (List ℕ)
to16 ip =
    if length ip == 4 then some (v4_prefix ++ ip) else if length ip == 16 then some ip else none

is_mapped : List ℕ → List ℕ → Bool
is_mapped v4 v6 = text_eq (take 12 v6) v4_prefix && text_eq v4 (drop 12 v6)

-- `IP.Equal`: an IPv4 address and its 16-byte form are equal.
unfoldable pub ip_equal : List ℕ → List ℕ → Bool
unfolding is_mapped
ip_equal x y =
    if length x == length y
    then text_eq x y
    else if length x == 4 && length y == 16
    then is_mapped x y
    else if length x == 16 && length y == 4
    then is_mapped y x
    else false

v6_tail : ℕ → List ℕ
v6_tail n = 0 ∷ 0 ∷ 0 ∷ 0 ∷ 0 ∷ 0 ∷ 0 ∷ 0 ∷ 0 ∷ 0 ∷ 0 ∷ 0 ∷ 0 ∷ 0 ∷ 0 ∷ n ∷ []

unfoldable pub is_unspecified : List ℕ → Bool
unfolding ip_equal v6_tail
is_unspecified ip = ip_equal ip (v4_prefix ++ 0 ∷ 0 ∷ 0 ∷ 0 ∷ []) || ip_equal ip (v6_tail 0)

first_is_127 : Option (List ℕ) → Bool → Bool
first_is_127 none otherwise = otherwise
first_is_127 (some v4) otherwise = get_or v4 0 0 == 127

unfoldable pub is_loopback : List ℕ → Bool
unfolding to4 ip_equal v6_tail first_is_127
is_loopback ip = first_is_127 (to4 ip) (ip_equal ip (v6_tail 1))

abbrev pub AllBytes : List ℕ → Type 0
AllBytes [] = Unit {0}
AllBytes (c ∷ s) = (c < 256) × AllBytes s

-- `IP.String` and `ParseIP`.
pub record IpText : Type 0 where
  pub ip_string : List ℕ → Text
  pub parse_ip : Text → Option (List ℕ)

-- ParseIP gives 16 bytes and reads back what String writes; String writes no bracket.
pub record IsLawful (T : IpText) : Type 0 where
  pub parse-string4 :
      (ip : List ℕ)
      → length ip ≡ 4
      → AllBytes ip
      → T.parse_ip (T.ip_string ip) ≡ some (v4_prefix ++ ip)
  pub parse-string16 :
      (ip : List ℕ) → length ip ≡ 16 → AllBytes ip → T.parse_ip (T.ip_string ip) ≡ some ip
  pub parse_zero : T.parse_ip (str "0.0.0.0") ≡ some (v4_prefix ++ 0 ∷ 0 ∷ 0 ∷ 0 ∷ [])
  pub length-parse : (s ip : List ℕ) → T.parse_ip s ≡ some ip → length ip ≡ 16
  pub string_open :
      (ip : List ℕ) → (length ip ≡ 4) ⊎ (length ip ≡ 16) → Absent b'[' (T.ip_string ip)
  pub string_close :
      (ip : List ℕ) → (length ip ≡ 4) ⊎ (length ip ≡ 16) → Absent b']' (T.ip_string ip)

length-mapped : (ip : List ℕ) → length ip ≡ 4 → length (v4_prefix ++ ip) ≡ 16
length-mapped ip h = omega arith

-- The IPv4 address that stands in its 16-byte form.
pub to4-mapped : (ip : List ℕ) → length ip ≡ 4 → to4 (v4_prefix ++ ip) ≡ some ip
unfolding to4 text_eq
to4-mapped ip h = ground (arith, length-mapped ip h)

-- A 16-byte address is an IPv4 address or goes out as it is.
pub to4-cases :
    (ip : List ℕ)
    → length ip ≡ 16
    → ((to4 ip ≡ none) × (to16 ip ≡ some ip))
      ⊎ ((v4 : List ℕ) × (to4 ip ≡ some v4) × (length v4 ≡ 4))
unfolding to4 to16
to4-cases ip h = elim (Bool-cases (text_eq (take 12 ip) v4_prefix)) [
  | inl mapped ↦ inr (drop 12 ip, ground arith, omega (arith, length-drop 12 ip))
  | inr other ↦ inl (ground arith, ground arith)
]

pub to16_lem : (ip : List ℕ) → length ip ≡ 16 → to16 ip ≡ some ip
unfolding to16
to16_lem ip h = ground arith

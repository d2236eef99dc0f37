-- ===== src/Tests/Ip.antt =====
-- A text form for IP addresses that meets the laws: each byte is written as one code point from 100.
use cfwg.Base.{
  ℕ, ◌+◌, ◌-◌, ◌<◌, ◌≡◌, refl, Option, none, some, List, [], ◌∷◌, ◌++◌, arith, map, length, ◌==◌,
  if◌then◌else◌, Text, str, text_eq,
}
use cfwg.Net.HostPort.{Absent, has_byte}
use cfwg.Net.Ip.{IpText, IsLawful, v4_prefix}

abbrev up : ℕ → ℕ
up c = c + 100

abbrev down : ℕ → ℕ
down c = c - 100

abbrev parse : Text → Option (List ℕ)
parse s =
    if length s == 4
    then some (v4_prefix ++ map down s)
    else if length s == 16
    then some (map down s)
    else if text_eq s (str "0.0.0.0")
    then some (v4_prefix ++ 0 ∷ 0 ∷ 0 ∷ 0 ∷ [])
    else none

abbrev pub shifted_ip : IpText
shifted_ip = record { ip_string = map up; parse_ip = parse }

down-up : (s : List ℕ) → map down (map up s) ≡ s
down-up [] = refl
down-up (c ∷ s) = ground (arith, down-up s)

length-map : (f : ℕ → ℕ) (s : List ℕ) → length (map f s) ≡ length s
length-map f [] = refl
length-map f (c ∷ s) = omega (arith, length-map f s)

up-Absent : (b : ℕ) (s : List ℕ) → b < 100 → Absent b (map up s)
unfolding has_byte
up-Absent b [] h = refl
up-Absent b (c ∷ s) h = ground (arith, up-Absent b s)

parse-up4 : (ip : List ℕ) → length ip ≡ 4 → parse (map up ip) ≡ some (v4_prefix ++ ip)
parse-up4 ip l = ground (arith, length-map up ip, down-up ip)

parse-up16 : (ip : List ℕ) → length ip ≡ 16 → parse (map up ip) ≡ some ip
parse-up16 ip l = ground (arith, length-map up ip, down-up ip)

length-parse : (s ip : List ℕ) → parse s ≡ some ip → length ip ≡ 16
length-parse s ip h = ground (arith, length-map down s)

parse_zero : parse (str "0.0.0.0") ≡ some (v4_prefix ++ 0 ∷ 0 ∷ 0 ∷ 0 ∷ [])
unfolding str text_eq
parse_zero = refl

pub shifted_ip-IsLawful : IsLawful shifted_ip
shifted_ip-IsLawful = record {
  parse-string4 = λ ip l _. parse-up4 ip l;
  parse-string16 = λ ip l _. parse-up16 ip l;
  parse_zero = parse_zero;
  length-parse = length-parse;
  string_open = λ ip _. up-Absent b'[' ip (omega arith);
  string_close = λ ip _. up-Absent b']' ip (omega arith);
}

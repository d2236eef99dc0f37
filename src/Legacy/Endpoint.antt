-- ===== src/Legacy/Endpoint.antt =====
-- cmd/warp-socksd/legacy_backend.go: the addresses of the peer.
use cfwg.Base.{
  ℕ, Bool, ◌&&◌, ◌||◌, Option, none, some, [], ◌∷◌, ◌==◌, if◌then◌else◌, Text, is_empty, Result, ok,
  err,
}
use cfwg.Net.HostPort.{split_host_port, join_host_port}
use cfwg.Config.{StackMode, stack_dual, stack4, stack6}
use cfwg.State.{State}
use cfwg.Routes.{Addr, invalid, unmap, is_valid}

-- What the packages strings and net/netip make of text, where this depends on Unicode or on the
-- syntax of addresses.
pub record GoText : Type 0 where
  -- `strings.TrimSpace`, `strings.ToLower`, `strings.EqualFold`
  pub trim_space : Text → Text
  pub to_lower : Text → Text
  pub equal_fold : Text → Text → Bool
  -- `netip.ParseAddr`, and the address of `netip.ParseAddrPort`
  pub parse_addr : Text → Option Addr
  pub parse_addr_port : Text → Option Addr

abbrev is_bracket : ℕ → Bool
is_bracket c = c == b'[' || c == b']'

trim_left : Text → Text
trim_left [] = []
trim_left (c ∷ s) = let rest = trim_left s in if is_bracket c then rest else c ∷ s

trim_right : Text → Text
trim_right [] = []
trim_right (c ∷ s) =
    let rest = trim_right s in if is_bracket c && is_empty rest then [] else c ∷ rest

-- `strings.Trim(s, "[]")`
unfoldable pub trim_brackets : Text → Text
unfolding trim_left trim_right
trim_brackets s = trim_right (trim_left s)

-- A text that is not empty, or what stands in its place.
abbrev pub value_or_default : Text → Text → Text
value_or_default value fallback = if is_empty value then fallback else value

module _ (G : GoText) where
  host_of_split : Text → Result (Text × Text) → Text
  host_of_split raw (ok (host, port)) = trim_brackets host
  host_of_split raw (err e) = trim_brackets raw

  unfoldable pub endpoint_host : Text → Text
  unfolding host_of_split
  endpoint_host raw =
      let trimmed = G.trim_space raw in
      if is_empty trimmed then [] else host_of_split trimmed (split_host_port trimmed)

  port_of_split : Result (Text × Text) → Text
  port_of_split (ok (host, port)) = port
  port_of_split (err e) = []

  unfoldable pub endpoint_port : Text → Text
  unfolding port_of_split
  endpoint_port raw =
      let trimmed = G.trim_space raw in
      if is_empty trimmed then [] else port_of_split (split_host_port trimmed)

  with_port_of : Text → Result (Text × Text) → Text
  with_port_of ip (ok (host, port)) = join_host_port ip port
  with_port_of ip (err e) = ip

  unfoldable pub join_endpoint_host_and_port : Text → Text → Text
  unfolding with_port_of
  join_endpoint_host_and_port ip endpoint =
      if is_empty ip
      then []
      else (let host = endpoint_host ip in
          if is_empty host then [] else with_port_of host (split_host_port endpoint))

  kept_or_joined : Text → Text → Result (Text × Text) → Text
  kept_or_joined raw fallback (ok parts) = raw
  kept_or_joined raw fallback (err e) = join_endpoint_host_and_port raw fallback

  unfoldable pub ensure_endpoint_port : Text → Text → Text
  unfolding kept_or_joined
  ensure_endpoint_port raw fallback =
      if is_empty raw then [] else kept_or_joined raw fallback (split_host_port raw)

  unfoldable pub select_peer_endpoint : State → StackMode → Text
  select_peer_endpoint s stack4 =
      value_or_default (ensure_endpoint_port s.peer_endpoint_v4 s.peer_endpoint) s.peer_endpoint
  select_peer_endpoint s stack6 =
      value_or_default (ensure_endpoint_port s.peer_endpoint_v6 s.peer_endpoint) s.peer_endpoint
  select_peer_endpoint s stack_dual =
      value_or_default (ensure_endpoint_port s.peer_endpoint_v4 s.peer_endpoint)
        (value_or_default (ensure_endpoint_port s.peer_endpoint_v6 s.peer_endpoint) s.peer_endpoint)

  addr_or_invalid : Option Addr → Addr
  addr_or_invalid none = invalid
  addr_or_invalid (some a) = unmap a

  addr_of_split : Result (Text × Text) → Addr
  unfolding addr_or_invalid
  addr_of_split (ok (host, port)) = addr_or_invalid (G.parse_addr host)
  addr_of_split (err e) = invalid

  addr_alone : Text → Option Addr → Addr
  unfolding addr_of_split
  addr_alone raw (some a) = unmap a
  addr_alone raw none = addr_of_split (split_host_port raw)

  addr_with_port : Text → Option Addr → Addr
  unfolding addr_alone
  addr_with_port raw (some a) = unmap a
  addr_with_port raw none = addr_alone raw (G.parse_addr raw)

  unfoldable pub parse_endpoint_addr : Text → Addr
  unfolding addr_with_port
  parse_endpoint_addr raw =
      let trimmed = G.trim_space raw in
      if is_empty trimmed then invalid else addr_with_port trimmed (G.parse_addr_port trimmed)

  unfoldable pub select_peer_endpoint_address : State → StackMode → Addr
  select_peer_endpoint_address s stack4 = parse_endpoint_addr s.peer_endpoint_v4
  select_peer_endpoint_address s stack6 = parse_endpoint_addr s.peer_endpoint_v6
  select_peer_endpoint_address s stack_dual =
      let v4 = parse_endpoint_addr s.peer_endpoint_v4 in
      if is_valid v4 then v4 else parse_endpoint_addr s.peer_endpoint_v6

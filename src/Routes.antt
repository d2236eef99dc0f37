-- ===== src/Routes.antt =====
-- internal/router/router.go: the plan of routes, and the addresses it is made of.
use cfwg.Base.{
  ℕ, Bool, true, false, ◌&&◌, List, [], ◌∷◌, ◌==◌, if◌then◌else◌, Text, text_eq, take, drop, length,
}
use cfwg.Config.{StackMode, stack_dual, stack4, stack6}
use cfwg.Net.Ip.{v4_prefix}

-- netip.Addr: the zero Addr, an IPv4 address, or an IPv6 address with its zone.
pub data Addr : Type 0 where
  invalid : Addr
  addr4 : List ℕ → Addr
  addr6 : List ℕ → Text → Addr

abbrev pub is_valid : Addr → Bool
is_valid invalid = false
is_valid (addr4 b) = true
is_valid (addr6 b zone) = true

abbrev pub is6 : Addr → Bool
is6 invalid = false
is6 (addr4 b) = false
is6 (addr6 b zone) = true

-- An IPv4 address that is mapped into IPv6 is taken out.
unfoldable pub unmap : Addr → Addr
unmap invalid = invalid
unmap (addr4 b) = addr4 b
unmap (addr6 b zone) =
    if length b == 16 && text_eq (take 12 b) v4_prefix then addr4 (drop 12 b) else addr6 b zone

abbrev bit_len : Addr → ℕ
bit_len invalid = 0
bit_len (addr4 b) = 32
bit_len (addr6 b zone) = 128

abbrev without_zone : Addr → Addr
without_zone invalid = invalid
without_zone (addr4 b) = addr4 b
without_zone (addr6 b zone) = addr6 b []

pub record Prefix : Type 0 where
  pub addr : Addr
  pub bits : ℕ

abbrev pub default_route_v4 : Prefix
default_route_v4 = record { addr = addr4 (0 ∷ 0 ∷ 0 ∷ 0 ∷ []); bits = 0 }

abbrev pub default_route_v6 : Prefix
default_route_v6 = record {
  addr = addr6 (0 ∷ 0 ∷ 0 ∷ 0 ∷ 0 ∷ 0 ∷ 0 ∷ 0 ∷ 0 ∷ 0 ∷ 0 ∷ 0 ∷ 0 ∷ 0 ∷ 0 ∷ 0 ∷ []) [];
  bits = 0;
}

pub record Plan : Type 0 where
  pub tunnel_routes : List Prefix
  pub bypass_routes : List Prefix

unfoldable pub tunnel_routes : StackMode → List Prefix
tunnel_routes stack4 = default_route_v4 ∷ []
tunnel_routes stack6 = default_route_v6 ∷ []
tunnel_routes stack_dual = default_route_v4 ∷ default_route_v6 ∷ []

host_prefix : Addr → Prefix
host_prefix endpoint = record { addr = without_zone endpoint; bits = bit_len endpoint }

unfoldable pub build_plan : StackMode → Addr → Plan
unfolding host_prefix tunnel_routes unmap
build_plan mode endpoint =
    if is_valid endpoint
    then record {
      tunnel_routes = tunnel_routes mode;
      bypass_routes = host_prefix (unmap endpoint) ∷ [];
    }
    else record { tunnel_routes = tunnel_routes mode; bypass_routes = [] }

-- ===== src/Tests/Router.antt =====
-- The routes at a concrete plan.
use cfwg.Base.{◌≡◌, refl, false, some, [], ◌∷◌, ok, str, Text}
use cfwg.System.{Runner}
use cfwg.Routes.{Plan, addr4, default_route_v4}
use cfwg.Router.{Manager, DefaultRoute, RouteText, apply, cleanup, tunnel_command}
use cfwg.Router.Original.{original_route_kept, known_route}
use cfwg.Router.Commands.{apply_lem, knowing, bypass_command, issued}

abbrev short_text : RouteText
short_text = record { prefix_string = λ p. str "10.0.0.0/8"; decode_routes = λ output. ok [] }

abbrev quiet : Runner
quiet before c = ok []

abbrev by_eth0 : DefaultRoute
by_eth0 = record { dst = str "default"; gateway = str "172.18.0.1"; dev = str "eth0" }

abbrev by_eth1 : DefaultRoute
by_eth1 = record { dst = str "default"; gateway = []; dev = str "eth1" }

abbrev plan : Plan
plan = record {
  tunnel_routes = default_route_v4 ∷ [];
  bypass_routes = record { addr = addr4 (162 ∷ 159 ∷ 193 ∷ 10 ∷ []); bits = 32 } ∷ [];
}

abbrev used : Manager
used = knowing by_eth0 by_eth1 plan.bypass_routes []

abbrev wgcf : Text
wgcf = 119 ∷ 103 ∷ 99 ∷ 102 ∷ []

original_route_kept_example :
    (known_route false ((apply short_text quiet wgcf plan used).1) ≡ some by_eth0)
    × (known_route false ((cleanup short_text quiet used).1) ≡ some by_eth0)
original_route_kept_example = original_route_kept short_text quiet by_eth0 false wgcf plan used refl

apply_lem_example : apply short_text quiet wgcf plan (knowing by_eth0 by_eth1 [] []) ≡ (
  ok tt,
  knowing by_eth0 by_eth1 plan.bypass_routes (
      issued
        (bypass_command short_text by_eth0 by_eth1
            (record { addr = addr4 (162 ∷ 159 ∷ 193 ∷ 10 ∷ []); bits = 32 })
          ∷ tunnel_command wgcf false
          ∷ [])
        []),
)
apply_lem_example =
    apply_lem short_text quiet (λ before c. ([], refl)) by_eth0 by_eth1 wgcf plan [] [] refl

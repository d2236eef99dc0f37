-- ===== src/Legacy/Network.antt =====
-- cmd/warp-socksd/legacy_backend.go: the network manager, over a device and routes.
use cfwg.Base.{◌≡◌, refl, [], ◌∷◌, Text, str, Result, ok, err, Error, wrap, join}
use cfwg.Net.Decimal.{ℤ}
use cfwg.System.{Exec}
use cfwg.Config.{Config, stack4}
use cfwg.State.{State}
use cfwg.Routes.{Plan, build_plan, tunnel_routes, default_route_v4}
use cfwg.Wgdev.{DesiredConfig}
use cfwg.Legacy.Endpoint.{
  GoText, value_or_default, select_peer_endpoint, select_peer_endpoint_address,
  ensure_endpoint_port, parse_endpoint_addr,
}

-- The interfaces wireguardDeviceManager and routeManager, over a state that they share.
pub record Devices (S : Type 0) : Type 0 where
  pub wg_apply : DesiredConfig → Exec S (Unit {0})
  pub wg_delete : Text → Exec S (Unit {0})
  pub routes_apply : Text → Plan → Exec S (Unit {0})
  pub routes_cleanup : Exec S (Unit {0})

unfoldable pub default_legacy_device_name : Text
default_legacy_device_name = str "wgcf"

-- What Cleanup makes of the errors of its two steps.
cleanup_result : Result (Unit {0}) → Result (Unit {0}) → Result (Unit {0})
cleanup_result (ok u) (ok v) = ok tt
cleanup_result (ok u) (err e) = err (wrap "delete wireguard device" e)
cleanup_result (err e) (ok v) = err (wrap "cleanup routes" e)
cleanup_result (err e) (err f) =
    err (join (wrap "cleanup routes" e) (wrap "delete wireguard device" f))

module _ (G : GoText) {S : Type 0} (devices : Devices S) (device_name : Text) (mtu : ℤ) where
  pub interface_name : Text
  interface_name = value_or_default device_name default_legacy_device_name

  unfoldable pub desired_config : Config → State → DesiredConfig
  unfolding interface_name
  desired_config cfg current = record {
    name = interface_name;
    stack_mode = cfg.proxy_stack;
    private_key = current.private_key;
    address_v4 = current.ipv4;
    address_v6 = current.ipv6;
    peer_public_key = current.peer_public_key;
    endpoint = select_peer_endpoint G current cfg.proxy_stack;
    mtu = mtu;
  }

  unfoldable pub network_plan : Config → State → Plan
  network_plan cfg current =
      build_plan cfg.proxy_stack (select_peer_endpoint_address G current cfg.proxy_stack)

  after_routes : Result (Unit {0}) × S → Result (Unit {0}) × S
  unfolding interface_name
  after_routes (ok u, s) = (ok tt, s)
  after_routes (err e, s) = (
    err (wrap "apply routes" e),
    (devices.wg_delete interface_name ((devices.routes_cleanup s).1)).1,
  )

  after_device : Config → State → Result (Unit {0}) × S → Result (Unit {0}) × S
  unfolding after_routes interface_name
  after_device cfg current (err e, s) = (err (wrap "apply wireguard device" e), s)
  after_device cfg current (ok u, s) =
      after_routes (devices.routes_apply interface_name (network_plan cfg current) s)

  -- The two managers are not nil.
  pub network_apply : Config → State → Exec S (Unit {0})
  unfolding after_device
  network_apply cfg current s =
      after_device cfg current (devices.wg_apply (desired_config cfg current) s)

  pub network_cleanup : Exec S (Unit {0})
  unfolding interface_name cleanup_result
  network_cleanup s =
      let routes = devices.routes_cleanup s in
      let device = devices.wg_delete interface_name (routes.1) in
      (cleanup_result (routes.0) (device.0), device.1)

  -- Where the device is set up but the routes are not, Apply reports the error of the routes and
  -- leaves all that Cleanup would have left in its place, whether the steps of this succeed or not.
  pub network_apply-network_cleanup :
      (cfg : Config) (current : State) (s made failed : S) (e : Error)
      → devices.wg_apply (desired_config cfg current) s ≡ (ok tt, made)
      → devices.routes_apply interface_name (network_plan cfg current) made ≡ (err e, failed)
      → network_apply cfg current s ≡ (err (wrap "apply routes" e), (network_cleanup failed).1)
  unfolding network_apply network_cleanup after_device after_routes
  network_apply-network_cleanup cfg current s made failed e device routes = rw (device, routes) refl

  plan_without_bypass :
      (cfg : Config) (current : State)
      → G.trim_space [] ≡ []
      → cfg.proxy_stack ≡ stack4
      → current.peer_endpoint_v4 ≡ []
      → network_plan cfg current
        ≡ record { tunnel_routes = default_route_v4 ∷ []; bypass_routes = [] }
  unfolding network_plan select_peer_endpoint_address parse_endpoint_addr build_plan tunnel_routes
  plan_without_bypass cfg current trimmed stack missing = rw (stack, missing, trimmed) refl

  config_without_v4 :
      (cfg : Config) (current : State)
      → cfg.proxy_stack ≡ stack4
      → current.peer_endpoint_v4 ≡ []
      → desired_config cfg current ≡ record {
        name = interface_name;
        stack_mode = stack4;
        private_key = current.private_key;
        address_v4 = current.ipv4;
        address_v6 = current.ipv6;
        peer_public_key = current.peer_public_key;
        endpoint = current.peer_endpoint;
        mtu = mtu;
      }
  unfolding desired_config select_peer_endpoint ensure_endpoint_port
  config_without_v4 cfg current stack missing = rw (stack, missing) refl

  -- Where the text of the IPv4 endpoint is empty, Apply for an IPv4 proxy sets the device up with the
  -- endpoint's general name as its peer, and then applies a plan that leads all IPv4 traffic into
  -- the interface and makes no route around it for the peer; it succeeds if these two steps do.
  pub network_apply_without_bypass :
      (cfg : Config) (current : State) (s made routed : S)
      → G.trim_space [] ≡ []
      → cfg.proxy_stack ≡ stack4
      → current.peer_endpoint_v4 ≡ []
      → devices.wg_apply
          (record {
            name = interface_name;
            stack_mode = stack4;
            private_key = current.private_key;
            address_v4 = current.ipv4;
            address_v6 = current.ipv6;
            peer_public_key = current.peer_public_key;
            endpoint = current.peer_endpoint;
            mtu = mtu;
          })
          s
        ≡ (ok tt, made)
      → devices.routes_apply interface_name
          (record { tunnel_routes = default_route_v4 ∷ []; bypass_routes = [] })
          made
        ≡ (ok tt, routed)
      → network_apply cfg current s ≡ (ok tt, routed)
  unfolding network_apply after_device after_routes
  network_apply_without_bypass cfg current s made routed trimmed stack missing device routes =
      rw
        (
          config_without_v4 cfg current stack missing,
          device,
          plan_without_bypass cfg current trimmed stack missing,
          routes,
        )
        refl

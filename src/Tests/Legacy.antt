-- ===== src/Tests/Legacy.antt =====
-- The legacy backend at a concrete device and service.
use cfwg.Base.{◌≡◌, refl, ℕ, suc, ◌+◌, ◌≤◌, true, false, none, [], ◌∷◌, ok, err, message, text_eq}
use cfwg.Net.Decimal.{pos}
use cfwg.Config.{Config, stack4}
use cfwg.State.{State, no_state}
use cfwg.Warp.{Device}
use cfwg.Legacy.Endpoint.{GoText, value_or_default, endpoint_port}
use cfwg.Legacy.Device.{state_from_warp_device, effective_tunnel_protocol, wireguard}
use cfwg.Legacy.Bootstrap.{WarpApi, ensure_device}
use cfwg.Legacy.Bootstrap.Usable.{ensure_device-IsReady, IsReady}
use cfwg.Legacy.Bootstrap.Calls.{ensure_device-calls, licenses, registrations, allowed}
use cfwg.Legacy.Network.{Devices, network_apply, network_apply_without_bypass}

-- Text that is trimmed and in lower case already, and no addresses.
abbrev pub plain_text : GoText
plain_text = record {
  trim_space = λ s. s;
  to_lower = λ s. s;
  equal_fold = λ s t. text_eq s t;
  parse_addr = λ s. none;
  parse_addr_port = λ s. none;
}

abbrev pub device : Device
device = record {
  id = 105 ∷ [];
  token = [];
  key = [];
  key_type = [];
  tunnel_type = wireguard;
  created = [];
  updated = [];
  warp_enabled = true;
  policy_tunnel_protocol = [];
  account_license = [];
  config = record {
    client_id = [];
    address_v4 = [];
    address_v6 = [];
    peers =
        record {
          endpoint = record { host = []; v4 = []; v6 = []; ports = [] };
          public_key = 112 ∷ [];
        }
        ∷ [];
  };
}

abbrev pub made : State
made = record no_state {
  schema_version = 1;
  device_id = 105 ∷ [];
  access_token = 116 ∷ [];
  private_key = 107 ∷ [];
  peer_public_key = 112 ∷ [];
  warp_enabled = true;
  tunnel_protocol = effective_tunnel_protocol plain_text device;
}

made_from_device : state_from_warp_device plain_text device [] (116 ∷ []) (107 ∷ []) [] ≡ ok made
unfolding state_from_warp_device cfwg.Legacy.Endpoint.join_endpoint_host_and_port
made_from_device = refl

-- A service that knows the one device, and a key pair.
abbrev service : WarpApi
service = record {
  register_answer = λ calls input. ok (record device { token = 116 ∷ [] });
  device_answer = λ calls id token. ok device;
  license_answer = λ calls id token license. ok tt;
  enabled_answer = λ calls id token value. ok tt;
  generated_key = ok (107 ∷ [], 112 ∷ []);
  random_install_id = [];
  now = [];
}

abbrev pub settings : Config
settings = record {
  proxy_stack = stack4;
  warp_license = 76 ∷ [];
  auth = record { enabled = false; username = []; password = [] };
}

ensure_device-IsReady_example :
    IsReady plain_text service settings (ensure_device plain_text service settings no_state [])
ensure_device-IsReady_example = ensure_device-IsReady plain_text service settings no_state [] refl

ensure_device-calls_example :
    (licenses ((ensure_device plain_text service settings no_state []).1) ≤ suc 0)
    × (registrations ((ensure_device plain_text service settings no_state []).1)
        ≤ allowed plain_text service settings no_state + 0)
ensure_device-calls_example = ensure_device-calls plain_text service settings no_state []

-- The steps counted; the routes cannot be set up.
abbrev pub counted : Devices ℕ
counted = record {
  wg_apply = λ cfg n. (ok tt, n + 1);
  wg_delete = λ name n. (ok tt, n + 1);
  routes_apply = λ name plan n. (err (message "no route"), n + 1);
  routes_cleanup = λ n. (ok tt, n + 1);
}

abbrev routed : Devices ℕ
routed = record counted { routes_apply = λ name plan n. (ok tt, n + 1) }

-- The device has a general endpoint alone.
abbrev named : State
named = record made { peer_endpoint = 101 ∷ b':' ∷ 49 ∷ [] }

network_apply_without_bypass_example :
    network_apply plain_text routed [] (pos 0) settings named 0 ≡ (ok tt, 2)
network_apply_without_bypass_example =
    network_apply_without_bypass plain_text routed [] (pos 0) settings named 0 1 2 refl refl refl
      refl refl

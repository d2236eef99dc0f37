-- ===== src/Legacy/Device.antt =====
-- cmd/warp-socksd/legacy_backend.go: the state that a device of the WARP service gives.
pub mod Credentials
use cfwg.Base.{
  ℕ, Bool, true, false, ◌&&◌, ◌||◌, not, Option, none, some, List, [], ◌∷◌, ◌==◌, if◌then◌else◌,
  Text, str, is_empty, text_eq, Result, ok, err, message, ltb,
}
use cfwg.Warp.{Device, Endpoint, Peer}
use cfwg.State.{State}
use cfwg.Legacy.Endpoint.{GoText, endpoint_port, join_endpoint_host_and_port, value_or_default}

unfoldable pub wireguard : Text
wireguard = str "wireguard"

has_port : List ℕ → Bool
has_port [] = false
has_port (p ∷ ports) = p == 2408 || has_port ports

module _ (G : GoText) where
  unfoldable pub normalize_tunnel_protocol_name : Text → Text
  normalize_tunnel_protocol_name raw = G.to_lower (G.trim_space raw)

  is_default_port : Text → Bool
  is_default_port candidate = text_eq (endpoint_port G candidate) (str "2408")

  peer_looks_like_wireguard : List Peer → Bool
  unfolding is_default_port has_port
  peer_looks_like_wireguard [] = false
  peer_looks_like_wireguard (peer ∷ peers) =
      has_port peer.endpoint.ports
      || is_default_port peer.endpoint.host
      || is_default_port peer.endpoint.v4
      || is_default_port peer.endpoint.v6

  unfoldable pub device_looks_like_wireguard : Device → Bool
  unfolding peer_looks_like_wireguard
  device_looks_like_wireguard device =
      G.equal_fold (G.trim_space device.key_type) (str "curve25519")
      || peer_looks_like_wireguard device.config.peers

  unfoldable pub effective_tunnel_protocol : Device → Text
  effective_tunnel_protocol device =
      let normalized = normalize_tunnel_protocol_name device.tunnel_type in
      let policy = normalize_tunnel_protocol_name device.policy_tunnel_protocol in
      if not (is_empty normalized)
      then normalized
      else if text_eq policy wireguard
      then policy
      else if device_looks_like_wireguard device
      then wireguard
      else policy

  state_of_peer : Device → Text → Text → Text → Text → Peer → State
  state_of_peer device device_id token private_key public_key peer = record {
    schema_version = 1;
    device_id = device_id;
    access_token = token;
    private_key = private_key;
    public_key = value_or_default public_key device.key;
    client_id = device.config.client_id;
    ipv4 = device.config.address_v4;
    ipv6 = device.config.address_v6;
    peer_public_key = peer.public_key;
    peer_endpoint = peer.endpoint.host;
    peer_endpoint_v4 = join_endpoint_host_and_port G peer.endpoint.v4 peer.endpoint.host;
    peer_endpoint_v6 = join_endpoint_host_and_port G peer.endpoint.v6 peer.endpoint.host;
    license = device.account_license;
    warp_enabled = device.warp_enabled;
    tunnel_protocol = effective_tunnel_protocol device;
    created_at = device.created;
    updated_at = device.updated;
  }

  state_of_peers : Device → Text → Text → Text → Text → List Peer → Result State
  unfolding state_of_peer
  state_of_peers device device_id token private_key public_key [] =
      err (message "warp device response is missing peers")
  state_of_peers device device_id token private_key public_key (peer ∷ peers) =
      ok (state_of_peer device device_id token private_key public_key peer)

  unfoldable pub state_from_warp_device : Device → Text → Text → Text → Text → Result State
  unfolding state_of_peers
  state_from_warp_device device fallback_device_id fallback_token private_key public_key =
      let device_id = value_or_default device.id fallback_device_id in
      let token = value_or_default device.token fallback_token in
      if is_empty device_id || is_empty token
      then err (message "warp device response is missing credentials")
      else state_of_peers device device_id token private_key public_key device.config.peers

unfoldable pub is_reusable_legacy_state : State → Bool
is_reusable_legacy_state s =
    ltb 0 s.schema_version
    && not (is_empty s.device_id)
    && not (is_empty s.access_token)
    && not (is_empty s.private_key)
    && not (is_empty s.peer_public_key)
    && not (is_empty s.peer_endpoint)
    && text_eq s.tunnel_protocol wireguard

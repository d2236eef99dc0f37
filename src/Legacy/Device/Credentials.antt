-- ===== src/Legacy/Device/Credentials.antt =====
-- The credentials of the state that is made from a device.
use cfwg.Base.{false, Text, is_empty, ◌≡◌, ok, arith}
use cfwg.State.{State}
use cfwg.Warp.{Device}
use cfwg.Legacy.Endpoint.{GoText, value_or_default}
use cfwg.Legacy.Device.{
  state_from_warp_device, state_of_peers, state_of_peer, effective_tunnel_protocol,
}

module _ (G : GoText) (device : Device) (id token private_key public_key : Text) where
  -- A state that is made from a device has the id and the token that the service tells, or else
  -- those that the caller gives, and neither is empty; it has the private key of the caller and the
  -- tunnel protocol that the device is taken to use.
  pub state_from_warp_device-credentials :
      (s : State)
      → state_from_warp_device G device id token private_key public_key ≡ ok s
      → (s.device_id ≡ value_or_default device.id id)
        × (s.access_token ≡ value_or_default device.token token)
        × (is_empty s.device_id ≡ false)
        × (is_empty s.access_token ≡ false)
        × (s.private_key ≡ private_key)
        × (s.tunnel_protocol ≡ effective_tunnel_protocol G device)
  unfolding state_from_warp_device state_of_peers state_of_peer
  state_from_warp_device-credentials s made = ground arith

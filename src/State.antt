-- ===== src/State.antt =====
-- internal/state/state.go: what the program keeps about its registered device.
pub mod Store
use cfwg.Base.{ℕ, Bool, false, [], Text}

pub record State : Type 0 where
  pub schema_version : ℕ
  pub device_id : Text
  pub access_token : Text
  pub private_key : Text
  pub public_key : Text
  pub client_id : Text
  pub ipv4 : Text
  pub ipv6 : Text
  pub peer_public_key : Text
  pub peer_endpoint : Text
  pub peer_endpoint_v4 : Text
  pub peer_endpoint_v6 : Text
  pub license : Text
  pub warp_enabled : Bool
  pub tunnel_protocol : Text
  pub created_at : Text
  pub updated_at : Text

-- `State{}`
abbrev pub no_state : State
no_state = record {
  schema_version = 0;
  device_id = [];
  access_token = [];
  private_key = [];
  public_key = [];
  client_id = [];
  ipv4 = [];
  ipv6 = [];
  peer_public_key = [];
  peer_endpoint = [];
  peer_endpoint_v4 = [];
  peer_endpoint_v6 = [];
  license = [];
  warp_enabled = false;
  tunnel_protocol = [];
  created_at = [];
  updated_at = [];
}

-- ===== src/Warp.antt =====
-- internal/warpapi/client.go: what the WARP service tells about a device.
pub mod Client
use cfwg.Base.{ℕ, Bool, List, Text}

pub record Endpoint : Type 0 where
  pub host : Text
  pub v4 : Text
  pub v6 : Text
  pub ports : List ℕ

pub record Peer : Type 0 where
  pub endpoint : Endpoint
  pub public_key : Text

-- `Interface` and `InterfaceAddresses` are the fields `address_v4` and `address_v6`.
pub record DeviceConfig : Type 0 where
  pub client_id : Text
  pub address_v4 : Text
  pub address_v6 : Text
  pub peers : List Peer

-- `Policy` and `Account` are the fields `policy_tunnel_protocol` and `account_license`.
pub record Device : Type 0 where
  pub id : Text
  pub token : Text
  pub key : Text
  pub key_type : Text
  pub tunnel_type : Text
  pub created : Text
  pub updated : Text
  pub warp_enabled : Bool
  pub policy_tunnel_protocol : Text
  pub account_license : Text
  pub config : DeviceConfig

-- The body of a registration.
pub record RegistrationInput : Type 0 where
  pub install_id : Text
  pub key : Text
  pub locale : Text
  pub model : Text
  pub tos : Text
  pub type_name : Text

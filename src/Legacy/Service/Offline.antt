-- ===== src/Legacy/Service/Offline.antt =====
-- EnsureDevice of legacy_backend.go where the WARP service does not answer, or refuses.
use cfwg.Base.{◌&&◌, [], Text}
use cfwg.Config.{Config}
use cfwg.State.{State}
use cfwg.Warp.Client.{Http, register, get_source_device, update_license, set_warp_enabled}
use cfwg.Warp.Client.Refused.{Refuses, do_json-refused, do_json_device-refused}
use cfwg.Legacy.Endpoint.{GoText}
use cfwg.Legacy.Device.{is_reusable_legacy_state}
use cfwg.Legacy.Bootstrap.{ensure_device}
use cfwg.Legacy.Bootstrap.Usable.{is_licensed}
use cfwg.Legacy.Bootstrap.Down.{IsDown, UsedAsIs, ensure_device-down}
use cfwg.Legacy.Service.{Randomness, warp_api}

module _ (http : Http) (base_url : Text) (refuses : Refuses http base_url) where
  warp_api-IsDown : (random : Randomness) → IsDown (warp_api http base_url random)
  unfolding warp_api register get_source_device update_license set_warp_enabled
  warp_api-IsDown random = record {
    register_down = λ calls input. do_json_device-refused http base_url refuses _ _;
    license_down = λ calls id token license. do_json-refused http base_url refuses _ _;
    enabled_down = λ calls id token value. do_json-refused http base_url refuses _ _;
  }

  -- Where the WARP service cannot be reached, or answers each request with a status from 400,
  -- EnsureDevice succeeds exactly if the loaded state is reusable and has the license that is
  -- set, if one is; it then returns this state, with the schema version 1.
  pub ensure_device_offline :
      (G : GoText) (random : Randomness) (cfg : Config) (loaded : State)
      → let api = warp_api http base_url random in
        let current = record loaded { schema_version = 1 } in
        UsedAsIs
          (is_reusable_legacy_state current && is_licensed G api cfg current)
          current
          ((ensure_device G api cfg loaded []).0)
  ensure_device_offline G random cfg loaded =
      ensure_device-down G (warp_api http base_url random) (warp_api-IsDown random) cfg loaded []

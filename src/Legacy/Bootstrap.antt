-- ===== src/Legacy/Bootstrap.antt =====
-- cmd/warp-socksd/legacy_backend.go: how the program comes to a device.
pub mod Usable
pub mod Calls
pub mod Named
pub mod Down
use cfwg.Base.{
  Bool, true, false, ◌&&◌, ◌||◌, List, [], ◌∷◌, if◌then◌else◌, Text, str, is_empty, text_eq, Result,
  ok, err, message, message_text, wrap, String,
}
use cfwg.System.{Exec, proceed, ◌>>=◌, ◌>>◌}
use cfwg.Config.{Config, unspecified}
use cfwg.State.{State}
use cfwg.Warp.{Device, RegistrationInput}
use cfwg.Legacy.Endpoint.{GoText}
use cfwg.Legacy.Device.{state_from_warp_device, is_reusable_legacy_state, wireguard}

-- A call of the WARP service.
pub data ApiCall : Type 0 where
  registered : RegistrationInput → ApiCall
  fetched : Text → Text → ApiCall
  licensed : Text → Text → Text → ApiCall
  enabled : Text → Text → Bool → ApiCall

-- The newest call stands first.
abbrev pub Calls : Type 0
Calls = List ApiCall

-- The service, whose answer may depend on the calls before; and a key pair, the random install id
-- and the time, which a registration uses.
pub record WarpApi : Type 0 where
  pub register_answer : Calls → RegistrationInput → Result Device
  pub device_answer : Calls → Text → Text → Result Device
  pub license_answer : Calls → Text → Text → Text → Result (Unit {0})
  pub enabled_answer : Calls → Text → Text → Bool → Result (Unit {0})
  pub generated_key : Result (Text × Text)
  pub random_install_id : Text
  pub now : Text

-- `fmt.Errorf("...: %w", err)` around a call's error.
unfoldable pub wrapped : {A : Type 0} → String → Result A → Result A
wrapped context (ok a) = ok a
wrapped context (err e) = err (wrap context e)

required_wireguard : Result State → Result State
required_wireguard (err e) = err e
required_wireguard (ok next) =
    if text_eq next.tunnel_protocol wireguard
    then ok next
    else err
        (message_text "legacy backend requires wireguard tunnel protocol, got" next.tunnel_protocol)

has_no_credentials : State → Bool
has_no_credentials current =
    is_empty current.device_id || is_empty current.access_token || is_empty current.private_key

module _ (G : GoText) (api : WarpApi) where
  unfoldable pub normalize_license : Text → Text
  normalize_license raw =
      let trimmed = G.trim_space raw in
      if is_empty trimmed || text_eq trimmed unspecified then [] else trimmed

  update_license : Text → Text → Text → Exec Calls (Unit {0})
  unfolding wrapped
  update_license id token license calls = (
    wrapped "update warp license" (api.license_answer calls id token license),
    licensed id token license ∷ calls,
  )

  set_warp_enabled : Text → Text → Bool → Exec Calls (Unit {0})
  unfolding wrapped
  set_warp_enabled id token value calls = (
    wrapped "enable warp device" (api.enabled_answer calls id token value),
    enabled id token value ∷ calls,
  )

  get_source_device : Text → Text → Exec Calls Device
  unfolding wrapped
  get_source_device id token calls =
      (wrapped "fetch warp device" (api.device_answer calls id token), fetched id token ∷ calls)

  register_device : RegistrationInput → Exec Calls Device
  unfolding wrapped
  register_device input calls =
      (wrapped "register warp device" (api.register_answer calls input), registered input ∷ calls)

  -- The state of the device that the service tells, which must use WireGuard.
  fetch_state : Text → Text → Text → Text → Exec Calls State
  unfolding get_source_device required_wireguard
  fetch_state id token private_key public_key = get_source_device id token >>= λ device calls.
      (required_wireguard (state_from_warp_device G device id token private_key public_key), calls)

  pub refresh : State → Exec Calls State
  unfolding set_warp_enabled fetch_state has_no_credentials
  refresh current calls =
      if has_no_credentials current
      then (err (message "state cannot be refreshed"), calls)
      else (set_warp_enabled current.device_id current.access_token true
            >> fetch_state current.device_id current.access_token current.private_key
                current.public_key)
          calls

  register_license : Config → State → Exec Calls State
  unfolding update_license
  register_license cfg current calls =
      let license = normalize_license cfg.warp_license in
      if is_empty license
      then (ok current, calls)
      else (update_license current.device_id current.access_token license >>= λ u after.
            (ok (record current { license = license }), after))
          calls

  register_with : Config → Text → Text → Device → Exec Calls State
  unfolding set_warp_enabled fetch_state register_license
  register_with cfg private_key public_key device calls =
      if is_empty device.id || is_empty device.token
      then (err (message "warp registration did not return device credentials"), calls)
      else (set_warp_enabled device.id device.token true
            >> (fetch_state device.id device.token private_key public_key >>= register_license cfg))
          calls

  register_key : Config → Result (Text × Text) → Exec Calls State
  unfolding register_device register_with
  register_key cfg (err e) calls = (err (wrap "generate wireguard private key" e), calls)
  register_key cfg (ok (private_key, public_key)) calls =
      (register_device (record {
        install_id = api.random_install_id;
        key = public_key;
        locale = str "en_US";
        model = str "PC";
        tos = api.now;
        type_name = str "Android";
      })
          >>= register_with cfg private_key public_key)
        calls

  pub register : Config → Exec Calls State
  unfolding register_key
  register cfg = register_key cfg api.generated_key

  pub apply_license : Config → State → Exec Calls State
  unfolding update_license
  apply_license cfg current calls =
      let license = normalize_license cfg.warp_license in
      if is_empty license || text_eq license current.license
      then (ok current, calls)
      else if is_empty current.device_id || is_empty current.access_token
      then (err (message "legacy state is missing device credentials for license update"), calls)
      else (update_license current.device_id current.access_token license >>= λ u after.
            (ok (record current { license = license }), after))
          calls

  after_refresh : Config → State → Result State × Calls → Result State × Calls
  after_refresh cfg current (ok refreshed, calls) = apply_license cfg refreshed calls
  after_refresh cfg current (err e, calls) =
      if is_reusable_legacy_state current
      then apply_license cfg current calls
      else (register cfg >>= apply_license cfg) calls

  -- `b.client` is not nil.
  pub ensure_device : Config → State → Exec Calls State
  unfolding after_refresh
  ensure_device cfg loaded calls =
      let current = record loaded { schema_version = 1 } in
      after_refresh cfg current (refresh current calls)

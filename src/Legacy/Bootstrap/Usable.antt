-- ===== src/Legacy/Bootstrap/Usable.antt =====
-- What a device that EnsureDevice returns is good for.
use cfwg.Base.{
  Bool, true, false, ◌&&◌, ◌||◌, not, Text, is_empty, text_eq, text_eq_refl, ◌≡◌, refl, Result, ok,
  err, arith, Bool-cases, inl, inr,
}
use cfwg.System.{Exec, proceed, proceed_cases, ◌>>=◌}
use cfwg.Config.{Config}
use cfwg.State.{State}
use cfwg.Warp.{Device}
use cfwg.Legacy.Endpoint.{GoText}
use cfwg.Legacy.Device.{state_from_warp_device, is_reusable_legacy_state, wireguard}
use cfwg.Legacy.Device.Credentials.{state_from_warp_device-credentials}
use cfwg.Legacy.Bootstrap.{
  WarpApi, Calls, refresh, register, register_key, register_with, register_license, apply_license,
  after_refresh, ensure_device, fetch_state, get_source_device, required_wireguard,
  set_warp_enabled, register_device, update_license, has_no_credentials, normalize_license, wrapped,
}

-- A state that the tunnel can be built from.
abbrev pub is_usable : State → Bool
is_usable s =
    not (is_empty s.device_id)
    && not (is_empty s.access_token)
    && not (is_empty s.private_key)
    && text_eq s.tunnel_protocol wireguard

-- A result that is a usable state, or an error.
abbrev IsGood : Result State × Calls → Type 0
IsGood (ok s, calls) = is_usable s ≡ true
IsGood (err e, calls) = Unit {0}

key_given : (s : State) → has_no_credentials s ≡ false → is_empty s.private_key ≡ false
unfolding has_no_credentials
key_given s given = ground arith

reusable_is_usable : (s : State) → is_reusable_legacy_state s ≡ true → is_usable s ≡ true
unfolding is_reusable_legacy_state
reusable_is_usable s h = ground arith

module _ (G : GoText) (api : WarpApi) where
  -- The license that is set in the environment, if any, is the device's.
  abbrev pub is_licensed : Config → State → Bool
  is_licensed cfg s =
      let license = normalize_license G api cfg.warp_license in
      is_empty license || text_eq license s.license

  -- A result that is a usable and licensed state, or an error.
  abbrev pub IsReady : Config → Result State × Calls → Type 0
  IsReady cfg (ok s, calls) = (is_usable s ≡ true) × (is_licensed cfg s ≡ true)
  IsReady cfg (err e, calls) = Unit {0}

  fetch_state-IsGood :
      (id token private_key public_key : Text) (calls : Calls)
      → is_empty private_key ≡ false
      → IsGood (fetch_state G api id token private_key public_key calls)
  unfolding fetch_state required_wireguard
  fetch_state-IsGood id token private_key public_key calls given =
      proceed_cases (λ r. Unit {0}) IsGood (get_source_device G api id token calls) _ tt
        (λ e s u. tt)
        λ device after u.
          go device after (state_from_warp_device G device id token private_key public_key) refl
    where
      go :
          (device : Device) (after : Calls) (r : Result State)
          → state_from_warp_device G device id token private_key public_key ≡ r
          → IsGood (required_wireguard r, after)
      go device after (err e) made = tt
      go device after (ok s) made = ground (
        arith,
        state_from_warp_device-credentials G device id token private_key public_key s made,
      )

  -- Past a call whose answer does not matter.
  then-IsGood :
      (x : Result (Unit {0}) × Calls) (next : Exec Calls State)
      → ((after : Calls) → IsGood (next after))
      → IsGood (proceed x λ u. next)
  then-IsGood (ok u, calls) next p = p calls
  then-IsGood (err e, calls) next p = tt

  refresh-IsGood : (current : State) (calls : Calls) → IsGood (refresh G api current calls)
  unfolding refresh
  refresh-IsGood current calls = elim (Bool-cases (has_no_credentials current)) [
    | inl missing ↦ rw missing tt
    | inr given ↦ rw given (
        then-IsGood (set_warp_enabled G api current.device_id current.access_token true calls)
          (fetch_state G api current.device_id current.access_token current.private_key
            current.public_key)
          λ after.
            fetch_state-IsGood current.device_id current.access_token current.private_key
              current.public_key after (key_given current given))
  ]

  apply_license-IsReady :
      (cfg : Config) (s : State) (calls : Calls)
      → is_usable s ≡ true
      → IsReady cfg (apply_license G api cfg s calls)
  unfolding apply_license update_license wrapped
  apply_license-IsReady cfg s calls good =
      ground (arith, text_eq_refl (normalize_license G api cfg.warp_license))

  -- Licensing what is usable, after a program that may fail.
  licensed_after :
      (cfg : Config) (x : Result State × Calls)
      → IsGood x
      → IsReady cfg (proceed x (apply_license G api cfg))
  licensed_after cfg (ok s, calls) good = apply_license-IsReady cfg s calls good
  licensed_after cfg (err e, calls) good = tt

  register_license-IsGood :
      (cfg : Config) (x : Result State × Calls)
      → IsGood x
      → IsGood (proceed x (register_license G api cfg))
  unfolding register_license update_license wrapped
  register_license-IsGood cfg (ok s, calls) good = ground arith
  register_license-IsGood cfg (err e, calls) good = tt

  register_with-IsGood :
      (cfg : Config) (private_key public_key : Text) (device : Device) (calls : Calls)
      → is_empty private_key ≡ false
      → IsGood (register_with G api cfg private_key public_key device calls)
  unfolding register_with
  register_with-IsGood cfg private_key public_key device calls given =
      elim (Bool-cases (is_empty device.id || is_empty device.token)) [
        | inl missing ↦ rw missing tt
        | inr present ↦ rw present (
            then-IsGood (set_warp_enabled G api device.id device.token true calls)
              (fetch_state G api device.id device.token private_key public_key
                >>= register_license G api cfg)
              λ after.
                register_license-IsGood cfg _
                  (fetch_state-IsGood device.id device.token private_key public_key after given))
      ]

  -- A generated private key is not empty.
  abbrev pub IsKey : Result (Text × Text) → Type 0
  IsKey (ok (private_key, public_key)) = is_empty private_key ≡ false
  IsKey (err e) = Unit {0}

  register_key-IsGood :
      (cfg : Config) (keys : Result (Text × Text)) (calls : Calls)
      → IsKey keys
      → IsGood (register_key G api cfg keys calls)
  unfolding register_key
  register_key-IsGood cfg (err e) calls k = tt
  register_key-IsGood cfg (ok (private_key, public_key)) calls k =
      go (register_device G api _ calls)
    where
      go :
          (x : Result Device × Calls)
          → IsGood (proceed x (register_with G api cfg private_key public_key))
      go (ok device, after) = register_with-IsGood cfg private_key public_key device after k
      go (err e, after) = tt

  after_refresh-IsReady :
      (cfg : Config) (current : State) (x : Result State × Calls)
      → IsKey api.generated_key
      → IsGood x
      → IsReady cfg (after_refresh G api cfg current x)
  unfolding after_refresh register
  after_refresh-IsReady cfg current (ok s, calls) k good = apply_license-IsReady cfg s calls good
  after_refresh-IsReady cfg current (err e, calls) k good =
      elim (Bool-cases (is_reusable_legacy_state current)) [
        | inl again ↦
            rw again (apply_license-IsReady cfg current calls (reusable_is_usable current again))
        | inr fresh ↦ rw fresh (
            licensed_after cfg (register_key G api cfg api.generated_key calls)
              (register_key-IsGood cfg api.generated_key calls k))
      ]

  -- Where a generated private key is not empty, EnsureDevice fails or returns a state with an id, a
  -- token and a private key, whose tunnel protocol is WireGuard, and whose license is the one that
  -- is set in the environment, if one is. This holds on each of its ways: a refreshed device, a
  -- state that is used again, and a new registration, whatever the service answers.
  pub ensure_device-IsReady :
      (cfg : Config) (loaded : State) (calls : Calls)
      → IsKey api.generated_key
      → IsReady cfg (ensure_device G api cfg loaded calls)
  unfolding ensure_device
  ensure_device-IsReady cfg loaded calls k =
      after_refresh-IsReady cfg (record loaded { schema_version = 1 })
        (refresh G api (record loaded { schema_version = 1 }) calls) k
        (refresh-IsGood (record loaded { schema_version = 1 }) calls)

-- ===== src/Legacy/Bootstrap/Named.antt =====
-- Which device and token the calls of EnsureDevice name.
use cfwg.Base.{
  true, false, ◌||◌, [], ◌∷◌, Text, is_empty, ◌≡◌, Result, ok, err, arith, Bool-cases, inl, inr,
  refl,
}
use cfwg.System.{Exec, proceed, ◌>>◌}
use cfwg.Config.{Config}
use cfwg.State.{State}
use cfwg.Warp.{Device}
use cfwg.Legacy.Endpoint.{GoText}
use cfwg.Legacy.Device.{state_from_warp_device, is_reusable_legacy_state}
use cfwg.Legacy.Device.Credentials.{state_from_warp_device-credentials}
use cfwg.Legacy.Bootstrap.{
  ApiCall, registered, fetched, licensed, enabled, WarpApi, Calls, refresh, register, register_key,
  register_with, register_license, apply_license, after_refresh, ensure_device, fetch_state,
  get_source_device, set_warp_enabled, register_device, update_license, has_no_credentials,
  required_wireguard, wrapped,
}

abbrev pub IsGiven : Text → Type 0
IsGiven s = is_empty s ≡ false

-- A call that names a device and a token, unless it registers.
abbrev pub IsNamed : ApiCall → Type 0
IsNamed (registered input) = Unit {0}
IsNamed (fetched id token) = IsGiven id × IsGiven token
IsNamed (licensed id token license) = IsGiven id × IsGiven token
IsNamed (enabled id token value) = IsGiven id × IsGiven token

abbrev pub AllNamed : Calls → Type 0
AllNamed [] = Unit {0}
AllNamed (call ∷ calls) = IsNamed call × AllNamed calls

-- All calls are named, and so is the device of the state, if there is one.
abbrev Holds : Result State × Calls → Type 0
Holds (ok s, calls) = AllNamed calls × IsGiven s.device_id × IsGiven s.access_token
Holds (err e, calls) = AllNamed calls

then-Holds :
    {A : Type 0} (x : Result A × Calls) (f : A → Exec Calls State)
    → AllNamed (x.1)
    → ((a : A) (calls : Calls) → AllNamed calls → Holds (f a calls))
    → Holds (proceed x f)
then-Holds (ok a, calls) f named goes = goes a calls named
then-Holds (err e, calls) f named goes = named

then_state-Holds :
    (x : Result State × Calls) (f : State → Exec Calls State)
    → Holds x
    → ((s : State) (calls : Calls) → Holds (ok s, calls) → Holds (f s calls))
    → Holds (proceed x f)
then_state-Holds (ok s, calls) f held goes = goes s calls held
then_state-Holds (err e, calls) f held goes = held

module _ (G : GoText) (api : WarpApi) where
  fetch_state-Holds :
      (id token private_key public_key : Text) (calls : Calls)
      → AllNamed calls
      → IsGiven id
      → IsGiven token
      → Holds (fetch_state G api id token private_key public_key calls)
  unfolding fetch_state get_source_device required_wireguard
  fetch_state-Holds id token private_key public_key calls named i t =
      then-Holds (get_source_device G api id token calls) _ ((i, t), named)
        λ device after named'.
          go device after named' (state_from_warp_device G device id token private_key public_key)
            refl
    where
      go :
          (device : Device) (after : Calls)
          → AllNamed after
          → (r : Result State) → state_from_warp_device G device id token private_key public_key ≡ r
          → Holds (required_wireguard r, after)
      go device after named' (err e) made = named'
      go device after named' (ok s) made = ground (
        arith,
        state_from_warp_device-credentials G device id token private_key public_key s made,
      )

  enable_and_fetch-Holds :
      (id token private_key public_key : Text) (calls : Calls)
      → AllNamed calls
      → IsGiven id
      → IsGiven token
      → Holds (
          (set_warp_enabled G api id token true
              >> fetch_state G api id token private_key public_key)
            calls)
  unfolding set_warp_enabled
  enable_and_fetch-Holds id token private_key public_key calls named i t =
      then-Holds (set_warp_enabled G api id token true calls) _ ((i, t), named)
        λ u after named'. fetch_state-Holds id token private_key public_key after named' i t

  refresh-Holds : (s : State) (calls : Calls) → AllNamed calls → Holds (refresh G api s calls)
  unfolding refresh has_no_credentials
  refresh-Holds s calls named = elim (Bool-cases (has_no_credentials s)) [
    | inl missing ↦ rw missing named
    | inr given ↦ rw given (
        enable_and_fetch-Holds s.device_id s.access_token s.private_key s.public_key calls named
          (ground arith) (ground arith))
  ]

  register_license-Holds :
      (cfg : Config) (s : State) (calls : Calls)
      → Holds (ok s, calls)
      → Holds (register_license G api cfg s calls)
  unfolding register_license update_license wrapped
  register_license-Holds cfg s calls held = ground arith

  apply_license-Holds :
      (cfg : Config) (s : State) (calls : Calls)
      → AllNamed calls
      → AllNamed ((apply_license G api cfg s calls).1)
  unfolding apply_license update_license wrapped
  apply_license-Holds cfg s calls named = ground arith

  register_with-Holds :
      (cfg : Config) (private_key public_key : Text) (device : Device) (calls : Calls)
      → AllNamed calls
      → Holds (register_with G api cfg private_key public_key device calls)
  unfolding register_with set_warp_enabled
  register_with-Holds cfg private_key public_key device calls named =
      elim (Bool-cases (is_empty device.id || is_empty device.token)) [
        | inl missing ↦ rw missing named
        | inr present ↦ rw present (
            then-Holds (set_warp_enabled G api device.id device.token true calls) _
              ((ground arith, ground arith), named)
              λ u after named'.
                then_state-Holds
                  (fetch_state G api device.id device.token private_key public_key after)
                  (register_license G api cfg)
                  (fetch_state-Holds device.id device.token private_key public_key after named'
                    (ground arith) (ground arith))
                  (register_license-Holds cfg))
      ]

  register_key-Holds :
      (cfg : Config) (keys : Result (Text × Text)) (calls : Calls)
      → AllNamed calls
      → Holds (register_key G api cfg keys calls)
  unfolding register_key register_device
  register_key-Holds cfg (err e) calls named = named
  register_key-Holds cfg (ok (private_key, public_key)) calls named =
      then-Holds (register_device G api _ calls) (register_with G api cfg private_key public_key)
        (tt, named) (register_with-Holds cfg private_key public_key)

  licensed-AllNamed :
      (cfg : Config) (x : Result State × Calls)
      → Holds x
      → AllNamed ((proceed x (apply_license G api cfg)).1)
  licensed-AllNamed cfg (ok s, calls) held = apply_license-Holds cfg s calls held.0
  licensed-AllNamed cfg (err e, calls) held = held

  after_refresh-AllNamed :
      (cfg : Config) (current : State) (x : Result State × Calls)
      → Holds x
      → AllNamed ((after_refresh G api cfg current x).1)
  unfolding after_refresh register
  after_refresh-AllNamed cfg current (ok s, calls) held = apply_license-Holds cfg s calls held.0
  after_refresh-AllNamed cfg current (err e, calls) held =
      elim (Bool-cases (is_reusable_legacy_state current)) [
        | inl again ↦ rw again (apply_license-Holds cfg current calls held)
        | inr fresh ↦ rw fresh (
            licensed-AllNamed cfg (register_key G api cfg api.generated_key calls)
              (register_key-Holds cfg api.generated_key calls held))
      ]

  -- Every call that EnsureDevice makes, on any of its ways and whatever the service answers, is a
  -- registration or names a device and a token that are not empty.
  pub ensure_device-AllNamed :
      (cfg : Config) (loaded : State) (calls : Calls)
      → AllNamed calls
      → AllNamed ((ensure_device G api cfg loaded calls).1)
  unfolding ensure_device
  ensure_device-AllNamed cfg loaded calls named =
      let current = record loaded { schema_version = 1 } in
      after_refresh-AllNamed cfg current (refresh G api current calls)
        (refresh-Holds current calls named)

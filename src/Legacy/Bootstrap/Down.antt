-- ===== src/Legacy/Bootstrap/Down.antt =====
-- EnsureDevice where each call of the WARP service fails.
use cfwg.Base.{
  ◌≡◌, refl, arith, Bool, true, false, ◌&&◌, Text, Result, ok, err, is_ok, String, Bool-cases, inl,
  inr,
}
use cfwg.System.{Exec, proceed, ◌>>◌}
use cfwg.Config.{Config}
use cfwg.State.{State}
use cfwg.Warp.{RegistrationInput}
use cfwg.Legacy.Endpoint.{GoText}
use cfwg.Legacy.Device.{is_reusable_legacy_state}
use cfwg.Legacy.Bootstrap.{
  WarpApi, Calls, refresh, register, register_key, register_with, apply_license, after_refresh,
  ensure_device, set_warp_enabled, register_device, update_license, has_no_credentials, wrapped,
  normalize_license, fetch_state,
}
use cfwg.Legacy.Bootstrap.Usable.{is_licensed}

-- A service whose calls fail.
pub record IsDown (api : WarpApi) : Type 0 where
  pub register_down :
      (calls : Calls) (input : RegistrationInput) → is_ok (api.register_answer calls input) ≡ false
  pub license_down :
      (calls : Calls) (id token license : Text)
      → is_ok (api.license_answer calls id token license) ≡ false
  pub enabled_down :
      (calls : Calls) (id token : Text) (value : Bool)
      → is_ok (api.enabled_answer calls id token value) ≡ false

-- The state, if it can be used without the service.
abbrev pub UsedAsIs : Bool → State → Result State → Type 0
UsedAsIs usable s (ok t) = (usable ≡ true) × (t ≡ s)
UsedAsIs usable s (err e) = usable ≡ false

module _ (G : GoText) (api : WarpApi) (down : IsDown api) (cfg : Config) where
  wrapped-down :
      {A : Type 0} (context : String) (r : Result A)
      → is_ok r ≡ false
      → is_ok (wrapped context r) ≡ false
  unfolding wrapped
  wrapped-down context (ok a) h = h
  wrapped-down context (err e) h = refl

  proceed-down :
      {A B : Type 0} (x : Result A × Calls) (f : A → Exec Calls B)
      → is_ok (x.0) ≡ false
      → is_ok ((proceed x f).0) ≡ false
  proceed-down (ok a, calls) f h = cc
  proceed-down (err e, calls) f h = refl

  enable-down :
      (id token : Text) (next : Exec Calls State) (calls : Calls)
      → is_ok (((set_warp_enabled G api id token true >> next) calls).0) ≡ false
  unfolding set_warp_enabled
  enable-down id token next calls =
      proceed-down (set_warp_enabled G api id token true calls) _
        (wrapped-down "enable warp device" _ (down.enabled_down calls id token true))

  refresh-down : (s : State) (calls : Calls) → is_ok ((refresh G api s calls).0) ≡ false
  unfolding refresh
  refresh-down s calls = elim (Bool-cases (has_no_credentials s)) [
    | inl missing ↦ rw missing refl
    | inr given ↦ rw given (
        enable-down s.device_id s.access_token
          (fetch_state G api s.device_id s.access_token s.private_key s.public_key) calls)
  ]

  register-down :
      (keys : Result (Text × Text)) (calls : Calls)
      → is_ok ((register_key G api cfg keys calls).0) ≡ false
  unfolding register_key register_device
  register-down (err e) calls = refl
  register-down (ok (private_key, public_key)) calls =
      proceed-down (register_device G api _ calls) (register_with G api cfg private_key public_key)
        (wrapped-down "register warp device" _ (down.register_down calls _))

  apply_license-down :
      (s : State) (calls : Calls)
      → UsedAsIs (is_licensed G api cfg s) s ((apply_license G api cfg s calls).0)
  unfolding apply_license update_license wrapped
  apply_license-down s calls = ground (
    arith,
    down.license_down calls s.device_id s.access_token (normalize_license G api cfg.warp_license),
  )

  licensed-down :
      (s : State) (x : Result State × Calls)
      → is_ok (x.0) ≡ false
      → UsedAsIs false s ((proceed x (apply_license G api cfg)).0)
  licensed-down s (ok t, calls) h = cc
  licensed-down s (err e, calls) h = refl

  after_refresh-down :
      (s : State) (x : Result State × Calls)
      → is_ok (x.0) ≡ false
      → UsedAsIs
          (is_reusable_legacy_state s && is_licensed G api cfg s)
          s
          ((after_refresh G api cfg s x).0)
  unfolding after_refresh register
  after_refresh-down s (ok t, calls) h = cc
  after_refresh-down s (err e, calls) h = elim (Bool-cases (is_reusable_legacy_state s)) [
    | inl again ↦ rw again (apply_license-down s calls)
    | inr fresh ↦ rw fresh (
        licensed-down s (register_key G api cfg api.generated_key calls)
          (register-down api.generated_key calls))
  ]

  -- Where the service is down, a state is used as it is, if it can be.
  pub ensure_device-down :
      (loaded : State) (calls : Calls)
      → let current = record loaded { schema_version = 1 } in
        UsedAsIs
          (is_reusable_legacy_state current && is_licensed G api cfg current)
          current
          ((ensure_device G api cfg loaded calls).0)
  unfolding ensure_device
  ensure_device-down loaded calls =
      let current = record loaded { schema_version = 1 } in
      after_refresh-down current (refresh G api current calls) (refresh-down current calls)

-- ===== src/Legacy/Bootstrap/Calls.antt =====
-- How often EnsureDevice registers a device or sends a license.
use cfwg.Base.{
  ℕ, suc, ◌+◌, ◌≤◌, true, ◌||◌, [], ◌∷◌, if◌then◌else◌, Text, is_empty, text_eq_refl, ◌≡◌, Result,
  ok, err, Error, arith, Bool-cases, ◌⊎◌, inl, inr,
}
use cfwg.System.{Exec, proceed, ◌>>=◌}
use cfwg.Config.{Config}
use cfwg.State.{State}
use cfwg.Warp.{Device}
use cfwg.Legacy.Endpoint.{GoText}
use cfwg.Legacy.Device.{is_reusable_legacy_state}
use cfwg.Legacy.Bootstrap.{
  ApiCall.registered, ApiCall.licensed, WarpApi, Calls, refresh, register, register_key,
  register_with, register_license, apply_license, after_refresh, ensure_device, fetch_state,
  get_source_device, set_warp_enabled, register_device, update_license, has_no_credentials,
  normalize_license, wrapped,
}
use cfwg.Legacy.Bootstrap.Usable.{is_licensed}

abbrev pub registrations : Calls → ℕ
registrations [] = 0
registrations (registered input ∷ calls) = suc (registrations calls)
registrations (_ ∷ calls) = registrations calls

abbrev pub licenses : Calls → ℕ
licenses [] = 0
licenses (licensed id token license ∷ calls) = suc (licenses calls)
licenses (_ ∷ calls) = licenses calls

-- At most `n` licenses and `k` registrations.
abbrev Few : ℕ → ℕ → Calls → Type 0
Few n k calls = (licenses calls ≤ n) × (registrations calls ≤ k)

proceed-Few :
    {A B : Type 0} (P : Result B × Calls → Type 0) (n k : ℕ) (x : Result A × Calls)
    (f : A → Exec Calls B)
    → Few n k (x.1)
    → ((e : Error) (calls : Calls) → Few n k calls → P (err e, calls))
    → ((a : A) (calls : Calls) → Few n k calls → P (f a calls))
    → P (proceed x f)
proceed-Few P n k (ok a, calls) f few fails goes = goes a calls few
proceed-Few P n k (err e, calls) f few fails goes = fails e calls few

module _ (G : GoText) (api : WarpApi) (cfg : Config) (n k : ℕ) where
  abbrev FewAfter : Result State × Calls → Type 0
  FewAfter r = Few n k (r.1)

  -- Either no license was sent beyond `n`, or one was and the state has it.
  abbrev Settled : Result State × Calls → Type 0
  Settled (err e, calls) = Few (suc n) k calls
  Settled (ok s, calls) = Few n k calls ⊎ (Few (suc n) k calls × (is_licensed G api cfg s ≡ true))

  fetch_state-Few :
      (id token private_key public_key : Text) (calls : Calls)
      → Few n k calls
      → FewAfter (fetch_state G api id token private_key public_key calls)
  unfolding fetch_state get_source_device
  fetch_state-Few id token private_key public_key calls few =
      proceed-Few FewAfter n k (get_source_device G api id token calls) _ few (λ e c f. f)
        λ device c f. f

  refresh-Few :
      (current : State) (calls : Calls) → Few n k calls → FewAfter (refresh G api current calls)
  unfolding refresh set_warp_enabled
  refresh-Few current calls few = elim (Bool-cases (has_no_credentials current)) [
    | inl missing ↦ rw missing few
    | inr given ↦ rw given (
        proceed-Few FewAfter n k
          (set_warp_enabled G api current.device_id current.access_token true calls)
          (λ u.
            fetch_state G api current.device_id current.access_token current.private_key
              current.public_key)
          few (λ e c f. f)
          λ u.
            fetch_state-Few current.device_id current.access_token current.private_key
              current.public_key)
  ]

  apply_license-Few :
      (s : State) (calls : Calls)
      → Few n k calls
      → Few (suc n) k ((apply_license G api cfg s calls).1)
  unfolding apply_license update_license wrapped
  apply_license-Few s calls few = ground arith

  apply_license_again :
      (s : State) (calls : Calls)
      → is_licensed G api cfg s ≡ true
      → apply_license G api cfg s calls ≡ (ok s, calls)
  unfolding apply_license
  apply_license_again s calls has = ground arith

  register_license-Settled :
      (s : State) (calls : Calls) → Few n k calls → Settled (register_license G api cfg s calls)
  unfolding register_license update_license wrapped
  register_license-Settled s calls few =
      ground (arith, text_eq_refl (normalize_license G api cfg.warp_license))

  register_with-Settled :
      (private_key public_key : Text) (device : Device) (calls : Calls)
      → Few n k calls
      → Settled (register_with G api cfg private_key public_key device calls)
  unfolding register_with set_warp_enabled
  register_with-Settled private_key public_key device calls few =
      elim (Bool-cases (is_empty device.id || is_empty device.token)) [
        | inl missing ↦ rw missing (weaker calls few)
        | inr present ↦ rw present (
            proceed-Few Settled n k (set_warp_enabled G api device.id device.token true calls)
              (λ u.
                fetch_state G api device.id device.token private_key public_key
                >>= register_license G api cfg)
              few (λ e. weaker)
              λ u c f.
                proceed-Few Settled n k
                  (fetch_state G api device.id device.token private_key public_key c)
                  (register_license G api cfg)
                  (fetch_state-Few device.id device.token private_key public_key c f) (λ e. weaker)
                  register_license-Settled)
      ]
    where
      weaker : (c : Calls) → Few n k c → Few (suc n) k c
      weaker c f = omega (arith, f)

  licensed_after_register :
      (x : Result State × Calls)
      → Settled x
      → Few (suc n) k ((proceed x (apply_license G api cfg)).1)
  licensed_after_register (err e, calls) few = few
  licensed_after_register (ok s, calls) (inl few) = apply_license-Few s calls few
  licensed_after_register (ok s, calls) (inr (few, has)) = rw (apply_license_again s calls has) few

module _ (G : GoText) (api : WarpApi) (cfg : Config) where
  register_key-Settled :
      (n k : ℕ) (keys : Result (Text × Text)) (calls : Calls)
      → Few n k calls
      → Settled G api cfg n (suc k) (register_key G api cfg keys calls)
  unfolding register_key register_device
  register_key-Settled n k (err e) calls few = omega (arith, few)
  register_key-Settled n k (ok (private_key, public_key)) calls few =
      proceed-Few (Settled G api cfg n (suc k)) n (suc k) (register_device G api _ calls)
        (register_with G api cfg private_key public_key) (omega (arith, few), omega (arith, few))
        (λ e c f. omega (arith, f))
        (register_with-Settled G api cfg n (suc k) private_key public_key)

  -- The registrations that a failed refresh allows.
  abbrev pub allowed : State → ℕ
  allowed loaded = if is_reusable_legacy_state (record loaded { schema_version = 1 }) then 0 else 1

  after_refresh-Few :
      (n k : ℕ) (current : State) (x : Result State × Calls)
      → Few n k (x.1)
      → Few
          (suc n)
          ((if is_reusable_legacy_state current then 0 else 1) + k)
          ((after_refresh G api cfg current x).1)
  unfolding after_refresh register
  after_refresh-Few n k current (ok s, calls) few =
      elim (Bool-cases (is_reusable_legacy_state current)) [
        | inl again ↦ rw again (omega (arith, apply_license-Few G api cfg n k s calls few))
        | inr fresh ↦ rw fresh (omega (arith, apply_license-Few G api cfg n k s calls few))
      ]
  after_refresh-Few n k current (err e, calls) few =
      elim (Bool-cases (is_reusable_legacy_state current)) [
        | inl again ↦ rw again (omega (arith, apply_license-Few G api cfg n k current calls few))
        | inr fresh ↦ rw fresh (
            omega (
              arith,
              licensed_after_register G api cfg n (suc k)
                  (register_key G api cfg api.generated_key calls)
                  (register_key-Settled n k api.generated_key calls few),
            ))
      ]

  -- EnsureDevice sends the license at most once, also where a registration has sent it already; it
  -- registers at most one device, and none where the loaded state can be used again.
  pub ensure_device-calls :
      (loaded : State) (calls : Calls)
      → (licenses ((ensure_device G api cfg loaded calls).1) ≤ suc (licenses calls))
        × (registrations ((ensure_device G api cfg loaded calls).1)
            ≤ allowed loaded + registrations calls)
  unfolding ensure_device
  ensure_device-calls loaded calls =
      let current = record loaded { schema_version = 1 } in
      after_refresh-Few (licenses calls) (registrations calls) current (refresh G api current calls)
        (refresh-Few G api cfg (licenses calls) (registrations calls) current calls
          (omega arith, omega arith))

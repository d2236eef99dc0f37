-- ===== src/Main/Wiring/Applied.antt =====
-- buildRuntimeDependencies of cmd/warp-socksd: what the wired program sets the network up for.
use cfwg.Base.{◌≡◌, subst, arith, true, Text, Result, ok, err, []}
use cfwg.Config.{Config}
use cfwg.State.{State}
use cfwg.Warp.Client.{new_client}
use cfwg.Legacy.Endpoint.{GoText}
use cfwg.Legacy.Bootstrap.{WarpApi, Calls, ensure_device}
use cfwg.Legacy.Bootstrap.Usable.{is_usable, IsReady, IsKey, ensure_device-IsReady}
use cfwg.Legacy.Service.{warp_api}
use cfwg.App.{History, Dependencies, run}
use cfwg.App.States.{AllStates, run-AllStates}
use cfwg.App.New.{new_app, required}
use cfwg.Main.{Host, RuntimeConfig}
use cfwg.Main.Wiring.{
  Surroundings, build_legacy_runtime_dependencies, build_runtime_dependencies, new_runtime_app,
}

-- A state with an id, a token and a private key of a WireGuard device.
abbrev pub IsUsable : State → Type 0
IsUsable s = is_usable s ≡ true

ready-IsUsable :
    (G : GoText) (api : WarpApi) (c : Config) (r : Result State × Calls) (s : State)
    → IsReady G api c r
    → r.0 ≡ ok s
    → IsUsable s
ready-IsUsable G api c (ok t, calls) s ready same = ground arith
ready-IsUsable G api c (err e, calls) s ready same = cc

same-AllStates :
    {x : Dependencies} (d : Dependencies)
    → ok x ≡ ok d
    → AllStates IsUsable ((run x []).1)
    → AllStates IsUsable ((run d []).1)
same-AllStates {x} d same all =
    let equal : x ≡ d = cc in
    subst (λ (y : Dependencies). AllStates IsUsable ((run y []).1)) equal all

module _ (G : GoText) (host : Host) {S : Type 0} (w : Surroundings S) (getenv : Text → Text)
    (keys : (api : WarpApi) (h : History) → IsKey G api ((w.randomness h).generated_key))
    (cfg : RuntimeConfig) (d : Dependencies) where
  legacy-AllStates :
      new_app (build_legacy_runtime_dependencies G host w getenv cfg) ≡ ok d
      → AllStates IsUsable ((run d []).1)
  unfolding new_app required build_legacy_runtime_dependencies warp_api
  legacy-AllStates wired = same-AllStates d wired (
      run-AllStates IsUsable _ λ h c loaded s answered.
        let api = warp_api w.http (new_client cfg.warp_api_base_url) (w.randomness h) in
        ready-IsUsable G api c (ensure_device G api c loaded (w.calls h)) s
          (ensure_device-IsReady G api c loaded (w.calls h) (keys api h)) answered)

  -- Where a generated key is not empty, the wired program saves, and sets the network up for, only
  -- states that have the id, the token and the private key of a device that uses WireGuard. This
  -- holds for every call of a whole run with its second attempt, whatever the WARP service, the
  -- files and the other parts answer.
  pub new_runtime_app-AllStates :
      new_runtime_app G host w getenv cfg ≡ ok d → AllStates IsUsable ((run d []).1)
  unfolding new_runtime_app build_runtime_dependencies
  new_runtime_app-AllStates made = ground (arith, legacy-AllStates)

-- ===== src/Main/Command/Outcome.antt =====
-- runWithEnv of cmd/warp-socksd/main.go: what a run of the whole program comes to.
use cfwg.Base.{
  ◌≡◌, refl, arith, Bool, true, false, ◌&&◌, Option, none, some, [], Text, Result, ok, err, Error,
  is_ok, ◌⊎◌, inl, inr,
}
use cfwg.Legacy.Endpoint.{GoText}
use cfwg.App.{History, Dependencies, run}
use cfwg.Main.{Host, RuntimeConfig, load_runtime_config}
use cfwg.Main.Wiring.{Surroundings, new_runtime_app}
use cfwg.Main.Command.{
  CommandWorld, Benign, run_error, shut_down, run_beside, run_app, run_program, run_with_env,
}

abbrev pub is_none : Option Error → Bool
is_none none = true
is_none (some e) = false

-- A shutdown that is not an error.
abbrev pub is_quiet : Benign → Option Error → Bool
is_quiet b none = true
is_quiet b (some e) = b.is_benign e

shut_down_lem :
    (b : Benign) (server shutdown : Option Error) (r : Result (Unit {0}))
    → is_ok (shut_down b shutdown (run_error server r))
      ≡ (is_ok r && is_none server && is_quiet b shutdown)
unfolding shut_down run_error
shut_down_lem b (some e) shutdown (ok u) = refl
shut_down_lem b (some e) shutdown (err x) = refl
shut_down_lem b none none (ok u) = refl
shut_down_lem b none (some e) (ok u) = ground arith
shut_down_lem b none none (err x) = refl
shut_down_lem b none (some e) (err x) = refl

module _ (G : GoText) (host : Host) {S : Type 0} (w : Surroundings S) (getenv : Text → Text)
    (b : Benign) (m : CommandWorld) where
  -- A program that does not come to a run fails with an error; one that does makes a whole run of
  -- the dependencies that it is wired with, and succeeds exactly if the run does, the health server
  -- has not failed, and its shutdown is quiet.
  abbrev pub HasOutcome : Result (Unit {0}) × History → Type 0
  HasOutcome (r, h) =
      ((is_ok r ≡ false) × (h ≡ []))
      ⊎ ((cfg : RuntimeConfig) × (d : Dependencies) × (load_runtime_config host (some getenv)
            ≡ ok cfg)
          × (new_runtime_app G host w getenv cfg ≡ ok d)
          × (h ≡ (run d []).1)
          × (is_ok r
              ≡ (is_ok ((run d []).0) && is_none m.server_error && is_quiet b m.shutdown_error)))

  run_app-HasOutcome :
      (cfg : RuntimeConfig) (r : Result Dependencies)
      → load_runtime_config host (some getenv) ≡ ok cfg
      → new_runtime_app G host w getenv cfg ≡ r
      → HasOutcome (run_app G host w getenv b m r)
  unfolding run_app run_beside
  run_app-HasOutcome cfg (err e) loaded made = inl (refl, refl)
  run_app-HasOutcome cfg (ok d) loaded made =
      inr
        (cfg, d, loaded, made, refl, shut_down_lem b m.server_error m.shutdown_error ((run d []).0))

  run_program-HasOutcome :
      (r : Result RuntimeConfig)
      → load_runtime_config host (some getenv) ≡ r
      → HasOutcome (run_program G host w getenv b m r)
  unfolding run_program
  run_program-HasOutcome (err e) loaded = inl (refl, refl)
  run_program-HasOutcome (ok cfg) loaded =
      run_app-HasOutcome cfg (new_runtime_app G host w getenv cfg) loaded refl

  -- Without a subcommand, the program either fails with an error before any dependency is called,
  -- or makes one whole run of the dependencies that it is wired with. It has ended this run before
  -- it returns, also where the health server fails first; and it succeeds exactly if the run does,
  -- the health server has not failed, and its shutdown is quiet.
  pub run_with_env-HasOutcome : HasOutcome (run_with_env G host w getenv b m [])
  unfolding run_with_env
  run_with_env-HasOutcome = run_program-HasOutcome (load_runtime_config host (some getenv)) refl

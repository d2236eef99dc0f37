-- ===== src/Main/Command.antt =====
-- runWithEnv and healthcheck of cmd/warp-socksd/main.go: the subcommands, and the program's run beside
-- its health server.
pub mod Outcome
use cfwg.Base.{
  ℕ, Bool, true, false, Option, none, some, List, [], ◌∷◌, ◌==◌, not, if◌then◌else◌, Text, str,
  text_eq, Result, ok, err, Error, message, message_int, message_text, wrap,
}
use cfwg.Legacy.Endpoint.{GoText}
use cfwg.App.{History, Dependencies, run}
use cfwg.Main.{Host, RuntimeConfig, load_runtime_config}
use cfwg.Main.Wiring.{Surroundings, new_runtime_app}

-- What the main program meets: the proxy process with its file, the status of a GET, the error with
-- which the health server ends before the run does, and the error of its shutdown.
pub record CommandWorld : Type 0 where
  pub serve_socks5 : Text → Result (Unit {0})
  pub get : Text → Result ℕ
  pub server_error : Option Error
  pub shutdown_error : Option Error

-- The errors of a shutdown that mean that nothing is wrong.
pub record Benign : Type 0 where
  pub is_benign : Error → Bool

answered : Result ℕ → Result (Unit {0})
answered (err e) = err (wrap "healthcheck request failed" e)
answered (ok status) =
    if not (status == 200) then err (message_int "healthcheck returned status" status) else ok tt

unfoldable pub healthcheck : CommandWorld → Text → Result (Unit {0})
unfolding answered
healthcheck m url = answered (m.get url)

-- A failed health server cancels the run, whose own result is then dropped.
run_error : Option Error → Result (Unit {0}) → Result (Unit {0})
run_error none result = result
run_error (some e) result = err (wrap "serve health endpoints" e)

shut_down : Benign → Option Error → Result (Unit {0}) → Result (Unit {0})
shut_down b error (err e) = err e
shut_down b none (ok u) = ok tt
shut_down b (some e) (ok u) = if b.is_benign e then ok tt else err (wrap "shutdown health server" e)

-- In both cases of the select statement, the run has ended when the health server is shut down.
unfoldable pub run_beside : Benign → CommandWorld → Dependencies → Result (Unit {0}) × History
unfolding run_error shut_down
run_beside b m d =
    let r = run d [] in (shut_down b m.shutdown_error (run_error m.server_error (r.0)), r.1)

serve : CommandWorld → List Text → Result (Unit {0})
serve m [] = err (message "serve-socks5 requires exactly one config path argument")
serve m (path ∷ []) = m.serve_socks5 path
serve m (path ∷ other ∷ rest) =
    err (message "serve-socks5 requires exactly one config path argument")

subcommand : CommandWorld → Text → Result RuntimeConfig → Result (Unit {0})
subcommand m name (err e) = err e
subcommand m name (ok cfg) =
    if text_eq name (str "healthcheck")
    then healthcheck m cfg.healthcheck_url
    else err (message_text "unknown subcommand" name)

module _ (G : GoText) (host : Host) {S : Type 0} (w : Surroundings S) (getenv : Text → Text)
    (b : Benign) (m : CommandWorld) where
  run_app : Result Dependencies → Result (Unit {0}) × History
  run_app (err e) = (err e, [])
  run_app (ok d) = run_beside b m d

  run_program : Result RuntimeConfig → Result (Unit {0}) × History
  unfolding run_app
  run_program (err e) = (err e, [])
  run_program (ok cfg) = run_app (new_runtime_app G host w getenv cfg)

  -- The arguments after the program's name. `main` gives os.Getenv, which is not nil.
  unfoldable pub run_with_env : List Text → Result (Unit {0}) × History
  unfolding run_program serve subcommand
  run_with_env [] = run_program (load_runtime_config host (some getenv))
  run_with_env (name ∷ rest) =
      if text_eq name (str "serve-socks5")
      then (serve m rest, [])
      else (subcommand m name (load_runtime_config host (some getenv)), [])

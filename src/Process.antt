-- ===== src/Process.antt =====
-- internal/process/socks5_supervisor.go and internal/process/common.go: the supervisor of the proxy
-- process. Here each call is whole; a call that finds the mutex locked by a call that has
-- returned waits for ever.
pub mod Lock
pub mod Exit
pub mod Interleaved
pub mod Ready
use cfwg.Base.{
  ℕ, Bool, true, false, ◌||◌, Option, none, some, List, [], ◌∷◌, ◌==◌, if◌then◌else◌, Text, str,
  is_empty, text_eq, Result, ok, err, Error, message, wrap,
}
use cfwg.Net.HostPort.{split_host_port, join_host_port}

-- The error of a process that has ended: an exec.ExitError, os.ErrProcessDone, or another one.
pub data WaitError : Type 0 where
  exit_error : Error → WaitError
  process_done : Error → WaitError
  other_error : Error → WaitError

abbrev pub wait_cause : WaitError → Error
wait_cause (exit_error e) = e
wait_cause (process_done e) = e
wait_cause (other_error e) = e

abbrev pub is_plain_exit : WaitError → Bool
is_plain_exit (exit_error e) = true
is_plain_exit (process_done e) = true
is_plain_exit (other_error e) = false

unfoldable pub unexpected_exit : WaitError → Error
unexpected_exit w = wrap "process exited unexpectedly" (wait_cause w)

unfoldable pub normalize_wait_error : Option WaitError → Bool → Option Error
unfolding unexpected_exit
normalize_wait_error none stopped = none
normalize_wait_error (some w) true = if is_plain_exit w then none else some (unexpected_exit w)
normalize_wait_error (some w) false = some (unexpected_exit w)

-- A process has a number, which also names its `done` channel.
pub record Supervisor : Type 0 where
  pub locked : Bool
  pub cmd : Option ℕ
  pub done : Option ℕ
  pub stopped : Bool

-- A call returns, or waits for the mutex for ever.
pub data Outcome (A : Type 0) : Type 0 where
  blocked : Outcome A
  returned : A → Supervisor → Outcome A

abbrev pub with_lock : {A : Type 0} → (Supervisor → Outcome A) → Supervisor → Outcome A
with_lock body s = if s.locked then blocked else body (record s { locked = true })

abbrev unlock : Supervisor → Supervisor
unlock s = record s { locked = false }

is_wildcard : Text → Bool
is_wildcard host = is_empty host || text_eq host (str "0.0.0.0") || text_eq host (str "::")

readiness_of : Result (Text × Text) → Result Text
unfolding is_wildcard
readiness_of (err e) = err e
readiness_of (ok (host, port)) =
    ok (join_host_port (if is_wildcard host then str "127.0.0.1" else host) port)

unfoldable pub local_readiness_address : Text → Result Text
unfolding readiness_of
local_readiness_address listen_addr = readiness_of (split_host_port listen_addr)

-- What a call of Start meets: the proxy's file, the new process, and the wait for its port.
pub record StartWorld : Type 0 where
  pub binary_path : Text
  pub config_path : Text
  pub listen_addr : Result Text
  pub new_process : Result ℕ
  pub tcp_ready : Result (Unit {0})

-- What a call of Stop meets: the errors of the two signals, where they are not os.ErrProcessDone,
-- and what the process ends with: within three seconds, or else after it is killed.
pub record StopWorld : Type 0 where
  pub terminate_error : Option Error
  pub ends_in_time : Bool
  pub kill_error : Option Error
  pub wait_error : Option WaitError

abbrev as_result : Option Error → Result (Unit {0})
as_result none = ok tt
as_result (some e) = err e

killed : StopWorld → Option Error → Result (Unit {0})
killed w (some e) = err e
killed w none = as_result (normalize_wait_error w.wait_error true)

terminated : StopWorld → Option Error → Result (Unit {0})
unfolding killed
terminated w (some e) = err e
terminated w none =
    if w.ends_in_time
    then as_result (normalize_wait_error w.wait_error true)
    else killed w w.kill_error

stop_process : StopWorld → Option ℕ → Result (Unit {0})
unfolding terminated
stop_process w none = ok tt
stop_process w (some p) = terminated w w.terminate_error

unfoldable pub stop : StopWorld → Supervisor → Outcome (Result (Unit {0}))
unfolding stop_process
stop w = with_lock λ s. returned (stop_process w s.cmd) (unlock (record s { stopped = true }))

-- Start does not look at what Stop returns.
discard : Error → Outcome (Result (Unit {0})) → Outcome (Result (Unit {0}))
discard e blocked = blocked
discard e (returned r s) = returned (err e) s

await_ready : StopWorld → Result (Unit {0}) → Supervisor → Outcome (Result (Unit {0}))
unfolding discard
await_ready w (ok u) s = returned (ok tt) s
await_ready w (err e) s = discard (wrap "wait for socks5 readiness" e) (stop w s)

-- With the mutex locked. It stays locked where the process does not start.
start_locked :
    StartWorld → StopWorld → Option ℕ → Result ℕ → Supervisor → Outcome (Result (Unit {0}))
unfolding await_ready
start_locked w v (some p) made s =
    returned (err (message "socks5 process already running")) (unlock s)
start_locked w v none (err e) s = returned (err e) s
start_locked w v none (ok p) s =
    await_ready v w.tcp_ready (unlock (record s { cmd = some p; done = some p; stopped = false }))

-- The first locked section of Start alone, up to the wait for the port.
launch_locked : Option ℕ → Result ℕ → Supervisor → Outcome (Result ℕ)
launch_locked (some p) made s = returned (err (message "socks5 process already running")) (unlock s)
launch_locked none (err e) s = returned (err e) s
launch_locked none (ok p) s =
    returned (ok p) (unlock (record s { cmd = some p; done = some p; stopped = false }))

unfoldable pub launch : Result ℕ → Supervisor → Outcome (Result ℕ)
unfolding launch_locked
launch made = with_lock λ s. launch_locked s.cmd made s

start_at : StartWorld → StopWorld → Result Text → Supervisor → Outcome (Result (Unit {0}))
unfolding start_locked
start_at w v (err e) s = returned (err (wrap "resolve socks5 readiness address" e)) s
start_at w v (ok address) s = with_lock (λ k. start_locked w v k.cmd w.new_process k) s

start_loaded : StartWorld → StopWorld → Result Text → Supervisor → Outcome (Result (Unit {0}))
unfolding start_at
start_loaded w v (err e) s = returned (err (wrap "load socks5 config" e)) s
start_loaded w v (ok listen_addr) s = start_at w v (local_readiness_address listen_addr) s

unfoldable pub start : StartWorld → StopWorld → Supervisor → Outcome (Result (Unit {0}))
unfolding start_loaded
start w v s =
    if is_empty w.binary_path
    then returned (err (message "socks5 binary path is required")) s
    else if is_empty w.config_path
    then returned (err (message "socks5 config path is required")) s
    else start_loaded w v w.listen_addr s

-- The channel, or none for one that is closed.
unfoldable pub done_channel : Supervisor → Outcome (Option ℕ)
done_channel = with_lock λ s. returned s.done (unlock s)

same_process : Option ℕ → ℕ → Bool
same_process none p = false
same_process (some q) p = q == p

-- The goroutine `wait`, when the process ends. It gives what is sent to the process's channel.
unfoldable pub wait_exit : ℕ → Option WaitError → Supervisor → Outcome (Option Error)
unfolding same_process
wait_exit p exit = with_lock λ s.
    returned (normalize_wait_error exit s.stopped)
      (unlock (record s { cmd = if same_process s.cmd p then none else s.cmd }))

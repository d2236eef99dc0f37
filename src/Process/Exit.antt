-- ===== src/Process/Exit.antt =====
-- internal/process: what is told of the end of a process, and the address that is waited for.
use cfwg.Base.{
  ℕ, true, false, ◌||◌, none, some, ◌≡◌, refl, if◌then◌else◌, Text, str, is_empty, text_eq, Result,
  ok, ==_refl,
}
use cfwg.Net.HostPort.{join_host_port, split-join, IsPlain, Absent}
use cfwg.Process.{
  Supervisor, returned, StartWorld, StopWorld, WaitError, unexpected_exit, is_plain_exit, stop,
  start, wait_exit, start_loaded, start_at, start_locked, await_ready, local_readiness_address,
  readiness_of, is_wildcard, normalize_wait_error, same_process,
}

-- An address without its wildcard host: the local host stands for "", "0.0.0.0" and "::".
abbrev pub local_host : Text → Text
local_host host =
    if is_empty host || text_eq host (str "0.0.0.0") || text_eq host (str "::")
    then str "127.0.0.1"
    else host

-- The address that Start waits for has the port of the address that the proxy listens on, and its
-- host, or the local host where the proxy listens on every address. The host has no bracket, and the
-- port no bracket and no colon.
pub local_readiness_address-join_host_port :
    (host port : Text)
    → Absent b'[' host
    → Absent b']' host
    → IsPlain port
    → local_readiness_address (join_host_port host port)
      ≡ ok (join_host_port (local_host host) port)
unfolding local_readiness_address readiness_of is_wildcard
local_readiness_address-join_host_port host port open_free close_free plain =
    rw (split-join host port open_free close_free plain) refl

-- A process that has been started and is ready. When it ends before Stop is called, its error, of
-- any kind, is told as an unexpected exit; when it ends after Stop, the error of a plain exit is not
-- told. In both cases it is no longer the running process, so that a Start is possible again.
pub start-stop-wait_exit :
    (w : StartWorld) (v u : StopWorld) (listen_addr address : Text) (p : ℕ) (e : WaitError)
    (s : Supervisor)
    → is_empty w.binary_path ≡ false
    → is_empty w.config_path ≡ false
    → w.listen_addr ≡ ok listen_addr
    → local_readiness_address listen_addr ≡ ok address
    → w.new_process ≡ ok p
    → w.tcp_ready ≡ ok tt
    → s.locked ≡ false
    → s.cmd ≡ none
    → (after : Supervisor) × (start w v s ≡ returned (ok tt) after)
      × (wait_exit p (some e) after
          ≡ returned (some (unexpected_exit e)) (record after { cmd = none }))
      × ((r : Result (Unit {0})) × (stop u after ≡ returned r (record after { stopped = true })))
      × (wait_exit p (some e) (record after { stopped = true })
          ≡ returned
              (if is_plain_exit e then none else some (unexpected_exit e))
              (record after { stopped = true; cmd = none }))
unfolding start start_loaded start_at start_locked await_ready stop wait_exit normalize_wait_error
    same_process
start-stop-wait_exit w v u listen_addr address p e s binary config loaded resolved made ready free
      idle =
    (
      record { locked = false; cmd = some p; done = some p; stopped = false },
      rw (binary, config, loaded, resolved, made, free, idle, ready) refl,
      rw (==_refl p) refl,
      (_, refl),
      rw (==_refl p) refl,
    )

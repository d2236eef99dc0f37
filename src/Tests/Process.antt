-- ===== src/Tests/Process.antt =====
-- The supervisor at a concrete start.
use cfwg.Base.{
  ◌≡◌, refl, ℕ, true, false, Option, none, some, [], ◌∷◌, ok, err, message, Text, Result,
  if◌then◌else◌, ◌==◌,
}
use cfwg.Net.HostPort.{join_host_port, IsPlain, has_byte}
use cfwg.Process.Interleaved.{World, set_phase, running, idle, starts, steps, launches}
use cfwg.Process.Interleaved.Single.{one_process}
use cfwg.Process.{
  launch, Supervisor, blocked, returned, StartWorld, StopWorld, WaitError, exit_error, start, stop,
  done_channel, wait_exit, unexpected_exit, is_plain_exit,
}
use cfwg.Process.Ready.{Rounds, neither, Decided, wait_for_tcp_ready, wait_for_tcp_ready-Decided}
use cfwg.Process.Lock.{IsFree, calls-IsFree, start_leaves_lock}
use cfwg.Process.Exit.{local_host, local_readiness_address-join_host_port, start-stop-wait_exit}

abbrev port : Text
port = 49 ∷ 48 ∷ 56 ∷ 48 ∷ []

abbrev own_address : Text
own_address = join_host_port (local_host []) port

no_open : has_byte b'[' [] ≡ false
unfolding has_byte
no_open = refl

no_close : has_byte b']' [] ≡ false
unfolding has_byte
no_close = refl

port-IsPlain : IsPlain port
unfolding has_byte
port-IsPlain = record { no_colon = refl; no_open = refl; no_close = refl }

abbrev at_rest : Supervisor
at_rest = record { locked = false; cmd = none; done = none; stopped = false }

abbrev start_world : StartWorld
start_world = record {
  binary_path = 98 ∷ [];
  config_path = 99 ∷ [];
  listen_addr = ok (join_host_port [] port);
  new_process = ok 7;
  tcp_ready = ok tt;
}

abbrev missing : StartWorld
missing = record start_world { new_process = err (message "no such file") }

abbrev ends : StopWorld
ends = record { terminate_error = none; ends_in_time = true; kill_error = none; wait_error = none }

abbrev exit : WaitError
exit = exit_error (message "signal: terminated")

calls-IsFree_example :
    IsFree (start start_world ends at_rest)
    × IsFree (stop ends at_rest)
    × IsFree (done_channel at_rest)
    × IsFree (wait_exit 7 (some exit) at_rest)
calls-IsFree_example = calls-IsFree start_world ends 7 7 (some exit) at_rest refl refl

start_leaves_lock_example :
    (start missing ends at_rest
      ≡ returned (err (message "no such file")) (record at_rest { locked = true }))
    × ((u : StopWorld) → stop u (record at_rest { locked = true }) ≡ blocked)
    × (done_channel (record at_rest { locked = true }) ≡ blocked)
    × (start missing ends (record at_rest { locked = true }) ≡ blocked)
    × ((q : ℕ) (e : Option WaitError) → wait_exit q e (record at_rest { locked = true }) ≡ blocked)
start_leaves_lock_example =
    start_leaves_lock missing ends (join_host_port [] port) own_address (message "no such file")
      at_rest refl refl refl
      (local_readiness_address-join_host_port [] port no_open no_close port-IsPlain) refl refl refl

start-stop-wait_exit_example :
    (after : Supervisor) × (start start_world ends at_rest ≡ returned (ok tt) after)
    × (wait_exit 7 (some exit) after
        ≡ returned (some (unexpected_exit exit)) (record after { cmd = none }))
    × ((r : Result (Unit {0})) × (stop ends after ≡ returned r (record after { stopped = true })))
    × (wait_exit 7 (some exit) (record after { stopped = true })
        ≡ returned
            (if is_plain_exit exit then none else some (unexpected_exit exit))
            (record after { stopped = true; cmd = none }))
start-stop-wait_exit_example =
    start-stop-wait_exit start_world ends ends (join_host_port [] port) own_address 7 exit at_rest
      refl refl refl (local_readiness_address-join_host_port [] port no_open no_close port-IsPlain)
      refl refl refl refl

abbrev alone : Supervisor
alone = record { locked = false; cmd = some 0; done = some 0; stopped = false }

launched : launch (ok 0) idle.sup ≡ returned (ok 0) alone
unfolding launch
launched = refl

abbrev one : World
one = record { sup = alone; phase = set_phase 0 running idle.phase; next = 1 }

one_process_example : (◌≡◌ {A = ℕ} 0 0) × (alone.cmd ≡ some 0)
one_process_example = one_process one 0 0 (steps starts (launches alone launched)) refl refl

-- The port opens in the third round, and the deadline passes after the fifth.
abbrev slow : Rounds
slow = record { accepts = λ k. k == 2; event = λ k. neither; is_late = λ k. k == 4 }

wait_for_tcp_ready-Decided_example :
    Decided slow own_address 0 4 (wait_for_tcp_ready slow own_address 5 0)
wait_for_tcp_ready-Decided_example = wait_for_tcp_ready-Decided slow own_address 4 refl

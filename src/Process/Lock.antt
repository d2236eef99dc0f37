-- ===== src/Process/Lock.antt =====
-- internal/process/socks5_supervisor.go: which calls leave the mutex locked.
use cfwg.Base.{
  ℕ, Bool, true, false, Option, none, some, ◌≡◌, refl, if◌then◌else◌, Text, is_empty, Result, ok,
  err, Error, message,
}
use cfwg.Process.{
  Supervisor, Outcome, blocked, returned, StartWorld, StopWorld, WaitError, stop, start,
  done_channel, wait_exit, start_loaded, start_at, start_locked, await_ready, discard,
  local_readiness_address,
}

-- A call that returns, with the mutex unlocked.
abbrev pub IsFree : {A : Type 0} → Outcome A → Type 0
IsFree blocked = ⊥
IsFree (returned r s) = s.locked ≡ false

stop-IsFree : (v : StopWorld) (s : Supervisor) → s.locked ≡ false → IsFree (stop v s)
unfolding stop
stop-IsFree v s free = rw free refl

await_ready-IsFree :
    (v : StopWorld) (r : Result (Unit {0})) (s : Supervisor)
    → s.locked ≡ false
    → IsFree (await_ready v r s)
unfolding await_ready discard stop
await_ready-IsFree v (ok u) s free = free
await_ready-IsFree v (err e) s free = rw free refl

if-IsFree :
    {A : Type 0} (b : Bool) (x y : Outcome A) → IsFree x → IsFree y → IsFree (if b then x else y)
if-IsFree true x y p q = p
if-IsFree false x y p q = q

start_locked-IsFree :
    (w : StartWorld) (v : StopWorld) (cmd : Option ℕ) (p : ℕ) (s : Supervisor)
    → IsFree (start_locked w v cmd (ok p) s)
unfolding start_locked
start_locked-IsFree w v (some q) p s = refl
start_locked-IsFree w v none p s = await_ready-IsFree v w.tcp_ready _ refl

start_at-IsFree :
    (w : StartWorld) (v : StopWorld) (p : ℕ) (r : Result Text) (s : Supervisor)
    → w.new_process ≡ ok p
    → s.locked ≡ false
    → IsFree (start_at w v r s)
unfolding start_at
start_at-IsFree w v p (err e) s made free = free
start_at-IsFree w v p (ok address) s made free =
    rw (free, made) (start_locked-IsFree w v s.cmd p (record s { locked = true }))

start_loaded-IsFree :
    (w : StartWorld) (v : StopWorld) (p : ℕ) (r : Result Text) (s : Supervisor)
    → w.new_process ≡ ok p
    → s.locked ≡ false
    → IsFree (start_loaded w v r s)
unfolding start_loaded
start_loaded-IsFree w v p (err e) s made free = free
start_loaded-IsFree w v p (ok listen_addr) s made free =
    start_at-IsFree w v p (local_readiness_address listen_addr) s made free

-- Where the mutex is free, every call returns and leaves it free: Stop, Done, the end of a process,
-- and Start where the system can start the process.
pub calls-IsFree :
    (w : StartWorld) (v : StopWorld) (p q : ℕ) (exit : Option WaitError) (s : Supervisor)
    → w.new_process ≡ ok p
    → s.locked ≡ false
    → IsFree (start w v s)
      × IsFree (stop v s)
      × IsFree (done_channel s)
      × IsFree (wait_exit q exit s)
unfolding start done_channel wait_exit
calls-IsFree w v p q exit s made free = (
  if-IsFree (is_empty w.binary_path) _
      (if is_empty w.config_path
        then returned (err (message "socks5 config path is required")) s
        else start_loaded w v w.listen_addr s)
      free
      (if-IsFree (is_empty w.config_path) _ (start_loaded w v w.listen_addr s) free
        (start_loaded-IsFree w v p w.listen_addr s made free)),
  stop-IsFree v s free,
  rw free refl,
  rw free refl,
)

-- Where the system cannot start the process, Start returns the error with the mutex locked, and
-- from then on Stop, Done, a second Start with the same settings and the end of a process wait for
-- ever.
pub start_leaves_lock :
    (w : StartWorld) (v : StopWorld) (listen_addr address : Text) (e : Error) (s : Supervisor)
    → is_empty w.binary_path ≡ false
    → is_empty w.config_path ≡ false
    → w.listen_addr ≡ ok listen_addr
    → local_readiness_address listen_addr ≡ ok address
    → w.new_process ≡ err e
    → s.locked ≡ false
    → s.cmd ≡ none
    → (start w v s ≡ returned (err e) (record s { locked = true }))
      × ((u : StopWorld) → stop u (record s { locked = true }) ≡ blocked)
      × (done_channel (record s { locked = true }) ≡ blocked)
      × (start w v (record s { locked = true }) ≡ blocked)
      × ((q : ℕ) (exit : Option WaitError)
          → wait_exit q exit (record s { locked = true }) ≡ blocked)
unfolding start start_loaded start_at start_locked stop done_channel wait_exit
start_leaves_lock w v listen_addr address e s binary config loaded resolved fails free idle =
    rw (binary, config, loaded, resolved, fails, free, idle)
      (refl, λ u. refl, refl, refl, λ q exit. refl)

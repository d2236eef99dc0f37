-- ===== src/Process/Interleaved/Whole.antt =====
-- Start of internal/process/socks5_supervisor.go as its first locked section and the wait after it.
use cfwg.Base.{
  ℕ, ◌≡◌, refl, Bool, true, false, Option, none, some, Text, Result, ok, err, if◌then◌else◌,
}
use cfwg.Process.{
  Supervisor, Outcome, blocked, returned, StartWorld, StopWorld, start_at, start_locked,
  await_ready, launch, launch_locked,
}

module _ (w : StartWorld) (v : StopWorld) where
  after_launch : Outcome (Result ℕ) → Outcome (Result (Unit {0}))
  after_launch blocked = blocked
  after_launch (returned (err e) s) = returned (err e) s
  after_launch (returned (ok p) s) = await_ready v w.tcp_ready s

  locked-launch :
      (b : Bool) (cmd : Option ℕ) (made : Result ℕ) (s : Supervisor)
      → (if b then blocked else start_locked w v cmd made s)
        ≡ after_launch (if b then blocked else launch_locked cmd made s)
  unfolding start_locked launch_locked after_launch
  locked-launch true cmd made s = refl
  locked-launch false (some p) made s = refl
  locked-launch false none (err e) s = refl
  locked-launch false none (ok p) s = refl

  -- A Start that meets no other goroutine is its first section and then the wait.
  start_at-launch :
      (address : Text) (s : Supervisor)
      → start_at w v (ok address) s ≡ after_launch (launch w.new_process s)
  unfolding start_at launch
  start_at-launch address s =
      locked-launch s.locked s.cmd w.new_process (record s { locked = true })

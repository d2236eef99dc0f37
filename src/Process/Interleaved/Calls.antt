-- ===== src/Process/Interleaved/Calls.antt =====
-- internal/process/socks5_supervisor.go: what the sections under the mutex do to the supervisor's process.
use cfwg.Base.{
  ℕ, ◌≡◌, arith, Bool, true, false, Option, none, some, if◌then◌else◌, Result, ok, err, Error,
  ==_refl,
}
use cfwg.Process.{
  Supervisor, Outcome, returned, blocked, WaitError, StopWorld, launch, launch_locked, stop,
  done_channel, wait_exit, same_process,
}

-- What is returned by a call that holds the mutex.
lock-returned :
    {A : Type 0} (b : Bool) (body : Outcome A) (a : A) (after : Supervisor)
    → (if b then blocked else body) ≡ returned a after
    → body ≡ returned a after
lock-returned true body a after h = cc
lock-returned false body a after h = h

launch_locked-ok :
    (cmd : Option ℕ) (s after : Supervisor) (p q : ℕ)
    → launch_locked cmd (ok p) s ≡ returned (ok q) after
    → (cmd ≡ none) × (after.cmd ≡ some p)
unfolding launch_locked
launch_locked-ok (some r) s after p q h = cc
launch_locked-ok none s after p q h = ground arith

pub launch-ok :
    (s after : Supervisor) (p q : ℕ)
    → launch (ok p) s ≡ returned (ok q) after
    → (s.cmd ≡ none) × (after.cmd ≡ some p)
unfolding launch
launch-ok s after p q h =
    launch_locked-ok s.cmd (record s { locked = true }) after p q
      (lock-returned s.locked (launch_locked s.cmd (ok p) (record s { locked = true })) _ after h)

launch_locked-err :
    (cmd : Option ℕ) (made : Result ℕ) (s after : Supervisor) (e : Error)
    → launch_locked cmd made s ≡ returned (err e) after
    → after.cmd ≡ s.cmd
unfolding launch_locked
launch_locked-err (some r) made s after e h = ground arith
launch_locked-err none (err x) s after e h = ground arith
launch_locked-err none (ok p) s after e h = cc

pub launch-err :
    (s after : Supervisor) (made : Result ℕ) (e : Error)
    → launch made s ≡ returned (err e) after
    → after.cmd ≡ s.cmd
unfolding launch
launch-err s after made e h =
    launch_locked-err s.cmd made (record s { locked = true }) after e
      (lock-returned s.locked (launch_locked s.cmd made (record s { locked = true })) _ after h)

pub stop-cmd :
    (v : StopWorld) (s after : Supervisor) (r : Result (Unit {0}))
    → stop v s ≡ returned r after
    → after.cmd ≡ s.cmd
unfolding stop
stop-cmd v s after r h = ground arith

pub done_channel-cmd :
    (s after : Supervisor) (r : Option ℕ) → done_channel s ≡ returned r after → after.cmd ≡ s.cmd
unfolding done_channel
done_channel-cmd s after r h = ground arith

-- The end of the supervisor's own process.
pub wait_exit-own :
    (p : ℕ) (exit : Option WaitError) (s after : Supervisor) (r : Option Error)
    → wait_exit p exit s ≡ returned r after
    → s.cmd ≡ some p
    → after.cmd ≡ none
unfolding wait_exit same_process
wait_exit-own p exit s after r h own = ground (arith, ==_refl p)

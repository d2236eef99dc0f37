-- ===== src/Process/Interleaved.antt =====
-- internal/process/socks5_supervisor.go with goroutines in any order: calls of Start, which may wait for
-- the port while others run, calls of Stop, and the goroutine `wait` of each process.
mod Calls
pub mod Single
mod Whole
use cfwg.Base.{
  ℕ, suc, ◌≡◌, Bool, true, false, Option, none, some, List, ◌==◌, if◌then◌else◌, Result, ok, err,
  Error,
}
use cfwg.Process.{
  Supervisor, Outcome, returned, WaitError, StopWorld, launch, stop, done_channel, wait_exit,
}

-- A process by its number: it does not exist yet, or runs, or has ended while its goroutine has not
-- yet come to the locked section, or this has been passed, or its channel is filled and closed.
pub data Phase : Type 0 where
  unborn : Phase
  running : Phase
  ended : Option WaitError → Phase
  cleared : Option Error → Phase
  told : Option Error → Phase

pub record World : Type 0 where
  pub sup : Supervisor
  pub phase : ℕ → Phase
  pub next : ℕ

abbrev pub set_phase : ℕ → Phase → (ℕ → Phase) → ℕ → Phase
set_phase p new phase q = if q == p then new else phase q

-- The program begins with no process.
abbrev pub idle : World
idle = record {
  sup = record { locked = false; cmd = none; done = none; stopped = false };
  phase = λ p. unborn;
  next = 0;
}

-- One goroutine's work under the mutex, or one event outside of it.
pub data Step (w : World) : World → Type 0 where
  launches :
      (after : Supervisor)
      → launch (ok w.next) w.sup ≡ returned (ok w.next) after
      → Step w (record { sup = after; phase = set_phase w.next running w.phase; next = suc w.next })
  fails :
      (made : Result ℕ) (e : Error) (after : Supervisor)
      → launch made w.sup ≡ returned (err e) after
      → Step w (record w { sup = after })
  marks :
      (v : StopWorld) (r : Result (Unit {0})) (after : Supervisor)
      → stop v w.sup ≡ returned r after
      → Step w (record w { sup = after })
  asks :
      (r : Option ℕ) (after : Supervisor)
      → done_channel w.sup ≡ returned r after
      → Step w (record w { sup = after })
  ends :
      (p : ℕ) (exit : Option WaitError)
      → w.phase p ≡ running
      → Step w (record w { phase = set_phase p (ended exit) w.phase })
  clears :
      (p : ℕ) (exit : Option WaitError) (r : Option Error) (after : Supervisor)
      → w.phase p ≡ ended exit
      → wait_exit p exit w.sup ≡ returned r after
      → Step w (record w { sup = after; phase = set_phase p (cleared r) w.phase })
  tells :
      (p : ℕ) (r : Option Error)
      → w.phase p ≡ cleared r
      → Step w (record w { phase = set_phase p (told r) w.phase })

pub data Reachable : World → Type 0 where
  starts : Reachable idle
  steps : {w w' : World} → Reachable w → Step w w' → Reachable w'

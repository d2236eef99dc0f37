-- ===== src/Process/Interleaved/Single.antt =====
-- internal/process/socks5_supervisor.go: how many processes run at once.
use cfwg.Base.{
  ℕ, suc, ◌≡◌, ◌≢◌, refl, sym, ◌∙◌, subst, arith, Bool, true, false, Option, none, some, ◌==◌, ok,
  Error, Bool-cases, inl, inr, ==_iff, ==_refl, leb,
}
use cfwg.Process.{Supervisor, returned, WaitError, launch}
use cfwg.Process.Interleaved.Calls.{
  launch-ok, launch-err, stop-cmd, done_channel-cmd, wait_exit-own,
}
use cfwg.Process.Interleaved.{
  Phase, unborn, running, ended, cleared, told, World, set_phase, idle, Step, launches, fails,
  marks, asks, ends, clears, tells, Reachable, starts, steps,
}

-- The process exists, and its goroutine has not passed the locked section.
abbrev pub is_pending : Phase → Bool
is_pending unborn = false
is_pending running = true
is_pending (ended exit) = true
is_pending (cleared r) = false
is_pending (told r) = false

-- The supervisor's process is the only one that is pending, and the numbers from the next one on are
-- not used.
pub record IsSingle (w : World) : Type 0 where
  pub current : (p : ℕ) → is_pending (w.phase p) ≡ true → w.sup.cmd ≡ some p
  pub pending : (p : ℕ) → w.sup.cmd ≡ some p → is_pending (w.phase p) ≡ true
  pub unused : (p : ℕ) → leb w.next p ≡ true → w.phase p ≡ unborn

idle-IsSingle : IsSingle idle
idle-IsSingle = record { current = λ p h. cc; pending = λ p h. cc; unused = λ p h. refl }

-- The supervisor after a step with the same process.
same_cmd-IsSingle :
    (w : World) (after : Supervisor)
    → after.cmd ≡ w.sup.cmd
    → IsSingle w
    → IsSingle (record w { sup = after })
same_cmd-IsSingle w after same single = record {
  current = λ p h. same ∙ single.current p h;
  pending = λ p h. single.pending p (sym same ∙ h);
  unused = single.unused;
}

set_phase-cases :
    (P : Phase → Type 0) (p q : ℕ) (new : Phase) (f : ℕ → Phase)
    → (q ≡ p → P new)
    → (q ≢ p → P (f q))
    → P (set_phase p new f q)
set_phase-cases P p q new f own other = elim (Bool-cases (q == p)) [
  | inl same ↦ rw same (own ((==_iff q p).0 same))
  | inr apart ↦ rw apart (other λ e. ground (arith, ==_refl p))
]

none_is_some : {n : ℕ} → none ≡ some n → ⊥
none_is_some e = cc

-- A process that exists keeps its number.
unused-kept :
    (w : World) (p : ℕ) (new : Phase)
    → IsSingle w
    → w.phase p ≢ unborn
    → (q : ℕ) → leb w.next q ≡ true
    → set_phase p new w.phase q ≡ unborn
unused-kept w p new single exists q h =
    set_phase-cases (λ x. x ≡ unborn) p q new w.phase
      (λ same. absurd (exists (single.unused p (subst (λ (r : ℕ). leb w.next r ≡ true) same h))))
      (λ apart. single.unused q h)

launches-IsSingle :
    (w : World) (after : Supervisor)
    → launch (ok w.next) w.sup ≡ returned (ok w.next) after
    → IsSingle w
    → IsSingle (record { sup = after; phase = set_phase w.next running w.phase; next = suc w.next })
launches-IsSingle w after launched single =
    let (was_none, now) = launch-ok w.sup after w.next w.next launched in
    record {
      current = λ p.
          set_phase-cases (λ x. is_pending x ≡ true → after.cmd ≡ some p) w.next p running w.phase
            (λ same h. rw same now) (λ apart h. absurd (never w p single was_none h));
      pending = λ p h.
          set_phase-cases (λ x. is_pending x ≡ true) w.next p running w.phase (λ same. refl)
            (λ apart. absurd (apart (other_number (sym now ∙ h))));
      unused = λ p h.
          set_phase-cases (λ x. x ≡ unborn) w.next p running w.phase
            (λ same. absurd (not_next p same h)) (λ apart. single.unused p (later p h));
    }
  where
    never : (w : World) (p : ℕ) → IsSingle w → w.sup.cmd ≡ none → is_pending (w.phase p) ≡ true → ⊥
    never w p single was_none h = none_is_some (sym was_none ∙ single.current p h)

    other_number : {m n : ℕ} → some m ≡ some n → n ≡ m
    other_number e = cc

    not_next : (p : ℕ) → p ≡ w.next → leb (suc w.next) p ≡ true → ⊥
    not_next p same h = ground arith

    later : (p : ℕ) → leb (suc w.next) p ≡ true → leb w.next p ≡ true
    later p h = ground arith

-- A step of one process that keeps it pending, or ends that.
moves-IsSingle :
    (w : World) (p : ℕ) (new : Phase) (after : Supervisor)
    → IsSingle w
    → w.phase p ≢ unborn
    → (is_pending new ≡ true → after.cmd ≡ some p)
    → ((q : ℕ) → after.cmd ≡ some q → (q ≡ p → is_pending new ≡ true) × (w.sup.cmd ≡ some q))
    → ((q : ℕ) → q ≢ p → w.sup.cmd ≡ some q → after.cmd ≡ some q)
    → IsSingle (record w { sup = after; phase = set_phase p new w.phase })
moves-IsSingle w p new after single exists now before others = record {
  current = λ q.
      set_phase-cases (λ x. is_pending x ≡ true → after.cmd ≡ some q) p q new w.phase
        (λ same h. rw same (now h)) (λ apart h. others q apart (single.current q h));
  pending = λ q h.
      set_phase-cases (λ x. is_pending x ≡ true) p q new w.phase (before q h).0
        (λ apart. single.pending q (before q h).1);
  unused = unused-kept w p new single exists;
}

running-exists : {x : Phase} → x ≡ running → x ≢ unborn
running-exists e f = cc

ended-exists : {x : Phase} {exit : Option WaitError} → x ≡ ended exit → x ≢ unborn
ended-exists e f = cc

cleared-exists : {x : Phase} {r : Option Error} → x ≡ cleared r → x ≢ unborn
cleared-exists e f = cc

pending-cleared : {x : Phase} {r : Option Error} → x ≡ cleared r → is_pending x ≡ true → ⊥
pending-cleared e h = cc

Step-IsSingle : (w w' : World) → Step w w' → IsSingle w → IsSingle w'
Step-IsSingle w w' (launches after launched) single = launches-IsSingle w after launched single
Step-IsSingle w w' (fails made e after failed) single =
    same_cmd-IsSingle w after (launch-err w.sup after made e failed) single
Step-IsSingle w w' (marks v r after stopped) single =
    same_cmd-IsSingle w after (stop-cmd v w.sup after r stopped) single
Step-IsSingle w w' (asks r after asked) single =
    same_cmd-IsSingle w after (done_channel-cmd w.sup after r asked) single
Step-IsSingle w w' (ends p exit was) single =
    moves-IsSingle w p (ended exit) w.sup single (running-exists was)
      (λ h. single.current p (rw was refl)) (λ q h. (λ same. refl, h)) (λ q apart h. h)
Step-IsSingle w w' (clears p exit r after was passed) single =
    let own = single.current p (rw was refl) in
    let gone = wait_exit-own p exit w.sup after r passed own in
    moves-IsSingle w p (cleared r) after single (ended-exists was) (λ h. cc)
      (λ q h. absurd (none_is_some (sym gone ∙ h)))
      (λ q apart h. absurd (apart (same_number (sym h ∙ own))))
  where
    same_number : {m n : ℕ} → some m ≡ some n → m ≡ n
    same_number e = cc
Step-IsSingle w w' (tells p r was) single =
    moves-IsSingle w p (told r) w.sup single (cleared-exists was) (λ h. cc)
      (λ q h. (
        λ same. absurd (
            pending-cleared was
              (subst (λ (x : ℕ). is_pending (w.phase x) ≡ true) same (single.pending q h))),
        h,
      ))
      (λ q apart h. h)

Reachable-IsSingle : (w : World) → Reachable w → IsSingle w
Reachable-IsSingle w starts = idle-IsSingle
Reachable-IsSingle w (steps {w = v} reached step) =
    Step-IsSingle v w step (Reachable-IsSingle v reached)

-- At most one proxy process runs, and it is the one that the supervisor knows. This holds in every
-- state that calls of Start, Stop and Done and the ends of processes can lead to, each in its steps
-- under the mutex and in any order, also while a Start waits for the port.
pub one_process :
    (w : World) (p q : ℕ)
    → Reachable w
    → w.phase p ≡ running
    → w.phase q ≡ running
    → (p ≡ q) × (w.sup.cmd ≡ some p)
one_process w p q reached first second =
    let single = Reachable-IsSingle w reached in
    let own : w.sup.cmd ≡ some p = single.current p (rw first refl) in
    let other : w.sup.cmd ≡ some q = single.current q (rw second refl) in (cc, own)

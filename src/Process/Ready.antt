-- ===== src/Process/Ready.antt =====
-- waitForTCPReady of internal/process/socks5_supervisor.go: the loop that waits for the proxy's port.
use cfwg.Base.{
  ℕ, zero, suc, ◌+◌, ◌≤◌, ◌≡◌, refl, arith, Bool, true, false, Option, none, some, if◌then◌else◌,
  Text, Result, ok, err, Error, message, message_text,
}

-- What the select statement meets: the end of the process with its error, or the context's error.
pub data Event : Type 0 where
  exited : Option Error → Event
  context_done : Error → Event
  neither : Event

-- By the number of the round: whether a connection to the port is made, what has happened by then, and
-- whether the deadline has passed after it.
pub record Rounds : Type 0 where
  pub accepts : ℕ → Bool
  pub event : ℕ → Event
  pub is_late : ℕ → Bool

module _ (w : Rounds) (address : Text) where
  selected : Event → Bool → Option (Result (Unit {0})) → Option (Result (Unit {0}))
  selected (exited (some e)) late again = some (err e)
  selected (exited none) late again =
      some (err (message "socks5 process exited before becoming ready"))
  selected (context_done e) late again = some (err e)
  selected neither late again =
      if late then some (err (message_text "timed out waiting for" address)) else again

  -- On fuel: none where the fuel is used up.
  unfoldable pub wait_for_tcp_ready : ℕ → ℕ → Option (Result (Unit {0}))
  unfolding selected
  wait_for_tcp_ready zero round = none
  wait_for_tcp_ready (suc fuel) round =
      let again = wait_for_tcp_ready fuel (suc round) in
      if w.accepts round then some (ok tt) else selected (w.event round) (w.is_late round) again

  -- What a round is blamed for, where it ends the wait with an error.
  abbrev pub Blames : Error → Event → Bool → Type 0
  Blames e (exited (some x)) late = e ≡ x
  Blames e (exited none) late = e ≡ message "socks5 process exited before becoming ready"
  Blames e (context_done x) late = e ≡ x
  Blames e neither late = (late ≡ true) × (e ≡ message_text "timed out waiting for" address)

  -- A round that ends the wait with this result.
  pub data Gives (k : ℕ) : Result (Unit {0}) → Type 0 where
    connects : w.accepts k ≡ true → Gives k (ok tt)
    gives_up :
        (e : Error) → w.accepts k ≡ false → Blames e (w.event k) (w.is_late k) → Gives k (err e)

  -- From a round to another, which is not among them, no round ends the wait.
  pub data Quiet (last : ℕ) : ℕ → Type 0 where
    arrived : Quiet last last
    goes_on :
        (k : ℕ)
        → w.accepts k ≡ false
        → w.event k ≡ neither
        → w.is_late k ≡ false
        → Quiet last (suc k)
        → Quiet last k

  -- The wait ends in the first round that can end it.
  pub record Decided (from last : ℕ) (result : Option (Result (Unit {0}))) : Type 0 where
    pub round : ℕ
    pub in_time : round ≤ last
    pub quiet : Quiet round from
    pub answer : Result (Unit {0})
    pub given : result ≡ some answer
    pub by : Gives round answer

  at_once :
      (k last : ℕ) (answer : Result (Unit {0}))
      → k ≤ last
      → Gives k answer
      → Decided k last (some answer)
  at_once k last answer within by = record {
    round = k;
    in_time = within;
    quiet = arrived;
    answer = answer;
    given = refl;
    by = by;
  }

  later :
      (k last : ℕ) (result : Option (Result (Unit {0})))
      → w.accepts k ≡ false
      → w.event k ≡ neither
      → w.is_late k ≡ false
      → Decided (suc k) last result
      → Decided k last result
  later k last result refused calm in_time rest = record {
    round = rest.round;
    in_time = rest.in_time;
    quiet = goes_on k refused calm in_time rest.quiet;
    answer = rest.answer;
    given = rest.given;
    by = rest.by;
  }

  selected-Decided :
      (k last : ℕ) (e : Event) (late : Bool) (again : Option (Result (Unit {0})))
      → k ≤ last
      → w.accepts k ≡ false
      → w.event k ≡ e
      → w.is_late k ≡ late
      → (late ≡ false → Decided (suc k) last again)
      → Decided k last (selected e late again)
  unfolding selected
  selected-Decided k last (exited (some e)) late again within refused is after rest =
      at_once k last (err e) within (gives_up e refused (rw is refl))
  selected-Decided k last (exited none) late again within refused is after rest =
      at_once k last _ within (gives_up _ refused (rw is refl))
  selected-Decided k last (context_done e) late again within refused is after rest =
      at_once k last (err e) within (gives_up e refused (rw is refl))
  selected-Decided k last neither true again within refused is after rest =
      at_once k last _ within (gives_up _ refused (rw is (after, refl)))
  selected-Decided k last neither false again within refused is after rest =
      later k last again refused is after (rest refl)

  in_time-suc : (k last : ℕ) → k ≤ last → w.is_late k ≡ false → w.is_late last ≡ true → suc k ≤ last
  in_time-suc k last within in_time late = grind arith

  wait_from :
      (fuel k last : ℕ)
      → k + fuel ≡ suc last
      → k ≤ last
      → w.is_late last ≡ true
      → Decided k last (wait_for_tcp_ready fuel k)
  unfolding wait_for_tcp_ready
  wait_from zero k last sum within late = ground arith
  wait_from (suc fuel) k last sum within late =
      go (w.accepts k) refl λ more. wait_from fuel (suc k) last (omega arith) more late
    where
      go :
          (b : Bool)
          → w.accepts k ≡ b
          → (suc k ≤ last → Decided (suc k) last (wait_for_tcp_ready fuel (suc k)))
          → Decided k last (
              if b
              then some (ok tt)
              else selected (w.event k) (w.is_late k) (wait_for_tcp_ready fuel (suc k)))
      go true accepted rest = at_once k last (ok tt) within (connects accepted)
      go false refused rest =
          selected-Decided k last (w.event k) (w.is_late k) _ within refused refl refl
            λ in_time. rest (in_time-suc k last within in_time late)

  -- Where the deadline has passed after some round, the wait for the port ends no later than this
  -- round, with one more unit of fuel than its number. It ends in the first round in which a
  -- connection is made, the process has exited, the context is done or the deadline has passed:
  -- it succeeds if a connection is made, and otherwise fails with the error of that cause.
  pub wait_for_tcp_ready-Decided :
      (last : ℕ) → w.is_late last ≡ true → Decided 0 last (wait_for_tcp_ready (suc last) 0)
  wait_for_tcp_ready-Decided last late =
      wait_from (suc last) 0 last (omega arith) (omega arith) late

-- ===== src/Prober.antt =====
-- cmd/warp-socksd/prober.go: the check that traffic goes through the tunnel.
pub mod Rounds
use cfwg.Base.{
  ℕ, zero, suc, Bool, true, false, Option, none, some, List, [], ◌∷◌, ◌==◌, not, if◌then◌else◌,
  Text, str, is_empty, contains_text, Result, ok, err, Error, message, message_int, wrap,
}

pub record Target : Type 0 where
  pub url : Text
  pub host_header : Text

pub record Prober : Type 0 where
  pub url : Text
  pub host_header : Text
  pub fallback_targets : List Target

pub record Response : Type 0 where
  pub status : ℕ
  pub body : Result Text

-- What the probes meet, by the number of the round: a request that cannot be made, or the answer of
-- the client; whether the window has passed after the round; and the error of the context, if it is
-- done before the next round.
pub record World : Type 0 where
  pub new_request : Target → Result (Unit {0})
  pub answer : ℕ → Target → Result Response
  pub is_late : ℕ → Bool
  pub context_error : ℕ → Option Error

kept_targets : List Target → List Target
kept_targets [] = []
kept_targets (t ∷ ts) = let rest = kept_targets ts in if is_empty t.url then rest else t ∷ rest

unfoldable pub targets : Prober → List Target
unfolding kept_targets
targets p = kept_targets (record { url = p.url; host_header = p.host_header } ∷ p.fallback_targets)

module _ (p : Prober) (w : World) where
  body_result : Result Text → ℕ → Result (Unit {0})
  body_result (err e) status = err (wrap "read probe response" e)
  body_result (ok body) status =
      if not (status == 200)
      then err (message_int "probe returned status" status)
      else if not (contains_text body (str "warp=on"))
      then err (message "probe response does not confirm warp tunnel")
      else ok tt

  response_result : Result Response → Result (Unit {0})
  unfolding body_result
  response_result (err e) = err (wrap "perform probe request" e)
  response_result (ok response) = body_result response.body response.status

  request_result : ℕ → Target → Result (Unit {0}) → Result (Unit {0})
  unfolding response_result
  request_result round t (err e) = err (wrap "create probe request" e)
  request_result round t (ok u) = response_result (w.answer round t)

  unfoldable pub check_once : ℕ → Target → Result (Unit {0})
  unfolding request_result
  check_once round t = request_result round t (w.new_request t)

  -- The first target that answers ends the loop; the last error is returned.
  try_targets : ℕ → Result (Unit {0}) → List Target → Result (Unit {0})
  try_targets round last [] = last
  try_targets round last (t ∷ ts) =
      let rest = try_targets round (check_once round t) ts in
      elim (check_once round t) [ ok u ↦ ok tt | err e ↦ rest ]

  unfoldable pub check_targets : ℕ → Result (Unit {0})
  unfolding try_targets
  check_targets round = try_targets round (err (message "probe url is required")) (targets p)

  -- The context is done, or the interval has passed.
  waited : Option Error → Option (Result (Unit {0})) → Option (Result (Unit {0}))
  waited (some e) again = some (err e)
  waited none again = again

  end_round : ℕ → Result (Unit {0}) → Option (Result (Unit {0})) → Option (Result (Unit {0}))
  unfolding waited
  end_round round (ok u) again = some (ok tt)
  end_round round (err e) again =
      if w.is_late round then some (err e) else waited (w.context_error round) again

  -- The loop of Check, on fuel: none where the fuel is used up.
  unfoldable pub check : ℕ → ℕ → Option (Result (Unit {0}))
  unfolding end_round
  check zero round = none
  check (suc fuel) round =
      let again = check fuel (suc round) in end_round round (check_targets round) again

-- ===== src/Tests/Prober.antt =====
-- Probes of a tunnel that comes up in the second round.
use cfwg.Base.{refl, none, [], ◌∷◌, ok, err, str, message, ◌==◌, if◌then◌else◌}
use cfwg.Prober.{Prober, World, check}
use cfwg.Prober.Rounds.{Explained, check-Explained}

abbrev prober : Prober
prober = record { url = 117 ∷ []; host_header = []; fallback_targets = [] }

abbrev world : World
world = record {
  new_request = λ t. ok tt;
  answer = λ round t.
      if round == 1
      then ok (record { status = 200; body = ok (str "warp=on") })
      else err (message "timeout");
  is_late = λ round. round == 3;
  context_error = λ round. none;
}

check-Explained_example : Explained prober world 0 3 (check prober world 4 0)
check-Explained_example = check-Explained prober world 3 refl

-- ===== src/Tests/Health.antt =====
-- The endpoint at a moment of a run.
use cfwg.Base.{◌≡◌, refl, true, false, some, [], ◌∷◌, ◌++◌, ok, Text, Result, str, text_eq}
use cfwg.App.{
  Event.set_ready, Event.loaded_config, Event.loaded_state, Event.ensured, Event.saved,
  Event.applied, Event.wrote_proxy_config, Event.started, Event.probed, Event.stopped,
  Event.cleaned, Event.waited, context_done, History, run, run_started_runtime, call, call_answer,
}
use cfwg.App.Order.{is_ready}
use cfwg.Health.{Status, Snapshot, handler, handle_readyz}
use cfwg.Health.Ready.{HasComeUp, readyz-HasComeUp, status_after}
use cfwg.Tests.App.{smooth, device}

abbrev before : History
before =
    probed true
    ∷ started (112 ∷ []) true
    ∷ wrote_proxy_config true
    ∷ applied device true
    ∷ saved device true
    ∷ ensured device true
    ∷ loaded_state true
    ∷ loaded_config true
    ∷ []

abbrev serving : History
serving = set_ready true ∷ before

abbrev later : History
later = cleaned true ∷ stopped true ∷ set_ready false ∷ waited context_done ∷ []

moment : (run smooth []).1 ≡ later ++ serving
unfolding run run_started_runtime call call_answer
moment = refl

abbrev plain : Snapshot → Result Text
plain s = ok []

abbrev status : Status
status = record { ready = false; started_at = 7 }

ready : (handler plain (some (status_after status serving)) (str "/readyz")).status ≡ 200
unfolding handler handle_readyz status_after str text_eq
ready = refl

readyz-HasComeUp_example : HasComeUp serving × (is_ready serving ≡ true)
readyz-HasComeUp_example = readyz-HasComeUp smooth plain status refl later serving moment ready

-- ===== src/Health/Ready.antt =====
-- internal/health/server.go while internal/app/app.go runs: when the endpoint says that it is ready.
use cfwg.Base.{
  ◌≡◌, refl, ap, sym, ◌∙◌, arith, text_eq, true, false, some, [], ◌∷◌, ◌++◌, Text, str, Result,
  subst,
}
use cfwg.App.{
  Event, Event.set_ready, Event.loaded_config, Event.loaded_state, Event.ensured, Event.saved,
  Event.applied, Event.wrote_proxy_config, Event.started, Event.probed, Event.stopped,
  Event.cleaned, Event.waited, History, Dependencies, run,
}
use cfwg.App.Order.{is_ready, IsUp, InOrder, run-InOrder}
use cfwg.Health
use cfwg.Health.{Status, Snapshot, Response, handle_readyz, handler, http_error, is_source_ready}

-- The status, as the calls of SetReady in a run have left it.
unfoldable pub status_after : Status → History → Status
unfolding Health.set_ready
status_after s [] = s
status_after s (set_ready b ∷ h) = Health.set_ready b (status_after s h)
status_after s (_ ∷ h) = status_after s h

status_after-ready :
    (s : Status) (h : History) → s.ready ≡ false → (status_after s h).ready ≡ is_ready h
unfolding status_after
status_after-ready s [] unready = unready
status_after-ready s (set_ready b ∷ h) unready = refl
status_after-ready s (loaded_config b ∷ h) unready = status_after-ready s h unready
status_after-ready s (loaded_state b ∷ h) unready = status_after-ready s h unready
status_after-ready s (ensured x b ∷ h) unready = status_after-ready s h unready
status_after-ready s (saved x b ∷ h) unready = status_after-ready s h unready
status_after-ready s (applied x b ∷ h) unready = status_after-ready s h unready
status_after-ready s (wrote_proxy_config b ∷ h) unready = status_after-ready s h unready
status_after-ready s (started x b ∷ h) unready = status_after-ready s h unready
status_after-ready s (probed b ∷ h) unready = status_after-ready s h unready
status_after-ready s (stopped b ∷ h) unready = status_after-ready s h unready
status_after-ready s (waited x ∷ h) unready = status_after-ready s h unready
status_after-ready s (cleaned b ∷ h) unready = status_after-ready s h unready

-- The newest call of SetReady told that the program is ready, and was made directly after the
-- network, the proxy's file, the proxy and the probe had succeeded.
abbrev pub HasComeUp : History → Type 0
HasComeUp h =
    (later : History) × (before : History) × (h ≡ later ++ set_ready true ∷ before) × IsUp before

beneath : (e : Event) (h : History) → HasComeUp h → HasComeUp (e ∷ h)
beneath e h (later, before, split, up) = (e ∷ later, before, ap (λ (k : History). e ∷ k) split, up)

is_ready-HasComeUp : (h : History) → InOrder h → is_ready h ≡ true → HasComeUp h
is_ready-HasComeUp [] o r = cc
is_ready-HasComeUp (set_ready true ∷ h) o r = ([], h, refl, o.0)
is_ready-HasComeUp (set_ready false ∷ h) o r = cc
is_ready-HasComeUp (loaded_config b ∷ h) o r = beneath _ h (is_ready-HasComeUp h (o.1) r)
is_ready-HasComeUp (loaded_state b ∷ h) o r = beneath _ h (is_ready-HasComeUp h (o.1) r)
is_ready-HasComeUp (ensured x b ∷ h) o r = beneath _ h (is_ready-HasComeUp h (o.1) r)
is_ready-HasComeUp (saved x b ∷ h) o r = beneath _ h (is_ready-HasComeUp h (o.1) r)
is_ready-HasComeUp (applied x b ∷ h) o r = beneath _ h (is_ready-HasComeUp h (o.1) r)
is_ready-HasComeUp (wrote_proxy_config b ∷ h) o r = beneath _ h (is_ready-HasComeUp h (o.1) r)
is_ready-HasComeUp (started x b ∷ h) o r = beneath _ h (is_ready-HasComeUp h (o.1) r)
is_ready-HasComeUp (probed b ∷ h) o r = beneath _ h (is_ready-HasComeUp h (o.1) r)
is_ready-HasComeUp (stopped b ∷ h) o r = beneath _ h (is_ready-HasComeUp h (o.1) r)
is_ready-HasComeUp (waited x ∷ h) o r = beneath _ h (is_ready-HasComeUp h (o.1) r)
is_ready-HasComeUp (cleaned b ∷ h) o r = beneath _ h (is_ready-HasComeUp h (o.1) r)

InOrder-before : (later h : History) → InOrder (later ++ h) → InOrder h
InOrder-before [] h o = o
InOrder-before (e ∷ later) h o = InOrder-before later h (o.1)

readyz-ready : (s : Status) → (handle_readyz (some s)).status ≡ 200 → s.ready ≡ true
unfolding handle_readyz is_source_ready http_error
readyz-ready s answered = ground arith

module _ (d : Dependencies) (encode : Snapshot → Result Text) (s : Status)
    (unready : s.ready ≡ false) where
  -- At every moment of a run, whatever the dependencies answer: if the endpoint /readyz answers 200,
  -- then the program has told that it is ready and not taken it back, and it had told so directly
  -- after the network, the proxy's file, the proxy and the probe had succeeded in this order.
  pub readyz-HasComeUp :
      (later h : History)
      → (run d []).1 ≡ later ++ h
      → (handler encode (some (status_after s h)) (str "/readyz")).status ≡ 200
      → HasComeUp h × (is_ready h ≡ true)
  unfolding handler str text_eq
  readyz-HasComeUp later h moment answered =
      let ready : is_ready h ≡ true =
        sym (status_after-ready s h unready) ∙ readyz-ready (status_after s h) answered in
      (
        is_ready-HasComeUp h (InOrder-before later h (subst InOrder moment (run-InOrder d).0))
            ready,
        ready,
      )

  -- When a run has ended, in whichever way, the endpoint /readyz answers 503.
  pub readyz_ended :
      (handler encode (some (status_after s ((run d []).1))) (str "/readyz")).status ≡ 503
  unfolding handler str text_eq handle_readyz is_source_ready http_error
  readyz_ended = rw (status_after-ready s ((run d []).1) unready, (run-InOrder d).1) refl

-- ===== src/Warp/Client/Refused.antt =====
-- doJSON of internal/warpapi/client.go: which requests are sent, and which answers are errors.
use cfwg.Base.{◌≡◌, refl, Bool, true, false, ◌∷◌, Text, Result, ok, err, is_ok, leb}
use cfwg.System.{proceed}
use cfwg.Warp.{Device}
use cfwg.Warp.Client.{Request, Requests, Response, Http, checked, sent, do_json, do_json_device}

-- The requests with this one, if it could be made.
unfoldable pub add_request : Result Request → Requests → Requests
add_request (err e) requests = requests
add_request (ok r) requests = r ∷ requests

-- An answer that is an error: none, or one with a status from 400.
abbrev pub is_refusal : Result Response → Bool
is_refusal (err e) = true
is_refusal (ok response) = leb 400 response.status

module _ (http : Http) (base_url : Text) where
  after_text :
      (x : Result Text × Requests)
      → proceed x (λ body r. (ok tt, r)) ≡ ((proceed x (λ body r. (ok tt, r))).0, x.1)
  after_text (ok body, r) = refl
  after_text (err e, r) = refl

  after_device :
      (x : Result Text × Requests) (next : Text → Result Device)
      → proceed x (λ body r. (next body, r)) ≡ ((proceed x (λ body r. (next body, r))).0, x.1)
  after_device (ok body, r) next = refl
  after_device (err e, r) next = refl

  sent-add_request :
      (r : Result Request) (before : Requests)
      → (sent http base_url r before).1 ≡ add_request r before
  unfolding sent add_request
  sent-add_request (err e) before = refl
  sent-add_request (ok r) before = refl

  pub do_json-add_request :
      (r : Result Request) (before : Requests)
      → do_json http base_url r before ≡ ((do_json http base_url r before).0, add_request r before)
  unfolding do_json
  do_json-add_request r before =
      rw⁻¹ (sent-add_request r before) (after_text (sent http base_url r before))

  pub do_json_device-add_request :
      (r : Result Request) (before : Requests)
      → do_json_device http base_url r before
        ≡ ((do_json_device http base_url r before).0, add_request r before)
  unfolding do_json_device
  do_json_device-add_request r before =
      rw⁻¹ (sent-add_request r before) (after_device (sent http base_url r before) _)

  -- The service gives no answer to any request, or only ones with a status from 400.
  abbrev pub Refuses : Type 0
  Refuses = (before : Requests) (r : Request) → is_refusal (http.answer before r) ≡ true

  module _ (refuses : Refuses) where
    checked-refused :
        (a : Result Response) → is_refusal a ≡ true → is_ok (checked http base_url a) ≡ false
    unfolding checked
    checked-refused (err e) h = refl
    checked-refused (ok response) h = rw h refl

    sent-refused :
        (r : Result Request) (before : Requests) → is_ok ((sent http base_url r before).0) ≡ false
    unfolding sent
    sent-refused (err e) before = refl
    sent-refused (ok r) before = checked-refused (http.answer before r) (refuses before r)

    proceed-refused :
        {A : Type 0} (x : Result Text × Requests) (next : Text → Requests → Result A × Requests)
        → is_ok (x.0) ≡ false
        → is_ok ((proceed x next).0) ≡ false
    proceed-refused (ok body, r) next h = cc
    proceed-refused (err e, r) next h = refl

    pub do_json-refused :
        (r : Result Request) (before : Requests)
        → is_ok ((do_json http base_url r before).0) ≡ false
    unfolding do_json
    do_json-refused r before =
        proceed-refused (sent http base_url r before) _ (sent-refused r before)

    pub do_json_device-refused :
        (r : Result Request) (before : Requests)
        → is_ok ((do_json_device http base_url r before).0) ≡ false
    unfolding do_json_device
    do_json_device-refused r before =
        proceed-refused (sent http base_url r before) _ (sent-refused r before)

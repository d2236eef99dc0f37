-- ===== src/Legacy/Service.antt =====
-- newWarpAPIClientFunc of cmd/warp-socksd/runtime_backend.go: the WARP service that the bootstrapper
-- calls is the HTTP client.
pub mod Offline
pub mod Tokens
use cfwg.Base.{◌≡◌, ap, Bool, List, [], ◌∷◌, Text, Result, ok, err}
use cfwg.Warp.{RegistrationInput}
use cfwg.Warp.Client.{
  Request, Requests, Http, registration, fetch, license_update, enabled_update, do_json,
  do_json_device, register, get_source_device, update_license, set_warp_enabled,
}
use cfwg.Warp.Client.Refused.{add_request, do_json-add_request, do_json_device-add_request}
use cfwg.Legacy.Bootstrap.{ApiCall, registered, fetched, licensed, enabled, Calls, WarpApi}

-- The key pair, the random id and the time that a registration uses.
pub record Randomness : Type 0 where
  pub generated_key : Result (Text × Text)
  pub random_install_id : Text
  pub now : Text

module _ (http : Http) (base_url : Text) where
  -- The request that a call makes, if it can be made.
  unfoldable pub request_of : ApiCall → Result Request
  request_of (registered input) = registration http base_url input
  request_of (fetched id token) = fetch http base_url id token
  request_of (licensed id token license) = license_update http base_url id token license
  request_of (enabled id token value) = enabled_update http base_url id token value

  -- The requests that the calls have sent.
  unfoldable pub requests_of : Calls → Requests
  unfolding request_of
  requests_of [] = []
  requests_of (call ∷ calls) = add_request (request_of call) (requests_of calls)

  unfoldable pub warp_api : Randomness → WarpApi
  unfolding requests_of
  warp_api random = record {
    register_answer = λ calls input. (register http base_url input (requests_of calls)).0;
    device_answer =
        λ calls id token. (get_source_device http base_url id token (requests_of calls)).0;
    license_answer = λ calls id token license.
        (update_license http base_url id token license (requests_of calls)).0;
    enabled_answer = λ calls id token value.
        (set_warp_enabled http base_url id token value (requests_of calls)).0;
    generated_key = random.generated_key;
    random_install_id = random.random_install_id;
    now = random.now;
  }

module _ (http : Http) (base_url : Text) (random : Randomness) where
  -- The client does for each call what the bootstrapper is told of it: where the requests are those
  -- of the calls before, the answer is the interface's, and the requests are then those of the calls
  -- with this one. A call whose request cannot be made sends none.
  pub warp_api_implements :
      (calls : Calls) (input : RegistrationInput) (id token license : Text) (value : Bool)
      → let api = warp_api http base_url random in
        (register http base_url input (requests_of http base_url calls)
          ≡ (api.register_answer calls input, requests_of http base_url (registered input ∷ calls)))
        × (get_source_device http base_url id token (requests_of http base_url calls) ≡ (
          api.device_answer calls id token,
          requests_of http base_url (fetched id token ∷ calls),
        ))
        × (update_license http base_url id token license (requests_of http base_url calls) ≡ (
          api.license_answer calls id token license,
          requests_of http base_url (licensed id token license ∷ calls),
        ))
        × (set_warp_enabled http base_url id token value (requests_of http base_url calls) ≡ (
          api.enabled_answer calls id token value,
          requests_of http base_url (enabled id token value ∷ calls),
        ))
  unfolding warp_api register get_source_device update_license set_warp_enabled
  warp_api_implements calls input id token license value =
      let before = requests_of http base_url calls in
      (
        do_json_device-add_request http base_url (registration http base_url input) before,
        do_json_device-add_request http base_url (fetch http base_url id token) before,
        do_json-add_request http base_url (license_update http base_url id token license) before,
        do_json-add_request http base_url (enabled_update http base_url id token value) before,
      )

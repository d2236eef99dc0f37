-- ===== src/Warp/Client.antt =====
-- internal/warpapi/client.go: the requests to the WARP service.
pub mod Headers
pub mod Refused
use cfwg.Base.{
  ℕ, Bool, true, false, ◌&&◌, Option, none, some, List, [], ◌∷◌, ◌++◌, ◌==◌, leb, if◌then◌else◌,
  Text, str, is_empty, Result, ok, err, Error, message_int, wrap,
}
use cfwg.Base.TextMap.{TextMap, insert}
use cfwg.System.{Exec, ◌>>=◌, ◌>>◌, done, fail_with}
use cfwg.Warp.{Device, RegistrationInput}

-- The headers' names are as written: HTTP does not tell upper from lower case in them.
pub record Request : Type 0 where
  pub method : Text
  pub url : Text
  pub headers : TextMap Text
  pub body : Option Text

pub record Response : Type 0 where
  pub status : ℕ
  pub body : Text

-- The requests that have been sent, the newest first.
abbrev pub Requests : Type 0
Requests = List Request

-- encoding/json on the bodies, and net/http: a request may be refused when it is made, and its
-- answer may depend on those before.
pub record Http : Type 0 where
  pub marshal_registration : RegistrationInput → Result Text
  pub marshal_license : Text → Result Text
  pub marshal_enabled : Bool → Result Text
  pub unmarshal_device : Text → Result Device
  pub request_error : Text → Text → Option Error
  pub answer : Requests → Request → Result Response

unfoldable pub registration_base_path : Text
registration_base_path = str "/v0a1922/reg"

-- `strings.TrimRight(s, "/")`
unfoldable pub trim_right_slashes : Text → Text
trim_right_slashes [] = []
trim_right_slashes (c ∷ s) =
    let rest = trim_right_slashes s in if c == b'/' && is_empty rest then [] else c ∷ rest

-- The client's BaseURL; the HTTP client is a parameter of the calls.
unfoldable pub new_client : Text → Text
unfolding trim_right_slashes
new_client base_url = trim_right_slashes base_url

unfoldable pub set_header : Text → Text → Request → Request
set_header key value r = record r { headers = insert key value r.headers }

unfoldable pub apply_default_headers : Request → Request
unfolding set_header
apply_default_headers r =
    set_header (str "CF-Client-Version") (str "a-6.3-1922")
      (set_header (str "User-Agent") (str "okhttp/3.12.1") r)

unfoldable pub authorize : Text → Request → Request
unfolding set_header
authorize token r = set_header (str "Authorization") (str "Bearer " ++ token) r

module _ (http : Http) (base_url : Text) where
  -- http.NewRequestWithContext
  made : Text → Text → Option Text → Option Error → Result Request
  made method url body (some e) = err (wrap "create request" e)
  made method url body none = ok (record { method = method; url = url; headers = []; body = body })

  abbrev new_request : Text → Text → Option Text → Result Request
  unfolding made
  new_request method url body = made method url body (http.request_error method url)

  with_json : Result Request → Result Request
  with_json (err e) = err e
  with_json (ok r) =
      ok (apply_default_headers (set_header (str "Content-Type") (str "application/json") r))

  unfoldable pub new_json_request : Text → Text → Result Text → Result Request
  unfolding made with_json
  new_json_request method path (err e) = err (wrap "marshal request body" e)
  new_json_request method path (ok payload) =
      with_json (new_request method (base_url ++ path) (some payload))

  checked : Result Response → Result Text
  checked (err e) = err (wrap "perform request" e)
  checked (ok response) =
      if leb 400 response.status
      then err (message_int "unexpected status code:" response.status)
      else ok response.body

  decoded : Result Device → Result Device
  decoded (err e) = err (wrap "decode response" e)
  decoded (ok device) = ok device

  -- The request is sent, and its status looked at. A request that could not be made is not sent.
  sent : Result Request → Exec Requests Text
  unfolding checked
  sent (err e) requests = (err e, requests)
  sent (ok r) requests = (checked (http.answer requests r), r ∷ requests)

  -- doJSON with no value to decode into.
  unfoldable pub do_json : Result Request → Exec Requests (Unit {0})
  unfolding sent
  do_json r = sent r >>= λ body. done

  unfoldable pub do_json_device : Result Request → Exec Requests Device
  unfolding sent decoded
  do_json_device r = sent r >>= λ body requests. (decoded (http.unmarshal_device body), requests)

  authorized : Text → Result Request → Result Request
  authorized token (err e) = err e
  authorized token (ok r) = ok (authorize token r)

  -- The requests of the four methods.
  unfoldable pub registration : RegistrationInput → Result Request
  registration input =
      new_json_request (str "POST") registration_base_path (http.marshal_registration input)

  with_defaults : Text → Result Request → Result Request
  with_defaults token (err e) = err e
  with_defaults token (ok r) = ok (apply_default_headers (authorize token r))

  unfoldable pub fetch : Text → Text → Result Request
  unfolding made with_defaults
  fetch device_id token =
      with_defaults token
        (new_request (str "GET") (base_url ++ (registration_base_path ++ b'/' ∷ device_id)) none)

  unfoldable pub license_update : Text → Text → Text → Result Request
  unfolding authorized
  license_update device_id token license = authorized token (
      new_json_request (str "PUT") (registration_base_path ++ b'/' ∷ (device_id ++ str "/account"))
        (http.marshal_license license))

  unfoldable pub enabled_update : Text → Text → Bool → Result Request
  unfolding authorized
  enabled_update device_id token enabled = authorized token (
      new_json_request (str "PATCH") (registration_base_path ++ b'/' ∷ device_id)
        (http.marshal_enabled enabled))

  unfoldable pub register : RegistrationInput → Exec Requests Device
  register input = do_json_device (registration input)

  unfoldable pub get_source_device : Text → Text → Exec Requests Device
  get_source_device device_id token = do_json_device (fetch device_id token)

  unfoldable pub update_license : Text → Text → Text → Exec Requests (Unit {0})
  update_license device_id token license = do_json (license_update device_id token license)

  unfoldable pub set_warp_enabled : Text → Text → Bool → Exec Requests (Unit {0})
  set_warp_enabled device_id token enabled = do_json (enabled_update device_id token enabled)

-- ===== src/Warp/Client/Headers.antt =====
-- internal/warpapi/client.go: what the requests carry.
use cfwg.Base.{
  ◌≡◌, refl, ◌∙◌, Bool, false, text_eq_refl, Option, none, some, ◌∷◌, ◌++◌, Text, str, text_eq,
  Result, ok, err, Error,
}
use cfwg.Base.TextMap.{lookup, insert, delete, lookup-insert}
use cfwg.Warp.{RegistrationInput}
use cfwg.Warp.Client.{
  Request, Http, registration_base_path, set_header, apply_default_headers, authorize, made,
  with_json, new_json_request, authorized, with_defaults, registration, fetch, license_update,
  enabled_update,
}

other_agent : text_eq (str "Authorization") (str "User-Agent") ≡ false
unfolding str text_eq
other_agent = refl

other_version : text_eq (str "Authorization") (str "CF-Client-Version") ≡ false
unfolding str text_eq
other_version = refl

header-own :
    (value : Text) (r : Request)
    → lookup (str "Authorization") (insert (str "Authorization") value r.headers) ≡ some value
header-own value r =
    rw
      (
        lookup-insert (str "Authorization") (str "Authorization") value r.headers,
        text_eq_refl (str "Authorization"),
      )
      refl

header-other :
    (key value : Text) (r : Request)
    → text_eq (str "Authorization") key ≡ false
    → lookup key (insert (str "Authorization") value r.headers) ≡ lookup key r.headers
header-other key value r apart =
    rw (lookup-insert (str "Authorization") key value r.headers, apart) refl

module _ (http : Http) (base_url : Text) where
  -- A request, if it could be made, with its method, its path below the base URL and its
  -- authorization, and the headers that tell the client's version.
  abbrev pub Carries : Text → Text → Option Text → Result Request → Type 0
  Carries method path authorization (err e) = Unit {0}
  Carries method path authorization (ok r) =
      (r.method ≡ method)
      × (r.url ≡ base_url ++ path)
      × (lookup (str "Authorization") r.headers ≡ authorization)
      × (lookup (str "User-Agent") r.headers ≡ some (str "okhttp/3.12.1"))
      × (lookup (str "CF-Client-Version") r.headers ≡ some (str "a-6.3-1922"))

  abbrev bearer : Text → Option Text
  bearer token = some (str "Bearer " ++ token)

  made_json-Carries :
      (method path payload : Text) (o : Option Error)
      → Carries method path none
          (with_json http base_url (made http base_url method (base_url ++ path) (some payload) o))
  unfolding made with_json apply_default_headers set_header lookup insert delete str text_eq
  made_json-Carries method path payload (some e) = tt
  made_json-Carries method path payload none = (refl, refl, refl, refl, refl)

  new_json_request-Carries :
      (method path : Text) (payload : Result Text)
      → Carries method path none (new_json_request http base_url method path payload)
  unfolding new_json_request
  new_json_request-Carries method path (err e) = tt
  new_json_request-Carries method path (ok payload) =
      made_json-Carries method path payload (http.request_error method (base_url ++ path))

  authorized-Carries :
      (method path token : Text) (r : Result Request)
      → Carries method path none r
      → Carries method path (bearer token) (authorized http base_url token r)
  unfolding authorized authorize set_header
  authorized-Carries method path token (err e) h = tt
  authorized-Carries method path token (ok r) (m, u, a, agent, version) = (
    m,
    u,
    header-own (str "Bearer " ++ token) r,
    header-other (str "User-Agent") (str "Bearer " ++ token) r other_agent ∙ agent,
    header-other (str "CF-Client-Version") (str "Bearer " ++ token) r other_version ∙ version,
  )

  fetch-Carries :
      (path token : Text) (o : Option Error)
      → Carries (str "GET") path (bearer token) (
          with_defaults http base_url token
            (made http base_url (str "GET") (base_url ++ path) none o))
  unfolding made with_defaults apply_default_headers authorize set_header lookup insert delete str
      text_eq
  fetch-Carries path token (some e) = tt
  fetch-Carries path token none = (refl, refl, refl, refl, refl)

  -- Each request of the client that can be made goes to its path below the base URL, by its method,
  -- and tells the client's version. The registration carries no authorization; each other request
  -- carries the token it is given, and names the device it is given in its path.
  pub requests-Carries :
      (input : RegistrationInput) (id token license : Text) (enabled : Bool)
      → let device = registration_base_path ++ b'/' ∷ id in
        Carries (str "POST") registration_base_path none (registration http base_url input)
        × Carries (str "GET") device (bearer token) (fetch http base_url id token)
        × Carries
            (str "PUT")
            (registration_base_path ++ b'/' ∷ (id ++ str "/account"))
            (bearer token)
            (license_update http base_url id token license)
        × Carries
            (str "PATCH")
            device
            (bearer token)
            (enabled_update http base_url id token enabled)
  unfolding registration fetch license_update enabled_update
  requests-Carries input id token license enabled = (
    new_json_request-Carries _ _ _,
    fetch-Carries (registration_base_path ++ b'/' ∷ id) token _,
    authorized-Carries _ _ token _ (new_json_request-Carries _ _ _),
    authorized-Carries _ _ token _ (new_json_request-Carries _ _ _),
  )

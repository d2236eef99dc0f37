-- ===== src/Health.antt =====
-- internal/runtime/status.go and internal/health/server.go: whether the program is ready, and the
-- endpoints that tell it. The mutex is held in each call, so a call is one step.
pub mod Ready
use cfwg.Base.{
  ℕ, Bool, true, false, Option, none, some, [], ◌∷◌, ◌++◌, ◌==◌, if◌then◌else◌, Text, str, text_eq,
  Result, ok, err,
}

-- A time is a number, and the zero time is 0.
pub record Snapshot : Type 0 where
  pub ready : Bool
  pub started_at : ℕ

pub record Status : Type 0 where
  pub ready : Bool
  pub started_at : ℕ

unfoldable pub new_status : ℕ → ℕ → Status
new_status now started_at = record {
  ready = false;
  started_at = if started_at == 0 then now else started_at;
}

unfoldable pub set_ready : Bool → Status → Status
set_ready ready s = record s { ready = ready }

unfoldable pub snapshot : Status → Snapshot
snapshot s = record { ready = s.ready; started_at = s.started_at }

-- A response. The content type is left to net/http where the handler does not set it.
pub record Response : Type 0 where
  pub status : ℕ
  pub content_type : Option Text
  pub body : Text

-- `http.Error`, with the line feed that it adds.
unfoldable pub http_error : Text → ℕ → Response
http_error text status = record {
  status = status;
  content_type = some (str "text/plain; charset=utf-8");
  body = text ++ 10 ∷ [];
}

unfoldable pub handle_healthz : Response
handle_healthz = record { status = 200; content_type = none; body = str "ok" }

is_source_ready : Option Status → Bool
is_source_ready none = false
is_source_ready (some s) = s.ready

unfoldable pub handle_readyz : Option Status → Response
unfolding is_source_ready http_error
handle_readyz source =
    if is_source_ready source
    then record { status = 200; content_type = none; body = str "ready" }
    else http_error (str "not ready") 503

-- encoding/json on a snapshot; the encoder adds a line feed, and writes nothing on an error.
encoded : Result Text → Text
encoded (err e) = []
encoded (ok body) = body ++ 10 ∷ []

module _ (encode : Snapshot → Result Text) where
  payload : Option Status → Result Text
  payload none = ok (str "{}")
  payload (some s) = encode (snapshot s)

  unfoldable pub handle_status : Option Status → Response
  unfolding payload encoded
  handle_status source = record {
    status = 200;
    content_type = some (str "application/json");
    body = encoded (payload source);
  }

  -- The mux, by the path of the request.
  unfoldable pub handler : Option Status → Text → Response
  handler source path =
      if text_eq path (str "/healthz")
      then handle_healthz
      else if text_eq path (str "/readyz")
      then handle_readyz source
      else if text_eq path (str "/status")
      then handle_status source
      else http_error (str "404 page not found") 404

-- ===== src/Legacy/Service/Tokens.antt =====
-- The HTTP requests that the bootstrapper of legacy_backend.go sends through the client of
-- internal/warpapi/client.go.
use cfwg.Base.{◌≡◌, none, some, [], ◌∷◌, ◌++◌, Text, str, ◌⊎◌, Result, ok, err}
use cfwg.Base.TextMap.{lookup}
use cfwg.Config.{Config}
use cfwg.State.{State}
use cfwg.Warp.Client.{Request, Requests, Http, registration_base_path}
use cfwg.Legacy.Bootstrap.Named.{IsGiven}

module _ (http : Http) (base_url : Text) where
  -- A request that names no device, by its path and by its authorization, or one that names a device
  -- and carries a token, of which neither is empty.
  abbrev pub IsAuthorized : Request → Type 0
  IsAuthorized r =
      ((r.url ≡ base_url ++ registration_base_path)
        × (lookup (str "Authorization") r.headers ≡ none))
      ⊎ ((id : Text) × (token : Text) × (rest : Text) × IsGiven id
          × IsGiven token
          × (r.url ≡ base_url ++ (registration_base_path ++ b'/' ∷ (id ++ rest)))
          × (lookup (str "Authorization") r.headers ≡ some (str "Bearer " ++ token)))

  abbrev pub AllAuthorized : Requests → Type 0
  AllAuthorized [] = Unit {0}
  AllAuthorized (r ∷ requests) = IsAuthorized r × AllAuthorized requests

  abbrev IfMade : Result Request → Type 0
  IfMade (err e) = Unit {0}
  IfMade (ok r) = IsAuthorized r

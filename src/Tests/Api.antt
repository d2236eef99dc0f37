-- ===== src/Tests/Api.antt =====
-- The bootstrapper over concrete HTTP services.
use cfwg.Base.{refl, ℕ, ◌&&◌, none, [], ◌∷◌, ok, str, Text}
use cfwg.Warp.Client.{Http, new_client}
use cfwg.Legacy.Bootstrap.{ensure_device}
use cfwg.Legacy.Bootstrap.Down.{UsedAsIs}
use cfwg.Legacy.Bootstrap.Usable.{is_licensed}
use cfwg.Legacy.Device.{is_reusable_legacy_state}
use cfwg.Legacy.Service.{Randomness, warp_api}
use cfwg.Legacy.Service.Offline.{ensure_device_offline}
use cfwg.Tests.Legacy.{plain_text, device, made, settings}

-- A service that answers each request with a status.
abbrev pub answering : ℕ → Http
answering status = record {
  marshal_registration = λ input. ok input.key;
  marshal_license = λ license. ok license;
  marshal_enabled = λ enabled. ok [];
  unmarshal_device = λ body. ok (record device { token = 116 ∷ [] });
  request_error = λ method url. none;
  answer = λ before r. ok (record { status = status; body = [] });
}

abbrev pub random : Randomness
random = record { generated_key = ok (107 ∷ [], 112 ∷ []); random_install_id = []; now = [] }

abbrev base_url : Text
base_url = new_client (str "https://warp.test/")

ensure_device_offline_example :
    UsedAsIs
      (is_reusable_legacy_state made
        && is_licensed plain_text (warp_api (answering 503) base_url random) settings made)
      made
      ((ensure_device plain_text (warp_api (answering 503) base_url random) settings made []).0)
ensure_device_offline_example =
    ensure_device_offline (answering 503) base_url (λ before r. refl) plain_text random settings
      made

-- ===== src/Tests/Wgdev.antt =====
-- The WireGuard device at concrete settings.
use cfwg.Base.{◌≡◌, refl, [], ◌∷◌, ok, err, message}
use cfwg.Net.Decimal.{pos}
use cfwg.Config.{stack4}
use cfwg.System.{Runner}
use cfwg.Router.{RouteText}
use cfwg.Wgdev.{DesiredConfig, TempFile, Host, apply, remove_file}
use cfwg.Wgdev.Files.{apply-files}

abbrev short_text : RouteText
short_text = record { prefix_string = λ p. 48 ∷ []; decode_routes = λ output. ok [] }

abbrev quiet : Runner
quiet before c = ok []

abbrev settings : DesiredConfig
settings = record {
  name = 119 ∷ [];
  stack_mode = stack4;
  private_key = 107 ∷ [];
  address_v4 = 49 ∷ [];
  address_v6 = [];
  peer_public_key = 112 ∷ [];
  endpoint = 101 ∷ [];
  mtu = pos 1280;
}

abbrev in_tmp : TempFile
in_tmp = record {
  create_temp = λ name. ok (116 ∷ []);
  chmod = λ path. ok tt;
  write_string = λ path content. ok tt;
  remove = λ path. ok tt;
}

abbrev full_disk : TempFile
full_disk = record in_tmp { write_string = λ path content. err (message "no space left on device") }

abbrev idle : Host
idle = record { commands = []; files = [] }

no_file : remove_file (116 ∷ []) [] ≡ []
unfolding remove_file
no_file = refl

apply-files_example : ((apply short_text in_tmp quiet settings idle).1).files ≡ []
apply-files_example =
    apply-files short_text in_tmp quiet settings idle (116 ∷ []) no_file refl refl refl refl

-- ===== src/Tests/Config.antt =====
-- The settings of a concrete environment.
use cfwg.Base.{◌≡◌, refl, true, some, ok, Text, str, text_eq, if◌then◌else◌, []}
use cfwg.Config.{Config, stack6, load_from_env, normalize_optional, unspecified, load_stack_mode}

abbrev pub environment : Text → Text
environment name =
    if text_eq name (str "proxy-stack")
    then str "6"
    else if text_eq name (str "uname")
    then str "me"
    else if text_eq name (str "upwd")
    then str "secret"
    else []

abbrev pub settings : Config
settings = record {
  proxy_stack = stack6;
  warp_license = str "unspecified";
  auth = record { enabled = true; username = str "me"; password = str "secret" };
}

pub loads : load_from_env (some environment) ≡ ok settings
unfolding load_from_env str text_eq normalize_optional unspecified load_stack_mode
loads = refl

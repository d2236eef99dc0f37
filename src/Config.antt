-- ===== src/Config.antt =====
-- internal/config/config.go: the settings that come from the environment.
pub mod Auth
use cfwg.Base.{
  Bool, true, false, ◌&&◌, ◌||◌, not, Option, none, some, Text, str, is_empty, text_eq,
  if◌then◌else◌, Result, ok, err, ◌>>=◌, message,
}

pub data StackMode : Type 0 where
  stack_dual stack4 stack6 : StackMode

pub record AuthConfig : Type 0 where
  pub enabled : Bool
  pub username : Text
  pub password : Text

pub record Config : Type 0 where
  pub proxy_stack : StackMode
  pub warp_license : Text
  pub auth : AuthConfig

unfoldable pub unspecified : Text
unspecified = str "unspecified"

unfoldable pub normalize_optional : Text → Text
normalize_optional value = if is_empty value then unspecified else value

stack_mode_of : Text → Result StackMode
stack_mode_of value =
    if text_eq value unspecified
    then ok stack_dual
    else if text_eq value (str "4")
    then ok stack4
    else if text_eq value (str "6")
    then ok stack6
    else err (message "proxy-stack must be 4, 6, or unspecified")

unfoldable pub load_stack_mode : Text → Result StackMode
unfolding stack_mode_of
load_stack_mode value = stack_mode_of (normalize_optional value)

load_auth : Text → Text → Result AuthConfig
load_auth username password =
    if text_eq username unspecified && text_eq password unspecified
    then ok (record { enabled = false; username = username; password = password })
    else if text_eq username unspecified || text_eq password unspecified
    then err (message "uname and upwd must be configured together")
    else ok (record { enabled = true; username = username; password = password })

with_auth : StackMode → Text → Result AuthConfig → Result Config
with_auth stack license (err e) = err e
with_auth stack license (ok auth) =
    ok (record { proxy_stack = stack; warp_license = license; auth = auth })

load_from_getenv : (Text → Text) → Result Config
unfolding load_auth with_auth
load_from_getenv getenv = do
  stack ← load_stack_mode (getenv (str "proxy-stack"))
  with_auth stack (normalize_optional (getenv (str "warp-license"))) (
      load_auth (normalize_optional (getenv (str "uname")))
        (normalize_optional (getenv (str "upwd"))))

-- `getenv` may be nil.
unfoldable pub load_from_env : Option (Text → Text) → Result Config
unfolding load_from_getenv
load_from_env none = err (message "getenv is required")
load_from_env (some getenv) = load_from_getenv getenv

-- ===== src/Socks5/Auth.antt =====
-- negotiateAuth and verifyUsernamePassword of internal/socks5/server.go.
pub mod Sound
pub mod Complete
use cfwg.Base.{
  ℕ, Bool, ◌||◌, not, Option, none, some, List, [], ◌∷◌, ◌==◌, if◌then◌else◌, text_eq, message,
  message_int,
}
use cfwg.Socks5.Conn.{M, ◌>>=◌, ◌>>◌, pure, fail, check, ignore, byte, read_exactly, write}
use cfwg.Socks5.Wire.{
  AuthConfig, contains_method, socks_version, auth_method_none, auth_method_user_pass,
  auth_method_rejected,
}

status_of : AuthConfig → List ℕ → List ℕ → ℕ
status_of auth user pass =
    if not (text_eq user auth.username) || not (text_eq pass auth.password) then 1 else 0

report_status : ℕ → M (Unit {0})
report_status status = do
  write (1 ∷ status ∷ [])
  check (status == 0) (message "invalid username or password")

unfoldable pub verify_username_password : AuthConfig → M (Unit {0})
unfolding status_of report_status
verify_username_password auth = do
  version ← read_exactly 1
  check (byte version 0 == 1) (message_int "unsupported auth version" (byte version 0))
  user_len ← read_exactly 1
  user ← read_exactly (byte user_len 0)
  pass_len ← read_exactly 1
  pass ← read_exactly (byte pass_len 0)
  report_status (status_of auth user pass)

unfoldable pub required_method : Option AuthConfig → ℕ
required_method none = auth_method_none
required_method (some auth) = auth_method_user_pass

verify_if_required : Option AuthConfig → M (Unit {0})
verify_if_required none = pure tt
verify_if_required (some auth) = verify_username_password auth

reject : M (Unit {0})
reject = do
  ignore (write (socks_version ∷ auth_method_rejected ∷ []))
  fail (message "no acceptable auth method")

answer_methods : Option AuthConfig → List ℕ → M (Unit {0})
unfolding reject verify_if_required
answer_methods auth methods =
    if contains_method methods (required_method auth)
    then write (socks_version ∷ required_method auth ∷ []) >> verify_if_required auth
    else reject

unfoldable pub negotiate_auth : Option AuthConfig → M (Unit {0})
unfolding answer_methods
negotiate_auth auth = do
  head ← read_exactly 2
  check (byte head 0 == socks_version) (message_int "unsupported socks version" (byte head 0))
  methods ← read_exactly (byte head 1)
  answer_methods auth methods

-- ===== src/Socks5/Wire.antt =====
-- The constants of internal/socks5/server.go, and its helpers on bytes.
use cfwg.Base.{ℕ, ◌+◌, ◌*◌, ◌/◌, ◌%◌, Bool, false, ◌||◌, List, [], ◌∷◌, ◌==◌}
use cfwg.Base.{Text}

abbrev pub socks_version : ℕ
socks_version = 5

abbrev pub auth_method_none : ℕ
auth_method_none = 0

abbrev pub auth_method_user_pass : ℕ
auth_method_user_pass = 2

abbrev pub auth_method_rejected : ℕ
auth_method_rejected = 255

abbrev pub command_connect : ℕ
command_connect = 1

abbrev pub command_udp_associate : ℕ
command_udp_associate = 3

abbrev pub addr_type_ipv4 : ℕ
addr_type_ipv4 = 1

abbrev pub addr_type_domain : ℕ
addr_type_domain = 3

abbrev pub addr_type_ipv6 : ℕ
addr_type_ipv6 = 4

abbrev pub reply_succeeded : ℕ
reply_succeeded = 0

abbrev pub reply_general_failure : ℕ
reply_general_failure = 1

abbrev pub reply_command_unsupported : ℕ
reply_command_unsupported = 7

pub record AuthConfig : Type 0 where
  pub username : Text
  pub password : Text

unfoldable pub contains_method : List ℕ → ℕ → Bool
contains_method [] want = false
contains_method (method ∷ methods) want = method == want || contains_method methods want

-- `binary.BigEndian.Uint16` and `PutUint16`.
abbrev pub be_uint16 : ℕ → ℕ → ℕ
be_uint16 hi lo = hi * 256 + lo

abbrev pub put_uint16 : ℕ → List ℕ
put_uint16 n = n / 256 % 256 ∷ n % 256 ∷ []

-- ===== src/Config/Auth.antt =====
-- Which environments give which credentials.
use cfwg.Base.{
  ◌≡◌, Bool, ◌||◌, ◌&&◌, is_ok, some, Text, str, is_empty, text_eq, text_eq_refl, if◌then◌else◌, ok,
  arith, not,
}
use cfwg.Config.{Config, unspecified, normalize_optional, load_from_env, load_stack_mode}

-- The variable is not set, or is set to the word "unspecified".
abbrev pub is_unset : Text → Bool
is_unset value = is_empty value || text_eq value unspecified

module _ (getenv : Text → Text) (c : Config) (loaded : load_from_env (some getenv) ≡ ok c) where
  -- If the settings load, then a username and a password are both set or both unset, authentication
  -- is on exactly if they are set, and its username and password are the ones that are set.
  pub load_from_env-auth :
      (is_unset (getenv (str "uname")) ≡ is_unset (getenv (str "upwd")))
      × (c.auth.enabled ≡ not (is_unset (getenv (str "uname"))))
      × (c.auth.username ≡ normalize_optional (getenv (str "uname")))
      × (c.auth.password ≡ normalize_optional (getenv (str "upwd")))
  unfolding load_from_env normalize_optional
  load_from_env-auth = ground (arith, text_eq_refl unspecified)

-- The modes that a value of proxy-stack may name.
abbrev pub is_stack : Text → Bool
is_stack value = is_unset value || text_eq value (str "4") || text_eq value (str "6")

abbrev pub both_or_neither : Bool → Bool → Bool
both_or_neither a b = if a then b else not b

-- The settings load exactly if the stack is unset, "4" or "6", and a username and a password are
-- both set or both unset.
pub load_from_env_accepts :
    (getenv : Text → Text)
    → is_ok (load_from_env (some getenv)) ≡ (
        is_stack (getenv (str "proxy-stack"))
        && both_or_neither (is_unset (getenv (str "uname"))) (is_unset (getenv (str "upwd"))))
unfolding load_from_env load_stack_mode normalize_optional
load_from_env_accepts getenv = ground (arith, text_eq_refl unspecified)

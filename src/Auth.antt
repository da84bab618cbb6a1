-- ===== src/Auth.antt =====
-- xvector/auth/gateway_auth.py and xvector/auth/password.py. The password hash (PBKDF2, then
-- base64) is a function from the password and the salt; the environment is two optional texts.
pub mod Bearer
use xvector.Prelude.{
  ℕ, String, Bool, true, false, ◌&&◌, ◌||◌, Option, none, some, ◌==◌, nat_beq, if◌then◌else◌,
}
use xvector.Errors.{Result, ok, err, runtime}
use xvector.Text.{is_empty, strip, equals_lower, split_once}

-- the parts of authorization.split(" ", 1), if there are two
unfoldable pub parse_parts : Option (String × String) → Option (String × String)
parse_parts none = none
parse_parts (some (scheme, rest)) =
    if equals_lower scheme "bearer" then split_once b':' (strip rest) else none

unfoldable pub parse_bearer : Option String → Option (String × String)
parse_bearer none = none
parse_bearer (some authorization) =
    if is_empty authorization then none else parse_parts (split_once b' ' authorization)

-- the settings that authentication reads, and what the environment overrides
pub record Settings : Type 0 where
  pub username : String
  pub password : String
  pub internal_token : String
  pub env_username : Option String
  pub env_password : Option String

-- os.getenv(name, default)
abbrev pub getenv : Option String → String → String
getenv none default = default
getenv (some v) default = v

unfoldable pub bootstrap_matches : Settings → String → String → Bool
bootstrap_matches settings username password =
    username == getenv settings.env_username settings.username
    && password == getenv settings.env_password settings.password

-- What the Writer answers at /internal/auth/verify: nothing (the call raises), or a status and
-- the truth of the field `ok`.
pub data VerifyReply : Type 0 where
  lost : VerifyReply
  answered : (status : ℕ) (verified : Bool) → VerifyReply

-- the end of `authenticate_via_writer`
abbrev pub read_reply : VerifyReply → Result Bool
read_reply lost = err runtime
read_reply (answered status verified) = ok (nat_beq status 200 && verified)

unfoldable pub authenticate_via_writer :
    Settings → (String → String → VerifyReply) → String → String → Result Bool
authenticate_via_writer settings ask username password =
    if bootstrap_matches settings username password
    then ok true
    else read_reply (ask username password)

-- the fields of a user document that a password check reads
pub record Credentials : Type 0 where
  pub password_salt : String
  pub password_hash : String

module _ (hash_password : String → String → String) where
  unfoldable pub verify_password : String → Credentials → Bool
  verify_password password user = hash_password password user.password_salt == user.password_hash

  unfoldable pub verify_local_user : Settings → Option Credentials → String → String → Bool
  unfolding verify_password
  verify_local_user settings none username password = bootstrap_matches settings username password
  verify_local_user settings (some user) username password =
      bootstrap_matches settings username password || verify_password password user

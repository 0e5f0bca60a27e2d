-- ===== src/Config.antt =====
-- internal/config/config.go. The environment, the files and Go's `flag` package are parameters.
pub mod Valid
mod Tests
use Prim.Native.Char.{Char, code}
use watchkeeper.Prelude.{
  ℕ, ◌+◌, String, Bool, true, false, Option, none, some, List, [], ◌∷◌, ◌++◌, not, ltb, leb, ◌==◌,
  ◌||◌, ◌&&◌, str_eq, ℤ, pos, negsuc, below_one, if◌then◌else◌,
}
use watchkeeper.Domain.Types.{Error, library_error, Result, ok, err}

-- A duration in nanoseconds.
pub record Config : Type 0 where
  pub http_addr : String
  pub database_url : String
  pub auth_token : String
  pub admin_token : String
  pub log_level : String
  pub shutdown_timeout : ℤ

-- The values of the flags, before and after `flags.Parse`.
pub record Flags : Type 0 where
  pub http_addr : String
  pub database_url : String
  pub log_level : String
  pub auth_file : String
  pub admin_file : String
  pub shutdown_timeout : ℤ

pub record Environment : Type 0 where
  pub getenv : String → String
  -- from the defaults and the arguments
  pub parse_flags : Flags → List String → Result Flags
  pub read_file : String → Result String

abbrev is_space : ℕ → Bool
is_space n =
    (leb 9 n && leb n 13)
    || n == 32
    || n == 133
    || n == 160
    || n == 5760
    || (leb 8192 n && leb n 8202)
    || n == 8232
    || n == 8233
    || n == 8239
    || n == 8287
    || n == 12288

abbrev trim_left : String → String
trim_left String.[] = ""
trim_left (String.◌∷◌ c s) =
    let rest = trim_left s in if is_space (code c) then rest else String.◌∷◌ c s

abbrev trim_right : String → String
trim_right String.[] = ""
trim_right (String.◌∷◌ c s) =
    let rest = trim_right s in if is_space (code c) && str_eq rest "" then "" else String.◌∷◌ c rest

-- `strings.TrimSpace`
abbrev pub trim_space : String → String
trim_space s = trim_right (trim_left s)

-- `strings.ToLower` of a character, as a number. Of the letters outside ASCII only U+0130 lowers to a
-- letter of the four levels.
abbrev pub lowered : ℕ → ℕ
lowered n = if leb 65 n && leb n 90 then n + 32 else if n == 304 then 105 else n

abbrev pub lowered_is : String → String → Bool
lowered_is String.[] String.[] = true
lowered_is (String.◌∷◌ c s) (String.◌∷◌ d t) =
    let rest = lowered_is s t in lowered (code c) == code d && rest
lowered_is _ _ = false

unfoldable pub env_or : (String → String) → String → String → String
env_or getenv key fallback =
    let value = getenv key in if not (str_eq value "") then value else fallback

unfoldable pub read_secret : (String → Result String) → String → Result String
read_secret read_file path = elim (read_file path) [
  | err e ↦ err e
  | ok value ↦
      let secret = trim_space value in
      if str_eq secret "" then err (library_error "secret file is empty") else ok secret
]

abbrev pub known_level : String → Bool
known_level level =
    lowered_is level "debug"
    || lowered_is level "info"
    || lowered_is level "warn"
    || lowered_is level "error"

abbrev error_if : Bool → String → List String
error_if bad message = if bad then message ∷ [] else []

-- The errors that are joined; Go's nil is the empty list.
unfoldable pub validate : Config → List String
validate c =
    error_if (str_eq c.database_url "") "WK_DATABASE_URL is required"
    ++ error_if (str_eq c.auth_token "") "public auth token is required"
    ++ error_if (str_eq c.admin_token "") "admin auth token is required"
    ++ error_if (not (known_level c.log_level)) "invalid log level"
    ++ error_if (below_one c.shutdown_timeout) "shutdown timeout must be positive"

unfoldable pub default_flags : (String → String) → Flags
default_flags getenv = record {
  http_addr = env_or getenv "WK_HTTP_ADDR" ":8080";
  database_url = getenv "WK_DATABASE_URL";
  log_level = env_or getenv "WK_LOG_LEVEL" "info";
  auth_file = getenv "WK_AUTH_TOKEN_FILE";
  admin_file = getenv "WK_ADMIN_TOKEN_FILE";
  shutdown_timeout = pos 10_000_000_000;
}

-- A token from its file, where there is one; an error is passed on in a message.
unfoldable pub token_from : (String → Result String) → String → String → String → Result String
token_from read_file file token action =
    if str_eq file "" then ok token else elim (read_secret read_file file) [
      | err e ↦ err (library_error action)
      | ok secret ↦ ok secret
    ]

abbrev pub valid_or_error : Config → Result Config
valid_or_error c = elim (validate c) [ [] ↦ ok c | m ∷ rest ↦ err (library_error m) ]

unfoldable pub with_tokens : Flags → String → String → Config
with_tokens f auth_token admin_token = record {
  http_addr = f.http_addr;
  database_url = f.database_url;
  auth_token = auth_token;
  admin_token = if str_eq admin_token "" then auth_token else admin_token;
  log_level = f.log_level;
  shutdown_timeout = f.shutdown_timeout;
}

abbrev pub with_admin : Flags → String → Result String → Result Config
with_admin f auth_token (err e) = err e
with_admin f auth_token (ok admin_token) = valid_or_error (with_tokens f auth_token admin_token)

abbrev pub with_auth : Environment → Flags → Result String → Result Config
with_auth env f (err e) = err e
with_auth env f (ok auth_token) =
    with_admin f auth_token
      (token_from env.read_file f.admin_file (env.getenv "WK_ADMIN_TOKEN") "read admin token")

abbrev pub with_flags : Environment → Result Flags → Result Config
with_flags env (err e) = err e
with_flags env (ok f) =
    with_auth env f
      (token_from env.read_file f.auth_file (env.getenv "WK_AUTH_TOKEN") "read auth token")

unfoldable pub load : Environment → List String → Result Config
load env arguments = with_flags env (env.parse_flags (default_flags env.getenv) arguments)

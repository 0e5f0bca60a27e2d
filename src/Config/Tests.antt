-- ===== src/Config/Tests.antt =====
-- A configuration from the environment alone, and the theorem at it.
use watchkeeper.Prelude.{String, [], ◌≡◌, refl, pos, str_eq, if◌then◌else◌}
use watchkeeper.Domain.Types.{ok}
use watchkeeper.Config.{
  Config, Flags, Environment, env_or, read_secret, validate, default_flags, token_from, with_tokens,
  load,
}
use watchkeeper.Config.Valid.{Loaded, load-Valid}

abbrev variables : String → String
variables name =
    if str_eq name "WK_DATABASE_URL"
    then "postgres://db"
    else if str_eq name "WK_LOG_LEVEL"
    then "WARN"
    else if str_eq name "WK_AUTH_TOKEN_FILE"
    then "/run/token"
    else ""

-- No argument is given, and the one file holds a token and a line's end.
abbrev only_environment : Environment
only_environment = record {
  getenv = λ name. variables name;
  parse_flags = λ defaults arguments. ok defaults;
  read_file = λ path. ok " secret\n";
}

abbrev expected : Config
expected = record {
  http_addr = ":8080";
  database_url = "postgres://db";
  auth_token = "secret";
  admin_token = "secret";
  log_level = "WARN";
  shutdown_timeout = pos 10_000_000_000;
}

abbrev flags : Flags
flags = record {
  http_addr = ":8080";
  database_url = "postgres://db";
  log_level = "WARN";
  auth_file = "/run/token";
  admin_file = "";
  shutdown_timeout = pos 10_000_000_000;
}

flags_read : only_environment.parse_flags (default_flags only_environment.getenv) [] ≡ ok flags
unfolding default_flags env_or
flags_read = refl

loaded : load only_environment [] ≡ ok expected
unfolding load default_flags env_or token_from read_secret with_tokens validate
loaded = refl

load-Valid_example : Loaded only_environment flags expected
load-Valid_example = load-Valid only_environment [] flags expected flags_read loaded

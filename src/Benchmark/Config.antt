-- ===== src/Benchmark/Config.antt =====
-- `LoadConfig` of internal/benchmark/config.go, after the file is read and decoded.
use watchkeeper.Prelude.{
  ℕ, String, Bool, true, Option, none, some, List, [], ◌∷◌, ◌==◌, ◌&&◌, ◌||◌, not, ltb,
  if◌then◌else◌,
}
use watchkeeper.Benchmark.Assertions.{contains}

pub record Config : Type 0 where
  pub version : ℕ
  pub strategies : List String
  pub profiles : List String
  pub scenarios : List String
  pub repetitions : ℕ
  pub seed : ℕ
  pub deadline_ms : ℕ
  pub outage_ms : ℕ
  pub delay_ms : ℕ
  pub drain_ms : ℕ
  pub prepared_grace_ms : ℕ
  pub assert_no_duplicate_effects : List String

abbrev pub all_strategies : List String
all_strategies =
    "blind_retry" ∷ "idempotency_key_retry" ∷ "checkpoint_recovery" ∷ "watchkeeper" ∷ []

abbrev pub all_profiles : List String
all_profiles = "receipt_status" ∷ "idempotency_only" ∷ "indirect_unique" ∷ "none" ∷ []

abbrev pub all_scenarios : List String
all_scenarios =
    "none" ∷ "before_intent" ∷ "before_dispatch" ∷ "accepted_before_commit" ∷ "after_commit"
    ∷ "after_response" ∷ "after_persistence" ∷ "lost_response" ∷ "duplicate_delivery"
    ∷ "delayed_commit" ∷ "service_unavailable" ∷ "database_unavailable"
    ∷ "coordinator_before_result" ∷ "coordinator_after_result" ∷ []

abbrev or_default : ℕ → ℕ → ℕ
or_default n d = if n == 0 then d else n

abbrev or_all : List String → List String → List String
or_all [] all = all
or_all (x ∷ xs) all = x ∷ xs

-- `grace` is `api.DefaultPreparedGrace` in milliseconds.
unfoldable pub with_defaults : ℕ → Config → Config
with_defaults grace c = record {
  version = c.version;
  strategies = or_all c.strategies all_strategies;
  profiles = or_all c.profiles all_profiles;
  scenarios = or_all c.scenarios all_scenarios;
  repetitions = or_default c.repetitions 100;
  seed = or_default c.seed 1;
  deadline_ms = or_default c.deadline_ms 60_000;
  outage_ms = or_default c.outage_ms 2000;
  delay_ms = or_default c.delay_ms 5000;
  drain_ms = or_default c.drain_ms 10_000;
  prepared_grace_ms = or_default c.prepared_grace_ms grace;
  assert_no_duplicate_effects = c.assert_no_duplicate_effects;
}

-- Each of `got` is one of `want`, and none comes twice.
unfoldable pub known_once : List String → List String → List String → Bool
known_once want seen [] = true
known_once want seen (s ∷ got) =
    contains want s && not (contains seen s) && known_once want (s ∷ seen) got

unfoldable pub valid_matrix : Config → Bool
valid_matrix c =
    known_once all_strategies [] c.strategies
    && known_once all_profiles [] c.profiles
    && known_once all_scenarios [] c.scenarios
    && known_once c.strategies [] c.assert_no_duplicate_effects

unfoldable pub with_none : Config → Config
with_none c =
    if contains c.scenarios "none" then c else record c { scenarios = "none" ∷ c.scenarios }

-- The configuration, or `none` for an error. The numbers of a file are natural here, so a check that
-- one is at least 1 always holds after the defaults.
unfoldable pub load_config : ℕ → Config → Option Config
load_config grace c =
    let d = with_defaults grace c in
    if not (c.version == 1)
    then none
    else if ltb d.prepared_grace_ms 1 || ltb d.deadline_ms d.prepared_grace_ms
    then none
    else if not (valid_matrix d)
    then none
    else some (with_none d)

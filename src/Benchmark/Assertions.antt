-- ===== src/Benchmark/Assertions.antt =====
-- `CheckAssertions` of internal/benchmark/score.go and `Supported` of internal/benchmark/config.go.
pub mod Passing
use watchkeeper.Prelude.{
  ℕ, String, Bool, true, false, Option, none, some, List, [], ◌∷◌, ◌++◌, ◌&&◌, ◌||◌, not, ltb,
  str_eq, str_append, if◌then◌else◌,
}

-- The fields of a `Result` that the assertions read.
pub record Trial : Type 0 where
  pub execution_id : String
  pub cell : String
  pub strategy : String
  pub scenario : String
  pub status : String
  pub duplicate : Bool
  pub excess_effects : ℕ

-- What a message of the error names.
pub data Violation : Type 0 where
  extra_effects : Trial → Violation
  nothing_observed : String → Violation

unfoldable pub contains : List String → String → Bool
contains [] s = false
contains (x ∷ xs) s = str_eq x s || contains xs s

unfoldable pub asserted_on : List String → Trial → Bool
asserted_on strategies t =
    str_eq t.status "completed"
    && contains strategies t.strategy
    && not (str_eq t.scenario "duplicate_delivery")

unfoldable pub extra : List String → List Trial → List Violation
extra strategies [] = []
extra strategies (t ∷ trials) =
    let rest = extra strategies trials in
    if asserted_on strategies t && (t.duplicate || ltb 0 t.excess_effects)
    then extra_effects t ∷ rest
    else rest

unfoldable pub observed : List String → String → List Trial → Bool
observed strategies s [] = false
observed strategies s (t ∷ trials) =
    (asserted_on strategies t && str_eq t.strategy s) || observed strategies s trials

unfoldable pub unobserved : List String → List Trial → List String → List Violation
unobserved strategies trials [] = []
unobserved strategies trials (s ∷ rest) =
    let more = unobserved strategies trials rest in
    if observed strategies s trials then more else nothing_observed s ∷ more

-- The violations that the error joins; none is Go's nil error.
unfoldable pub check_assertions : List String → List Trial → List Violation
check_assertions strategies trials =
    extra strategies trials ++ unobserved strategies trials strategies

unfoldable pub supported : String → String → String → Bool
supported strategy profile scenario =
    if str_eq strategy "idempotency_key_retry" && not (str_eq profile "idempotency_only")
    then false
    else if (str_eq scenario "coordinator_before_result"
          || str_eq scenario "coordinator_after_result")
        && not (str_eq strategy "watchkeeper")
    then false
    else if str_eq scenario "database_unavailable"
        && (str_eq strategy "blind_retry" || str_eq strategy "idempotency_key_retry")
    then false
    else true

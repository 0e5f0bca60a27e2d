-- ===== src/Benchmark/Tests.antt =====
-- A score, and its theorem at it.
use watchkeeper.Prelude.{◌+◌, ◌<◌, ◌≡◌, ◌↔◌, true, false, List, [], ◌∷◌}
use watchkeeper.Benchmark.Score.{Step, score, no_tally}
use watchkeeper.Benchmark.Assertions.{Trial}
use watchkeeper.Benchmark.Score.Balance.{score-balance, effective, total_effects}

abbrev two_steps : List Step
two_steps =
    record {
      key = "a";
      attempted = true;
      acknowledged = true;
      uncertain = false;
      effects = 2;
      deadline_effects = 1;
    }
    ∷ record {
      key = "b";
      attempted = false;
      acknowledged = false;
      uncertain = false;
      effects = 0;
      deadline_effects = 0;
    }
    ∷ []

score-balance_example :
    ((score false no_tally two_steps).missing
      ≡ (score false no_tally two_steps).unattempted
        + (score false no_tally two_steps).uncertain_missing
        + (score false no_tally two_steps).abandoned)
    × (((score false no_tally two_steps).duplicate ≡ true)
        ↔ (0 < (score false no_tally two_steps).excess_effects))
    × ((score false no_tally two_steps).excess_effects + effective two_steps
        ≡ total_effects two_steps)
score-balance_example = score-balance two_steps

abbrev clean_trial : Trial
clean_trial = record {
  execution_id = "1";
  cell = "c";
  strategy = "watchkeeper";
  scenario = "none";
  status = "completed";
  duplicate = false;
  excess_effects = 0;
}

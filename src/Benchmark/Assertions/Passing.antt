-- ===== src/Benchmark/Assertions/Passing.antt =====
-- What a run that passes its assertions has shown.
use watchkeeper.Prelude.{Memᴰ, ◌≡◌, ◌≢◌, String, List}
use watchkeeper.Benchmark.Assertions.{Trial}

-- A completed trial of an asserted strategy that is not excepted.
pub record Counts (strategies : List String) (t : Trial) : Type 0 where
  pub is_completed : t.status ≡ "completed"
  pub of_strategy : Memᴰ t.strategy strategies
  pub not_excepted : t.scenario ≢ "duplicate_delivery"

-- A trial of the run that counts, of one strategy.
pub record SeenIn (strategies : List String) (s : String) (trials : List Trial) : Type 0 where
  pub trial : Trial
  pub of_run : Memᴰ trial trials
  pub counts : Counts strategies trial
  pub same_strategy : trial.strategy ≡ s

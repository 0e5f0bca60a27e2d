-- ===== src/Benchmark/Fault/Tests.antt =====
-- Runs of the faults at concrete inputs.
use watchkeeper.Prelude.{◌≡◌, ◌≤◌, refl, String, true, false, none, some, List, [], ◌∷◌, ◌⊎◌, arith}
use watchkeeper.Domain.Types.{library_error}
use watchkeeper.Benchmark.Fault.{
  Trial, Surroundings, barrier, record_event, prepare_coordinator_fault, target_of, of_coordinator,
  inject, trigger, kill, release_later, release, next_release, mark_steps,
}
use watchkeeper.Benchmark.Fault.Steps.{
  TrialStep, reached, releases, sends, asks, starts, act, acts, start_child, deliver, twice,
  count_question, ChildRound, supervise, ended,
}
use watchkeeper.Benchmark.Fault.Kills.{acts-at_most_one_kill, supervise-restarts, one_if}

abbrev calm : Surroundings
calm = record {
  now = 5;
  file_error = λ e. none;
  persist_error = λ e. none;
  kill_worker_error = none;
  kill_coordinator_error = none;
  cancelled = none;
}

abbrev trial_of : String → Trial
trial_of scenario = record {
  strategy = "watchkeeper";
  scenario = scenario;
  outage_ms = 2;
  delay_ms = 0;
  steps = [];
  step_dispatches = [];
  fault_triggered = false;
  events = [];
  pending = [];
  has_worker = false;
  has_coordinator = false;
  worker_kills = 0;
  coordinator_kills = 0;
  triggered = false;
  trigger_at = none;
  service_until = none;
  database_until = none;
  dispatches = 0;
  verifications = 0;
  failure = none;
}

abbrev at_second : String → TrialStep
at_second place = reached calm (record {
  phase = "reached";
  barrier = place;
  step = "step-2";
  operation_id = "o";
  attempt = 1;
  at = some 4;
})

-- The worker is killed at the commit so that the coordinator has an operation to claim.
abbrev coordinator_run : List TrialStep
coordinator_run =
    starts true
    ∷ starts false
    ∷ sends calm "step-2"
    ∷ at_second "after_commit"
    ∷ at_second "coordinator_after_claim"
    ∷ at_second "coordinator_after_claim"
    ∷ []

both_killed :
    ((acts coordinator_run (trial_of "coordinator_after_claim")).worker_kills ≡ 1)
    × ((acts coordinator_run (trial_of "coordinator_after_claim")).coordinator_kills ≡ 1)
unfolding acts act barrier record_event prepare_coordinator_fault of_coordinator target_of inject
    trigger kill mark_steps start_child deliver
both_killed = (refl, refl)

acts-at_most_one_kill_example :
    ((acts coordinator_run (trial_of "coordinator_after_claim")).worker_kills ≤ 1)
    × ((acts coordinator_run (trial_of "coordinator_after_claim")).coordinator_kills
        ≤ one_if (acts coordinator_run (trial_of "coordinator_after_claim")).triggered)
    × ((of_coordinator (acts coordinator_run (trial_of "coordinator_after_claim")).scenario ≡ true)
        ⊎ (((acts coordinator_run (trial_of "coordinator_after_claim")).worker_kills
              ≤ one_if (acts coordinator_run (trial_of "coordinator_after_claim")).triggered)
            × ((acts coordinator_run (trial_of "coordinator_after_claim")).coordinator_kills ≡ 0)))
acts-at_most_one_kill_example =
    acts-at_most_one_kill coordinator_run (trial_of "coordinator_after_claim") refl refl

-- A message that the service gets twice, an outage that ends, and a question.
duplicated :
    (acts (sends calm "step-2" ∷ asks calm ∷ []) (trial_of "duplicate_delivery")).dispatches ≡ 2
unfolding acts act deliver twice record_event count_question
duplicated = refl

outage :
    (acts
      (at_second "before_dispatch" ∷ releases calm ∷ [])
      (trial_of "service_unavailable")).service_until
    ≡ some 2005
unfolding acts act barrier record_event prepare_coordinator_fault of_coordinator target_of inject
    trigger release_later release next_release mark_steps
outage = refl

abbrev killed_round : ChildRound
killed_round = record {
  over = none;
  start_error = none;
  exit_error = some (library_error "killed");
  over_after = none;
  kills = 1;
}

started_again :
    supervise 0 (killed_round ∷ killed_round ∷ [])
    ≡ (ended (some (library_error "exited unexpectedly")), 1)
unfolding supervise
started_again = refl

supervise-restarts_example : (supervise 0 (killed_round ∷ killed_round ∷ [])).1 ≤ 1
supervise-restarts_example =
    supervise-restarts (killed_round ∷ killed_round ∷ []) 1 (ground arith, (ground arith, tt))

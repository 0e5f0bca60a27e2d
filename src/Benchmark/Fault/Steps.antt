-- ===== src/Benchmark/Fault/Steps.antt =====
-- internal/benchmark/fault.go: the simulator's hook and handler of a trial, and what can happen to a
-- trial; internal/benchmark/runner.go: the supervision of its processes.
use watchkeeper.Prelude.{
  ℕ, ◌+◌, String, Bool, true, false, Option, none, some, List, [], ◌∷◌, ◌&&◌, not, ltb, leb, str_eq,
  if◌then◌else◌,
}
use watchkeeper.Domain.Types.{Time, Error, library_error}
use watchkeeper.Benchmark.Fault.{FaultEvent, Trial, Surroundings, record_event, barrier, release}

abbrev bumped : String → List (String × ℕ) → List (String × ℕ)
bumped key [] = (key, 1) ∷ []
bumped key ((k, n) ∷ rest) =
    let more = bumped key rest in if str_eq k key then (k, n + 1) ∷ rest else (k, n) ∷ more

abbrev dispatches_of : String → List (String × ℕ) → ℕ
dispatches_of key [] = 0
dispatches_of key ((k, n) ∷ rest) =
    let more = dispatches_of key rest in if str_eq k key then n else more

-- The hook of the simulator.
unfoldable pub sim_hook : Surroundings → String → String → String → Trial → Option Error × Trial
sim_hook u name id template t =
    barrier u
      (record {
        phase = "reached";
        barrier = name;
        step = template;
        operation_id = id;
        attempt = dispatches_of template t.step_dispatches;
        at = none;
      })
      t

abbrev pub out_of_service : Time → Option Time → Bool
out_of_service now none = false
out_of_service now (some until) = ltb now until

abbrev duplicates : String → Trial → Bool
duplicates template t =
    str_eq t.scenario "duplicate_delivery" && str_eq template "step-2" && not t.triggered

abbrev duplicate_event : String → FaultEvent
duplicate_event phase = record {
  phase = phase;
  barrier = "duplicate_delivery";
  step = "step-2";
  operation_id = "";
  attempt = 1;
  at = none;
}

unfoldable pub twice : Surroundings → String → Trial → Trial
twice u template t = record_event u (duplicate_event "released") (
    record_event u (duplicate_event "triggered") (record t {
      triggered = true;
      fault_triggered = true;
      trigger_at = some u.now;
      dispatches = t.dispatches + 1;
      step_dispatches = bumped template t.step_dispatches;
    }))

-- `simulatorHandler` for a message whose body is read: how many times the service has it.
unfoldable pub deliver : Surroundings → String → Trial → ℕ × Trial
deliver u template t =
    let counted = record t { dispatches = t.dispatches + 1 } in
    if out_of_service u.now t.service_until
    then (0, counted)
    else let sent = record counted { step_dispatches = bumped template counted.step_dispatches } in
      if duplicates template sent then (2, twice u template sent) else (1, sent)

-- A question, which is counted and passed on but in an outage.
unfoldable pub count_question : Surroundings → Trial → ℕ × Trial
count_question u t = (
  (if out_of_service u.now t.service_until then 0 else 1),
  record t { verifications = t.verifications + 1 },
)

-- What happens to a trial: a child reports an event, a released event is recorded, a message or a
-- question reaches the service, the runner starts a worker or a coordinator, the simulator runs its
-- hook.
pub data TrialStep : Type 0 where
  reached : Surroundings → FaultEvent → TrialStep
  releases : Surroundings → TrialStep
  sends : Surroundings → String → TrialStep
  asks : Surroundings → TrialStep
  starts : Bool → TrialStep
  hooks : Surroundings → String → String → String → TrialStep

-- The runner's `supervise`, where it starts a child.
unfoldable pub start_child : Bool → Trial → Trial
start_child true t = record t { has_worker = true }
start_child false t = record t { has_coordinator = true }

unfoldable pub act : TrialStep → Trial → Trial
act (reached u e) t = (barrier u e t).1
act (releases u) t = release u t
act (sends u template) t = (deliver u template t).1
act (asks u) t = (count_question u t).1
act (hooks u name id template) t = (sim_hook u name id template t).1
act (starts worker) t = start_child worker t

unfoldable pub acts : List TrialStep → Trial → Trial
acts [] t = t
acts (s ∷ steps) t = acts steps (act s t)

-- One round of `supervise`: the context's error before it, an error of opening the log or of starting
-- the process, what the process ends with, the context's error then, and the kills that are counted
-- for the role then.
pub record ChildRound : Type 0 where
  pub over : Option Error
  pub start_error : Option Error
  pub exit_error : Option Error
  pub over_after : Option Error
  pub kills : ℕ

pub data Supervision : Type 0 where
  going : Supervision
  ended : Option Error → Supervision

abbrev first_end : Option Error → Option Error → Option Error → Option Error → Option (Option Error)
first_end (some e) start_error over_after exit_error = some (some e)
first_end none (some e) over_after exit_error = some (some e)
first_end none none (some e) exit_error = some (some e)
first_end none none none none = some none
first_end none none none (some e) = none

-- What ends the supervision in a round, if it is not the number of the kills.
abbrev pub ended_round : ChildRound → Option (Option Error)
ended_round r = first_end r.over r.start_error r.over_after r.exit_error

-- The rounds so far, with the restarts before them; a restart starts a round.
unfoldable pub supervise : ℕ → List ChildRound → Supervision × ℕ
supervise restarts [] = (going, restarts)
supervise restarts (r ∷ rounds) =
    let further = supervise (restarts + 1) rounds in
    elim (ended_round r) [
      | some e ↦ (ended e, restarts)
      | none ↦
          if leb r.kills restarts
          then (ended (some (library_error "exited unexpectedly")), restarts)
          else further
    ]

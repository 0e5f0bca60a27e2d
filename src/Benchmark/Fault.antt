-- ===== src/Benchmark/Fault.antt =====
-- internal/benchmark/fault.go: the faults that a trial injects at its barriers. Each function runs under
-- the trial's lock, so a trial is a sequence of them. The goroutine of `releaseLater` is an event that
-- waits in `pending` until a step of its own records it.
pub mod Steps
pub mod Kills
mod Tests
use watchkeeper.Prelude.{
  ℕ, ◌+◌, ◌*◌, String, Bool, true, false, Option, none, some, List, [], ◌∷◌, ◌++◌, ◌==◌, ◌&&◌, ◌||◌,
  not, ltb, leb, str_eq, str_append, if◌then◌else◌,
}
use text.Mathlib.Text.{starts_with}
use watchkeeper.Domain.Types.{Time, Error, library_error}
use watchkeeper.Benchmark.Score.{Step}

-- A zero time is `none`.
pub record FaultEvent : Type 0 where
  pub phase : String
  pub barrier : String
  pub step : String
  pub operation_id : String
  pub attempt : ℕ
  pub at : Option Time

-- Times are in microseconds. A process is there from its start on, killed or not.
pub record Trial : Type 0 where
  pub strategy : String
  pub scenario : String
  pub outage_ms : ℕ
  pub delay_ms : ℕ
  pub steps : List Step
  pub step_dispatches : List (String × ℕ)
  pub fault_triggered : Bool
  pub events : List FaultEvent
  pub pending : List FaultEvent
  pub has_worker : Bool
  pub has_coordinator : Bool
  pub worker_kills : ℕ
  pub coordinator_kills : ℕ
  pub triggered : Bool
  pub trigger_at : Option Time
  pub service_until : Option Time
  pub database_until : Option Time
  pub dispatches : ℕ
  pub verifications : ℕ
  pub failure : Option Error

-- What a step takes from outside: the clock, the errors of the event file and of `persistFault` for an
-- event, those of killing a process, and the context's error if it ends before the delay.
pub record Surroundings : Type 0 where
  pub now : Time
  pub file_error : FaultEvent → Option Error
  pub persist_error : FaultEvent → Option Error
  pub kill_worker_error : Option Error
  pub kill_coordinator_error : Option Error
  pub cancelled : Option Error

abbrev error_or : Option Error → Option Error → Option Error
error_or none e = e
error_or (some new) e = some new

abbrev dated : Time → FaultEvent → Option Time → FaultEvent
dated now e none = record e { at = some now }
dated now e (some t) = e

abbrev persist_failure : Surroundings → String → FaultEvent → Option Error
persist_failure u scenario e =
    if str_eq e.barrier scenario && (str_eq e.phase "triggered" || str_eq e.phase "released")
    then u.persist_error e
    else none

unfoldable pub record_event : Surroundings → FaultEvent → Trial → Trial
record_event u e t =
    let d = dated u.now e e.at in
    record t {
      events = t.events ++ d ∷ [];
      failure = error_or (persist_failure u t.scenario d) (error_or (u.file_error d) t.failure);
    }

abbrev announces_attempt : String → Bool
announces_attempt barrier =
    str_eq barrier "before_intent"
    || str_eq barrier "before_dispatch"
    || str_eq barrier "accepted_before_commit"

abbrev announces_acknowledgement : String → String → Bool
announces_acknowledgement strategy barrier =
    (str_eq barrier "step_acknowledged" || str_eq barrier "after_persistence")
    && (str_eq strategy "watchkeeper" || str_eq strategy "checkpoint_recovery")

unfoldable pub mark_step : String → FaultEvent → Step → Step
mark_step strategy e s =
    if str_eq s.key e.step
    then record s {
      attempted = s.attempted || announces_attempt e.barrier;
      acknowledged = s.acknowledged || announces_acknowledgement strategy e.barrier;
      uncertain = s.uncertain || str_eq e.barrier "step_uncertain";
    }
    else s

unfoldable pub mark_steps : String → FaultEvent → List Step → List Step
mark_steps strategy e [] = []
mark_steps strategy e (s ∷ steps) = mark_step strategy e s ∷ mark_steps strategy e steps

unfoldable pub of_coordinator : String → Bool
of_coordinator scenario = starts_with scenario "coordinator_"

-- Before the coordinator can fail, an operation has to be left pending.
unfoldable pub prepare_coordinator_fault : Surroundings → FaultEvent → Trial → Trial
prepare_coordinator_fault u e t =
    if of_coordinator t.scenario
      && str_eq e.step "step-2"
      && str_eq e.barrier "after_commit"
      && t.worker_kills == 0
      && t.has_worker
    then record_event u
        (record {
          phase = "triggered";
          barrier = "setup_lost_confirmation";
          step = e.step;
          operation_id = "";
          attempt = e.attempt;
          at = none;
        })
        (record t {
          worker_kills = t.worker_kills + 1;
          failure = error_or u.kill_worker_error t.failure;
        })
    else t

unfoldable pub target_of : String → String
target_of scenario =
    if str_eq scenario "lost_response"
    then "after_commit"
    else if str_eq scenario "delayed_commit"
    then "accepted_before_commit"
    else if str_eq scenario "service_unavailable"
    then "before_dispatch"
    else if str_eq scenario "database_unavailable"
    then "after_response"
    else scenario

abbrev released : String → String → ℕ → FaultEvent
released scenario step attempt = record {
  phase = "released";
  barrier = scenario;
  step = step;
  operation_id = "";
  attempt = attempt;
  at = none;
}

unfoldable pub release_later : String → String → Trial → Trial
release_later scenario step t = record t { pending = t.pending ++ released scenario step 0 ∷ [] }

abbrev killed_or : Bool → Option Error → Trial → Trial → Trial
killed_or false e fine t = record t {
  failure = some (library_error "barrier reached without child process");
}
killed_or true (some e) fine t = record t { failure = some e }
killed_or true none fine t = fine

unfoldable pub kill : Surroundings → Trial → Trial
kill u t =
    if of_coordinator t.scenario
    then killed_or t.has_coordinator u.kill_coordinator_error
        (record t { coordinator_kills = t.coordinator_kills + 1 }) t
    else killed_or t.has_worker u.kill_worker_error (record t { worker_kills = t.worker_kills + 1 })
        t

-- The delay of a commit ends by itself or with the context.
abbrev after_delay : Surroundings → FaultEvent → Trial → Option Error → Option Error × Trial
after_delay u e t (some error) = (some error, t)
after_delay u e t none = (none, record_event u (released t.scenario e.step e.attempt) t)

unfoldable pub inject : Surroundings → FaultEvent → Trial → Option Error × Trial
inject u e t =
    if str_eq t.scenario "lost_response"
    then (
      some (library_error "injected lost response"),
      record_event u (released t.scenario e.step 0) t,
    )
    else if str_eq t.scenario "service_unavailable"
    then (
      none,
      release_later t.scenario e.step
          (record t { service_until = some (u.now + t.outage_ms * 1000) }),
    )
    else if str_eq t.scenario "database_unavailable"
    then (
      none,
      release_later t.scenario e.step
          (record t { database_until = some (u.now + t.outage_ms * 1000) }),
    )
    else after_delay u e (kill u t)
        (if str_eq t.scenario "delayed_commit" && ltb 0 t.delay_ms then u.cancelled else none)

unfoldable pub trigger : Surroundings → FaultEvent → Trial → Trial
trigger u e t =
    record_event u
      (record {
        phase = "triggered";
        barrier = t.scenario;
        step = e.step;
        operation_id = e.operation_id;
        attempt = e.attempt;
        at = none;
      })
      (record t { triggered = true; trigger_at = some u.now; fault_triggered = true })

abbrev reached_fault : Surroundings → FaultEvent → Trial → Option Error × Trial
reached_fault u e t =
    if not (str_eq e.step "step-2") || not (str_eq e.barrier (target_of t.scenario)) || t.triggered
    then (none, t)
    else inject u e (trigger u e t)

unfoldable pub barrier : Surroundings → FaultEvent → Trial → Option Error × Trial
barrier u e t =
    let noted = record_event u e t in
    reached_fault u e
      (prepare_coordinator_fault u e (record noted { steps = mark_steps t.strategy e noted.steps }))

-- `control`: the event of a child, where its header and its body are right.
unfoldable pub control : String → String → Option FaultEvent → Surroundings → Trial → ℕ × Trial
control token authorization body u t =
    if not (str_eq authorization (str_append "Bearer " token)) then (401, t) else elim body [
      | none ↦ (400, t)
      | some e ↦
          let (error, after) = barrier u e t in (elim error [ none ↦ 200 | some x ↦ 503 ], after)
    ]

-- The goroutine of `releaseLater`.
unfoldable pub next_release : Surroundings → Trial → List FaultEvent → Trial
next_release u t [] = t
next_release u t (e ∷ rest) = record_event u e (record t { pending = rest })

unfoldable pub release : Surroundings → Trial → Trial
release u t = next_release u t t.pending

-- ===== src/Benchmark/Fault/Kills.antt =====
-- How often a trial kills its processes, and how often they are started again.
use watchkeeper.Prelude.{
  All, leb, ℕ, ◌+◌, ◌≤◌, ◌≡◌, refl, sym, subst, String, Bool, true, false, Option, none, some, List,
  [], ◌∷◌, ◌||◌, not, str_eq, if◌then◌else◌, arith, inl, inr, ◌⊎◌,
}
use watchkeeper.Domain.Types.{Error, library_error}
use watchkeeper.Benchmark.Fault.{
  FaultEvent, Trial, Surroundings, record_event, of_coordinator, prepare_coordinator_fault,
  release_later, kill, killed_or, inject, after_delay, trigger, reached_fault, barrier, release,
  next_release, target_of,
}
use watchkeeper.Benchmark.Fault.Steps.{
  ChildRound, Supervision, ended, supervise, ended_round, TrialStep, reached, releases, sends, asks,
  starts, hooks, sim_hook, act, acts, start_child, count_question, deliver, out_of_service, twice,
}

abbrev pub one_if : Bool → ℕ
one_if true = 1
one_if false = 0

-- The bounds for whether the scenario is one of the coordinator, the kills of a worker and of a
-- coordinator, and whether the fault is injected.
abbrev Bounded : Bool → ℕ → ℕ → Bool → Type 0
Bounded true w c injected = (w ≤ 1) × (c ≤ one_if injected)
Bounded false w c injected = (w ≤ one_if injected) × (c ≡ 0)

abbrev pub Kills : Trial → Type 0
Kills t = Bounded (of_coordinator t.scenario) t.worker_kills t.coordinator_kills t.triggered

record_event-Kills :
    (u : Surroundings) (e : FaultEvent) (t : Trial) → Kills t → Kills (record_event u e t)
unfolding record_event
record_event-Kills u e t k = k

Kills-if :
    (c : Bool) (a b : Trial)
    → (c ≡ true → Kills a)
    → (c ≡ false → Kills b)
    → Kills (if c then a else b)
Kills-if true a b ha hb = ha refl
Kills-if false a b ha hb = hb refl

next-Kills :
    (u : Surroundings) (t : Trial) (events : List FaultEvent)
    → Kills t
    → Kills (next_release u t events)
unfolding next_release record_event
next-Kills u t [] k = k
next-Kills u t (e ∷ rest) k = k

Bounded-second :
    (b : Bool) (w c : ℕ) (injected : Bool)
    → b ≡ true
    → w ≡ 0
    → Bounded b w c injected
    → Bounded b (w + 1) c injected
Bounded-second true w c injected same h (a, k) = (ground arith, k)
Bounded-second false w c injected same h k = ground arith

prepare-Kills :
    (u : Surroundings) (e : FaultEvent) (t : Trial)
    → Kills t
    → Kills (prepare_coordinator_fault u e t)
unfolding prepare_coordinator_fault record_event
prepare-Kills u e t k =
    Kills-if _ _ _
      (λ h.
        Bounded-second (of_coordinator t.scenario) t.worker_kills t.coordinator_kills t.triggered
          (ground (arith, h)) (ground (arith, h)) k)
      (λ h. k)

-- The one kill of an injection.
Bounded-injected :
    (b : Bool) (w c : ℕ) (injected : Bool) → Bounded b w c injected → Bounded b w c true
Bounded-injected true w c false (a, k) = (a, ground arith)
Bounded-injected true w c true k = k
Bounded-injected false w c false (a, k) = (ground arith, k)
Bounded-injected false w c true k = k

Kills-killed_or :
    (there : Bool) (e : Option Error) (fine t : Trial)
    → Kills fine
    → Kills t
    → Kills (killed_or there e fine t)
Kills-killed_or false e fine t kf k = k
Kills-killed_or true (some x) fine t kf k = k
Kills-killed_or true none fine t kf k = kf

Bounded-kill_coordinator :
    (b : Bool) (w c : ℕ) → b ≡ true → Bounded b w c false → Bounded b w (c + 1) true
Bounded-kill_coordinator true w c same (a, k) = (a, ground arith)
Bounded-kill_coordinator false w c same k = ground arith

Bounded-kill_worker :
    (b : Bool) (w c : ℕ) → b ≡ false → Bounded b w c false → Bounded b (w + 1) c true
Bounded-kill_worker true w c same k = ground arith
Bounded-kill_worker false w c same (a, k) = (ground arith, k)

-- A trial whose fault is injected just now.
abbrev Untouched : Trial → Type 0
Untouched t =
    Bounded (of_coordinator t.scenario) t.worker_kills t.coordinator_kills false
    × (t.triggered ≡ true)

Untouched-Kills : (t : Trial) → Untouched t → Kills t
Untouched-Kills t (k, injected) =
    subst (Bounded (of_coordinator t.scenario) t.worker_kills t.coordinator_kills) (sym injected)
      (Bounded-injected (of_coordinator t.scenario) t.worker_kills t.coordinator_kills false k)

kill-Kills : (u : Surroundings) (t : Trial) → Untouched t → Kills (kill u t)
unfolding kill
kill-Kills u t (k, injected) =
    Kills-if _ _ _
      (λ h.
        Kills-killed_or t.has_coordinator u.kill_coordinator_error _ t
          (subst (Bounded (of_coordinator t.scenario) t.worker_kills (t.coordinator_kills + 1))
            (sym injected) (Bounded-kill_coordinator _ _ _ h k))
          (Untouched-Kills t (k, injected)))
      (λ h.
        Kills-killed_or t.has_worker u.kill_worker_error _ t
          (subst (Bounded (of_coordinator t.scenario) (t.worker_kills + 1) t.coordinator_kills)
            (sym injected) (Bounded-kill_worker _ _ _ h k))
          (Untouched-Kills t (k, injected)))

after_delay-Kills :
    (u : Surroundings) (e : FaultEvent) (t : Trial) (o : Option Error)
    → Kills t
    → Kills (after_delay u e t o).1
unfolding record_event
after_delay-Kills u e t (some x) k = k
after_delay-Kills u e t none k = k

Kills-pair {ℓ} :
    {A : Type ℓ} (c : Bool) (a b : A × Trial)
    → Kills a.1
    → (c ≡ false → Kills b.1)
    → Kills (if c then a else b).1
Kills-pair true a b ka kb = ka
Kills-pair false a b ka kb = kb refl

inject-Kills :
    (u : Surroundings) (e : FaultEvent) (t : Trial) → Untouched t → Kills (inject u e t).1
unfolding inject record_event release_later
inject-Kills u e t fresh =
    let k = Untouched-Kills t fresh in
    Kills-pair (str_eq t.scenario "lost_response") _ _ k (λ h.
      Kills-pair (str_eq t.scenario "service_unavailable") _ _ k (λ h.
        Kills-pair (str_eq t.scenario "database_unavailable") _ _ k
          (λ h. after_delay-Kills u e (kill u t) _ (kill-Kills u t fresh))))

not_injected :
    (b : Bool) (w c : ℕ) (injected : Bool)
    → injected ≡ false
    → Bounded b w c injected
    → Bounded b w c false
not_injected b w c injected h k = subst (Bounded b w c) h k

reached-Kills :
    (u : Surroundings) (e : FaultEvent) (t : Trial) → Kills t → Kills (reached_fault u e t).1
unfolding trigger record_event
reached-Kills u e t k =
    Kills-pair
      (not (str_eq e.step "step-2") || not (str_eq e.barrier (target_of t.scenario)) || t.triggered)
      _ _ k
      (λ h.
        inject-Kills u e (trigger u e t)
          (not_injected _ _ _ t.triggered (ground (arith, h)) k, refl))

barrier-Kills : (u : Surroundings) (e : FaultEvent) (t : Trial) → Kills t → Kills (barrier u e t).1
unfolding barrier record_event
barrier-Kills u e t k = reached-Kills u e _ (prepare-Kills u e _ k)

twice-Kills :
    (u : Surroundings) (template : String) (t : Trial) → Kills t → Kills (twice u template t)
unfolding twice record_event
twice-Kills u template t k = Bounded-injected _ _ _ t.triggered k

delivered-Kills :
    (u : Surroundings) (template : String) (again : Bool) (t : Trial)
    → Kills t
    → Kills (if◌then◌else◌ {A = ℕ × Trial} again (2, twice u template t) (1, t)).1
delivered-Kills u template true t k = twice-Kills u template t k
delivered-Kills u template false t k = k

deliver-Kills :
    (u : Surroundings) (template : String) (t : Trial) → Kills t → Kills (deliver u template t).1
unfolding deliver
deliver-Kills u template t k =
    Kills-pair (out_of_service u.now t.service_until) _ _ k (λ h. delivered-Kills u template _ _ k)

act-Kills : (s : TrialStep) (t : Trial) → Kills t → Kills (act s t)
unfolding act sim_hook release count_question start_child
act-Kills (reached u e) t k = barrier-Kills u e t k
act-Kills (releases u) t k = next-Kills u t t.pending k
act-Kills (sends u template) t k = deliver-Kills u template t k
act-Kills (asks u) t k = k
act-Kills (hooks u name id template) t k = barrier-Kills u _ t k
act-Kills (starts true) t k = k
act-Kills (starts false) t k = k

acts-Kills : (steps : List TrialStep) (t : Trial) → Kills t → Kills (acts steps t)
unfolding acts
acts-Kills [] t k = k
acts-Kills (s ∷ steps) t k = acts-Kills steps (act s t) (act-Kills s t k)

Bounded-start : (b : Bool) (w c : ℕ) (injected : Bool) → w ≡ 0 → c ≡ 0 → Bounded b w c injected
Bounded-start true w c injected hw hc = (ground arith, ground arith)
Bounded-start false w c injected hw hc = (ground arith, hc)

Bounded-read :
    (b : Bool) (w c : ℕ) (injected : Bool)
    → Bounded b w c injected
    → (w ≤ 1) × (c ≤ one_if injected) × ((b ≡ true) ⊎ ((w ≤ one_if injected) × (c ≡ 0)))
Bounded-read true w c injected (a, k) = (a, k, inl refl)
Bounded-read false w c true (a, k) = (a, ground arith, inr (a, k))
Bounded-read false w c false (a, k) = (ground arith, ground arith, inr (a, k))

-- Over any steps of a trial that starts with no kill, a worker is killed
-- at most once, and a coordinator at most once and only after the fault is injected. Where the trial's
-- scenario is at the end not one of the coordinator, no coordinator is killed, and a worker only after the fault is
-- injected.
pub acts-at_most_one_kill :
    (steps : List TrialStep) (t : Trial)
    → t.worker_kills ≡ 0
    → t.coordinator_kills ≡ 0
    → ((acts steps t).worker_kills ≤ 1)
      × ((acts steps t).coordinator_kills ≤ one_if (acts steps t).triggered)
      × ((of_coordinator (acts steps t).scenario ≡ true)
          ⊎ (((acts steps t).worker_kills ≤ one_if (acts steps t).triggered)
              × ((acts steps t).coordinator_kills ≡ 0)))
acts-at_most_one_kill steps t no_worker no_coordinator =
    Bounded-read _ _ _ _ (acts-Kills steps t (Bounded-start _ _ _ _ no_worker no_coordinator))

-- The rounds whose count of kills is at most a bound.
abbrev pub KillsWithin : ℕ → ChildRound → Type 0
KillsWithin bound r = r.kills ≤ bound

round-bounded :
    (o : Option (Option Error)) (again : Bool) (restarts bound : ℕ) (further : Supervision × ℕ)
    → restarts ≤ bound
    → (again ≡ false → further.1 ≤ bound)
    → (elim o as (λ x. Supervision × ℕ) [
      | some e ↦ (ended e, restarts)
      | none ↦
          if again then (ended (some (library_error "exited unexpectedly")), restarts) else further
    ]).1
      ≤ bound
round-bounded (some e) again restarts bound further h hf = h
round-bounded none true restarts bound further h hf = h
round-bounded none false restarts bound further h hf = hf refl

restarts_from :
    (rounds : List ChildRound) (restarts bound : ℕ)
    → All (KillsWithin bound) rounds
    → restarts ≤ bound
    → (supervise restarts rounds).1 ≤ bound
unfolding supervise
restarts_from [] restarts bound all h = h
restarts_from (r ∷ rounds) restarts bound (k, all) h =
    round-bounded (ended_round r) (leb r.kills restarts) restarts bound
      (supervise (restarts + 1) rounds) h
      (λ more. restarts_from rounds (restarts + 1) bound all (ground (arith, more, k)))

-- If no round of a role's supervision counts more kills than a bound, the child is started again at most
-- that often, however many rounds there are.
pub supervise-restarts :
    (rounds : List ChildRound) (bound : ℕ)
    → All (KillsWithin bound) rounds
    → (supervise 0 rounds).1 ≤ bound
supervise-restarts rounds bound all = restarts_from rounds 0 bound all (ground arith)

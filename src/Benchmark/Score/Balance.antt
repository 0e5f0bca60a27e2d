-- ===== src/Benchmark/Score/Balance.antt =====
-- How the numbers of a score go together.
use watchkeeper.Prelude.{ℕ, ◌+◌, ◌<◌, ◌≡◌, ◌↔◌, refl, Bool, true, false, List, [], ◌∷◌, arith}
use watchkeeper.Benchmark.Score.{ltb, Step, Tally, score_step, score_steps, score, no_tally, one_if}

unfoldable pub total_effects : List Step → ℕ
total_effects [] = 0
total_effects (s ∷ steps) = s.effects + total_effects steps

-- The steps with an effect.
unfoldable pub effective : List Step → ℕ
effective [] = 0
effective (s ∷ steps) = one_if (ltb 0 s.effects) + effective steps

-- Missing effects are told apart, and a duplicate is an excess.
record IsBalanced (t : Tally) : Type 0 where
  pub parts : t.missing ≡ t.unattempted + t.uncertain_missing + t.abandoned
  pub excess : (t.duplicate ≡ true) ↔ (0 < t.excess_effects)

score_step-IsBalanced : (t : Tally) (s : Step) → IsBalanced t → IsBalanced (score_step false t s)
unfolding score_step
score_step-IsBalanced t s h = record {
  parts = ground (arith, h.parts);
  excess = ground (arith, h.excess.0, h.excess.1);
}

score_steps-IsBalanced :
    (t : Tally) (steps : List Step) → IsBalanced t → IsBalanced (score_steps false t steps)
unfolding score_steps
score_steps-IsBalanced t [] h = h
score_steps-IsBalanced t (s ∷ steps) h =
    score_steps-IsBalanced (score_step false t s) steps (score_step-IsBalanced t s h)

step_excess :
    (censored : Bool) (t : Tally) (s : Step)
    → (score_step censored t s).excess_effects + one_if (ltb 0 s.effects)
      ≡ t.excess_effects + s.effects
unfolding score_step
step_excess censored t s = ground arith

steps_excess :
    (censored : Bool) (t : Tally) (steps : List Step)
    → (score_steps censored t steps).excess_effects + effective steps
      ≡ t.excess_effects + total_effects steps
unfolding score_steps total_effects effective
steps_excess censored t [] = refl
steps_excess censored t (s ∷ steps) =
    omega (arith, steps_excess censored (score_step censored t s) steps, step_excess censored t s)

-- The score of a trial that is not censored: the missing effects are the unattempted, the uncertain
-- and the abandoned ones; a trial has a duplicate if and only if it has excess effects; and the
-- excess is what the effects are more than the steps that have one.
pub score-balance :
    (steps : List Step)
    → ((score false no_tally steps).missing
        ≡ (score false no_tally steps).unattempted
          + (score false no_tally steps).uncertain_missing
          + (score false no_tally steps).abandoned)
      × (((score false no_tally steps).duplicate ≡ true)
          ↔ (0 < (score false no_tally steps).excess_effects))
      × ((score false no_tally steps).excess_effects + effective steps ≡ total_effects steps)
unfolding score
score-balance steps =
    let b = score_steps-IsBalanced (record no_tally { completed = true }) steps start in
    (
      b.parts,
      b.excess,
      omega (arith, steps_excess false (record no_tally { completed = true }) steps),
    )
  where
    start : IsBalanced (record no_tally { completed = true })
    start = record { parts = refl; excess = ground arith }

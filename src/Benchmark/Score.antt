-- ===== src/Benchmark/Score.antt =====
-- `Score` of internal/benchmark/score.go.
pub mod Balance
use watchkeeper.Prelude.{
  ℕ, ◌+◌, ◌-◌, String, Bool, true, false, List, [], ◌∷◌, ◌==◌, ◌&&◌, ◌||◌, not, ltb, if◌then◌else◌,
}

pub record Step : Type 0 where
  pub key : String
  pub attempted : Bool
  pub acknowledged : Bool
  pub uncertain : Bool
  pub effects : ℕ
  pub deadline_effects : ℕ

-- The fields of a `Result` that `Score` writes.
pub record Tally : Type 0 where
  pub completed : Bool
  pub duplicate : Bool
  pub excess_effects : ℕ
  pub missing : ℕ
  pub unattempted : ℕ
  pub uncertain_missing : ℕ
  pub abandoned : ℕ
  pub orphans : ℕ
  pub false_completion : ℕ
  pub uncertain : Bool

abbrev pub one_if : Bool → ℕ
one_if true = 1
one_if false = 0

-- What one step adds; `max(0, a-b)` is the subtraction that stops at 0.
unfoldable pub score_step : Bool → Tally → Step → Tally
score_step censored t s =
    let lacks = s.deadline_effects == 0 in
    record {
      completed = t.completed && s.acknowledged;
      duplicate = t.duplicate || ltb 1 s.effects;
      excess_effects = t.excess_effects + (s.effects - 1);
      missing = t.missing + one_if lacks;
      unattempted = t.unattempted + one_if (lacks && not s.attempted);
      uncertain_missing = t.uncertain_missing + one_if (lacks && s.attempted && s.uncertain);
      abandoned = t.abandoned + one_if (lacks && s.attempted && not s.uncertain && not censored);
      orphans = t.orphans + (s.effects - one_if s.acknowledged);
      false_completion = t.false_completion + one_if (s.acknowledged && s.effects == 0);
      uncertain = t.uncertain || s.uncertain;
    }

unfoldable pub score_steps : Bool → Tally → List Step → Tally
score_steps censored t [] = t
score_steps censored t (s ∷ steps) = score_steps censored (score_step censored t s) steps

unfoldable pub score : Bool → Tally → List Step → Tally
score censored t steps = score_steps censored (record t { completed = true }) steps

abbrev pub no_tally : Tally
no_tally = record {
  completed = false;
  duplicate = false;
  excess_effects = 0;
  missing = 0;
  unattempted = 0;
  uncertain_missing = 0;
  abandoned = 0;
  orphans = 0;
  false_completion = 0;
  uncertain = false;
}

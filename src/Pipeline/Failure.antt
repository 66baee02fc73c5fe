-- ===== src/Pipeline/Failure.antt =====
-- internal/pipeline/pipeline.go: errors of a step, and applyFailure.
use cv_evaluator.Prelude.{ℕ, ◌+◌, Bool, false, ◌||◌, Option, none, some, ◌++◌, leb, if◌then◌else◌}
use cv_evaluator.Prelude.Text.{Text}
use cv_evaluator.Pipeline.Config.{Config, backoff}

-- An error of a portal, of the LLM, of the embedder or of the database. `canceled` is
-- errors.Is(err, context.Canceled).
pub record ForeignError : Type 0 where
  pub canceled : Bool
  pub message : Text

-- An error of a step. `permanent` is errors.Is(err, errPermanent): errPermanent is private to the
-- package, so that no foreign error is it.
pub record StepError : Type 0 where
  pub permanent : Bool
  pub message : Text

pub data Result (E A : Type 0) : Type 0 where
  ok : A → Result E A
  err : E → Result E A

-- fmt.Errorf(prefix + "%w", err)
abbrev pub wrap : Text → ForeignError → StepError
wrap prefix e = record { permanent = false; message = prefix ++ e.message }

-- The columns that applyFailure sets.
pub record Retry (S : Type 0) : Type 0 where
  pub status : S
  pub next_attempt_at : Option ℕ
  pub last_error : Text

-- `ready` and `failed` are the values of the status column.
unfoldable pub apply_failure : {S : Type 0} → Config → ℕ → S → S → ℕ → StepError → Retry S
apply_failure c now ready failed attempts cause =
    if cause.permanent || leb c.max_attempts attempts
    then record { status = failed; next_attempt_at = none; last_error = cause.message }
    else record {
      status = ready;
      next_attempt_at = some (now + backoff c attempts);
      last_error = cause.message;
    }

-- ===== src/Pipeline/Embed/Retries.antt =====
-- How often a job is tried: the passes of EmbedOne over one row.
use cv_evaluator.Prelude.{
  ℕ, ◌+◌, ◌≤◌, ◌<◌, ◌≡◌, ◌≢◌, sym, ◌∙◌, Bool, true, false, none, some, List, [], ◌∷◌, arith, ◌↔◌,
  length, All,
}
use native.Mathlib.Decide.{dec_lt}
use cv_evaluator.Prelude.Text.{Text}
use cv_evaluator.Models.{Job, JobStatus}
use cv_evaluator.Pipeline.Config.{Config, backoff}
use cv_evaluator.Pipeline.Failure.{StepError, err, apply_failure}
use cv_evaluator.Pipeline.Claim.{start_job}
use cv_evaluator.Pipeline.Claim.Spec.{Claimable, IsDue}
use cv_evaluator.Pipeline.Embed.{Outcome, ready_status, embed_updates}

-- A pass: when the job is claimed, when its outcome is written, and the outcome.
pub record Round : Type 0 where
  pub claimed : ℕ
  pub ended : ℕ
  pub outcome : Outcome

-- What a pass makes of the row, if nobody else touches it meanwhile.
abbrev pub pass : Config → Bool → Job → Round → Job
pass c cancelled j r =
    let job = start_job r.claimed j in embed_updates c r.ended job r.outcome cancelled job

abbrev pub passes : Config → Job → List Round → Job
passes c j [] = j
passes c j (r ∷ rs) = passes c (pass c false j r) rs

abbrev pub FailsFor : Bool → Round → Type 0
FailsFor permanent r = (e : StepError) × (r.outcome.result ≡ err e) × (e.permanent ≡ permanent)

module _ (c : Config) (j : Job) (r : Round) where
  -- A failure that may be retried counts one attempt; the job is then failed if that was the last
  -- one, and else waits for the backoff of that attempt.
  pub pass-transient :
      FailsFor false r
      → ((pass c false j r).attempts ≡ j.attempts + 1)
        × ((c.max_attempts ≤ j.attempts + 1)
            → ((pass c false j r).status ≡ JobStatus.failed)
              × ((pass c false j r).next_attempt_at ≡ none))
        × ((j.attempts + 1 < c.max_attempts)
            → ((pass c false j r).status ≡ ready_status r.outcome.detail)
              × ((pass c false j r).next_attempt_at ≡ some (r.ended + backoff c (j.attempts + 1))))
  unfolding embed_updates start_job apply_failure
  pass-transient (e, h, t) = (ground arith, ground arith, ground arith)

  -- A permanent failure fails the job at once.
  pub pass-permanent :
      FailsFor true r
      → ((pass c false j r).status ≡ JobStatus.failed) × ((pass c false j r).next_attempt_at ≡ none)
  unfolding embed_updates start_job apply_failure
  pass-permanent (e, h, t) = ground arith

  -- A pass that fails while the process shuts down takes back its attempt and releases the job: a job
  -- that was not deleted, and due when it was claimed, may be claimed again at once.
  pub pass-cancelled :
      (permanent : Bool)
      → FailsFor permanent r
      → j.deleted_at ≡ none
      → IsDue r.claimed j.next_attempt_at
      → ((pass c true j r).attempts ≡ j.attempts)
        × ((pass c true j r).claimed_at ≡ none)
        × ((stale : ℕ) → Claimable r.claimed stale (pass c true j r))
  unfolding embed_updates start_job apply_failure ready_status
  pass-cancelled permanent (e, h, t) live due = (ground arith, ground arith, λ stale. ground arith)

ready-ne-failed : (detail : Text) → ready_status detail ≢ JobStatus.failed
unfolding ready_status
ready-ne-failed detail = ground arith

-- A job whose passes all fail without a permanent error, no more of them than it has attempts left,
-- is failed after them exactly if they have used up its attempts.
pub passes-failed :
    (c : Config) (j : Job) (r : Round) (rs : List Round)
    → All (FailsFor false) (r ∷ rs)
    → j.attempts + length (r ∷ rs) ≤ c.max_attempts
    → ((passes c j (r ∷ rs)).status ≡ JobStatus.failed)
      ↔ (j.attempts + length (r ∷ rs) ≡ c.max_attempts)
passes-failed c j r [] fails bound =
    let (_, last, early) = pass-transient c j r fails.0 in
    (
      λ f. elim (dec_lt (j.attempts + 1) c.max_attempts) [
        | yes h ↦ absurd (ready-ne-failed r.outcome.detail (sym (early h).0 ∙ f))
        | no h ↦ omega arith
      ],
      λ e. (last (omega arith)).0,
    )
passes-failed c j r (s ∷ rs) fails bound =
    let counted = (pass-transient c j r fails.0).0 in
    let (only, enough) = passes-failed c (pass c false j r) s rs fails.1 (omega arith) in
    (λ f. let e = only f in omega arith, λ e. enough (omega arith))

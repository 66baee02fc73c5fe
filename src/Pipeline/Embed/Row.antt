-- ===== src/Pipeline/Embed/Row.antt =====
-- The row that EmbedOne writes: its state after each outcome, and what holds of every row.
use cv_evaluator.Prelude.{ℕ, ◌<◌, ◌≡◌, ◌≢◌, Bool, true, false, none, [], arith}
use cv_evaluator.Prelude.Text.{trim_space-nil}
use cv_evaluator.Models.{Job, JobStatus}
use cv_evaluator.Pipeline.Config.{Config}
use cv_evaluator.Pipeline.Failure.{apply_failure}
use cv_evaluator.Pipeline.Claim.{start_job}
use cv_evaluator.Pipeline.Embed.{Portals, Outcome, embed_step, ready_status, embed_updates}

-- What holds of every row of the jobs table, whoever wrote it.
pub record IsValid (j : Job) : Type 0 where
  pub embedded_has_vector :
      j.status ≡ JobStatus.embedded → (j.embedding ≢ none) × (j.last_error ≡ [])
  pub described_has_detail : j.status ≡ JobStatus.described → j.detail ≢ []
  pub processing_is_claimed :
      j.status ≡ JobStatus.processing → (j.claimed_at ≢ none) × (0 < j.attempts)
  pub claimed_is_processing : j.claimed_at ≢ none → j.status ≡ JobStatus.processing
  pub failed_was_tried : j.status ≡ JobStatus.failed → (0 < j.attempts) × (j.next_attempt_at ≡ none)

pub start_job-IsValid : (now : ℕ) (j : Job) → IsValid (start_job now j)
unfolding start_job
start_job-IsValid now j = ground arith

-- The description of `r` is there if the claimed job's was.
abbrev pub KeepsDetail : Job → Job → Type 0
KeepsDetail job r = job.detail ≢ [] → r.detail ≢ []

-- A step's description is one that it fetched, which is not empty, or the job's.
abbrev pub IsStep : Job → Outcome → Type 0
IsStep job o = (o.fetched ≡ true → o.detail ≢ []) × (o.fetched ≡ false → o.detail ≡ job.detail)

pub embed_step-IsStep : (p : Portals) (job : Job) → IsStep job (embed_step p job)
unfolding embed_step
embed_step-IsStep p job =
    (λ f e. ground (arith, trim_space-nil (embed_step p job).detail e), ground arith)

-- Whatever row EmbedOne writes is a valid one, if the row's attempts count the claim, the outcome is
-- one that the step can have, and the row has a description if the claimed job had one. The row
-- that it overwrites need not be valid.
pub embed_updates-IsValid :
    (c : Config) (now : ℕ) (o : Outcome) (cancelled : Bool) (job r : Job)
    → IsStep job o
    → KeepsDetail job r
    → 0 < r.attempts
    → IsValid (embed_updates c now job o cancelled r)
unfolding embed_updates ready_status apply_failure
embed_updates-IsValid c now o cancelled job r step keeps tried = record {
  embedded_has_vector = ground arith;
  described_has_detail = ground arith;
  processing_is_claimed = ground arith;
  claimed_is_processing = ground arith;
  failed_was_tried = ground arith;
}

module _ (c : Config) (now : ℕ) (job : Job) (o : Outcome) (cancelled : Bool) (r : Job) where
  abbrev written : Job
  written = embed_updates c now job o cancelled r

  -- The claim ends with every outcome, the description is kept if one was fetched, and nothing but
  -- the progress of the job changes.
  pub embed_updates-frame :
      (written.claimed_at ≡ none)
      × (written.id ≡ r.id)
      × (written.provider ≡ r.provider)
      × (written.job_id ≡ r.job_id)
      × (written.deleted_at ≡ r.deleted_at)
      × (written.created_at ≡ r.created_at)
      × (o.fetched ≡ true → (written.detail ≡ o.detail) × (written.visited ≡ true))
      × (o.fetched ≡ false → (written.detail ≡ r.detail) × (written.visited ≡ r.visited))
  unfolding embed_updates apply_failure
  embed_updates-frame = ground arith

-- ===== src/Pipeline/Embed.antt =====
-- internal/pipeline/pipeline.go: EmbedOne.
pub mod Steps
pub mod Row
pub mod Retries
use cv_evaluator.Prelude.{
  ℕ, ◌+◌, ◌-◌, Bool, true, false, ◌&&◌, Option, none, some, List, [], ◌∷◌, ◌++◌, ◌==◌,
  if◌then◌else◌, is_empty,
}
use cv_evaluator.Prelude.Text.{Text, codes, trim_space}
use cv_evaluator.Prelude.Table.{update_where}
use cv_evaluator.Models.{Job, JobStatus, Vector, is_live}
use cv_evaluator.Pipeline.Config.{Config}
use cv_evaluator.Pipeline.Failure.{
  ForeignError, StepError, Result, ok, err, wrap, Retry, apply_failure,
}
use cv_evaluator.Pipeline.Claim.{claim_job}

-- The portals and the embedder. `details` is the description of the posting, `none` where the
-- portal returns nil.
pub record Portals : Type 0 where
  pub details : Job → Result ForeignError (Option Text)
  pub create_embedding : Text → Result ForeignError Vector

-- What the step leaves: the job's description, whether it was fetched now, and the embedding.
pub record Outcome : Type 0 where
  pub detail : Text
  pub fetched : Bool
  pub result : Result StepError Vector

abbrev pub no_description : StepError
no_description = record { permanent = true; message = codes "permanent: job has no description" }

abbrev embed_result : Result ForeignError Vector → Result StepError Vector
embed_result (ok v) = ok v
embed_result (err e) = err (wrap (codes "embed: ") e)

abbrev embed_detail : Portals → Text → Bool → Outcome
embed_detail p detail fetched = record {
  detail = detail;
  fetched = fetched;
  result = embed_result (p.create_embedding detail);
}

abbrev embed_fetched : Portals → Job → Result ForeignError (Option Text) → Outcome
embed_fetched p job (err e) = record {
  detail = job.detail;
  fetched = false;
  result = err (wrap (codes "fetch details: ") e);
}
embed_fetched p job (ok none) = record {
  detail = job.detail;
  fetched = false;
  result = err no_description;
}
embed_fetched p job (ok (some details)) =
    if is_empty (trim_space details)
    then record { detail = job.detail; fetched = false; result = err no_description }
    else embed_detail p details true

-- The function that EmbedOne hands to observe.
unfoldable pub embed_step : Portals → Job → Outcome
embed_step p job =
    if is_empty (trim_space job.detail)
    then embed_fetched p job (p.details job)
    else embed_detail p job.detail false

-- ready: the state that the job goes back to.
unfoldable pub ready_status : Text → JobStatus
ready_status detail = if is_empty detail then JobStatus.new else JobStatus.described

-- updates["claimed_at"] = nil, and the description if it was fetched
abbrev release : ℕ → Outcome → Job → Job
release now o r = record r {
  claimed_at = none;
  updated_at = now;
  detail = if o.fetched then o.detail else r.detail;
  visited = if o.fetched then true else r.visited;
}

abbrev set_retry : Retry JobStatus → Job → Job
set_retry t r = record r {
  status = t.status;
  next_attempt_at = t.next_attempt_at;
  last_error = t.last_error;
}

-- The switch of EmbedOne, on the claimed job and the row `r` as it is when it is written.
-- `cancelled` is ctx.Err() != nil.
embed_switch : Config → ℕ → Job → Outcome → Bool → Result StepError Vector → Job → Job
embed_switch c now job o cancelled (ok v) r = record r {
  embedding = some v;
  status = JobStatus.embedded;
  next_attempt_at = none;
  last_error = [];
}
embed_switch c now job o cancelled (err e) r =
    if cancelled
    then record r { status = ready_status o.detail; attempts = job.attempts - 1 }
    else set_retry (apply_failure c now (ready_status o.detail) JobStatus.failed job.attempts e) r

-- The row that EmbedOne writes.
unfoldable pub embed_updates : Config → ℕ → Job → Outcome → Bool → Job → Job
unfolding embed_switch
embed_updates c now job o cancelled r =
    embed_switch c now job o cancelled o.result (release now o r)

abbrev pub has_live_id : ℕ → Job → Bool
has_live_id id r = r.id == id && is_live r.deleted_at

unfoldable pub record_job : Config → ℕ → Job → Outcome → Bool → List Job → List Job
record_job c now job o cancelled =
    update_where (has_live_id job.id) (embed_updates c now job o cancelled)

-- What one call meets: the clock at its start and at its end, the rows that are locked when it
-- claims, what other workers and users do to the table while it works, and which of its statements
-- fail.
pub record Env : Type 0 where
  pub now : ℕ
  pub ended : ℕ
  pub locked : ℕ → Bool
  pub claim_error : Option ForeignError
  pub portals : Portals
  pub cancelled : Bool
  pub others : List Job → List Job
  pub write_error : Option ForeignError

-- (whether there was a job, the error), and the table
abbrev pub Pass : Type 0
Pass = Bool × Option StepError × List Job

abbrev embed_write : Config → Env → Job → List Job → Option ForeignError → Pass
embed_write c env job jobs (some e) = (true, some (wrap (codes "record job: ") e), jobs)
embed_write c env job jobs none =
    (true, none, record_job c env.ended job (embed_step env.portals job) env.cancelled jobs)

embed_claimed : Config → Env → Option Job × List Job → Pass
embed_claimed c env (none, jobs) = (false, none, jobs)
embed_claimed c env (some job, jobs) = embed_write c env job (env.others jobs) env.write_error

embed_claim : Config → Env → List Job → Option ForeignError → Pass
embed_claim c env jobs (some e) = (false, some (wrap (codes "claim job: ") e), jobs)
embed_claim c env jobs none =
    embed_claimed c env (claim_job env.locked env.now (env.now - c.stale_timeout) jobs)

-- EmbedOne
unfoldable pub embed_one : Config → Env → List Job → Pass
unfolding embed_claim embed_claimed
embed_one c env jobs = embed_claim c env jobs env.claim_error

-- ===== src/Jobs.antt =====
-- internal/services/jobs: postings that are stored and embedded one by one, over
-- internal/storage/jobs. The embedder is a parameter.
pub mod Once
use cv_evaluator.Prelude.{
  ℕ, Bool, true, false, not, ◌&&◌, ◌||◌, Option, none, some, List, [], ◌∷◌, ◌==◌, is_empty,
  if◌then◌else◌,
}
use cv_evaluator.Prelude.Text.{Text, text_eq, trim_space}
use cv_evaluator.Prelude.Table.{select, update_where, first_where, exists_where}
use cv_evaluator.Models.{Job, JobStatus, Vector, is_live}
use cv_evaluator.Pipeline.Failure.{ForeignError, StepError, Result, ok, err}
use cv_evaluator.Pipeline.Postings.{JobPost, has_key, find_by_key, upsert_job}

abbrev pub has_job_id : ℕ → Job → Bool
has_job_id id j = j.id == id && is_live j.deleted_at

-- SaveJob: `none` if a row has the id or the key
unfoldable pub save_job : Job → List Job → Option (List Job)
save_job job jobs =
    if exists_where (λ (j : Job). j.id == job.id || has_key job.provider job.job_id j) jobs
    then none
    else some (job ∷ jobs)

-- SaveDetail
unfoldable pub save_detail : ℕ → ℕ → Text → List Job → List Job
save_detail at id detail jobs =
    update_where (has_job_id id)
      (λ (j : Job). record j {
        detail = detail;
        visited = true;
        status = JobStatus.described;
        updated_at = at;
      })
      jobs

-- SaveEmbedding
unfoldable pub save_embedding : ℕ → ℕ → Vector → List Job → List Job
save_embedding at id v jobs =
    update_where (has_job_id id)
      (λ (j : Job). record j {
        embedding = some v;
        status = JobStatus.embedded;
        last_error = [];
        updated_at = at;
      })
      jobs

-- FindByID
unfoldable pub find_by_id : ℕ → List Job → Option Job
find_by_id id jobs = first_where (has_job_id id) jobs

-- FindByProviders
unfoldable pub find_by_providers : Text → List Job → List Job
find_by_providers provider jobs =
    select (λ (j : Job). text_eq j.provider provider && is_live j.deleted_at) jobs

-- IsEmbedded
abbrev pub has_embedding : Option Vector → Bool
has_embedding none = false
has_embedding (some v) = not (is_empty v)

-- The errors of the storage, ErrNoDetail, those of the embedder, and a row that is gone
pub data IngestError : Type 0 where
  not_stored : StepError → IngestError
  no_detail : IngestError
  not_embedded : ForeignError → IngestError
  not_found : IngestError

-- The table, and the texts that the embedder was called with, latest first
pub record World : Type 0 where
  pub jobs : List Job
  pub embedded : List Text

abbrev pub Ingested : Type 0
Ingested = Result IngestError Job × World

abbrev reloaded : World → Option Job → Ingested
reloaded w none = (err IngestError.not_found, w)
reloaded w (some j) = (ok j, w)

abbrev after_embedding : ℕ → Job → World → Result ForeignError Vector → Ingested
after_embedding at job w (err e) =
    (err (IngestError.not_embedded e), record w { embedded = job.detail ∷ w.embedded })
after_embedding at job w (ok v) =
    let jobs = save_embedding at job.id v w.jobs in
    reloaded (record { jobs = jobs; embedded = job.detail ∷ w.embedded }) (find_by_id job.id jobs)

-- Embed
unfoldable pub embed : (Text → Result ForeignError Vector) → ℕ → Job → World → Ingested
embed e at job w =
    if has_embedding job.embedding
    then (ok job, w)
    else if is_empty (trim_space job.detail)
    then (err IngestError.no_detail, w)
    else after_embedding at job w (e job.detail)

-- Whether the description is to be stored
abbrev pub is_described : Text → Text → Bool
is_described old d = is_empty old && not (is_empty d)

abbrev described :
    (Text → Result ForeignError Vector) → (ℕ → ℕ) → Option Text → Job → World → Ingested
described e at none stored w = embed e (at 2) stored w
described e at (some d) stored w =
    if is_described stored.detail d
    then embed e (at 2) (record stored { detail = d; visited = true })
        (record w { jobs = save_detail (at 1) stored.id d w.jobs })
    else embed e (at 2) stored w

abbrev processed :
    (Text → Result ForeignError Vector)
    → (ℕ → ℕ)
    → JobPost
    → World
    → Result StepError Job × List Job
    → Ingested
processed e at post w (err x, jobs) = (err (IngestError.not_stored x), record w { jobs = jobs })
processed e at post w (ok stored, jobs) =
    described e at post.details stored (record w { jobs = jobs })

-- ProcessJob; `at k` is the time of its k-th statement that writes.
unfoldable pub process_job :
    (Text → Result ForeignError Vector) → ℕ → (ℕ → ℕ) → JobPost → World → Ingested
process_job e id at post w = processed e at post w (upsert_job id (at 0) post w.jobs)

abbrev if_embedded : Option Job → Option Job
if_embedded none = none
if_embedded (some j) = if has_embedding j.embedding then some j else none

-- IsJobProcessed: `none` for a posting that still needs processing
unfoldable pub is_job_processed : Text → Text → List Job → Option Job
is_job_processed provider job_id jobs = if_embedded (find_by_key provider job_id jobs)

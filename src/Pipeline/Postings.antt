-- ===== src/Pipeline/Postings.antt =====
-- What a portal's run stores: runPortal of internal/pipeline/pipeline.go, upsertSearchResult of
-- store.go, Upsert of internal/storage/jobs/jobs.go and JobPost of internal/entities/jobs.go.
pub mod Stored
pub mod Repeats
pub mod Keeps
pub mod Attempts
use cv_evaluator.Prelude.{
  ℕ, zero, suc, ◌+◌, ◌-◌, Bool, true, false, not, ◌&&◌, ◌||◌, Option, none, some, List, [], ◌∷◌,
  ◌++◌, ◌==◌, is_empty, if◌then◌else◌,
}
use cv_evaluator.Prelude.Text.{Text, codes, text_eq, trim_space}
use cv_evaluator.Prelude.Table.{exists_where, first_where}
use cv_evaluator.Models.{
  Job, JobStatus, SearchResult, SearchResultStatus, EvaluationState, JobSearch, is_live,
}
use cv_evaluator.Pipeline.Config.{Config}
use cv_evaluator.Pipeline.Failure.{ForeignError, StepError, Result, ok, err, wrap}
use cv_evaluator.Pipeline.Searches.{Search, has_search_id}

-- JobPost; of JobDetails only the text is used.
pub record JobPost : Type 0 where
  pub id : Text
  pub provider : Text
  pub title : Text
  pub company : Text
  pub location : Text
  pub posted_at : Text
  pub details_url : Text
  pub details : Option Text

abbrev described_by : Option Text → Text
described_by none = []
described_by (some d) = d

-- ToModel, as the row that an INSERT with this id at this time stores
unfoldable pub to_model : ℕ → ℕ → JobPost → Job
to_model id now post =
    let detail = described_by post.details in
    record {
      id = id;
      created_at = now;
      updated_at = now;
      deleted_at = none;
      provider = post.provider;
      job_id = post.id;
      title = post.title;
      company = post.company;
      location = post.location;
      posted_at = post.posted_at;
      details_url = post.details_url;
      visited = not (is_empty detail);
      status = if is_empty detail then JobStatus.new else JobStatus.described;
      attempts = 0;
      next_attempt_at = none;
      claimed_at = none;
      last_error = [];
      detail = detail;
      embedding = none;
    }

-- The unique index idx_jobs_provider_job_id
abbrev pub has_key : Text → Text → Job → Bool
has_key provider job_id j = text_eq j.provider provider && text_eq j.job_id job_id

-- FindByProviderAndJobID
unfoldable pub find_by_key : Text → Text → List Job → Option Job
find_by_key provider job_id jobs =
    first_where (λ j. has_key provider job_id j && is_live j.deleted_at) jobs

abbrev step_error : Text → StepError
step_error message = record { permanent = false; message = message }

abbrev existing : List Job → Option Job → Result StepError Job × List Job
existing jobs none = (err (step_error (codes "load existing job: record not found")), jobs)
existing jobs (some j) = (ok j, jobs)

-- Upsert: the stored row and the table. ON CONFLICT DO NOTHING looks at deleted rows too.
unfoldable pub upsert_job : ℕ → ℕ → JobPost → List Job → Result StepError Job × List Job
upsert_job id now post jobs =
    if is_empty post.provider || is_empty post.id
    then (err (step_error (codes "job provider and job id are required")), jobs)
    else if exists_where (has_key post.provider post.id) jobs
    then existing jobs (find_by_key post.provider post.id jobs)
    else (ok (to_model id now post), to_model id now post ∷ jobs)

-- The unique index idx_search_results_search_job
abbrev pub links : ℕ → ℕ → SearchResult → Bool
links search job r = r.job_search_id == search && r.job_id == job

unfoldable pub new_result : ℕ → ℕ → Search → ℕ → SearchResult
new_result id now s job = record {
  id = id;
  created_at = now;
  updated_at = now;
  job_search_id = s.id;
  user_id = s.user_id;
  job_id = job;
  status = SearchResultStatus.new;
  evaluation_status = EvaluationState.pending;
  attempts = 0;
  next_attempt_at = none;
  claimed_at = none;
  last_error = [];
  evaluation_id = none;
  overall_score = none;
}

-- upsertSearchResult
unfoldable pub upsert_search_result :
    ℕ → ℕ → Search → ℕ → List JobSearch → List SearchResult → List SearchResult
upsert_search_result id now s job searches results =
    if exists_where (has_search_id s.id) searches
    then if exists_where (links s.id job) results
      then results
      else new_result id now s job ∷ results
    else results

-- The tables that a portal's run reads and writes. The saved searches are read only.
pub record Tables : Type 0 where
  pub searches : List JobSearch
  pub jobs : List Job
  pub results : List SearchResult

-- What the storing of the postings meets: the time, the ids that are drawn for the k-th posting, and
-- which of its statements fail.
pub record StoreEnv : Type 0 where
  pub now : ℕ
  pub new_job_id : ℕ → ℕ
  pub new_result_id : ℕ → ℕ
  pub job_error : ℕ → Option ForeignError
  pub result_error : ℕ → Option ForeignError

-- (the error, the tables)
abbrev pub Stored : Type 0
Stored = Option StepError × Tables

abbrev store_result : StoreEnv → Search → ℕ → Job → Tables → Option ForeignError → Stored
store_result v s k j t (some e) = (some (wrap (codes "upsert search result: ") e), t)
store_result v s k j t none = (
  none,
  record t { results = upsert_search_result (v.new_result_id k) v.now s j.id t.searches t.results },
)

abbrev store_upserted : StoreEnv → Search → ℕ → Tables → Result StepError Job × List Job → Stored
store_upserted v s k t (err e, jobs) = (some e, record t { jobs = jobs })
store_upserted v s k t (ok j, jobs) =
    store_result v s k j (record t { jobs = jobs }) (v.result_error k)

abbrev store_job : StoreEnv → Search → ℕ → JobPost → Tables → Option ForeignError → Stored
store_job v s k post t (some e) = (some (wrap (codes "upsert job: ") e), t)
store_job v s k post t none = store_upserted v s k t (upsert_job (v.new_job_id k) v.now post t.jobs)

-- The body of the loop of runPortal over the postings
unfoldable pub store_post : StoreEnv → Search → Text → ℕ → JobPost → Tables → Stored
store_post v s provider k post t =
    if is_empty (trim_space post.id)
    then (none, t)
    else store_job v s k (record post { provider = provider }) t (v.job_error k)

-- The loop, which stops at the first error
unfoldable pub store_posts : StoreEnv → Search → Text → ℕ → List JobPost → Tables → Stored
store_posts v s provider k [] t = (none, t)
store_posts v s provider k (post ∷ posts) t =
    let (e, t') = store_post v s provider k post t in
    elim e [ some x ↦ (some x, t') | none ↦ store_posts v s provider (k + 1) posts t' ]

-- What the attempts of one search of a portal meet: the answer to the n-th one, whether the process
-- is shutting down after it, and how the sleep after it ends.
pub record SearchEnv : Type 0 where
  pub answer : ℕ → Result ForeignError (List JobPost)
  pub cancelled : ℕ → Bool
  pub sleep : ℕ → Option ForeignError

abbrev after_sleep :
    Option ForeignError → Result StepError (List JobPost) → Result StepError (List JobPost)
after_sleep none rest = rest
after_sleep (some e) rest = err (wrap [] e)

abbrev attempted :
    Bool
    → Option ForeignError
    → Result StepError (List JobPost)
    → Result ForeignError (List JobPost)
    → Result StepError (List JobPost)
attempted stop sleep rest (ok posts) = ok posts
attempted stop sleep rest (err e) =
    if stop then err (wrap (codes "search: ") e) else after_sleep sleep rest

-- The loop of attempts: the n-th one, with `left` more to come
unfoldable pub search_from : SearchEnv → ℕ → ℕ → Result StepError (List JobPost)
search_from v zero n = attempted true none (err (step_error [])) (v.answer n)
search_from v (suc left) n =
    let rest = search_from v left (n + 1) in attempted (v.cancelled n) (v.sleep n) rest (v.answer n)

unfoldable pub search_portal : Config → SearchEnv → Result StepError (List JobPost)
search_portal c v = search_from v (c.portal_attempts - 1) 1

abbrev store_found : StoreEnv → Search → Text → Tables → Result StepError (List JobPost) → Stored
store_found v s provider t (err e) = (some e, t)
store_found v s provider t (ok posts) = store_posts v s provider 0 posts t

-- runPortal
unfoldable pub run_portal : Config → SearchEnv → StoreEnv → Search → Text → Tables → Stored
run_portal c v w s provider t = store_found w s provider t (search_portal c v)

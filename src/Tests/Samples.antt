-- ===== src/Tests/Samples.antt =====
-- Rows and settings that the tests share.
use cv_evaluator.Prelude.{◌*◌, true, false, none, some, [], ◌∷◌}
use cv_evaluator.Prelude.Text.{codes}
use cv_evaluator.Models.{
  JobSearch, second, minute, hour, Job, JobStatus, SearchResult, SearchResultStatus,
  EvaluationState,
}
use cv_evaluator.Pipeline.Config.{Config, default_model, default_prompt_version}
use cv_evaluator.Pipeline.Failure.{ForeignError, ok, err}
use cv_evaluator.Pipeline.Embed.{Portals}

abbrev pub config : Config
config = record {
  max_pages = 1;
  search_concurrency = 2;
  embed_workers = 4;
  evaluate_workers = 2;
  stale_timeout = 5 * minute;
  max_attempts = 2;
  base_backoff = 30 * second;
  max_backoff = hour;
  portal_attempts = 3;
  portal_backoff = 5 * second;
  poll_interval = 2 * second;
  scheduler_interval = minute;
  search_batch = 100;
  run_timeout = 30 * minute;
  no_cv_retry = hour;
  shutdown_grace = 30 * second;
  model = default_model;
  prompt_version = default_prompt_version;
}

abbrev pub job : Job
job = record {
  id = 7;
  created_at = 10;
  updated_at = 10;
  deleted_at = none;
  provider = codes "jobindex";
  job_id = codes "h1";
  title = codes "Go developer";
  company = codes "Acme";
  location = codes "Aarhus";
  posted_at = [];
  details_url = [];
  visited = false;
  status = JobStatus.new;
  attempts = 0;
  next_attempt_at = none;
  claimed_at = none;
  last_error = [];
  detail = [];
  embedding = none;
}

abbrev pub timeout : ForeignError
timeout = record { canceled = false; message = codes "timeout" }

-- A portal that has the description, and an embedder.
abbrev pub portals : Portals
portals = record { details = λ j. ok (some (codes "Go")); create_embedding = λ s. ok (1 ∷ 2 ∷ []) }

-- A portal that does not answer.
abbrev pub silent : Portals
silent = record { details = λ j. err timeout; create_embedding = λ s. err timeout }

-- A portal that knows nothing of the posting.
abbrev pub empty : Portals
empty = record { details = λ j. ok none; create_embedding = λ s. err timeout }

abbrev pub result : SearchResult
result = record {
  id = 3;
  created_at = 10;
  updated_at = 10;
  job_search_id = 1;
  user_id = 1;
  job_id = 7;
  status = SearchResultStatus.new;
  evaluation_status = EvaluationState.pending;
  attempts = 0;
  next_attempt_at = none;
  claimed_at = none;
  last_error = [];
  evaluation_id = none;
  overall_score = none;
}

abbrev pub search : JobSearch
search = record {
  id = 1;
  created_at = 1;
  updated_at = 1;
  deleted_at = none;
  user_id = 1;
  name = codes "Go";
  query = codes "golang";
  location = codes "Aarhus";
  frequency = codes "hourly";
  enabled = true;
  last_run_at = none;
  next_run_at = some 50;
}

-- ===== src/Pipeline/Claim.antt =====
-- internal/pipeline/store.go: the statements that claim a job and a search result.
pub mod Spec
pub mod Choice
use cv_evaluator.Prelude.{
  ℕ, ◌+◌, Bool, true, false, not, ◌&&◌, ◌||◌, Option, none, some, List, [], ◌∷◌, ltb, leb, ◌==◌,
}
use cv_evaluator.Prelude.Table.{Key, key_before, select, update_where, least}
use cv_evaluator.Models.{
  Job, JobStatus, SearchResult, EvaluationState, processing, embedded, pending, is_live,
}

-- next_attempt_at IS NULL OR next_attempt_at <= @now
unfoldable pub is_due : ℕ → Option ℕ → Bool
is_due now none = true
is_due now (some t) = leb t now

-- claimed_at < @stale, which NULL is not
unfoldable pub is_stale : ℕ → Option ℕ → Bool
is_stale stale none = false
is_stale stale (some t) = ltb t stale

-- status IN @ready
abbrev pub is_ready : JobStatus → Bool
is_ready JobStatus.new = true
is_ready JobStatus.described = true
is_ready _ = false

abbrev pub is_processing : JobStatus → Bool
is_processing JobStatus.processing = true
is_processing _ = false

abbrev pub is_embedded : JobStatus → Bool
is_embedded JobStatus.embedded = true
is_embedded _ = false

-- The WHERE clause of claimJobSQL
unfoldable pub claimable_job : ℕ → ℕ → Job → Bool
unfolding is_due is_stale
claimable_job now stale j =
    is_live j.deleted_at
    && ((is_ready j.status && is_due now j.next_attempt_at)
        || (is_processing j.status && is_stale stale j.claimed_at))

abbrev pub job_key : Job → Key
job_key j = record { next_attempt_at = j.next_attempt_at; created_at = j.created_at; id = j.id }

abbrev pub job_before : Job → Job → Bool
job_before a b = key_before (job_key a) (job_key b)

-- The SET clause of claimJobSQL
unfoldable pub start_job : ℕ → Job → Job
start_job now j = record j {
  status = processing;
  claimed_at = some now;
  attempts = j.attempts + 1;
  updated_at = now;
}

abbrev pub has_job_id : ℕ → Job → Bool
has_job_id id j = j.id == id

-- The row that the subquery of claimJobSQL selects. FOR UPDATE SKIP LOCKED passes over the rows
-- that another transaction has locked at that moment.
unfoldable pub next_job : (ℕ → Bool) → ℕ → ℕ → List Job → Option Job
next_job locked now stale jobs =
    least job_before (select (λ j. claimable_job now stale j && not (locked j.id)) jobs)

abbrev take_job : ℕ → List Job → Option Job → Option Job × List Job
take_job now jobs none = (none, jobs)
take_job now jobs (some j) =
    (some (start_job now j), update_where (has_job_id j.id) (start_job now) jobs)

-- claimJob: the claimed row (RETURNING *), and the table
unfoldable pub claim_job : (ℕ → Bool) → ℕ → ℕ → List Job → Option Job × List Job
claim_job locked now stale jobs = take_job now jobs (next_job locked now stale jobs)

abbrev pub is_pending : EvaluationState → Bool
is_pending EvaluationState.pending = true
is_pending _ = false

abbrev pub is_evaluating : EvaluationState → Bool
is_evaluating EvaluationState.processing = true
is_evaluating _ = false

-- JOIN jobs j ON j.id = sr.job_id AND j.deleted_at IS NULL AND j.status = @embedded
unfoldable pub job_embedded : List Job → ℕ → Bool
job_embedded [] id = false
job_embedded (j ∷ jobs) id =
    (j.id == id && (is_live j.deleted_at && is_embedded j.status)) || job_embedded jobs id

-- The JOIN and the WHERE clause of claimResultSQL
unfoldable pub claimable_result : List Job → ℕ → ℕ → SearchResult → Bool
unfolding is_due is_stale
claimable_result jobs now stale r =
    job_embedded jobs r.job_id
    && ((is_pending r.evaluation_status && is_due now r.next_attempt_at)
        || (is_evaluating r.evaluation_status && is_stale stale r.claimed_at))

abbrev pub result_key : SearchResult → Key
result_key r = record { next_attempt_at = r.next_attempt_at; created_at = r.created_at; id = r.id }

abbrev pub result_before : SearchResult → SearchResult → Bool
result_before a b = key_before (result_key a) (result_key b)

-- The SET clause of claimResultSQL
unfoldable pub start_result : ℕ → SearchResult → SearchResult
start_result now r = record r {
  evaluation_status = EvaluationState.processing;
  claimed_at = some now;
  attempts = r.attempts + 1;
  updated_at = now;
}

abbrev pub has_result_id : ℕ → SearchResult → Bool
has_result_id id r = r.id == id

unfoldable pub next_result : (ℕ → Bool) → ℕ → ℕ → List Job → List SearchResult → Option SearchResult
next_result locked now stale jobs results =
    least result_before
      (select (λ r. claimable_result jobs now stale r && not (locked r.id)) results)

abbrev take_result :
    ℕ → List SearchResult → Option SearchResult → Option SearchResult × List SearchResult
take_result now results none = (none, results)
take_result now results (some r) =
    (some (start_result now r), update_where (has_result_id r.id) (start_result now) results)

-- claimResult
unfoldable pub claim_result :
    (ℕ → Bool) → ℕ → ℕ → List Job → List SearchResult → Option SearchResult × List SearchResult
claim_result locked now stale jobs results =
    take_result now results (next_result locked now stale jobs results)

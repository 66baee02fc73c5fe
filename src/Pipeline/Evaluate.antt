-- ===== src/Pipeline/Evaluate.antt =====
-- internal/pipeline/pipeline.go: EvaluateOne; LatestCVSelector of store.go.
pub mod Linked
pub mod Retries
use cv_evaluator.Prelude.{
  ℕ, suc, ◌+◌, ◌-◌, Bool, true, false, not, ◌&&◌, ◌||◌, Option, none, some, List, [], ◌∷◌, ◌++◌,
  map, ◌==◌, ltb, if◌then◌else◌,
}
use cv_evaluator.Prelude.Text.{Text, codes}
use cv_evaluator.Prelude.Table.{select, update_where, least}
use cv_evaluator.Models.{
  Cv, Job, SearchResult, EvaluationState, EvaluationStatus, Evaluation, is_live,
}
use cv_evaluator.Matcher.{Response, CriterionScore}
use cv_evaluator.Pipeline.Config.{Config}
use cv_evaluator.Pipeline.Failure.{
  ForeignError, StepError, Result, ok, err, wrap, Retry, apply_failure,
}
use cv_evaluator.Pipeline.Claim.{claim_result, has_result_id}
use cv_evaluator.Pipeline.Evaluations.{Store, save_evaluation, lock_search_result, evaluation_row}

-- ORDER BY created_at DESC, id DESC
abbrev pub newer : Cv → Cv → Bool
newer a b = ltb b.created_at a.created_at || (a.created_at == b.created_at && ltb b.id a.id)

-- SelectCV of LatestCVSelector
unfoldable pub select_latest_cv : List Cv → ℕ → Option Cv
select_latest_cv cvs user =
    least newer (select (λ (c : Cv). c.user_id == user && is_live c.deleted_at) cvs)

-- What Evaluator.MatchJob returns: the response, the raw answer and the error.
pub record Match : Type 0 where
  pub response : Option Response
  pub raw : Text
  pub error : Option ForeignError

-- The CV selector and the evaluator. A CV is given by its id.
pub record Evaluator : Type 0 where
  pub select_cv : ℕ → Result ForeignError (Option ℕ)
  pub match_job : ℕ → Job → Match

-- evaluationOutcome, with the error of the step
pub record Evaluated : Type 0 where
  pub cv : Option ℕ
  pub response : Option Response
  pub raw : Text
  pub match_error : Option ForeignError
  pub error : Option StepError

abbrev no_match : Option StepError → Evaluated
no_match e = record { cv = none; response = none; raw = []; match_error = none; error = e }

abbrev evaluate_error : Option ForeignError → Option StepError
evaluate_error none = none
evaluate_error (some e) = some (wrap (codes "evaluate: ") e)

abbrev evaluate_cv : Evaluator → Job → Result ForeignError (Option ℕ) → Evaluated
evaluate_cv v job (err e) = no_match (some (wrap [] e))
evaluate_cv v job (ok none) = no_match none
evaluate_cv v job (ok (some cv)) =
    let m = v.match_job cv job in
    record {
      cv = some cv;
      response = m.response;
      raw = m.raw;
      match_error = m.error;
      error = evaluate_error m.error;
    }

unfoldable pub find_job : ℕ → List Job → Option Job
find_job id [] = none
find_job id (j ∷ jobs) = if j.id == id && is_live j.deleted_at then some j else find_job id jobs

abbrev not_found : StepError
not_found = record { permanent = false; message = codes "load job: record not found" }

abbrev evaluate_job : Evaluator → SearchResult → Option Job → Evaluated
evaluate_job v r none = no_match (some not_found)
evaluate_job v r (some job) = evaluate_cv v job (v.select_cv r.user_id)

-- The function that EvaluateOne hands to observe; `broken` is an error of the database.
unfoldable pub evaluate_step : Evaluator → List Job → Option ForeignError → SearchResult → Evaluated
evaluate_step v jobs (some broken) r = no_match (some (wrap (codes "load job: ") broken))
evaluate_step v jobs none r = evaluate_job v r (find_job r.job_id jobs)

abbrev is_none {ℓ} : {A : Type ℓ} → Option A → Bool
is_none none = true
is_none (some a) = false

-- The columns that the switch of EvaluateOne sets, on the row `t` as it is when it is written; `r`
-- is the result as it was claimed.
abbrev released : SearchResult → SearchResult → SearchResult
released r t = record t { evaluation_status = EvaluationState.pending; attempts = r.attempts - 1 }

abbrev set_retry : Retry EvaluationState → SearchResult → SearchResult
set_retry x t = record t {
  evaluation_status = x.status;
  next_attempt_at = x.next_attempt_at;
  last_error = x.last_error;
}

abbrev without_error : Config → ℕ → SearchResult → Option ℕ → SearchResult → SearchResult
without_error c now r none t = record (released r t) {
  next_attempt_at = some (now + c.no_cv_retry);
  last_error = codes "user has no CV";
}
without_error c now r (some cv) t = record t {
  evaluation_status = EvaluationState.done;
  next_attempt_at = none;
  last_error = [];
}

abbrev evaluate_switch :
    Config → ℕ → SearchResult → Option ℕ → Option StepError → SearchResult → SearchResult
evaluate_switch c now r cv none t = without_error c now r cv t
evaluate_switch c now r cv (some e) t =
    set_retry (apply_failure c now EvaluationState.pending EvaluationState.failed r.attempts e) t

-- The columns but those of the evaluation, `claimed_at` among them.
unfoldable pub evaluate_updates :
    Config → ℕ → SearchResult → Evaluated → Bool → SearchResult → SearchResult
evaluate_updates c now r o cancelled t =
    let t' = record t { claimed_at = none; updated_at = now } in
    if cancelled && (not (is_none o.error) || is_none o.response)
    then released r t'
    else evaluate_switch c now r o.cv o.error t'

-- breakdown
abbrev pub breakdown : Option Response → List CriterionScore
breakdown none = []
breakdown (some resp) = resp.breakdown

-- The score that is copied to the result: only a completed evaluation's.
abbrev pub copied_score : Evaluation → Option ℕ
copied_score e = elim e.status [ EvaluationStatus.completed ↦ some e.overall_score | _ ↦ none ]

-- updates["evaluation_id"] and updates["overall_score"]
abbrev pub link : ℕ → Evaluation → SearchResult → SearchResult
link id e t = record t { evaluation_id = some id; overall_score = copied_score e }

-- Whether there is an evaluation to store: there is a CV, and a response or an error of the match.
unfoldable pub evaluated_cv : Evaluated → Option ℕ
evaluated_cv o = if is_none o.response && is_none o.match_error then none else o.cv

-- The tables that the transaction writes.
pub record Tables : Type 0 where
  pub results : List SearchResult
  pub store : Store

abbrev pub update_result : ℕ → (SearchResult → SearchResult) → List SearchResult → List SearchResult
update_result id f = update_where (has_result_id id) f

abbrev with_saved :
    SearchResult
    → (SearchResult → SearchResult)
    → Evaluation
    → List SearchResult
    → Option (ℕ × Store)
    → Option Tables
with_saved r f e results none = none
with_saved r f e results (some (id, store)) =
    some (record { results = update_result r.id (λ t. link id e (f t)) results; store = store })

abbrev write_outcome :
    Config
    → ℕ
    → ℕ
    → SearchResult
    → Evaluated
    → (SearchResult → SearchResult)
    → Tables
    → Option ℕ
    → Option Tables
write_outcome c now new_id r o f t none =
    some (record { results = update_result r.id f t.results; store = t.store })
write_outcome c now new_id r o f t (some cv) =
    let e = evaluation_row c new_id now r cv o.response o.raw o.match_error in
    with_saved r f e t.results (save_evaluation e (breakdown o.response) t.store)

-- The transaction of EvaluateOne; `none` is an error, which rolls it back. `new_id` is the id of a
-- new evaluation.
unfoldable pub record_result :
    Config → ℕ → ℕ → SearchResult → Evaluated → Bool → Tables → Option Tables
record_result c now new_id r o cancelled t =
    let f = evaluate_updates c now r o cancelled in
    if lock_search_result r.id t.results
    then write_outcome c now new_id r o f t (evaluated_cv o)
    else some t

-- What one call meets, as for EmbedOne.
pub record Env : Type 0 where
  pub now : ℕ
  pub ended : ℕ
  pub locked : ℕ → Bool
  pub claim_error : Option ForeignError
  pub evaluator : Evaluator
  pub load_error : Option ForeignError
  pub cancelled : Bool
  pub others : Tables → Tables
  pub new_id : ℕ
  pub write_error : Option ForeignError

-- (whether there was a result, the error), and the tables
abbrev pub Pass : Type 0
Pass = Bool × Option StepError × Tables

-- The error of the transaction, without the text of its cause
abbrev rolled_back : StepError
rolled_back = record { permanent = false; message = codes "record search result" }

abbrev committed : Tables → Option Tables → Pass
committed t none = (true, some rolled_back, t)
committed t (some t') = (true, none, t')

abbrev evaluate_write : Config → Env → List Job → SearchResult → Tables → Option ForeignError → Pass
evaluate_write c env jobs r t (some e) = (true, some (wrap (codes "record search result: ") e), t)
evaluate_write c env jobs r t none =
    let o = evaluate_step env.evaluator jobs env.load_error r in
    committed t (record_result c env.ended env.new_id r o env.cancelled t)

abbrev evaluate_claimed :
    Config → Env → List Job → Store → Option SearchResult × List SearchResult → Pass
evaluate_claimed c env jobs store (none, results) =
    (false, none, record { results = results; store = store })
evaluate_claimed c env jobs store (some r, results) =
    evaluate_write c env jobs r (env.others (record { results = results; store = store }))
      env.write_error

abbrev evaluate_claim : Config → Env → List Job → Tables → Option ForeignError → Pass
evaluate_claim c env jobs t (some e) = (false, some (wrap (codes "claim search result: ") e), t)
evaluate_claim c env jobs t none =
    evaluate_claimed c env jobs t.store
      (claim_result env.locked env.now (env.now - c.stale_timeout) jobs t.results)

-- EvaluateOne; the jobs are read only
unfoldable pub evaluate_one : Config → Env → List Job → Tables → Pass
evaluate_one c env jobs t = evaluate_claim c env jobs t env.claim_error

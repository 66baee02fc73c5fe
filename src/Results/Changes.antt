-- ===== src/Results/Changes.antt =====
-- internal/services/results/results.go: UpdateStatus and ReEvaluate. The statements of one operation
-- are one step.
use cv_evaluator.Prelude.{
  ℕ, Bool, true, false, ◌&&◌, Option, none, some, List, [], ◌∷◌, ltb, ◌==◌, if◌then◌else◌,
}
use cv_evaluator.Prelude.Text.{Text, codes, text_eq}
use cv_evaluator.Prelude.Table.{update_where, count_where}
use cv_evaluator.Models.{SearchResult, SearchResultStatus, EvaluationState}
use cv_evaluator.Matcher.{Decoded}
use cv_evaluator.Pipeline.Failure.{Result, ok, err}
use cv_evaluator.Results.Params.{ResultsError, Param, one_of, search_result_statuses}
use cv_evaluator.Results.Rows.{Database}
use cv_evaluator.Results.Lists.{is_owned}
use cv_evaluator.Results.Details.{Detail, get}

-- (the result or the error), and the tables
abbrev pub Reply : Type 0
Reply = Result ResultsError Detail × Database

-- Updates(...) of the status
abbrev pub set_status : ℕ → SearchResultStatus → SearchResult → SearchResult
set_status now status r = record r { status = status; updated_at = now }

-- The database's value of the status whose text is `t`, one of the four.
abbrev pub status_of : Text → SearchResultStatus
status_of t =
    if text_eq t (codes "saved")
    then SearchResultStatus.saved
    else if text_eq t (codes "applied")
    then SearchResultStatus.applied
    else if text_eq t (codes "dismissed")
    then SearchResultStatus.dismissed
    else SearchResultStatus.new

abbrev pub with_results : Database → List SearchResult → Database
with_results db rows = record db { results = rows }

-- next_attempt_at > ?, which NULL is not
abbrev is_after : ℕ → Option ℕ → Bool
is_after now none = false
is_after now (some t) = ltb now t

abbrev pub may_again : ℕ → EvaluationState → Option ℕ → Bool
may_again now EvaluationState.done next = true
may_again now EvaluationState.failed next = true
may_again now EvaluationState.pending next = is_after now next
may_again now EvaluationState.processing next = false

-- The conditions of the UPDATE of ReEvaluate
unfoldable pub re_evaluable : ℕ → ℕ → ℕ → SearchResult → Bool
re_evaluable now user id r =
    is_owned user id r && may_again now r.evaluation_status r.next_attempt_at

abbrev pub queue_again : ℕ → SearchResult → SearchResult
queue_again now r = record r {
  evaluation_status = EvaluationState.pending;
  attempts = 0;
  next_attempt_at = none;
  claimed_at = none;
  last_error = [];
  updated_at = now;
}

module _ (decode : Text → Decoded) (collates : Text → Text → Bool) where
  abbrev pub read_back : ℕ → ℕ → Database → Reply
  read_back user id db = (get decode collates user id db, db)

  abbrev pub set_if_found :
      ℕ → ℕ → ℕ → SearchResultStatus → Database → Result ResultsError Detail → Reply
  set_if_found now user id status db (err e) = (err e, db)
  set_if_found now user id status db (ok d) =
      read_back user id
        (with_results db (update_where (is_owned user id) (set_status now status) db.results))

  abbrev pub set_if_known : ℕ → ℕ → ℕ → Database → Option (List Text) → Reply
  set_if_known now user id db none = (err (ResultsError.invalid Param.status), db)
  set_if_known now user id db (some []) = (err (ResultsError.missing Param.status), db)
  set_if_known now user id db (some (t ∷ ts)) =
      set_if_found now user id (status_of t) db (get decode collates user id db)

  -- UpdateStatus
  unfoldable pub update_status : ℕ → ℕ → ℕ → Text → Database → Reply
  update_status now user id status db =
      set_if_known now user id db (one_of search_result_statuses (status ∷ []))

  abbrev pub queue_if_found : ℕ → ℕ → ℕ → Database → Result ResultsError Detail → Reply
  queue_if_found now user id db (err e) = (err e, db)
  queue_if_found now user id db (ok d) =
      if count_where (re_evaluable now user id) db.results == 0
      then (err ResultsError.evaluation_in_progress, db)
      else read_back user id
          (with_results db (update_where (re_evaluable now user id) (queue_again now) db.results))

  -- ReEvaluate
  unfoldable pub re_evaluate : ℕ → ℕ → ℕ → Database → Reply
  re_evaluate now user id db = queue_if_found now user id db (get decode collates user id db)

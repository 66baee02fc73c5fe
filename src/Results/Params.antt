-- ===== src/Results/Params.antt =====
-- internal/services/results/results.go: the parameters of List, and how they are validated. An
-- error names the parameter; its text is not modelled.
use cv_evaluator.Prelude.{
  ℕ, Bool, true, false, not, ◌&&◌, ◌||◌, Option, none, some, List, [], ◌∷◌, ◌++◌, ltb, leb,
  is_empty, if◌then◌else◌,
}
use cv_evaluator.Prelude.Int.{ℤ, pos, negsuc}
use cv_evaluator.Prelude.Text.{Text, codes, text_eq, trim_space, to_lower}
use cv_evaluator.Models.{SearchResultStatus, EvaluationState}
use cv_evaluator.Matcher.{text_in, is_evaluation_criterion}
use cv_evaluator.Pipeline.Failure.{Result, ok, err}

-- SortScore, SortNewest
abbrev pub sort_score : Text
sort_score = codes "score"

abbrev pub sort_newest : Text
sort_newest = codes "newest"

-- DefaultLimit, MaxLimit
abbrev pub default_limit : ℕ
default_limit = 20

abbrev pub max_limit : ℕ
max_limit = 100

pub data Param : Type 0 where
  min_score status evaluation_status criterion min_criterion_score sort limit starting_after : Param

-- ErrNotFound, ErrSearchNotFound, ErrEvaluationInProgress, and ValidationError with Missing true
-- and false
pub data ResultsError : Type 0 where
  not_found search_not_found evaluation_in_progress : ResultsError
  missing invalid : Param → ResultsError

pub record ListParams : Type 0 where
  pub job_search_id : Option ℕ
  pub min_score : Option ℤ
  pub statuses : List Text
  pub evaluation_statuses : List Text
  pub since : Option ℕ
  pub criterion : Text
  pub min_criterion_score : Option ℤ
  pub sort : Text
  pub limit : ℤ
  pub starting_after : Option ℕ

-- The texts of the column status
abbrev pub status_text : SearchResultStatus → Text
status_text SearchResultStatus.new = codes "new"
status_text SearchResultStatus.saved = codes "saved"
status_text SearchResultStatus.applied = codes "applied"
status_text SearchResultStatus.dismissed = codes "dismissed"

-- The texts of the column evaluation_status
abbrev pub state_text : EvaluationState → Text
state_text EvaluationState.pending = codes "pending"
state_text EvaluationState.processing = codes "processing"
state_text EvaluationState.done = codes "done"
state_text EvaluationState.failed = codes "failed"

-- models.SearchResultStatuses
abbrev pub search_result_statuses : List Text
search_result_statuses = codes "new" ∷ codes "saved" ∷ codes "applied" ∷ codes "dismissed" ∷ []

-- models.EvaluationStatuses
abbrev pub evaluation_statuses : List Text
evaluation_statuses = codes "pending" ∷ codes "processing" ∷ codes "done" ∷ codes "failed" ∷ []

-- *n < 0 || *n > 100
abbrev pub is_out_of_range : Option ℤ → Bool
is_out_of_range none = false
is_out_of_range (some (pos n)) = ltb 100 n
is_out_of_range (some (negsuc n)) = true

abbrev pub folded : Text → Text
folded v = to_lower (trim_space v)

-- The loop of oneOf: `out` has the values that are kept so far, which are also those of `seen`;
-- `none` is the error.
unfoldable pub one_of_from : List Text → List Text → List Text → Option (List Text)
one_of_from allowed out [] = some out
one_of_from allowed out (v ∷ values) =
    let skip = one_of_from allowed out values in
    let rest = one_of_from allowed (out ++ folded v ∷ []) values in
    if is_empty (folded v) || text_in (folded v) out
    then skip
    else if not (text_in (folded v) allowed)
    then none
    else rest

-- oneOf
unfoldable pub one_of : List Text → List Text → Option (List Text)
unfolding one_of_from
one_of allowed values = one_of_from allowed [] values

abbrev is_nil : Option ℤ → Bool
is_nil none = true
is_nil (some n) = false

-- The first switch of normalize: `none` for no error
unfoldable pub criterion_error : Text → Option ℤ → Option ResultsError
criterion_error c least =
    if is_empty c && not (is_nil least)
    then some (ResultsError.missing Param.criterion)
    else if not (is_empty c) && is_nil least
    then some (ResultsError.missing Param.min_criterion_score)
    else if not (is_empty c) && not (is_evaluation_criterion c)
    then some (ResultsError.invalid Param.criterion)
    else if is_out_of_range least
    then some (ResultsError.invalid Param.min_criterion_score)
    else none

-- The second switch: `none` is the error
unfoldable pub sort_or_default : Text → Option Text
sort_or_default s =
    if is_empty s
    then some sort_score
    else if text_eq s sort_score || text_eq s sort_newest
    then some s
    else none

-- The third switch: `none` is the error
unfoldable pub limit_or_default : ℤ → Option ℕ
limit_or_default (pos n) =
    if leb n 0 then some default_limit else if ltb max_limit n then none else some n
limit_or_default (negsuc n) = none

abbrev pub with_limit : ListParams → Option ℕ → Result ResultsError ListParams
with_limit p none = err (ResultsError.invalid Param.limit)
with_limit p (some n) = ok (record p { limit = pos n })

abbrev pub with_sort : ListParams → Option Text → Result ResultsError ListParams
with_sort p none = err (ResultsError.invalid Param.sort)
with_sort p (some s) = with_limit (record p { sort = s }) (limit_or_default p.limit)

abbrev pub with_criterion : ListParams → Option ResultsError → Result ResultsError ListParams
with_criterion p (some e) = err e
with_criterion p none = with_sort p (sort_or_default p.sort)

abbrev pub with_evaluation_statuses :
    ListParams → Option (List Text) → Result ResultsError ListParams
with_evaluation_statuses p none = err (ResultsError.invalid Param.evaluation_status)
with_evaluation_statuses p (some ss) =
    with_criterion (record p { evaluation_statuses = ss; criterion = folded p.criterion })
      (criterion_error (folded p.criterion) p.min_criterion_score)

abbrev pub with_statuses : ListParams → Option (List Text) → Result ResultsError ListParams
with_statuses p none = err (ResultsError.invalid Param.status)
with_statuses p (some ss) =
    with_evaluation_statuses (record p { statuses = ss })
      (one_of evaluation_statuses p.evaluation_statuses)

-- normalize: the parameters with their defaults, or the first error
unfoldable pub normalize : ListParams → Result ResultsError ListParams
normalize p =
    if is_out_of_range p.min_score
    then err (ResultsError.invalid Param.min_score)
    else with_statuses p (one_of search_result_statuses p.statuses)

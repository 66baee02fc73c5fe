-- ===== src/Pipeline/Evaluations.antt =====
-- internal/pipeline/store.go: saveEvaluation and lockSearchResult; evaluationRow of pipeline.go.
pub mod Saved
use cv_evaluator.Prelude.{
  ℕ, suc, Bool, true, false, ◌&&◌, ◌||◌, Option, none, some, List, [], ◌∷◌, ◌++◌, map, ◌==◌,
  if◌then◌else◌, not,
}
use cv_evaluator.Prelude.Text.{Text, text_eq}
use cv_evaluator.Prelude.Table.{select, count_where, exists_where}
use cv_evaluator.Models.{SearchResult, Evaluation, EvaluationScore, EvaluationStatus}
use cv_evaluator.Matcher.{Response, CriterionScore}
use cv_evaluator.Pipeline.Config.{Config}
use cv_evaluator.Pipeline.Failure.{ForeignError}

-- The tables evaluations and evaluation_scores.
pub record Store : Type 0 where
  pub evaluations : List Evaluation
  pub scores : List EvaluationScore

-- search_result_id = ? AND cv_id = ?
abbrev pub is_for : ℕ → ℕ → Evaluation → Bool
is_for result cv e = e.search_result_id == result && e.cv_id == cv

-- DO UPDATE SET: every column but the key, the id and the time of creation
abbrev pub overwrite : Evaluation → Evaluation → Evaluation
overwrite e old = record e { id = old.id; created_at = old.created_at }

-- INSERT ... ON CONFLICT (search_result_id, cv_id) DO UPDATE
unfoldable pub upsert : Evaluation → List Evaluation → List Evaluation
upsert e [] = e ∷ []
upsert e (old ∷ rows) =
    if is_for e.search_result_id e.cv_id old then overwrite e old ∷ rows else old ∷ upsert e rows

-- SELECT id ... WHERE search_result_id = ? AND cv_id = ?
unfoldable pub ids_for : ℕ → ℕ → List Evaluation → List ℕ
ids_for result cv rows = map (λ (e : Evaluation). e.id) (select (is_for result cv) rows)

abbrev pub of_evaluation : ℕ → EvaluationScore → Bool
of_evaluation id s = s.evaluation_id == id

abbrev pub score_row : ℕ → CriterionScore → EvaluationScore
score_row id b = record {
  evaluation_id = id;
  criterion = b.criterion;
  score = b.score;
  reason = b.reason;
}

-- DELETE of the evaluation's scores, and INSERT of the new ones
unfoldable pub replaced_scores :
    ℕ → List CriterionScore → List EvaluationScore → List EvaluationScore
replaced_scores id breakdown scores =
    select (λ s. not (of_evaluation id s)) scores ++ map (score_row id) breakdown

-- Whether a criterion is scored twice
unfoldable pub has_repeat : List CriterionScore → Bool
has_repeat [] = false
has_repeat (b ∷ rest) =
    exists_where (λ (c : CriterionScore). text_eq c.criterion b.criterion) rest || has_repeat rest

-- The same with the unique index (evaluation_id, criterion): `none` if the INSERT breaks it. The
-- DELETE has left no other score of the evaluation.
unfoldable pub replace_scores :
    ℕ → List CriterionScore → List EvaluationScore → Option (List EvaluationScore)
replace_scores id breakdown scores =
    if has_repeat breakdown then none else some (replaced_scores id breakdown scores)

abbrev with_scores : ℕ → List Evaluation → Option (List EvaluationScore) → Option (ℕ × Store)
with_scores id rows none = none
with_scores id rows (some scores) = some (id, record { evaluations = rows; scores = scores })

-- After the ids are read back: any other number of them than one is an error.
abbrev save_scores :
    List Evaluation → List CriterionScore → List EvaluationScore → List ℕ → Option (ℕ × Store)
save_scores rows breakdown scores (id ∷ []) =
    with_scores id rows (replace_scores id breakdown scores)
save_scores rows breakdown scores _ = none

-- Whether the INSERT breaks the primary key: a row that is not the one in conflict has the id.
unfoldable pub is_taken : Evaluation → List Evaluation → Bool
is_taken e rows =
    not (exists_where (is_for e.search_result_id e.cv_id) rows)
    && exists_where (λ (d : Evaluation). d.id == e.id) rows

-- saveEvaluation: the id of the stored evaluation, and the tables; `none` is an error, which rolls
-- the transaction back. `e.id` is the id that a new row gets.
unfoldable pub save_evaluation : Evaluation → List CriterionScore → Store → Option (ℕ × Store)
save_evaluation e breakdown s =
    let rows = upsert e s.evaluations in
    if is_taken e s.evaluations
    then none
    else save_scores rows breakdown s.scores (ids_for e.search_result_id e.cv_id rows)

-- lockSearchResult: whether the row still exists
unfoldable pub lock_search_result : ℕ → List SearchResult → Bool
lock_search_result id results = count_where (λ (r : SearchResult). r.id == id) results == 1

abbrev failure_text : Option ForeignError → Text
failure_text none = []
failure_text (some e) = e.message

-- evaluationRow, with the id that a new row gets and the time `at` of the insertion
unfoldable pub evaluation_row :
    Config → ℕ → ℕ → SearchResult → ℕ → Option Response → Text → Option ForeignError → Evaluation
evaluation_row c id at r cv none raw error = record {
  id = id;
  created_at = at;
  updated_at = at;
  search_result_id = r.id;
  cv_id = cv;
  overall_score = 0;
  strengths = [];
  missing_skills = [];
  summary = [];
  raw_response = raw;
  model = c.model;
  prompt_version = c.prompt_version;
  status = EvaluationStatus.failed;
  error = failure_text error;
}
evaluation_row c id at r cv (some resp) raw error = record {
  id = id;
  created_at = at;
  updated_at = at;
  search_result_id = r.id;
  cv_id = cv;
  overall_score = resp.overall_score;
  strengths = resp.strengths;
  missing_skills = resp.missing_skills;
  summary = resp.summary;
  raw_response = raw;
  model = c.model;
  prompt_version = c.prompt_version;
  status = EvaluationStatus.completed;
  error = [];
}

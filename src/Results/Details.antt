-- ===== src/Results/Details.antt =====
-- internal/services/results/results.go: Get. The decoder of the stored
-- answers and the collation by which the database orders texts are parameters.
use cv_evaluator.Prelude.{
  ℕ, Bool, true, false, not, ◌&&◌, Option, none, some, List, [], ◌∷◌, ◌++◌, map, ◌==◌,
  if◌then◌else◌,
}
use cv_evaluator.Prelude.Text.{Text, text_eq}
use cv_evaluator.Prelude.Table.{select, first_where, order_by}
use cv_evaluator.Models.{
  SearchResultStatus, EvaluationState, Evaluation, EvaluationScore, EvaluationStatus,
}
use cv_evaluator.Matcher.{
  CriterionScore, Requirement, Decoded, decode_requirements, evaluation_criteria,
}
use cv_evaluator.Pipeline.Failure.{Result, ok, err}
use cv_evaluator.Pipeline.Evaluations.{Store, of_evaluation}
use cv_evaluator.Results.Params.{ResultsError}
use cv_evaluator.Results.Rows.{Database, Row, visible}
use cv_evaluator.Results.Lists.{SearchRef, JobView, search_ref, job_view}

-- Evaluation
pub record EvaluationView : Type 0 where
  pub id : ℕ
  pub cv_id : ℕ
  pub overall_score : ℕ
  pub breakdown : List CriterionScore
  pub strengths : List Text
  pub missing_skills : List Text
  pub summary : Text
  pub requirements : Option (List Requirement)
  pub model : Text
  pub prompt_version : Text
  pub evaluated_at : ℕ

pub record Detail : Type 0 where
  pub id : ℕ
  pub status : SearchResultStatus
  pub evaluation_status : EvaluationState
  pub created_at : ℕ
  pub updated_at : ℕ
  pub search : SearchRef
  pub job : JobView
  pub evaluation : Option EvaluationView

-- A score with its flag in `used`
abbrev pub Marked : Type 0
Marked = Bool × EvaluationScore

abbrev pub shown : EvaluationScore → CriterionScore
shown sc = record { criterion = sc.criterion; score = sc.score; reason = sc.reason }

abbrev pub is_wanted : Text → Marked → Bool
is_wanted c (used, sc) = not used && text_eq sc.criterion c

-- The inner loop: the scores that it appends, and the flags after it
unfoldable pub take_criterion : Text → List Marked → List CriterionScore × List Marked
take_criterion c [] = ([], [])
take_criterion c (m ∷ ms) =
    let (out, rest) = take_criterion c ms in
    if is_wanted c m then (shown m.1 ∷ out, (true, m.1) ∷ rest) else (out, m ∷ rest)

-- The first outer loop
unfoldable pub take_criteria : List Text → List Marked → List CriterionScore × List Marked
take_criteria [] ms = ([], ms)
take_criteria (c ∷ cs) ms =
    let (out, rest) = take_criterion c ms in
    let (more, left) = take_criteria cs rest in (out ++ more, left)

-- The second: the scores that are not used
unfoldable pub take_unused : List Marked → List CriterionScore
take_unused [] = []
take_unused ((used, sc) ∷ ms) = let rest = take_unused ms in if used then rest else shown sc ∷ rest

abbrev with_unused : List CriterionScore × List Marked → List CriterionScore
with_unused (out, ms) = out ++ take_unused ms

-- orderBreakdown
unfoldable pub order_breakdown : List EvaluationScore → List CriterionScore
order_breakdown scores =
    with_unused (take_criteria evaluation_criteria (map (λ sc. (false, sc)) scores))

abbrev is_completed : EvaluationStatus → Bool
is_completed EvaluationStatus.completed = true
is_completed _ = false

abbrev pub is_completed_id : ℕ → Evaluation → Bool
is_completed_id id e = e.id == id && is_completed e.status

module _ (decode : Text → Decoded) (collates : Text → Text → Bool) where
  abbrev view : List EvaluationScore → Evaluation → EvaluationView
  view scores e = record {
    id = e.id;
    cv_id = e.cv_id;
    overall_score = e.overall_score;
    breakdown = order_breakdown scores;
    strengths = e.strengths;
    missing_skills = e.missing_skills;
    summary = e.summary;
    requirements = decode_requirements (decode e.raw_response);
    model = e.model;
    prompt_version = e.prompt_version;
    evaluated_at = e.updated_at;
  }

  abbrev by_criterion : EvaluationScore → EvaluationScore → Bool
  by_criterion a b = collates a.criterion b.criterion

  abbrev loaded : ℕ → List EvaluationScore → Option Evaluation → Option EvaluationView
  loaded id scores none = none
  loaded id scores (some e) =
      some (view (order_by by_criterion (select (of_evaluation id) scores)) e)

  -- evaluation
  unfoldable pub evaluation : ℕ → Store → Option EvaluationView
  evaluation id s = loaded id s.scores (first_where (is_completed_id id) s.evaluations)

  abbrev pub linked : Store → Option ℕ → Option ℕ → Option EvaluationView
  linked s none score = none
  linked s (some id) none = none
  linked s (some id) (some score) = evaluation id s

  abbrev pub detail : Store → Row → Detail
  detail s x = record {
    id = x.result.id;
    status = x.result.status;
    evaluation_status = x.result.evaluation_status;
    created_at = x.result.created_at;
    updated_at = x.result.updated_at;
    search = search_ref x.search;
    job = record (job_view x.job) { description = x.job.detail };
    evaluation = linked s x.result.evaluation_id x.result.overall_score;
  }

  abbrev pub got : Store → Option Row → Result ResultsError Detail
  got s none = err ResultsError.not_found
  got s (some x) = ok (detail s x)

  -- Get
  unfoldable pub get : ℕ → ℕ → Database → Result ResultsError Detail
  get user id db = got db.store (first_where (λ (x : Row). x.result.id == id) (visible user db))

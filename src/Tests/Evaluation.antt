-- ===== src/Tests/Evaluation.antt =====
-- The evaluation of a search result, and what is stored of it.
use cv_evaluator.Prelude.{
  ◌↔◌, arith, ℕ, ◌+◌, ◌≤◌, ◌<◌, ◌≡◌, ◌≢◌, refl, sym, false, none, some, List, [], ◌∷◌, In, inl, inr,
}
use mathlib.Core.Path.{subst}
use cv_evaluator.Prelude.Text.{codes, text_eq}
use cv_evaluator.Prelude.Table.{least, select, exists_where}
use cv_evaluator.Models.{Cv, Evaluation, EvaluationStatus, SearchResult, EvaluationState}
use cv_evaluator.Matcher.{CriterionScore, Response}
use cv_evaluator.Pipeline.Config.{backoff}
use cv_evaluator.Pipeline.Failure.{wrap}
use cv_evaluator.Pipeline.Evaluations.{
  Store, save_evaluation, upsert, ids_for, replace_scores, replaced_scores, has_repeat, is_taken,
}
use cv_evaluator.Matcher.Breakdown.{DistinctCriteria}
use cv_evaluator.Pipeline.Evaluations.Saved.{IsSaved, save_evaluation-IsSaved}
use cv_evaluator.Pipeline.Evaluate.{Evaluated, Tables, select_latest_cv, record_result}
use cv_evaluator.Prelude.Table.{count_where}
use cv_evaluator.Pipeline.Evaluate.Retries.{Round, pass, passes, Fails, failures, passes_lem}
use cv_evaluator.Pipeline.Evaluate.Linked.{IsLinked, record_result-IsLinked}
use cv_evaluator.Tests.Samples.{config, result, timeout}

abbrev evaluation : Evaluation
evaluation = record {
  id = 5;
  created_at = 50;
  updated_at = 50;
  search_result_id = 3;
  cv_id = 9;
  overall_score = 80;
  strengths = [];
  missing_skills = [];
  summary = codes "Good.";
  raw_response = [];
  model = codes "deepseek-chat";
  prompt_version = codes "v3";
  status = EvaluationStatus.completed;
  error = [];
}

abbrev scores : List CriterionScore
scores = record { criterion = codes "skills"; score = 70; reason = [] } ∷ []

-- The result has an older evaluation for the same CV, which failed.
abbrev before : Store
before = record {
  evaluations =
      record evaluation {
        id = 4;
        created_at = 10;
        updated_at = 10;
        overall_score = 0;
        status = EvaluationStatus.failed;
      }
      ∷ [];
  scores = record { evaluation_id = 4; criterion = codes "skills"; score = 1; reason = [] } ∷ [];
}

overwrites :
    save_evaluation evaluation scores before
    ≡ some (
      4,
      record {
        evaluations = record evaluation { id = 4; created_at = 10 } ∷ [];
        scores =
            record { evaluation_id = 4; criterion = codes "skills"; score = 70; reason = [] } ∷ [];
      },
    )
unfolding save_evaluation upsert ids_for replace_scores replaced_scores has_repeat is_taken
    exists_where select text_eq
overwrites = refl

fresh : ◌≢◌ {A = ℕ} 4 5
fresh e = omega (arith, e)

save_evaluation-IsSaved_example :
    (DistinctCriteria scores
      → (id : ℕ) × (t : Store) × (save_evaluation evaluation scores before ≡ some (id, t))
        × IsSaved evaluation scores before t id)
    × (¬ DistinctCriteria scores → save_evaluation evaluation scores before ≡ none)
save_evaluation-IsSaved_example =
    save_evaluation-IsSaved evaluation scores before (tt, tt) (fresh, tt)

-- The unique index refuses a second score of a criterion.
repeats :
    save_evaluation evaluation
      (record { criterion = codes "skills"; score = 80; reason = [] } ∷ scores)
      before
    ≡ none
unfolding save_evaluation upsert ids_for replace_scores replaced_scores has_repeat is_taken
    exists_where select text_eq
repeats = refl

abbrev cv : ℕ → ℕ → Cv
cv id created = record {
  id = id;
  created_at = created;
  updated_at = created;
  deleted_at = none;
  user_id = 1;
  extracted_content = [];
  full_embedding = [];
}

-- The CV that was uploaded last, and of two at the same time the one with the greater id.
latest : select_latest_cv (cv 1 10 ∷ cv 2 20 ∷ cv 3 20 ∷ []) 1 ≡ some (cv 3 20)
unfolding select_latest_cv least select
latest = refl

abbrev response : Response
response = record {
  requirements = [];
  overall_score = 80;
  breakdown = scores;
  strengths = [];
  missing_skills = [];
  summary = codes "Good.";
}

abbrev evaluated : Evaluated
evaluated = record {
  cv = some 9;
  response = some response;
  raw = [];
  match_error = none;
  error = none;
}

abbrev claimed : SearchResult
claimed = record result {
  evaluation_status = EvaluationState.processing;
  claimed_at = some 100;
  attempts = 1;
}

abbrev tables : Tables
tables = record { results = claimed ∷ []; store = before }

record_result-IsLinked_example :
    (t : Tables) × (record_result config 200 5 claimed evaluated false tables ≡ some t)
    × ((x : SearchResult) → In x t.results → IsLinked t.store x)
record_result-IsLinked_example =
    record_result-IsLinked config 200 5 claimed evaluated false tables (tt, tt) (fresh, tt) (tt, tt)
      linked
  where
    linked : (x : SearchResult) → In x (claimed ∷ []) → IsLinked before x
    linked x (inl e) = subst (IsLinked before) (sym e) (inl refl)
    linked x (inr i) = elim i [ ]

-- The user has no CV, then the language model does not answer, twice.
abbrev no_cv : Round
no_cv = record {
  claimed = 100;
  ended = 110;
  cancelled = false;
  outcome = record { cv = none; response = none; raw = []; match_error = none; error = none };
}

abbrev no_answer : Round
no_answer = record {
  claimed = 200;
  ended = 210;
  cancelled = false;
  outcome = record {
    cv = some 9;
    response = none;
    raw = [];
    match_error = some timeout;
    error = some (wrap (codes "evaluate: ") timeout);
  };
}

fails : Fails no_answer
fails = (refl, (wrap (codes "evaluate: ") timeout, refl, refl))

passes_lem_example :
    let left = pass config (passes config result (no_cv ∷ no_answer ∷ [])) no_answer in
    (left.attempts ≡ result.attempts + failures (no_cv ∷ no_answer ∷ []) + 1)
    × ((left.evaluation_status ≡ EvaluationState.failed)
        ↔ (result.attempts + failures (no_cv ∷ no_answer ∷ []) + 1 ≡ config.max_attempts))
    × (result.attempts + failures (no_cv ∷ no_answer ∷ []) + 1 < config.max_attempts
        → (left.evaluation_status ≡ EvaluationState.pending)
          × (left.next_attempt_at
              ≡ some
                  (210 + backoff config (result.attempts + failures (no_cv ∷ no_answer ∷ []) + 1))))
    × (left.claimed_at ≡ none)
unfolding count_where
passes_lem_example =
    passes_lem config result (no_cv ∷ no_answer ∷ []) no_answer
      (inr (inr (refl, refl, refl)), (inl fails, tt)) fails two
  where
    two : result.attempts + failures (no_cv ∷ no_answer ∷ []) + 1 ≤ config.max_attempts
    two = omega arith

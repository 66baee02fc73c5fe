-- ===== src/Results/Rows.antt =====
-- internal/services/results/results.go: the rows that a user can see, and the conditions on them.
use cv_evaluator.Prelude.{
  ℕ, suc, Bool, true, false, ◌&&◌, ◌||◌, Option, none, some, List, ltb, leb, ◌==◌, is_empty,
  if◌then◌else◌,
}
use cv_evaluator.Prelude.Int.{ℤ, pos, negsuc}
use cv_evaluator.Prelude.Text.{Text, text_eq}
use cv_evaluator.Prelude.Table.{select, exists_where}
use cv_evaluator.Prelude.Joins.{join, left_join}
use cv_evaluator.Models.{SearchResult, JobSearch, Job, Evaluation, EvaluationScore, is_live}
use cv_evaluator.Matcher.{text_in}
use cv_evaluator.Pipeline.Evaluations.{Store}
use cv_evaluator.Results.Params.{ListParams, status_text, state_text, sort_newest}

-- The tables that the service reads.
pub record Database : Type 0 where
  pub searches : List JobSearch
  pub jobs : List Job
  pub results : List SearchResult
  pub store : Store

-- A row of the join of search_results sr, job_searches js and jobs j.
pub record Row : Type 0 where
  pub result : SearchResult
  pub search : JobSearch
  pub job : Job

-- js.id = sr.job_search_id AND js.deleted_at IS NULL
abbrev pub is_search_of : SearchResult → JobSearch → Bool
is_search_of r s = s.id == r.job_search_id && is_live s.deleted_at

-- j.id = sr.job_id AND j.deleted_at IS NULL
abbrev pub is_job_of : SearchResult × JobSearch → Job → Bool
is_job_of (r, s) j = j.id == r.job_id && is_live j.deleted_at

abbrev pub to_row : SearchResult × JobSearch → Job → Row
to_row (r, s) j = record { result = r; search = s; job = j }

-- visible
unfoldable pub visible : ℕ → Database → List Row
visible user db =
    select (λ (x : Row). x.result.user_id == user)
      (join is_job_of to_row (join is_search_of (λ r s. (r, s)) db.results db.searches) db.jobs)

-- score >= ?, which NULL is not
abbrev pub is_at_least : ℤ → Option ℕ → Bool
is_at_least m none = false
is_at_least (pos m) (some s) = leb m s
is_at_least (negsuc m) (some s) = true

abbrev same_search : Option ℕ → SearchResult → Bool
same_search none r = true
same_search (some id) r = r.job_search_id == id

abbrev has_min_score : Option ℤ → SearchResult → Bool
has_min_score none r = true
has_min_score (some m) r = is_at_least m r.overall_score

abbrev is_since : Option ℕ → SearchResult → Bool
is_since none r = true
is_since (some t) r = leb t r.created_at

abbrev pub is_null : Option ℕ → Bool
is_null none = true
is_null (some n) = false

abbrev is_id : ℕ → Option ℕ → Bool
is_id id none = false
is_id id (some n) = id == n

-- EXISTS (SELECT 1 FROM evaluation_scores es WHERE ...). normalize has checked that the least score
-- of a criterion is given.
abbrev criterion_scored : Text → Option ℤ → List EvaluationScore → SearchResult → Bool
criterion_scored c none scores r = false
criterion_scored c (some m) scores r =
    exists_where
      (λ (es : EvaluationScore).
        is_id es.evaluation_id r.evaluation_id
        && (text_eq es.criterion c && is_at_least m (some es.score)))
      scores

abbrev has_criterion : ListParams → List EvaluationScore → SearchResult → Bool
has_criterion p scores r =
    if is_empty p.criterion
    then true
    else if is_null r.overall_score
    then false
    else criterion_scored p.criterion p.min_criterion_score scores r

-- The conditions of filtered
unfoldable pub matches : ListParams → List EvaluationScore → SearchResult → Bool
matches p scores r =
    (same_search p.job_search_id r && has_min_score p.min_score r)
    && ((is_empty p.statuses || text_in (status_text r.status) p.statuses)
        && (is_empty p.evaluation_statuses
            || text_in (state_text r.evaluation_status) p.evaluation_statuses))
    && (is_since p.since r && has_criterion p scores r)

-- filtered
unfoldable pub filtered : ℕ → ListParams → Database → List Row
filtered user p db = select (λ (x : Row). matches p db.store.scores x.result) (visible user db)

-- A row of the list query.
pub record ListRow : Type 0 where
  pub row : Row
  pub evaluation : Option Evaluation

-- e.id = sr.evaluation_id AND sr.overall_score IS NOT NULL
abbrev pub is_evaluation_of : Row → Evaluation → Bool
is_evaluation_of x e =
    if is_null x.result.overall_score then false else is_id e.id x.result.evaluation_id

abbrev pub to_list_row : Row → Option Evaluation → ListRow
to_list_row x e = record { row = x; evaluation = e }

unfoldable pub with_evaluations : List Evaluation → List Row → List ListRow
with_evaluations evaluations rows = left_join is_evaluation_of to_list_row rows evaluations

-- The first column of the order, the greatest first: the time of creation, or the score with NULL
-- last.
abbrev pub score_key : Option ℕ → ℕ
score_key none = 0
score_key (some s) = suc s

unfoldable pub sort_key : Text → SearchResult → ℕ
sort_key sort r = if text_eq sort sort_newest then r.created_at else score_key r.overall_score

-- (a, b) < (c, d)
abbrev pub pair_lt : ℕ → ℕ → ℕ → ℕ → Bool
pair_lt a b c d = ltb a c || (a == c && ltb b d)

-- The order of the list query
abbrev pub list_before : Text → ListRow → ListRow → Bool
list_before sort a b =
    pair_lt (sort_key sort b.row.result) b.row.result.id (sort_key sort a.row.result)
      a.row.result.id

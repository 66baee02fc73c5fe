-- ===== src/Results/Summaries.antt =====
-- internal/services/results/results.go: Summary.
use cv_evaluator.Prelude.{
  ℕ, suc, ◌-◌, ◌*◌, Bool, true, false, not, ◌&&◌, ◌||◌, List, [], ◌∷◌, map, ltb, leb, ◌==◌,
  if◌then◌else◌,
}
use cv_evaluator.Prelude.Text.{Text}
use cv_evaluator.Prelude.Table.{select, count_where, order_by, exists_where}
use cv_evaluator.Prelude.Joins.{join}
use cv_evaluator.Models.{
  SearchResult, SearchResultStatus, EvaluationState, JobSearch, Job, is_live, hour,
}
use cv_evaluator.Results.Rows.{Database, Row, visible, is_at_least, is_null}
use cv_evaluator.Prelude.Int.{pos}

-- StrongScore
abbrev pub strong_score : ℕ
strong_score = 80

pub record SearchCount : Type 0 where
  pub id : ℕ
  pub name : Text
  pub total : ℕ
  pub new_this_week : ℕ

-- Summary; by_status is a function of the status.
pub record Summary : Type 0 where
  pub week_start : ℕ
  pub total : ℕ
  pub scored : ℕ
  pub evaluating : ℕ
  pub failed_evaluation : ℕ
  pub new_this_week : ℕ
  pub new_this_week_searches : ℕ
  pub strong_matches : ℕ
  pub strong_matches_new : ℕ
  pub by_status : SearchResultStatus → ℕ
  pub by_search : List SearchCount

-- sr.status = ?
abbrev pub has_status : SearchResultStatus → SearchResultStatus → Bool
has_status SearchResultStatus.new SearchResultStatus.new = true
has_status SearchResultStatus.saved SearchResultStatus.saved = true
has_status SearchResultStatus.applied SearchResultStatus.applied = true
has_status SearchResultStatus.dismissed SearchResultStatus.dismissed = true
has_status _ _ = false

-- sr.evaluation_status IN @evaluating
abbrev pub is_waiting : EvaluationState → Bool
is_waiting EvaluationState.pending = true
is_waiting EvaluationState.processing = true
is_waiting _ = false

abbrev pub is_failed : EvaluationState → Bool
is_failed EvaluationState.failed = true
is_failed _ = false

abbrev pub is_strong : SearchResult → Bool
is_strong r = is_at_least (pos strong_score) r.overall_score

-- count(*) FILTER (WHERE w), on the rows that a user sees
abbrev pub counted : List Row → (SearchResult → Bool) → ℕ
counted rows w = count_where (λ (x : Row). w x.result) rows

-- count(DISTINCT ...): a value counts where it stands last.
unfoldable pub count_distinct : List ℕ → ℕ
count_distinct [] = 0
count_distinct (n ∷ ns) =
    let rest = count_distinct ns in if exists_where (λ m. m == n) ns then rest else suc rest

-- js.user_id = ? AND js.deleted_at IS NULL
abbrev pub is_search_of_user : ℕ → JobSearch → Bool
is_search_of_user user s = s.user_id == user && is_live s.deleted_at

-- j.id = sr.job_id AND j.deleted_at IS NULL
abbrev pub is_job_of_result : SearchResult → Job → Bool
is_job_of_result r j = j.id == r.job_id && is_live j.deleted_at

-- The results of the LEFT JOIN: those whose job was not deleted.
abbrev pub with_job : Database → List SearchResult
with_job db = join is_job_of_result (λ r j. r) db.results db.jobs

-- The group of a search, with the count of its rows that meet `w`.
abbrev pub group_count : Database → (SearchResult → Bool) → JobSearch → ℕ
group_count db w s =
    count_where (λ (r : SearchResult). r.job_search_id == s.id && w r) (with_job db)

-- ORDER BY js.created_at, js.id
abbrev pub older : JobSearch → JobSearch → Bool
older a b = ltb a.created_at b.created_at || (a.created_at == b.created_at && ltb a.id b.id)

abbrev pub is_new : ℕ → SearchResult → Bool
is_new week r = leb week r.created_at

abbrev pub search_count : Database → ℕ → JobSearch → SearchCount
search_count db week s = record {
  id = s.id;
  name = s.name;
  total = group_count db (λ r. true) s;
  new_this_week = group_count db (is_new week) s;
}

-- The query of bySearch; an id is that of one search, so that each row is a group.
unfoldable pub by_search : ℕ → ℕ → Database → List SearchCount
by_search user week db =
    map (search_count db week) (order_by older (select (is_search_of_user user) db.searches))

-- Summary. `now` is at least a week after the epoch.
unfoldable pub summary : ℕ → ℕ → Database → Summary
summary now user db =
    let week = now - 7 * 24 * hour in
    let rows = visible user db in
    record {
      week_start = week;
      total = counted rows (λ r. true);
      scored = counted rows (λ r. not (is_null r.overall_score));
      evaluating = counted rows (λ r. is_waiting r.evaluation_status);
      failed_evaluation = counted rows (λ r. is_failed r.evaluation_status);
      new_this_week = counted rows (is_new week);
      new_this_week_searches = count_distinct (
          map (λ (x : Row). x.result.job_search_id)
            (select (λ (x : Row). is_new week x.result) rows));
      strong_matches =
          counted rows (λ r. is_strong r && not (has_status SearchResultStatus.dismissed r.status));
      strong_matches_new =
          counted rows (λ r. is_strong r && has_status SearchResultStatus.new r.status);
      by_status = λ s. counted rows (λ r. has_status s r.status);
      by_search = by_search user week db;
    }

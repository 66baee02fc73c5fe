-- ===== src/Results/Lists.antt =====
-- internal/services/results/results.go: List.
use cv_evaluator.Prelude.{
  ℕ, ◌+◌, Bool, true, ◌&&◌, ◌||◌, Option, none, some, List, [], map, ltb, ◌==◌, length, take,
  if◌then◌else◌,
}
use cv_evaluator.Prelude.Int.{ℤ, pos, negsuc}
use cv_evaluator.Prelude.Text.{Text, text_eq}
use cv_evaluator.Prelude.Table.{select, first_where, exists_where, order_by}
use cv_evaluator.Models.{
  SearchResult, SearchResultStatus, EvaluationState, JobSearch, Job, Evaluation, is_live,
}
use cv_evaluator.Pipeline.Failure.{Result, ok, err}
use cv_evaluator.Results.Params.{ListParams, ResultsError, Param, sort_newest, normalize}
use cv_evaluator.Results.Rows.{Database, ListRow, filtered, with_evaluations, list_before, is_null}

-- TopMissingSkills
abbrev pub top_missing_skills : ℕ
top_missing_skills = 3

pub record SearchRef : Type 0 where
  pub id : ℕ
  pub name : Text

pub record JobView : Type 0 where
  pub id : ℕ
  pub title : Text
  pub company : Text
  pub location : Text
  pub provider : Text
  pub details_url : Text
  pub posted_at : Text
  pub description : Text

pub record EvaluationSummary : Type 0 where
  pub overall_score : ℕ
  pub top_missing_skills : List Text
  pub evaluated_at : ℕ

-- Result
pub record Listed : Type 0 where
  pub id : ℕ
  pub status : SearchResultStatus
  pub evaluation_status : EvaluationState
  pub created_at : ℕ
  pub updated_at : ℕ
  pub search : SearchRef
  pub job : JobView
  pub evaluation : Option EvaluationSummary

pub record Page : Type 0 where
  pub results : List Listed
  pub has_more : Bool
  pub total_count : ℕ

abbrev pub search_ref : JobSearch → SearchRef
search_ref s = record { id = s.id; name = s.name }

-- The job of a result, without its description
abbrev pub job_view : Job → JobView
job_view j = record {
  id = j.id;
  title = j.title;
  company = j.company;
  location = j.location;
  provider = j.provider;
  details_url = j.details_url;
  posted_at = j.posted_at;
  description = [];
}

abbrev summary_of : Option ℕ → Option Evaluation → Option EvaluationSummary
summary_of none e = none
summary_of (some s) none = none
summary_of (some s) (some e) = some (record {
  overall_score = s;
  top_missing_skills = take top_missing_skills e.missing_skills;
  evaluated_at = e.updated_at;
})

-- listRow.result
unfoldable pub result : ListRow → Listed
result x = record {
  id = x.row.result.id;
  status = x.row.result.status;
  evaluation_status = x.row.result.evaluation_status;
  created_at = x.row.result.created_at;
  updated_at = x.row.result.updated_at;
  search = search_ref x.row.search;
  job = job_view x.row.job;
  evaluation = summary_of x.row.result.overall_score x.evaluation;
}

abbrev pub is_owned : ℕ → ℕ → SearchResult → Bool
is_owned user id r = r.id == id && r.user_id == user

-- requireSearch: whether there is no error
unfoldable pub has_search : ℕ → ℕ → List JobSearch → Bool
has_search user id searches =
    exists_where (λ (s : JobSearch). (s.id == id && s.user_id == user) && is_live s.deleted_at)
      searches

-- The cases of after by the cursor's score: (that score, the cursor's id, the row's id and score).
-- Without one, the rows without a score and with a smaller id; with one, those with a smaller score,
-- or an equal one and a smaller id, or none.
abbrev pub follows_scored : Option ℕ → ℕ → ℕ → Option ℕ → Bool
follows_scored none id i t = is_null t && ltb i id
follows_scored (some s) id i none = true
follows_scored (some s) id i (some t) = ltb t s || (t == s && ltb i id)

-- The switch of after: whether the row `r` is past the cursor `c`
unfoldable pub follows : Text → SearchResult → SearchResult → Bool
follows sort c r =
    if text_eq sort sort_newest
    then ltb r.created_at c.created_at || (r.created_at == c.created_at && ltb r.id c.id)
    else follows_scored c.overall_score c.id r.id r.overall_score

abbrev pub cursor_row :
    Text → List ListRow → Option SearchResult → Result ResultsError (List ListRow)
cursor_row sort rows none = err (ResultsError.invalid Param.starting_after)
cursor_row sort rows (some c) = ok (select (λ (x : ListRow). follows sort c x.row.result) rows)

-- after, where there is a cursor
unfoldable pub after :
    ℕ → Text → Option ℕ → List SearchResult → List ListRow → Result ResultsError (List ListRow)
after user sort none results rows = ok rows
after user sort (some id) results rows =
    cursor_row sort rows (first_where (is_owned user id) results)

abbrev pub nat_of : ℤ → ℕ
nat_of (pos n) = n
nat_of (negsuc n) = 0

-- The page of the rows that the query returned: at most one more than fit on it.
unfoldable pub page_of : ℕ → ℕ → List ListRow → Page
page_of total limit rows = record {
  results = map result (if ltb limit (length rows) then take limit rows else rows);
  has_more = ltb limit (length rows);
  total_count = total;
}

abbrev pub queried : ℕ → ListParams → Result ResultsError (List ListRow) → Result ResultsError Page
queried total p (err e) = err e
queried total p (ok rows) = ok (
    page_of total (nat_of p.limit) (take (nat_of p.limit + 1) (order_by (list_before p.sort) rows)))

abbrev pub query_page : ℕ → ListParams → Database → Result ResultsError Page
query_page user p db =
    let rows = filtered user p db in
    queried (length rows) p
      (after user p.sort p.starting_after db.results (with_evaluations db.store.evaluations rows))

abbrev pub required : ℕ → Option ℕ → List JobSearch → Bool
required user none searches = true
required user (some id) searches = has_search user id searches

abbrev pub list_normal : ℕ → Database → Result ResultsError ListParams → Result ResultsError Page
list_normal user db (err e) = err e
list_normal user db (ok p) =
    if required user p.job_search_id db.searches
    then query_page user p db
    else err ResultsError.search_not_found

-- List
unfoldable pub list : ℕ → ListParams → Database → Result ResultsError Page
list user p db = list_normal user db (normalize p)

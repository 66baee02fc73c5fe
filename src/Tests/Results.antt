-- ===== src/Tests/Results.antt =====
-- The list of results, their triage and their summary at a small database.
use cv_evaluator.Prelude.{
  ℕ, ◌≡◌, refl, Bool, true, false, none, some, List, [], ◌∷◌, ◌++◌, map, arith, ◌⊎◌, length, not,
}
use cv_evaluator.Prelude.Int.{pos}
use cv_evaluator.Prelude.Text.{Text, codes, text_eq, trim_space, to_lower}
use cv_evaluator.Prelude.Table.{select, first_where, update_where, order_by}
use cv_evaluator.Prelude.Joins.{join, left_join}
use cv_evaluator.Models.{
  Job, JobStatus, SearchResult, SearchResultStatus, EvaluationState, EvaluationScore,
}
use cv_evaluator.Matcher.{Decoded, text_in, is_evaluation_criterion, evaluation_criteria}
use cv_evaluator.Pipeline.Failure.{ok, err}
use cv_evaluator.Results.Updates.{users_row}
use cv_evaluator.Results.Again.{MayAgain, queued_row}
use cv_evaluator.Pipeline.Claim.{claimable_result, job_embedded}
use cv_evaluator.Results.Params.{
  ListParams, ResultsError, normalize, one_of, criterion_error, sort_or_default, limit_or_default,
  sort_score, folded, status_text,
}
use cv_evaluator.Results.Rows.{
  Database, visible, filtered, matches, with_evaluations, list_before, sort_key,
}
use cv_evaluator.Results.Lists.{result, is_owned, Listed}
use cv_evaluator.Results.Keys.{IsKeyed}
use cv_evaluator.Results.Valid.{IsValid, normalize-IsValid}
use cv_evaluator.Results.Pages.{walk, walk_lem}
use cv_evaluator.Results.Details.{
  Detail, get, shown, order_breakdown, take_criteria, take_criterion, take_unused,
}
use cv_evaluator.Results.Changes.{update_status, re_evaluate, with_results}
use cv_evaluator.Results.Breakdown.{by_criteria, order_breakdown_lem}
use cv_evaluator.Results.Triage.{update_status_lem}
use cv_evaluator.Results.Again.{re_evaluate_lem}
use cv_evaluator.Results.Summaries.{summary}
use cv_evaluator.Results.Totals.{IsConsistent, summary-IsConsistent}
use cv_evaluator.Tests.Samples
use cv_evaluator.Tests.Samples.{job, search}

abbrev posting : ℕ → Job
posting id = record job { id = id; status = JobStatus.embedded }

abbrev scored : ℕ → ℕ → ℕ → SearchResult
scored id j score = record Samples.result {
  id = id;
  job_id = j;
  evaluation_status = EvaluationState.done;
  overall_score = some score;
}

-- Two results with the same score, and one that is not scored.
abbrev db : Database
db = record {
  searches = search ∷ [];
  jobs = posting 7 ∷ posting 8 ∷ posting 9 ∷ [];
  results = scored 3 7 90 ∷ record Samples.result { id = 4; job_id = 8 } ∷ scored 5 9 90 ∷ [];
  store = record { evaluations = []; scores = [] };
}

abbrev params : ListParams
params = record {
  job_search_id = none;
  min_score = none;
  statuses = codes " New " ∷ codes "saved" ∷ codes "new" ∷ [];
  evaluation_statuses = [];
  since = none;
  criterion = [];
  min_criterion_score = none;
  sort = [];
  limit = pos 2;
  starting_after = none;
}

abbrev normal : ListParams
normal = record params { statuses = codes "new" ∷ codes "saved" ∷ []; sort = sort_score }

normalizes : normalize params ≡ ok normal
unfolding normalize one_of criterion_error sort_or_default limit_or_default text_in text_eq
    trim_space to_lower
normalizes = refl

normalize-IsValid_example : IsValid normal
normalize-IsValid_example = normalize-IsValid params normal normalizes

keyed : IsKeyed db
keyed = record { searches = (tt, tt); jobs = omega arith; results = omega arith; evaluations = tt }

three : length (filtered 1 normal db) ≡ 3
unfolding filtered visible matches text_in text_eq select join
three = refl

-- Pages of two results.
walk_lem_example :
    walk 4 1 params none db
    ≡ some (
        map result (order_by (list_before sort_score) (with_evaluations [] (filtered 1 normal db))))
walk_lem_example = walk_lem 1 4 params normal db keyed normalizes refl (omega (arith, three))

abbrev ids : List Listed → List ℕ
ids xs = map (λ (x : Listed). x.id) xs

-- The unscored result comes last, and of two equal scores the greater id first.
order :
    ids
      (map result (order_by (list_before sort_score) (with_evaluations [] (filtered 1 normal db))))
    ≡ 5 ∷ 3 ∷ 4 ∷ []
unfolding result order_by with_evaluations filtered visible matches text_in text_eq select left_join
    join sort_key
order = refl

abbrev decode : Text → Decoded
decode raw = Decoded.malformed

abbrev collates : Text → Text → Bool
collates a b = false

abbrev shown_result : Detail
shown_result = record {
  id = 3;
  status = SearchResultStatus.new;
  evaluation_status = EvaluationState.done;
  created_at = 10;
  updated_at = 10;
  search = record { id = 1; name = codes "Go" };
  job = record {
    id = 7;
    title = codes "Go developer";
    company = codes "Acme";
    location = codes "Aarhus";
    provider = codes "jobindex";
    details_url = [];
    posted_at = [];
    description = [];
  };
  evaluation = none;
}

shows : get decode collates 1 3 db ≡ ok shown_result
unfolding get visible select join first_where
shows = refl

folds : folded (codes " Applied") ≡ status_text SearchResultStatus.applied
unfolding trim_space to_lower
folds = refl

update_status_lem_example : update_status decode collates 30 1 3 (codes " Applied") db ≡ (
  ok (record shown_result { status = SearchResultStatus.applied; updated_at = 30 }),
  with_results db (
      update_where
        (users_row 1 3)
        (λ (r : SearchResult). record r { status = SearchResultStatus.applied; updated_at = 30 })
        db.results),
)
update_status_lem_example =
    update_status_lem decode collates 30 1 3 (codes " Applied") SearchResultStatus.applied db
      shown_result shows folds

found : first_where (is_owned 1 3) db.results ≡ some (scored 3 7 90)
unfolding first_where
found = refl

has_embedding : job_embedded db.jobs 7 ≡ true
unfolding job_embedded
has_embedding = refl

re_evaluate_lem_example :
    ((re_evaluate decode collates 30 1 3 db ≡ (
      ok (record shown_result { evaluation_status = EvaluationState.pending; updated_at = 30 }),
      with_results db (update_where (users_row 1 3) (queued_row 30) db.results),
    ))
      × MayAgain 30 (scored 3 7 90)
      × (claimable_result db.jobs 31 0 (queued_row 30 (scored 3 7 90)) ≡ true))
    ⊎ ((re_evaluate decode collates 30 1 3 db ≡ (err ResultsError.evaluation_in_progress, db))
        × (((scored 3 7 90).evaluation_status ≡ EvaluationState.processing)
            ⊎ (claimable_result db.jobs 30 0 (scored 3 7 90) ≡ true)))
re_evaluate_lem_example =
    re_evaluate_lem decode collates 30 1 3 31 0 db shown_result (scored 3 7 90) keyed shows found
      has_embedding

abbrev score : Text → ℕ → EvaluationScore
score c n = record { evaluation_id = 1; criterion = c; score = n; reason = [] }

-- A criterion that is no longer in the list comes last.
abbrev loaded : List EvaluationScore
loaded = score (codes "culture") 10 ∷ score (codes "domain") 20 ∷ score (codes "skills") 30 ∷ []

order_breakdown_lem_example :
    order_breakdown loaded
    ≡ by_criteria evaluation_criteria loaded
      ++ map shown
          (select (λ (sc : EvaluationScore). not (is_evaluation_criterion sc.criterion)) loaded)
order_breakdown_lem_example = order_breakdown_lem loaded

puts_last :
    order_breakdown loaded
    ≡ shown (score (codes "skills") 30)
      ∷ shown (score (codes "domain") 20)
      ∷ shown (score (codes "culture") 10)
      ∷ []
unfolding order_breakdown take_criteria take_criterion take_unused text_eq
puts_last = refl

summary-IsConsistent_example : IsConsistent (summary 0 1 db)
summary-IsConsistent_example =
    summary-IsConsistent 0 1 db ((λ e. refl, tt), ((λ e. refl, tt), ((λ e. refl, tt), tt)))

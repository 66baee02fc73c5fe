-- ===== src/Account/Exports.antt =====
-- internal/services/account/export.go: the export of an account. The collation by which the
-- database orders texts is a parameter.
use cv_evaluator.Prelude.{ℕ, Bool, ◌&&◌, ◌||◌, Option, none, some, List, map, ltb, ◌==◌}
use cv_evaluator.Prelude.Text.{Text, codes, text_eq}
use cv_evaluator.Prelude.Table.{select, order_by, first_where}
use cv_evaluator.Models.{
  Cv, SectionEmbedding, PortalSuggestion, SuggestionStatus, Job, JobSearch, SearchResult,
  SearchResultStatus, EvaluationState, Evaluation, EvaluationScore, EvaluationStatus, is_live,
}
use cv_evaluator.Pipeline.Failure.{Result, ok, err}
use cv_evaluator.ApiKeys.{ApiKey}
use cv_evaluator.Users.{User}
use cv_evaluator.Account.{Database, AccountError, id_in, owns_result, owns_section}

pub record ExportProfile : Type 0 where
  pub id : ℕ
  pub first_name : Text
  pub last_name : Text
  pub email : Text
  pub phone : Text
  pub created_at : ℕ
  pub updated_at : ℕ
  pub password_changed_at : Option ℕ

pub record ExportCvSection : Type 0 where
  pub heading : Text
  pub content : Text

pub record ExportCv : Type 0 where
  pub id : ℕ
  pub extracted_content : Text
  pub sections : List ExportCvSection
  pub created_at : ℕ
  pub updated_at : ℕ
  pub deleted_at : Option ℕ

pub record ExportJobSearch : Type 0 where
  pub id : ℕ
  pub name : Text
  pub query : Text
  pub location : Text
  pub frequency : Text
  pub enabled : Bool
  pub last_run_at : Option ℕ
  pub next_run_at : Option ℕ
  pub created_at : ℕ
  pub updated_at : ℕ
  pub deleted_at : Option ℕ

pub record ExportJob : Type 0 where
  pub id : ℕ
  pub provider : Text
  pub title : Text
  pub company : Text
  pub location : Text
  pub posted_at : Text
  pub details_url : Text

pub record ExportScore : Type 0 where
  pub criterion : Text
  pub score : ℕ
  pub reason : Text

pub record ExportEvaluation : Type 0 where
  pub id : ℕ
  pub cv_id : ℕ
  pub status : EvaluationStatus
  pub overall_score : ℕ
  pub scores : List ExportScore
  pub strengths : List Text
  pub missing_skills : List Text
  pub summary : Text
  pub error : Text
  pub model : Text
  pub prompt_version : Text
  pub created_at : ℕ
  pub updated_at : ℕ

pub record ExportResult : Type 0 where
  pub id : ℕ
  pub job_search_id : ℕ
  pub status : SearchResultStatus
  pub evaluation_status : EvaluationState
  pub created_at : ℕ
  pub updated_at : ℕ
  pub job : Option ExportJob
  pub evaluations : List ExportEvaluation

pub record ExportApiKey : Type 0 where
  pub id : ℕ
  pub name : Text
  pub prefix : Text
  pub created_at : ℕ
  pub last_used_at : Option ℕ
  pub revoked_at : Option ℕ

pub record ExportPortalSuggestion : Type 0 where
  pub id : ℕ
  pub name : Text
  pub url : Text
  pub note : Text
  pub status : SuggestionStatus
  pub created_at : ℕ
  pub updated_at : ℕ

pub record Export : Type 0 where
  pub object : Text
  pub exported_at : ℕ
  pub profile : ExportProfile
  pub cvs : List ExportCv
  pub job_searches : List ExportJobSearch
  pub results : List ExportResult
  pub api_keys : List ExportApiKey
  pub portal_suggestions : List ExportPortalSuggestion

-- ORDER BY created_at, id
abbrev pub by_creation : {R : Type 0} → (R → ℕ) → (R → ℕ) → R → R → Bool
by_creation created id a b =
    ltb (created a) (created b) || (created a == created b && ltb (id a) (id b))

abbrev pub profile_of : User → ExportProfile
profile_of u = record {
  id = u.id;
  first_name = u.first_name;
  last_name = u.last_name;
  email = u.email;
  phone = u.phone;
  created_at = u.created_at;
  updated_at = u.updated_at;
  password_changed_at = u.password_changed_at;
}

abbrev section_of : SectionEmbedding → ExportCvSection
section_of s = record { heading = s.section_heading; content = s.section }

abbrev pub cv_of : List SectionEmbedding → Cv → ExportCv
cv_of sections c = record {
  id = c.id;
  extracted_content = c.extracted_content;
  sections = map section_of (select (λ (s : SectionEmbedding). s.cv_id == c.id) sections);
  created_at = c.created_at;
  updated_at = c.updated_at;
  deleted_at = c.deleted_at;
}

abbrev pub search_of : JobSearch → ExportJobSearch
search_of s = record {
  id = s.id;
  name = s.name;
  query = s.query;
  location = s.location;
  frequency = s.frequency;
  enabled = s.enabled;
  last_run_at = s.last_run_at;
  next_run_at = s.next_run_at;
  created_at = s.created_at;
  updated_at = s.updated_at;
  deleted_at = s.deleted_at;
}

abbrev job_of : Job → ExportJob
job_of j = record {
  id = j.id;
  provider = j.provider;
  title = j.title;
  company = j.company;
  location = j.location;
  posted_at = j.posted_at;
  details_url = j.details_url;
}

-- jobByID[id]
abbrev job_by_id : ℕ → Option Job → Option ExportJob
job_by_id id none = none
job_by_id id (some j) = some (job_of j)

abbrev score_of : EvaluationScore → ExportScore
score_of s = record { criterion = s.criterion; score = s.score; reason = s.reason }

abbrev evaluation_of : List EvaluationScore → Evaluation → ExportEvaluation
evaluation_of scores e = record {
  id = e.id;
  cv_id = e.cv_id;
  status = e.status;
  overall_score = e.overall_score;
  scores = map score_of (select (λ (s : EvaluationScore). s.evaluation_id == e.id) scores);
  strengths = e.strengths;
  missing_skills = e.missing_skills;
  summary = e.summary;
  error = e.error;
  model = e.model;
  prompt_version = e.prompt_version;
  created_at = e.created_at;
  updated_at = e.updated_at;
}

abbrev pub result_of :
    List Job → List Evaluation → List EvaluationScore → SearchResult → ExportResult
result_of jobs evals scores r = record {
  id = r.id;
  job_search_id = r.job_search_id;
  status = r.status;
  evaluation_status = r.evaluation_status;
  created_at = r.created_at;
  updated_at = r.updated_at;
  job = job_by_id r.job_id (first_where (λ (j : Job). j.id == r.job_id) jobs);
  evaluations =
      map (evaluation_of scores) (select (λ (e : Evaluation). e.search_result_id == r.id) evals);
}

abbrev pub key_of : ApiKey → ExportApiKey
key_of k = record {
  id = k.id;
  name = k.name;
  prefix = k.prefix;
  created_at = k.created_at;
  last_used_at = k.last_used_at;
  revoked_at = k.deleted_at;
}

abbrev pub suggestion_of : PortalSuggestion → ExportPortalSuggestion
suggestion_of p = record {
  id = p.id;
  name = p.name;
  url = p.url;
  note = p.note;
  status = p.status;
  created_at = p.created_at;
  updated_at = p.updated_at;
}

-- exportJobSearches
unfoldable pub export_job_searches : ℕ → Database → List ExportJobSearch
export_job_searches user db = map search_of (
    order_by (by_creation (λ (s : JobSearch). s.created_at) (λ s. s.id))
      (select (λ (s : JobSearch). s.user_id == user) db.searches))

-- exportAPIKeys
unfoldable pub export_api_keys : ℕ → Database → List ExportApiKey
export_api_keys user db = map key_of (
    order_by (by_creation (λ (k : ApiKey). k.created_at) (λ k. k.id))
      (select (λ (k : ApiKey). k.user_id == user) db.api_keys))

-- exportPortalSuggestions
unfoldable pub export_portal_suggestions : ℕ → Database → List ExportPortalSuggestion
export_portal_suggestions user db = map suggestion_of (
    order_by (by_creation (λ (p : PortalSuggestion). p.created_at) (λ p. p.id))
      (select (λ (p : PortalSuggestion). p.user_id == user) db.suggestions))

module _ (collates : Text → Text → Bool) where
  -- ORDER BY section_heading, id
  abbrev pub by_heading : SectionEmbedding → SectionEmbedding → Bool
  by_heading a b =
      collates a.section_heading b.section_heading
      || (text_eq a.section_heading b.section_heading && ltb a.id b.id)

  -- exportCVs
  unfoldable pub export_cvs : ℕ → Database → List ExportCv
  export_cvs user db =
      map (cv_of (order_by by_heading (select (owns_section user db) db.sections))) (
        order_by (by_creation (λ (c : Cv). c.created_at) (λ c. c.id))
          (select (λ (c : Cv). c.user_id == user) db.cvs))

  -- exportResults, of the results that were loaded
  abbrev pub export_loaded : Database → List SearchResult → List ExportResult
  export_loaded db results =
      let evals = order_by (by_creation (λ (e : Evaluation). e.created_at) (λ e. e.id)) (
        select
          (λ (e : Evaluation). id_in e.search_result_id (map (λ (r : SearchResult). r.id) results))
          db.store.evaluations) in
      let scores =
        order_by (λ (a b : EvaluationScore). collates a.criterion b.criterion)
          (select
            (λ (s : EvaluationScore). id_in s.evaluation_id (map (λ (e : Evaluation). e.id) evals))
            db.store.scores) in
      map (result_of db.jobs evals scores) results

  -- exportResults
  unfoldable pub export_results : ℕ → Database → List ExportResult
  export_results user db = export_loaded db (
      order_by (by_creation (λ (r : SearchResult). r.created_at) (λ r. r.id))
        (select (owns_result user db) db.results))

  abbrev pub exported : ℕ → ℕ → Database → Option User → Result AccountError Export
  exported now user db none = err AccountError.user_not_found
  exported now user db (some u) = ok (record {
    object = codes "account_export";
    exported_at = now;
    profile = profile_of u;
    cvs = export_cvs user db;
    job_searches = export_job_searches user db;
    results = export_results user db;
    api_keys = export_api_keys user db;
    portal_suggestions = export_portal_suggestions user db;
  })

  -- export, and Export, whose transaction reads one state of the tables
  unfoldable pub export : ℕ → ℕ → Database → Result AccountError Export
  export now user db =
      exported now user db
        (first_where (λ (u : User). u.id == user && is_live u.deleted_at) db.users)

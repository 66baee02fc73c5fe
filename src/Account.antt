-- ===== src/Account.antt =====
-- internal/services/account/account.go: the deletion of an account.
pub mod Ids
pub mod Gone
pub mod Intact
pub mod Late
pub mod Exports
pub mod Apart
use cv_evaluator.Prelude.{
  ℕ, Bool, true, false, not, ◌&&◌, ◌||◌, Option, none, some, List, [], ◌∷◌, map, ◌==◌,
  if◌then◌else◌,
}
use cv_evaluator.Prelude.Text.{Text, codes}
use cv_evaluator.Prelude.Table.{select, count_where, exists_where}
use cv_evaluator.Models.{
  Cv, SectionEmbedding, PortalSuggestion, Job, JobSearch, SearchResult, Evaluation, EvaluationScore,
}
use cv_evaluator.Pipeline.Evaluations.{Store}
use cv_evaluator.Pipeline.Failure.{Result, ok, err}
use cv_evaluator.ApiKeys.{ApiKey}
use cv_evaluator.Users.{User}

-- All tables of the database. A row that was soft-deleted is in its table still.
pub record Database : Type 0 where
  pub users : List User
  pub cvs : List Cv
  pub sections : List SectionEmbedding
  pub jobs : List Job
  pub searches : List JobSearch
  pub results : List SearchResult
  pub store : Store
  pub api_keys : List ApiKey
  pub suggestions : List PortalSuggestion

pub record Deleted : Type 0 where
  pub table : Text
  pub rows : ℕ

-- ErrUserNotFound
pub data AccountError : Type 0 where
  user_not_found : AccountError

-- id IN (...)
unfoldable pub id_in : ℕ → List ℕ → Bool
id_in id [] = false
id_in id (n ∷ ns) = n == id || id_in id ns

-- ownedCVs
unfoldable pub owned_cvs : ℕ → Database → List ℕ
owned_cvs user db = map (λ (c : Cv). c.id) (select (λ (c : Cv). c.user_id == user) db.cvs)

-- ownedSearches
unfoldable pub owned_searches : ℕ → Database → List ℕ
owned_searches user db =
    map (λ (s : JobSearch). s.id) (select (λ (s : JobSearch). s.user_id == user) db.searches)

-- user_id = ? OR job_search_id IN (ownedSearches)
unfoldable pub owns_result : ℕ → Database → SearchResult → Bool
owns_result user db r = r.user_id == user || id_in r.job_search_id (owned_searches user db)

-- ownedResults
unfoldable pub owned_results : ℕ → Database → List ℕ
owned_results user db = map (λ (r : SearchResult). r.id) (select (owns_result user db) db.results)

-- search_result_id IN (ownedResults) OR cv_id IN (ownedCVs)
unfoldable pub owns_evaluation : ℕ → Database → Evaluation → Bool
owns_evaluation user db e =
    id_in e.search_result_id (owned_results user db) || id_in e.cv_id (owned_cvs user db)

-- ownedEvaluations
unfoldable pub owned_evaluations : ℕ → Database → List ℕ
owned_evaluations user db =
    map (λ (e : Evaluation). e.id) (select (owns_evaluation user db) db.store.evaluations)

-- evaluation_id IN (ownedEvaluations)
unfoldable pub owns_score : ℕ → Database → EvaluationScore → Bool
owns_score user db s = id_in s.evaluation_id (owned_evaluations user db)

-- user_id = ? OR cv_id IN (ownedCVs)
unfoldable pub owns_section : ℕ → Database → SectionEmbedding → Bool
owns_section user db s = s.user_id == user || id_in s.cv_id (owned_cvs user db)

-- DELETE ... WHERE p: the rows that are left
abbrev pub without : {R : Type 0} → (R → Bool) → List R → List R
without p rows = select (λ r. not (p r)) rows

-- A step of Delete: how many rows went, and the tables
abbrev pub Step : Type 0
Step = Database → ℕ × Database

unfoldable pub delete_scores : ℕ → Step
delete_scores user db = (
  count_where (owns_score user db) db.store.scores,
  record db {
    store = record {
      evaluations = db.store.evaluations;
      scores = without (owns_score user db) db.store.scores;
    };
  },
)

unfoldable pub delete_evaluations : ℕ → Step
delete_evaluations user db = (
  count_where (owns_evaluation user db) db.store.evaluations,
  record db {
    store = record {
      evaluations = without (owns_evaluation user db) db.store.evaluations;
      scores = db.store.scores;
    };
  },
)

unfoldable pub delete_results : ℕ → Step
delete_results user db = (
  count_where (owns_result user db) db.results,
  record db { results = without (owns_result user db) db.results },
)

unfoldable pub delete_searches : ℕ → Step
delete_searches user db = (
  count_where (λ (s : JobSearch). s.user_id == user) db.searches,
  record db { searches = without (λ (s : JobSearch). s.user_id == user) db.searches },
)

unfoldable pub delete_sections : ℕ → Step
delete_sections user db = (
  count_where (owns_section user db) db.sections,
  record db { sections = without (owns_section user db) db.sections },
)

unfoldable pub delete_cvs : ℕ → Step
delete_cvs user db = (
  count_where (λ (c : Cv). c.user_id == user) db.cvs,
  record db { cvs = without (λ (c : Cv). c.user_id == user) db.cvs },
)

unfoldable pub delete_keys : ℕ → Step
delete_keys user db = (
  count_where (λ (k : ApiKey). k.user_id == user) db.api_keys,
  record db { api_keys = without (λ (k : ApiKey). k.user_id == user) db.api_keys },
)

unfoldable pub delete_suggestions : ℕ → Step
delete_suggestions user db = (
  count_where (λ (p : PortalSuggestion). p.user_id == user) db.suggestions,
  record db { suggestions = without (λ (p : PortalSuggestion). p.user_id == user) db.suggestions },
)

unfoldable pub delete_users : ℕ → Step
delete_users user db = (
  count_where (λ (u : User). u.id == user) db.users,
  record db { users = without (λ (u : User). u.id == user) db.users },
)

-- steps
abbrev pub steps : ℕ → List (Text × Step)
steps user =
    (codes "evaluation_scores", delete_scores user)
    ∷ (codes "evaluations", delete_evaluations user)
    ∷ (codes "search_results", delete_results user)
    ∷ (codes "job_searches", delete_searches user)
    ∷ (codes "section_embeddings", delete_sections user)
    ∷ (codes "cvs", delete_cvs user)
    ∷ (codes "api_keys", delete_keys user)
    ∷ (codes "portal_suggestions", delete_suggestions user)
    ∷ (codes "users", delete_users user)
    ∷ []

-- The loop over the steps
unfoldable pub run_steps : List (Text × Step) → Database → List Deleted × Database
run_steps [] db = ([], db)
run_steps ((table, step) ∷ rest) db =
    let (n, db') = step db in
    let (report, left) = run_steps rest db' in (record { table = table; rows = n } ∷ report, left)

abbrev reported : List Deleted × Database → Result AccountError (List Deleted) × Database
reported (report, db) = (ok report, db)

-- Delete: the report or the error, and the tables
unfoldable pub delete : ℕ → Database → Result AccountError (List Deleted) × Database
delete user db =
    if exists_where (λ (u : User). u.id == user) db.users
    then reported (run_steps (steps user) db)
    else (err AccountError.user_not_found, db)

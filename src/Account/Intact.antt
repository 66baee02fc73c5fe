-- ===== src/Account/Intact.antt =====
-- The references between the tables, when an account is deleted.
use cv_evaluator.Prelude.{Option, none, some, In, ℕ, ◌≡◌, true, ◌==◌, All, List}
use cv_evaluator.Prelude.Table.{exists_where}
use cv_evaluator.Models.{
  JobSearch, Cv, PortalSuggestion, SectionEmbedding, SearchResult, Evaluation, EvaluationScore,
}
use cv_evaluator.ApiKeys.{ApiKey}
use cv_evaluator.Users.{User}
use cv_evaluator.Account.{Database}

-- Whether the table has a row with the id.
abbrev Has : {R : Type 0} → (R → ℕ) → List R → ℕ → Type 0
Has key rows n = exists_where (λ x. key x == n) rows ≡ true

abbrev HasUser : Database → ℕ → Type 0
HasUser db = Has (λ (u : User). u.id) db.users

abbrev HasCv : Database → ℕ → Type 0
HasCv db = Has (λ (c : Cv). c.id) db.cvs

-- The evaluation that a result refers to is stored, for a result of the same user and search, and
-- with a CV of the same user.
abbrev pub HasOwnEvaluation : Database → ℕ → ℕ → Option ℕ → Type 0
HasOwnEvaluation db user search none = Unit
HasOwnEvaluation db user search (some id) =
    (e : Evaluation) × In e db.store.evaluations
    × (e.id ≡ id)
    × ((r : SearchResult)
        → In r db.results
        → r.id ≡ e.search_result_id
        → (r.user_id ≡ user) × (r.job_search_id ≡ search))
    × ((c : Cv) → In c db.cvs → c.id ≡ e.cv_id → c.user_id ≡ user)

-- Every reference of a row is to a row that exists.
pub record IsIntact (db : Database) : Type 0 where
  pub cvs : All (λ (c : Cv). HasUser db c.user_id) db.cvs
  pub searches : All (λ (s : JobSearch). HasUser db s.user_id) db.searches
  pub api_keys : All (λ (k : ApiKey). HasUser db k.user_id) db.api_keys
  pub suggestions : All (λ (p : PortalSuggestion). HasUser db p.user_id) db.suggestions
  pub sections : All (λ (s : SectionEmbedding). HasUser db s.user_id × HasCv db s.cv_id) db.sections
  pub results :
      All
        (λ (r : SearchResult).
          HasUser db r.user_id × Has (λ (s : JobSearch). s.id) db.searches r.job_search_id)
        db.results
  pub evaluated :
      All
        (λ (r : SearchResult). HasOwnEvaluation db r.user_id r.job_search_id r.evaluation_id)
        db.results
  pub evaluations :
      All
        (λ (e : Evaluation).
          Has (λ (r : SearchResult). r.id) db.results e.search_result_id × HasCv db e.cv_id)
        db.store.evaluations
  pub scores :
      All
        (λ (s : EvaluationScore).
          Has (λ (e : Evaluation). e.id) db.store.evaluations s.evaluation_id)
        db.store.scores

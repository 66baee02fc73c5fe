-- ===== src/Account/Gone.antt =====
-- What is left after an account was deleted.
use mathlib.Core.Path.{subst}
use cv_evaluator.Prelude.{
  ℕ, ◌≡◌, ◌≢◌, ◌↔◌, ◌⊎◌, refl, sym, Bool, true, false, ◌||◌, ap, ◌∙◌, if◌then◌else◌, ◌==◌, In,
  arith, List, inl, inr,
}
use cv_evaluator.Prelude.Table.{exists_where}
use cv_evaluator.Models.{
  JobSearch, Cv, PortalSuggestion, SectionEmbedding, SearchResult, Evaluation, EvaluationScore,
}
use cv_evaluator.ApiKeys.{ApiKey}
use cv_evaluator.Users.{User}
use cv_evaluator.Account.Ids.{id_in-false, select-id_in, In-without}
use cv_evaluator.Pipeline.Failure.{ok, err}
use cv_evaluator.Account.{
  id_in, Deleted, AccountError, Database, delete, steps, run_steps, reported, without, owns_score,
  owns_evaluation, owns_result, owns_section, delete_scores, delete_evaluations, delete_results,
  delete_searches, delete_sections, delete_cvs, delete_keys, delete_suggestions, delete_users,
  owned_evaluations, owned_results, owned_searches, owned_cvs,
}

-- The tables without the rows that belong to the user at the beginning.
unfoldable pub remaining : ℕ → Database → Database
remaining user db = record {
  users = without (λ (u : User). u.id == user) db.users;
  cvs = without (λ (c : Cv). c.user_id == user) db.cvs;
  sections = without (owns_section user db) db.sections;
  jobs = db.jobs;
  searches = without (λ (s : JobSearch). s.user_id == user) db.searches;
  results = without (owns_result user db) db.results;
  store = record {
    evaluations = without (owns_evaluation user db) db.store.evaluations;
    scores = without (owns_score user db) db.store.scores;
  };
  api_keys = without (λ (k : ApiKey). k.user_id == user) db.api_keys;
  suggestions = without (λ (p : PortalSuggestion). p.user_id == user) db.suggestions;
}

steps-remaining : (user : ℕ) (db : Database) → (run_steps (steps user) db).1 ≡ remaining user db
unfolding run_steps remaining delete_scores delete_evaluations delete_results delete_searches
    delete_sections delete_cvs delete_keys delete_suggestions delete_users owns_score
    owns_evaluation owns_result owns_section owned_evaluations owned_results owned_searches
    owned_cvs
steps-remaining user db = refl

-- A CV, a result, an evaluation, a score and a section that are not the user's, nor of anything
-- that is.
abbrev pub ApartCv : ℕ → Database → ℕ → Type 0
ApartCv user db id = (c : Cv) → In c db.cvs → id ≡ c.id → c.user_id ≢ user

abbrev pub ApartResult : ℕ → Database → SearchResult → Type 0
ApartResult user db r =
    (r.user_id ≢ user)
    × ((s : JobSearch) → In s db.searches → r.job_search_id ≡ s.id → s.user_id ≢ user)

abbrev pub ApartEvaluation : ℕ → Database → Evaluation → Type 0
ApartEvaluation user db e =
    ((r : SearchResult) → In r db.results → e.search_result_id ≡ r.id → ApartResult user db r)
    × ApartCv user db e.cv_id

abbrev pub ApartScore : ℕ → Database → EvaluationScore → Type 0
ApartScore user db s =
    (e : Evaluation)
    → In e db.store.evaluations
    → s.evaluation_id ≡ e.id
    → ApartEvaluation user db e

abbrev pub ApartSection : ℕ → Database → SectionEmbedding → Type 0
ApartSection user db s = (s.user_id ≢ user) × ApartCv user db s.cv_id

-- Of each table exactly the rows are left that are apart from the user.
pub record IsForgotten (user : ℕ) (before left : Database) : Type 0 where
  pub users : (u : User) → In u left.users ↔ (In u before.users × (u.id ≢ user))
  pub cvs : (c : Cv) → In c left.cvs ↔ (In c before.cvs × (c.user_id ≢ user))
  pub sections :
      (s : SectionEmbedding)
      → In s left.sections ↔ (In s before.sections × ApartSection user before s)
  pub jobs : left.jobs ≡ before.jobs
  pub searches : (s : JobSearch) → In s left.searches ↔ (In s before.searches × (s.user_id ≢ user))
  pub results :
      (r : SearchResult) → In r left.results ↔ (In r before.results × ApartResult user before r)
  pub evaluations :
      (e : Evaluation)
      → In e left.store.evaluations
        ↔ (In e before.store.evaluations × ApartEvaluation user before e)
  pub scores :
      (s : EvaluationScore)
      → In s left.store.scores ↔ (In s before.store.scores × ApartScore user before s)
  pub api_keys : (k : ApiKey) → In k left.api_keys ↔ (In k before.api_keys × (k.user_id ≢ user))
  pub suggestions :
      (p : PortalSuggestion)
      → In p left.suggestions ↔ (In p before.suggestions × (p.user_id ≢ user))

eq_test : (a b : ℕ) → (a == b) ≡ true → ¬ (a ≢ b)
eq_test a b t n = n (ground arith)

pub ne_test : (a b : ℕ) → (a == b) ≡ false → a ≢ b
ne_test a b e = ground arith

pub or_false : (a b : Bool) → (a || b) ≡ false → (a ≡ false) × (b ≡ false)
or_false a b h = (ground arith, ground arith)

or_true : (a b : Bool) → (a || b) ≡ true → (a ≡ true) ⊎ (b ≡ true)
or_true true b h = inl refl
or_true false b h = inr h

module _ (user : ℕ) (db : Database) where
  apart-cv : (id : ℕ) → id_in id (owned_cvs user db) ≡ false → ApartCv user db id
  unfolding owned_cvs
  apart-cv id f =
      id_in-false (λ (c : Cv). c.id) (λ (c : Cv). c.user_id == user) (λ c. c.user_id ≢ user) id
        db.cvs (λ c g. ne_test c.user_id user g) f

  owned-cv : (id : ℕ) → id_in id (owned_cvs user db) ≡ true → ¬ ApartCv user db id
  unfolding owned_cvs
  owned-cv id t apart =
      let (c, i, u, e) =
        select-id_in (λ (c : Cv). c.id) (λ (c : Cv). c.user_id == user) id db.cvs t in
      eq_test c.user_id user u (apart c i (sym e))

  apart-result : (r : SearchResult) → owns_result user db r ≡ false → ApartResult user db r
  unfolding owns_result owned_searches
  apart-result r f =
      let (a, b) =
        or_false (r.user_id == user) (id_in r.job_search_id (owned_searches user db)) f in
      (
        ne_test r.user_id user a,
        id_in-false (λ (s : JobSearch). s.id) (λ (s : JobSearch). s.user_id == user)
            (λ s. s.user_id ≢ user) r.job_search_id db.searches (λ s g. ne_test s.user_id user g) b,
      )

  pub owned-result : (r : SearchResult) → owns_result user db r ≡ true → ¬ ApartResult user db r
  unfolding owns_result owned_searches
  owned-result r t apart =
      elim (or_true (r.user_id == user) (id_in r.job_search_id (owned_searches user db)) t) [
        | inl a ↦ eq_test r.user_id user a apart.0
        | inr b ↦
            let (s, i, u, e) =
              select-id_in (λ (s : JobSearch). s.id) (λ (s : JobSearch). s.user_id == user)
                r.job_search_id db.searches b in
            eq_test s.user_id user u (apart.1 s i (sym e))
      ]

  apart-evaluation :
      (e : Evaluation) → owns_evaluation user db e ≡ false → ApartEvaluation user db e
  unfolding owns_evaluation owned_results
  apart-evaluation e f =
      let (a, b) =
        or_false (id_in e.search_result_id (owned_results user db))
          (id_in e.cv_id (owned_cvs user db)) f in
      (
        id_in-false (λ (r : SearchResult). r.id) (owns_result user db) (ApartResult user db)
            e.search_result_id db.results apart-result a,
        apart-cv e.cv_id b,
      )

  pub owned-evaluation :
      (e : Evaluation) → owns_evaluation user db e ≡ true → ¬ ApartEvaluation user db e
  unfolding owns_evaluation owned_results
  owned-evaluation e t apart =
      elim (or_true (id_in e.search_result_id (owned_results user db))
        (id_in e.cv_id (owned_cvs user db)) t) [
          | inl a ↦
              let (r, i, u, q) =
                select-id_in (λ (r : SearchResult). r.id) (owns_result user db) e.search_result_id
                  db.results a in
              owned-result r u (apart.0 r i (sym q))
          | inr b ↦ owned-cv e.cv_id b apart.1
        ]

  apart-score : (s : EvaluationScore) → owns_score user db s ≡ false → ApartScore user db s
  unfolding owns_score owned_evaluations
  apart-score s f =
      id_in-false (λ (e : Evaluation). e.id) (owns_evaluation user db) (ApartEvaluation user db)
        s.evaluation_id db.store.evaluations apart-evaluation f

  pub owned-score : (s : EvaluationScore) → owns_score user db s ≡ true → ¬ ApartScore user db s
  unfolding owns_score owned_evaluations
  owned-score s t apart =
      let (e, i, u, q) =
        select-id_in (λ (e : Evaluation). e.id) (owns_evaluation user db) s.evaluation_id
          db.store.evaluations t in
      owned-evaluation e u (apart e i (sym q))

  apart-section : (s : SectionEmbedding) → owns_section user db s ≡ false → ApartSection user db s
  unfolding owns_section
  apart-section s f =
      let (a, b) = or_false (s.user_id == user) (id_in s.cv_id (owned_cvs user db)) f in
      (ne_test s.user_id user a, apart-cv s.cv_id b)

  pub owned-section :
      (s : SectionEmbedding) → owns_section user db s ≡ true → ¬ ApartSection user db s
  unfolding owns_section
  owned-section s t apart =
      elim (or_true (s.user_id == user) (id_in s.cv_id (owned_cvs user db)) t) [
        | inl a ↦ eq_test s.user_id user a apart.0
        | inr b ↦ owned-cv s.cv_id b apart.1
      ]

  -- The rows of a table with a column for the user.
  In-others :
      {R : Type 0} (column : R → ℕ) (rows : List R) (x : R)
      → In x (without (λ y. column y == user) rows) ↔ (In x rows × (column x ≢ user))
  In-others column rows =
      In-without (λ y. column y == user) (λ y. column y ≢ user) rows
        (λ y f. ne_test (column y) user f) (λ y t. eq_test (column y) user t)

  remaining-IsForgotten : IsForgotten user db (remaining user db)
  unfolding remaining
  remaining-IsForgotten = record {
    users = In-others (λ (u : User). u.id) db.users;
    cvs = In-others (λ (c : Cv). c.user_id) db.cvs;
    sections =
        In-without (owns_section user db) (ApartSection user db) db.sections apart-section
          owned-section;
    jobs = refl;
    searches = In-others (λ (s : JobSearch). s.user_id) db.searches;
    results =
        In-without (owns_result user db) (ApartResult user db) db.results apart-result owned-result;
    evaluations =
        In-without (owns_evaluation user db) (ApartEvaluation user db) db.store.evaluations
          apart-evaluation owned-evaluation;
    scores =
        In-without (owns_score user db) (ApartScore user db) db.store.scores apart-score
          owned-score;
    api_keys = In-others (λ (k : ApiKey). k.user_id) db.api_keys;
    suggestions = In-others (λ (p : PortalSuggestion). p.user_id) db.suggestions;
  }

-- The deletion of an account that exists.
pub delete-remaining :
    (user : ℕ) (db : Database)
    → exists_where (λ (u : User). u.id == user) db.users ≡ true
    → delete user db ≡ (ok (run_steps (steps user) db).0, remaining user db)
unfolding delete
delete-remaining user db there =
    ap
      (λ b.
        if b then reported (run_steps (steps user) db) else (err AccountError.user_not_found, db))
      there
    ∙ ap (λ (left : Database). (ok (run_steps (steps user) db).0, left)) (steps-remaining user db)

-- The deletion of an account that exists succeeds, and leaves of each table exactly the rows that
-- are not the user's and do not belong to a search, a CV, a result or an evaluation that is; jobs
-- are never deleted.
pub delete_lem :
    (user : ℕ) (db : Database)
    → exists_where (λ (u : User). u.id == user) db.users ≡ true
    → ((report : List Deleted) × ((delete user db).0 ≡ ok report))
      × IsForgotten user db (delete user db).1
delete_lem user db there =
    let e = delete-remaining user db there in
    (
      ((run_steps (steps user) db).0, ap (λ x. x.0) e),
      subst (λ x. IsForgotten user db x.1) (sym e) (remaining-IsForgotten user db),
    )

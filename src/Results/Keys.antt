-- ===== src/Results/Keys.antt =====
-- The primary keys of the tables, and of the rows that the queries join.
use cv_evaluator.Prelude.{
  ℕ, ◌≤◌, ◌≡◌, ◌≢◌, refl, Option, none, some, List, [], ◌∷◌, arith, inl, inr, Bool-cases, ==_iff,
  ◌==◌, length, All, All-map,
}
use cv_evaluator.Prelude.Table.{select, first_where}
use cv_evaluator.Prelude.Joins.{
  join, All-join, All-left_join, join-IsDistinct, left_join-IsDistinct, length-left_join,
  select_one,
}
use cv_evaluator.Prelude.Keyset.{IsDistinct, select-IsDistinct, All-select}
use cv_evaluator.Models.{SearchResult, JobSearch, Job, Evaluation}
use cv_evaluator.Results.Params.{ListParams}
use cv_evaluator.Results.Rows.{
  Database, Row, ListRow, visible, filtered, with_evaluations, matches, is_search_of, is_job_of,
  to_row, is_evaluation_of, to_list_row,
}
use cv_evaluator.Results.Lists.{is_owned}

-- No id is twice in a table.
pub record IsKeyed (db : Database) : Type 0 where
  pub searches : IsDistinct (λ (s : JobSearch). s.id) db.searches
  pub jobs : IsDistinct (λ (j : Job). j.id) db.jobs
  pub results : IsDistinct (λ (r : SearchResult). r.id) db.results
  pub evaluations : IsDistinct (λ (e : Evaluation). e.id) db.store.evaluations

abbrev pub row_id : ListRow → ℕ
row_id x = x.row.result.id

module _ (db : Database) (keyed : IsKeyed db) where
  one_search : (r : SearchResult) → length (select (is_search_of r) db.searches) ≤ 1
  one_search r =
      select_one (λ (s : JobSearch). s.id) (is_search_of r) r.job_search_id (λ s h. ground arith)
        db.searches keyed.searches

  one_job : (x : SearchResult × JobSearch) → length (select (is_job_of x) db.jobs) ≤ 1
  one_job (r, s) =
      select_one (λ (j : Job). j.id) (is_job_of (r, s)) r.job_id (λ j h. ground arith) db.jobs
        keyed.jobs

  one_evaluation : (x : Row) → length (select (is_evaluation_of x) db.store.evaluations) ≤ 1
  one_evaluation x = by_id x.result.evaluation_id refl
    where
      by_id :
          (o : Option ℕ)
          → x.result.evaluation_id ≡ o
          → length (select (is_evaluation_of x) db.store.evaluations) ≤ 1
      by_id none h =
          select_one (λ (e : Evaluation). e.id) (is_evaluation_of x) 0 (λ e t. ground arith)
            db.store.evaluations keyed.evaluations
      by_id (some n) h =
          select_one (λ (e : Evaluation). e.id) (is_evaluation_of x) n (λ e t. ground arith)
            db.store.evaluations keyed.evaluations

  pub visible-IsDistinct : (user : ℕ) → IsDistinct (λ (x : Row). x.result.id) (visible user db)
  unfolding visible
  visible-IsDistinct user =
      select-IsDistinct (λ (x : Row). x.result.id) (λ (x : Row). x.result.user_id == user)
        (join is_job_of to_row (join is_search_of (λ r s. (r, s)) db.results db.searches) db.jobs)
        (join-IsDistinct (λ x. x.0.id) (λ (x : Row). x.result.id) is_job_of to_row
          (join is_search_of (λ r s. (r, s)) db.results db.searches) db.jobs (λ a b. refl) one_job
          (join-IsDistinct (λ (r : SearchResult). r.id) (λ x. x.0.id) is_search_of (λ r s. (r, s))
            db.results db.searches (λ a b. refl) one_search keyed.results))

  pub listed-IsDistinct :
      (user : ℕ) (p : ListParams)
      → IsDistinct row_id (with_evaluations db.store.evaluations (filtered user p db))
  unfolding with_evaluations filtered
  listed-IsDistinct user p =
      left_join-IsDistinct (λ (x : Row). x.result.id) row_id is_evaluation_of to_list_row
        (filtered user p db) db.store.evaluations (λ a b. refl) one_evaluation
        (select-IsDistinct (λ (x : Row). x.result.id)
          (λ (x : Row). matches p db.store.scores x.result) (visible user db)
          (visible-IsDistinct user))

  pub length-listed :
      (user : ℕ) (p : ListParams)
      → length (with_evaluations db.store.evaluations (filtered user p db))
        ≡ length (filtered user p db)
  unfolding with_evaluations
  length-listed user p =
      length-left_join is_evaluation_of to_list_row (filtered user p db) db.store.evaluations
        one_evaluation

-- A row that is found under its id, as its owner's.
abbrev pub IsFound : ℕ → List SearchResult → SearchResult → Type 0
IsFound user results r = first_where (is_owned user r.id) results ≡ some r

all-IsFound :
    (user : ℕ) (rows : List SearchResult)
    → IsDistinct (λ (r : SearchResult). r.id) rows
    → All (λ r. r.user_id ≡ user → IsFound user rows r) rows
unfolding first_where
all-IsFound user [] d = tt
all-IsFound user (x ∷ rows) d = (
  λ e. ground arith,
  All-map (λ (y : SearchResult). (y.id ≢ x.id) × (y.user_id ≡ user → IsFound user rows y))
      (λ y. y.user_id ≡ user → IsFound user (x ∷ rows) y) rows
      (λ y h e. let f = h.1 e in ground arith)
      (both (λ y. y.id ≢ x.id) (λ y. y.user_id ≡ user → IsFound user rows y) rows d.0
        (all-IsFound user rows d.1)),
)
  where
    both :
        (P Q : SearchResult → Type 0) (l : List SearchResult)
        → All P l
        → All Q l
        → All (λ y. P y × Q y) l
    both P Q [] a b = tt
    both P Q (y ∷ l) a b = ((a.0, b.0), both P Q l a.1 b.1)

-- The rows that the query keeps for a user are that user's.
owned :
    (user : ℕ) (results : List SearchResult) (rows : List Row)
    → All (λ (x : Row). x.result.user_id ≡ user → IsFound user results x.result) rows
    → All
        (λ (x : Row). IsFound user results x.result)
        (select (λ (x : Row). x.result.user_id == user) rows)
unfolding select
owned user results [] h = tt
owned user results (x ∷ rows) h = elim (Bool-cases (x.result.user_id == user)) [
  | inl t ↦ rw t (h.0 ((==_iff x.result.user_id user).0 t), owned user results rows h.1)
  | inr f ↦ rw f (owned user results rows h.1)
]

-- Every row that a user sees is a result of the user's.
pub visible-IsFound :
    (db : Database) (user : ℕ)
    → IsDistinct (λ (r : SearchResult). r.id) db.results
    → All (λ (x : Row). IsFound user db.results x.result) (visible user db)
unfolding visible
visible-IsFound db user d =
    let Found = λ (r : SearchResult). r.user_id ≡ user → IsFound user db.results r in
    let pairs = join is_search_of (λ r s. (r, s)) db.results db.searches in
    let rows = join is_job_of to_row pairs db.jobs in
    owned user db.results rows (
      All-join (λ x. Found x.0) (λ (x : Row). Found x.result) is_job_of to_row pairs db.jobs
        (λ a b h. h)
        (All-join Found (λ x. Found x.0) is_search_of (λ r s. (r, s)) db.results db.searches
          (λ a b h. h) (all-IsFound user db.results d)))

pub listed-IsFound :
    (db : Database) (user : ℕ) (p : ListParams)
    → IsDistinct (λ (r : SearchResult). r.id) db.results
    → All
        (λ (x : ListRow). IsFound user db.results x.row.result)
        (with_evaluations db.store.evaluations (filtered user p db))
unfolding with_evaluations filtered
listed-IsFound db user p d =
    let Mine = λ (x : Row). IsFound user db.results x.result in
    All-left_join Mine (λ (x : ListRow). Mine x.row) is_evaluation_of to_list_row
      (filtered user p db) db.store.evaluations (λ a b h. h)
      (All-select Mine (λ (x : Row). matches p db.store.scores x.result) (visible user db)
        (visible-IsFound db user d))

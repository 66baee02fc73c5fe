-- ===== src/Account/Late.antt =====
-- A worker of the pipeline that ends after the account was deleted.
use mathlib.Core.Path.{subst}
use cv_evaluator.Prelude.{
  ℕ, ◌≡◌, ◌≢◌, refl, sym, ap, ◌∙◌, Bool, true, false, ◌||◌, ◌&&◌, some, List, [], ◌∷◌, ◌==◌, All,
  In, arith, inl, inr, Bool-cases,
}
use cv_evaluator.Prelude.Table.{select, exists_where, count_where}
use cv_evaluator.Prelude.Keyset.{IsDistinct}
use cv_evaluator.Models.{JobSearch, SearchResult, is_live}
use cv_evaluator.Users.{User}
use cv_evaluator.Pipeline.Config.{Config}
use cv_evaluator.Pipeline.Searches.{Search, has_search_id}
use cv_evaluator.Pipeline.Postings.{upsert_search_result}
use cv_evaluator.Pipeline.Evaluations.{lock_search_result}
use cv_evaluator.Pipeline.Evaluate.{Evaluated, record_result}
use cv_evaluator.Pipeline.Failure.{Result}
use cv_evaluator.Account.{
  AccountError, Deleted, Database, delete, without, owns_result, owned_searches, id_in,
}
use cv_evaluator.Account.Gone.{remaining, delete-remaining}

module _ {R : Type 0} (key : R → ℕ) (p q : R → Bool) (n : ℕ)
    (keyed : (x : R) → q x ≡ true → key x ≡ n) where
  no_rows : (rows : List R) → All (λ x. key x ≢ n) rows → count_where q (without p rows) ≡ 0
  unfolding count_where select
  no_rows [] h = refl
  no_rows (x ∷ rows) h = elim (Bool-cases (q x)) [
    | inl t ↦ absurd (h.0 (keyed x t))
    | inr f ↦ ground (arith, f, no_rows rows h.1)
  ]

  -- The row with an id is gone.
  count-gone :
      (x : R) (rows : List R)
      → IsDistinct key rows
      → In x rows
      → key x ≡ n
      → p x ≡ true
      → count_where q (without p rows) ≡ 0
  unfolding count_where select
  count-gone x [] d i e t = refl
  count-gone x (y ∷ rows) d (inl s) e t =
      let t' : p y ≡ true = ap p (sym s) ∙ t in
      rw t' (no_rows rows (subst (λ m. All (λ z. key z ≢ m) rows) (ap key (sym s) ∙ e) d.0))
  count-gone x (y ∷ rows) d (inr i) e t =
      ground (arith, count-gone x rows d.1 i e t, other y (apart rows d.0 i))
    where
      apart : (l : List R) → All (λ z. key z ≢ key y) l → In x l → key y ≢ n
      apart [] h j g = elim j [ ]
      apart (z ∷ l) h (inl s) g = h.0 (ap key (sym s) ∙ e ∙ sym g)
      apart (z ∷ l) h (inr j) g = apart l h.1 j g

      other : (z : R) → key z ≢ n → q z ≡ false
      other z ne = elim (Bool-cases (q z)) [ inl u ↦ absurd (ne (keyed z u)) | inr f ↦ f ]

  exists-gone : (rows : List R) → count_where q rows ≡ 0 → exists_where q rows ≡ false
  unfolding count_where exists_where
  exists-gone [] h = refl
  exists-gone (x ∷ rows) h = ground (arith, exists-gone rows)

module _ (user : ℕ) (db : Database) where
  record_result-gone :
      (r : SearchResult)
      → IsDistinct (λ (x : SearchResult). x.id) db.results
      → In r db.results
      → r.user_id ≡ user
      → (c : Config) (now new_id : ℕ) (claimed : SearchResult) (o : Evaluated) (cancelled : Bool)
      → claimed.id ≡ r.id
      → record_result c now new_id claimed o cancelled
          (record { results = (remaining user db).results; store = (remaining user db).store })
        ≡ some (record { results = (remaining user db).results; store = (remaining user db).store })
  unfolding record_result lock_search_result remaining owns_result
  record_result-gone r d i u c now new_id claimed o cancelled e = rw (
      count-gone (λ (x : SearchResult). x.id) (owns_result user db) (λ x. x.id == claimed.id)
        claimed.id (λ x t. test x.id t) r db.results d i (sym e)
        (owned (r.user_id == user) (is_user r.user_id u)))
    where
      test : (n : ℕ) → (n == claimed.id) ≡ true → n ≡ claimed.id
      test n t = ground arith

      is_user : (n : ℕ) → n ≡ user → (n == user) ≡ true
      is_user n h = ground arith

      owned : (a : Bool) → a ≡ true → (a || id_in r.job_search_id (owned_searches user db)) ≡ true
      owned a h = ground arith

  upsert-gone :
      (s : JobSearch)
      → IsDistinct (λ (x : JobSearch). x.id) db.searches
      → In s db.searches
      → s.user_id ≡ user
      → (now new_id : ℕ) (run : Search) (job : ℕ) → run.id ≡ s.id
      → upsert_search_result new_id now run job
          (remaining user db).searches
          (remaining user db).results
        ≡ (remaining user db).results
  unfolding upsert_search_result remaining
  upsert-gone s d i u now new_id run job e = rw (
      exists-gone (λ (x : JobSearch). x.id) mine (has_search_id run.id) run.id
        (λ x t. test x.id (is_live x.deleted_at) t) (without mine db.searches)
        (count-gone (λ (x : JobSearch). x.id) mine (has_search_id run.id) run.id
          (λ x t. test x.id (is_live x.deleted_at) t) s db.searches d i (sym e)
          (is_user s.user_id u)))
    where
      mine : JobSearch → Bool
      mine x = x.user_id == user

      test : (n : ℕ) (b : Bool) → (n == run.id && b) ≡ true → n ≡ run.id
      test n b t = ground arith

      is_user : (n : ℕ) → n ≡ user → (n == user) ≡ true
      is_user n h = ground arith

-- What a worker does after the deletion of an account for it is lost: the evaluation of one of its
-- results, whatever came of it, changes neither the results nor the evaluations and scores, and a
-- job that one of its searches found is not linked to it by a result (the job itself, which belongs
-- to no user, may be stored). No two results and no two searches had the same id.
pub delete-late :
    (user : ℕ) (db : Database)
    → exists_where (λ (u : User). u.id == user) db.users ≡ true
    → IsDistinct (λ (x : SearchResult). x.id) db.results
    → IsDistinct (λ (x : JobSearch). x.id) db.searches
    → (r : SearchResult) → In r db.results
    → r.user_id ≡ user
    → (s : JobSearch) → In s db.searches
    → s.user_id ≡ user
    → (c : Config) (now new_id : ℕ) (claimed : SearchResult) (o : Evaluated) (cancelled : Bool)
    → claimed.id ≡ r.id
    → (run : Search) (job : ℕ) → run.id ≡ s.id
    → let left = (delete user db).1 in
      (record_result c now new_id claimed o cancelled
          (record { results = left.results; store = left.store })
        ≡ some (record { results = left.results; store = left.store }))
      × (upsert_search_result new_id now run job left.searches left.results ≡ left.results)
delete-late user db there rs ss r ri ru s si su c now new_id claimed o cancelled ce run job re =
    subst
      (λ (x : Result AccountError (List Deleted) × Database).
        (record_result c now new_id claimed o cancelled
            (record { results = x.1.results; store = x.1.store })
          ≡ some (record { results = x.1.results; store = x.1.store }))
        × (upsert_search_result new_id now run job x.1.searches x.1.results ≡ x.1.results))
      (sym (delete-remaining user db there))
      (
        record_result-gone user db r rs ri ru c now new_id claimed o cancelled ce,
        upsert-gone user db s ss si su now new_id run job re,
      )

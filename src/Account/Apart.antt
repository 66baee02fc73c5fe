-- ===== src/Account/Apart.antt =====
-- The export of one account when another is deleted.
use mathlib.Core.Path.{ap₂}
use cv_evaluator.Prelude.{
  ℕ, ◌≡◌, ◌≢◌, refl, sym, ap, ◌∙◌, Bool, true, false, ◌||◌, ◌&&◌, Option, none, some, List, [], ◌∷◌,
  map, ◌==◌, In, arith, inl, inr, ◌⊎◌, Bool-cases, if◌then◌else◌,
}
use cv_evaluator.Prelude.Text.{Text, codes}
use cv_evaluator.Prelude.Table.{In-select, select, order_by, placed, exists_where, first_where}
use cv_evaluator.Models.{
  Cv, SectionEmbedding, PortalSuggestion, JobSearch, SearchResult, Evaluation, EvaluationScore,
  is_live,
}
use cv_evaluator.Pipeline.Failure.{ok}
use cv_evaluator.ApiKeys.{ApiKey}
use cv_evaluator.Users.{User}
use cv_evaluator.Account.{
  Database, delete, without, id_in, owns_result, owns_section, owns_evaluation, owns_score,
  owned_searches, owned_cvs,
}
use cv_evaluator.Account.Gone.{
  remaining, delete-remaining, ApartResult, ApartEvaluation, ApartScore, ApartSection, owned-result,
  owned-evaluation, owned-score, owned-section,
}
use cv_evaluator.Account.Exports.{
  export, exported, export_loaded, export_cvs, export_results, export_job_searches, export_api_keys,
  export_portal_suggestions, by_creation, by_heading, cv_of, result_of, search_of, key_of,
  suggestion_of, profile_of,
}

module _ {R : Type 0} where
  -- A DELETE of rows that are not chosen does not change the choice.
  select-without :
      (p q : R → Bool) (rows : List R)
      → ((x : R) → In x rows → p x ≡ true → q x ≡ false)
      → select p (without q rows) ≡ select p rows
  unfolding select
  select-without p q [] h = refl
  select-without p q (x ∷ rows) h =
      let rest = select-without p q rows (λ y i. h y (inr i)) in
      elim (Bool-cases (p x)) [
        | inl t ↦ rw (h x (inl refl) t, t) (ap (λ l. x ∷ l) rest)
        | inr f ↦ ground (arith, f, rest)
      ]

  first-without :
      (p q : R → Bool) (rows : List R)
      → ((x : R) → p x ≡ true → q x ≡ false)
      → first_where p (without q rows) ≡ first_where p rows
  unfolding select first_where
  first-without p q [] h = refl
  first-without p q (x ∷ rows) h = elim (Bool-cases (p x)) [
    | inl t ↦ rw (h x t, t)
    | inr f ↦ ground (arith, f, first-without p q rows h)
  ]

  In-placed :
      (before : R → R → Bool) (x r : R) (l : List R) → In x (placed before r l) → (x ≡ r) ⊎ In x l
  In-placed before x r [] i = i
  In-placed before x r (s ∷ l) i = by_test (before s r) (In-placed before x r l) i
    where
      deeper : (x ≡ r) ⊎ In x l → (x ≡ r) ⊎ In x (s ∷ l)
      deeper (inl e) = inl e
      deeper (inr m) = inr (inr m)

      by_test :
          (b : Bool)
          → (In x (placed before r l) → (x ≡ r) ⊎ In x l)
          → In x (if b then s ∷ placed before r l else r ∷ s ∷ l)
          → (x ≡ r) ⊎ In x (s ∷ l)
      by_test true rest (inl e) = inr (inl e)
      by_test true rest (inr m) = deeper (rest m)
      by_test false rest m = m

  In-order_by :
      (before : R → R → Bool) (x : R) (rows : List R) → In x (order_by before rows) → In x rows
  unfolding order_by
  In-order_by before x [] i = i
  In-order_by before x (r ∷ rows) i = elim (In-placed before x r (order_by before rows) i) [
    | inl e ↦ inl e
    | inr j ↦ inr (In-order_by before x rows j)
  ]

  id_in-map :
      (key : R → ℕ) (n : ℕ) (rows : List R)
      → id_in n (map key rows) ≡ true
      → (x : R) × In x rows × (key x ≡ n)
  unfolding id_in
  id_in-map key n [] h = absurd (ground arith)
  id_in-map key n (x ∷ rows) h = elim (Bool-cases (key x == n)) [
    | inl t ↦ (x, inl refl, ground arith)
    | inr f ↦ let (y, i, e) = id_in-map key n rows (ground (arith, f)) in (y, inr i, e)
  ]

-- What the export of one user reads, does not belong to the other.
pub record IsSeparate (user other : ℕ) (db : Database) : Type 0 where
  pub results :
      (r : SearchResult) → In r db.results → owns_result user db r ≡ true → ApartResult other db r
  pub evaluations :
      (e : Evaluation)
      → In e db.store.evaluations
      → (r : SearchResult) → In r db.results
      → owns_result user db r ≡ true
      → e.search_result_id ≡ r.id
      → ApartEvaluation other db e
  pub scores :
      (s : EvaluationScore)
      → In s db.store.scores
      → (e : Evaluation) → In e db.store.evaluations
      → (r : SearchResult) → In r db.results
      → owns_result user db r ≡ true
      → e.search_result_id ≡ r.id
      → s.evaluation_id ≡ e.id
      → ApartScore other db s
  pub sections :
      (s : SectionEmbedding)
      → In s db.sections
      → owns_section user db s ≡ true
      → ApartSection other db s

module _ (user other : ℕ) (ne : user ≢ other) (db : Database)
    (separate : IsSeparate user other db) where
  -- A table with a column for the user.
  select-others :
      {R : Type 0} (column : R → ℕ) (rows : List R)
      → select (λ x. column x == user) (without (λ x. column x == other) rows)
        ≡ select (λ x. column x == user) rows
  select-others column rows =
      select-without (λ x. column x == user) (λ x. column x == other) rows
        (λ x i t. differs (column x) t)
    where
      differs : (n : ℕ) → (n == user) ≡ true → (n == other) ≡ false
      differs n t = ground (arith, ne)

  false_of : (b : Bool) → ¬ (b ≡ true) → b ≡ false
  false_of true n = absurd (n refl)
  false_of false n = refl

  owned_searches-left : owned_searches user (remaining other db) ≡ owned_searches user db
  unfolding owned_searches remaining
  owned_searches-left =
      ap (map (λ (s : JobSearch). s.id)) (select-others (λ (s : JobSearch). s.user_id) db.searches)

  owned_cvs-left : owned_cvs user (remaining other db) ≡ owned_cvs user db
  unfolding owned_cvs remaining
  owned_cvs-left = ap (map (λ (c : Cv). c.id)) (select-others (λ (c : Cv). c.user_id) db.cvs)

  results-left :
      select (owns_result user (remaining other db)) (remaining other db).results
      ≡ select (owns_result user db) db.results
  unfolding owns_result remaining
  results-left =
      ap
        (λ ids.
          select (λ (r : SearchResult). r.user_id == user || id_in r.job_search_id ids)
            (without (owns_result other db) db.results))
        owned_searches-left
      ∙ select-without (owns_result user db) (owns_result other db) db.results (λ r i t.
        false_of (owns_result other db r) (λ u. owned-result other db r u (separate.results r i t)))

  sections-left :
      select (owns_section user (remaining other db)) (remaining other db).sections
      ≡ select (owns_section user db) db.sections
  unfolding owns_section remaining
  sections-left =
      ap
        (λ ids.
          select (λ (s : SectionEmbedding). s.user_id == user || id_in s.cv_id ids)
            (without (owns_section other db) db.sections))
        owned_cvs-left
      ∙ select-without (owns_section user db) (owns_section other db) db.sections (λ s i t.
        false_of (owns_section other db s)
          (λ u. owned-section other db s u (separate.sections s i t)))

  searches-left : export_job_searches user (remaining other db) ≡ export_job_searches user db
  unfolding export_job_searches remaining
  searches-left =
      ap
        (λ rows.
          map search_of (order_by (by_creation (λ (s : JobSearch). s.created_at) (λ s. s.id)) rows))
        (select-others (λ (s : JobSearch). s.user_id) db.searches)

  keys-left : export_api_keys user (remaining other db) ≡ export_api_keys user db
  unfolding export_api_keys remaining
  keys-left =
      ap
        (λ rows.
          map key_of (order_by (by_creation (λ (k : ApiKey). k.created_at) (λ k. k.id)) rows))
        (select-others (λ (k : ApiKey). k.user_id) db.api_keys)

  suggestions-left :
      export_portal_suggestions user (remaining other db) ≡ export_portal_suggestions user db
  unfolding export_portal_suggestions remaining
  suggestions-left =
      ap
        (λ rows.
          map suggestion_of
            (order_by (by_creation (λ (p : PortalSuggestion). p.created_at) (λ p. p.id)) rows))
        (select-others (λ (p : PortalSuggestion). p.user_id) db.suggestions)

  module _ (collates : Text → Text → Bool) where
    abbrev loaded : List SearchResult
    loaded =
        order_by (by_creation (λ (r : SearchResult). r.created_at) (λ r. r.id))
          (select (owns_result user db) db.results)

    abbrev is_loaded : Evaluation → Bool
    is_loaded e = id_in e.search_result_id (map (λ (r : SearchResult). r.id) loaded)

    abbrev ordered : List Evaluation → List Evaluation
    ordered = order_by (by_creation (λ (e : Evaluation). e.created_at) (λ e. e.id))

    abbrev evals : List Evaluation
    evals = ordered (select is_loaded db.store.evaluations)

    abbrev is_scored : List Evaluation → EvaluationScore → Bool
    is_scored es s = id_in s.evaluation_id (map (λ (e : Evaluation). e.id) es)

    -- The result of an evaluation that is exported.
    result-loaded :
        (e : Evaluation)
        → is_loaded e ≡ true
        → (r : SearchResult) × In r db.results
          × (owns_result user db r ≡ true)
          × (e.search_result_id ≡ r.id)
    result-loaded e t =
        let (r, i, q) = id_in-map (λ (r : SearchResult). r.id) e.search_result_id loaded t in
        let (j, u) = In-select (owns_result user db) r db.results (
          In-order_by (by_creation (λ (r : SearchResult). r.created_at) (λ r. r.id)) r
            (select (owns_result user db) db.results) i) in
        (r, j, u, sym q)

    evals-left :
        select is_loaded (without (owns_evaluation other db) db.store.evaluations)
        ≡ select is_loaded db.store.evaluations
    evals-left = select-without is_loaded (owns_evaluation other db) db.store.evaluations (λ e i t.
        let (r, j, u, q) = result-loaded e t in
        false_of (owns_evaluation other db e)
          (λ v. owned-evaluation other db e v (separate.evaluations e i r j u q)))

    scores-left :
        select (is_scored evals) (without (owns_score other db) db.store.scores)
        ≡ select (is_scored evals) db.store.scores
    scores-left = select-without (is_scored evals) (owns_score other db) db.store.scores (λ s i t.
        let (e, j, q) = id_in-map (λ (e : Evaluation). e.id) s.evaluation_id evals t in
        let (k, l) = In-select is_loaded e db.store.evaluations (
          In-order_by (by_creation (λ (e : Evaluation). e.created_at) (λ e. e.id)) e
            (select is_loaded db.store.evaluations) j) in
        let (r, m, u, w) = result-loaded e l in
        false_of (owns_score other db s)
          (λ v. owned-score other db s v (separate.scores s i e k r m u w (sym q))))

    export_loaded-left :
        export_loaded collates (remaining other db) loaded ≡ export_loaded collates db loaded
    unfolding remaining
    export_loaded-left =
        ap
          (λ es.
            map
              (result_of db.jobs (ordered es) (
                order_by (λ (a b : EvaluationScore). collates a.criterion b.criterion)
                  (select (is_scored (ordered es))
                    (without (owns_score other db) db.store.scores))))
              loaded)
          evals-left
        ∙ ap
            (λ sc.
              map
                (result_of db.jobs evals
                  (order_by (λ (a b : EvaluationScore). collates a.criterion b.criterion) sc))
                loaded)
            scores-left

    export_results-left :
        export_results collates user (remaining other db) ≡ export_results collates user db
    unfolding export_results
    export_results-left =
        ap
          (λ rs.
            export_loaded collates (remaining other db)
              (order_by (by_creation (λ (r : SearchResult). r.created_at) (λ r. r.id)) rs))
          results-left
        ∙ export_loaded-left

    export_cvs-left : export_cvs collates user (remaining other db) ≡ export_cvs collates user db
    unfolding export_cvs remaining
    export_cvs-left =
        ap₂
          (λ ss cs.
            map (cv_of (order_by (by_heading collates) ss))
              (order_by (by_creation (λ (c : Cv). c.created_at) (λ c. c.id)) cs))
          sections-left (select-others (λ (c : Cv). c.user_id) db.cvs)

    users-left :
        first_where (λ (u : User). u.id == user && is_live u.deleted_at) (remaining other db).users
        ≡ first_where (λ (u : User). u.id == user && is_live u.deleted_at) db.users
    unfolding remaining
    users-left =
        first-without (λ (u : User). u.id == user && is_live u.deleted_at) (λ u. u.id == other)
          db.users (λ u t. differs u.id (is_live u.deleted_at) t)
      where
        differs : (n : ℕ) (b : Bool) → (n == user && b) ≡ true → (n == other) ≡ false
        differs n b t = ground (arith, ne)

    export-remaining :
        (now : ℕ) → export collates now user (remaining other db) ≡ export collates now user db
    unfolding export
    export-remaining now =
        ap (exported collates now user (remaining other db)) users-left
        ∙ of_user (first_where (λ (u : User). u.id == user && is_live u.deleted_at) db.users)
      where
        of_user :
            (o : Option User)
            → exported collates now user (remaining other db) o ≡ exported collates now user db o
        of_user none = refl
        of_user (some u) = λ i. ok (record {
          object = codes "account_export";
          exported_at = now;
          profile = profile_of u;
          cvs = export_cvs-left i;
          job_searches = searches-left i;
          results = export_results-left i;
          api_keys = keys-left i;
          portal_suggestions = suggestions-left i;
        })

-- The deletion of an account changes nothing in the export of another, if nothing that the export
-- reads belongs to the account that is deleted.
pub export-delete :
    (collates : Text → Text → Bool) (now user other : ℕ) (db : Database)
    → user ≢ other
    → exists_where (λ (u : User). u.id == other) db.users ≡ true
    → IsSeparate user other db
    → export collates now user (delete other db).1 ≡ export collates now user db
export-delete collates now user other db ne there separate =
    ap (λ x. export collates now user x.1) (delete-remaining other db there)
    ∙ export-remaining user other ne db separate collates now

-- ===== src/Pipeline/Postings/Stored.antt =====
-- The postings of a portal's run are stored, each once.
use mathlib.Core.Path.{subst}
use cv_evaluator.Prelude.{
  ℕ, ◌≡◌, refl, ap, sym, ◌∙◌, true, false, ◌&&◌, ◌||◌, Option, none, some, List, ◌∷◌, is_empty,
  arith, Bool-cases, ◌⊎◌, inl, inr,
}
use cv_evaluator.Prelude.Text.{Text, text_eq, text_eq_refl, text_eq→eq, trim_space, trim_space-nil}
use cv_evaluator.Prelude.Table.{exists_where, first_where, first-exists}
use cv_evaluator.Models.{Job, JobSearch, SearchResult, is_live}
use cv_evaluator.Pipeline.Failure.{StepError, Result, ok, err}
use cv_evaluator.Pipeline.Searches.{Search, has_search_id}
use cv_evaluator.Pipeline.Postings.{
  JobPost, to_model, has_key, find_by_key, existing, upsert_job, links, new_result,
  upsert_search_result, Tables, StoreEnv, store_upserted, store_post,
}

-- A table after an upsert: as before, or with one row more, whose key was free.
abbrev pub Upserted : Text → Text → List Job → Job → List Job → Type 0
Upserted provider id jobs new jobs' =
    (jobs' ≡ jobs) ⊎ ((jobs' ≡ new ∷ jobs) × (exists_where (has_key provider id) jobs ≡ false))

existing-ok :
    (jobs jobs' : List Job) (o : Option Job) (j : Job)
    → existing jobs o ≡ (ok j, jobs')
    → (o ≡ some j) × (jobs ≡ jobs')
existing-ok jobs jobs' none j h = absurd (ground arith)
existing-ok jobs jobs' (some i) j h = ground arith

abbrev inserted : Job → List Job → Result StepError Job × List Job
inserted j jobs = (ok j, j ∷ jobs)

renamed-ok :
    (provider id : Text) (n j : Job) (jobs jobs' : List Job)
    → inserted n jobs ≡ (ok j, jobs')
    → find_by_key provider id (n ∷ jobs) ≡ some n
    → find_by_key provider id jobs' ≡ some j
renamed-ok provider id n j jobs jobs' q found = ground arith

find-to_model :
    (id now : ℕ) (post : JobPost) (jobs : List Job)
    → find_by_key post.provider post.id (to_model id now post ∷ jobs) ≡ some (to_model id now post)
unfolding find_by_key first_where to_model
find-to_model id now post jobs = rw (text_eq_refl post.provider, text_eq_refl post.id) refl

pub upsert_job-ok :
    (id now : ℕ) (post : JobPost) (jobs jobs' : List Job) (j : Job)
    → upsert_job id now post jobs ≡ (ok j, jobs')
    → (is_empty post.provider ≡ false)
      × (find_by_key post.provider post.id jobs' ≡ some j)
      × Upserted post.provider post.id jobs (to_model id now post) jobs'
unfolding upsert_job find_by_key first_where to_model
upsert_job-ok id now post jobs jobs' j h =
    elim (Bool-cases (is_empty post.provider || is_empty post.id)) [
      | inl t ↦ absurd (ground arith)
      | inr filled ↦ elim (Bool-cases (exists_where (has_key post.provider post.id) jobs)) [
        | inl there ↦
            let q : existing jobs (find_by_key post.provider post.id jobs) ≡ (ok j, jobs') =
              ground arith in
            let (found, same) =
              existing-ok jobs jobs' (find_by_key post.provider post.id jobs) j q in
            (
              ground arith,
              subst (λ x. find_by_key post.provider post.id x ≡ some j) same found,
              inl (sym same),
            )
        | inr free ↦
            let q : inserted (to_model id now post) jobs ≡ (ok j, jobs') = ground arith in
            (
              ground arith,
              renamed-ok post.provider post.id (to_model id now post) j jobs jobs' q
                  (find-to_model id now post jobs),
              inr (ap (λ (x : Result StepError Job × List Job). x.1) (sym q), free),
            )
      ]
    ]

exists_upsert :
    (id now : ℕ) (s : Search) (job : ℕ) (searches : List JobSearch) (results : List SearchResult)
    → exists_where (has_search_id s.id) searches ≡ true
    → exists_where (links s.id job) (upsert_search_result id now s job searches results) ≡ true
unfolding upsert_search_result exists_where new_result
exists_upsert id now s job searches results h = ground arith

exists_kept :
    (id now : ℕ) (s : Search) (job n : ℕ) (searches : List JobSearch) (results : List SearchResult)
    → exists_where (links s.id n) results ≡ true
    → exists_where (links s.id n) (upsert_search_result id now s job searches results) ≡ true
unfolding upsert_search_result exists_where
exists_kept id now s job n searches results h = ground arith

store_upserted-ok :
    (v : StoreEnv) (s : Search) (k : ℕ) (t t' : Tables) (u : Result StepError Job × List Job)
    → store_upserted v s k t u ≡ (none, t')
    → (j : Job) × (jobs : List Job) × (u ≡ (ok j, jobs))
      × (record t {
        jobs = jobs;
        results = upsert_search_result (v.new_result_id k) v.now s j.id t.searches t.results;
      }
          ≡ t')
store_upserted-ok v s k t t' (err e, jobs) h = absurd (ground arith)
store_upserted-ok v s k t t' (ok j, jobs) h = (j, jobs, refl, ground arith)

store_post-ok :
    (v : StoreEnv) (s : Search) (provider : Text) (k : ℕ) (post : JobPost) (t t' : Tables)
    → store_post v s provider k post t ≡ (none, t')
    → ((is_empty (trim_space post.id) ≡ true) × (t ≡ t'))
      ⊎ ((is_empty (trim_space post.id) ≡ false)
          × ((j : Job) × (jobs : List Job) × (upsert_job
                  (v.new_job_id k)
                  v.now
                  (record post { provider = provider })
                  t.jobs
                ≡ (ok j, jobs))
              × (record t {
                jobs = jobs;
                results =
                    upsert_search_result (v.new_result_id k) v.now s j.id t.searches t.results;
              }
                  ≡ t')))
unfolding store_post
store_post-ok v s provider k post t t' h =
    let u = upsert_job (v.new_job_id k) v.now (record post { provider = provider }) t.jobs in
    elim (Bool-cases (is_empty (trim_space post.id))) [
      | inl blank ↦ inl (blank, ground arith)
      | inr filled ↦
          let q : store_upserted v s k t u ≡ (none, t') = ground arith in
          inr (filled, store_upserted-ok v s k t t' u q)
    ]

-- The posting has its job, which is not deleted, and the search has a result for it, if the search
-- itself is not deleted.
abbrev pub IsStored : Text → Search → Tables → JobPost → Type 0
IsStored provider s t post =
    (is_empty (trim_space post.id) ≡ true)
    ⊎ ((is_empty provider ≡ false)
        × (is_empty (trim_space post.id) ≡ false)
        × ((j : Job) × (find_by_key provider post.id t.jobs ≡ some j)
            × (exists_where (has_search_id s.id) t.searches ≡ true
                → exists_where (links s.id j.id) t.results ≡ true)))

module _ (v : StoreEnv) (s : Search) (provider : Text) (k : ℕ) (post : JobPost)
    (t t' : Tables) where
  pub store_post-IsStored :
      store_post v s provider k post t ≡ (none, t') → IsStored provider s t' post
  store_post-IsStored h = elim (store_post-ok v s provider k post t t' h) [
    | inl (blank, _) ↦ inl blank
    | inr (filled, (j, jobs, e, q)) ↦
        let (named, found, _) =
          upsert_job-ok (v.new_job_id k) v.now (record post { provider = provider }) t.jobs jobs j
            e in
        inr (
          named,
          filled,
          (
            j,
            subst (λ (x : Tables). find_by_key provider post.id x.jobs ≡ some j) q found,
            subst
                (λ (x : Tables).
                  exists_where (has_search_id s.id) x.searches ≡ true
                  → exists_where (links s.id j.id) x.results ≡ true)
                q (exists_upsert (v.new_result_id k) v.now s j.id t.searches t.results),
          ),
        )
  ]

find_kept :
    (id now : ℕ) (post q : JobPost) (jobs : List Job) (j : Job)
    → exists_where (has_key post.provider post.id) jobs ≡ false
    → find_by_key post.provider q.id jobs ≡ some j
    → find_by_key post.provider q.id (to_model id now post ∷ jobs) ≡ some j
unfolding find_by_key first_where to_model
find_kept id now post q jobs j free found = elim (Bool-cases (text_eq post.id q.id)) [
  | inl t ↦
      let there : exists_where (has_key post.provider q.id) jobs ≡ true =
        first-exists (λ i. has_key post.provider q.id i && is_live i.deleted_at)
          (has_key post.provider q.id) jobs j found (λ i h. ground arith) in
      absurd (
        clash (
          sym free
          ∙ subst (λ x. exists_where (has_key post.provider x) jobs ≡ true)
              (sym (text_eq→eq post.id q.id t)) there))
  | inr f ↦ rw (f, text_eq_refl post.provider) found
]
  where
    clash : false ≡ true → ⊥
    clash h = cc

module _ (v : StoreEnv) (s : Search) (provider : Text) (k : ℕ) (post : JobPost)
    (t t' : Tables) where
  -- What is stored stays so.
  pub store_post-kept :
      (q : JobPost)
      → store_post v s provider k post t ≡ (none, t')
      → IsStored provider s t q
      → IsStored provider s t' q
  store_post-kept q h (inl blank) = inl blank
  store_post-kept q h (inr (named, filled, (i, found, linked))) =
      elim (store_post-ok v s provider k post t t' h) [
        | inl (_, same) ↦
            subst (λ (x : Tables). IsStored provider s x q) same
              (inr (named, filled, (i, found, linked)))
        | inr (_, (j, jobs, e, same)) ↦
            let post' = record post { provider = provider } in
            let (_, _, up) = upsert_job-ok (v.new_job_id k) v.now post' t.jobs jobs j e in
            let found' : find_by_key provider q.id jobs ≡ some i = elim up [
              | inl old ↦ subst (λ x. find_by_key provider q.id x ≡ some i) (sym old) found
              | inr (new, free) ↦
                  subst (λ x. find_by_key provider q.id x ≡ some i) (sym new)
                    (find_kept (v.new_job_id k) v.now post' q t.jobs i free found)
            ] in
            subst (λ (x : Tables). IsStored provider s x q) same
              (inr (
                named,
                filled,
                (
                  i,
                  found',
                  λ live.
                      exists_kept (v.new_result_id k) v.now s j.id i.id t.searches t.results
                        (linked live),
                ),
              ))
      ]

  -- A posting that is stored is not stored again.
  pub store_post-again :
      v.job_error k ≡ none
      → v.result_error k ≡ none
      → IsStored provider s t post
      → store_post v s provider k post t ≡ (none, t)
  unfolding store_post upsert_job upsert_search_result
  store_post-again no_error no_error' (inl blank) = rw blank refl
  store_post-again no_error no_error' (inr (named, filled, (j, found, linked))) =
      let there : exists_where (has_key provider post.id) t.jobs ≡ true =
        unfold find_by_key in
        first-exists (λ i. has_key provider post.id i && is_live i.deleted_at)
          (has_key provider post.id) t.jobs j found (λ i h. ground arith) in
      let with_id : is_empty post.id ≡ false = ground (arith, trim_space-nil post.id) in
      elim (Bool-cases (exists_where (has_search_id s.id) t.searches)) [
        | inl live ↦
            rw (filled, no_error, named, with_id, there, found, no_error', live, linked live) refl
        | inr gone ↦ rw (filled, no_error, named, with_id, there, found, no_error', gone) refl
      ]

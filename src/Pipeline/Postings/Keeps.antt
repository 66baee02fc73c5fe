-- ===== src/Pipeline/Postings/Keeps.antt =====
-- Storing postings changes no row that is there, and keeps the unique index of the jobs.
use mathlib.Core.Path.{subst}
use cv_evaluator.Prelude.{
  ℕ, ◌+◌, ◌≤◌, ◌≡◌, refl, sym, ◌∙◌, Bool, false, Option, none, some, List, [], ◌∷◌, is_empty, arith,
  Bool-cases, ◌⊎◌, inl, inr, In,
}
use cv_evaluator.Prelude.Text.{Text, text_eq→eq, trim_space}
use cv_evaluator.Prelude.Table.{exists_where, count_where}
use cv_evaluator.Models.{Job, SearchResult}
use cv_evaluator.Pipeline.Failure.{ForeignError, StepError, Result, ok, err}
use cv_evaluator.Pipeline.Claim.Spec.{Claimable}
use cv_evaluator.Pipeline.Embed.Row.{IsValid}
use cv_evaluator.Pipeline.Searches.{Search}
use cv_evaluator.Pipeline.Postings.{
  JobPost, to_model, has_key, find_by_key, existing, upsert_job, upsert_search_result, Tables,
  StoreEnv, Stored, store_result, store_upserted, store_job, store_post, store_posts,
}
use cv_evaluator.Pipeline.Postings.Repeats.{continued, store_posts-cons}

-- No two jobs have the same provider and the same id there (the unique index).
abbrev pub HasUniqueKeys : List Job → Type 0
HasUniqueKeys jobs = (provider id : Text) → count_where (has_key provider id) jobs ≤ 1

-- The tables `u` have the rows of `t`, and maybe more of the jobs and results.
pub record Extends (t u : Tables) : Type 0 where
  pub searches : u.searches ≡ t.searches
  pub jobs : (j : Job) → In j t.jobs → In j u.jobs
  pub results : (r : SearchResult) → In r t.results → In r u.results
  pub unique : HasUniqueKeys t.jobs → HasUniqueKeys u.jobs

count_none :
    (p : Job → Bool) (jobs : List Job) → exists_where p jobs ≡ false → count_where p jobs ≡ 0
unfolding exists_where count_where
count_none p [] h = refl
count_none p (j ∷ jobs) h = ground (arith, count_none p jobs)

unique-to_model :
    (id now : ℕ) (post : JobPost) (jobs : List Job)
    → exists_where (has_key post.provider post.id) jobs ≡ false
    → HasUniqueKeys jobs
    → HasUniqueKeys (to_model id now post ∷ jobs)
unfolding count_where to_model
unique-to_model id now post jobs free unique provider job_id = ground (
  arith,
  unique provider job_id,
  text_eq→eq post.provider provider,
  text_eq→eq post.id job_id,
  count_none (has_key post.provider post.id) jobs free,
)

jobs-existing : (jobs : List Job) (o : Option Job) → (existing jobs o).1 ≡ jobs
jobs-existing jobs none = refl
jobs-existing jobs (some j) = refl

module _ (id now : ℕ) (post : JobPost) (jobs : List Job) where
  abbrev upserted : List Job
  upserted = (upsert_job id now post jobs).1

  upsert_job-cases :
      (upserted ≡ jobs)
      ⊎ ((upserted ≡ to_model id now post ∷ jobs)
          × (exists_where (has_key post.provider post.id) jobs ≡ false))
  unfolding upsert_job
  upsert_job-cases = ground (arith, jobs-existing jobs (find_by_key post.provider post.id jobs))

Extends-refl : (t : Tables) → Extends t t
Extends-refl t = record { searches = refl; jobs = λ j i. i; results = λ r i. i; unique = λ u. u }

Extends-trans : (t u w : Tables) → Extends t u → Extends u w → Extends t w
Extends-trans t u w a b = record {
  searches = b.searches ∙ a.searches;
  jobs = λ j i. b.jobs j (a.jobs j i);
  results = λ r i. b.results r (a.results r i);
  unique = λ q. b.unique (a.unique q);
}

jobs-Extends :
    (id now : ℕ) (post : JobPost) (t : Tables)
    → Extends t (record t { jobs = (upsert_job id now post t.jobs).1 })
jobs-Extends id now post t = elim (upsert_job-cases id now post t.jobs) [
  | inl same ↦ subst (λ x. Extends t (record t { jobs = x })) (sym same) (Extends-refl t)
  | inr (new, free) ↦
      subst (λ x. Extends t (record t { jobs = x })) (sym new)
        (record {
          searches = refl;
          jobs = λ j i. inr i;
          results = λ r i. i;
          unique = unique-to_model id now post t.jobs free;
        })
]

results-Extends :
    (id now : ℕ) (s : Search) (job : ℕ) (t : Tables)
    → Extends t (record t { results = upsert_search_result id now s job t.searches t.results })
unfolding upsert_search_result
results-Extends id now s job t = record {
  searches = refl;
  jobs = λ j i. i;
  results = λ r i. ground arith;
  unique = λ u. u;
}

module _ (v : StoreEnv) (s : Search) (k : ℕ) where
  store_result-Extends :
      (j : Job) (t : Tables) (e : Option ForeignError) → Extends t (store_result v s k j t e).1
  store_result-Extends j t (some e) = Extends-refl t
  store_result-Extends j t none = results-Extends (v.new_result_id k) v.now s j.id t

  store_upserted-Extends :
      (t : Tables) (u : Result StepError Job × List Job)
      → Extends t (record t { jobs = u.1 })
      → Extends t (store_upserted v s k t u).1
  store_upserted-Extends t (err e, jobs) h = h
  store_upserted-Extends t (ok j, jobs) h =
      let t' = record t { jobs = jobs } in
      Extends-trans t t' (store_result v s k j t' (v.result_error k)).1 h
        (store_result-Extends j t' (v.result_error k))

  store_job-Extends :
      (post : JobPost) (t : Tables) (e : Option ForeignError)
      → Extends t (store_job v s k post t e).1
  store_job-Extends post t (some e) = Extends-refl t
  store_job-Extends post t none =
      store_upserted-Extends t (upsert_job (v.new_job_id k) v.now post t.jobs)
        (jobs-Extends (v.new_job_id k) v.now post t)

store_post-Extends :
    (v : StoreEnv) (s : Search) (provider : Text) (k : ℕ) (post : JobPost) (t : Tables)
    → Extends t (store_post v s provider k post t).1
unfolding store_post
store_post-Extends v s provider k post t = elim (Bool-cases (is_empty (trim_space post.id))) [
  | inl blank ↦ rw blank (Extends-refl t)
  | inr filled ↦
      rw filled (store_job-Extends v s k (record post { provider = provider }) t (v.job_error k))
]

-- Storing the postings of a portal, whether or not it ends in an error, keeps every job and every
-- search result as it was, with its state and its evaluation, changes no saved search, and never
-- stores a second job under the same provider and id.
pub store_posts-Extends :
    (v : StoreEnv) (s : Search) (provider : Text) (k : ℕ) (posts : List JobPost) (t : Tables)
    → Extends t (store_posts v s provider k posts t).1
unfolding store_posts
store_posts-Extends v s provider k [] t = Extends-refl t
store_posts-Extends v s provider k (post ∷ posts) t =
    let first = store_post v s provider k post t in
    subst (λ (x : Stored). Extends t x.1) (sym (store_posts-cons v s provider k post posts t))
      (next first (store_post-Extends v s provider k post t)
        (store_posts-Extends v s provider (k + 1) posts first.1))
  where
    next :
        (r : Stored)
        → Extends t r.1
        → Extends r.1 (store_posts v s provider (k + 1) posts r.1).1
        → Extends t (continued v s provider k posts r).1
    next (none, u) a b = Extends-trans t u (store_posts v s provider (k + 1) posts u).1 a b
    next (some x, u) a b = a

-- A posting that is stored is a valid job, and may be claimed at once.
pub to_model-IsValid :
    (id now : ℕ) (post : JobPost)
    → IsValid (to_model id now post) × ((t stale : ℕ) → Claimable t stale (to_model id now post))
unfolding to_model
to_model-IsValid id now post = (
  record {
    embedded_has_vector = ground arith;
    described_has_detail = ground arith;
    processing_is_claimed = ground arith;
    claimed_is_processing = ground arith;
    failed_was_tried = ground arith;
  },
  λ t stale. ground arith,
)

-- ===== src/Pipeline/Postings/Repeats.antt =====
-- A portal's run stores all its postings, and a second run with the same postings changes nothing.
use mathlib.Core.Path.{subst}
use cv_evaluator.Prelude.{ℕ, ◌+◌, ◌≡◌, refl, ap, sym, ◌∙◌, none, some, List, [], ◌∷◌, arith, All}
use cv_evaluator.Prelude.Text.{Text}
use cv_evaluator.Pipeline.Searches.{Search}
use cv_evaluator.Pipeline.Postings.{JobPost, Tables, StoreEnv, Stored, store_post, store_posts}
use cv_evaluator.Pipeline.Postings.Stored.{
  IsStored, store_post-IsStored, store_post-kept, store_post-again,
}

-- The loop after the first posting
abbrev pub continued : StoreEnv → Search → Text → ℕ → List JobPost → Stored → Stored
continued v s provider k posts (some x, t) = (some x, t)
continued v s provider k posts (none, t) = store_posts v s provider (k + 1) posts t

continued-ok :
    (v : StoreEnv) (s : Search) (provider : Text) (k : ℕ) (posts : List JobPost) (r : Stored)
    (t' : Tables)
    → continued v s provider k posts r ≡ (none, t')
    → (r ≡ (none, r.1)) × (store_posts v s provider (k + 1) posts r.1 ≡ (none, t'))
continued-ok v s provider k posts (some x, t) t' h = absurd (ground arith)
continued-ok v s provider k posts (none, t) t' h = (refl, h)

pub store_posts-cons :
    (v : StoreEnv) (s : Search) (provider : Text) (k : ℕ) (post : JobPost) (posts : List JobPost)
    (t : Tables)
    → store_posts v s provider k (post ∷ posts) t
      ≡ continued v s provider k posts (store_post v s provider k post t)
unfolding store_posts
store_posts-cons v s provider k post posts t = by_case (store_post v s provider k post t)
  where
    by_case :
        (r : Stored)
        → elim r.0 [ some x ↦ (some x, r.1) | none ↦ store_posts v s provider (k + 1) posts r.1 ]
          ≡ continued v s provider k posts r
    by_case (some x, t') = refl
    by_case (none, t') = refl

module _ (v : StoreEnv) (s : Search) (provider : Text) where
  store_posts-kept :
      (k : ℕ) (posts : List JobPost) (t t' : Tables) (q : JobPost)
      → store_posts v s provider k posts t ≡ (none, t')
      → IsStored provider s t q
      → IsStored provider s t' q
  unfolding store_posts
  store_posts-kept k [] t t' q h i =
      subst (λ (x : Tables). IsStored provider s x q) (ground arith) i
  store_posts-kept k (post ∷ posts) t t' q h i =
      let first = store_post v s provider k post t in
      let (ok, rest) =
        continued-ok v s provider k posts first t'
          (sym (store_posts-cons v s provider k post posts t) ∙ h) in
      store_posts-kept (k + 1) posts first.1 t' q rest
        (store_post-kept v s provider k post t first.1 q ok i)

  -- When all postings of a portal's run are stored without an error, each of them whose id is not
  -- blank has its job, under its portal's name and its id, and the search has a result for that job,
  -- unless the search was deleted.
  pub store_posts-IsStored :
      (k : ℕ) (posts : List JobPost) (t t' : Tables)
      → store_posts v s provider k posts t ≡ (none, t')
      → All (IsStored provider s t') posts
  store_posts-IsStored k [] t t' h = tt
  store_posts-IsStored k (post ∷ posts) t t' h =
      let first = store_post v s provider k post t in
      let (ok, rest) =
        continued-ok v s provider k posts first t'
          (sym (store_posts-cons v s provider k post posts t) ∙ h) in
      (
        store_posts-kept (k + 1) posts first.1 t' post rest
            (store_post-IsStored v s provider k post t first.1 ok),
        store_posts-IsStored (k + 1) posts first.1 t' rest,
      )

-- None of the statements fails.
abbrev pub HasNoErrors : StoreEnv → Type 0
HasNoErrors v = (k : ℕ) → (v.job_error k ≡ none) × (v.result_error k ≡ none)

store_posts-again :
    (v : StoreEnv) (s : Search) (provider : Text) (k : ℕ) (posts : List JobPost) (t : Tables)
    → HasNoErrors v
    → All (IsStored provider s t) posts
    → store_posts v s provider k posts t ≡ (none, t)
unfolding store_posts
store_posts-again v s provider k [] t no_errors i = refl
store_posts-again v s provider k (post ∷ posts) t no_errors i =
    store_posts-cons v s provider k post posts t
    ∙ ap (continued v s provider k posts)
        (store_post-again v s provider k post t t (no_errors k).0 (no_errors k).1 i.0)
    ∙ store_posts-again v s provider (k + 1) posts t no_errors i.1

-- A portal may be searched again: when all its postings were stored, storing the same postings once
-- more, whenever and with whatever new ids, changes no table, if no statement fails.
pub store_posts-twice :
    (v w : StoreEnv) (s : Search) (provider : Text) (k n : ℕ) (posts : List JobPost) (t t' : Tables)
    → HasNoErrors w
    → store_posts v s provider k posts t ≡ (none, t')
    → store_posts w s provider n posts t' ≡ (none, t')
store_posts-twice v w s provider k n posts t t' no_errors h =
    store_posts-again w s provider n posts t' no_errors
      (store_posts-IsStored v s provider k posts t t' h)

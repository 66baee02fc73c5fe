-- ===== src/Results/Updates.antt =====
-- What a change of the results' rows makes of the rows that a user sees.
use mathlib.Core.Path.{ap₂, fun_ext}
use mathlib.Core.List.{map-append}
use cv_evaluator.Prelude.{
  ℕ, ◌≡◌, refl, sym, ap, ◌∙◌, Bool, true, ◌&&◌, Option, none, some, List, [], ◌∷◌, ◌++◌, map, arith,
  inl, inr, Bool-cases, ◌==◌, if◌then◌else◌,
}
use cv_evaluator.Prelude.Table.{select, first_where, update_where}
use cv_evaluator.Prelude.Joins.{join}
use cv_evaluator.Models.{SearchResult, JobSearch, is_live}
use cv_evaluator.Results.Rows.{Database, Row, visible, is_search_of, is_job_of, to_row}
use cv_evaluator.Results.Changes.{with_results}

-- The user's row with the id
abbrev pub users_row : ℕ → ℕ → SearchResult → Bool
users_row user id r = r.id == id && r.user_id == user

-- An UPDATE, as a change of every row.
abbrev pub changed : {R : Type 0} → (R → Bool) → (R → R) → R → R
changed p f r = if p r then f r else r

pub update_where-map :
    {R : Type 0} (p : R → Bool) (f : R → R) (rs : List R)
    → update_where p f rs ≡ map (changed p f) rs
unfolding update_where
update_where-map p f [] = refl
update_where-map p f (r ∷ rs) = ap (λ (l : List _). changed p f r ∷ l) (update_where-map p f rs)

select-map :
    {R : Type 0} (q : R → Bool) (g : R → R) (rs : List R)
    → ((r : R) → q (g r) ≡ q r)
    → select q (map g rs) ≡ map g (select q rs)
unfolding select
select-map q g [] h = refl
select-map q g (r ∷ rs) h = elim (Bool-cases (q r)) [
  | inl t ↦ rw (t, h r ∙ t) (ap (λ l. g r ∷ l) (select-map q g rs h))
  | inr f ↦ rw (f, h r ∙ f) (select-map q g rs h)
]

-- A join sees a change of its left table that it does not depend on as a change of its rows.
join-map :
    {A B C : Type 0} (on : A → B → Bool) (f : A → B → C) (g : A → A) (h : C → C) (xs : List A)
    (bs : List B)
    → ((a : A) (b : B) → on (g a) b ≡ on a b)
    → ((a : A) (b : B) → f (g a) b ≡ h (f a b))
    → join on f (map g xs) bs ≡ map h (join on f xs bs)
unfolding join
join-map on f g h [] bs same moved = refl
join-map {B = B} {C = C} on f g h (a ∷ xs) bs same moved =
    ap (λ p. map (f (g a)) (select p bs) ++ join on f (map g xs) bs) (fun_ext (λ b. same a b))
    ∙ ap₂ {C = List C} (λ l r. l ++ r) (each (select (on a) bs))
        (join-map on f g h xs bs same moved)
    ∙ sym (map-append h (map (f a) (select (on a) bs)) (join on f xs bs))
  where
    each : (m : List B) → map (f (g a)) m ≡ map h (map (f a) m)
    each [] = refl
    each (b ∷ m) = ap₂ {C = List C} (λ c l. c ∷ l) (moved a b) (each m)

abbrev pub option_map : {A B : Type 0} → (A → B) → Option A → Option B
option_map f none = none
option_map f (some a) = some (f a)

first_where-map :
    {R : Type 0} (q : R → Bool) (g : R → R) (rs : List R)
    → ((r : R) → q (g r) ≡ q r)
    → first_where q (map g rs) ≡ option_map g (first_where q rs)
unfolding first_where
first_where-map q g [] h = refl
first_where-map q g (r ∷ rs) h = elim (Bool-cases (q r)) [
  | inl t ↦ rw (t, h r ∙ t)
  | inr f ↦ rw (f, h r ∙ f) (first_where-map q g rs h)
]

-- A change of a result keeps its id, its owner, its search and its job.
pub record IsFramed (c : SearchResult → SearchResult) : Type 0 where
  pub id : (r : SearchResult) → (c r).id ≡ r.id
  pub user_id : (r : SearchResult) → (c r).user_id ≡ r.user_id
  pub job_search_id : (r : SearchResult) → (c r).job_search_id ≡ r.job_search_id
  pub job_id : (r : SearchResult) → (c r).job_id ≡ r.job_id

abbrev pub on_row : (SearchResult → SearchResult) → Row → Row
on_row c x = record x { result = c x.result }

module _ (c : SearchResult → SearchResult) (framed : IsFramed c) (db : Database) where
  visible-map :
      (user : ℕ)
      → visible user (with_results db (map c db.results)) ≡ map (on_row c) (visible user db)
  unfolding visible
  visible-map user =
      let on_pair : SearchResult × JobSearch → SearchResult × JobSearch = λ x. (c x.0, x.1) in
      let pairs = join is_search_of (λ r s. (r, s)) db.results db.searches in
      let owned : Row → Bool = λ x. x.result.user_id == user in
      ap (λ l. select owned (join is_job_of to_row l db.jobs))
        (join-map is_search_of (λ r s. (r, s)) c on_pair db.results db.searches
          (λ r s. ap (λ n. s.id == n && is_live s.deleted_at) (framed.job_search_id r))
          (λ r s. refl))
      ∙ ap (select owned) (
          join-map is_job_of to_row on_pair (on_row c) pairs db.jobs
            (λ x j. ap (λ n. j.id == n && is_live j.deleted_at) (framed.job_id x.0)) (λ x j. refl))
      ∙ select-map owned (on_row c) (join is_job_of to_row pairs db.jobs)
          (λ x. ap (λ n. n == user) (framed.user_id x.result))

  -- The row of a result after the change.
  pub first-visible :
      (user id : ℕ)
      → first_where
          (λ (x : Row). x.result.id == id)
          (visible user (with_results db (map c db.results)))
        ≡ option_map (on_row c) (first_where (λ (x : Row). x.result.id == id) (visible user db))
  first-visible user id =
      ap (first_where (λ (x : Row). x.result.id == id)) (visible-map user)
      ∙ first_where-map (λ (x : Row). x.result.id == id) (on_row c) (visible user db)
          (λ x. ap (λ n. n == id) (framed.id x.result))

pub first_where-true :
    {R : Type 0} (p : R → Bool) (rs : List R) {r : R} → first_where p rs ≡ some r → p r ≡ true
unfolding first_where
first_where-true p [] h = cc
first_where-true p (s ∷ rs) h = elim (Bool-cases (p s)) [
  | inl t ↦ ground (arith, t)
  | inr f ↦ first_where-true p rs (ground (arith, f))
]

pub first-select :
    {R : Type 0} (q p : R → Bool) (rs : List R) {r : R}
    → first_where q (select p rs) ≡ some r
    → p r ≡ true
unfolding first_where select
first-select q p [] h = cc
first-select q p (s ∷ rs) h = elim (Bool-cases (p s)) [
  | inl t ↦ elim (Bool-cases (q s)) [
    | inl u ↦ ground (arith, t, u)
    | inr f ↦ first-select q p rs (ground (arith, t, f))
  ]
  | inr f ↦ first-select q p rs (ground (arith, f))
]

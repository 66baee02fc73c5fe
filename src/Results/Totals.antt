-- ===== src/Results/Totals.antt =====
-- The counts of a summary agree with each other.
use mathlib.Core.Path.{ap₂, fun_ext}
use mathlib.Core.List.{append_assoc}
use cv_evaluator.Prelude.{
  ℕ, ◌+◌, ◌-◌, ◌*◌, ◌≤◌, ◌≡◌, refl, sym, ap, ◌∙◌, Bool, true, false, not, ◌&&◌, List, [], ◌∷◌, ◌++◌,
  map, arith, inl, inr, Bool-cases, ◌==◌, All, length, if◌then◌else◌,
}
use cv_evaluator.Prelude.Table.{select, count_where, order_by, placed}
use cv_evaluator.Prelude.Joins.{join}
use cv_evaluator.Models.{SearchResult, SearchResultStatus, JobSearch, Job, hour}
use cv_evaluator.Results.Rows.{Database, Row, visible, is_search_of, is_job_of, to_row, is_null}
use cv_evaluator.Results.Summaries.{
  Summary, SearchCount, summary, by_search, is_search_of_user, is_job_of_result, group_count, older,
  counted, has_status, search_count, is_new, is_strong,
}

-- The sum of a column.
pub total_of {ℓ} : {A : Type ℓ} → (A → ℕ) → List A → ℕ
total_of f [] = 0
total_of f (x ∷ xs) = f x + total_of f xs

module _ {R : Type 0} where
  count-append :
      (p : R → Bool) (xs ys : List R)
      → count_where p (xs ++ ys) ≡ count_where p xs + count_where p ys
  unfolding count_where
  count-append p [] ys = omega arith
  count-append p (x ∷ xs) ys = ground (arith, count-append p xs ys)

  count-select :
      (p q : R → Bool) (xs : List R)
      → count_where q (select p xs) ≡ count_where (λ x. p x && q x) xs
  unfolding count_where select
  count-select p q [] = refl
  count-select p q (x ∷ xs) = ground (arith, count-select p q xs)

  count_mono :
      (p q : R → Bool) (xs : List R)
      → ((x : R) → p x ≡ true → q x ≡ true)
      → count_where p xs ≤ count_where q xs
  unfolding count_where
  count_mono p q [] h = omega arith
  count_mono p q (x ∷ xs) h = ground (arith, h x, count_mono p q xs h)

  total_of-placed :
      (before : R → R → Bool) (f : R → ℕ) (r : R) (xs : List R)
      → total_of f (placed before r xs) ≡ f r + total_of f xs
  unfolding total_of
  total_of-placed before f r [] = refl
  total_of-placed before f r (x ∷ xs) = ground (arith, total_of-placed before f r xs)

  -- The order of rows changes no sum.
  total_of-order_by :
      (before : R → R → Bool) (f : R → ℕ) (xs : List R)
      → total_of f (order_by before xs) ≡ total_of f xs
  unfolding order_by total_of
  total_of-order_by before f [] = refl
  total_of-order_by before f (x ∷ xs) =
      omega (arith, total_of-placed before f x (order_by before xs), total_of-order_by before f xs)

  total_of-add :
      (f g : R → ℕ) (xs : List R) → total_of (λ x. f x + g x) xs ≡ total_of f xs + total_of g xs
  unfolding total_of
  total_of-add f g [] = refl
  total_of-add f g (x ∷ xs) = omega (arith, total_of-add f g xs)

  total_of-zero : (xs : List R) → total_of (λ x. 0) xs ≡ 0
  unfolding total_of
  total_of-zero [] = refl
  total_of-zero (x ∷ xs) = omega (arith, total_of-zero xs)

join-append :
    {A B C : Type 0} (on : A → B → Bool) (f : A → B → C) (xs ys : List A) (bs : List B)
    → join on f (xs ++ ys) bs ≡ join on f xs bs ++ join on f ys bs
unfolding join
join-append on f [] ys bs = refl
join-append on f (x ∷ xs) ys bs =
    ap (λ l. map (f x) (select (on x) bs) ++ l) (join-append on f xs ys bs)
    ∙ sym (append_assoc (map (f x) (select (on x) bs)) (join on f xs bs) (join on f ys bs))

-- A saved search and the results that it found are the same user's.
abbrev pub IsOwnSearch : SearchResult → JobSearch → Type 0
IsOwnSearch r s = is_search_of r s ≡ true → s.user_id ≡ r.user_id

abbrev pub HasOwners : List JobSearch → List SearchResult → Type 0
HasOwners searches rs = All (λ r. All (IsOwnSearch r) searches) rs

module _ (user : ℕ) (w : SearchResult → Bool) (jobs : List Job) where
  abbrev mine : Row → Bool
  mine x = x.result.user_id == user && w x.result

  abbrev job_count : SearchResult → ℕ
  job_count r = length (select (is_job_of_result r) jobs)

  abbrev share : SearchResult → JobSearch → ℕ
  share r s = if r.job_search_id == s.id && w r then job_count r else 0

  count-rows :
      (r : SearchResult) (s : JobSearch) (m : List Job)
      → count_where mine (map (to_row (r, s)) m)
        ≡ (if r.user_id == user && w r then length m else 0)
  unfolding count_where
  count-rows r s [] = ground arith
  count-rows r s (j ∷ m) = ground (arith, count-rows r s m)

  -- The search of the result has all of its rows.
  share_of :
      (r : SearchResult) (s : JobSearch) (ss : List JobSearch)
      → is_search_of r s ≡ true
      → s.user_id ≡ r.user_id
      → (if r.user_id == user && w r then job_count r else 0) + total_of (share r) ss
        ≡ total_of (share r) (if is_search_of_user user s then s ∷ ss else ss)
  unfolding total_of
  share_of r s ss t e = ground arith

  share_none :
      (r : SearchResult) (s : JobSearch) (ss : List JobSearch)
      → is_search_of r s ≡ false
      → total_of (share r) ss ≡ total_of (share r) (if is_search_of_user user s then s ∷ ss else ss)
  unfolding total_of
  share_none r s ss f = ground arith

  -- The rows of one result.
  count-result :
      (r : SearchResult) (ss : List JobSearch)
      → All (IsOwnSearch r) ss
      → count_where mine
          (join is_job_of to_row (map (λ s. (r, s)) (select (is_search_of r) ss)) jobs)
        ≡ total_of (share r) (select (is_search_of_user user) ss)
  unfolding join select total_of count_where
  count-result r [] h = refl
  count-result r (s ∷ ss) h = elim (Bool-cases (is_search_of r s)) [
    | inl t ↦
        let rest = join is_job_of to_row (map (λ s. (r, s)) (select (is_search_of r) ss)) jobs in
        rw t (
          count-append mine (map (to_row (r, s)) (select (is_job_of_result r) jobs)) rest
          ∙ ap₂ (λ a b. a + b) (count-rows r s (select (is_job_of_result r) jobs))
              (count-result r ss h.1)
          ∙ share_of r s (select (is_search_of_user user) ss) t (h.0 t))
    | inr f ↦ rw f (count-result r ss h.1 ∙ share_none r s (select (is_search_of_user user) ss) f)
  ]

  count-groups :
      (r : SearchResult) (rs : List SearchResult) (s : JobSearch)
      → count_where
          (λ (x : SearchResult). x.job_search_id == s.id && w x)
          (join is_job_of_result (λ x j. x) (r ∷ rs) jobs)
        ≡ share r s
          + count_where
              (λ (x : SearchResult). x.job_search_id == s.id && w x)
              (join is_job_of_result (λ x j. x) rs jobs)
  unfolding join count_where
  count-groups r rs s =
      count-append (λ (x : SearchResult). x.job_search_id == s.id && w x)
        (map (λ j. r) (select (is_job_of_result r) jobs)) (join is_job_of_result (λ x j. x) rs jobs)
      ∙ ap
          (λ n.
            n
            + count_where (λ (x : SearchResult). x.job_search_id == s.id && w x)
                (join is_job_of_result (λ x j. x) rs jobs))
          (same (select (is_job_of_result r) jobs))
    where
      same :
          (m : List Job)
          → count_where (λ (x : SearchResult). x.job_search_id == s.id && w x) (map (λ j. r) m)
            ≡ (if r.job_search_id == s.id && w r then length m else 0)
      same [] = ground arith
      same (j ∷ m) = ground (arith, same m)

  -- The rows that a user sees are those of the user's searches.
  total_of-groups :
      (rs : List SearchResult) (searches : List JobSearch)
      → HasOwners searches rs
      → count_where mine
          (join is_job_of to_row (join is_search_of (λ r s. (r, s)) rs searches) jobs)
        ≡ total_of
            (λ s.
              count_where
                (λ (r : SearchResult). r.job_search_id == s.id && w r)
                (join is_job_of_result (λ r j. r) rs jobs))
            (select (is_search_of_user user) searches)
  unfolding join count_where
  total_of-groups [] searches h = sym (total_of-zero (select (is_search_of_user user) searches))
  total_of-groups (r ∷ rs) searches h =
      ap (count_where mine) (
        join-append is_job_of to_row (map (λ s. (r, s)) (select (is_search_of r) searches))
          (join is_search_of (λ r s. (r, s)) rs searches) jobs)
      ∙ count-append mine
          (join is_job_of to_row (map (λ s. (r, s)) (select (is_search_of r) searches)) jobs)
          (join is_job_of to_row (join is_search_of (λ r s. (r, s)) rs searches) jobs)
      ∙ ap₂ (λ a b. a + b) (count-result r searches h.0) (total_of-groups rs searches h.1)
      ∙ sym (total_of-add (share r) (group rs) (select (is_search_of_user user) searches))
      ∙ sym (
          ap (λ f. total_of f (select (is_search_of_user user) searches))
            (fun_ext (λ s. count-groups r rs s)))
    where
      group : List SearchResult → JobSearch → ℕ
      group l s =
          count_where (λ (x : SearchResult). x.job_search_id == s.id && w x)
            (join is_job_of_result (λ x j. x) l jobs)

-- The counts by status add up to the total, and so do those by search, also of the last week; the
-- new strong matches are among the strong ones, these among the scored ones, and these among all.
pub record IsConsistent (s : Summary) : Type 0 where
  pub statuses :
      s.by_status SearchResultStatus.new
        + s.by_status SearchResultStatus.saved
        + s.by_status SearchResultStatus.applied
        + s.by_status SearchResultStatus.dismissed
      ≡ s.total
  pub searches : total_of (λ (c : SearchCount). c.total) s.by_search ≡ s.total
  pub searches_new : total_of (λ (c : SearchCount). c.new_this_week) s.by_search ≡ s.new_this_week
  pub strong_new : s.strong_matches_new ≤ s.strong_matches
  pub strong : s.strong_matches ≤ s.scored
  pub scored : s.scored ≤ s.total

total_of-map :
    {A : Type 0} (f : SearchCount → ℕ) (g : A → SearchCount) (xs : List A)
    → total_of f (map g xs) ≡ total_of (λ x. f (g x)) xs
unfolding total_of
total_of-map f g [] = refl
total_of-map f g (x ∷ xs) = ap (λ n. f (g x) + n) (total_of-map f g xs)

one : Bool → ℕ
one b = if b then 1 else 0

-- A result has exactly one status.
one_status :
    (s : SearchResultStatus)
    → one (has_status SearchResultStatus.new s)
        + one (has_status SearchResultStatus.saved s)
        + one (has_status SearchResultStatus.applied s)
        + one (has_status SearchResultStatus.dismissed s)
      ≡ 1
unfolding one
one_status SearchResultStatus.new = refl
one_status SearchResultStatus.saved = refl
one_status SearchResultStatus.applied = refl
one_status SearchResultStatus.dismissed = refl

count-statuses :
    (rows : List Row)
    → counted rows (λ r. has_status SearchResultStatus.new r.status)
        + counted rows (λ r. has_status SearchResultStatus.saved r.status)
        + counted rows (λ r. has_status SearchResultStatus.applied r.status)
        + counted rows (λ r. has_status SearchResultStatus.dismissed r.status)
      ≡ counted rows (λ r. true)
unfolding count_where one
count-statuses [] = refl
count-statuses (x ∷ rows) = ground (arith, one_status x.result.status, count-statuses rows)

module _ (user : ℕ) (db : Database) (own : HasOwners db.searches db.results) where
  -- The counts of the searches, and that of all rows.
  total_of-by_search :
      (week : ℕ) (w : SearchResult → Bool) (f : SearchCount → ℕ)
      → ((s : JobSearch) → f (search_count db week s) ≡ group_count db w s)
      → total_of f (by_search user week db) ≡ counted (visible user db) w
  unfolding by_search visible
  total_of-by_search week w f e =
      total_of-map f (search_count db week)
        (order_by older (select (is_search_of_user user) db.searches))
      ∙ ap (λ g. total_of g (order_by older (select (is_search_of_user user) db.searches)))
          (fun_ext e)
      ∙ total_of-order_by older (group_count db w) (select (is_search_of_user user) db.searches)
      ∙ sym (total_of-groups user w db.jobs db.results db.searches own)
      ∙ sym (
          count-select (λ (x : Row). x.result.user_id == user) (λ x. w x.result)
            (join is_job_of to_row (join is_search_of (λ r s. (r, s)) db.results db.searches)
              db.jobs))

-- The counts of a summary are consistent, where every result of a live search is its user's.
pub summary-IsConsistent :
    (now user : ℕ) (db : Database)
    → HasOwners db.searches db.results
    → IsConsistent (summary now user db)
unfolding summary
summary-IsConsistent now user db own =
    let week = now - 7 * 24 * hour in
    let rows = visible user db in
    record {
      statuses = count-statuses rows;
      searches = total_of-by_search user db own week (λ r. true) (λ c. c.total) (λ s. refl);
      searches_new =
          total_of-by_search user db own week (is_new week) (λ c. c.new_this_week) (λ s. refl);
      strong_new = count_mono _ _ rows (λ x h. new_strong x.result h);
      strong = count_mono _ _ rows (λ x h. strong_scored x.result h);
      scored = count_mono _ _ rows (λ x h. refl);
    }
  where
    new_strong :
        (r : SearchResult)
        → (is_strong r && has_status SearchResultStatus.new r.status) ≡ true
        → (is_strong r && not (has_status SearchResultStatus.dismissed r.status)) ≡ true
    new_strong r h = by_status r.status h
      where
        by_status :
            (s : SearchResultStatus)
            → (is_strong r && has_status SearchResultStatus.new s) ≡ true
            → (is_strong r && not (has_status SearchResultStatus.dismissed s)) ≡ true
        by_status SearchResultStatus.new h = h
        by_status SearchResultStatus.saved h = ground arith
        by_status SearchResultStatus.applied h = ground arith
        by_status SearchResultStatus.dismissed h = ground arith

    strong_scored :
        (r : SearchResult)
        → (is_strong r && not (has_status SearchResultStatus.dismissed r.status)) ≡ true
        → not (is_null r.overall_score) ≡ true
    strong_scored r h = ground arith

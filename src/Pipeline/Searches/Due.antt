-- ===== src/Pipeline/Searches/Due.antt =====
-- Which saved searches DueSearches returns.
use mathlib.Core.Path.{subst}
use cv_evaluator.Prelude.{
  ℕ, zero, suc, ◌≤◌, ◌≡◌, refl, ap, sym, ◌∙◌, true, List, [], ◌∷◌, map, leb, leb→le, if◌then◌else◌,
  arith, Bool-cases, ◌⊎◌, inl, inr, In, All, All-map, take, length, In-of_All,
}
use cv_evaluator.Prelude.Table.{select, In-select, select-In}
use cv_evaluator.Models.{JobSearch}
use cv_evaluator.Pipeline.Searches.{
  Search, to_search, is_due_search, time_of, insert_run, by_next_run, due_searches,
}

abbrev pub run_time : JobSearch → ℕ
run_time j = time_of j.next_run_at

insert_run-In :
    (k j : JobSearch) (rows : List JobSearch) → In k (j ∷ rows) → In k (insert_run j rows)
unfolding insert_run
insert_run-In k j [] i = i
insert_run-In k j (r ∷ rows) i = elim (Bool-cases (leb (run_time j) (run_time r))) [
  | inl t ↦ rw t i
  | inr f ↦ rw f (later i (insert_run-In k j rows))
]
  where
    later :
        In k (j ∷ r ∷ rows)
        → (In k (j ∷ rows) → In k (insert_run j rows))
        → In k (r ∷ insert_run j rows)
    later (inl e) rest = inr (rest (inl e))
    later (inr (inl e)) rest = inl e
    later (inr (inr m)) rest = inr (rest (inr m))

In-insert_run :
    (k j : JobSearch) (rows : List JobSearch) → In k (insert_run j rows) → In k (j ∷ rows)
unfolding insert_run
In-insert_run k j [] i = i
In-insert_run k j (r ∷ rows) i = elim (Bool-cases (leb (run_time j) (run_time r))) [
  | inl t ↦ subst (λ b. In k (if b then j ∷ r ∷ rows else r ∷ insert_run j rows)) t i
  | inr f ↦
      later (subst (λ b. In k (if b then j ∷ r ∷ rows else r ∷ insert_run j rows)) f i)
        (In-insert_run k j rows)
]
  where
    moved : In k (j ∷ rows) → In k (j ∷ r ∷ rows)
    moved (inl e) = inl e
    moved (inr m) = inr (inr m)

    later :
        In k (r ∷ insert_run j rows)
        → (In k (insert_run j rows) → In k (j ∷ rows))
        → In k (j ∷ r ∷ rows)
    later (inl e) rest = inr (inl e)
    later (inr m) rest = moved (rest m)

by_next_run-In : (k : JobSearch) (rows : List JobSearch) → In k rows → In k (by_next_run rows)
unfolding by_next_run
by_next_run-In k [] i = i
by_next_run-In k (r ∷ rows) (inl e) = insert_run-In k r (by_next_run rows) (inl e)
by_next_run-In k (r ∷ rows) (inr i) =
    insert_run-In k r (by_next_run rows) (inr (by_next_run-In k rows i))

In-by_next_run : (k : JobSearch) (rows : List JobSearch) → In k (by_next_run rows) → In k rows
unfolding by_next_run
In-by_next_run k [] i = i
In-by_next_run k (r ∷ rows) i = elim (In-insert_run k r (by_next_run rows) i) [
  | inl e ↦ inl e
  | inr m ↦ inr (In-by_next_run k rows m)
]

length-insert_run :
    (j : JobSearch) (rows : List JobSearch) → length (insert_run j rows) ≡ suc (length rows)
unfolding insert_run
length-insert_run j [] = refl
length-insert_run j (r ∷ rows) = ground (arith, length-insert_run j rows)

length-by_next_run : (rows : List JobSearch) → length (by_next_run rows) ≡ length rows
unfolding by_next_run
length-by_next_run [] = refl
length-by_next_run (r ∷ rows) =
    length-insert_run r (by_next_run rows) ∙ ap (λ (n : ℕ). suc n) (length-by_next_run rows)

-- The rows stand in the order of their next runs.
abbrev Sorted : List JobSearch → Type 0
Sorted [] = Unit
Sorted (r ∷ rows) = All (λ s. run_time r ≤ run_time s) rows × Sorted rows

All-insert_run :
    (P : JobSearch → Type 0) (j : JobSearch) (rows : List JobSearch)
    → P j
    → All P rows
    → All P (insert_run j rows)
unfolding insert_run
All-insert_run P j [] p h = (p, tt)
All-insert_run P j (r ∷ rows) p h = elim (Bool-cases (leb (run_time j) (run_time r))) [
  | inl t ↦ rw t (p, h)
  | inr f ↦ rw f (h.0, All-insert_run P j rows p h.1)
]

Sorted-insert_run :
    (j : JobSearch) (rows : List JobSearch) → Sorted rows → Sorted (insert_run j rows)
unfolding insert_run
Sorted-insert_run j [] h = (tt, tt)
Sorted-insert_run j (r ∷ rows) h = elim (Bool-cases (leb (run_time j) (run_time r))) [
  | inl t ↦
      let le = leb→le (run_time j) (run_time r) t in
      rw t (
        (
          le,
          All-map (λ s. run_time r ≤ run_time s) (λ s. run_time j ≤ run_time s) rows
              (λ s q. omega (arith, le, q)) h.0,
        ),
        h,
      )
  | inr f ↦
      let le : run_time r ≤ run_time j = ground arith in
      rw f
        (All-insert_run (λ s. run_time r ≤ run_time s) j rows le h.0, Sorted-insert_run j rows h.1)
]

Sorted-by_next_run : (rows : List JobSearch) → Sorted (by_next_run rows)
unfolding by_next_run
Sorted-by_next_run [] = tt
Sorted-by_next_run (r ∷ rows) = Sorted-insert_run r (by_next_run rows) (Sorted-by_next_run rows)

In-take : (n : ℕ) (k : JobSearch) (rows : List JobSearch) → In k (take n rows) → In k rows
In-take zero k rows i = elim i [ ]
In-take (suc n) k [] i = elim i [ ]
In-take (suc n) k (r ∷ rows) (inl e) = inl e
In-take (suc n) k (r ∷ rows) (inr i) = inr (In-take n k rows i)

-- A row is taken, or every row that is taken stands before it.
taken_or_later :
    (n : ℕ) (k s : JobSearch) (rows : List JobSearch)
    → Sorted rows
    → In k rows
    → In s (take n rows)
    → In k (take n rows) ⊎ (run_time s ≤ run_time k)
taken_or_later zero k s rows h i m = elim m [ ]
taken_or_later (suc n) k s [] h i m = elim i [ ]
taken_or_later (suc n) k s (r ∷ rows) h (inl e) m = inl (inl e)
taken_or_later (suc n) k s (r ∷ rows) h (inr i) (inl e) = inr (
    subst (λ x. run_time x ≤ run_time k) (sym e)
      (In-of_All (λ x. run_time r ≤ run_time x) rows h.0 k i))
taken_or_later (suc n) k s (r ∷ rows) h (inr i) (inr m) = elim (taken_or_later n k s rows h.1 i m) [
  | inl t ↦ inl (inr t)
  | inr q ↦ inr q
]

take_all :
    (n : ℕ) (k : JobSearch) (rows : List JobSearch)
    → length rows ≤ n
    → In k rows
    → In k (take n rows)
take_all zero k [] h i = i
take_all zero k (r ∷ rows) h i = absurd (omega arith)
take_all (suc n) k [] h i = i
take_all (suc n) k (r ∷ rows) h (inl e) = inl e
take_all (suc n) k (r ∷ rows) h (inr i) = inr (take_all n k rows (omega arith) i)

map-In : (k : JobSearch) (rows : List JobSearch) → In k rows → In (to_search k) (map to_search rows)
map-In k [] i = i
map-In k (r ∷ rows) (inl e) = inl (ap to_search e)
map-In k (r ∷ rows) (inr i) = inr (map-In k rows i)

In-map :
    (s : Search) (rows : List JobSearch)
    → In s (map to_search rows)
    → (j : JobSearch) × In j rows × (s ≡ to_search j)
In-map s [] i = elim i [ ]
In-map s (r ∷ rows) (inl e) = (r, inl refl, e)
In-map s (r ∷ rows) (inr i) = let (j, m, e) = In-map s rows i in (j, inr m, e)

module _ (now limit : ℕ) (rows : List JobSearch) where
  abbrev pub due_rows : List JobSearch
  due_rows = select (is_due_search now) rows

  -- DueSearches returns only saved searches that are due. A due search that is not returned is due
  -- no earlier than any that is, and none is left out where no more are due than the limit.
  pub due_searches_lem :
      ((s : Search)
        → In s (due_searches now limit rows)
        → (j : JobSearch) × In j rows
          × (is_due_search now j ≡ true)
          × (s ≡ to_search j)
          × ((k : JobSearch)
              → In k rows
              → is_due_search now k ≡ true
              → In (to_search k) (due_searches now limit rows) ⊎ (run_time j ≤ run_time k)))
      × (length due_rows ≤ limit
          → (k : JobSearch) → In k rows
          → is_due_search now k ≡ true
          → In (to_search k) (due_searches now limit rows))
  unfolding due_searches
  due_searches_lem =
      let sorted = by_next_run due_rows in
      (
        λ s i.
            let (j, m, e) = In-map s (take limit sorted) i in
            let (member, is_due) =
              In-select (is_due_search now) j rows
                (In-by_next_run j due_rows (In-take limit j sorted m)) in
            (
              j,
              member,
              is_due,
              e,
              λ k n d.
                  let here = by_next_run-In k due_rows (select-In (is_due_search now) k rows n d) in
                  elim (taken_or_later limit k j sorted (Sorted-by_next_run due_rows) here m) [
                    | inl t ↦ inl (map-In k (take limit sorted) t)
                    | inr q ↦ inr q
                  ],
            ),
        λ h k n d.
            let here = by_next_run-In k due_rows (select-In (is_due_search now) k rows n d) in
            map-In k (take limit sorted)
              (take_all limit k sorted (omega (arith, length-by_next_run due_rows)) here),
      )

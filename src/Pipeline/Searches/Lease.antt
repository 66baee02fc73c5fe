-- ===== src/Pipeline/Searches/Lease.antt =====
-- The lease that a claimed run holds, and when the search runs next.
use mathlib.Core.Path.{subst}
use cv_evaluator.Prelude.{
  ℕ, ◌+◌, ◌≤◌, ◌≡◌, ◌≢◌, refl, ap, sym, ◌∙◌, true, false, none, some, List, [], ◌∷◌, leb,
  if◌then◌else◌, arith, Bool-cases, inl, inr, In,
}
use cv_evaluator.Prelude.Text.{text_eq, text_eq→eq}
use cv_evaluator.Prelude.Table.{update_where, count_where, In-update_where}
use cv_evaluator.Models.{JobSearch, frequency_interval, next_run, frequency_daily, frequency_weekly}
use cv_evaluator.Pipeline.Config.{Config}
use cv_evaluator.Pipeline.Searches.{
  Search, runs_by, is_due_search, may_run, lease_until, claim_run, has_search_id, set_run, mark_run,
  next_run_after, RunEnv, run_search,
}

-- At most one live row has the id.
abbrev pub HasOneAtMost : ℕ → List JobSearch → Type 0
HasOneAtMost id rows = count_where (has_search_id id) rows ≤ 1

module _ (id now until t : ℕ) where
  abbrev leased : List JobSearch → List JobSearch
  leased = update_where (may_run id now) (lease_until now until)

  count_may_run :
      (rows : List JobSearch)
      → count_where (may_run id t) rows ≤ count_where (has_search_id id) rows
  unfolding count_where may_run
  count_may_run [] = omega arith
  count_may_run (j ∷ rows) = ground (arith, count_may_run rows)

  count_leased_none :
      (rows : List JobSearch)
      → count_where (has_search_id id) rows ≡ 0
      → count_where (may_run id t) (leased rows) ≡ 0
  unfolding count_where may_run update_where
  count_leased_none [] h = refl
  count_leased_none (j ∷ rows) h = ground (arith, count_leased_none rows)

count_leased :
    (id now until t : ℕ) (rows : List JobSearch)
    → HasOneAtMost id rows
    → count_where (may_run id now) rows ≡ 1
    → count_where (may_run id t) (leased id now until t rows) ≡ (if leb until t then 1 else 0)
unfolding count_where may_run update_where is_due_search runs_by
count_leased id now until t [] one h = omega arith
count_leased id now until t (j ∷ rows) one h = ground (
  arith,
  count_leased id now until t rows,
  count_leased_none id now until t rows,
  count_may_run id now until now rows,
)

-- A run is claimed by one caller: once a claim of a search has succeeded, no other claim of it does
-- before the lease ends, and from then on the next one does, if nobody changes the table meanwhile
-- and at most one live row has the search's id.
pub claim_run-claim_run :
    (id now until t until' : ℕ) (rows : List JobSearch)
    → HasOneAtMost id rows
    → (claim_run id now until rows).0 ≡ true
    → (claim_run id t until' (claim_run id now until rows).1).0 ≡ leb until t
unfolding claim_run
claim_run-claim_run id now until t until' rows one h =
    let counted = count_leased id now until t rows one (ground arith) in ground (arith, counted)

-- A run that claimed its search but was not marked, because the process shut down or the mark
-- failed, is retried: the search can be claimed again exactly from the end of the run's lease on,
-- if nobody changes the table of searches meanwhile and at most one live row has the search's id.
pub claim_run-run_search :
    (c : Config) (env : RunEnv) (s : Search) (rows : List JobSearch) (t until : ℕ)
    → HasOneAtMost s.id rows
    → ((x : List JobSearch) → env.others x ≡ x)
    → (run_search c env s rows).0 ≡ true
    → (run_search c env s rows).1 ≢ none
    → (claim_run s.id t until (run_search c env s rows).2).0 ≡ leb (env.started + c.run_timeout) t
unfolding run_search
claim_run-run_search c env s rows t until one same ran failed =
    let claimed =
      claim_run-claim_run s.id env.started (env.started + c.run_timeout) t until rows one in
    ground (arith, claimed, same (claim_run s.id env.started (env.started + c.run_timeout) rows).1)

run_search-ok :
    (c : Config) (env : RunEnv) (s : Search) (rows rows' : List JobSearch)
    → run_search c env s rows ≡ (true, none, rows')
    → (x : List JobSearch) × (mark_run env.ended s.id env.started
          (next_run_after s.frequency env.started)
          x
        ≡ rows')
unfolding run_search
run_search-ok c env s rows rows' e =
    (env.others (claim_run s.id env.started (env.started + c.run_timeout) rows).1, ground arith)

-- A run without an error sets the search's last run to its start, and its next one by the search's
-- frequency from that start, or to none if the search was disabled while it ran.
pub run_search-marked :
    (c : Config) (env : RunEnv) (s : Search) (rows rows' : List JobSearch) (r : JobSearch)
    → run_search c env s rows ≡ (true, none, rows')
    → In r rows'
    → has_search_id s.id r ≡ true
    → (r.last_run_at ≡ some env.started)
      × (r.next_run_at
          ≡ (if r.enabled then some (next_run_after s.frequency env.started) else none))
unfolding run_search set_run
run_search-marked c env s rows rows' r e i h =
    let (x, marked) = run_search-ok c env s rows rows' e in
    let (k, _, q) =
      In-update_where (has_search_id s.id)
        (set_run env.ended env.started (next_run_after s.frequency env.started)) r x
        (unfold mark_run in subst (In r) (sym marked) i) in
    elim (Bool-cases (has_search_id s.id k)) [
      | inl t ↦
          let set = q ∙ ap (λ b. if b then changed k else k) t in
          subst IsMarked (sym set) (refl, refl)
      | inr f ↦
          let kept = q ∙ ap (λ b. if b then changed k else k) f in
          absurd (true-ne-false (sym h ∙ ap (has_search_id s.id) kept ∙ f))
    ]
  where
    changed : JobSearch → JobSearch
    changed = set_run env.ended env.started (next_run_after s.frequency env.started)

    IsMarked : JobSearch → Type 0
    IsMarked x =
        (x.last_run_at ≡ some env.started)
        × (x.next_run_at
            ≡ (if x.enabled then some (next_run_after s.frequency env.started) else none))

    true-ne-false : true ≡ false → ⊥
    true-ne-false p = cc

-- The scheduler and the model of a saved search agree on when a search is due again.
pub next_run_after-next_run : (j : JobSearch) (t : ℕ) → next_run_after j.frequency t ≡ next_run j t
unfolding next_run_after next_run frequency_interval
next_run_after-next_run j t =
    let weekly_is_not_daily : text_eq frequency_weekly frequency_daily ≡ false =
      unfold text_eq in refl in
    ground (arith, text_eq→eq j.frequency frequency_weekly, weekly_is_not_daily)

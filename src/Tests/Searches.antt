-- ===== src/Tests/Searches.antt =====
-- The saved searches: which are due, the lease of a run, and when they run next.
use cv_evaluator.Prelude.{
  ℕ, ◌+◌, ◌≡◌, ◌≢◌, refl, sym, ◌∙◌, Bool, true, false, leb, none, some, List, [], ◌∷◌, arith,
}
use cv_evaluator.Prelude.Text.{codes, text_eq}
use cv_evaluator.Prelude.Table.{select, update_where, count_where}
use cv_evaluator.Models.{JobSearch, hour}
use cv_evaluator.Pipeline.Searches.{
  to_search, is_due_search, runs_by, may_run, due_searches, by_next_run, insert_run, claim_run,
  mark_run, set_run, run_search, run_all, tick, RunEnv, next_run_after, shutting_down,
}
use cv_evaluator.Pipeline.Searches.Lease.{HasOneAtMost, claim_run-claim_run, claim_run-run_search}
use cv_evaluator.Tests.Samples.{config, search}

abbrev rows : List JobSearch
rows =
    record search { id = 2; next_run_at = some 70 }
    ∷ search
    ∷ record search { id = 3; enabled = false }
    ∷ []

earliest : due_searches 80 1 rows ≡ to_search search ∷ []
unfolding due_searches by_next_run insert_run is_due_search runs_by select
earliest = refl

one_row : HasOneAtMost 1 rows
unfolding count_where
one_row = omega arith

claimable : (claim_run 1 80 180 rows).0 ≡ true
unfolding claim_run may_run is_due_search runs_by count_where
claimable = refl

claim_run-claim_run_example : (claim_run 1 90 190 (claim_run 1 80 180 rows).1).0 ≡ leb 180 90
claim_run-claim_run_example = claim_run-claim_run 1 80 180 90 190 rows one_row claimable

abbrev env : Bool → RunEnv
env cancelled = record {
  started = 80;
  ended = 100;
  claim_error = none;
  others = λ rows. rows;
  cancelled = cancelled;
  mark_error = none;
}

stopped : (run_search config (env true) (to_search search) rows).0 ≡ true
unfolding run_search to_search claim_run may_run is_due_search runs_by count_where
stopped = refl

stopped_error : (run_search config (env true) (to_search search) rows).1 ≡ some shutting_down
unfolding run_search to_search claim_run may_run is_due_search runs_by count_where
stopped_error = refl

not_none : {A : Type 0} {a : A} → some a ≢ none
not_none h = cc

abbrev lease_end : ℕ
lease_end = 80 + config.run_timeout

claim_run-run_search_example :
    (claim_run 1 90 190 (run_search config (env true) (to_search search) rows).2).0
    ≡ leb lease_end 90
unfolding to_search
claim_run-run_search_example =
    claim_run-run_search config (env true) (to_search search) rows 90 190 one_row (λ x. refl)
      stopped (λ h. not_none (sym stopped_error ∙ h))

abbrev marked : JobSearch
marked = record search { last_run_at = some 80; next_run_at = some (80 + hour); updated_at = 100 }

abbrev other : JobSearch
other = record search { id = 2; next_run_at = some 70 }

abbrev disabled : JobSearch
disabled = record search { id = 3; enabled = false }

marks :
    run_search config (env false) (to_search search) rows
    ≡ (true, none, other ∷ marked ∷ disabled ∷ [])
unfolding run_search to_search claim_run mark_run set_run next_run_after may_run is_due_search
    runs_by count_where update_where text_eq
marks = refl

-- Two saved searches are due; both run.
ticks : (tick config (codes "jobindex" ∷ []) 80 none (λ id. env false) rows).0 ≡ 2
unfolding tick run_all due_searches by_next_run insert_run run_search to_search claim_run mark_run
    set_run next_run_after may_run is_due_search runs_by count_where update_where text_eq select
ticks = refl

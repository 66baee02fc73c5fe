-- ===== src/Pipeline/Claim/Choice.antt =====
-- Which row a claim takes, and what it does to the table.
use mathlib.Core.Path.{subst}
use cv_evaluator.Prelude.{
  ℕ, ◌≡◌, Bool, true, false, not, ◌&&◌, none, some, List, In, arith, ◌⊎◌, inl, inr, Option-cases,
}
use cv_evaluator.Prelude.Table.{
  Key, key_before, key_before_asym, key_before_neg_trans, select, update_where, least, In-select,
  select-In, least-In, least-none, least_minimal,
}
use cv_evaluator.Models.{Job, SearchResult}
use cv_evaluator.Pipeline.Claim.{
  claimable_job, job_key, start_job, has_job_id, next_job, claim_job, claimable_result, result_key,
  start_result, has_result_id, next_result, claim_result,
}
use cv_evaluator.Pipeline.Claim.Spec.{
  Claimable, claimable_job_iff, ClaimableResult, claimable_result_iff, key_before-NotAfter, IsNext,
  Idle, started_result,
}

module _ {R : Type 0} (test : R → Bool) (May : R → Type 0) (sound : (r : R) → test r ≡ true → May r)
    (complete : (r : R) → May r → test r ≡ true) (locked : R → Bool) (key : R → Key) where
  abbrev free : R → Bool
  free r = test r && not (locked r)

  abbrev before : R → R → Bool
  before a b = key_before (key a) (key b)

  free-true : (r : R) → May r → locked r ≡ false → free r ≡ true
  free-true r m u = let t = complete r m in ground arith

  least-IsNext :
      (rows : List R) (r : R)
      → least before (select free rows) ≡ some r
      → IsNext May locked key rows r
  least-IsNext rows r h =
      let (member, fits) = In-select free r rows (least-In before (select free rows) r h) in
      record {
        member = member;
        may = sound r (ground arith);
        free = ground arith;
        first = λ s i m u. key_before-NotAfter (key r) (key s) (
            least_minimal before (λ a b. key_before_asym (key a) (key b))
              (λ a b c. key_before_neg_trans (key a) (key b) (key c)) (select free rows) s r h
              (select-In free s rows i (free-true s m u)));
      }

  least-Idle : (rows : List R) → least before (select free rows) ≡ none → Idle May locked rows
  least-Idle rows h r i m u =
      elim (subst (In r) (least-none before (select free rows) h)
        (select-In free r rows i (free-true r m u))) [ ]

module _ (locked : ℕ → Bool) (now stale : ℕ) (jobs : List Job) where
  abbrev pub locked_job : Job → Bool
  locked_job j = locked j.id

  -- claimJob does one of two things. If no job that may be claimed is unlocked, it returns nothing
  -- and leaves the table alone. Else it returns the next such job, started, and changes the rows
  -- with that job's id, and no other, in the same way.
  pub claim_job_lem :
      ((claim_job locked now stale jobs ≡ (none, jobs))
        × Idle (Claimable now stale) locked_job jobs)
      ⊎ ((j : Job) × IsNext (Claimable now stale) locked_job job_key jobs j
          × (claim_job locked now stale jobs
              ≡ (some (start_job now j), update_where (has_job_id j.id) (start_job now) jobs)))
  unfolding claim_job next_job
  claim_job_lem =
      let sound = λ (j : Job). (claimable_job_iff now stale j).0 in
      let complete = λ (j : Job). (claimable_job_iff now stale j).1 in
      elim (Option-cases (next_job locked now stale jobs)) [
        | inl n ↦ inl (
          rw n,
          least-Idle (claimable_job now stale) (Claimable now stale) sound complete locked_job
              job_key jobs n,
        )
        | inr (j, e) ↦ inr (
          j,
          least-IsNext (claimable_job now stale) (Claimable now stale) sound complete locked_job
              job_key jobs j e,
          rw e,
        )
      ]

module _ (locked : ℕ → Bool) (now stale : ℕ) (jobs : List Job) (results : List SearchResult) where
  abbrev pub locked_result : SearchResult → Bool
  locked_result r = locked r.id

  -- claimResult does one of two things. If no search result that may be claimed is unlocked, where a
  -- result may be claimed only if its job is embedded, it returns nothing and leaves the table alone.
  -- Else it returns the next such result, as one that is being evaluated since `now`, with one
  -- attempt more and all else as it was, and changes the rows with that result's id, and no other,
  -- in the same way.
  pub claim_result_lem :
      ((claim_result locked now stale jobs results ≡ (none, results))
        × Idle (ClaimableResult jobs now stale) locked_result results)
      ⊎ ((r : SearchResult) × IsNext
            (ClaimableResult jobs now stale)
            locked_result
            result_key
            results
            r
          × (claim_result locked now stale jobs results ≡ (
            some (started_result now r),
            update_where (has_result_id r.id) (started_result now) results,
          )))
  unfolding claim_result next_result start_result
  claim_result_lem =
      let sound = λ (r : SearchResult). (claimable_result_iff jobs now stale r).0 in
      let complete = λ (r : SearchResult). (claimable_result_iff jobs now stale r).1 in
      elim (Option-cases (next_result locked now stale jobs results)) [
        | inl n ↦ inl (
          rw n,
          least-Idle (claimable_result jobs now stale) (ClaimableResult jobs now stale) sound
              complete locked_result result_key results n,
        )
        | inr (r, e) ↦ inr (
          r,
          least-IsNext (claimable_result jobs now stale) (ClaimableResult jobs now stale) sound
              complete locked_result result_key results r e,
          rw e,
        )
      ]

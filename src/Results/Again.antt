-- ===== src/Results/Again.antt =====
-- The evaluation of a result once more.
use mathlib.Core.Path.{subst}
use cv_evaluator.Prelude.{
  ℕ, suc, ◌<◌, ◌≡◌, ◌≢◌, refl, sym, ap, ◌∙◌, Bool, true, false, ◌&&◌, Option, none, some, List, [],
  ◌∷◌, arith, inl, inr, ◌⊎◌, Bool-cases, ==_iff, ◌==◌, All, if◌then◌else◌,
}
use cv_evaluator.Prelude.Text.{Text}
use cv_evaluator.Prelude.Table.{first_where, update_where, count_where}
use cv_evaluator.Prelude.Keyset.{IsDistinct}
use cv_evaluator.Models.{SearchResult, EvaluationState}
use cv_evaluator.Matcher.{Decoded}
use cv_evaluator.Pipeline.Failure.{ok, err}
use cv_evaluator.Pipeline.Claim.{claimable_result, job_embedded}
use cv_evaluator.Results.Params.{ResultsError}
use cv_evaluator.Results.Rows.{Database, Row, visible}
use cv_evaluator.Results.Lists.{is_owned}
use cv_evaluator.Results.Details.{Detail, detail, get}
use cv_evaluator.Results.Changes.{
  Reply, may_again, re_evaluable, queue_again, queue_if_found, with_results, re_evaluate, read_back,
}
use cv_evaluator.Results.Keys.{IsKeyed, IsFound, visible-IsFound}
use cv_evaluator.Results.Updates.{users_row, IsFramed, changed, update_where-map, first_where-true}
use cv_evaluator.Results.Triage.{row-get, get-changed}

module _ (now user id : ℕ) where
  count_none :
      (rows : List SearchResult)
      → All (λ r. r.id ≢ id) rows
      → count_where (re_evaluable now user id) rows ≡ 0
  unfolding count_where re_evaluable
  count_none [] h = refl
  count_none (r ∷ rows) h = ground (arith, h.0, count_none rows h.1)

  first :
      (x r : SearchResult) (rows : List SearchResult)
      → is_owned user id x ≡ true
      → first_where (is_owned user id) (x ∷ rows) ≡ some r
      → x ≡ r
  unfolding first_where
  first x r rows t h =
      some_inj (ap (λ b. if b then some x else first_where (is_owned user id) rows) (sym t) ∙ h)
    where
      some_inj : some x ≡ some r → x ≡ r
      some_inj q = cc

  -- The rows that the UPDATE changes: the user's result, if it may be queued again.
  count_again :
      (rows : List SearchResult) (r : SearchResult)
      → IsDistinct (λ (x : SearchResult). x.id) rows
      → first_where (is_owned user id) rows ≡ some r
      → count_where (re_evaluable now user id) rows
        ≡ (if may_again now r.evaluation_status r.next_attempt_at then 1 else 0)
  unfolding count_where re_evaluable first_where
  count_again [] r d h = cc
  count_again (x ∷ rows) r d h = elim (Bool-cases (is_owned user id x)) [
    | inl t ↦
        let xid : x.id ≡ id = ground (arith, t) in
        let rest =
          count_none rows (subst (λ n. All (λ (y : SearchResult). y.id ≢ n) rows) xid d.0) in
        let same : x ≡ r = first x r rows t h in
        subst
          (λ (y : SearchResult).
            (if re_evaluable now user id x
              then suc (count_where (re_evaluable now user id) rows)
              else count_where (re_evaluable now user id) rows)
            ≡ (if may_again now y.evaluation_status y.next_attempt_at then 1 else 0))
          same
          (rw rest
            (ap (λ b. if b && may_again now x.evaluation_status x.next_attempt_at then 1 else 0) t))
    | inr f ↦ rw f (count_again rows r d.1 (ground (arith, f)))
  ]

  update_none :
      (f : SearchResult → SearchResult) (rows : List SearchResult)
      → All (λ r. r.id ≢ id) rows
      → update_where (re_evaluable now user id) f rows ≡ update_where (is_owned user id) f rows
  unfolding update_where re_evaluable
  update_none f [] h = refl
  update_none f (r ∷ rows) h = ground (arith, h.0, update_none f rows h.1)

  -- If the user's result may be queued again, the UPDATE changes it, whatever it is.
  update_again :
      (f : SearchResult → SearchResult) (rows : List SearchResult) (r : SearchResult)
      → IsDistinct (λ (x : SearchResult). x.id) rows
      → first_where (is_owned user id) rows ≡ some r
      → may_again now r.evaluation_status r.next_attempt_at ≡ true
      → update_where (re_evaluable now user id) f rows ≡ update_where (is_owned user id) f rows
  unfolding update_where re_evaluable first_where
  update_again f [] r d h m = cc
  update_again f (x ∷ rows) r d h m = elim (Bool-cases (is_owned user id x)) [
    | inl t ↦
        let xid : x.id ≡ id = ground (arith, t) in
        let rest =
          update_none f rows (subst (λ n. All (λ (y : SearchResult). y.id ≢ n) rows) xid d.0) in
        let m' : may_again now x.evaluation_status x.next_attempt_at ≡ true =
          subst (λ (y : SearchResult). may_again now y.evaluation_status y.next_attempt_at ≡ true)
            (sym (first x r rows t h)) m in
        rw (t, m') (ap (λ (l : List SearchResult). f x ∷ l) rest)
    | inr g ↦
        rw g
          (ap (λ (l : List SearchResult). x ∷ l) (update_again f rows r d.1 (ground (arith, g)) m))
  ]

-- The result is done, failed or waits for a later attempt.
abbrev pub MayAgain : ℕ → SearchResult → Type 0
MayAgain now r =
    (r.evaluation_status ≡ EvaluationState.done)
    ⊎ (r.evaluation_status ≡ EvaluationState.failed)
    ⊎ ((r.evaluation_status ≡ EvaluationState.pending)
        × ((next : ℕ) × (r.next_attempt_at ≡ some next) × (now < next)))

may_again-MayAgain :
    (now : ℕ) (r : SearchResult)
    → may_again now r.evaluation_status r.next_attempt_at ≡ true
    → MayAgain now r
may_again-MayAgain now r h = by_state r.evaluation_status r.next_attempt_at refl refl
  where
    by_state :
        (s : EvaluationState) (n : Option ℕ)
        → r.evaluation_status ≡ s
        → r.next_attempt_at ≡ n
        → MayAgain now r
    by_state EvaluationState.done n p q = inl p
    by_state EvaluationState.failed n p q = inr (inl p)
    by_state EvaluationState.processing n p q = absurd (ground (arith, p, q))
    by_state EvaluationState.pending none p q = absurd (ground (arith, p, q))
    by_state EvaluationState.pending (some t) p q = inr (inr (p, (t, q, ground (arith, p, q))))

-- The result with no attempt made, no error and no claim, which may be claimed at any time.
abbrev pub queued_row : ℕ → SearchResult → SearchResult
queued_row now r = record r {
  evaluation_status = EvaluationState.pending;
  attempts = 0;
  next_attempt_at = none;
  claimed_at = none;
  last_error = [];
  updated_at = now;
}

IsFramed-queue_again :
    (now user id : ℕ) → IsFramed (changed (re_evaluable now user id) (queue_again now))
IsFramed-queue_again now user id = record {
  id = λ r. ground arith;
  user_id = λ r. ground arith;
  job_search_id = λ r. ground arith;
  job_id = λ r. ground arith;
}

-- A queued result of an embedded job may be claimed at any time.
claimable-queue_again :
    (now t stale : ℕ) (db : Database) (r : SearchResult)
    → job_embedded db.jobs r.job_id ≡ true
    → claimable_result db.jobs t stale (queue_again now r) ≡ true
unfolding claimable_result
claimable-queue_again now t stale db r e = ground (arith, e)

-- What may not be queued again is being evaluated, or may be claimed already.
busy :
    (now stale : ℕ) (db : Database) (r : SearchResult)
    → may_again now r.evaluation_status r.next_attempt_at ≡ false
    → (r.evaluation_status ≡ EvaluationState.processing)
      ⊎ (job_embedded db.jobs r.job_id ≡ true → claimable_result db.jobs now stale r ≡ true)
unfolding claimable_result
busy now stale db r h = by_state r.evaluation_status r.next_attempt_at refl refl
  where
    by_state :
        (s : EvaluationState) (n : Option ℕ)
        → r.evaluation_status ≡ s
        → r.next_attempt_at ≡ n
        → (r.evaluation_status ≡ EvaluationState.processing)
          ⊎ (job_embedded db.jobs r.job_id ≡ true → claimable_result db.jobs now stale r ≡ true)
    by_state EvaluationState.done n p q = absurd (ground (arith, p, q))
    by_state EvaluationState.failed n p q = absurd (ground (arith, p, q))
    by_state EvaluationState.processing n p q = inl p
    by_state EvaluationState.pending none p q = inr (λ e. ground (arith, e, p, q))
    by_state EvaluationState.pending (some t) p q = inr (λ e. ground (arith, e, p, q))

of_first :
    (P : Row → Type 0) (q : Row → Bool) (rows : List Row) (x : Row)
    → All P rows
    → first_where q rows ≡ some x
    → P x
unfolding first_where
of_first P q [] x h e = cc
of_first P q (y ∷ rows) x h e = elim (Bool-cases (q y)) [
  | inl t ↦ subst P (some_inj (ap (λ b. if b then some y else first_where q rows) (sym t) ∙ e)) h.0
  | inr f ↦ of_first P q rows x h.1 (ap (λ b. if b then some y else first_where q rows) (sym f) ∙ e)
]
  where
    some_inj : some y ≡ some x → y ≡ x
    some_inj g = cc

module _ (decode : Text → Decoded) (collates : Text → Text → Bool) (now user id : ℕ) (db : Database)
    (d : Detail) (r : SearchResult) (keyed : IsKeyed db)
    (found : get decode collates user id db ≡ ok d)
    (row : first_where (is_owned user id) db.results ≡ some r) where
  abbrev again : Reply
  again = (
    ok (record d { evaluation_status = EvaluationState.pending; updated_at = now }),
    with_results db (update_where (re_evaluable now user id) (queue_again now) db.results),
  )

  -- The user's row is the one that is shown.
  shown_row :
      (x : Row)
      → first_where (λ (y : Row). y.result.id == id) (visible user db) ≡ some x
      → r ≡ x.result
  shown_row x e = some_inj (
      sym row
      ∙ ap (λ n. first_where (is_owned user n) db.results)
          (sym (
            (==_iff x.result.id id).0
              (first_where-true (λ (y : Row). y.result.id == id) (visible user db) e)))
      ∙ of_first (λ (y : Row). IsFound user db.results y.result) (λ (y : Row). y.result.id == id)
          (visible user db) x (visible-IsFound db user keyed.results) e)
    where
      some_inj : {a b : SearchResult} → some a ≡ some b → a ≡ b
      some_inj q = cc

  queued :
      may_again now r.evaluation_status r.next_attempt_at ≡ true
      → read_back decode collates user id again.1 ≡ again
  unfolding re_evaluable
  queued m =
      let (x, e, same, own) = row-get decode collates user id db d found in
      let c : SearchResult → SearchResult = changed (re_evaluable now user id) (queue_again now) in
      let m' : may_again now x.result.evaluation_status x.result.next_attempt_at ≡ true =
        subst (λ (y : SearchResult). may_again now y.evaluation_status y.next_attempt_at ≡ true)
          (shown_row x e) m in
      ap (λ o. (o, again.1))
        (ap (λ l. get decode collates user id (with_results db l))
            (update_where-map (re_evaluable now user id) (queue_again now) db.results)
          ∙ get-changed decode collates c (IsFramed-queue_again now user id) user id db x e
          ∙ ap
              (λ b. ok (
                detail decode collates db.store
                  (record x { result = if b then queue_again now x.result else x.result })))
              (both own m')
          ∙ ap
              (λ (y : Detail).
                ok (record y { evaluation_status = EvaluationState.pending; updated_at = now }))
              same)
    where
      both : {a b : Bool} → a ≡ true → b ≡ true → (a && b) ≡ true
      both p q = ground (arith, p, q)

  replied : re_evaluate decode collates now user id db ≡ (
      if may_again now r.evaluation_status r.next_attempt_at
      then again
      else (err ResultsError.evaluation_in_progress, db))
  unfolding re_evaluate
  replied =
      ap (queue_if_found decode collates now user id db) found
      ∙ ap
          (λ n.
            if n == 0
            then (err ResultsError.evaluation_in_progress, db)
            else read_back decode collates user id again.1)
          (count_again now user id db.results r keyed.results row)
      ∙ elim (Bool-cases (may_again now r.evaluation_status r.next_attempt_at)) [
        | inl t ↦ rw t (queued t)
        | inr f ↦ rw f
      ]

-- A user asks for another evaluation of a result that is shown to them. Either it is done, failed or
-- waits for a later attempt, the reply is the result as pending, with its evaluation as it was, and
-- the user's row with that id is pending with no attempt, no waiting time, no claim and no error,
-- and all else as it was, so that the pipeline may claim it at any time. Or the reply is an error and
-- nothing changes; then the result is being evaluated, or may be claimed already. No two rows of a
-- table have the same id, and the result's job has its embedding.
pub re_evaluate_lem :
    (decode : Text → Decoded) (collates : Text → Text → Bool) (now user id t stale : ℕ)
    (db : Database) (d : Detail) (r : SearchResult)
    → IsKeyed db
    → get decode collates user id db ≡ ok d
    → first_where (is_owned user id) db.results ≡ some r
    → job_embedded db.jobs r.job_id ≡ true
    → ((re_evaluate decode collates now user id db ≡ (
      ok (record d { evaluation_status = EvaluationState.pending; updated_at = now }),
      with_results db (update_where (users_row user id) (queued_row now) db.results),
    ))
        × MayAgain now r
        × (claimable_result db.jobs t stale (queued_row now r) ≡ true))
      ⊎ ((re_evaluate decode collates now user id db
            ≡ (err ResultsError.evaluation_in_progress, db))
          × ((r.evaluation_status ≡ EvaluationState.processing)
              ⊎ (claimable_result db.jobs now stale r ≡ true)))
re_evaluate_lem decode collates now user id t stale db d r keyed found row embedded =
    let e = replied decode collates now user id db d r keyed found row in
    elim (Bool-cases (may_again now r.evaluation_status r.next_attempt_at)) [
      | inl m ↦ inl (
        e
            ∙ ap
                (λ b.
                  if b
                  then again decode collates now user id db d r keyed found row
                  else (err ResultsError.evaluation_in_progress, db))
                m
            ∙ ap
                (λ l. (
                  ok (record d { evaluation_status = EvaluationState.pending; updated_at = now }),
                  with_results db l,
                ))
                (update_again now user id (queue_again now) db.results r keyed.results row m),
        may_again-MayAgain now r m,
        claimable-queue_again now t stale db r embedded,
      )
      | inr f ↦ inr (
        e
            ∙ ap
                (λ b.
                  if b
                  then again decode collates now user id db d r keyed found row
                  else (err ResultsError.evaluation_in_progress, db))
                f,
        elim (busy now stale db r f) [ inl p ↦ inl p | inr g ↦ inr (g embedded) ],
      )
    ]

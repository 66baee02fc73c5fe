-- ===== src/Pipeline/Evaluate/Retries.antt =====
-- How often the evaluation of a result is tried: the passes of EvaluateOne over one row.
use cv_evaluator.Prelude.{
  ℕ, ◌+◌, ◌≤◌, ◌<◌, ◌≡◌, ◌≢◌, sym, ap, ◌∙◌, Bool, true, false, not, ◌&&◌, none, some, List, [], ◌∷◌,
  arith, ◌↔◌, ◌⊎◌, inl, inr, All,
}
use native.Mathlib.Decide.{dec_lt}
use cv_evaluator.Prelude.Table.{count_where}
use cv_evaluator.Models.{SearchResult, EvaluationState}
use cv_evaluator.Pipeline.Config.{Config, backoff}
use cv_evaluator.Pipeline.Failure.{StepError, apply_failure}
use cv_evaluator.Pipeline.Claim.{start_result}
use cv_evaluator.Pipeline.Evaluate.{Evaluated, is_none, evaluate_updates}

-- A pass: when the result is claimed, when its outcome is written, whether the process was shutting
-- down then, and the outcome.
pub record Round : Type 0 where
  pub claimed : ℕ
  pub ended : ℕ
  pub cancelled : Bool
  pub outcome : Evaluated

-- What a pass makes of the row, if nobody else touches it meanwhile.
abbrev pub pass : Config → SearchResult → Round → SearchResult
pass c t r =
    let s = start_result r.claimed t in evaluate_updates c r.ended s r.outcome r.cancelled s

abbrev pub passes : Config → SearchResult → List Round → SearchResult
passes c t [] = t
passes c t (r ∷ rs) = passes c (pass c t r) rs

-- The evaluation failed with an error that may be retried.
abbrev pub Fails : Round → Type 0
Fails r =
    (r.cancelled ≡ false) × ((e : StepError) × (r.outcome.error ≡ some e) × (e.permanent ≡ false))

-- The process shut down before there was a response, or the user had no CV.
abbrev pub IsFree : Round → Type 0
IsFree r =
    ((r.cancelled ≡ true) × (r.outcome.response ≡ none))
    ⊎ ((r.cancelled ≡ false) × (r.outcome.error ≡ none) × (r.outcome.cv ≡ none))

abbrev pub is_failure : Round → Bool
is_failure r = not r.cancelled && not (is_none r.outcome.error)

-- How many of the passes failed.
abbrev pub failures : List Round → ℕ
failures rs = count_where is_failure rs

module _ (c : Config) where
  attempts-Fails : (t : SearchResult) (r : Round) → Fails r → (pass c t r).attempts ≡ t.attempts + 1
  unfolding evaluate_updates start_result apply_failure
  attempts-Fails t r (d, (e, h, p)) = ground (arith, d, h, p)

  attempts-IsFree : (t : SearchResult) (r : Round) → IsFree r → (pass c t r).attempts ≡ t.attempts
  unfolding evaluate_updates start_result apply_failure
  attempts-IsFree t r (inl (d, n)) = ground (arith, d, n)
  attempts-IsFree t r (inr (d, n, v)) = ground (arith, d, n, v)

  is_failure-Fails : (r : Round) → Fails r → is_failure r ≡ true
  is_failure-Fails r (d, (e, h, p)) = ground (arith, d, h)

  is_failure-IsFree : (r : Round) → IsFree r → is_failure r ≡ false
  is_failure-IsFree r (inl (d, n)) = ground (arith, d)
  is_failure-IsFree r (inr (d, n, v)) = ground (arith, d, n)

  attempts-passes :
      (t : SearchResult) (rs : List Round)
      → All (λ r. Fails r ⊎ IsFree r) rs
      → (passes c t rs).attempts ≡ t.attempts + failures rs
  unfolding count_where
  attempts-passes t [] h = omega arith
  attempts-passes t (r ∷ rs) (inl f, h) =
      let e = attempts-Fails t r f in
      attempts-passes (pass c t r) rs h ∙ rw (is_failure-Fails r f) (omega (arith, e))
  attempts-passes t (r ∷ rs) (inr f, h) =
      let e = attempts-IsFree t r f in
      attempts-passes (pass c t r) rs h ∙ rw (is_failure-IsFree r f) (omega (arith, e))

  last_failure :
      (t : SearchResult) (r : Round)
      → Fails r
      → ((c.max_attempts ≤ t.attempts + 1)
          → (pass c t r).evaluation_status ≡ EvaluationState.failed)
        × ((t.attempts + 1 < c.max_attempts)
            → ((pass c t r).evaluation_status ≡ EvaluationState.pending)
              × ((pass c t r).next_attempt_at ≡ some (r.ended + backoff c (t.attempts + 1))))
        × ((pass c t r).claimed_at ≡ none)
  unfolding evaluate_updates start_result apply_failure
  last_failure t r (d, (e, h, p)) =
      (ground (arith, d, h, p), ground (arith, d, h, p), ground (arith, d, h, p))

  -- Only failures use up the attempts of a result: after passes that failed without a permanent error,
  -- were cut off by a shutdown or found no CV, and then a pass that failed, with no more failures
  -- in all than there were attempts left, the result has as many attempts more as there were
  -- failures. It is failed exactly if they have used up its attempts; otherwise it is pending, and
  -- waits for the backoff of that attempt. It is not claimed.
  pub passes_lem :
      (t : SearchResult) (rs : List Round) (r : Round)
      → All (λ x. Fails x ⊎ IsFree x) rs
      → Fails r
      → let n = t.attempts + failures rs + 1 in
        let left = pass c (passes c t rs) r in
        n ≤ c.max_attempts
        → (left.attempts ≡ n)
          × ((left.evaluation_status ≡ EvaluationState.failed) ↔ (n ≡ c.max_attempts))
          × (n < c.max_attempts
              → (left.evaluation_status ≡ EvaluationState.pending)
                × (left.next_attempt_at ≡ some (r.ended + backoff c n)))
          × (left.claimed_at ≡ none)
  passes_lem t rs r h f bound =
      let before = passes c t rs in
      let e = attempts-passes t rs h in
      let (last, early, free) = last_failure before r f in
      (
        attempts-Fails before r f ∙ ap (λ m. m + 1) e,
        (
          λ s. elim (dec_lt (before.attempts + 1) c.max_attempts) [
            | yes q ↦ absurd (differ (sym (early q).0 ∙ s))
            | no q ↦ omega (arith, e, bound)
          ],
          λ s. last (omega (arith, e, s)),
        ),
        λ q.
            let (s, w) = early (omega (arith, e, q)) in
            (s, w ∙ ap (λ m. some (r.ended + backoff c (m + 1))) e),
        free,
      )
    where
      differ : EvaluationState.pending ≢ EvaluationState.failed
      differ q = cc

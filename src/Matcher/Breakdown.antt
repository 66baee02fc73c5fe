-- ===== src/Matcher/Breakdown.antt =====
-- The breakdown that decodeResponse keeps.
use cv_evaluator.Prelude.{
  ℕ, ◌≤◌, ◌≡◌, ◌≢◌, true, false, not, ◌&&◌, ◌||◌, Option, none, some, List, [], ◌∷◌, if◌then◌else◌,
  arith, Bool-cases, All, All-map, inl, inr, sym,
}
use cv_evaluator.Prelude.Text.{
  Text, trim_space, to_lower, text_eq, text_eq_iff, text_eq→eq, text_eq_comm,
}
use cv_evaluator.Prelude.Int.{ℤ, pos, negsuc}
use cv_evaluator.Matcher.{
  RawScore, CriterionScore, is_evaluation_criterion, text_in, clamp_score, score, clean_breakdown,
  clean_breakdown_from,
}

-- The score that the LLM gave first for a criterion, in whatever letter case and with whatever
-- space around its name.
pub first_score : List RawScore → Text → Option ℤ
first_score [] c = none
first_score (s ∷ ss) c =
    if text_eq (to_lower (trim_space s.criterion)) c then some s.score else first_score ss c

abbrev pub clamped : Option ℤ → Option ℕ
clamped none = none
clamped (some z) = some (clamp_score z)

score-clean_breakdown_from :
    (ss : List RawScore) (seen : List Text) (c : Text)
    → score (clean_breakdown_from seen ss) c ≡ (
        if is_evaluation_criterion c && not (text_in c seen)
        then clamped (first_score ss c)
        else none)
unfolding score clean_breakdown_from first_score text_in
score-clean_breakdown_from [] seen c = ground arith
score-clean_breakdown_from (s ∷ ss) seen c =
    let d = to_lower (trim_space s.criterion) in
    ground (
      arith,
      text_eq→eq d c,
      text_eq_comm c d,
      score-clean_breakdown_from ss seen c,
      score-clean_breakdown_from ss (d ∷ seen) c,
    )

-- Of a known criterion the score is the first that the LLM gave, clamped to 0-100; no other
-- criterion has a score.
pub score-clean_breakdown :
    (ss : List RawScore) (c : Text)
    → score (clean_breakdown ss) c
      ≡ (if is_evaluation_criterion c then clamped (first_score ss c) else none)
unfolding clean_breakdown text_in
score-clean_breakdown ss c = ground (arith, score-clean_breakdown_from ss [] c)

clamp_score-le : (z : ℤ) → clamp_score z ≤ 100
unfolding clamp_score
clamp_score-le (pos n) = omega arith
clamp_score-le (negsuc n) = omega arith

-- The criteria of a list of scores are all different.
abbrev pub DistinctCriteria : List CriterionScore → Type 0
DistinctCriteria [] = Unit
DistinctCriteria (s ∷ ss) = All (λ t. s.criterion ≢ t.criterion) ss × DistinctCriteria ss

abbrev pub IsInRange : CriterionScore → Type 0
IsInRange s = (is_evaluation_criterion s.criterion ≡ true) × (s.score ≤ 100)

abbrev IsNew : List Text → CriterionScore → Type 0
IsNew seen s = IsInRange s × (text_in s.criterion seen ≡ false)

abbrev AreNew : List Text → List CriterionScore → Type 0
AreNew seen ss = All (IsNew seen) ss × DistinctCriteria ss

IsNew-tail : (c : Text) (seen : List Text) (s : CriterionScore) → IsNew (c ∷ seen) s → IsNew seen s
unfolding text_in
IsNew-tail c seen s h = ground arith

IsNew-ne : (c : Text) (seen : List Text) (s : CriterionScore) → IsNew (c ∷ seen) s → c ≢ s.criterion
unfolding text_in
IsNew-ne c seen s h = λ e. ground (arith, (text_eq_iff s.criterion c).1 (sym e))

-- A score whose criterion is known and new may stand before scores that are new after it.
AreNew-cons :
    (s : CriterionScore) (seen : List Text) (rest : List CriterionScore)
    → IsNew seen s
    → AreNew (s.criterion ∷ seen) rest
    → AreNew seen (s ∷ rest)
AreNew-cons s seen rest new (later, distinct) = (
  (new, All-map (IsNew (s.criterion ∷ seen)) (IsNew seen) rest (IsNew-tail s.criterion seen) later),
  (
    All-map (IsNew (s.criterion ∷ seen)) (λ t. s.criterion ≢ t.criterion) rest
        (IsNew-ne s.criterion seen) later,
    distinct,
  ),
)

clean_breakdown_from-AreNew :
    (ss : List RawScore) (seen : List Text) → AreNew seen (clean_breakdown_from seen ss)
unfolding clean_breakdown_from
clean_breakdown_from-AreNew [] seen = (tt, tt)
clean_breakdown_from-AreNew (s ∷ ss) seen =
    let c = to_lower (trim_space s.criterion) in
    elim (Bool-cases (not (is_evaluation_criterion c) || text_in c seen)) [
      | inl t ↦ rw t (clean_breakdown_from-AreNew ss seen)
      | inr f ↦ rw f (
          AreNew-cons
            (record { criterion = c; score = clamp_score s.score; reason = trim_space s.reason })
            seen (clean_breakdown_from (c ∷ seen) ss)
            ((ground arith, clamp_score-le s.score), ground arith)
            (clean_breakdown_from-AreNew ss (c ∷ seen)))
    ]

-- Every score that is kept is of a known criterion and lies in 0-100, and no criterion has two.
pub clean_breakdown_lem :
    (ss : List RawScore)
    → All IsInRange (clean_breakdown ss) × DistinctCriteria (clean_breakdown ss)
unfolding clean_breakdown
clean_breakdown_lem ss =
    let (new, distinct) = clean_breakdown_from-AreNew ss [] in
    (All-map (IsNew []) IsInRange (clean_breakdown_from [] ss) (λ s h. h.0) new, distinct)

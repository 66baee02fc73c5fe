-- ===== src/Results/Breakdown.antt =====
-- The order of the scores of an evaluation.
use mathlib.Core.List.{append-nil, append_assoc}
use cv_evaluator.Prelude.{
  ◌≡◌, refl, ap, ◌∙◌, Bool, false, not, ◌||◌, List, [], ◌∷◌, ◌++◌, map, arith, inl, inr, Bool-cases,
}
use cv_evaluator.Prelude.Text.{Text, text_eq, text_eq→eq, text_eq_comm}
use cv_evaluator.Prelude.Table.{select}
use cv_evaluator.Models.{EvaluationScore}
use cv_evaluator.Matcher.{CriterionScore, evaluation_criteria, text_in, is_evaluation_criterion}
use cv_evaluator.Results.Details.{
  Marked, shown, take_criterion, take_criteria, take_unused, order_breakdown,
}

-- The scores of a criterion.
abbrev of_criterion : Text → EvaluationScore → Bool
of_criterion c sc = text_eq sc.criterion c

-- The scores of each of the criteria in turn.
pub by_criteria : List Text → List EvaluationScore → List CriterionScore
by_criteria [] scores = []
by_criteria (c ∷ cs) scores = map shown (select (of_criterion c) scores) ++ by_criteria cs scores

-- The flags when the criteria `done` have been looked for.
marks : List Text → List EvaluationScore → List Marked
marks done [] = []
marks done (sc ∷ scores) = (text_in sc.criterion done, sc) ∷ marks done scores

text_in-append :
    (t c : Text) (ts : List Text) → text_in t (ts ++ c ∷ []) ≡ (text_in t ts || text_eq c t)
unfolding text_in
text_in-append t c [] = ground arith
text_in-append t c (u ∷ ts) = ground (arith, text_in-append t c ts)

take_criterion-marks :
    (c : Text) (done : List Text) (scores : List EvaluationScore)
    → text_in c done ≡ false
    → take_criterion c (marks done scores)
      ≡ (map shown (select (of_criterion c) scores), marks (done ++ c ∷ []) scores)
unfolding take_criterion marks select
take_criterion-marks c done [] h = refl
take_criterion-marks c done (sc ∷ scores) h =
    rw (take_criterion-marks c done scores h) (elim (Bool-cases (text_eq sc.criterion c)) [
      | inl t ↦
          let e = text_eq→eq sc.criterion c t in
          let unused : text_in sc.criterion done ≡ false = ap (λ x. text_in x done) e ∙ h in
          ground (arith, text_in-append sc.criterion c done, text_eq_comm c sc.criterion)
      | inr f ↦ ground (arith, text_in-append sc.criterion c done, text_eq_comm c sc.criterion)
    ])

-- No criterion is twice in the list, and none of them in `done`.
abbrev AreNew : List Text → List Text → Type 0
AreNew [] done = Unit
AreNew (c ∷ cs) done = (text_in c done ≡ false) × AreNew cs (done ++ c ∷ [])

take_criteria-marks :
    (cs done : List Text) (scores : List EvaluationScore)
    → AreNew cs done
    → take_criteria cs (marks done scores) ≡ (by_criteria cs scores, marks (done ++ cs) scores)
unfolding take_criteria by_criteria
take_criteria-marks [] done scores h = rw (append-nil done)
take_criteria-marks (c ∷ cs) done scores h = rw (take_criterion-marks c done scores h.0) (
    rw (take_criteria-marks cs (done ++ c ∷ []) scores h.1) (
      ap
        (λ (ds : List Text).
          (map shown (select (of_criterion c) scores) ++ by_criteria cs scores, marks ds scores))
        (append_assoc done (c ∷ []) cs)))

take_unused-marks :
    (done : List Text) (scores : List EvaluationScore)
    → take_unused (marks done scores)
      ≡ map shown (select (λ (sc : EvaluationScore). not (text_in sc.criterion done)) scores)
unfolding take_unused marks select
take_unused-marks done [] = refl
take_unused-marks done (sc ∷ scores) = ground (arith, take_unused-marks done scores)

marks_nil : (scores : List EvaluationScore) → map (λ sc. (false, sc)) scores ≡ marks [] scores
unfolding marks text_in
marks_nil [] = refl
marks_nil (sc ∷ scores) = ap (λ (l : List Marked). (false, sc) ∷ l) (marks_nil scores)

criteria_new : AreNew evaluation_criteria []
unfolding text_in text_eq
criteria_new = (refl, (refl, (refl, (refl, (refl, tt)))))

-- The breakdown has every score once: first those of the known criteria, in the order of the list
-- of criteria, then all others; the scores of one criterion, and the others, in the order in which
-- they were loaded.
pub order_breakdown_lem :
    (scores : List EvaluationScore)
    → order_breakdown scores
      ≡ by_criteria evaluation_criteria scores
        ++ map shown
            (select (λ (sc : EvaluationScore). not (is_evaluation_criterion sc.criterion)) scores)
unfolding order_breakdown is_evaluation_criterion
order_breakdown_lem scores = rw (marks_nil scores) (
    rw (take_criteria-marks evaluation_criteria [] scores criteria_new) (
      ap (λ (l : List CriterionScore). by_criteria evaluation_criteria scores ++ l)
        (take_unused-marks evaluation_criteria scores)))

-- ===== src/Matcher/Overall.antt =====
-- The overall score that decodeResponse gives, and the response as a whole.
use mathlib.Core.Path.{subst}
use cv_evaluator.Prelude.{ℕ, min, ◌≡◌, refl, true, List, [], ◌∷◌, arith, Bool-cases, inl, inr, In}
use cv_evaluator.Prelude.Text.{text_eq_iff, text_eq→eq}
use cv_evaluator.Matcher.{
  Requirement, RawResponse, clamp_score, cap_overall, misses_must, clean_requirements,
  clean_response, requirement_must, requirement_not_met, must_have_cap,
}

-- The CV misses a must-have requirement of the list.
abbrev pub MissesMust : List Requirement → Type 0
MissesMust rs =
    (r : Requirement) × In r rs × (r.importance ≡ requirement_must) × (r.met ≡ requirement_not_met)

cap_overall-missed :
    (rs : List Requirement) (n : ℕ) → MissesMust rs → cap_overall rs n ≡ min n must_have_cap
unfolding cap_overall
cap_overall-missed [] n (r, i, m, u) = elim i [ ]
cap_overall-missed (q ∷ rs) n (r, inl e, m, u) =
    let here : misses_must r ≡ true = ground (
      arith,
      (text_eq_iff r.importance requirement_must).1 m,
      (text_eq_iff r.met requirement_not_met).1 u,
    ) in
    rw (subst (λ x. misses_must x ≡ true) e here)
cap_overall-missed (q ∷ rs) n (r, inr i, m, u) =
    ground (arith, cap_overall-missed rs n (r, i, m, u))

cap_overall-met : (rs : List Requirement) (n : ℕ) → ¬ MissesMust rs → cap_overall rs n ≡ n
unfolding cap_overall
cap_overall-met [] n h = refl
cap_overall-met (q ∷ rs) n h = elim (Bool-cases (misses_must q)) [
  | inl t ↦ absurd (h (q, inl refl, text_eq→eq _ _ (ground arith), text_eq→eq _ _ (ground arith)))
  | inr f ↦ rw f (cap_overall-met rs n (λ (r, i, m, u). h (r, inr i, m, u)))
]

-- The overall score is the LLM's, clamped to 0-100, and at most 69 where one of the requirements
-- that are kept is a must-have that the CV does not meet.
pub overall_score-clean_response :
    (r : RawResponse)
    → let kept = (clean_response r).requirements in
      (MissesMust kept → (clean_response r).overall_score ≡ min (clamp_score r.overall_score) 69)
      × (¬ MissesMust kept → (clean_response r).overall_score ≡ clamp_score r.overall_score)
unfolding clean_response
overall_score-clean_response r = (
  cap_overall-missed (clean_requirements r.requirements) (clamp_score r.overall_score),
  cap_overall-met (clean_requirements r.requirements) (clamp_score r.overall_score),
)

-- ===== src/Pipeline/Evaluations/Saved.antt =====
-- What saveEvaluation stores.
use mathlib.Core.List.{append-nil}
use mathlib.Core.Path.{ap₂}
use cv_evaluator.Prelude.{
  none, ◌&&◌, ℕ, ◌≡◌, ◌≢◌, refl, sym, ap, ◌∙◌, Bool, true, false, some, List, [], ◌∷◌, ◌++◌, map,
  ◌==◌, if◌then◌else◌, not, arith, inl, inr, Bool-cases, ==_iff, All, All-map, ◌↔◌,
}
use cv_evaluator.Prelude.Table.{select, exists_where}
use cv_evaluator.Models.{Evaluation, EvaluationScore}
use cv_evaluator.Matcher.{CriterionScore}
use cv_evaluator.Matcher.Breakdown.{DistinctCriteria}
use cv_evaluator.Pipeline.Evaluations.{
  Store, is_for, upsert, ids_for, of_evaluation, score_row, replaced_scores, save_scores,
  save_evaluation, replace_scores, with_scores, has_repeat, is_taken,
}
use cv_evaluator.Prelude.Text.{Text, text_eq, text_eq_iff}

-- At most one evaluation for each search result and CV (the unique index), and no id twice.
abbrev pub IsUnique : List Evaluation → Type 0
IsUnique [] = Unit
IsUnique (e ∷ rows) =
    All (λ (d : Evaluation). (is_for e.search_result_id e.cv_id d ≡ false) × (d.id ≢ e.id)) rows
    × IsUnique rows

-- The id that the evaluation `e` is stored under: that of the row it overwrites, or its own.
pub stored_id : Evaluation → List Evaluation → ℕ
stored_id e [] = e.id
stored_id e (old ∷ rows) =
    if is_for e.search_result_id e.cv_id old then old.id else stored_id e rows

-- The time of creation that it keeps.
pub stored_at : Evaluation → List Evaluation → ℕ
stored_at e [] = e.created_at
stored_at e (old ∷ rows) =
    if is_for e.search_result_id e.cv_id old then old.created_at else stored_at e rows

-- No row for another CV or another result is the one for these.
select-none :
    (r c : ℕ) (rows : List Evaluation)
    → All (λ (d : Evaluation). is_for r c d ≡ false) rows
    → select (is_for r c) rows ≡ []
unfolding select
select-none r c [] h = refl
select-none r c (d ∷ rows) h = rw h.0 (select-none r c rows h.1)

is_for_iff :
    (r c : ℕ) (d : Evaluation) → (is_for r c d ≡ true) ↔ ((d.search_result_id ≡ r) × (d.cv_id ≡ c))
is_for_iff r c d = (ground arith, ground arith)

pub is_for_self : (e : Evaluation) → is_for e.search_result_id e.cv_id e ≡ true
is_for_self e = ground arith

-- The row that the save leaves for the search result and the CV, and no other for them.
pub select-upsert :
    (e : Evaluation) (rows : List Evaluation)
    → IsUnique rows
    → select (is_for e.search_result_id e.cv_id) (upsert e rows)
      ≡ record e { id = stored_id e rows; created_at = stored_at e rows } ∷ []
unfolding upsert stored_id stored_at select
select-upsert e [] u = rw (is_for_self e)
select-upsert e (old ∷ rows) u = elim (Bool-cases (is_for e.search_result_id e.cv_id old)) [
  | inl t ↦
      let (er, ec) = (is_for_iff e.search_result_id e.cv_id old).0 t in
      let others : All (λ (d : Evaluation). is_for e.search_result_id e.cv_id d ≡ false) rows =
        All-map
          (λ (d : Evaluation). (is_for old.search_result_id old.cv_id d ≡ false) × (d.id ≢ old.id))
          (λ (d : Evaluation). is_for e.search_result_id e.cv_id d ≡ false) rows
          (λ d h. ap₂ (λ x y. is_for x y d) (sym er) (sym ec) ∙ h.0) u.0 in
      rw (t, is_for_self e)
        (ap (λ (l : List Evaluation). record e { id = old.id; created_at = old.created_at } ∷ l)
          (select-none e.search_result_id e.cv_id rows others))
  | inr f ↦ rw (f, f) (select-upsert e rows u.1)
]

pub ids_for-upsert :
    (e : Evaluation) (rows : List Evaluation)
    → IsUnique rows
    → ids_for e.search_result_id e.cv_id (upsert e rows) ≡ stored_id e rows ∷ []
unfolding ids_for
ids_for-upsert e rows u = ap (map (λ (d : Evaluation). d.id)) (select-upsert e rows u)

-- No row has the id.
abbrev pub IsFresh : ℕ → List Evaluation → Type 0
IsFresh id rows = All (λ (d : Evaluation). d.id ≢ id) rows

others_apart :
    (t : Text) (bs : List CriterionScore)
    → (exists_where (λ (c : CriterionScore). text_eq c.criterion t) bs ≡ false)
      ↔ All (λ (c : CriterionScore). t ≢ c.criterion) bs
unfolding exists_where
others_apart t [] = (λ h. tt, λ h. refl)
others_apart t (b ∷ bs) = (
  λ h. (
    λ e. ground (arith, h, (text_eq_iff b.criterion t).1 (sym e)),
    (others_apart t bs).0 (ground (arith, h)),
  ),
  λ h. rw (apart h.0) ((others_apart t bs).1 h.1),
)
  where
    apart : t ≢ b.criterion → text_eq b.criterion t ≡ false
    apart n = elim (Bool-cases (text_eq b.criterion t)) [
      | inl y ↦ absurd (n (sym ((text_eq_iff b.criterion t).0 y)))
      | inr f ↦ f
    ]

has_repeat_iff : (b : List CriterionScore) → (has_repeat b ≡ false) ↔ DistinctCriteria b
unfolding has_repeat
has_repeat_iff [] = (λ h. tt, λ h. refl)
has_repeat_iff (b ∷ rest) = (
  λ h. (
    (others_apart b.criterion rest).0 (ground (arith, h)),
    (has_repeat_iff rest).0 (ground (arith, h)),
  ),
  λ h. rw ((others_apart b.criterion rest).1 h.0) ((has_repeat_iff rest).1 h.1),
)

fresh-not_taken :
    (e : Evaluation) (rows : List Evaluation) → IsFresh e.id rows → is_taken e rows ≡ false
unfolding is_taken exists_where
fresh-not_taken e rows h = rw (none_has rows h) (and_false _)
  where
    none_has :
        (rows : List Evaluation)
        → IsFresh e.id rows
        → exists_where (λ (d : Evaluation). d.id == e.id) rows ≡ false
    none_has [] h = refl
    none_has (d ∷ rows) h = ground (arith, h.0, none_has rows h.1)

    and_false : (b : Bool) → (b && false) ≡ false
    and_false true = refl
    and_false false = refl

-- Past the keys, saving fails exactly if the scores cannot be replaced.
save_evaluation-with_scores :
    (e : Evaluation) (b : List CriterionScore) (s : Store)
    → IsUnique s.evaluations
    → IsFresh e.id s.evaluations
    → save_evaluation e b s
      ≡ with_scores
          (stored_id e s.evaluations)
          (upsert e s.evaluations)
          (replace_scores (stored_id e s.evaluations) b s.scores)
unfolding save_evaluation
save_evaluation-with_scores e b s u fresh =
    rw (fresh-not_taken e s.evaluations fresh)
      (ap (save_scores (upsert e s.evaluations) b s.scores) (ids_for-upsert e s.evaluations u))

pub save_evaluation_lem :
    (e : Evaluation) (b : List CriterionScore) (s : Store)
    → IsUnique s.evaluations
    → IsFresh e.id s.evaluations
    → DistinctCriteria b
    → save_evaluation e b s
      ≡ some (
        stored_id e s.evaluations,
        record {
          evaluations = upsert e s.evaluations;
          scores = replaced_scores (stored_id e s.evaluations) b s.scores;
        },
      )
unfolding replace_scores
save_evaluation_lem e b s u fresh apart =
    save_evaluation-with_scores e b s u fresh
    ∙ ap
        (λ c.
          with_scores (stored_id e s.evaluations) (upsert e s.evaluations)
            (if c then none else some (replaced_scores (stored_id e s.evaluations) b s.scores)))
        ((has_repeat_iff b).1 apart)

save_evaluation-none :
    (e : Evaluation) (b : List CriterionScore) (s : Store)
    → IsUnique s.evaluations
    → IsFresh e.id s.evaluations
    → ¬ DistinctCriteria b
    → save_evaluation e b s ≡ none
unfolding replace_scores
save_evaluation-none e b s u fresh repeats = elim (Bool-cases (has_repeat b)) [
  | inl t ↦
      save_evaluation-with_scores e b s u fresh
      ∙ ap
          (λ c.
            with_scores (stored_id e s.evaluations) (upsert e s.evaluations)
              (if c then none else some (replaced_scores (stored_id e s.evaluations) b s.scores)))
          t
  | inr f ↦ absurd (repeats ((has_repeat_iff b).0 f))
]

select-append :
    (p : EvaluationScore → Bool) (xs ys : List EvaluationScore)
    → select p (xs ++ ys) ≡ select p xs ++ select p ys
unfolding select
select-append p [] ys = refl
select-append p (x ∷ xs) ys = ground (arith, select-append p xs ys)

select_deleted :
    (id j : ℕ) (scores : List EvaluationScore)
    → select (of_evaluation j) (select (λ s. not (of_evaluation id s)) scores)
      ≡ (if id == j then [] else select (of_evaluation j) scores)
unfolding select
select_deleted id j [] = ground arith
select_deleted id j (s ∷ scores) = ground (arith, select_deleted id j scores)

select_inserted :
    (id j : ℕ) (b : List CriterionScore)
    → select (of_evaluation j) (map (score_row id) b)
      ≡ (if id == j then map (score_row id) b else [])
unfolding select
select_inserted id j [] = ground arith
select_inserted id j (s ∷ b) = ground (arith, select_inserted id j b)

-- The scores of the evaluation are replaced as a set, and those of every other are kept.
select-replaced_scores :
    (id j : ℕ) (b : List CriterionScore) (scores : List EvaluationScore)
    → select (of_evaluation j) (replaced_scores id b scores)
      ≡ (if id == j then map (score_row id) b else select (of_evaluation j) scores)
unfolding replaced_scores
select-replaced_scores id j b scores =
    select-append (of_evaluation j) (select (λ s. not (of_evaluation id s)) scores)
      (map (score_row id) b)
    ∙ ap₂ {C = List EvaluationScore} (λ x y. x ++ y) (select_deleted id j scores)
        (select_inserted id j b)
    ∙ merged
  where
    merged :
        (if id == j then [] else select (of_evaluation j) scores)
          ++ (if id == j then map (score_row id) b else [])
        ≡ (if id == j then map (score_row id) b else select (of_evaluation j) scores)
    merged = elim (Bool-cases (id == j)) [
      | inl t ↦ rw t
      | inr f ↦ rw f (append-nil (select (of_evaluation j) scores))
    ]

-- What a save leaves: exactly one evaluation for its search result and CV, which is the new one
-- under the id that is returned (an older row keeps its time of creation); as the scores of that id
-- the new breakdown; and all other scores as they were.
pub record IsSaved (e : Evaluation) (b : List CriterionScore) (s t : Store) (id : ℕ) : Type 0 where
  pub one :
      (at : ℕ) × (select (is_for e.search_result_id e.cv_id) t.evaluations
        ≡ record e { id = id; created_at = at } ∷ [])
  pub scores : select (of_evaluation id) t.scores ≡ map (score_row id) b
  pub others :
      (j : ℕ) → id ≢ j → select (of_evaluation j) t.scores ≡ select (of_evaluation j) s.scores

-- On tables that keep the unique index of (search result, CV), with an id for a new row that no row
-- has: saving an evaluation whose breakdown scores no criterion twice succeeds, and stores it and
-- its scores, whether there was one before or not; with a criterion that is scored twice it fails.
pub save_evaluation-IsSaved :
    (e : Evaluation) (b : List CriterionScore) (s : Store)
    → IsUnique s.evaluations
    → IsFresh e.id s.evaluations
    → (DistinctCriteria b
        → (id : ℕ) × (t : Store) × (save_evaluation e b s ≡ some (id, t)) × IsSaved e b s t id)
      × (¬ DistinctCriteria b → save_evaluation e b s ≡ none)
save_evaluation-IsSaved e b s u fresh = (stores, save_evaluation-none e b s u fresh)
  where
    ne_test : (a c : ℕ) → a ≢ c → (a == c) ≡ false
    ne_test a c n = ground arith

    stores :
        DistinctCriteria b
        → (id : ℕ) × (t : Store) × (save_evaluation e b s ≡ some (id, t)) × IsSaved e b s t id
    stores apart =
        let id = stored_id e s.evaluations in
        (
          id,
          record { evaluations = upsert e s.evaluations; scores = replaced_scores id b s.scores },
          save_evaluation_lem e b s u fresh apart,
          record {
            one = (stored_at e s.evaluations, select-upsert e s.evaluations u);
            scores =
                select-replaced_scores id id b s.scores
                ∙ ap (λ c. if c then map (score_row id) b else select (of_evaluation id) s.scores)
                    ((==_iff id id).1 refl);
            others = λ j n.
                select-replaced_scores id j b s.scores
                ∙ ap (λ c. if c then map (score_row id) b else select (of_evaluation j) s.scores)
                    (ne_test id j n);
          },
        )

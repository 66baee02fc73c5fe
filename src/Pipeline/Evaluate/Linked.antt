-- ===== src/Pipeline/Evaluate/Linked.antt =====
-- A result and its current evaluation.
use mathlib.Core.Path.{subst}
use cv_evaluator.Prelude.{
  ℕ, ◌≡◌, ◌≢◌, refl, sym, ap, ◌∙◌, Bool, false, none, some, List, [], ◌∷◌, if◌then◌else◌, In, arith,
  inl, inr, ◌⊎◌, Bool-cases, Option-cases, ==_iff,
}
use cv_evaluator.Prelude.Table.{select, In-select, In-update_where}
use cv_evaluator.Models.{SearchResult, Evaluation, EvaluationScore}
use cv_evaluator.Matcher.Breakdown.{DistinctCriteria}
use cv_evaluator.Pipeline.Config.{Config}
use cv_evaluator.Pipeline.Failure.{apply_failure}
use cv_evaluator.Pipeline.Claim.{has_result_id}
use cv_evaluator.Pipeline.Evaluations.{
  Store, is_for, upsert, replaced_scores, lock_search_result, evaluation_row,
}
use cv_evaluator.Pipeline.Evaluations.Saved.{
  IsUnique, IsFresh, stored_id, stored_at, save_evaluation_lem, select-upsert,
}
use cv_evaluator.Pipeline.Evaluate.{
  Evaluated, Tables, evaluate_updates, record_result, evaluated_cv, copied_score, link,
  update_result, breakdown,
}

-- The evaluation of a result, where it has one, is stored, is of this result, and the result has
-- its score exactly if it is completed.
abbrev pub IsLinked : Store → SearchResult → Type 0
IsLinked s r =
    (r.evaluation_id ≡ none)
    ⊎ ((e : Evaluation) × In e s.evaluations
        × (r.evaluation_id ≡ some e.id)
        × (e.search_result_id ≡ r.id)
        × (r.overall_score ≡ copied_score e))

In-upsert :
    (e d : Evaluation) (rows : List Evaluation)
    → In d rows
    → is_for e.search_result_id e.cv_id d ≡ false
    → In d (upsert e rows)
unfolding upsert
In-upsert e d [] i n = elim i [ ]
In-upsert e d (old ∷ rows) (inl q) n =
    let n' : is_for e.search_result_id e.cv_id old ≡ false =
      ap (is_for e.search_result_id e.cv_id) (sym q) ∙ n in
    rw n' (inl q)
In-upsert e d (old ∷ rows) (inr i) n = elim (Bool-cases (is_for e.search_result_id e.cv_id old)) [
  | inl t ↦ rw t (inr i)
  | inr f ↦ rw f (inr (In-upsert e d rows i n))
]

In-select_head :
    (p : Evaluation → Bool) (rows : List Evaluation) (d : Evaluation)
    → select p rows ≡ d ∷ []
    → In d rows
In-select_head p rows d h = (In-select p d rows (subst (In d) (sym h) (inl refl))).0

-- A row of another search result keeps its evaluation through a save.
IsLinked-upsert :
    (e : Evaluation) (s : Store) (scores : List EvaluationScore) (r : SearchResult)
    → e.search_result_id ≢ r.id
    → IsLinked s r
    → IsLinked (record { evaluations = upsert e s.evaluations; scores = scores }) r
IsLinked-upsert e s scores r n (inl nil) = inl nil
IsLinked-upsert e s scores r n (inr (d, i, linked, of, score)) =
    inr (d, In-upsert e d s.evaluations i (other (λ q. n (sym q ∙ of))), linked, of, score)
  where
    other : d.search_result_id ≢ e.search_result_id → is_for e.search_result_id e.cv_id d ≡ false
    other h = ground arith

IsLinked_cong :
    (s : Store) (x y : SearchResult)
    → y.evaluation_id ≡ x.evaluation_id
    → y.id ≡ x.id
    → y.overall_score ≡ x.overall_score
    → IsLinked s x
    → IsLinked s y
IsLinked_cong s x y e i o (inl nil) = inl (e ∙ nil)
IsLinked_cong s x y e i o (inr (d, m, linked, of, score)) =
    inr (d, m, e ∙ linked, of ∙ sym i, o ∙ score)

module _ (c : Config) (now new_id : ℕ) (r : SearchResult) (o : Evaluated) (cancelled : Bool) where
  abbrev change : SearchResult → SearchResult
  change = evaluate_updates c now r o cancelled

  change_frame :
      (t : SearchResult)
      → ((change t).evaluation_id ≡ t.evaluation_id)
        × ((change t).id ≡ t.id)
        × ((change t).overall_score ≡ t.overall_score)
  unfolding evaluate_updates apply_failure
  change_frame t = (ground arith, ground arith, ground arith)

  change-IsLinked : (s : Store) (t : SearchResult) → IsLinked s t → IsLinked s (change t)
  change-IsLinked s t h = let (e, i, w) = change_frame t in IsLinked_cong s t (change t) e i w h

  abbrev row : ℕ → Evaluation
  row cv = evaluation_row c new_id now r cv o.response o.raw o.match_error

  search_result_id-row : (cv : ℕ) → (row cv).search_result_id ≡ r.id
  unfolding evaluation_row
  search_result_id-row cv = ground arith

  id-row : (cv : ℕ) → (row cv).id ≡ new_id
  unfolding evaluation_row
  id-row cv = ground arith

  module _ (t : Tables) (u : IsUnique t.store.evaluations)
      (fresh : IsFresh new_id t.store.evaluations) (apart : DistinctCriteria (breakdown o.response))
      (h : (x : SearchResult) → In x t.results → IsLinked t.store x) where
    -- Without an evaluation to store the links stay as they are.
    kept : (x : SearchResult) → In x (update_result r.id change t.results) → IsLinked t.store x
    kept x i =
        let (s, m, e) = In-update_where (has_result_id r.id) change x t.results i in
        elim (Bool-cases (has_result_id r.id s)) [
          | inl y ↦
              subst (IsLinked t.store) (sym (e ∙ ap (λ b. if b then change s else s) y))
                (change-IsLinked t.store s (h s m))
          | inr n ↦
              subst (IsLinked t.store) (sym (e ∙ ap (λ b. if b then change s else s) n)) (h s m)
        ]

    -- The evaluation is stored, and the result linked to it.
    saved :
        (cv : ℕ) (scores : List EvaluationScore) (x : SearchResult)
        → In x (
            update_result r.id
              (λ s. link (stored_id (row cv) t.store.evaluations) (row cv) (change s))
              t.results)
        → IsLinked (record { evaluations = upsert (row cv) t.store.evaluations; scores = scores }) x
    saved cv scores x i =
        let id = stored_id (row cv) t.store.evaluations in
        let store : Store = record {
          evaluations = upsert (row cv) t.store.evaluations;
          scores = scores;
        } in
        let f = λ (s : SearchResult). link id (row cv) (change s) in
        let (s, m, e) = In-update_where (has_result_id r.id) f x t.results i in
        elim (Bool-cases (has_result_id r.id s)) [
          | inl y ↦ subst (IsLinked store) (sym (e ∙ ap (λ b. if b then f s else s) y)) (
              inr (
                record (row cv) { id = id; created_at = stored_at (row cv) t.store.evaluations },
                In-select_head (is_for (row cv).search_result_id (row cv).cv_id) store.evaluations
                    (record (row cv) {
                      id = id;
                      created_at = stored_at (row cv) t.store.evaluations;
                    })
                    (select-upsert (row cv) t.store.evaluations u),
                refl,
                search_result_id-row cv ∙ sym ((==_iff s.id r.id).0 y) ∙ sym (change_frame s).1,
                refl,
              ))
          | inr n ↦ subst (IsLinked store) (sym (e ∙ ap (λ b. if b then f s else s) n)) (
              IsLinked-upsert (row cv) t.store scores s
                (λ q. cc (n, (==_iff s.id r.id).1 (sym q ∙ search_result_id-row cv))) (h s m))
        ]

    IsFresh-row : (cv : ℕ) → IsFresh (row cv).id t.store.evaluations
    IsFresh-row cv = subst (λ i. IsFresh i t.store.evaluations) (sym (id-row cv)) fresh

    -- Whatever the outcome, if it scores no criterion twice, the transaction succeeds on tables that
    -- keep the unique index of (search result, CV), with an id for a new evaluation that no row has,
    -- and then every result is linked to its evaluation, if every result was.
    pub record_result-IsLinked :
        (t' : Tables) × (record_result c now new_id r o cancelled t ≡ some t')
        × ((x : SearchResult) → In x t'.results → IsLinked t'.store x)
    unfolding record_result
    record_result-IsLinked = elim (Bool-cases (lock_search_result r.id t.results)) [
      | inr gone ↦ (t, rw gone, h)
      | inl there ↦ elim (Option-cases (evaluated_cv o)) [
        | inl nothing ↦ (
          record { results = update_result r.id change t.results; store = t.store },
          rw (there, nothing),
          kept,
        )
        | inr (cv, e) ↦
            let store : Store = record {
              evaluations = upsert (row cv) t.store.evaluations;
              scores =
                  replaced_scores (stored_id (row cv) t.store.evaluations) (breakdown o.response)
                    t.store.scores;
            } in
            (
              record {
                results =
                    update_result r.id
                      (λ s. link (stored_id (row cv) t.store.evaluations) (row cv) (change s))
                      t.results;
                store = store;
              },
              rw (there, e)
                  (rw (
                    save_evaluation_lem (row cv) (breakdown o.response) t.store u (IsFresh-row cv)
                      apart)),
              saved cv store.scores,
            )
      ]
    ]

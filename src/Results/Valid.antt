-- ===== src/Results/Valid.antt =====
-- The parameters of a list after they are validated.
use mathlib.Core.Path.{subst}
use cv_evaluator.Prelude.{
  ℕ, zero, suc, ◌≤◌, ◌≡◌, refl, sym, ap, ◌∙◌, true, false, ◌||◌, Option, none, some, List, [], ◌∷◌,
  ◌++◌, is_empty, arith, inl, inr, ◌⊎◌, Bool-cases, All, All-append, if◌then◌else◌,
}
use cv_evaluator.Prelude.Int.{ℤ, pos, negsuc}
use cv_evaluator.Prelude.Text.{Text, text_eq, text_eq→eq}
use cv_evaluator.Matcher.{text_in, is_evaluation_criterion}
use cv_evaluator.Pipeline.Failure.{Result, ok, err}
use cv_evaluator.Results.Params.{
  ListParams, ResultsError, Param, normalize, with_limit, with_sort, with_criterion,
  with_evaluation_statuses, with_statuses, limit_or_default, sort_or_default, criterion_error,
  one_of, one_of_from, search_result_statuses, evaluation_statuses, sort_score, sort_newest,
  max_limit, is_out_of_range, folded,
}

-- The parameters with another cursor.
abbrev pub at : Option ℕ → ListParams → ListParams
at s p = record p { starting_after = s }

-- A cursor passes through the validation, and nothing else depends on it.
abbrev pub at_ok : Option ℕ → Result ResultsError ListParams → Result ResultsError ListParams
at_ok s (err e) = err e
at_ok s (ok q) = ok (at s q)

module _ (s : Option ℕ) where
  with_limit-at : (p : ListParams) (o : Option ℕ) → with_limit (at s p) o ≡ at_ok s (with_limit p o)
  with_limit-at p none = refl
  with_limit-at p (some n) = refl

  with_sort-at : (p : ListParams) (o : Option Text) → with_sort (at s p) o ≡ at_ok s (with_sort p o)
  with_sort-at p none = refl
  with_sort-at p (some t) = with_limit-at (record p { sort = t }) (limit_or_default p.limit)

  with_criterion-at :
      (p : ListParams) (o : Option ResultsError)
      → with_criterion (at s p) o ≡ at_ok s (with_criterion p o)
  with_criterion-at p none = with_sort-at p (sort_or_default p.sort)
  with_criterion-at p (some e) = refl

  with_evaluation_statuses-at :
      (p : ListParams) (o : Option (List Text))
      → with_evaluation_statuses (at s p) o ≡ at_ok s (with_evaluation_statuses p o)
  with_evaluation_statuses-at p none = refl
  with_evaluation_statuses-at p (some ts) =
      with_criterion-at (record p { evaluation_statuses = ts; criterion = folded p.criterion })
        (criterion_error (folded p.criterion) p.min_criterion_score)

  with_statuses-at :
      (p : ListParams) (o : Option (List Text))
      → with_statuses (at s p) o ≡ at_ok s (with_statuses p o)
  with_statuses-at p none = refl
  with_statuses-at p (some ts) =
      with_evaluation_statuses-at (record p { statuses = ts })
        (one_of evaluation_statuses p.evaluation_statuses)

  pub normalize-at : (p : ListParams) → normalize (at s p) ≡ at_ok s (normalize p)
  unfolding normalize
  normalize-at p = ground (arith, with_statuses-at p (one_of search_result_statuses p.statuses))

-- A score that is a number from 0 to 100.
abbrev pub IsScore : Option ℤ → Type 0
IsScore o = (m : ℕ) × (o ≡ some (pos m)) × (m ≤ 100)

pub record HasFilters (q : ListParams) : Type 0 where
  pub statuses : All (λ t. text_in t search_result_statuses ≡ true) q.statuses
  pub evaluation_statuses : All (λ t. text_in t evaluation_statuses ≡ true) q.evaluation_statuses
  pub min_score : (q.min_score ≡ none) ⊎ IsScore q.min_score
  pub criterion :
      ((is_empty q.criterion ≡ true) × (q.min_criterion_score ≡ none))
      ⊎ ((is_evaluation_criterion q.criterion ≡ true) × IsScore q.min_criterion_score)

abbrev pub HasSort : Text → Type 0
HasSort s = (s ≡ sort_score) ⊎ (s ≡ sort_newest)

-- Known statuses only, scores from 0 to 100, a criterion that is known and has a least score, or no
-- criterion and no such score, a known order, and a limit from 1 to the maximum.
pub record IsValid (q : ListParams) : Type 0 where
  pub filters : HasFilters q
  pub sort : HasSort q.sort
  pub limit : (n : ℕ) × (q.limit ≡ pos (suc n)) × (suc n ≤ max_limit)

All-one_of_from :
    (allowed out values ts : List Text)
    → All (λ t. text_in t allowed ≡ true) out
    → one_of_from allowed out values ≡ some ts
    → All (λ t. text_in t allowed ≡ true) ts
unfolding one_of_from
All-one_of_from allowed out [] ts h e = subst (All (λ t. text_in t allowed ≡ true)) (some_inj e) h
  where
    some_inj : {a b : List Text} → some a ≡ some b → a ≡ b
    some_inj q = cc
All-one_of_from allowed out (v ∷ values) ts h e =
    elim (Bool-cases (is_empty (folded v) || text_in (folded v) out)) [
      | inl t ↦ All-one_of_from allowed out values ts h (ground arith)
      | inr f ↦ elim (Bool-cases (text_in (folded v) allowed)) [
        | inl t ↦
            All-one_of_from allowed (out ++ folded v ∷ []) values ts
              (All-append (λ u. text_in u allowed ≡ true) out (folded v ∷ []) h (t, tt))
              (ground arith)
        | inr n ↦ absurd (ground arith)
      ]
    ]

limit_lem :
    (l : ℤ) (n : ℕ)
    → limit_or_default l ≡ some n
    → (m : ℕ) × (pos n ≡ pos (suc m)) × (suc m ≤ max_limit)
unfolding limit_or_default
limit_lem (pos zero) n e = (19, ground arith, omega arith)
limit_lem (pos (suc k)) n e = (k, ground arith, ground arith)
limit_lem (negsuc k) n e = cc

sort_lem : (s t : Text) → sort_or_default s ≡ some t → HasSort t
unfolding sort_or_default
sort_lem s t e = elim (Bool-cases (is_empty s)) [
  | inl y ↦ inl (ground arith)
  | inr n ↦ elim (Bool-cases (text_eq s sort_score)) [
    | inl y ↦ inl (ground (arith, text_eq→eq s sort_score))
    | inr m ↦ inr (ground (arith, text_eq→eq s sort_newest))
  ]
]

abbrev accepted : ListParams → Result ResultsError ListParams
accepted p = ok p

ok_inj : (p q : ListParams) → accepted p ≡ ok q → p ≡ q
ok_inj p q h = cc

IsValid-limit :
    (p q : ListParams) (o : Option ℕ)
    → HasFilters p
    → HasSort p.sort
    → limit_or_default p.limit ≡ o
    → with_limit p o ≡ ok q
    → IsValid q
IsValid-limit p q none f s e h = cc
IsValid-limit p q (some n) f s e h =
    let r = record p { limit = pos n } in
    subst IsValid (ok_inj r q h) (record {
      filters = record {
        statuses = f.statuses;
        evaluation_statuses = f.evaluation_statuses;
        min_score = f.min_score;
        criterion = f.criterion;
      };
      sort = s;
      limit = limit_lem p.limit n e;
    })

IsValid-sort :
    (p q : ListParams) (o : Option Text)
    → HasFilters p
    → sort_or_default p.sort ≡ o
    → with_sort p o ≡ ok q
    → IsValid q
IsValid-sort p q none f e h = cc
IsValid-sort p q (some t) f e h =
    IsValid-limit (record p { sort = t }) q (limit_or_default p.limit)
      (record {
        statuses = f.statuses;
        evaluation_statuses = f.evaluation_statuses;
        min_score = f.min_score;
        criterion = f.criterion;
      })
      (sort_lem p.sort t e) refl h

score_lem : (o : Option ℤ) → is_out_of_range o ≡ false → (o ≡ none) ⊎ IsScore o
score_lem none h = inl refl
score_lem (some (pos n)) h = inr (n, refl, ground arith)
score_lem (some (negsuc n)) h = cc

criterion_lem :
    (c : Text) (o : Option ℤ)
    → criterion_error c o ≡ none
    → ((is_empty c ≡ true) × (o ≡ none)) ⊎ ((is_evaluation_criterion c ≡ true) × IsScore o)
unfolding criterion_error
criterion_lem c none h = elim (Bool-cases (is_empty c)) [
  | inl t ↦ inl (t, refl)
  | inr f ↦ absurd (ground arith)
]
criterion_lem c (some m) h = elim (Bool-cases (is_empty c)) [
  | inl t ↦ absurd (ground arith)
  | inr f ↦ elim (score_lem (some m) (ground arith)) [
    | inl e ↦ absurd (cc)
    | inr s ↦ inr (ground arith, s)
  ]
]

IsValid-criterion :
    (p q : ListParams) (o : Option ResultsError)
    → All (λ t. text_in t search_result_statuses ≡ true) p.statuses
    → All (λ t. text_in t evaluation_statuses ≡ true) p.evaluation_statuses
    → is_out_of_range p.min_score ≡ false
    → criterion_error p.criterion p.min_criterion_score ≡ o
    → with_criterion p o ≡ ok q
    → IsValid q
IsValid-criterion p q none s t m e h =
    IsValid-sort p q (sort_or_default p.sort)
      (record {
        statuses = s;
        evaluation_statuses = t;
        min_score = score_lem p.min_score m;
        criterion = criterion_lem p.criterion p.min_criterion_score e;
      })
      refl h
IsValid-criterion p q (some x) s t m e h = cc

IsValid-evaluation_statuses :
    (p q : ListParams) (o : Option (List Text))
    → All (λ t. text_in t search_result_statuses ≡ true) p.statuses
    → is_out_of_range p.min_score ≡ false
    → one_of_from evaluation_statuses [] p.evaluation_statuses ≡ o
    → with_evaluation_statuses p o ≡ ok q
    → IsValid q
IsValid-evaluation_statuses p q none s m e h = cc
IsValid-evaluation_statuses p q (some ts) s m e h =
    IsValid-criterion (record p { evaluation_statuses = ts; criterion = folded p.criterion }) q
      (criterion_error (folded p.criterion) p.min_criterion_score) s
      (All-one_of_from evaluation_statuses [] p.evaluation_statuses ts tt e) m refl h

IsValid-statuses :
    (p q : ListParams) (o : Option (List Text))
    → is_out_of_range p.min_score ≡ false
    → one_of_from search_result_statuses [] p.statuses ≡ o
    → with_statuses p o ≡ ok q
    → IsValid q
unfolding one_of
IsValid-statuses p q none m e h = cc
IsValid-statuses p q (some ts) m e h =
    IsValid-evaluation_statuses (record p { statuses = ts }) q
      (one_of evaluation_statuses p.evaluation_statuses)
      (All-one_of_from search_result_statuses [] p.statuses ts tt e) m refl h

-- Parameters that are accepted have known statuses only, scores from 0 to 100, a known criterion
-- with a least score or neither of them, one of the two orders, and a limit from 1 to the maximum.
pub normalize-IsValid : (p q : ListParams) → normalize p ≡ ok q → IsValid q
unfolding normalize one_of
normalize-IsValid p q h = elim (Bool-cases (is_out_of_range p.min_score)) [
  | inl t ↦ absurd (ground arith)
  | inr f ↦ IsValid-statuses p q (one_of search_result_statuses p.statuses) f refl (
      ap
        (λ b.
          if b
          then err (ResultsError.invalid Param.min_score)
          else with_statuses p (one_of search_result_statuses p.statuses))
        (sym f)
      ∙ h)
]

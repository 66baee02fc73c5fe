-- ===== src/SavedSearches/Owners.antt =====
-- No user touches another user's saved searches.
use mathlib.Core.Path.{subst}
use mathlib.Core.Option.{some-injective}
use cv_evaluator.Prelude.{
  ℕ, ◌≡◌, ◌≢◌, refl, sym, ap, ◌∙◌, Bool, true, false, Option, none, some, List, [], ◌∷◌,
  if◌then◌else◌, arith, Bool-cases, inl, inr, In,
}
use cv_evaluator.Prelude.Table.{update_where, update_where-In, first_where}
use cv_evaluator.Models.{JobSearch}
use cv_evaluator.Pipeline.Failure.{Result, ok, err}
use cv_evaluator.SavedSearches.{
  ServiceError, UpdateParams, validate, new_search, create, inserted, get, is_owned, changed,
  update, update_found, updated_row, has_live_id, delete, run_now, run_found, run_enabled,
}
use cv_evaluator.SavedSearches.Kept.{first-In, id-validate}
use cv_evaluator.SavedSearches.History.{
  Op, apply, History, History-Good, Distinct, Distinct-same, live_id,
}

-- The user who asks for the operation; the scheduler's have none.
abbrev pub asked_by : Op → Option ℕ
asked_by (Op.create_search id now user p) = some user
asked_by (Op.update_search now user id p) = some user
asked_by (Op.delete_search now user id) = some user
asked_by (Op.run_search_now now user id) = some user
asked_by (Op.claim_search id now until) = none
asked_by (Op.mark_search at id ran_at next) = none

-- A row that an UPDATE does not select stays.
untouched :
    (p : JobSearch → Bool) (f : JobSearch → JobSearch) (r : JobSearch) (rows : List JobSearch)
    → In r rows
    → p r ≡ false
    → In r (update_where p f rows)
untouched p f r rows i n =
    subst (λ b. In (if b then f r else r) (update_where p f rows)) n (update_where-In p f r rows i)

first-holds :
    (p : JobSearch → Bool) (rows : List JobSearch) (j : JobSearch)
    → first_where p rows ≡ some j
    → p j ≡ true
unfolding first_where
first-holds p [] j h = absurd (ground arith)
first-holds p (r ∷ rows) j h = elim (Bool-cases (p r)) [
  | inl t ↦ let e : r ≡ j = ground arith in ap p (sym e) ∙ t
  | inr f ↦ first-holds p rows j (ground arith)
]

module _ (now user id : ℕ) (rows : List JobSearch) (d : Distinct rows) (r : JobSearch)
    (i : In r rows) (other : r.user_id ≢ user) where
  not_owned : is_owned user id r ≡ false
  not_owned = ground arith

  -- A row of another user is not the one that was read.
  not_read :
      (j : JobSearch) → get user id rows ≡ some j → (k : ℕ) → k ≡ j.id → has_live_id k r ≡ false
  unfolding get
  not_read j e k q = elim (Bool-cases (has_live_id k r)) [
    | inr f ↦ f
    | inl t ↦
        let same =
          Distinct-same rows r j d i (first-In (is_owned user id) rows j e) (live_id k r t ∙ q) in
        absurd (
          clash
            (sym not_owned ∙ ap (is_owned user id) same ∙ first-holds (is_owned user id) rows j e))
  ]
    where
      clash : false ≡ true → ⊥
      clash h = cc

  run_found-untouched :
      (o : Option JobSearch)
      → ((j : JobSearch) → o ≡ some j → has_live_id j.id r ≡ false)
      → In r (run_found now rows o).1
  run_found-untouched none unread = i
  run_found-untouched (some j) unread = by_flag j.enabled
    where
      by_flag : (b : Bool) → In r (run_enabled now rows j b).1
      by_flag false = i
      by_flag true = untouched (has_live_id j.id) _ r rows i (unread j refl)

  updated_row-untouched :
      (old : JobSearch) (x : Result ServiceError JobSearch)
      → ((j : JobSearch) → x ≡ ok j → has_live_id j.id r ≡ false)
      → In r (updated_row now old rows x).1
  updated_row-untouched old (err e) unread = i
  updated_row-untouched old (ok j) unread = untouched (has_live_id j.id) _ r rows i (unread j refl)

  update_found-untouched :
      (p : UpdateParams) (o : Option JobSearch)
      → o ≡ get user id rows
      → In r (update_found now p rows o).1
  unfolding changed
  update_found-untouched p none e = i
  update_found-untouched p (some old) e =
      updated_row-untouched old (validate (changed p old))
        (λ j v. not_read old (sym e) j.id (id-validate (changed p old) j v))

inserted-untouched :
    (now : ℕ) (rows : List JobSearch) (x : Result ServiceError JobSearch) (r : JobSearch)
    → In r rows
    → In r (inserted now rows x).1
inserted-untouched now rows (err e) r i = i
inserted-untouched now rows (ok j) r i = inr i

-- An operation that a user asks for, after any history, leaves every search of every other user in
-- the table as it is, also when it names that search's id.
pub apply-untouched :
    {rows : List JobSearch} (op : Op) (user : ℕ) (r : JobSearch)
    → History rows
    → asked_by op ≡ some user
    → In r rows
    → r.user_id ≢ user
    → In r (apply op rows)
unfolding apply create update run_now delete
apply-untouched {rows} (Op.create_search id now u p) user r h asked i other =
    inserted-untouched now rows (validate (new_search id now u p)) r i
apply-untouched {rows} (Op.update_search now u id p) user r h asked i other =
    update_found-untouched now u id rows (History-Good h).1 r i
      (λ e. other (e ∙ some-injective u user asked)) p (get u id rows) refl
apply-untouched {rows} (Op.delete_search now u id) user r h asked i other =
    untouched (is_owned u id) _ r rows i (
      not_owned now u id rows (History-Good h).1 r i (λ e. other (e ∙ some-injective u user asked)))
apply-untouched {rows} (Op.run_search_now now u id) user r h asked i other =
    let other' = λ (e : r.user_id ≡ u). other (e ∙ some-injective u user asked) in
    run_found-untouched now u id rows (History-Good h).1 r i other' (get u id rows)
      (λ j e. not_read now u id rows (History-Good h).1 r i other' j e j.id refl)
apply-untouched (Op.claim_search id now until) user r h asked i other = absurd (ground arith)
apply-untouched (Op.mark_search at id ran_at next) user r h asked i other = absurd (ground arith)

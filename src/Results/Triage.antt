-- ===== src/Results/Triage.antt =====
-- The status that a user gives a result.
use cv_evaluator.Prelude.{
  ℕ, ◌≡◌, refl, sym, ap, ◌∙◌, Bool, true, ◌&&◌, none, some, [], ◌∷◌, map, arith, inl, inr,
  Option-cases, ◌==◌, if◌then◌else◌,
}
use cv_evaluator.Prelude.Text.{Text, text_eq}
use cv_evaluator.Prelude.Table.{first_where, update_where}
use cv_evaluator.Models.{SearchResult, SearchResultStatus}
use cv_evaluator.Matcher.{Decoded, text_in}
use cv_evaluator.Pipeline.Failure.{ok}
use cv_evaluator.Results.Params.{folded, one_of, one_of_from, search_result_statuses, status_text}
use cv_evaluator.Results.Rows.{Database, Row, visible}
use cv_evaluator.Results.Lists.{is_owned}
use cv_evaluator.Results.Details.{Detail, detail, got, get}
use cv_evaluator.Results.Changes.{
  set_status, status_of, set_if_known, set_if_found, with_results, update_status,
}
use cv_evaluator.Results.Updates.{
  users_row, IsFramed, on_row, option_map, changed, first-visible, update_where-map,
  first_where-true, first-select,
}

known :
    (status : Text) (s : SearchResultStatus)
    → folded status ≡ status_text s
    → one_of search_result_statuses (status ∷ []) ≡ some (status_text s ∷ [])
unfolding one_of one_of_from text_in text_eq
known status SearchResultStatus.new f = rw f refl
known status SearchResultStatus.saved f = rw f refl
known status SearchResultStatus.applied f = rw f refl
known status SearchResultStatus.dismissed f = rw f refl

parsed : (s : SearchResultStatus) → status_of (status_text s) ≡ s
unfolding text_eq
parsed SearchResultStatus.new = refl
parsed SearchResultStatus.saved = refl
parsed SearchResultStatus.applied = refl
parsed SearchResultStatus.dismissed = refl

IsFramed-set_status :
    (now user id : ℕ) (s : SearchResultStatus)
    → IsFramed (changed (is_owned user id) (set_status now s))
IsFramed-set_status now user id s = record {
  id = λ r. ground arith;
  user_id = λ r. ground arith;
  job_search_id = λ r. ground arith;
  job_id = λ r. ground arith;
}

module _ (decode : Text → Decoded) (collates : Text → Text → Bool) where
  -- The row of a result that is shown.
  pub row-get :
      (user id : ℕ) (db : Database) (d : Detail)
      → get decode collates user id db ≡ ok d
      → (x : Row) × (first_where (λ (y : Row). y.result.id == id) (visible user db) ≡ some x)
        × (detail decode collates db.store x ≡ d)
        × (is_owned user id x.result ≡ true)
  unfolding get visible
  row-get user id db d h =
      elim (Option-cases (first_where (λ (y : Row). y.result.id == id) (visible user db))) [
        | inl n ↦ absurd (refused (ap (got decode collates db.store) (sym n) ∙ h))
        | inr (x, e) ↦ (
          x,
          e,
          same x (ap (got decode collates db.store) (sym e) ∙ h),
          both (first_where-true (λ (y : Row). y.result.id == id) (visible user db) e) (mine x e),
        )
      ]
    where
      refused : ¬ (got decode collates db.store none ≡ ok d)
      refused q = cc

      same :
          (x : Row)
          → got decode collates db.store (some x) ≡ ok d
          → detail decode collates db.store x ≡ d
      same x q = cc

      mine :
          (x : Row)
          → first_where (λ (y : Row). y.result.id == id) (visible user db) ≡ some x
          → (x.result.user_id == user) ≡ true
      mine x e =
          first-select (λ (y : Row). y.result.id == id) (λ (y : Row). y.result.user_id == user) _ e

      both : {a b : Bool} → a ≡ true → b ≡ true → (a && b) ≡ true
      both p q = ground (arith, p, q)

  -- Get after a change of the results.
  pub get-changed :
      (c : SearchResult → SearchResult)
      → IsFramed c
      → (user id : ℕ) (db : Database) (x : Row)
      → first_where (λ (y : Row). y.result.id == id) (visible user db) ≡ some x
      → get decode collates user id (with_results db (map c db.results))
        ≡ ok (detail decode collates db.store (on_row c x))
  unfolding get
  get-changed c framed user id db x e =
      ap (got decode collates db.store)
        (first-visible c framed db user id ∙ ap (option_map (on_row c)) e)

  -- A user sets the status of a result that is shown to them, in whatever letter case and with
  -- whatever space around it: the reply is the result with that status and the time of the change,
  -- and all else as it was, its evaluation too, and the table is changed in these two columns of
  -- the user's row with that id alone.
  pub update_status_lem :
      (now user id : ℕ) (status : Text) (s : SearchResultStatus) (db : Database) (d : Detail)
      → get decode collates user id db ≡ ok d
      → folded status ≡ status_text s
      → update_status decode collates now user id status db ≡ (
        ok (record d { status = s; updated_at = now }),
        with_results db (
            update_where
              (users_row user id)
              (λ (r : SearchResult). record r { status = s; updated_at = now })
              db.results),
      )
  unfolding update_status
  update_status_lem now user id status s db d h f =
      ap (set_if_known decode collates now user id db) (known status s f)
      ∙ ap (λ t. set_if_found decode collates now user id t db (get decode collates user id db))
          (parsed s)
      ∙ ap (set_if_found decode collates now user id s db) h
      ∙ (let (x, e, same, own) = row-get user id db d h in
          let c : SearchResult → SearchResult = changed (is_owned user id) (set_status now s) in
          ap
            (λ o.
              (o, with_results db (update_where (is_owned user id) (set_status now s) db.results)))
            (ap (λ l. get decode collates user id (with_results db l))
                (update_where-map (is_owned user id) (set_status now s) db.results)
              ∙ get-changed c (IsFramed-set_status now user id s) user id db x e
              ∙ ap
                  (λ b. ok (
                    detail decode collates db.store
                      (record x { result = if b then set_status now s x.result else x.result })))
                  own
              ∙ ap (λ (y : Detail). ok (record y { status = s; updated_at = now })) same))

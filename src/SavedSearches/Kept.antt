-- ===== src/SavedSearches/Kept.antt =====
-- What holds of every saved search, whatever users and the scheduler do.
use mathlib.Core.Path.{subst}
use cv_evaluator.Prelude.{
  ℕ, ◌≤◌, ◌≡◌, ◌≢◌, refl, sym, ap, ◌∙◌, Bool, true, false, Option, none, some, List, [], ◌∷◌,
  length, if◌then◌else◌, arith, Bool-cases, inl, inr, In,
}
use cv_evaluator.Prelude.Table.{update_where, first_where, In-update_where}
use cv_evaluator.Models.{JobSearch, frequency_interval}
use cv_evaluator.Pipeline.Failure.{Result, ok, err}
use cv_evaluator.SavedSearches.{
  ServiceError, CreateParams, UpdateParams, validate, with_name, check_frequency, new_search,
  create, inserted, changed, next_time, schedule, update_found, updated_row, rescheduled,
  has_live_id, max_name_length, max_query_length, max_location_length,
}

-- The fields are in their bounds, the frequency is a known one, and the search is scheduled exactly if
-- it is enabled.
pub record IsSaved (j : JobSearch) : Type 0 where
  pub has_query : j.query ≢ []
  pub short_query : length j.query ≤ max_query_length
  pub short_location : length j.location ≤ max_location_length
  pub has_name : j.name ≢ []
  pub short_name : length j.name ≤ max_name_length
  pub known_frequency : frequency_interval j.frequency ≢ none
  pub scheduled : j.enabled ≡ true → j.next_run_at ≢ none
  pub unscheduled : j.enabled ≡ false → j.next_run_at ≡ none

-- The part of it that validate sees to.
record IsChecked (j : JobSearch) : Type 0 where
  has_query : j.query ≢ []
  short_query : length j.query ≤ max_query_length
  short_location : length j.location ≤ max_location_length
  has_name : j.name ≢ []
  short_name : length j.name ≤ max_name_length
  known_frequency : frequency_interval j.frequency ≢ none

unfoldable pub AreSaved : List JobSearch → Type 0
AreSaved rows = (r : JobSearch) → In r rows → IsSaved r

check_frequency-ok :
    (r r' : JobSearch) (o : Option ℕ) → check_frequency r o ≡ ok r' → (r ≡ r') × (o ≢ none)
check_frequency-ok r r' none h = absurd (ground arith)
check_frequency-ok r r' (some d) h = (ground arith, λ e. cc)

validate-ok : (r r' : JobSearch) → validate r ≡ ok r' → IsChecked r' × (with_name r ≡ r')
unfolding validate
validate-ok r r' h =
    let passed : check_frequency (with_name r) (frequency_interval r.frequency) ≡ ok r' =
      ground arith in
    let (same, known) =
      check_frequency-ok (with_name r) r' (frequency_interval r.frequency) passed in
    (
      subst IsChecked same (record {
        has_query = ground arith;
        short_query = ground arith;
        short_location = ground arith;
        has_name = ground arith;
        short_name = ground arith;
        known_frequency = known;
      }),
      same,
    )

pub id-validate : (r r' : JobSearch) → validate r ≡ ok r' → r'.id ≡ r.id
id-validate r r' h = ap (λ (x : JobSearch). x.id) (sym (validate-ok r r' h).1)

-- A checked search that is scheduled as it should be.
IsChecked-IsSaved :
    (j : JobSearch)
    → IsChecked j
    → (j.enabled ≡ true → j.next_run_at ≢ none)
    → (j.enabled ≡ false → j.next_run_at ≡ none)
    → IsSaved j
IsChecked-IsSaved j c s u = record {
  has_query = c.has_query;
  short_query = c.short_query;
  short_location = c.short_location;
  has_name = c.has_name;
  short_name = c.short_name;
  known_frequency = c.known_frequency;
  scheduled = s;
  unscheduled = u;
}

at-IsSaved :
    (j : JobSearch) (n : Option ℕ)
    → IsChecked j
    → (j.enabled ≡ true → n ≢ none)
    → (j.enabled ≡ false → n ≡ none)
    → IsSaved (record j { next_run_at = n })
at-IsSaved j n c s u =
    IsChecked-IsSaved (record j { next_run_at = n })
      (record {
        has_query = c.has_query;
        short_query = c.short_query;
        short_location = c.short_location;
        has_name = c.has_name;
        short_name = c.short_name;
        known_frequency = c.known_frequency;
      })
      s u

-- An UPDATE keeps the rows saved if it does so on each row that it changes.
pub update_where-AreSaved :
    (p : JobSearch → Bool) (f : JobSearch → JobSearch) (rows : List JobSearch)
    → ((j : JobSearch) → In j rows → p j ≡ true → IsSaved j → IsSaved (f j))
    → AreSaved rows
    → AreSaved (update_where p f rows)
unfolding AreSaved
update_where-AreSaved p f rows keeps saved r i =
    let (j, m, e) = In-update_where p f r rows i in
    elim (Bool-cases (p j)) [
      | inl t ↦ subst IsSaved (sym (e ∙ ap (λ b. if b then f j else j) t)) (keeps j m t (saved j m))
      | inr u ↦ subst IsSaved (sym (e ∙ ap (λ b. if b then f j else j) u)) (saved j m)
    ]

pub first-In :
    (p : JobSearch → Bool) (rows : List JobSearch) (j : JobSearch)
    → first_where p rows ≡ some j
    → In j rows
unfolding first_where
first-In p [] j h = absurd (ground arith)
first-In p (r ∷ rows) j h = elim (Bool-cases (p r)) [
  | inl t ↦ inl (ground arith)
  | inr f ↦ inr (first-In p rows j (ground arith))
]

inserted-AreSaved :
    (now : ℕ) (rows : List JobSearch) (x : Result ServiceError JobSearch)
    → ((r : JobSearch) → x ≡ ok r → IsChecked r × (r.next_run_at ≡ none))
    → AreSaved rows
    → AreSaved (inserted now rows x).1
unfolding AreSaved
inserted-AreSaved now rows (err e) checked saved = saved
inserted-AreSaved now rows (ok r) checked saved =
    λ s. elim [ inl e ↦ subst IsSaved (sym e) (fresh (checked r refl)) | inr i ↦ saved s i ]
  where
    fresh :
        IsChecked r × (r.next_run_at ≡ none)
        → IsSaved (if r.enabled then record r { next_run_at = some now } else r)
    fresh (c, unscheduled) = elim (Bool-cases r.enabled) [
      | inl t ↦
          subst (λ b. IsSaved (if b then record r { next_run_at = some now } else r)) (sym t)
            (at-IsSaved r (some now) c (λ q e. cc) (λ q. cc (q, t)))
      | inr f ↦
          subst (λ b. IsSaved (if b then record r { next_run_at = some now } else r)) (sym f)
            (IsChecked-IsSaved r c (λ q. cc (q, f)) (λ q. unscheduled))
    ]

pub create-AreSaved :
    (id now user : ℕ) (p : CreateParams) (rows : List JobSearch)
    → AreSaved rows
    → AreSaved (create id now user p rows).1
unfolding create new_search
create-AreSaved id now user p rows saved =
    inserted-AreSaved now rows (validate (new_search id now user p))
      (λ r e.
        let (c, same) = validate-ok (new_search id now user p) r e in
        (c, ap (λ (x : JobSearch). x.next_run_at) (sym same)))
      saved

rescheduled-next :
    (r : JobSearch) (last : Option ℕ) → r.next_run_at ≢ none → rescheduled r last ≢ none
rescheduled-next r none h = h
rescheduled-next r (some last) h = λ e. cc

schedule-IsSaved :
    (now : ℕ) (old r : JobSearch)
    → IsSaved old
    → IsChecked r
    → r.next_run_at ≡ old.next_run_at
    → IsSaved (schedule now old r)
unfolding next_time
schedule-IsSaved now old r o c same =
    at-IsSaved r (next_time now old r) c
      (λ on. ground (arith, o.scheduled, rescheduled-next r r.last_run_at)) (λ off. ground arith)

next-changed : (p : UpdateParams) (old : JobSearch) → (changed p old).next_run_at ≡ old.next_run_at
unfolding changed
next-changed p old = refl

-- Columns that IsSaved does not speak of may change.
pub touched-IsSaved : (at : ℕ) (j : JobSearch) → IsSaved j → IsSaved (record j { updated_at = at })
touched-IsSaved at j q = record {
  has_query = q.has_query;
  short_query = q.short_query;
  short_location = q.short_location;
  has_name = q.has_name;
  short_name = q.short_name;
  known_frequency = q.known_frequency;
  scheduled = q.scheduled;
  unscheduled = q.unscheduled;
}

pub update_found-AreSaved :
    (now : ℕ) (p : UpdateParams) (rows : List JobSearch) (o : Option JobSearch)
    → ((j : JobSearch) → o ≡ some j → IsSaved j)
    → AreSaved rows
    → AreSaved (update_found now p rows o).1
update_found-AreSaved now p rows none found saved = saved
update_found-AreSaved now p rows (some old) found saved =
    validated (validate (changed p old)) (λ r e. e)
  where
    validated :
        (x : Result ServiceError JobSearch)
        → ((r : JobSearch) → x ≡ ok r → validate (changed p old) ≡ ok r)
        → AreSaved (updated_row now old rows x).1
    validated (err e) is = saved
    validated (ok r) is =
        let (c, same) = validate-ok (changed p old) r (is r refl) in
        let next = ap (λ (x : JobSearch). x.next_run_at) (sym same) ∙ next-changed p old in
        update_where-AreSaved (has_live_id r.id) _ rows
          (λ j m t q.
            touched-IsSaved now (schedule now old r)
              (schedule-IsSaved now old r (found old refl) c next))
          saved

pub timed-IsSaved :
    (j : JobSearch) (last n : Option ℕ) (deleted : Option ℕ) (at : ℕ)
    → IsSaved j
    → (j.enabled ≡ true → n ≢ none)
    → (j.enabled ≡ false → n ≡ none)
    → IsSaved
        (record j { last_run_at = last; next_run_at = n; deleted_at = deleted; updated_at = at })
timed-IsSaved j last n deleted at q s u = record {
  has_query = q.has_query;
  short_query = q.short_query;
  short_location = q.short_location;
  has_name = q.has_name;
  short_name = q.short_name;
  known_frequency = q.known_frequency;
  scheduled = s;
  unscheduled = u;
}

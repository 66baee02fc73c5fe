-- ===== src/SavedSearches/History.antt =====
-- The saved searches after any history of what users and the scheduler do.
use mathlib.Core.Path.{subst}
use cv_evaluator.Prelude.{
  ℕ, ◌≡◌, ◌≢◌, refl, sym, ap, ◌∙◌, Bool, true, false, Option, none, some, List, [], ◌∷◌,
  if◌then◌else◌, arith, Bool-cases, inl, inr, In, All, In-of_All, All-of_In,
}
use cv_evaluator.Prelude.Table.{update_where}
use cv_evaluator.Models.{JobSearch}
use cv_evaluator.Pipeline.Failure.{Result, ok, err}
use cv_evaluator.Pipeline.Searches.{
  claim_run, mark_run, set_run, may_run, lease_until, has_search_id,
}
use cv_evaluator.SavedSearches.{
  ServiceError, CreateParams, UpdateParams, validate, new_search, create, inserted, get, is_owned,
  changed, schedule, update, update_found, updated_row, has_live_id, delete, run_now, run_found,
  run_enabled,
}
use cv_evaluator.SavedSearches.Kept.{
  IsSaved, AreSaved, id-validate, update_where-AreSaved, first-In, create-AreSaved,
  update_found-AreSaved, timed-IsSaved,
}

-- What users and the scheduler do to the table of saved searches.
pub data Op : Type 0 where
  create_search : ℕ → ℕ → ℕ → CreateParams → Op
  update_search : ℕ → ℕ → ℕ → UpdateParams → Op
  delete_search : ℕ → ℕ → ℕ → Op
  run_search_now : ℕ → ℕ → ℕ → Op
  claim_search : ℕ → ℕ → ℕ → Op
  mark_search : ℕ → ℕ → ℕ → ℕ → Op

unfoldable pub apply : Op → List JobSearch → List JobSearch
apply (Op.create_search id now user p) rows = (create id now user p rows).1
apply (Op.update_search now user id p) rows = (update now user id p rows).1
apply (Op.delete_search now user id) rows = (delete now user id rows).1
apply (Op.run_search_now now user id) rows = (run_now now user id rows).1
apply (Op.claim_search id now until) rows = (claim_run id now until rows).1
apply (Op.mark_search at id ran_at next) rows = mark_run at id ran_at next rows

-- A new search gets an id that no row has.
abbrev pub IsNew : Op → List JobSearch → Type 0
IsNew (Op.create_search id now user p) rows = (r : JobSearch) → In r rows → id ≢ r.id
IsNew _ rows = Unit

-- The tables that a history of operations leads to, from an empty one.
pub data History : List JobSearch → Type 0 where
  empty : History []
  step :
      {rows : List JobSearch} → History rows → (op : Op) → IsNew op rows → History (apply op rows)

-- No id stands twice.
abbrev pub Distinct : List JobSearch → Type 0
Distinct [] = Unit
Distinct (r ∷ rows) = All (λ s. r.id ≢ s.id) rows × Distinct rows

abbrev changed_row : (JobSearch → Bool) → (JobSearch → JobSearch) → JobSearch → JobSearch
changed_row p f r = if p r then f r else r

id-changed_row :
    (p : JobSearch → Bool) (f : JobSearch → JobSearch)
    → ((j : JobSearch) → p j ≡ true → (f j).id ≡ j.id)
    → (r : JobSearch) → (changed_row p f r).id ≡ r.id
id-changed_row p f keeps r = elim (Bool-cases (p r)) [
  | inl t ↦ rw t (keeps r t)
  | inr u ↦ rw u refl
]

All-update_where :
    (p : JobSearch → Bool) (f : JobSearch → JobSearch) (n : ℕ)
    → ((j : JobSearch) → p j ≡ true → (f j).id ≡ j.id)
    → (rows : List JobSearch) → All (λ s. n ≢ s.id) rows
    → All (λ s. n ≢ s.id) (update_where p f rows)
unfolding update_where
All-update_where p f n keeps [] a = tt
All-update_where p f n keeps (r ∷ rows) a =
    ((λ e. a.0 (e ∙ id-changed_row p f keeps r)), All-update_where p f n keeps rows a.1)

Distinct-update_where :
    (p : JobSearch → Bool) (f : JobSearch → JobSearch)
    → ((j : JobSearch) → p j ≡ true → (f j).id ≡ j.id)
    → (rows : List JobSearch) → Distinct rows
    → Distinct (update_where p f rows)
unfolding update_where
Distinct-update_where p f keeps [] d = tt
Distinct-update_where p f keeps (r ∷ rows) d = (
  subst (λ n. All (λ s. n ≢ s.id) (update_where p f rows)) (sym (id-changed_row p f keeps r))
      (All-update_where p f r.id keeps rows d.0),
  Distinct-update_where p f keeps rows d.1,
)

pub Distinct-same :
    (rows : List JobSearch) (j r : JobSearch)
    → Distinct rows
    → In j rows
    → In r rows
    → j.id ≡ r.id
    → j ≡ r
Distinct-same [] j r d i m e = elim i [ ]
Distinct-same (x ∷ rows) j r d (inl a) (inl b) e = a ∙ sym b
Distinct-same (x ∷ rows) j r d (inl a) (inr m) e =
    absurd (In-of_All (λ s. x.id ≢ s.id) rows d.0 r m (sym (ap (λ (y : JobSearch). y.id) a) ∙ e))
Distinct-same (x ∷ rows) j r d (inr i) (inl b) e =
    absurd
      (In-of_All (λ s. x.id ≢ s.id) rows d.0 j i (sym (ap (λ (y : JobSearch). y.id) b) ∙ sym e))
Distinct-same (x ∷ rows) j r d (inr i) (inr m) e = Distinct-same rows j r d.1 i m e

pub live_id : (id : ℕ) (j : JobSearch) → has_live_id id j ≡ true → j.id ≡ id
live_id id j h = ground arith

-- RunNow changes the row that it has read.
run_found-AreSaved :
    (now : ℕ) (rows : List JobSearch) (o : Option JobSearch)
    → ((r : JobSearch) → o ≡ some r → In r rows)
    → Distinct rows
    → AreSaved rows
    → AreSaved (run_found now rows o).1 × Distinct (run_found now rows o).1
run_found-AreSaved now rows none here d saved = (saved, d)
run_found-AreSaved now rows (some r) here d saved = elim (Bool-cases r.enabled) [
  | inr off ↦ subst (λ b. Good (run_enabled now rows r b).1) (sym off) (saved, d)
  | inl on ↦
      subst (λ b. Good (run_enabled now rows r b).1) (sym on)
        (
          update_where-AreSaved (has_live_id r.id) run rows
              (λ j m t q.
                let same = Distinct-same rows j r d m (here r refl) (live_id r.id j t) in
                let on' : j.enabled ≡ true = ap (λ (x : JobSearch). x.enabled) same ∙ on in
                timed-IsSaved j j.last_run_at (some now) j.deleted_at now q (λ h e. cc)
                  (λ off. cc (on', off)))
              saved,
          Distinct-update_where (has_live_id r.id) run (λ j t. refl) rows d,
        )
]
  where
    run : JobSearch → JobSearch
    run j = record j { next_run_at = some now; updated_at = now }

    Good : List JobSearch → Type 0
    Good x = AreSaved x × Distinct x

-- The row that Create inserts has the new id.
Distinct-inserted :
    (now : ℕ) (rows : List JobSearch) (x : Result ServiceError JobSearch)
    → ((r : JobSearch) → x ≡ ok r → All (λ s. r.id ≢ s.id) rows)
    → Distinct rows
    → Distinct (inserted now rows x).1
Distinct-inserted now rows (err e) new d = d
Distinct-inserted now rows (ok r) new d =
    (subst (λ n. All (λ s. n ≢ s.id) rows) (same r.enabled) (new r refl), d)
  where
    same : (b : Bool) → r.id ≡ (if b then record r { next_run_at = some now } else r).id
    same true = refl
    same false = refl

Distinct-create :
    (id now user : ℕ) (p : CreateParams) (rows : List JobSearch)
    → ((r : JobSearch) → In r rows → id ≢ r.id)
    → Distinct rows
    → Distinct (create id now user p rows).1
unfolding create new_search
Distinct-create id now user p rows new d =
    Distinct-inserted now rows (validate (new_search id now user p))
      (λ r e.
        let same = id-validate (new_search id now user p) r e in
        All-of_In (λ s. r.id ≢ s.id) rows (λ s i q. new s i (sym same ∙ q)))
      d

Distinct-updated_row :
    (now : ℕ) (old : JobSearch) (rows : List JobSearch) (x : Result ServiceError JobSearch)
    → Distinct rows
    → Distinct (updated_row now old rows x).1
Distinct-updated_row now old rows (err e) d = d
Distinct-updated_row now old rows (ok r) d =
    Distinct-update_where (has_live_id r.id) (λ x. record (schedule now old r) { updated_at = now })
      (λ j t. sym (live_id r.id j t)) rows d

Distinct-update_found :
    (now : ℕ) (p : UpdateParams) (rows : List JobSearch) (o : Option JobSearch)
    → Distinct rows
    → Distinct (update_found now p rows o).1
Distinct-update_found now p rows none d = d
Distinct-update_found now p rows (some old) d =
    Distinct-updated_row now old rows (validate (changed p old)) d

marked-IsSaved :
    (at ran_at next : ℕ) (j : JobSearch) → IsSaved j → IsSaved (set_run at ran_at next j)
unfolding set_run
marked-IsSaved at ran_at next j q =
    timed-IsSaved j (some ran_at) (if j.enabled then some next else none) j.deleted_at at q
      (λ on. ground arith) (λ off. ground arith)

id-set_run : (at ran_at next : ℕ) (j : JobSearch) → (set_run at ran_at next j).id ≡ j.id
unfolding set_run
id-set_run at ran_at next j = refl

leased-IsSaved :
    (id now until : ℕ) (j : JobSearch)
    → may_run id now j ≡ true
    → IsSaved j
    → IsSaved (lease_until now until j)
unfolding may_run
leased-IsSaved id now until j t q =
    timed-IsSaved j j.last_run_at (some until) j.deleted_at now q (λ h e. cc)
      (λ off. absurd (ground arith))

-- A step keeps what holds of the table.
apply-Good :
    (op : Op) (rows : List JobSearch)
    → IsNew op rows
    → AreSaved rows
    → Distinct rows
    → AreSaved (apply op rows) × Distinct (apply op rows)
unfolding apply update run_now delete claim_run mark_run get AreSaved
apply-Good (Op.create_search id now user p) rows new saved d =
    (create-AreSaved id now user p rows saved, Distinct-create id now user p rows new d)
apply-Good (Op.update_search now user id p) rows new saved d = (
  update_found-AreSaved now p rows (get user id rows)
      (λ j e. saved j (first-In (is_owned user id) rows j e)) saved,
  Distinct-update_found now p rows (get user id rows) d,
)
apply-Good (Op.delete_search now user id) rows new saved d =
    let f = λ (j : JobSearch). record j { deleted_at = some now } in
    (
      update_where-AreSaved (is_owned user id) f rows
          (λ j m t q.
            timed-IsSaved j j.last_run_at j.next_run_at (some now) j.updated_at q q.scheduled
              q.unscheduled)
          saved,
      Distinct-update_where (is_owned user id) f (λ j t. refl) rows d,
    )
apply-Good (Op.run_search_now now user id) rows new saved d =
    run_found-AreSaved now rows (get user id rows) (λ r e. first-In (is_owned user id) rows r e) d
      saved
apply-Good (Op.claim_search id now until) rows new saved d = (
  update_where-AreSaved (may_run id now) (lease_until now until) rows
      (λ j m t q. leased-IsSaved id now until j t q) saved,
  Distinct-update_where (may_run id now) (lease_until now until) (λ j t. refl) rows d,
)
apply-Good (Op.mark_search at id ran_at next) rows new saved d = (
  update_where-AreSaved (has_search_id id) (set_run at ran_at next) rows
      (λ j m t q. marked-IsSaved at ran_at next j q) saved,
  Distinct-update_where (has_search_id id) (set_run at ran_at next)
      (λ j t. id-set_run at ran_at next j) rows d,
)

pub History-Good : {rows : List JobSearch} → History rows → AreSaved rows × Distinct rows
unfolding AreSaved
History-Good empty = (λ r i. elim i [ ], tt)
History-Good (step h op new) = let (saved, d) = History-Good h in apply-Good op _ new saved d

-- Whatever the users do with their saved searches, and whatever runs the scheduler claims and marks
-- in between: every search keeps to the bounds of its fields and has a name and a known frequency,
-- an enabled one is always scheduled to run again, and a disabled one never. Each new search gets
-- an id that no other has.
pub History-IsSaved :
    {rows : List JobSearch} → History rows → (r : JobSearch) → In r rows → IsSaved r
unfolding AreSaved
History-IsSaved h = (History-Good h).0

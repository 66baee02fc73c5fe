-- ===== src/SavedSearches.antt =====
-- internal/services/jobsearches: what users do with their saved searches. The statements of one
-- operation are one step; `now` is the clock, also gorm's. A text is measured in its code points.
pub mod Kept
pub mod History
pub mod Owners
pub mod Names
use cv_evaluator.Prelude.{
  ℕ, ◌+◌, Bool, true, false, not, ◌&&◌, Option, none, some, List, [], ◌∷◌, ltb, ◌==◌, is_empty,
  length, if◌then◌else◌,
}
use cv_evaluator.Prelude.Text.{Text, codes, text_eq, trim_space}
use cv_evaluator.Prelude.Table.{order_by, select, select, update_where, first_where, exists_where}
use cv_evaluator.Models.{JobSearch, is_live, frequency_daily, frequency_interval, next_run}
use cv_evaluator.Pipeline.Failure.{Result, ok, err}

-- MaxNameLength, MaxQueryLength, MaxLocationLength
abbrev pub max_name_length : ℕ
max_name_length = 100

abbrev pub max_query_length : ℕ
max_query_length = 200

abbrev pub max_location_length : ℕ
max_location_length = 200

-- The fields that validate rejects.
pub data Param : Type 0 where
  query location name frequency : Param

-- ErrNotFound, ErrDisabled, and ValidationError with Missing true and false
pub data ServiceError : Type 0 where
  not_found disabled : ServiceError
  missing invalid : Param → ServiceError

pub record CreateParams : Type 0 where
  pub name : Text
  pub query : Text
  pub location : Text
  pub frequency : Text
  pub enabled : Option Bool

pub record UpdateParams : Type 0 where
  pub name : Option Text
  pub query : Option Text
  pub location : Option Text
  pub frequency : Option Text
  pub enabled : Option Bool

abbrev with_name : JobSearch → JobSearch
with_name r = record r { name = if is_empty r.name then r.query else r.name }

abbrev check_frequency : JobSearch → Option ℕ → Result ServiceError JobSearch
check_frequency r none = err (ServiceError.invalid Param.frequency)
check_frequency r (some d) = ok r

abbrev check_name : JobSearch → Result ServiceError JobSearch
check_name r =
    if ltb max_name_length (length r.name)
    then err (ServiceError.invalid Param.name)
    else check_frequency r (frequency_interval r.frequency)

-- validate: the record with its default name, or the error
unfoldable pub validate : JobSearch → Result ServiceError JobSearch
validate r =
    if is_empty r.query
    then err (ServiceError.missing Param.query)
    else if ltb max_query_length (length r.query)
    then err (ServiceError.invalid Param.query)
    else if ltb max_location_length (length r.location)
    then err (ServiceError.invalid Param.location)
    else check_name (with_name r)

abbrev or_true : Option Bool → Bool
or_true none = true
or_true (some b) = b

-- The record of Create before it is validated
unfoldable pub new_search : ℕ → ℕ → ℕ → CreateParams → JobSearch
new_search id now user p = record {
  id = id;
  created_at = now;
  updated_at = now;
  deleted_at = none;
  user_id = user;
  name = trim_space p.name;
  query = trim_space p.query;
  location = trim_space p.location;
  frequency = if is_empty (trim_space p.frequency) then frequency_daily else trim_space p.frequency;
  enabled = or_true p.enabled;
  last_run_at = none;
  next_run_at = none;
}

-- (the record or the error), and the table
abbrev pub Reply : Type 0
Reply = Result ServiceError JobSearch × List JobSearch

abbrev inserted : ℕ → List JobSearch → Result ServiceError JobSearch → Reply
inserted now rows (err e) = (err e, rows)
inserted now rows (ok r) =
    let r' = if r.enabled then record r { next_run_at = some now } else r in (ok r', r' ∷ rows)

-- Create; `id` is the new id
unfoldable pub create : ℕ → ℕ → ℕ → CreateParams → List JobSearch → Reply
create id now user p rows = inserted now rows (validate (new_search id now user p))

-- List: the user's searches, newest first
unfoldable pub list : ℕ → List JobSearch → List JobSearch
list user rows =
    order_by (λ (a : JobSearch) (b : JobSearch). ltb b.created_at a.created_at)
      (select (λ (j : JobSearch). j.user_id == user && is_live j.deleted_at) rows)

abbrev pub is_owned : ℕ → ℕ → JobSearch → Bool
is_owned user id j = (j.id == id && j.user_id == user) && is_live j.deleted_at

-- Get
unfoldable pub get : ℕ → ℕ → List JobSearch → Option JobSearch
get user id rows = first_where (is_owned user id) rows

abbrev set_text : Text → Option Text → Text
set_text old none = old
set_text old (some t) = trim_space t

abbrev set_flag : Bool → Option Bool → Bool
set_flag old none = old
set_flag old (some b) = b

-- The record of Update before it is validated
unfoldable pub changed : UpdateParams → JobSearch → JobSearch
changed p r = record r {
  name = set_text r.name p.name;
  query = set_text r.query p.query;
  location = set_text r.location p.location;
  frequency = set_text r.frequency p.frequency;
  enabled = set_flag r.enabled p.enabled;
}

abbrev rescheduled : JobSearch → Option ℕ → Option ℕ
rescheduled r none = r.next_run_at
rescheduled r (some last) = some (next_run r last)

-- The switch of Update: the NextRunAt of the record `r`, which was `old`
unfoldable pub next_time : ℕ → JobSearch → JobSearch → Option ℕ
next_time now old r =
    if not r.enabled
    then none
    else if not old.enabled
    then some now
    else if text_eq r.frequency old.frequency
    then r.next_run_at
    else rescheduled r r.last_run_at

abbrev schedule : ℕ → JobSearch → JobSearch → JobSearch
schedule now old r = record r { next_run_at = next_time now old r }

abbrev pub has_live_id : ℕ → JobSearch → Bool
has_live_id id j = j.id == id && is_live j.deleted_at

-- Save: every column of the row
abbrev save : ℕ → JobSearch → List JobSearch → Reply
save now r rows =
    let r' = record r { updated_at = now } in
    (ok r', update_where (has_live_id r.id) (λ x. r') rows)

abbrev updated_row : ℕ → JobSearch → List JobSearch → Result ServiceError JobSearch → Reply
updated_row now old rows (err e) = (err e, rows)
updated_row now old rows (ok r) = save now (schedule now old r) rows

abbrev update_found : ℕ → UpdateParams → List JobSearch → Option JobSearch → Reply
update_found now p rows none = (err ServiceError.not_found, rows)
update_found now p rows (some old) = updated_row now old rows (validate (changed p old))

-- Update
unfoldable pub update : ℕ → ℕ → ℕ → UpdateParams → List JobSearch → Reply
update now user id p rows = update_found now p rows (get user id rows)

-- Delete: whether there was such a search, and the table
unfoldable pub delete : ℕ → ℕ → ℕ → List JobSearch → Option ServiceError × List JobSearch
delete now user id rows = (
  if exists_where (is_owned user id) rows then none else some ServiceError.not_found,
  update_where (is_owned user id) (λ (j : JobSearch). record j { deleted_at = some now }) rows,
)

abbrev run_enabled : ℕ → List JobSearch → JobSearch → Bool → Reply
run_enabled now rows r false = (err ServiceError.disabled, rows)
run_enabled now rows r true = (
  ok (record r { next_run_at = some now }),
  update_where (has_live_id r.id)
      (λ (j : JobSearch). record j { next_run_at = some now; updated_at = now }) rows,
)

abbrev run_found : ℕ → List JobSearch → Option JobSearch → Reply
run_found now rows none = (err ServiceError.not_found, rows)
run_found now rows (some r) = run_enabled now rows r r.enabled

-- RunNow
unfoldable pub run_now : ℕ → ℕ → ℕ → List JobSearch → Reply
run_now now user id rows = run_found now rows (get user id rows)

-- ===== src/Pipeline/Searches.antt =====
-- internal/pipeline/sources/sources.go: the saved searches that are due, and the claim of a run;
-- NextRunAfter of contracts.go, and runSearch and tick of pipeline.go.
pub mod Lease
pub mod Due
use cv_evaluator.Prelude.{
  ℕ, ◌+◌, ◌*◌, Bool, true, false, ◌&&◌, Option, none, some, List, [], ◌∷◌, ◌++◌, map, leb, ◌==◌,
  take, if◌then◌else◌,
}
use cv_evaluator.Prelude.Text.{Text, codes, text_eq}
use cv_evaluator.Prelude.Table.{select, update_where, count_where}
use cv_evaluator.Models.{JobSearch, is_live, hour, frequency_hourly, frequency_weekly}
use cv_evaluator.Pipeline.Config.{Config}
use cv_evaluator.Pipeline.Failure.{ForeignError, StepError, Result, ok, err, wrap}

-- Search
pub record Search : Type 0 where
  pub id : ℕ
  pub user_id : ℕ
  pub name : Text
  pub query : Text
  pub location : Text
  pub frequency : Text
  pub enabled : Bool
  pub last_run_at : Option ℕ
  pub next_run_at : Option ℕ

-- toSearch
unfoldable pub to_search : JobSearch → Search
to_search j = record {
  id = j.id;
  user_id = j.user_id;
  name = j.name;
  query = j.query;
  location = j.location;
  frequency = j.frequency;
  enabled = j.enabled;
  last_run_at = j.last_run_at;
  next_run_at = j.next_run_at;
}

-- next_run_at IS NOT NULL AND next_run_at <= now
unfoldable pub runs_by : ℕ → Option ℕ → Bool
runs_by now none = false
runs_by now (some t) = leb t now

-- The WHERE clause of DueSearches, with the one that gorm adds
unfoldable pub is_due_search : ℕ → JobSearch → Bool
unfolding runs_by
is_due_search now j = is_live j.deleted_at && (j.enabled && runs_by now j.next_run_at)

abbrev time_of : Option ℕ → ℕ
time_of none = 0
time_of (some t) = t

-- ORDER BY next_run_at ASC, of rows that are due; rows with equal times keep the table's order.
unfoldable pub insert_run : JobSearch → List JobSearch → List JobSearch
insert_run j [] = j ∷ []
insert_run j (k ∷ rows) =
    if leb (time_of j.next_run_at) (time_of k.next_run_at)
    then j ∷ k ∷ rows
    else k ∷ insert_run j rows

unfoldable pub by_next_run : List JobSearch → List JobSearch
by_next_run [] = []
by_next_run (j ∷ rows) = insert_run j (by_next_run rows)

-- DueSearches
unfoldable pub due_searches : ℕ → ℕ → List JobSearch → List Search
due_searches now limit rows =
    map to_search (take limit (by_next_run (select (is_due_search now) rows)))

-- The WHERE clause of ClaimRun, with the one that gorm adds
unfoldable pub may_run : ℕ → ℕ → JobSearch → Bool
unfolding is_due_search
may_run id now j = j.id == id && is_due_search now j

abbrev pub lease_until : ℕ → ℕ → JobSearch → JobSearch
lease_until now until j = record j { next_run_at = some until; updated_at = now }

-- ClaimRun: whether the run is the caller's, and the table
unfoldable pub claim_run : ℕ → ℕ → ℕ → List JobSearch → Bool × List JobSearch
claim_run id now until rows = (
  count_where (may_run id now) rows == 1,
  update_where (may_run id now) (lease_until now until) rows,
)

abbrev pub has_search_id : ℕ → JobSearch → Bool
has_search_id id j = j.id == id && is_live j.deleted_at

-- The SET clause of MarkRun, at the time `at`
unfoldable pub set_run : ℕ → ℕ → ℕ → JobSearch → JobSearch
set_run at ran_at next j = record j {
  last_run_at = some ran_at;
  next_run_at = if j.enabled then some next else none;
  updated_at = at;
}

-- MarkRun
unfoldable pub mark_run : ℕ → ℕ → ℕ → ℕ → List JobSearch → List JobSearch
mark_run at id ran_at next = update_where (has_search_id id) (set_run at ran_at next)

-- NextRunAfter
unfoldable pub next_run_after : Text → ℕ → ℕ
next_run_after frequency from =
    if text_eq frequency frequency_hourly
    then from + hour
    else if text_eq frequency frequency_weekly
    then from + 7 * 24 * hour
    else from + 24 * hour

-- What one run meets: its start and its end, what other workers and users do to the saved searches while the
-- portals are searched, whether the process is shutting down after it, and which of its statements
-- fail.
pub record RunEnv : Type 0 where
  pub started : ℕ
  pub ended : ℕ
  pub claim_error : Option ForeignError
  pub others : List JobSearch → List JobSearch
  pub cancelled : Bool
  pub mark_error : Option ForeignError

-- (whether the search ran, the error), and the table of saved searches
abbrev pub Run : Type 0
Run = Bool × Option StepError × List JobSearch

abbrev pub shutting_down : StepError
shutting_down = record { permanent = false; message = codes "context canceled" }

abbrev mark_step : RunEnv → Search → List JobSearch → Option ForeignError → Run
mark_step env s rows (some e) = (true, some (wrap (codes "mark search run: ") e), rows)
mark_step env s rows none =
    (true, none, mark_run env.ended s.id env.started (next_run_after s.frequency env.started) rows)

abbrev claimed_step : RunEnv → Search → Bool × List JobSearch → Run
claimed_step env s (false, rows) = (false, none, rows)
claimed_step env s (true, rows) =
    if env.cancelled
    then (true, some shutting_down, env.others rows)
    else mark_step env s (env.others rows) env.mark_error

abbrev claim_step : Config → RunEnv → Search → List JobSearch → Option ForeignError → Run
claim_step c env s rows (some e) = (false, some (wrap (codes "claim search: ") e), rows)
claim_step c env s rows none =
    claimed_step env s (claim_run s.id env.started (env.started + c.run_timeout) rows)

-- runSearch. What the portals' runs store is in other tables: see Postings.
unfoldable pub run_search : Config → RunEnv → Search → List JobSearch → Run
run_search c env s rows =
    if s.enabled then claim_step c env s rows env.claim_error else (false, none, rows)

abbrev first_error : Option StepError → Option StepError → Option StepError
first_error none e = e
first_error (some e) _ = some e

abbrev counted : Bool → ℕ → ℕ
counted true n = n + 1
counted false n = n

-- The loop of tick. The runs of different searches are about different rows; they are taken one
-- after the other.
unfoldable pub run_all :
    Config → (ℕ → RunEnv) → List Search → List JobSearch → ℕ × Option StepError × List JobSearch
run_all c env [] rows = (0, none, rows)
run_all c env (s ∷ ss) rows =
    let (ran, e, rows') = run_search c (env s.id) s rows in
    let (n, e', rows'') = run_all c env ss rows' in (counted ran n, first_error e e', rows'')

-- tick: how many searches ran, and the first error
unfoldable pub tick :
    Config
    → List Text
    → ℕ
    → Option ForeignError
    → (ℕ → RunEnv)
    → List JobSearch
    → ℕ × Option StepError × List JobSearch
tick c [] now error env rows = (0, none, rows)
tick c (p ∷ ps) now (some e) env rows =
    (0, some (wrap (codes "scheduler: load due searches: ") e), rows)
tick c (p ∷ ps) now none env rows = run_all c env (due_searches now c.search_batch rows) rows

-- ===== src/Pipeline/Config.antt =====
-- internal/pipeline/pipeline.go: Config, its defaults, New, and the backoff between attempts.
use cv_evaluator.Prelude.{
  ℕ, zero, suc, ◌-◌, ◌*◌, Bool, true, false, Option, none, some, List, [], ◌∷◌, ◌++◌, if◌then◌else◌,
  is_empty,
}
use cv_evaluator.Prelude.Text.{Text, codes}
use cv_evaluator.Prelude.Int.{ℤ, pos, negsuc, double_i64, le_i64, min_i64}
use cv_evaluator.Models.{second, minute, hour}

-- The fields as the caller sets them. Counts are `int`s and durations `int64` nanoseconds.
pub record RawConfig : Type 0 where
  pub max_pages : ℤ
  pub search_concurrency : ℤ
  pub embed_workers : ℤ
  pub evaluate_workers : ℤ
  pub stale_timeout : ℤ
  pub max_attempts : ℤ
  pub base_backoff : ℤ
  pub max_backoff : ℤ
  pub portal_attempts : ℤ
  pub portal_backoff : ℤ
  pub poll_interval : ℤ
  pub scheduler_interval : ℤ
  pub search_batch : ℤ
  pub run_timeout : ℤ
  pub no_cv_retry : ℤ
  pub shutdown_grace : ℤ
  pub model : Text
  pub prompt_version : Text

pub record Config : Type 0 where
  pub max_pages : ℕ
  pub search_concurrency : ℕ
  pub embed_workers : ℕ
  pub evaluate_workers : ℕ
  pub stale_timeout : ℕ
  pub max_attempts : ℕ
  pub base_backoff : ℕ
  pub max_backoff : ℕ
  pub portal_attempts : ℕ
  pub portal_backoff : ℕ
  pub poll_interval : ℕ
  pub scheduler_interval : ℕ
  pub search_batch : ℕ
  pub run_timeout : ℕ
  pub no_cv_retry : ℕ
  pub shutdown_grace : ℕ
  pub model : Text
  pub prompt_version : Text

-- def and defDur: if *v <= 0 { *v = d }
unfoldable pub def : ℤ → ℕ → ℕ
def (pos zero) d = d
def (pos (suc n)) d = suc n
def (negsuc n) d = d

-- if s == "" { s = d }
unfoldable pub def_text : Text → Text → Text
def_text s d = if is_empty s then d else s

abbrev pub default_model : Text
default_model = codes "deepseek-chat"

abbrev pub default_prompt_version : Text
default_prompt_version = codes "jobmatch.tpl/v3"

-- withDefaults, less the defaults of the clock and the observer
unfoldable pub with_defaults : RawConfig → Config
with_defaults c = record {
  max_pages = def c.max_pages 1;
  search_concurrency = def c.search_concurrency 2;
  embed_workers = def c.embed_workers 4;
  evaluate_workers = def c.evaluate_workers 2;
  stale_timeout = def c.stale_timeout (5 * minute);
  max_attempts = def c.max_attempts 5;
  base_backoff = def c.base_backoff (30 * second);
  max_backoff = def c.max_backoff hour;
  portal_attempts = def c.portal_attempts 3;
  portal_backoff = def c.portal_backoff (5 * second);
  poll_interval = def c.poll_interval (2 * second);
  scheduler_interval = def c.scheduler_interval minute;
  search_batch = def c.search_batch 100;
  run_timeout = def c.run_timeout (30 * minute);
  no_cv_retry = def c.no_cv_retry hour;
  shutdown_grace = def c.shutdown_grace (30 * second);
  model = def_text c.model default_model;
  prompt_version = def_text c.prompt_version default_prompt_version;
}

-- Which of the required dependencies are set (not nil).
pub record Wiring : Type 0 where
  pub db : Bool
  pub searches : Bool
  pub fetcher : Bool
  pub embedder : Bool
  pub evaluator : Bool

abbrev unless : Bool → Text → List Text
unless true name = []
unless false name = name ∷ []

unfoldable pub missing : Wiring → List Text
missing w =
    unless w.db (codes "DB")
    ++ (unless w.searches (codes "Searches")
        ++ (unless w.fetcher (codes "Fetcher")
            ++ (unless w.embedder (codes "Embedder") ++ unless w.evaluator (codes "Evaluator"))))

-- New: the configuration that the pipeline runs with, or `none` for the error that lists what is
-- missing
unfoldable pub create : Wiring → RawConfig → Option Config
create w c = if is_empty (missing w) then some (with_defaults c) else none

-- The loop of backoff: `n` rounds are left. The durations are int64 values.
unfoldable pub backoff_loop : ℕ → ℕ → ℕ → ℕ
backoff_loop max_backoff zero delay = min_i64 delay max_backoff
backoff_loop max_backoff (suc n) delay =
    let rest = backoff_loop max_backoff n (double_i64 delay) in
    if le_i64 max_backoff (double_i64 delay) then max_backoff else rest

-- for i := 1; i < attempt; i++ makes attempt - 1 rounds, none for 0 and 1
unfoldable pub backoff : Config → ℕ → ℕ
unfolding backoff_loop
backoff c attempt = backoff_loop c.max_backoff (attempt - 1) c.base_backoff

-- ===== src/Pipeline/Backoff.antt =====
-- internal/pipeline/pipeline.go: what the defaults and the backoff guarantee.
use native.Mathlib.Nat.{pow-suc}
use cv_evaluator.Prelude.{
  ℕ, zero, suc, ◌-◌, ◌*◌, ◌^◌, ◌≤◌, ◌<◌, min, ◌≡◌, true, some, [], ◌∷◌, arith, leb, ◌↔◌, ◌≢◌,
  Bool-cases, inl, inr, leb→le,
}
use cv_evaluator.Prelude.Text.{Text}
use cv_evaluator.Prelude.Int.{ℤ, pos, negsuc, min_i64, le_i64-leb, double_i64_lem}
use cv_evaluator.Pipeline.Config.{
  Config, RawConfig, def_text, Wiring, with_defaults, create, missing, def, backoff, backoff_loop,
}

pub pow_pos : (k : ℕ) → 1 ≤ 2 ^ k
pow_pos zero = omega arith
pow_pos (suc k) = rw pow-suc (omega (arith, pow_pos k))

-- One round: doubling before the test is doubling the start.
scale : (d k : ℕ) → d * 2 * 2 ^ k ≡ d * 2 ^ suc k
scale d k = rw pow-suc (omega arith)

min_i64_lem : (a b : ℕ) → a ≤ 2 ^ 62 → b ≤ 2 ^ 62 → min_i64 a b ≡ min a b
unfolding min_i64
min_i64_lem a b ha hb = rw (le_i64-leb a b (omega arith) (omega arith)) (ground arith)

capped : (m d k : ℕ) → m ≤ d → m ≡ min (d * 2 ^ k) m
capped m d k h = let p : d * 1 ≤ d * 2 ^ k = grind (arith, pow_pos k) in omega arith

backoff_loop_lem : (m n d : ℕ) → m ≤ 2 ^ 62 → d < 2 ^ 62 → backoff_loop m n d ≡ min (d * 2 ^ n) m
unfolding backoff_loop
backoff_loop_lem m zero d hm hd = rw (min_i64_lem d m (omega arith) hm) (omega arith)
backoff_loop_lem m (suc n) d hm hd = rw (double_i64_lem d (omega arith)) (
    rw (le_i64-leb m (d * 2) (omega arith) (omega arith)) (
      rw (← scale d n) (elim (Bool-cases (leb m (d * 2))) [
        | inl t ↦ rw t (capped m (d * 2) n (leb→le _ _ t))
        | inr f ↦ rw f (backoff_loop_lem m n (d * 2) hm (ground arith))
      ])))

-- The delay after the n-th failed attempt is the base delay doubled n - 1 times, capped at the
-- maximum, for a base below 2 ^ 62 nanoseconds (146 years) and a maximum of at most as many.
pub backoff_lem :
    (c : Config) (attempt : ℕ)
    → c.base_backoff < 2 ^ 62
    → c.max_backoff ≤ 2 ^ 62
    → backoff c attempt ≡ min (c.base_backoff * 2 ^ (attempt - 1)) c.max_backoff
unfolding backoff
backoff_lem c attempt hb hm = backoff_loop_lem c.max_backoff (attempt - 1) c.base_backoff hm hb

abbrev pub AllSet : Wiring → Type 0
AllSet w =
    (w.db ≡ true)
    × (w.searches ≡ true)
    × (w.fetcher ≡ true)
    × (w.embedder ≡ true)
    × (w.evaluator ≡ true)

pub record IsPositive (c : Config) : Type 0 where
  pub max_pages : 0 < c.max_pages
  pub search_concurrency : 0 < c.search_concurrency
  pub embed_workers : 0 < c.embed_workers
  pub evaluate_workers : 0 < c.evaluate_workers
  pub stale_timeout : 0 < c.stale_timeout
  pub max_attempts : 0 < c.max_attempts
  pub base_backoff : 0 < c.base_backoff
  pub max_backoff : 0 < c.max_backoff
  pub portal_attempts : 0 < c.portal_attempts
  pub portal_backoff : 0 < c.portal_backoff
  pub poll_interval : 0 < c.poll_interval
  pub scheduler_interval : 0 < c.scheduler_interval
  pub search_batch : 0 < c.search_batch
  pub run_timeout : 0 < c.run_timeout
  pub no_cv_retry : 0 < c.no_cv_retry
  pub shutdown_grace : 0 < c.shutdown_grace
  pub model : c.model ≢ []
  pub prompt_version : c.prompt_version ≢ []

def_pos : (z : ℤ) (d : ℕ) → 0 < d → 0 < def z d
unfolding def
def_pos (pos zero) d h = h
def_pos (pos (suc n)) d h = omega arith
def_pos (negsuc n) d h = h

def_text-ne-nil : (s d : Text) → d ≢ [] → def_text s d ≢ []
unfolding def_text
def_text-ne-nil [] d h = h
def_text-ne-nil (c ∷ s) d h = λ e. cc

-- Every count and every duration of a defaulted configuration is positive, whatever the caller
-- set, and its model and prompt version are not empty.
pub with_defaults-IsPositive : (c : RawConfig) → IsPositive (with_defaults c)
unfolding with_defaults
with_defaults-IsPositive c = record {
  max_pages = def_pos c.max_pages _ (omega arith);
  search_concurrency = def_pos c.search_concurrency _ (omega arith);
  embed_workers = def_pos c.embed_workers _ (omega arith);
  evaluate_workers = def_pos c.evaluate_workers _ (omega arith);
  stale_timeout = def_pos c.stale_timeout _ (omega arith);
  max_attempts = def_pos c.max_attempts _ (omega arith);
  base_backoff = def_pos c.base_backoff _ (omega arith);
  max_backoff = def_pos c.max_backoff _ (omega arith);
  portal_attempts = def_pos c.portal_attempts _ (omega arith);
  portal_backoff = def_pos c.portal_backoff _ (omega arith);
  poll_interval = def_pos c.poll_interval _ (omega arith);
  scheduler_interval = def_pos c.scheduler_interval _ (omega arith);
  search_batch = def_pos c.search_batch _ (omega arith);
  run_timeout = def_pos c.run_timeout _ (omega arith);
  no_cv_retry = def_pos c.no_cv_retry _ (omega arith);
  shutdown_grace = def_pos c.shutdown_grace _ (omega arith);
  model = def_text-ne-nil c.model _ (λ e. cc);
  prompt_version = def_text-ne-nil c.prompt_version _ (λ e. cc);
}

-- New returns a pipeline exactly when no dependency is missing.
pub create_iff : (w : Wiring) (c : RawConfig) → (create w c ≡ some (with_defaults c)) ↔ AllSet w
unfolding create missing
create_iff w c = let r = with_defaults c in (ground arith, ground arith)

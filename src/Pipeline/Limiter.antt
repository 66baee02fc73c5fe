-- ===== src/Pipeline/Limiter.antt =====
-- internal/pipeline/ratelimit.go: the RateLimiter that spaces out the calls of each portal. The
-- calls under its mutex are a sequence. The overrides of the interval are not negative.
pub mod Spacing
pub mod Penalty
use cv_evaluator.Prelude.{
  ℕ, ◌+◌, ◌-◌, ◌*◌, Bool, true, false, not, Option, none, some, List, [], ◌∷◌, ltb, ◌==◌,
  if◌then◌else◌,
}
use cv_evaluator.Prelude.Text.{Text, text_eq}
use cv_evaluator.Prelude.Int.{ℤ, double_i64, le_i64}
use cv_evaluator.Models.{second, minute}
use cv_evaluator.Pipeline.Config.{def}
use cv_evaluator.Pipeline.Failure.{ForeignError}

-- RateLimitOptions as the caller sets them, and after withDefaults
pub record RawOptions : Type 0 where
  pub interval : ℤ
  pub per_provider : List (Text × ℕ)
  pub max_penalty : ℤ

pub record Options : Type 0 where
  pub interval : ℕ
  pub per_provider : List (Text × ℕ)
  pub max_penalty : ℕ

unfoldable pub option_defaults : RawOptions → Options
option_defaults o = record {
  interval = def o.interval (2 * second);
  per_provider = o.per_provider;
  max_penalty = def o.max_penalty (10 * minute);
}

-- providerState; the zero time is 0.
pub record ProviderState : Type 0 where
  pub next : ℕ
  pub penalty : ℕ

abbrev pub States : Type 0
States = List (Text × ProviderState)

pub record RateLimiter : Type 0 where
  pub opts : Options
  pub states : States

-- NewRateLimiter
unfoldable pub new_limiter : RawOptions → RateLimiter
new_limiter o = record { opts = option_defaults o; states = [] }

-- o.PerProvider[provider], or else `d`
unfoldable pub override : Text → List (Text × ℕ) → ℕ → ℕ
override provider [] d = d
override provider ((k, v) ∷ m) d = if text_eq k provider then v else override provider m d

unfoldable pub interval : RateLimiter → Text → ℕ
interval l provider = override provider l.opts.per_provider l.opts.interval

abbrev pub fresh_state : ProviderState
fresh_state = record { next = 0; penalty = 0 }

-- state: a new one for a provider that has none
unfoldable pub state_in : Text → States → ProviderState
state_in provider [] = fresh_state
state_in provider ((k, st) ∷ m) = if text_eq k provider then st else state_in provider m

unfoldable pub set_state : Text → ProviderState → States → States
set_state provider st [] = (provider, st) ∷ []
set_state provider st ((k, u) ∷ m) =
    if text_eq k provider then (provider, st) ∷ m else (k, u) ∷ set_state provider st m

abbrev pub state : RateLimiter → Text → ProviderState
state l provider = state_in provider l.states

abbrev pub put : RateLimiter → Text → ProviderState → RateLimiter
put l provider st = record l { states = set_state provider st l.states }

-- start: the time of the slot that is booked
unfoldable pub slot : ProviderState → ℕ → ℕ
slot st now = if ltb now st.next then st.next else now

-- reserve: how long to wait, and the limiter
unfoldable pub reserve : RateLimiter → ℕ → Text → ℕ × RateLimiter
unfolding slot
reserve l now provider =
    let st = state l provider in
    let start = slot st now in
    (start - now, put l provider (record st { next = start + interval l provider }))

-- The new penalty after a failure
unfoldable pub raise_penalty : ℕ → ℕ → ℕ → ℕ
raise_penalty gap max_penalty penalty =
    let p = if penalty == 0 then gap else double_i64 penalty in
    if le_i64 p max_penalty then p else max_penalty

-- if next := now + penalty; next.After(st.next) { st.next = next }
unfoldable pub push_out : ℕ → ℕ → ProviderState → ProviderState
push_out now penalty st = record {
  next = if ltb st.next (now + penalty) then now + penalty else st.next;
  penalty = penalty;
}

abbrev report_failure : RateLimiter → ℕ → Text → RateLimiter
report_failure l now provider =
    let st = state l provider in
    put l provider
      (push_out now (raise_penalty (interval l provider) l.opts.max_penalty st.penalty) st)

-- Report
unfoldable pub report : RateLimiter → ℕ → Text → Option ForeignError → RateLimiter
report l now provider none = put l provider (record (state l provider) { penalty = 0 })
report l now provider (some e) =
    if e.canceled then put l provider (state l provider) else report_failure l now provider

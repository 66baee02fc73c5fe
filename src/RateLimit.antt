-- ===== src/RateLimit.antt =====
-- internal/servers/ratelimit: at most `limit` events per key in any window.
pub mod Recent
pub mod Spec
pub mod Refines
pub mod Retry
use cv_evaluator.Prelude.{
  ℕ, zero, suc, ◌+◌, ◌-◌, ◌%◌, max, Bool, true, false, Option, none, some, List, [], ◌∷◌, ◌++◌, ltb,
  leb, ◌==◌, if◌then◌else◌, is_empty, length,
}
use cv_evaluator.Prelude.Text.{Text, text_eq}

-- l.hits, a map from keys to the times of their events
abbrev pub Hits : Type 0
Hits = List (Text × List ℕ)

pub record Limiter : Type 0 where
  pub limit : ℕ
  pub window : ℕ
  pub hits : Hits
  pub calls : ℕ

abbrev pub sweep_every : ℕ
sweep_every = 1024

-- New
unfoldable pub create : ℕ → ℕ → Limiter
create limit window = record { limit = max 1 limit; window = window; hits = []; calls = 0 }

-- l.hits[key], nil for a missing key
unfoldable pub hits_of : Text → Hits → List ℕ
hits_of key [] = []
hits_of key ((k, ts) ∷ m) = if text_eq k key then ts else hits_of key m

-- l.hits[key] = ts
unfoldable pub set_hits : Text → List ℕ → Hits → Hits
set_hits key ts [] = (key, ts) ∷ []
set_hits key ts ((k, us) ∷ m) = if text_eq k key then (key, ts) ∷ m else (k, us) ∷ set_hits key ts m

-- The loop of recent: a hit is dropped while it is not after now - window.
unfoldable pub recent : ℕ → ℕ → List ℕ → List ℕ
recent window now [] = []
recent window now (t ∷ ts) =
    let rest = recent window now ts in if ltb now (t + window) then t ∷ ts else rest

-- sweep
unfoldable pub sweep : ℕ → ℕ → Hits → Hits
sweep window now [] = []
sweep window now ((k, ts) ∷ m) =
    let rest = sweep window now m in
    if is_empty (recent window now ts) then rest else (k, ts) ∷ rest

abbrev oldest : List ℕ → ℕ
oldest [] = 0
oldest (t ∷ ts) = t

-- The second half of Allow, on the hits that are left by the sweep.
abbrev decide : Limiter → Text → ℕ → List ℕ → (Bool × ℕ) × Limiter
decide l key now ts =
    if leb l.limit (length ts)
    then ((false, oldest ts + l.window - now), record l { hits = set_hits key ts l.hits })
    else ((true, 0), record l { hits = set_hits key (ts ++ now ∷ []) l.hits })

-- The first half of Allow: the call is counted, and every 1024th sweeps.
unfoldable pub swept : Limiter → ℕ → Limiter
swept l now = record l {
  calls = l.calls + 1;
  hits = if (l.calls + 1) % sweep_every == 0 then sweep l.window now l.hits else l.hits;
}

-- Allow: (whether the event is allowed, retryAfter), and the limiter
unfoldable pub allow : Limiter → Text → ℕ → (Bool × ℕ) × Limiter
allow l key now = let s = swept l now in decide s key now (recent s.window now (hits_of key s.hits))

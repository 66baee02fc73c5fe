-- ===== src/Pipeline/Workers.antt =====
-- internal/pipeline: several embed workers on one jobs table. Each claim and each write is one
-- atomic statement; between them anything may happen.
pub mod Holds
pub mod Exclusion
pub mod Safety
use cv_evaluator.Prelude.{
  ℕ, zero, suc, ◌+◌, ◌-◌, ◌≤◌, ◌<◌, ◌≡◌, ◌≢◌, refl, Bool, true, false, Option, none, some, List, [],
  ◌∷◌, ◌++◌, In, All, arith,
}
use cv_evaluator.Models.{Job, JobStatus}
use cv_evaluator.Pipeline.Config.{Config}
use cv_evaluator.Pipeline.Claim.{claim_job}
use cv_evaluator.Pipeline.Embed.{Portals, embed_step, record_job}
use cv_evaluator.Pipeline.Embed.Row.{IsValid}

-- A worker between its claim and its write: the row as claimed, and when.
pub record Hold : Type 0 where
  pub job : Job
  pub since : ℕ

pub record World : Type 0 where
  pub clock : ℕ
  pub jobs : List Job
  pub holds : List Hold

abbrev pub job_id_of : Hold → ℕ
job_id_of h = h.job.id

-- No worker has been at its job for longer than the stale timeout.
abbrev pub IsTimely : Config → World → Type 0
IsTimely c w = (h : Hold) → In h w.holds → w.clock ≤ h.since + c.stale_timeout

-- The list with `h` between `before` and `after`.
abbrev pub around : List Hold → Hold → List Hold → List Hold
around before h after = before ++ (h ∷ after)

-- One step of the system. The rows that are locked at a claim, the portals' answers and whether
-- the process is shutting down are arbitrary.
pub data Step (c : Config) : World → World → Type 0 where
  -- the clock moves
  wait : (w : World) (t : ℕ) → Step c w (record w { clock = t })
  -- a run of a search stores a new posting
  post :
      (w : World) (j : Job)
      → IsValid j
      → j.claimed_at ≡ none
      → ((k : Job) → In k w.jobs → j.id ≢ k.id)
      → ((h : Hold) → In h w.holds → j.id ≢ h.job.id)
      → Step c w (record w { jobs = j ∷ w.jobs })
  -- a worker claims a job
  claim :
      (w : World) (locked : ℕ → Bool) (job : Job) (jobs : List Job)
      → claim_job locked w.clock (w.clock - c.stale_timeout) w.jobs ≡ (some job, jobs)
      → Step c w (record w { jobs = jobs; holds = record { job = job; since = w.clock } ∷ w.holds })
  -- a worker writes the outcome of its job
  write :
      (w : World) (p : Portals) (cancelled : Bool) (before after : List Hold) (h : Hold)
      → w.holds ≡ around before h after
      → Step c w (record w {
        jobs = record_job c w.clock h.job (embed_step p h.job) cancelled w.jobs;
        holds = before ++ after;
      })
  -- a worker dies at its job: the row stays as it is
  die :
      (w : World) (before after : List Hold) (h : Hold)
      → w.holds ≡ around before h after
      → Step c w (record w { holds = before ++ after })

-- A run in which no worker outlives the stale timeout.
pub data Reach (c : Config) (v : World) : World → Type 0 where
  here : Reach c v v
  next : {w u : World} → Reach c v w → Step c w u → IsTimely c u → Reach c v u

-- A table of valid rows with distinct ids, and no worker at work.
pub record IsInitial (w : World) : Type 0 where
  pub idle : w.holds ≡ []
  pub valid : (r : Job) → In r w.jobs → IsValid r
  pub unique : (r s : Job) → In r w.jobs → In s w.jobs → r.id ≡ s.id → r ≡ s

-- No two of the workers are at the same job.
abbrev pub Apart : List Hold → Type 0
Apart [] = Unit
Apart (h ∷ hs) = All (λ k. h.job.id ≢ k.job.id) hs × Apart hs

-- ===== src/Tests/Pipeline.antt =====
-- The pipeline's claims, its embed step and its workers.
use Prim.Native.Nat.{◌^◌}
use mathlib.Core.Path.{subst}
use cv_evaluator.Prelude.{
  ℕ, ◌*◌, ◌-◌, min, ◌≡◌, refl, sym, ◌∙◌, Bool, true, false, none, some, [], ◌∷◌, In, arith, inl,
  inr, ◌⊎◌,
}
use cv_evaluator.Prelude.Int.{pos, negsuc, double_i64, le_i64, min_i64}
use cv_evaluator.Prelude.Table.{update_where, least, select, key_before}
use cv_evaluator.Models.{second, hour, Job, JobStatus, SearchResult}
use cv_evaluator.Pipeline.Config.{RawConfig, Wiring, with_defaults, backoff, def}
use cv_evaluator.Pipeline.Backoff.{backoff_lem}
use cv_evaluator.Pipeline.Claim.{
  claim_job, claim_result, start_job, has_job_id, job_key, claimable_job, next_job, has_result_id,
  result_key,
}
use cv_evaluator.Pipeline.Claim.Spec.{Claimable, ClaimableResult, IsNext, Idle, started_result}
use cv_evaluator.Pipeline.Claim.Choice.{claim_job_lem, claim_result_lem, locked_job, locked_result}
use cv_evaluator.Pipeline.Embed.{embed_step, record_job}
use cv_evaluator.Pipeline.Embed.Row.{IsValid}
use cv_evaluator.Pipeline.Workers.{Hold, World, Step, Reach, here, next, IsInitial, Apart}
use cv_evaluator.Pipeline.Workers.Exclusion.{IsHeld}
use cv_evaluator.Pipeline.Workers.Safety.{Reach-safe}
use cv_evaluator.Tests.Samples.{config, job, portals, result}

abbrev unset : RawConfig
unset = record {
  max_pages = pos 0;
  search_concurrency = negsuc 0;
  embed_workers = pos 3;
  evaluate_workers = pos 0;
  stale_timeout = pos 0;
  max_attempts = pos 0;
  base_backoff = pos 0;
  max_backoff = pos 0;
  portal_attempts = pos 0;
  portal_backoff = pos 0;
  poll_interval = pos 0;
  scheduler_interval = pos 0;
  search_batch = pos 0;
  run_timeout = pos 0;
  no_cv_retry = pos 0;
  shutdown_grace = pos 0;
  model = [];
  prompt_version = [];
}

default_workers : (with_defaults unset).embed_workers ≡ 3
unfolding with_defaults def
default_workers = refl

default_concurrency : (with_defaults unset).search_concurrency ≡ 2
unfolding with_defaults def
default_concurrency = refl

abbrev wired : Wiring
wired = record { db = true; searches = true; fetcher = true; embedder = true; evaluator = true }

backoff_third : backoff config 3 ≡ 120 * second
unfolding backoff double_i64 le_i64 min_i64
backoff_third = refl

backoff_lem_example : backoff config 9 ≡ min (30 * second * 2 ^ (9 - 1)) hour
backoff_lem_example = backoff_lem config 9 (omega arith) (omega arith)

abbrev unlocked : ℕ → Bool
unlocked id = false

abbrev started : Job
started = record job {
  status = JobStatus.processing;
  claimed_at = some 100;
  attempts = 1;
  updated_at = 100;
}

claims : claim_job unlocked 100 0 (job ∷ []) ≡ (some started, started ∷ [])
unfolding claim_job next_job claimable_job start_job least select update_where key_before
claims = refl

-- The claimed job is not claimed again.
claims_once : claim_job unlocked 101 50 (started ∷ []) ≡ (none, started ∷ [])
unfolding claim_job next_job claimable_job start_job least select update_where key_before
claims_once = refl

claim_job_lem_example :
    ((claim_job unlocked 100 0 (job ∷ []) ≡ (none, job ∷ []))
      × Idle (Claimable 100 0) (locked_job unlocked 100 0 (job ∷ [])) (job ∷ []))
    ⊎ ((j : Job) × IsNext
          (Claimable 100 0)
          (locked_job unlocked 100 0 (job ∷ []))
          job_key
          (job ∷ [])
          j
        × (claim_job unlocked 100 0 (job ∷ [])
            ≡ (some (start_job 100 j), update_where (has_job_id j.id) (start_job 100) (job ∷ []))))
claim_job_lem_example = claim_job_lem unlocked 100 0 (job ∷ [])

abbrev embedded : Job
embedded = record job { status = JobStatus.embedded; embedding = some (1 ∷ []) }

claim_result_lem_example :
    ((claim_result unlocked 100 0 (embedded ∷ []) (result ∷ []) ≡ (none, result ∷ []))
      × Idle
          (ClaimableResult (embedded ∷ []) 100 0)
          (locked_result unlocked 100 0 (embedded ∷ []) (result ∷ []))
          (result ∷ []))
    ⊎ ((r : SearchResult) × IsNext
          (ClaimableResult (embedded ∷ []) 100 0)
          (locked_result unlocked 100 0 (embedded ∷ []) (result ∷ []))
          result_key
          (result ∷ [])
          r
        × (claim_result unlocked 100 0 (embedded ∷ []) (result ∷ []) ≡ (
          some (started_result 100 r),
          update_where (has_result_id r.id) (started_result 100) (result ∷ []),
        )))
claim_result_lem_example = claim_result_lem unlocked 100 0 (embedded ∷ []) (result ∷ [])

-- A worker claims the one job, and embeds it in time.
abbrev waiting : World
waiting = record { clock = 100; jobs = job ∷ []; holds = [] }

abbrev working : World
working = record {
  clock = 100;
  jobs = started ∷ [];
  holds = record { job = started; since = 100 } ∷ [];
}

abbrev finished : World
finished = record {
  clock = 100;
  jobs = record_job config 100 started (embed_step portals started) false (started ∷ []);
  holds = [];
}

job-IsValid : IsValid job
job-IsValid = record {
  embedded_has_vector = λ h. cc;
  described_has_detail = λ h. cc;
  processing_is_claimed = λ h. cc;
  claimed_is_processing = λ h. absurd (h refl);
  failed_was_tried = λ h. cc;
}

waiting-IsInitial : IsInitial waiting
waiting-IsInitial = record {
  idle = refl;
  valid = λ r. elim [ inl e ↦ subst IsValid (sym e) job-IsValid | inr i ↦ elim i [ ] ];
  unique = λ r s. elim [
    | inl e ↦ elim [ inl f ↦ λ q. e ∙ sym f | inr i ↦ elim i [ ] ]
    | inr i ↦ elim i [ ]
  ];
}

claimed : Reach config waiting working
claimed =
    next here (Step.claim waiting unlocked started (started ∷ []) claims)
      (λ h. elim [ inl e ↦ rw e (omega arith) | inr i ↦ elim i [ ] ])

embedded_in_time : Reach config waiting finished
embedded_in_time =
    next claimed
      (Step.write working portals false [] [] (record { job = started; since = 100 }) refl)
      (λ h i. elim i [ ])

Reach-safe_example :
    Apart working.holds
    × ((h : Hold) (r : Job) → In h working.holds → In r working.jobs → r.id ≡ h.job.id → IsHeld h r)
    × ((r : Job) → In r working.jobs → IsValid r)
Reach-safe_example = Reach-safe config claimed waiting-IsInitial

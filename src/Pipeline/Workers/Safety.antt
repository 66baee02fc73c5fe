-- ===== src/Pipeline/Workers/Safety.antt =====
-- Every run of the embed workers in which none outlives the stale timeout.
use mathlib.Core.Path.{subst, subst₂}
use mathlib.Core.Option.{some-injective}
use cv_evaluator.Prelude.{
  ◌-◌, ◌≡◌, ◌≢◌, sym, ap, ◌∙◌, Bool, true, false, Option, some, List, ◌∷◌, ◌++◌, In, All, arith,
  inl, inr, ◌⊎◌, In-of_All,
}
use cv_evaluator.Prelude.Table.{update_where}
use cv_evaluator.Models.{Job}
use cv_evaluator.Pipeline.Config.{Config}
use cv_evaluator.Pipeline.Claim.{start_job, has_job_id}
use cv_evaluator.Pipeline.Claim.Choice.{claim_job_lem}
use cv_evaluator.Pipeline.Embed.{Portals, embed_step, embed_updates, has_live_id, record_job}
use cv_evaluator.Pipeline.Embed.Row.{
  IsValid, embed_updates-IsValid, embed_step-IsStep, embed_updates-frame,
}
use cv_evaluator.Pipeline.Workers.{
  Hold, World, IsTimely, around, Step, Reach, here, next, Apart, IsInitial,
}
use cv_evaluator.Pipeline.Workers.Holds.{In-around, around_self, Apart-around}
use cv_evaluator.Pipeline.Workers.Exclusion.{
  IsHeld, Inv, update_unique, updated_cases, post-Inv, drop-Inv, claim-Inv,
}

module _ (c : Config) (w : World) (inv : Inv w) where
  write-Inv :
      (p : Portals) (cancelled : Bool) (before after : List Hold) (h : Hold)
      → w.holds ≡ around before h after
      → Inv (record w {
        jobs = record_job c w.clock h.job (embed_step p h.job) cancelled w.jobs;
        holds = before ++ after;
      })
  unfolding record_job
  write-Inv p cancelled before after h e = record {
    valid = λ r m. elim (cases r m) [
      | inl (s, is, t, e') ↦ subst IsValid (sym e') (written s is (has_id s t))
      | inr (old, _) ↦ inv.valid r old
    ];
    unique = update_unique (has_live_id h.job.id) change w.jobs id-change inv.unique;
    held = λ k r m n q. elim (cases r n) [
      | inl (s, is, t, e') ↦
          absurd (
            others k m (sym (has_id s t) ∙ sym (id-change s) ∙ ap (λ (x : Job). x.id) (sym e') ∙ q))
      | inr (old, _) ↦ inv.held k r (subst (In k) (sym e) (In-around before after h k m)) old q
    ];
    apart = apart.0;
  }
    where
      change : Job → Job
      change = embed_updates c w.clock h.job (embed_step p h.job) cancelled

      cases :
          (r : Job)
          → In r (update_where (has_live_id h.job.id) change w.jobs)
          → ((s : Job) × In s w.jobs × (has_live_id h.job.id s ≡ true) × (r ≡ change s))
            ⊎ (In r w.jobs × (has_live_id h.job.id r ≡ false))
      cases = updated_cases (has_live_id h.job.id) change w.jobs

      has_id : (s : Job) → has_live_id h.job.id s ≡ true → s.id ≡ h.job.id
      has_id s t = ground arith

      id-change : (s : Job) → (change s).id ≡ s.id
      id-change s = (embed_updates-frame c w.clock h.job (embed_step p h.job) cancelled s).1

      written : (s : Job) → In s w.jobs → s.id ≡ h.job.id → IsValid (change s)
      written s is q =
          let held = inv.held h s (subst (In h) (sym e) (around_self before after h)) is q in
          embed_updates-IsValid c w.clock (embed_step p h.job) cancelled h.job s
            (embed_step-IsStep p h.job) (λ n d. n (sym held.detail ∙ d))
            ((inv.valid s is).processing_is_claimed held.status).1

      apart : Apart (before ++ after) × All (λ k. h.job.id ≢ k.job.id) (before ++ after)
      apart = Apart-around before after h (subst Apart e inv.apart)

      others : (k : Hold) → In k (before ++ after) → h.job.id ≢ k.job.id
      others = In-of_All (λ k. h.job.id ≢ k.job.id) (before ++ after) apart.1

Step-Inv : (c : Config) {w u : World} → Step c w u → IsTimely c w → Inv w → Inv u
Step-Inv c (Step.wait w t) timely inv = record {
  valid = inv.valid;
  unique = inv.unique;
  held = inv.held;
  apart = inv.apart;
}
Step-Inv c (Step.post w j v _ new free) timely inv = post-Inv c w inv j v new free
Step-Inv c (Step.claim w locked job jobs e) timely inv =
    elim (claim_job_lem locked w.clock (w.clock - c.stale_timeout) w.jobs) [
      | inl (idle, _) ↦ cc
      | inr (j, is_next, e') ↦
          let q : (some job, jobs) ≡ (
            some (start_job w.clock j),
            update_where (has_job_id j.id) (start_job w.clock) w.jobs,
          ) =
            sym e ∙ e' in
          subst₂
            (λ b t.
              Inv (record w { jobs = t; holds = record { job = b; since = w.clock } ∷ w.holds }))
            (some-injective _ _ (ap (λ (x : Option Job × List Job). x.0) (sym q)))
            (ap (λ (x : Option Job × List Job). x.1) (sym q))
            (claim-Inv c w inv j timely is_next.member is_next.may)
    ]
Step-Inv c (Step.write w p cancelled before after h e) timely inv =
    write-Inv c w inv p cancelled before after h e
Step-Inv c (Step.die w before after h e) timely inv = drop-Inv c w inv before after h e

Reach-Inv : (c : Config) {v w : World} → Reach c v w → IsTimely c v → Inv v → Inv w × IsTimely c w
Reach-Inv c here timely inv = (inv, timely)
Reach-Inv c (next r st t) timely inv =
    let (i, timely') = Reach-Inv c r timely inv in (Step-Inv c st timely' i, t)

-- Every claim, write, death of a worker and new posting, in any order: as long as no worker is at
-- its job for longer than the stale timeout, no two workers are ever at the same job, every job
-- that a worker is at is marked as processing since that worker's claim, and every row of the table
-- is valid.
pub Reach-safe :
    (c : Config) {v w : World}
    → Reach c v w
    → IsInitial v
    → Apart w.holds
      × ((h : Hold) (r : Job) → In h w.holds → In r w.jobs → r.id ≡ h.job.id → IsHeld h r)
      × ((r : Job) → In r w.jobs → IsValid r)
Reach-safe c {v} {w} r init =
    let start : Inv v = record {
      valid = init.valid;
      unique = init.unique;
      held = λ h s i. absurd (subst (In h) init.idle i);
      apart = rw init.idle tt;
    } in
    let (inv, _) = Reach-Inv c r (λ h i. absurd (subst (In h) init.idle i)) start in
    (inv.apart, inv.held, inv.valid)
